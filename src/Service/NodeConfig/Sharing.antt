-- ===== src/Service/NodeConfig/Sharing.antt =====
-- `should_remove_node_info` and `remove_node_info_checked` of src/service/node_config.rs.
use plc_service_rust.Base.{
  if◌then◌else◌, ℕ, ◌+◌, ◌==◌, ==_iff, ne→==_false, String, List, [], ◌∷◌, none, some, true, false,
  Option-cases, inl, inr, ◌≡◌, ◌≢◌, ap, ◌∙◌, sym, subst, arith, Outcome, ok, err, panic, get_elem?,
}
use plc_service_rust.Service.Action.{continue, done, ServiceError}
use plc_service_rust.Service.Dict.{same, get, remove}
use plc_service_rust.Service.NodeConfig.{
  NodeInfo, Shared, NodeConfig, Backend, app_data, strong_count, position, remove_at, with_app,
  del_config, release, forget, remove_node_info_checked, should_remove_node_info,
}
use plc_service_rust.Service.NodeConfig.Nodes.{
  holds, holds-position, position-none, one_if, Removal, position-Removal, All-Removal,
  Removal-IsDistinct, holds-Removal,
}
use plc_service_rust.Service.NodeConfig.Applications.{
  holders, app_data-get, app_data-get-none, app_data-update, holders-update,
}
use plc_service_rust.Service.NodeConfig.Consistent.{
  IsKnown, IsConsistent, IsValid, strong_count-holders,
}
use plc_service_rust.Service.NodeConfig.Adding.{app-IsKnown, app-IsDistinct}
use plc_service_rust.Service.NodeConfig.Removing.{release-IsConsistent, forget-IsConsistent}
use plc_service_rust.Service.NodeConfig.Operations.{continue-done}

-- Where an application's node stands in the maps.
pub record Place {Storage : Type 0} (app : String) (node : NodeInfo) (s : NodeConfig Storage)
    : Type 0 where
  pub nodes : List Shared
  pub pos : ℕ
  pub shared : Shared
  pub of_app : get app s.node_data ≡ some nodes
  pub at : position node.acq_addr nodes ≡ some pos
  pub there : get_elem? nodes pos ≡ some shared
  pub named : shared.node.acq_addr ≡ node.acq_addr
  pub removed : Removal shared (app_data app s.node_data) (remove_at pos (app_data app s.node_data))

module _ {Storage : Type 0} (app : String) (node : NodeInfo) (s : NodeConfig Storage) where
  place : holds node.acq_addr (app_data app s.node_data) ≡ true → Place app node s
  unfolding holds
  place held = elim (Option-cases (get app s.node_data)) [
    | inl none_ ↦
        let empty : holds node.acq_addr [] ≡ true =
          subst (λ l. holds node.acq_addr l ≡ true) (app_data-get-none app s.node_data none_)
            held in
        absurd (cc empty)
    | inr (nodes, has) ↦
        let whole : app_data app s.node_data ≡ nodes = app_data-get app s.node_data has in
        let (pos, at) =
          holds-position node.acq_addr nodes
            (subst (λ l. holds node.acq_addr l ≡ true) whole held) in
        let (x, there, named, removed) = position-Removal node.acq_addr nodes pos at in
        record {
          nodes = nodes;
          pos = pos;
          shared = x;
          of_app = has;
          at = at;
          there = there;
          named = named;
          removed = subst (λ l. Removal x l (remove_at pos l)) (sym whole) removed;
        }
  ]

  module _ (c : IsValid s) (p : Place app node s) where
    -- What stands there is the allocation of the address.
    place_known : get node.acq_addr s.global_data ≡ some p.shared
    place_known =
        subst (λ a. get a s.global_data ≡ some p.shared) p.named
          (All-Removal (IsKnown s.global_data) p.removed (app-IsKnown c app)).0

    place_count : strong_count p.shared.id s.node_data ≡ holders node.acq_addr s.node_data
    place_count = strong_count-holders c node.acq_addr p.shared place_known

    -- After the removal the application does not hold the address.
    place_gone :
        holds node.acq_addr (app_data app (with_app app (remove_at p.pos) s).node_data) ≡ false
    place_gone =
        ap (holds node.acq_addr) (app_data-update app (remove_at p.pos) s.node_data)
        ∙ subst (λ a. holds a (remove_at p.pos (app_data app s.node_data)) ≡ false) p.named
            (Removal-IsDistinct p.removed (app-IsDistinct c app)).1

module _ {Storage : Type 0} (backend : Backend Storage) (app : String) (node : NodeInfo)
    (s : NodeConfig Storage) (c : IsValid s) where
  -- What another application has too is released.
  should_remove_shared :
      (p : Place app node s)
      → strong_count p.shared.id s.node_data ≢ 1
      → should_remove_node_info backend app node s ≡ release backend app p.pos p.shared s
  unfolding should_remove_node_info
  should_remove_shared p many =
      let counted : (strong_count p.shared.id s.node_data == 1) ≡ false = ne→==_false _ _ many in
      rw (p.of_app, p.at, p.there, counted, should_remove_node_info)

  should_remove_last :
      (p : Place app node s)
      → strong_count p.shared.id s.node_data ≡ 1
      → should_remove_node_info backend app node s ≡ (s, ok true)
  unfolding should_remove_node_info
  should_remove_last p one =
      let counted : (strong_count p.shared.id s.node_data == 1) ≡ true = (==_iff _ _).1 one in
      rw (p.of_app, p.at, p.there, counted, should_remove_node_info)

  -- What is left after a release.
  abbrev pub Released : NodeConfig Storage → Type 0
  Released z =
      (holds node.acq_addr (app_data app z.node_data) ≡ false)
      × (holders node.acq_addr z.node_data + 1 ≡ holders node.acq_addr s.node_data)
      × IsValid z

  release-Released :
      holds node.acq_addr (app_data app s.node_data) ≡ true
      → (p : Place app node s) → strong_count p.shared.id s.node_data ≢ 1
      → Released (release backend app p.pos p.shared s).0
  unfolding release del_config
  release-Released held p many =
      let z : NodeConfig Storage = with_app app (remove_at p.pos) s in
      let gone : holds node.acq_addr (app_data app z.node_data) ≡ false =
        place_gone app node s c p in
      let less : holders node.acq_addr z.node_data + 1 ≡ holders node.acq_addr s.node_data =
        let counted : holders node.acq_addr z.node_data
              + one_if (holds node.acq_addr (app_data app s.node_data))
            ≡ holders node.acq_addr s.node_data
              + one_if (holds node.acq_addr (remove_at p.pos (app_data app s.node_data))) =
          holders-update app (remove_at p.pos) node.acq_addr s.node_data in
        let after : holds node.acq_addr (remove_at p.pos (app_data app s.node_data)) ≡ false =
          sym (ap (holds node.acq_addr) (app_data-update app (remove_at p.pos) s.node_data))
          ∙ gone in
        omega (arith, counted, ap one_if held, ap one_if after) in
      subst (λ r. Released r)
        (sym (continue-done false (del_config backend app (p.shared.node ∷ []) z)))
        (gone, less, release-IsConsistent c app (remove_at p.pos) p.removed many)

  release-ne-true : (p : Place app node s) → (release backend app p.pos p.shared s).1 ≢ ok true
  unfolding release
  release-ne-true p =
      false_only (del_config backend app (p.shared.node ∷ []) (with_app app (remove_at p.pos) s))
    where
      false_only :
          (m : NodeConfig Storage × Outcome ServiceError (Unit {0}))
          → (continue m (λ _. done false)).1 ≢ ok true
      false_only (z, ok a) f = cc f
      false_only (z, err failure) f = cc f
      false_only (z, panic) f = cc f

  -- The module is asked to remove a node that an application holds just when no other application
  -- holds it, and then nothing changes yet; otherwise the application gives it up, the other
  -- applications keep it, and the two maps stay together.
  pub should_remove-holders :
      holds node.acq_addr (app_data app s.node_data) ≡ true
      → (holders node.acq_addr s.node_data ≡ 1
          → should_remove_node_info backend app node s ≡ (s, ok true))
        × (holders node.acq_addr s.node_data ≢ 1
            → ((should_remove_node_info backend app node s).1 ≢ ok true)
              × Released (should_remove_node_info backend app node s).0)
  should_remove-holders held =
      let p : Place app node s = place app node s held in
      let count : strong_count p.shared.id s.node_data ≡ holders node.acq_addr s.node_data =
        place_count app node s c p in
      (
        λ one. should_remove_last p (count ∙ one),
        λ many.
            let many_ : strong_count p.shared.id s.node_data ≢ 1 = λ one. many (sym count ∙ one) in
            let same_ : should_remove_node_info backend app node s
                ≡ release backend app p.pos p.shared s =
              should_remove_shared p many_ in
            (
              λ e. release-ne-true p (sym (ap (λ r. r.1) same_) ∙ e),
              subst (λ r. Released (r.0)) (sym same_) (release-Released held p many_),
            ),
      )

  -- The removal itself, of a node that no other application holds.
  pub remove_node_info_checked_last :
      holds node.acq_addr (app_data app s.node_data) ≡ true
      → holders node.acq_addr s.node_data ≡ 1
      → (z : NodeConfig Storage) × (remove_node_info_checked app node s ≡ (z, ok tt))
        × (holds node.acq_addr (app_data app z.node_data) ≡ false)
        × ((addr : String)
            → same node.acq_addr addr ≡ false
            → (holds addr (app_data app z.node_data) ≡ holds addr (app_data app s.node_data))
              × (holders addr z.node_data ≡ holders addr s.node_data))
        × IsValid z
  unfolding remove_node_info_checked forget
  remove_node_info_checked_last held one =
      let p : Place app node s = place app node s held in
      let known : get node.acq_addr s.global_data ≡ some p.shared = place_known app node s c p in
      let only : strong_count p.shared.id s.node_data ≡ 1 = place_count app node s c p ∙ one in
      let z : NodeConfig Storage = record (with_app app (remove_at p.pos) s) {
        global_data = remove node.acq_addr s.global_data;
      } in
      (
        z,
        rw (p.of_app, p.at, known, forget, remove_node_info_checked),
        place_gone app node s c p,
        others p,
        subst (λ a. IsConsistent z.node_data (remove a s.global_data) s.allocated) p.named
            (forget-IsConsistent c app (remove_at p.pos) p.removed only),
      )
    where
      -- The other addresses stay with the applications that hold them.
      others :
          (p : Place app node s) (addr : String)
          → same node.acq_addr addr ≡ false
          → (holds addr (app_data app (with_app app (remove_at p.pos) s).node_data)
              ≡ holds addr (app_data app s.node_data))
            × (holders addr (with_app app (remove_at p.pos) s).node_data ≡ holders addr s.node_data)
      others p addr off =
          let cut : holds addr (app_data app s.node_data) ≡ (
              if same p.shared.node.acq_addr addr
              then true
              else holds addr (remove_at p.pos (app_data app s.node_data))) =
            holds-Removal addr p.removed in
          let off_ : same p.shared.node.acq_addr addr ≡ false =
            subst (λ a. same a addr ≡ false) (sym p.named) off in
          let kept : holds addr (app_data app s.node_data)
              ≡ holds addr (remove_at p.pos (app_data app s.node_data)) =
            rw off_ at cut in
          let counted : holders addr (with_app app (remove_at p.pos) s).node_data
                + one_if (holds addr (app_data app s.node_data))
              ≡ holders addr s.node_data
                + one_if (holds addr (remove_at p.pos (app_data app s.node_data))) =
            holders-update app (remove_at p.pos) addr s.node_data in
          (
            ap (holds addr) (app_data-update app (remove_at p.pos) s.node_data) ∙ sym kept,
            omega (arith, counted, ap one_if kept),
          )

module _ {Storage : Type 0} (app : String) (node : NodeInfo) (s : NodeConfig Storage) where
  -- The removal of a node that the application does not hold.
  pub remove_node_info_checked_missing :
      holds node.acq_addr (app_data app s.node_data) ≡ false
      → remove_node_info_checked app node s ≡ (s, panic)
  unfolding remove_node_info_checked
  remove_node_info_checked_missing gone = elim (Option-cases (get app s.node_data)) [
    | inl e ↦ rw (e, remove_node_info_checked)
    | inr (nodes, e) ↦
        let off : position node.acq_addr nodes ≡ none =
          position-none node.acq_addr nodes
            (subst (λ l. holds node.acq_addr l ≡ false) (app_data-get app s.node_data e) gone) in
        rw (e, off, remove_node_info_checked)
  ]
