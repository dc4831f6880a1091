-- ===== src/Service/NodeManage/Adding.antt =====
-- The chunks of nodes that an application adds, in src/service/node_manage.rs, and the maps of the
-- configuration.
use plc_service_rust.Base.{
  String, if◌then◌else◌, List, [], ◌∷◌, ◌++◌, none, Outcome, ok, err, panic, Bool, true, false, not,
  Bool-cases, inl, inr, All, All-snoc, ◌≡◌, refl, sym, ap, subst,
}
use plc_service_rust.Service.Action.{ServiceError, continue}
use plc_service_rust.Service.Dict.{same, get}
use plc_service_rust.Service.NodeConfig.{
  NodeInfo, Shared, NodeConfig, Backend, touch, push, share, add_config, add_node_info_exist,
}
use plc_service_rust.Service.NodeConfig.Consistent.{IsValid}
use plc_service_rust.Service.NodeConfig.Operations.{
  continue-done, exist-cases, add_node_info_exist-IsValid, add_node_info_exist-absent,
}
use plc_service_rust.Service.NodeManage.{collect}

-- No node of the list has the address.
abbrev pub Lacks : List NodeInfo → String → Type 0
Lacks nodes addr = All (λ node. same addr node.acq_addr ≡ false) nodes

-- The addresses differ.
abbrev pub IsUnrepeated : List NodeInfo → Type 0
IsUnrepeated [] = Unit
IsUnrepeated (node ∷ nodes) = Lacks nodes node.acq_addr × IsUnrepeated nodes

-- The global map has none of the nodes.
abbrev pub AllAbsent : {Storage : Type 0} → NodeConfig Storage → List NodeInfo → Type 0
AllAbsent s nodes = All (λ node. get node.acq_addr s.global_data ≡ none) nodes

snoc-IsUnrepeated :
    (xs : List NodeInfo) (x : NodeInfo)
    → IsUnrepeated xs
    → All (λ y. same y.acq_addr x.acq_addr ≡ false) xs
    → IsUnrepeated (xs ++ (x ∷ []))
snoc-IsUnrepeated [] x u h = (tt, tt)
snoc-IsUnrepeated (y ∷ xs) x (off, u) (q, h) =
    (All-snoc (λ z. same y.acq_addr z.acq_addr ≡ false) xs x off q, snoc-IsUnrepeated xs x u h)

-- What the lookup of a chunk has collected, with what is still to come.
pub record Progress {Storage : Type 0} (s : NodeConfig Storage) (collected to_come : List NodeInfo)
    : Type 0 where
  pub valid : IsValid s
  pub absent : AllAbsent s collected
  pub unrepeated : IsUnrepeated collected
  pub ahead : IsUnrepeated to_come
  pub between : All (λ node. Lacks to_come node.acq_addr) collected

module _ {Storage : Type 0} (backend : Backend Storage) (app : String) where
  share-global :
      (node : NodeInfo) (x : Shared) (s : NodeConfig Storage)
      → (share backend app node false x s).0.global_data ≡ s.global_data
  unfolding share add_config
  share-global node x s = elim (Bool-cases (same x.node.pro_type node.pro_type)) [
    | inl e ↦ rw e (
        ap (λ z. z.global_data)
          (continue-done true (add_config backend app (node ∷ []) (push app x s))))
    | inr e ↦ rw e
  ]

  -- A lookup leaves the global map.
  exist-global :
      (node : NodeInfo) (s : NodeConfig Storage)
      → IsValid s
      → (add_node_info_exist backend app node false s).0.global_data ≡ s.global_data
  exist-global node s c = elim (exist-cases backend app node false s c) [
    | inl (x, found, e) ↦ rw e
    | inr (inl (x, has, absent, e)) ↦ rw e (share-global node x (touch app s))
    | inr (inr (gone, absent, e)) ↦ rw e
  ]

  tail-between :
      (collected : List NodeInfo) (node : NodeInfo) (nodes : List NodeInfo)
      → All (λ y. Lacks (node ∷ nodes) y.acq_addr) collected
      → All (λ y. Lacks nodes y.acq_addr) collected
        × All (λ y. same y.acq_addr node.acq_addr ≡ false) collected
  tail-between [] node nodes h = (tt, tt)
  tail-between (y ∷ ys) node nodes ((q, l), h) =
      let (a, b) = tail-between ys node nodes h in ((l, a), (q, b))

  -- One node looked up.
  lookup-Progress :
      (node : NodeInfo) (nodes collected : List NodeInfo) (s : NodeConfig Storage) (answer : Bool)
      → Progress s collected (node ∷ nodes)
      → (add_node_info_exist backend app node false s).1 ≡ ok answer
      → Progress
          (add_node_info_exist backend app node false s).0
          (if not answer then collected ++ (node ∷ []) else collected)
          nodes
  lookup-Progress node nodes collected s true p e = record {
    valid = add_node_info_exist-IsValid backend app node false s p.valid;
    absent =
        subst (λ g. All (λ y. get y.acq_addr g ≡ none) collected)
          (sym (exist-global node s p.valid)) p.absent;
    unrepeated = p.unrepeated;
    ahead = p.ahead.1;
    between = (tail-between collected node nodes p.between).0;
  }
  lookup-Progress node nodes collected s false p e =
      let r : NodeConfig Storage × Outcome ServiceError Bool =
        add_node_info_exist backend app node false s in
      let whole : r ≡ (r.0, ok false) = ap (λ o. (r.0, o)) e in
      let gone : get node.acq_addr s.global_data ≡ none =
        (add_node_info_exist-absent backend app node false s p.valid whole).0 in
      let (rest, apart) = tail-between collected node nodes p.between in
      record {
        valid = add_node_info_exist-IsValid backend app node false s p.valid;
        absent =
            subst (λ g. All (λ y. get y.acq_addr g ≡ none) (collected ++ (node ∷ [])))
              (sym (exist-global node s p.valid))
              (All-snoc (λ y. get y.acq_addr s.global_data ≡ none) collected node p.absent gone);
        unrepeated = snoc-IsUnrepeated collected node p.unrepeated apart;
        ahead = p.ahead.1;
        between = All-snoc (λ y. Lacks nodes y.acq_addr) collected node rest (p.ahead.0);
      }

  -- The whole chunk.
  abbrev pub Collected : NodeConfig Storage × Outcome ServiceError (List NodeInfo) → Type 0
  Collected r =
      IsValid (r.0)
      × ((out : List NodeInfo) → r.1 ≡ ok out → AllAbsent (r.0) out × IsUnrepeated out)

  pub collect-Collected :
      (nodes collected : List NodeInfo) (s : NodeConfig Storage)
      → Progress s collected nodes
      → Collected
          (collect (λ node. add_node_info_exist backend app node false) not nodes collected s)
  unfolding collect
  collect-Collected [] collected s p = (
    p.valid,
    λ out e.
        let same_ : collected ≡ out = cc in
        subst (λ l. AllAbsent s l × IsUnrepeated l) same_ (p.absent, p.unrepeated),
  )
  collect-Collected (node ∷ nodes) collected s p =
      after (add_node_info_exist backend app node false s)
        (add_node_info_exist-IsValid backend app node false s p.valid)
        (λ answer e.
          collect-Collected nodes (if not answer then collected ++ (node ∷ []) else collected)
            (add_node_info_exist backend app node false s).0
            (lookup-Progress node nodes collected s answer p e))
    where
      after :
          (r : NodeConfig Storage × Outcome ServiceError Bool)
          → IsValid (r.0)
          → ((answer : Bool)
              → r.1 ≡ ok answer
              → Collected (
                  collect
                    (λ node. add_node_info_exist backend app node false)
                    not
                    nodes
                    (if not answer then collected ++ (node ∷ []) else collected)
                    (r.0)))
          → Collected (
              continue r (λ answer.
                collect
                  (λ node. add_node_info_exist backend app node false)
                  not
                  nodes
                  (if not answer then collected ++ (node ∷ []) else collected)))
      after (z, ok answer) v next = next answer refl
      after (z, err e) v next = (v, λ out h. cc)
      after (z, panic) v next = (v, λ out h. cc)
