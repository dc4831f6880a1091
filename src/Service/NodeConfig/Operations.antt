-- ===== src/Service/NodeConfig/Operations.antt =====
-- The operations of src/service/node_config.rs, whole: which keep its two maps together, what they
-- return and what they change for each application.
use plc_service_rust.Base.{
  String, if◌then◌else◌, [], ◌∷◌, none, some, true, false, Bool, Bool-cases, Option-cases, inl, inr,
  ◌≡◌, ◌≢◌, ◌⊎◌, refl, ap, ◌∙◌, sym, subst, Outcome, ok, err, panic,
}
use plc_service_rust.Service.Action.{continue, done, change, ServiceError, type_mismatch}
use plc_service_rust.Service.Dict.{same, get, update}
use plc_service_rust.Service.NodeConfig.{
  NodeInfo, Shared, NodeConfig, Backend, app_data, find, touch, push, get_node_info, add_config,
  add_node_info_exist, add_node_info_checked, add_node_info, share,
}
use plc_service_rust.Service.NodeConfig.Nodes.{holds, find-holds}
use plc_service_rust.Service.NodeConfig.Applications.{app_data-update}
use plc_service_rust.Service.NodeConfig.Consistent.{IsKnown, IsValid, get_node_info-valid}
use plc_service_rust.Service.NodeConfig.Adding.{
  touch-IsConsistent, push-IsConsistent, made-IsConsistent,
}

module _ {S A B : Type 0} (b : B) where
  -- What only returns leaves the state.
  pub continue-done : (m : S × Outcome ServiceError A) → (continue m (λ _. done b)).0 ≡ m.0
  continue-done (s, ok a) = refl
  continue-done (s, err e) = refl
  continue-done (s, panic) = refl

module _ {Storage : Type 0} (backend : Backend Storage) (app : String) (node : NodeInfo) where
  share-IsValid :
      (is_init : Bool) (x : Shared) (s : NodeConfig Storage)
      → IsValid s
      → IsKnown s.global_data x
      → holds x.node.acq_addr (app_data app s.node_data) ≡ false
      → IsValid (share backend app node is_init x s).0
  unfolding share add_config
  share-IsValid is_init x s c k absent = elim (Bool-cases (same x.node.pro_type node.pro_type)) [
    | inl e ↦ rw e (kept is_init)
    | inr e ↦ rw e c
  ]
    where
      kept :
          (is_init : Bool)
          → IsValid
              (continue
                ((if is_init then done tt else add_config backend app (node ∷ [])) (push app x s))
                (λ _. done true)).0
      kept true = push-IsConsistent c app x k absent
      kept false =
          subst (λ z. IsValid z)
            (sym (continue-done true (add_config backend app (node ∷ []) (push app x s))))
            (push-IsConsistent c app x k absent)

  share-ne-false :
      (is_init : Bool) (x : Shared) (s s' : NodeConfig Storage)
      → share backend app node is_init x s ≢ (s', ok false)
  unfolding share
  share-ne-false is_init x s s' h = elim (Bool-cases (same x.node.pro_type node.pro_type)) [
    | inl e ↦
        true_only ((if is_init then done tt else add_config backend app (node ∷ [])) (push app x s))
          (rw e at h)
    | inr e ↦ cc (rw e at h)
  ]
    where
      true_only :
          (m : NodeConfig Storage × Outcome ServiceError (Unit {0}))
          → continue m (λ _. done true) ≢ (s', ok false)
      true_only (z, ok a) f = cc f
      true_only (z, err failure) f = cc f
      true_only (z, panic) f = cc f

  module _ (is_init : Bool) (s : NodeConfig Storage) (c : IsValid s) where
    touched-IsValid : IsValid (touch app s)
    touched-IsValid = touch-IsConsistent c app

    same_nodes : app_data app (touch app s).node_data ≡ app_data app s.node_data
    same_nodes = app_data-update app (λ nodes. nodes) s.node_data

    -- What a lookup comes to: the application has the node, another has it, or none.
    pub exist-cases :
        ((x : Shared) × (find node.acq_addr (app_data app s.node_data) ≡ some x)
          × (add_node_info_exist backend app node is_init s ≡ (
            touch app s,
            (if same x.node.pro_type node.pro_type
                then ok true
                else err (type_mismatch node.pro_type x.node.pro_type)),
          )))
        ⊎ (((x : Shared) × (get node.acq_addr s.global_data ≡ some x)
              × (holds node.acq_addr (app_data app s.node_data) ≡ false)
              × (add_node_info_exist backend app node is_init s
                  ≡ share backend app node is_init x (touch app s)))
            ⊎ ((get node.acq_addr s.global_data ≡ none)
                × (holds node.acq_addr (app_data app s.node_data) ≡ false)
                × (add_node_info_exist backend app node is_init s ≡ (touch app s, ok false))))
    unfolding add_node_info_exist update
    exist-cases = elim (Option-cases (find node.acq_addr (app_data app s.node_data))) [
      | inr (x, found) ↦ inl (
        x,
        found,
        elim (Bool-cases (same x.node.pro_type node.pro_type)) [
          | inl e ↦ rw (found, e, add_node_info_exist)
          | inr e ↦ rw (found, e, add_node_info_exist)
        ],
      )
      | inl missing ↦
          let absent : holds node.acq_addr (app_data app s.node_data) ≡ false =
            find-holds node.acq_addr (app_data app s.node_data) missing in
          let global : get_node_info node.acq_addr (touch app s) ≡ get node.acq_addr s.global_data =
            get_node_info-valid (touch app s) touched-IsValid node.acq_addr in
          elim (Option-cases (get node.acq_addr s.global_data)) [
            | inr (x, has) ↦
                inr (inl (x, has, absent, rw (missing, global ∙ has, add_node_info_exist)))
            | inl gone ↦ inr (inr (gone, absent, rw (missing, global ∙ gone, add_node_info_exist)))
          ]
    ]

    -- Looking a node up for an application keeps the maps together, also when it fails.
    pub add_node_info_exist-IsValid : IsValid (add_node_info_exist backend app node is_init s).0
    add_node_info_exist-IsValid = elim exist-cases [
      | inl (x, found, e) ↦ rw e touched-IsValid
      | inr (inl (x, has, absent, e)) ↦
          let named : x.node.acq_addr ≡ node.acq_addr = c.keyed node.acq_addr x has in
          rw e (
            share-IsValid is_init x (touch app s) touched-IsValid
              (subst (λ a. get a s.global_data ≡ some x) (sym named) has)
              (subst (λ a. holds a (app_data app (touch app s).node_data) ≡ false) (sym named)
                (ap (holds node.acq_addr) same_nodes ∙ absent)))
      | inr (inr (gone, absent, e)) ↦ rw e touched-IsValid
    ]

    -- When it finds none, no application has the node.
    pub add_node_info_exist-absent :
        {s' : NodeConfig Storage}
        → add_node_info_exist backend app node is_init s ≡ (s', ok false)
        → (get node.acq_addr s.global_data ≡ none) × (s' ≡ touch app s)
    add_node_info_exist-absent {s'} h = elim exist-cases [
      | inl (x, found, e) ↦ elim (Bool-cases (same x.node.pro_type node.pro_type)) [
        | inl f ↦ cc (rw f at (sym e ∙ h))
        | inr f ↦ cc (rw f at (sym e ∙ h))
      ]
      | inr (inl (x, has, absent, e)) ↦
          absurd (share-ne-false is_init x (touch app s) s' (sym e ∙ h))
      | inr (inr (gone, absent, e)) ↦ (gone, ap (λ r. r.0) (sym h ∙ e))
    ]

  -- Adding a node at the start-up keeps the maps together.
  pub add_node_info-IsValid :
      (s : NodeConfig Storage) → IsValid s → IsValid (add_node_info backend app node s).0
  unfolding add_node_info add_node_info_checked
  add_node_info-IsValid s c = after (add_node_info_exist backend app node true s) refl
    where
      after :
          (r : NodeConfig Storage × Outcome ServiceError Bool)
          → add_node_info_exist backend app node true s ≡ r
          → IsValid
              (continue r
                (λ existed. if existed then done tt else change (add_node_info_checked app node))).0
      after (s', ok true) e = subst (λ r. IsValid (r.0)) e (add_node_info_exist-IsValid true s c)
      after (s', ok false) e =
          let (gone, touched) = add_node_info_exist-absent true s c e in
          subst (λ z. IsValid (add_node_info_checked app node z)) (sym touched)
            (made-IsConsistent (touched-IsValid true s c) node gone app)
      after (s', err failure) e =
          subst (λ r. IsValid (r.0)) e (add_node_info_exist-IsValid true s c)
      after (s', panic) e = subst (λ r. IsValid (r.0)) e (add_node_info_exist-IsValid true s c)
