-- ===== src/Service/NodeManage/Loading.antt =====
-- What the loading of the stored configuration, in src/service/node_config.rs, leaves of the two maps.
-- And the rule for a step that is followed by another.
use plc_service_rust.Base.{
  String, List, [], ◌∷◌, true, false, Bool-cases, inl, inr, Outcome, ok, err, panic, All, ◌≡◌, refl,
  ◌∙◌,
}
use plc_service_rust.Service.Action.{Action, ServiceError, continue, for_each}
use plc_service_rust.Service.Dict.{same, get, get-insert}
use plc_service_rust.Service.NodeConfig.{
  NodeInfo, NodeConfig, Backend, share, add_node_info, add_node_info_checked, add_node_infos,
  load_nodes,
}
use plc_service_rust.Service.NodeConfig.Consistent.{IsValid}
use plc_service_rust.Service.NodeConfig.Operations.{exist-cases, add_node_info-IsValid}
use plc_service_rust.Service.NodeManage.Adding.{Lacks, AllAbsent}

module _ {S A B : Type 0} where
  -- A property of the state that a step leaves, and that what follows it leaves.
  pub continue_rule :
      (P : S → Type 0) (r : S × Outcome ServiceError A) (next : A → Action S B)
      → P (r.0)
      → ((a : A) → r.1 ≡ ok a → P (next a (r.0)).0)
      → P (continue r next).0
  continue_rule P (s, ok a) next p q = q a refl
  continue_rule P (s, err e) next p q = p
  continue_rule P (s, panic) next p q = p

-- A loop keeps what its body keeps.
for_each_rule :
    {S X : Type 0} (P : S → Type 0) (Q : X → Type 0) (body : X → Action S (Unit {0}))
    → ((x : X) (s : S) → Q x → P s → P (body x s).0)
    → (xs : List X) (s : S) → All Q xs
    → P s
    → P (for_each body xs s).0
unfolding for_each
for_each_rule P Q body keep [] s h p = p
for_each_rule P Q body keep (x ∷ xs) s (q, h) p =
    let first : P (body x s).0 = keep x s q p in
    continue_rule P (body x s) (λ _. for_each body xs) first
      (λ _ _. for_each_rule P Q body keep xs (body x s).0 h first)

module _ {Storage : Type 0} (backend : Backend Storage) where
  -- A node that is added leaves the other addresses.
  add_node_info-get :
      (app : String) (node : NodeInfo) (addr : String) (s : NodeConfig Storage)
      → IsValid s
      → same node.acq_addr addr ≡ false
      → get addr (add_node_info backend app node s).0.global_data ≡ get addr s.global_data
  unfolding add_node_info add_node_info_checked share
  add_node_info-get app node addr s v off = elim (exist-cases backend app node true s v) [
    | inl (x, found, e) ↦ elim (Bool-cases (same x.node.pro_type node.pro_type)) [
      | inl q ↦ rw (e, q)
      | inr q ↦ rw (e, q)
    ]
    | inr (inl (x, has, absent, e)) ↦ elim (Bool-cases (same x.node.pro_type node.pro_type)) [
      | inl q ↦ rw (e, q)
      | inr q ↦ rw (e, q)
    ]
    | inr (inr (gone, absent, e)) ↦ rw e (
        get-insert addr node.acq_addr (record { id = s.allocated; node = node }) s.global_data
        ∙ rw off refl)
  ]

  module _ (nodes : List NodeInfo) where
    -- The maps agree, and have none of the nodes.
    abbrev Without : NodeConfig Storage → Type 0
    Without s = IsValid s × AllAbsent s nodes

    add_node_info-Without :
        (app : String) (node : NodeInfo) (s : NodeConfig Storage)
        → Lacks nodes node.acq_addr
        → Without s
        → Without (add_node_info backend app node s).0
    add_node_info-Without app node s l (v, h) =
        (add_node_info-IsValid backend app node s v, others nodes l h)
      where
        others :
            (xs : List NodeInfo)
            → Lacks xs node.acq_addr
            → AllAbsent s xs
            → AllAbsent (add_node_info backend app node s).0 xs
        others [] l h = tt
        others (x ∷ xs) (off, l) (q, h) =
            (add_node_info-get app node x.acq_addr s v off ∙ q, others xs l h)

    pub load_nodes-Loaded :
        (entries : List (String × List NodeInfo)) (s : NodeConfig Storage)
        → All (λ entry. All (λ node. Lacks nodes node.acq_addr) entry.1) entries
        → IsValid s
        → AllAbsent s nodes
        → IsValid (load_nodes backend entries s).0
          × AllAbsent (load_nodes backend entries s).0 nodes
    unfolding load_nodes add_node_infos
    load_nodes-Loaded entries s apart v h =
        for_each_rule Without (λ entry. All (λ node. Lacks nodes node.acq_addr) entry.1)
          (λ entry. add_node_infos backend entry.0 entry.1)
          (λ entry z l p.
            for_each_rule Without (λ node. Lacks nodes node.acq_addr)
              (add_node_info backend entry.0)
              (λ node z' l' p'. add_node_info-Without entry.0 node z' l' p') entry.1 z l p)
          entries s apart (v, h)
