-- ===== src/Service/NodeManage/Repeats.antt =====
-- A chunk that names a node twice, in src/service/node_manage.rs.
use plc_service_rust.Base.{
  ℕ, ◌==◌, ne→==_false, String, Bool, true, false, ◌||◌, Bool-cases, inl, inr, ◌⊎◌, List, [], ◌∷◌,
  ◌++◌, append_assoc, append-nil, All-map, none, some, ok, panic, length, All, ◌≡◌, refl, ap, ◌∙◌,
  sym, subst, arith,
}
use plc_service_rust.Uart.Request.{UartMessage}
use plc_service_rust.Service.Action.{for_each}
use plc_service_rust.Service.Dict.{same, same_iff}
use plc_service_rust.Service.Response.{Texts, message_of}
use plc_service_rust.Service.NodeConfig.{
  NodeInfo, NodeConfig, Backend, app_data, remove_node_info_checked, remove_node_infos_checked,
  should_remove_node_info,
}
use plc_service_rust.Service.NodeConfig.Nodes.{holds}
use plc_service_rust.Service.NodeConfig.Applications.{holders}
use plc_service_rust.Service.NodeConfig.Consistent.{IsValid}
use plc_service_rust.Service.NodeConfig.Sharing.{
  should_remove-holders, remove_node_info_checked_last, remove_node_info_checked_missing,
}
use plc_service_rust.Service.NodeManage.{
  NodeManage, Event, collect, operate_node_infos, update_node_config, operate_uart,
  operate_chunk_acq_files, send_request,
}
use plc_service_rust.Service.NodeManage.Request.{del_acq_files, create_uart_request}
use plc_service_rust.Service.NodeManage.Loaded.{IsConfirmed, wait_confirmed}

-- Whether the list names the address, and whether it names one twice.
abbrev pub names : String → List NodeInfo → Bool
names addr [] = false
names addr (node ∷ nodes) = same addr node.acq_addr || names addr nodes

abbrev pub has_repeat : List NodeInfo → Bool
has_repeat [] = false
has_repeat (node ∷ nodes) = names node.acq_addr nodes || has_repeat nodes

module _ {Storage : Type 0} (app : String) where
  -- The application holds the node, and no other does.
  abbrev pub IsAlone : NodeConfig Storage → NodeInfo → Type 0
  IsAlone s node =
      (holds node.acq_addr (app_data app s.node_data) ≡ true)
      × (holders node.acq_addr s.node_data ≡ 1)

  abbrev IsGone : NodeConfig Storage → NodeInfo → Type 0
  IsGone s node = holds node.acq_addr (app_data app s.node_data) ≡ false

module _ {Storage : Type 0} (backend : Backend Storage) (app : String) where
  -- The module is asked for all of them.
  collect_alone :
      (nodes collected : List NodeInfo) (s : NodeConfig Storage)
      → IsValid s
      → All (IsAlone app s) nodes
      → collect (should_remove_node_info backend app) (λ answer. answer) nodes collected s
        ≡ (s, ok (collected ++ nodes))
  unfolding collect
  collect_alone [] collected s v h = ap (λ l. (s, ok l)) (sym (append-nil collected))
  collect_alone (node ∷ nodes) collected s v ((held, one), h) =
      let asked : should_remove_node_info backend app node s ≡ (s, ok true) =
        (should_remove-holders backend app node s v held).0 one in
      rw asked (
        collect_alone nodes (collected ++ (node ∷ [])) s v h
        ∙ ap (λ l. (s, ok l)) (append_assoc collected (node ∷ []) nodes))

  -- What is left after a removal is held by the application alone or gone.
  status :
      (node : NodeInfo) (s z : NodeConfig Storage)
      → IsGone app z node
      → ((addr : String)
          → same node.acq_addr addr ≡ false
          → (holds addr (app_data app z.node_data) ≡ holds addr (app_data app s.node_data))
            × (holders addr z.node_data ≡ holders addr s.node_data))
      → (nodes : List NodeInfo) → All (λ y. IsAlone app s y ⊎ IsGone app s y) nodes
      → All (λ y. IsAlone app z y ⊎ IsGone app z y) nodes
  status node s z gone others [] h = tt
  status node s z gone others (y ∷ ys) (q, h) = (
    elim (Bool-cases (same node.acq_addr y.acq_addr)) [
      | inl e ↦ inr (
          subst (λ a. holds a (app_data app z.node_data) ≡ false)
            ((same_iff node.acq_addr y.acq_addr).0 e) gone)
      | inr off ↦
          let (held, count) = others y.acq_addr off in
          elim q [ inl (a, b) ↦ inl (held ∙ a, count ∙ b) | inr g ↦ inr (held ∙ g) ]
    ],
    status node s z gone others ys h,
  )

  -- No address that is gone is named by nodes that are held.
  unnamed :
      (addr : String) (z : NodeConfig Storage) (nodes : List NodeInfo)
      → holds addr (app_data app z.node_data) ≡ false
      → All (λ y. holds y.acq_addr (app_data app z.node_data) ≡ true) nodes
      → names addr nodes ≡ false
  unnamed addr z [] gone h = refl
  unnamed addr z (y ∷ ys) gone (held, h) = elim (Bool-cases (same addr y.acq_addr)) [
    | inl e ↦
        let held_ : holds addr (app_data app z.node_data) ≡ true =
          subst (λ a. holds a (app_data app z.node_data) ≡ true)
            (sym ((same_iff addr y.acq_addr).0 e)) held in
        absurd (cc (sym gone ∙ held_))
    | inr off ↦ rw off (unnamed addr z ys gone h)
  ]

  -- The removal of nodes that are held alone or gone panics, or all are held and none is repeated.
  remove_all :
      (nodes : List NodeInfo) (s : NodeConfig Storage)
      → IsValid s
      → All (λ y. IsAlone app s y ⊎ IsGone app s y) nodes
      → ((for_each (remove_node_info_checked app) nodes s).1 ≡ panic)
        ⊎ (All (λ y. holds y.acq_addr (app_data app s.node_data) ≡ true) nodes
            × (has_repeat nodes ≡ false))
  unfolding for_each
  remove_all [] s v h = inr (tt, refl)
  remove_all (node ∷ nodes) s v (inr gone, h) =
      inl (rw (remove_node_info_checked_missing app node s gone) refl)
  remove_all (node ∷ nodes) s v (inl (held, one), h) =
      let (z, first, gone, others, valid) =
        remove_node_info_checked_last backend app node s v held one in
      elim (remove_all nodes z valid (status node s z gone others nodes h)) [
        | inl panics ↦ inl (rw first panics)
        | inr (rest, apart) ↦
            let off : names node.acq_addr nodes ≡ false = unnamed node.acq_addr z nodes gone rest in
            inr ((held, before z gone others rest), rw (off, apart) refl)
      ]
    where
      before :
          (z : NodeConfig Storage)
          → IsGone app z node
          → ((addr : String)
              → same node.acq_addr addr ≡ false
              → (holds addr (app_data app z.node_data) ≡ holds addr (app_data app s.node_data))
                × (holders addr z.node_data ≡ holders addr s.node_data))
          → All (λ y. holds y.acq_addr (app_data app z.node_data) ≡ true) nodes
          → All (λ y. holds y.acq_addr (app_data app s.node_data) ≡ true) nodes
      before z gone others =
          All-map (λ y. holds y.acq_addr (app_data app z.node_data) ≡ true)
            (λ y. holds y.acq_addr (app_data app s.node_data) ≡ true) nodes
            (λ y p. elim (Bool-cases (same node.acq_addr y.acq_addr)) [
              | inl e ↦
                  subst (λ a. holds a (app_data app s.node_data) ≡ true)
                    ((same_iff node.acq_addr y.acq_addr).0 e) held
              | inr off ↦ sym (others y.acq_addr off).0 ∙ p
            ])

  remove_repeated :
      (nodes : List NodeInfo) (s : NodeConfig Storage)
      → IsValid s
      → All (IsAlone app s) nodes
      → has_repeat nodes ≡ true
      → (remove_node_infos_checked backend app nodes s).1 ≡ panic
  unfolding remove_node_infos_checked
  remove_repeated nodes s v h repeat =
      elim (remove_all nodes s v
        (All-map (IsAlone app s) (λ y. IsAlone app s y ⊎ IsGone app s y) nodes (λ y p. inl p) h)) [
          | inl panics ↦
              let r = for_each (remove_node_info_checked app) nodes s in
              let whole : r ≡ (r.0, panic) = ap (λ o. (r.0, o)) panics in rw whole refl
          | inr (held, apart) ↦ absurd (cc (sym apart ∙ repeat))
        ]

module _ {Storage MqttReqInfo : Type 0} (backend : Backend Storage) (texts : Texts)
    (app : String) where
  -- When a client asks in one chunk for the removal of nodes that no other application has, and the
  -- chunk names an address twice, then the module is asked and confirms, and the update of the
  -- configuration panics.
  pub operate_chunk_twice :
      (nodes : List NodeInfo) (s : NodeManage Storage MqttReqInfo) (mqtt : MqttReqInfo)
      (m : UartMessage MqttReqInfo) (next : ℕ) (events : List Event) (later : List (List Event))
      → IsValid s.node_config
      → All (IsAlone app s.node_config) nodes
      → has_repeat nodes ≡ true
      → message_of s.seq none (some mqtt) (create_uart_request texts del_acq_files nodes)
        ≡ ok (m, next)
      → s.events ≡ events ∷ later
      → IsConfirmed events
      → (operate_chunk_acq_files backend texts del_acq_files app (some mqtt) nodes s).1 ≡ panic
  unfolding operate_chunk_acq_files operate_node_infos operate_uart send_request update_node_config
  operate_chunk_twice [] s mqtt m next events later v alone repeat made at confirm =
      absurd (cc repeat)
  operate_chunk_twice (node ∷ nodes) s mqtt m next events later v alone repeat made at confirm =
      let whole : List NodeInfo = node ∷ nodes in
      let asked = collect_alone backend app whole [] s.node_config v alone in
      let sent : NodeManage Storage MqttReqInfo = record s {
        sent = s.sent ++ (m ∷ []);
        seq = next;
      } in
      let waited = wait_confirmed backend sent events later at confirm in
      let r = remove_node_infos_checked backend app whole s.node_config in
      let ended : r ≡ (r.0, panic) =
        ap (λ o. (r.0, o)) (remove_repeated backend app whole s.node_config v alone repeat) in
      let some_ : (length whole == 0) ≡ false = ne→==_false _ _ (λ e. omega arith) in
      rw (asked, some_, made, waited, ended) refl
