-- ===== src/Service/NodeManage/Chunks.antt =====
-- Whole requests to add nodes in src/service/node_manage.rs, chunk by chunk.
use plc_service_rust.Base.{
  ◌==◌, String, Bool, if◌then◌else◌, List, [], ◌∷◌, some, false, not, Bool-cases, length, chunks,
  inl, inr, All, sym, ◌∙◌, subst,
}
use plc_service_rust.Service.Action.{Action, ◌>>=◌, ◌>>◌, done, change, for_each}
use plc_service_rust.Service.Dict.{get-insert}
use plc_service_rust.Service.Response.{Texts}
use plc_service_rust.Service.NodeConfig.{
  NodeInfo, NodeConfig, Backend, add_config, add_node_info_exist, add_node_info_checked,
  add_node_infos_checked,
}
use plc_service_rust.Service.NodeConfig.Consistent.{IsValid}
use plc_service_rust.Service.NodeConfig.Adding.{made-IsConsistent}
use plc_service_rust.Service.NodeManage.{
  NodeManage, later_events, collect, operate_node_infos, update_node_config, operate_uart,
  operate_chunk_acq_files, operate_chunks, operate_acq_files, with_config, send_request,
  wait_operation_result,
}
use plc_service_rust.Service.NodeManage.Request.{
  add_acq_files, create_uart_request, acq_files_chunk_size,
}
use plc_service_rust.Service.NodeManage.Loading.{continue_rule}
use plc_service_rust.Service.NodeManage.Waiting.{
  AreApart, Stays, next-AreApart, wait-Stays, send_request_lem,
}
use plc_service_rust.Service.NodeManage.Parts.{Within, part-AreApart, collect-Lacks, chunks-Within}
use plc_service_rust.Service.NodeManage.Adding.{
  Lacks, IsUnrepeated, AllAbsent, Collected, collect-Collected,
}

module _ {Storage : Type 0} (backend : Backend Storage) (app : String) where
  insert-AllAbsent :
      (node : NodeInfo) (nodes : List NodeInfo) (s : NodeConfig Storage)
      → Lacks nodes node.acq_addr
      → AllAbsent s nodes
      → AllAbsent (add_node_info_checked app node s) nodes
  unfolding add_node_info_checked
  insert-AllAbsent node [] s l h = tt
  insert-AllAbsent node (y ∷ ys) s (off, l) (q, h) = (
    get-insert y.acq_addr node.acq_addr (record { id = s.allocated; node = node }) s.global_data
        ∙ rw off q,
    insert-AllAbsent node ys s l h,
  )

  -- The nodes that the module has confirmed.
  add_all-IsValid :
      (nodes : List NodeInfo) (s : NodeConfig Storage)
      → IsValid s
      → AllAbsent s nodes
      → IsUnrepeated nodes
      → IsValid (for_each (λ node. change (add_node_info_checked app node)) nodes s).0
  unfolding for_each
  add_all-IsValid [] s v h u = v
  add_all-IsValid (node ∷ nodes) s v (gone, h) (l, u) =
      add_all-IsValid nodes (add_node_info_checked app node s)
        (unfold add_node_info_checked in made-IsConsistent v node gone app)
        (insert-AllAbsent node nodes s l h) u

  add_node_infos_checked-IsValid :
      (nodes : List NodeInfo) (s : NodeConfig Storage)
      → IsValid s
      → AllAbsent s nodes
      → IsUnrepeated nodes
      → IsValid (add_node_infos_checked backend app nodes s).0
  unfolding add_node_infos_checked add_config
  add_node_infos_checked-IsValid nodes s v h u =
      let first : IsValid (for_each (λ node. change (add_node_info_checked app node)) nodes s).0 =
        add_all-IsValid nodes s v h u in
      continue_rule (λ z. IsValid z)
        (for_each (λ node. change (add_node_info_checked app node)) nodes s)
        (λ _. add_config backend app nodes) first (λ a e. first)

module _ {Storage MqttReqInfo : Type 0} (backend : Backend Storage) (texts : Texts) (app : String)
    (all_nodes : List NodeInfo) where
  -- The maps agree, and what is still to be loaded has none of the request's nodes.
  abbrev Sound : NodeManage Storage MqttReqInfo → Type 0
  Sound z = IsValid z.node_config × AreApart all_nodes z.events

  operate_uart-Sound :
      (mqtt : MqttReqInfo) (out : List NodeInfo) (s : NodeManage Storage MqttReqInfo)
      → Sound s
      → Within out all_nodes
      → AllAbsent s.node_config out
      → IsUnrepeated out
      → Sound (operate_uart backend texts add_acq_files app (some mqtt) out s).0
  unfolding operate_uart update_node_config
  operate_uart-Sound mqtt out s (v, apart) within h u =
      let r = send_request (some mqtt) (create_uart_request texts add_acq_files out) s in
      let (config, waits) =
        send_request_lem (some mqtt) (create_uart_request texts add_acq_files out) s in
      let v1 : IsValid r.0.node_config = subst (λ z. IsValid z) (sym config) v in
      let h1 : AllAbsent r.0.node_config out = subst (λ z. AllAbsent z out) (sym config) h in
      let apart1 : AreApart all_nodes r.0.events = subst (AreApart all_nodes) (sym waits) apart in
      let w = wait_operation_result backend (r.0) in
      let k : Stays out (later_events r.0.events) (w.0) =
        wait-Stays backend out (r.0) (part-AreApart out all_nodes r.0.events within apart1) v1 h1 in
      let apart2 : AreApart all_nodes w.0.events =
        subst (AreApart all_nodes) (sym k.to_come) (next-AreApart all_nodes r.0.events apart1).1 in
      let update = with_config (add_node_infos_checked backend app out) in
      let ended : Sound (update (w.0)).0 = (
        add_node_infos_checked-IsValid backend app out w.0.node_config k.valid k.absent u,
        apart2,
      ) in
      continue_rule Sound r (λ _. wait_operation_result backend >> (update >> done (length out)))
        (v1, apart1)
        (λ _ _.
          continue_rule Sound w (λ _. update >> done (length out)) (k.valid, apart2)
            (λ _ _.
              continue_rule Sound (update (w.0)) (λ _. done (length out)) ended (λ _ _. ended)))

  operate_chunk-Sound :
      (mqtt : MqttReqInfo) (nodes : List NodeInfo) (s : NodeManage Storage MqttReqInfo)
      → IsUnrepeated nodes
      → Within nodes all_nodes
      → Sound s
      → Sound (operate_chunk_acq_files backend texts add_acq_files app (some mqtt) nodes s).0
  unfolding operate_chunk_acq_files operate_node_infos
  operate_chunk-Sound mqtt nodes s u within (v, apart) =
      let test : NodeInfo → Action (NodeConfig Storage) Bool =
        λ node. add_node_info_exist backend app node false in
      let look = collect test not nodes [] in
      let found : Collected backend app (look s.node_config) =
        collect-Collected backend app nodes [] s.node_config
          (record { valid = v; absent = tt; unrepeated = tt; ahead = u; between = tt }) in
      continue_rule Sound (with_config look s)
        (λ out.
          if length out == 0
          then done 0
          else operate_uart backend texts add_acq_files app (some mqtt) out)
        (found.0, apart)
        (λ out e. elim (Bool-cases (length out == 0)) [
          | inl empty ↦ rw empty (found.0, apart)
          | inr some_ ↦
              let (absent, unrepeated) = found.1 out e in
              let held : Within out all_nodes =
                λ a l. collect-Lacks test not a nodes [] out s.node_config (within a l) tt e in
              rw some_ (
                operate_uart-Sound mqtt out (with_config look s).0 (found.0, apart) held absent
                  unrepeated)
        ])

  operate_chunks-Sound :
      (mqtt : MqttReqInfo) (parts : List (List NodeInfo)) (s : NodeManage Storage MqttReqInfo)
      → All IsUnrepeated parts
      → All (λ part. Within part all_nodes) parts
      → Sound s
      → Sound (operate_chunks backend texts add_acq_files app (some mqtt) parts s).0
  unfolding operate_chunks for_each
  operate_chunks-Sound mqtt [] s u w k = k
  operate_chunks-Sound mqtt (nodes ∷ parts) s (u, us) (w, ws) k =
      let one = operate_chunk_acq_files backend texts add_acq_files app (some mqtt) nodes in
      let first : Sound (one s).0 = operate_chunk-Sound mqtt nodes s u w k in
      let body : Sound ((one >>= λ _. done tt) s).0 =
        continue_rule Sound (one s) (λ _. done tt) first (λ _ _. first) in
      continue_rule Sound ((one >>= λ _. done tt) s)
        (λ _. operate_chunks backend texts add_acq_files app (some mqtt) parts) body
        (λ _ _. operate_chunks-Sound mqtt parts ((one >>= λ _. done tt) s).0 us ws body)

module _ {Storage MqttReqInfo : Type 0} (backend : Backend Storage) (texts : Texts)
    (app : String) where
  -- A client's request to add nodes leaves the two maps of the configuration in agreement, whatever
  -- the module answers, the storage does, and the reader thread, the timers and the start-up do while
  -- a chunk waits, and also when the request fails: if no chunk of ten names an address twice, and
  -- what the start-up loads during the waits has none of the request's addresses.
  pub operate_acq_files-IsValid :
      (mqtt : MqttReqInfo) (nodes : List NodeInfo) (s : NodeManage Storage MqttReqInfo)
      → All IsUnrepeated (chunks nodes acq_files_chunk_size)
      → AreApart nodes s.events
      → IsValid s.node_config
      → IsValid
          (operate_acq_files backend texts add_acq_files app (some mqtt) nodes s).0.node_config
  unfolding operate_acq_files chunks
  operate_acq_files-IsValid mqtt nodes s u apart v =
      (operate_chunks-Sound backend texts app nodes mqtt (chunks nodes acq_files_chunk_size) s u
        (chunks-Within (length nodes) acq_files_chunk_size nodes nodes (λ a l. l)) (v, apart)).0
