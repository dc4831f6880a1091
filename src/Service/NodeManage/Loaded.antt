-- ===== src/Service/NodeManage/Loaded.antt =====
-- The nodes of the stored configuration on their way to the module, in src/service/node_manage.rs:
-- every chunk is confirmed.
use plc_service_rust.Base.{
  ℕ, ◌+◌, ◌%◌, ◌<◌, ◌==◌, ne→==_false, String, List, [], ◌∷◌, ◌++◌, append_assoc, append-nil, none,
  ok, false, length, chunks, All, ◌≡◌, refl, sym, ◌∙◌, subst, arith,
}
use plc_service_rust.Protocol.Frame.{Frame}
use plc_service_rust.Uart.Request.{UartMessage}
use plc_service_rust.Message.Answer.{ConfirmResponse, confirm_of_app}
use plc_service_rust.Service.Action.{for_each}
use plc_service_rust.Service.Response.{Texts, normal, response_of_frame, confirmed}
use plc_service_rust.Service.NodeConfig.{NodeInfo, Backend}
use plc_service_rust.Service.NodeManage.{
  NodeManage, Event, answered, operate_node_infos, operate_uart, operate_chunk_acq_files,
  operate_chunks, operate_acq_files, send_request, wait_operation_result, react_all, react,
  uart_operate_acq_files,
}
use plc_service_rust.Service.NodeManage.Request.{
  add_acq_files, create_uart_request, acq_files_chunk_size,
}
use plc_service_rust.Service.NodeManage.Initial.{
  IsConvertible, message_of-add, concat, All-concat, IsPart, chunks_loop-parts,
}

-- The events of a wait are one response, a confirmation.
abbrev pub IsConfirmed : List Event → Type 0
IsConfirmed events =
    (f : Frame) × (r : ConfirmResponse) × (events ≡ answered f ∷ [])
    × (response_of_frame confirm_of_app f ≡ ok (normal r))

-- So are those of the next waits.
abbrev pub AreConfirmed : List (List NodeInfo) → List (List Event) → Type 0
AreConfirmed [] waits = Unit
AreConfirmed (part ∷ parts) [] = ⊥
AreConfirmed (part ∷ parts) (events ∷ waits) = IsConfirmed events × AreConfirmed parts waits

-- The messages carry the parts, one each, in order.
abbrev pub Carry :
    {MqttReqInfo : Type 0} → Texts → List (List NodeInfo) → List (UartMessage MqttReqInfo) → Type 0
Carry texts [] [] = Unit
Carry texts [] (m ∷ ms) = ⊥
Carry texts (part ∷ parts) [] = ⊥
Carry texts (part ∷ parts) (m ∷ ms) =
    (create_uart_request texts add_acq_files part ≡ ok m.frame.user_data.app_data)
    × Carry texts parts ms

module _ {Storage MqttReqInfo : Type 0} where
  pub wait_confirmed :
      (backend : Backend Storage) (s : NodeManage Storage MqttReqInfo) (events : List Event)
      (later : List (List Event))
      → s.events ≡ events ∷ later
      → IsConfirmed events
      → wait_operation_result backend s
        ≡ (record s { operation_result = none; events = later }, ok tt)
  unfolding wait_operation_result react_all react uart_operate_acq_files confirmed
  wait_confirmed backend s events later next (f, r, only, read) =
      rw (next, only, read, uart_operate_acq_files) refl

module _ {Storage MqttReqInfo : Type 0} (backend : Backend Storage) (texts : Texts)
    (app : String) where
  abbrev confirmed_state :
      NodeManage Storage MqttReqInfo
      → UartMessage MqttReqInfo
      → List (List Event)
      → NodeManage Storage MqttReqInfo
  confirmed_state s m later = record s {
    operation_result = none;
    sent = s.sent ++ (m ∷ []);
    seq = (s.seq + 1) % 256;
    events = later;
  }

  chunk_sent :
      (part : List NodeInfo) (s : NodeManage Storage MqttReqInfo) (events : List Event)
      (later : List (List Event))
      → 0 < length part
      → All (IsConvertible texts) part
      → s.events ≡ events ∷ later
      → IsConfirmed events
      → (m : UartMessage MqttReqInfo) × (operate_chunk_acq_files backend texts add_acq_files app
            none part s
          ≡ (confirmed_state s m later, ok (length part)))
        × (create_uart_request texts add_acq_files part ≡ ok m.frame.user_data.app_data)
  unfolding operate_chunk_acq_files operate_node_infos operate_uart send_request
  chunk_sent part s events later pos fit next confirm =
      let (m, made, carried) =
        message_of-add {MqttReqInfo = MqttReqInfo} texts s.seq none part fit in
      let some_ : (length part == 0) ≡ false = ne→==_false _ _ (λ e. omega arith) in
      let sent : NodeManage Storage MqttReqInfo = record s {
        sent = s.sent ++ (m ∷ []);
        seq = (s.seq + 1) % 256;
      } in
      let waited : wait_operation_result backend sent
          ≡ (record sent { operation_result = none; events = later }, ok tt) =
        wait_confirmed backend sent events later next confirm in
      (m, rw (some_, made, waited) refl, carried)

  All-sent :
      (n : ℕ) (parts : List (List NodeInfo)) (waits : List (List Event))
      (s : NodeManage Storage MqttReqInfo)
      → s.events ≡ waits
      → All (IsPart n) parts
      → All (All (IsConvertible texts)) parts
      → AreConfirmed parts waits
      → (z : NodeManage Storage MqttReqInfo) × (messages : List (UartMessage MqttReqInfo))
        × (operate_chunks backend texts add_acq_files app none parts s ≡ (z, ok tt))
        × (z.sent ≡ s.sent ++ messages)
        × Carry texts parts messages
        × (z.node_config ≡ s.node_config)
  unfolding operate_chunks for_each
  All-sent n [] waits s at part fit h = (s, [], refl, sym (append-nil s.sent), tt, refl)
  All-sent n (part ∷ parts) [] s at parted fit h = absurd h
  All-sent n (part ∷ parts) (events ∷ waits) s at (p, ps) (fit, fits) (confirm, h) =
      let (m, first, carried) = chunk_sent part s events waits (p.0) fit at confirm in
      let (z, messages, rest, sent, carry, config) =
        All-sent n parts waits (confirmed_state s m waits) refl ps fits h in
      (
        z,
        m ∷ messages,
        rw first rest,
        sent ∙ append_assoc s.sent (m ∷ []) messages,
        (carried, carry),
        config,
      )

  -- When the module confirms every message, the nodes that no client asks for (those of the stored
  -- configuration) reach it all, in order: they are split into parts of one to ten, each part is
  -- carried by one message, the call succeeds and the configuration stays.
  pub operate_acq_files-Carry :
      (nodes : List NodeInfo) (s : NodeManage Storage MqttReqInfo)
      → All (IsConvertible texts) nodes
      → AreConfirmed (chunks nodes acq_files_chunk_size) s.events
      → (z : NodeManage Storage MqttReqInfo) × (parts : List (List NodeInfo)) × (messages : List
          (UartMessage MqttReqInfo))
        × (operate_acq_files backend texts add_acq_files app none nodes s ≡ (z, ok tt))
        × (z.sent ≡ s.sent ++ messages)
        × (concat parts ≡ nodes)
        × All (IsPart 10) parts
        × Carry texts parts messages
        × (z.node_config ≡ s.node_config)
  unfolding operate_acq_files chunks
  operate_acq_files-Carry nodes s fit h =
      let parts = chunks nodes acq_files_chunk_size in
      let (whole, parted) = chunks_loop-parts (length nodes) 10 nodes (omega arith) (omega arith) in
      let (z, messages, done_, sent, carry, config) =
        All-sent 10 parts s.events s refl parted
          (All-concat (IsConvertible texts) parts
            (subst (λ l. All (IsConvertible texts) l) (sym whole) fit))
          h in
      (z, parts, messages, done_, sent, whole, parted, carry, config)
