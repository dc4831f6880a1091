-- ===== src/Service/NodeManage.antt =====
-- src/service/node_manage.rs: the applications' requests to add, remove and clear nodes, in chunks
-- that the module confirms one by one, under one lock that a wait for a confirmation gives up. What
-- the reader thread, the timers and the start-up do meanwhile is a list of events for each wait. The
-- requests of the MQTT clients are handled by one thread, in turn.
pub mod Request
pub mod Loading
pub mod Waiting
pub mod Adding
pub mod Parts
pub mod Chunks
pub mod Initial
pub mod Loaded
pub mod Repeats
use plc_service_rust.Base.{
  ℕ, suc, ◌==◌, String, if◌then◌else◌, List, [], ◌∷◌, ◌++◌, Option, none, some, Outcome, ok, err,
  panic, not, Bool, true, false, length, chunks, map,
}
use plc_service_rust.Protocol.Fault.{Error}
use plc_service_rust.Protocol.AppData.{AppData}
use plc_service_rust.Protocol.Frame.{Frame}
use plc_service_rust.Uart.Request.{UartMessage}
use plc_service_rust.Message.Answer.{confirm_of_app}
use plc_service_rust.Service.Action.{
  Action, ServiceError, timeout, waiting, continue, ◌>>=◌, ◌>>◌, done, change, for_each,
}
use plc_service_rust.Service.Response.{response_of_frame, confirmed, of_protocol, message_of, Texts}
use plc_service_rust.Service.NodeConfig.{
  NodeInfo, NodeConfig, Backend, add_node_info_exist, should_remove_node_info, load_nodes,
  add_node_infos_checked, remove_node_infos_checked, clear_all_app, get_all_node_infos,
}
use plc_service_rust.Service.NodeManage.Request.{
  Operation, add_acq_files, del_acq_files, clear_acq_files, create_uart_request,
  acq_files_chunk_size, is_none, clear_request, without_repeats,
}

-- What happens while a thread waits: a response to an addition or removal, a timeout, a response to
-- the clearing of the module; the start-up, in its own thread, loads the stored configuration, or
-- takes or resets the result (`wait_operation_result`).
pub data Event : Type 0 where
  answered : Frame → Event
  timed_out : Event
  cleared : Frame → Event
  loaded : List (String × List NodeInfo) → Event
  taken : Event

-- The state behind the lock, with the messages sent to the agent, the sequence number of the next
-- frame and the events of the waits to come.
pub record NodeManage (Storage MqttReqInfo : Type 0) : Type 0 where
  pub node_config : NodeConfig Storage
  pub operation_result : Option (Outcome ServiceError (Unit {0}))
  pub sent : List (UartMessage MqttReqInfo)
  pub seq : ℕ
  pub events : List (List Event)

-- The events of the next wait.
abbrev pub next_events : List (List Event) → List Event
next_events [] = []
next_events (events ∷ later) = events

abbrev pub later_events : List (List Event) → List (List Event)
later_events [] = []
later_events (events ∷ later) = later

module _ {Storage : Type 0} where
  -- `try_fold` with a test that changes the configuration: the nodes that the module is told of.
  unfoldable pub collect :
      (NodeInfo → Action (NodeConfig Storage) Bool)
      → (Bool → Bool)
      → List NodeInfo
      → List NodeInfo
      → Action (NodeConfig Storage) (List NodeInfo)
  collect test wanted [] uart_node_infos = done uart_node_infos
  collect test wanted (node ∷ nodes) uart_node_infos = test node >>= λ answer.
      collect test wanted nodes
        (if wanted answer then uart_node_infos ++ (node ∷ []) else uart_node_infos)

  -- `T::operate_node_infos` and `T::update_node_config`.
  unfoldable pub operate_node_infos :
      Backend Storage
      → Operation
      → String
      → List NodeInfo
      → Bool
      → Action (NodeConfig Storage) (List NodeInfo)
  operate_node_infos backend add_acq_files app nodes true = done nodes
  operate_node_infos backend add_acq_files app nodes false =
      collect (λ node. add_node_info_exist backend app node false) not nodes []
  operate_node_infos backend del_acq_files app nodes is_init =
      collect (should_remove_node_info backend app) (λ answer. answer) nodes []
  operate_node_infos backend clear_acq_files app nodes is_init =
      collect (should_remove_node_info backend app) (λ answer. answer) nodes []

  unfoldable pub update_node_config :
      Backend Storage → Operation → String → List NodeInfo → Action (NodeConfig Storage) (Unit {0})
  update_node_config backend add_acq_files = add_node_infos_checked backend
  update_node_config backend del_acq_files = remove_node_infos_checked backend
  update_node_config backend clear_acq_files = remove_node_infos_checked backend

module _ {Storage MqttReqInfo : Type 0} where
  -- A method of the node configuration.
  abbrev pub with_config :
      {A : Type 0} → Action (NodeConfig Storage) A → Action (NodeManage Storage MqttReqInfo) A
  with_config action s =
      let (node_config, result) = action s.node_config in
      (record s { node_config = node_config }, result)

  -- `uart_operate_acq_files`: a response that cannot be read changes nothing.
  unfoldable pub uart_operate_acq_files :
      Frame → NodeManage Storage MqttReqInfo → NodeManage Storage MqttReqInfo
  uart_operate_acq_files f s = elim (response_of_frame confirm_of_app f) [
    | ok response ↦ record s { operation_result = some (confirmed response) }
    | err e ↦ s
    | panic ↦ s
  ]

  unfoldable pub uart_operate_acq_files_timeout :
      NodeManage Storage MqttReqInfo → NodeManage Storage MqttReqInfo
  uart_operate_acq_files_timeout s = record s { operation_result = some (err timeout) }

  unfoldable pub uart_clear_acq_files :
      Frame → NodeManage Storage MqttReqInfo → NodeManage Storage MqttReqInfo
  uart_clear_acq_files f s =
      uart_operate_acq_files f (record s { node_config = clear_all_app s.node_config })

  -- The end of the wait: the result is taken.
  abbrev pub take_result :
      NodeManage Storage MqttReqInfo
      → Option (Outcome ServiceError (Unit {0}))
      → NodeManage Storage MqttReqInfo × Outcome ServiceError (Unit {0})
  take_result s none = (s, err waiting)
  take_result s (some result) = (record s { operation_result = none }, result)

  -- The request's frame is made and sent to the agent.
  unfoldable pub send_request :
      Option MqttReqInfo
      → Outcome Error AppData
      → Action (NodeManage Storage MqttReqInfo) (Unit {0})
  send_request mqtt request s =
      continue (s, of_protocol (message_of s.seq none mqtt request))
        (λ made. change (λ s'. record s' { sent = s'.sent ++ (made.0 ∷ []); seq = made.1 }))

  module _ (backend : Backend Storage) where
    -- An error in the loading ends the start-up; what was loaded before stays.
    unfoldable pub react : Event → NodeManage Storage MqttReqInfo → NodeManage Storage MqttReqInfo
    react (answered f) s = uart_operate_acq_files f s
    react timed_out s = uart_operate_acq_files_timeout s
    react (cleared f) s = uart_clear_acq_files f s
    react (loaded entries) s = (with_config (load_nodes backend entries) s).0
    react taken s = record s { operation_result = none }

    unfoldable pub react_all :
        List Event → NodeManage Storage MqttReqInfo → NodeManage Storage MqttReqInfo
    react_all [] s = s
    react_all (e ∷ events) s = react_all events (react e s)

    unfoldable pub wait_operation_result : Action (NodeManage Storage MqttReqInfo) (Unit {0})
    wait_operation_result s =
        let woken =
          react_all (next_events s.events)
            (record s { operation_result = none; events = later_events s.events }) in
        take_result woken woken.operation_result

  module _ (backend : Backend Storage) (texts : Texts) where
    -- What follows when the module has to be told of some nodes.
    unfoldable pub operate_uart :
        Operation
        → String
        → Option MqttReqInfo
        → List NodeInfo
        → Action (NodeManage Storage MqttReqInfo) ℕ
    operate_uart op app mqtt operate_nodes =
        send_request mqtt (create_uart_request texts op operate_nodes)
        >> (wait_operation_result backend
            >> ((if is_none mqtt
                  then done tt
                  else with_config (update_node_config backend op app operate_nodes))
                >> done (length operate_nodes)))

    unfoldable pub operate_chunk_acq_files :
        Operation
        → String
        → Option MqttReqInfo
        → List NodeInfo
        → Action (NodeManage Storage MqttReqInfo) ℕ
    operate_chunk_acq_files op app mqtt nodes =
        with_config (operate_node_infos backend op app nodes (is_none mqtt)) >>= λ operate_nodes.
        if length operate_nodes == 0 then done 0 else operate_uart op app mqtt operate_nodes

    unfoldable pub operate_chunks :
        Operation
        → String
        → Option MqttReqInfo
        → List (List NodeInfo)
        → Action (NodeManage Storage MqttReqInfo) (Unit {0})
    operate_chunks op app mqtt =
        for_each (λ nodes. operate_chunk_acq_files op app mqtt nodes >>= λ _. done tt)

    unfoldable pub operate_acq_files :
        Operation
        → String
        → Option MqttReqInfo
        → List NodeInfo
        → Action (NodeManage Storage MqttReqInfo) (Unit {0})
    operate_acq_files op app mqtt nodes =
        operate_chunks op app mqtt (chunks nodes acq_files_chunk_size)

    -- The clearing at the start-up.
    unfoldable pub init_clear_acq_files : Action (NodeManage Storage MqttReqInfo) (Unit {0})
    init_clear_acq_files = send_request none clear_request >> wait_operation_result backend

    -- The nodes that were loaded go to the module once each, for no application.
    unfoldable pub send_loaded :
        List (String × List NodeInfo) → Action (NodeManage Storage MqttReqInfo) (Unit {0})
    send_loaded nodes = operate_acq_files add_acq_files "" none (without_repeats nodes)
