-- ===== src/Service/NodeManage/Waiting.antt =====
-- What a wait for the module's confirmation in src/service/node_manage.rs leaves, and what sending
-- leaves.
use plc_service_rust.Base.{
  ◌++◌, List, [], ◌∷◌, Option, none, some, Outcome, inl, inr, Outcome-cases, All, ◌≡◌, refl,
}
use plc_service_rust.Protocol.Fault.{Error}
use plc_service_rust.Protocol.AppData.{AppData}
use plc_service_rust.Protocol.Frame.{Frame}
use plc_service_rust.Message.Answer.{confirm_of_app}
use plc_service_rust.Service.Action.{ServiceError, change}
use plc_service_rust.Service.Response.{response_of_frame, of_protocol, message_of}
use plc_service_rust.Service.Dict.{get}
use plc_service_rust.Service.NodeConfig.{NodeInfo, NodeConfig, Backend, clear_all_app}
use plc_service_rust.Service.NodeConfig.Consistent.{IsValid}
use plc_service_rust.Service.NodeManage.Adding.{Lacks, AllAbsent}
use plc_service_rust.Service.NodeManage.Loading.{load_nodes-Loaded, continue_rule}
use plc_service_rust.Service.NodeManage.{
  NodeManage, Event, answered, timed_out, cleared, loaded, taken, uart_operate_acq_files,
  uart_operate_acq_files_timeout, uart_clear_acq_files, react, react_all, take_result, next_events,
  later_events, wait_operation_result, send_request,
}

clear-IsValid : {Storage : Type 0} (s : NodeConfig Storage) → IsValid (clear_all_app s)
unfolding clear_all_app get
clear-IsValid s = record {
  known = tt;
  distinct = tt;
  keyed = λ addr x h. cc;
  apart = λ addr other x y h k ids. cc;
  fresh = λ addr x h. cc;
  alive = λ addr x h. cc;
}

-- What is loaded meanwhile has none of the nodes.
abbrev pub IsApart : List NodeInfo → Event → Type 0
IsApart nodes (loaded entries) =
    All (λ entry. All (λ node. Lacks nodes node.acq_addr) entry.1) entries
IsApart nodes (answered f) = Unit
IsApart nodes timed_out = Unit
IsApart nodes (cleared f) = Unit
IsApart nodes taken = Unit

-- So in all waits to come.
abbrev pub AreApart : List NodeInfo → List (List Event) → Type 0
AreApart nodes waits = All (λ events. All (IsApart nodes) events) waits

-- The maps agree, the global map has none of the nodes, and the waits to come are these.
pub record Stays {Storage MqttReqInfo : Type 0} (nodes : List NodeInfo) (waits : List (List Event))
    (s : NodeManage Storage MqttReqInfo) : Type 0 where
  pub valid : IsValid s.node_config
  pub absent : AllAbsent s.node_config nodes
  pub to_come : s.events ≡ waits

module _ {Storage MqttReqInfo : Type 0} (backend : Backend Storage) (nodes : List NodeInfo)
    (waits : List (List Event)) where
  uart_operate-Stays :
      (f : Frame) (s : NodeManage Storage MqttReqInfo)
      → Stays nodes waits s
      → Stays nodes waits (uart_operate_acq_files f s)
  unfolding uart_operate_acq_files
  uart_operate-Stays f s k = elim (Outcome-cases (response_of_frame confirm_of_app f)) [
    | inl (r, e) ↦
        rw (e, uart_operate_acq_files)
          (record { valid = k.valid; absent = k.absent; to_come = k.to_come })
    | inr (inl (failure, e)) ↦ rw (e, uart_operate_acq_files) k
    | inr (inr e) ↦ rw (e, uart_operate_acq_files) k
  ]

  react-Stays :
      (e : Event) (s : NodeManage Storage MqttReqInfo)
      → IsApart nodes e
      → Stays nodes waits s
      → Stays nodes waits (react backend e s)
  unfolding react uart_operate_acq_files_timeout uart_clear_acq_files clear_all_app get
  react-Stays (answered f) s h k = uart_operate-Stays f s k
  react-Stays timed_out s h k = record { valid = k.valid; absent = k.absent; to_come = k.to_come }
  react-Stays (cleared f) s h k =
      uart_operate-Stays f (record s { node_config = clear_all_app s.node_config })
        (record {
          valid = clear-IsValid s.node_config;
          absent = nothing nodes;
          to_come = k.to_come;
        })
    where
      nothing : (xs : List NodeInfo) → AllAbsent (clear_all_app s.node_config) xs
      nothing [] = tt
      nothing (x ∷ xs) = (refl, nothing xs)
  react-Stays (loaded entries) s h k =
      let (valid, absent) =
        load_nodes-Loaded backend nodes entries s.node_config h k.valid k.absent in
      record { valid = valid; absent = absent; to_come = k.to_come }
  react-Stays taken s h k = record { valid = k.valid; absent = k.absent; to_come = k.to_come }

  react_all-Stays :
      (events : List Event) (s : NodeManage Storage MqttReqInfo)
      → All (IsApart nodes) events
      → Stays nodes waits s
      → Stays nodes waits (react_all backend events s)
  unfolding react_all
  react_all-Stays [] s h k = k
  react_all-Stays (e ∷ events) s (q, h) k =
      react_all-Stays events (react backend e s) h (react-Stays e s q k)

  take_result-Stays :
      (s : NodeManage Storage MqttReqInfo) (result : Option (Outcome ServiceError (Unit {0})))
      → Stays nodes waits s
      → Stays nodes waits (take_result s result).0
  take_result-Stays s none k = k
  take_result-Stays s (some r) k = record {
    valid = k.valid;
    absent = k.absent;
    to_come = k.to_come;
  }

pub next-AreApart :
    (nodes : List NodeInfo) (waits : List (List Event))
    → AreApart nodes waits
    → All (IsApart nodes) (next_events waits) × AreApart nodes (later_events waits)
next-AreApart nodes [] h = (tt, tt)
next-AreApart nodes (events ∷ later) h = h

module _ {Storage MqttReqInfo : Type 0} (backend : Backend Storage) (nodes : List NodeInfo) where
  -- A wait keeps the maps in agreement, and the nodes out of them.
  pub wait-Stays :
      (s : NodeManage Storage MqttReqInfo)
      → AreApart nodes s.events
      → IsValid s.node_config
      → AllAbsent s.node_config nodes
      → Stays nodes (later_events s.events) (wait_operation_result backend s).0
  unfolding wait_operation_result
  wait-Stays s apart v h =
      let asleep : NodeManage Storage MqttReqInfo = record s {
        operation_result = none;
        events = later_events s.events;
      } in
      let woken : NodeManage Storage MqttReqInfo =
        react_all backend (next_events s.events) asleep in
      take_result-Stays backend nodes (later_events s.events) woken woken.operation_result (
        react_all-Stays backend nodes (later_events s.events) (next_events s.events) asleep
          (next-AreApart nodes s.events apart).0 (record { valid = v; absent = h; to_come = refl }))

module _ {Storage MqttReqInfo : Type 0} where
  -- Sending leaves the configuration.
  pub send_request_lem :
      (mqtt : Option MqttReqInfo) (request : Outcome Error AppData)
      (s : NodeManage Storage MqttReqInfo)
      → ((send_request mqtt request s).0.node_config ≡ s.node_config)
        × ((send_request mqtt request s).0.events ≡ s.events)
  unfolding send_request
  send_request_lem mqtt request s =
      continue_rule (λ z. (z.node_config ≡ s.node_config) × (z.events ≡ s.events))
        (s, of_protocol (message_of s.seq none mqtt request))
        (λ made. change (λ s'. record s' { sent = s'.sent ++ (made.0 ∷ []); seq = made.1 }))
        (refl, refl) (λ made e. (refl, refl))
