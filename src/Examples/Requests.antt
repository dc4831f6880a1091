-- ===== src/Examples/Requests.antt =====
-- The agent of the serial line.
use plc_service_rust.Base.{
  ℕ, ◌+◌, ◌%◌, ◌≡◌, ◌≢◌, refl, [], ◌∷◌, none, some, ok, panic, true, ◌⊎◌, ◌↔◌,
}
use plc_service_rust.Protocol.Fault.{init, route_get, route_set, query_data, file_transfer}
use plc_service_rust.Protocol.InfoField as Info
use plc_service_rust.Protocol.UserData as User
use plc_service_rust.Protocol.Frame.{Frame, Dir, Prm, Comm}
use plc_service_rust.Protocol.Frame.Build.{built}
use plc_service_rust.Protocol.Frame.Kind.{get_seq}
use plc_service_rust.Uart.Request.{UartMessage, ReqInfo}
use plc_service_rust.Uart.Agent.{
  waits, Event, Output, concurrent_timeout, UartReqInfo, concurrent, serial, response,
  concurrent_request, handled, sent, take_serial, take_answered, take_request, send_concurrent,
  expire, react, react_all, Turn, turn, get, remove, insert,
}
use plc_service_rust.Uart.Agent.Waiting.{answers}
use plc_service_rust.Uart.Agent.Exchange.{turn_resolves}
use plc_service_rust.Uart.Agent.Entry.{resolved}
use plc_service_rust.Uart.Agent.Concurrent.{concurrent_resolves, take_request-expire}
use plc_service_rust.Uart.Agent.Panics.{react_total}
use plc_service_rust.Uart.Dispatch.{
  uart_response_handler, uart_response_handler_status, uart_response_handler_client,
}
use plc_service_rust.Uart.Dispatch.Timeouts.{handle_timeout, file_upgrade, handle_timeout_upgrade}
use plc_service_rust.Uart.Dispatch.Reports.{uart_msg_handler, uart_msg_handler_report}
use plc_service_rust.Examples.Inputs.{init_frame}

abbrev request : UartMessage ℕ
request = record {
  req_info = record {
    mqtt_req_info = some 5;
    frame_key = record { afn = init; fn_num = 2 };
    seq_num = 0;
    origin_req_key = none;
  };
  frame = init_frame;
}

-- A response of the module with the same sequence number.
abbrev reply : Frame
reply = record init_frame {
  ctrl_field = record { dir = Dir.up; prm = Prm.slave; comm = Comm.hplc };
}

abbrev idle : UartReqInfo ℕ ℕ
idle = record { req_info = none; concurrent_req_info = [] }

abbrev replied : Turn ℕ ℕ
replied = record {
  shared = idle;
  outputs = handled reply (serial request.req_info) ∷ [];
  timeout = none;
  counter = 0;
}

turn-replied : turn request (response reply ∷ []) idle 3 ≡ ok replied
unfolding turn react_all react take_request take_answered take_serial get built User.new Info.new
turn-replied = refl

request-waits : waits request ≡ true
unfolding built
request-waits = refl

turn_resolves_example :
    (replied.shared.req_info ≡ none)
    × (((replied.timeout ≡ some request.req_info)
          × (answers replied.outputs ≡ [])
          × (replied.counter ≡ (3 + 1) % 256))
        ⊎ ((f : Frame) × (replied.timeout ≡ none)
            × (answers replied.outputs ≡ (f, request.req_info) ∷ [])
            × (get_seq f ≡ request.req_info.seq_num)
            × (replied.counter ≡ 0)))
turn_resolves_example =
    turn_resolves request (response reply ∷ []) idle 3 replied request-waits turn-replied

concurrent_ran :
    react_all (concurrent_request request 1 true ∷ response reply ∷ []) idle
    ≡ ok (idle, sent ∷ handled reply (concurrent request.req_info) ∷ [])
unfolding react_all react take_request take_answered send_concurrent get remove insert built
    User.new Info.new
concurrent_ran = refl

concurrent_resolves_example :
    ((get (get_seq request.frame) idle.concurrent_req_info ≡ some (request.req_info, 1))
      × (resolved (get_seq request.frame) (sent ∷ handled reply (concurrent request.req_info) ∷ [])
          ≡ []))
    ⊎ ((get (get_seq request.frame) idle.concurrent_req_info ≡ none)
        × (resolved
              (get_seq request.frame)
              (sent ∷ handled reply (concurrent request.req_info) ∷ [])
            ≡ request.req_info ∷ []))
concurrent_resolves_example =
    concurrent_resolves request 1 (response reply ∷ []) idle idle
      (sent ∷ handled reply (concurrent request.req_info) ∷ []) (refl, tt) concurrent_ran

abbrev one_entry : UartReqInfo ℕ ℕ
one_entry = record { req_info = none; concurrent_req_info = (0, (request.req_info, 1)) ∷ [] }

reply_taken : take_request reply one_entry ≡ ok (idle, concurrent request.req_info)
unfolding take_request take_answered get remove built User.new Info.new
reply_taken = refl

take_request-expire_example : expire (get_seq reply) idle ≡ panic
take_request-expire_example = take_request-expire reply one_entry idle request.req_info reply_taken

-- The timeout of a request that is no longer there.
abbrev nine : Event ℕ ℕ
nine = concurrent_timeout 9

react_total_example :
    ((p : UartReqInfo ℕ ℕ × Output ℕ) × (react nine one_entry ≡ ok p))
    ⊎ ((seq : ℕ) × (nine ≡ concurrent_timeout seq)
        × (get seq one_entry.concurrent_req_info ≡ none)
        × (react nine one_entry ≡ panic))
react_total_example = react_total nine one_entry tt

-- The query of the running status that src/service/identify_area.rs sends.
abbrev status_query : ReqInfo ℕ
status_query = record {
  mqtt_req_info = none;
  frame_key = record { afn = route_get; fn_num = 4 };
  seq_num = 0;
  origin_req_key = some (record { afn = route_set; fn_num = 5 });
}

uart_response_handler_status_example : uart_response_handler status_query ≡ panic
uart_response_handler_status_example = uart_response_handler_status status_query refl refl

abbrev node_query : ReqInfo ℕ
node_query = record {
  mqtt_req_info = some 5;
  frame_key = record { afn = route_get; fn_num = 3 };
  seq_num = 0;
  origin_req_key = none;
}

uart_response_handler_client_example : uart_response_handler node_query ≢ panic
uart_response_handler_client_example =
    uart_response_handler_client node_query 5 refl (λ e. cc) (λ e. cc)

-- The query of the running status during an upgrade of the nodes.
abbrev upgrade_query : ReqInfo ℕ
upgrade_query = record {
  mqtt_req_info = none;
  frame_key = record { afn = route_get; fn_num = 4 };
  seq_num = 0;
  origin_req_key = some (record { afn = file_transfer; fn_num = 1 });
}

handle_timeout_upgrade_example :
    (handle_timeout upgrade_query ≡ ok file_upgrade)
    ↔ ((route_get ≡ file_transfer) × (upgrade_query.frame_key.fn_num ≡ 1))
handle_timeout_upgrade_example = handle_timeout_upgrade upgrade_query

-- A report of the module's information, function 10 of AFN 03H.
abbrev module_report : UartMessage ℕ
module_report = record {
  req_info = record {
    mqtt_req_info = none;
    frame_key = record { afn = query_data; fn_num = 10 };
    seq_num = 0;
    origin_req_key = none;
  };
  frame = record init_frame {
    ctrl_field = record { dir = Dir.up; prm = Prm.master; comm = Comm.hplc };
  };
}

uart_msg_handler_report_example : uart_msg_handler true true module_report ≢ panic
uart_msg_handler_report_example = uart_msg_handler_report true module_report refl
