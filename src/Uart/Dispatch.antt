-- ===== src/Uart/Dispatch.antt =====
-- src/uart_handler.rs: which handler of a service gets a response that is no report of a node. The
-- handlers themselves are not part of the model: `call afn number` stands for the one that the code
-- names for this function, `ok` for its being called. `unreachable!`, `expect` and `unwrap` panic.
pub mod Timeouts
pub mod Reports
use plc_service_rust.Base.{
  ℕ, ◌==◌, if◌then◌else◌, List, [], ◌∷◌, none, some, Outcome, ok, err, panic, unwrap, ◌>>=◌, Bool,
  true, false, ◌≡◌, ◌≢◌, refl, sym, ap, ◌∙◌, Bool-cases, Option-cases, inl, inr,
}
use plc_service_rust.Protocol.Fault.{
  Afn, answer, init, data_forward, query_data, port_check, ctrl_cmd, report, route_get, route_set,
  route_ctrl, route_data_forward, route_data_read, file_transfer, debug, cocurrent_read_meter, test,
}
use plc_service_rust.Uart.Request.{ReqInfo, is_init}

pub data UartHandlerError : Type 0 where
  unsupported_afn : Afn → UartHandlerError
  unsupported_afn_fn : Afn → ℕ → UartHandlerError
  no_origin_req_key : UartHandlerError

-- A service's handler for responses with this function, to clients or to the start-up.
pub data Target : Type 0 where
  call : Afn → ℕ → Target
  init_call : Afn → ℕ → Target
  running_status : Afn → Target

-- `try_from` of the enums of function numbers, as the list of their numbers.
abbrev pub member : ℕ → List ℕ → Bool
member n [] = false
member n (m ∷ ms) = let rest = member n ms in if n == m then true else rest

abbrev pub init_numbers : List ℕ
init_numbers = 1 ∷ 2 ∷ 3 ∷ []

abbrev pub ctrl_cmd_numbers : List ℕ
ctrl_cmd_numbers = 1 ∷ 2 ∷ 3 ∷ 6 ∷ 16 ∷ []

abbrev pub route_set_numbers : List ℕ
route_set_numbers = 1 ∷ 2 ∷ 5 ∷ 6 ∷ []

abbrev pub route_query_numbers : List ℕ
route_query_numbers = 1 ∷ 2 ∷ 4 ∷ 7 ∷ 9 ∷ 21 ∷ 31 ∷ 40 ∷ 104 ∷ 111 ∷ 112 ∷ []

abbrev pub query_data_numbers : List ℕ
query_data_numbers = 1 ∷ 4 ∷ 9 ∷ 10 ∷ 12 ∷ 16 ∷ []

abbrev pub meter_control_numbers : List ℕ
meter_control_numbers = 1 ∷ 2 ∷ 3 ∷ []

-- `try_from(...).map_err(...)?` and then the handler of the number.
abbrev pub call_known : List ℕ → Afn → ℕ → Outcome UartHandlerError Target
call_known numbers afn n =
    if member n numbers then ok (call afn n) else err (unsupported_afn_fn afn n)

-- `try_from(...).expect(...)` and a match with one arm, `n == arm`, and `unreachable!`.
abbrev pub expect_arm : List ℕ → ℕ → Afn → ℕ → Outcome UartHandlerError Target
expect_arm numbers arm afn n =
    if member n numbers then (if n == arm then ok (init_call afn n) else panic) else panic

-- The last match of `uart_init_handler` for `Afn::RouteGet`.
abbrev pub running_status_call : Afn → Outcome UartHandlerError Target
running_status_call route_set = ok (running_status route_set)
running_status_call file_transfer = ok (running_status file_transfer)
running_status_call _ = panic

abbrev pub mqtt_by_afn : Afn → ℕ → Outcome UartHandlerError Target
mqtt_by_afn init n =
    if member n init_numbers
    then (if n == 3 then ok (call init n) else panic)
    else err (unsupported_afn_fn init n)
mqtt_by_afn data_forward n = call_known (1 ∷ []) data_forward n
mqtt_by_afn ctrl_cmd n = call_known ctrl_cmd_numbers ctrl_cmd n
mqtt_by_afn query_data n = call_known query_data_numbers query_data n
mqtt_by_afn route_set n = call_known route_set_numbers route_set n
mqtt_by_afn route_get n = call_known route_query_numbers route_get n
mqtt_by_afn route_ctrl n = call_known meter_control_numbers route_ctrl n
mqtt_by_afn route_data_forward n = call_known (1 ∷ []) route_data_forward n
mqtt_by_afn file_transfer n = call_known (1 ∷ []) file_transfer n
mqtt_by_afn cocurrent_read_meter n = call_known (1 ∷ []) cocurrent_read_meter n
mqtt_by_afn test n = if n == 0 then ok (call test n) else panic
mqtt_by_afn other n = err (unsupported_afn other)

call_known-no_panic : (numbers : List ℕ) (a : Afn) (n : ℕ) → call_known numbers a n ≢ panic
call_known-no_panic numbers a n e = elim (Bool-cases (member n numbers)) [
  | inl m ↦
      let opened : ◌≡◌ {A = Outcome UartHandlerError Target} (ok (call a n)) panic =
        sym (ap (λ b. if b then ok (call a n) else err (unsupported_afn_fn a n)) m) ∙ e in
      cc
  | inr m ↦
      let opened : ◌≡◌ {A = Outcome UartHandlerError Target} (err (unsupported_afn_fn a n)) panic =
        sym (ap (λ b. if b then ok (call a n) else err (unsupported_afn_fn a n)) m) ∙ e in
      cc
]

mqtt_by_afn-no_panic : (a : Afn) (n : ℕ) → a ≢ init → a ≢ test → mqtt_by_afn a n ≢ panic
mqtt_by_afn-no_panic answer n p q = λ e. cc
mqtt_by_afn-no_panic init n p q = absurd (p refl)
mqtt_by_afn-no_panic data_forward n p q = call_known-no_panic (1 ∷ []) data_forward n
mqtt_by_afn-no_panic query_data n p q = call_known-no_panic query_data_numbers query_data n
mqtt_by_afn-no_panic port_check n p q = λ e. cc
mqtt_by_afn-no_panic ctrl_cmd n p q = call_known-no_panic ctrl_cmd_numbers ctrl_cmd n
mqtt_by_afn-no_panic report n p q = λ e. cc
mqtt_by_afn-no_panic route_get n p q = call_known-no_panic route_query_numbers route_get n
mqtt_by_afn-no_panic route_set n p q = call_known-no_panic route_set_numbers route_set n
mqtt_by_afn-no_panic route_ctrl n p q = call_known-no_panic meter_control_numbers route_ctrl n
mqtt_by_afn-no_panic route_data_forward n p q = call_known-no_panic (1 ∷ []) route_data_forward n
mqtt_by_afn-no_panic route_data_read n p q = λ e. cc
mqtt_by_afn-no_panic file_transfer n p q = call_known-no_panic (1 ∷ []) file_transfer n
mqtt_by_afn-no_panic debug n p q = λ e. cc
mqtt_by_afn-no_panic cocurrent_read_meter n p q =
    call_known-no_panic (1 ∷ []) cocurrent_read_meter n
mqtt_by_afn-no_panic test n p q = absurd (q refl)

module _ {MqttReqInfo : Type 0} where
  abbrev pub init_route_get : ReqInfo MqttReqInfo → Outcome UartHandlerError Target
  init_route_get r = do
    key ← unwrap r.origin_req_key
    if member key.fn_num route_query_numbers
        then (if key.fn_num == 4 then running_status_call r.frame_key.afn else panic)
        else panic

  abbrev pub init_by_afn : Afn → ReqInfo MqttReqInfo → Outcome UartHandlerError Target
  init_by_afn query_data r = expect_arm query_data_numbers 10 query_data r.frame_key.fn_num
  init_by_afn ctrl_cmd r = expect_arm ctrl_cmd_numbers 1 ctrl_cmd r.frame_key.fn_num
  init_by_afn route_set r = expect_arm route_set_numbers 1 route_set r.frame_key.fn_num
  init_by_afn init r = expect_arm init_numbers 2 init r.frame_key.fn_num
  init_by_afn route_ctrl r =
      if member r.frame_key.fn_num meter_control_numbers
      then ok (init_call route_ctrl r.frame_key.fn_num)
      else panic
  init_by_afn route_get r = init_route_get r
  init_by_afn route_data_forward r = call_known (1 ∷ []) route_data_forward r.frame_key.fn_num
  init_by_afn _ r = panic

  unfoldable pub uart_init_handler : ReqInfo MqttReqInfo → Outcome UartHandlerError Target
  uart_init_handler r = init_by_afn r.frame_key.afn r

  unfoldable pub uart_mqtt_handler : ReqInfo MqttReqInfo → Outcome UartHandlerError Target
  uart_mqtt_handler r = mqtt_by_afn r.frame_key.afn r.frame_key.fn_num

  -- `uart_msg_handler` for a frame that is no slave report.
  unfoldable pub uart_response_handler : ReqInfo MqttReqInfo → Outcome UartHandlerError Target
  uart_response_handler r = if is_init r then uart_init_handler r else uart_mqtt_handler r

  -- The response to a query of the running status, or any other query of AFN 10H, that the service
  -- made itself, without an MQTT request, is never handled: whatever the request's origin is, and
  -- with none, the handler panics. It looks up the origin's number among the queries, and then
  -- compares the response's own function code, which is 10H, with 11H and 15H.
  pub uart_response_handler_status :
      (r : ReqInfo MqttReqInfo)
      → r.mqtt_req_info ≡ none
      → r.frame_key.afn ≡ route_get
      → uart_response_handler r ≡ panic
  unfolding uart_response_handler uart_init_handler
  uart_response_handler_status r h k = elim (Option-cases r.origin_req_key) [
    | inl e ↦ rw (h, k, e) refl
    | inr (key, e) ↦ elim (Bool-cases (member key.fn_num route_query_numbers)) [
      | inl m ↦ elim (Bool-cases (key.fn_num == 4)) [
        | inl q ↦ rw (h, k, e, m, q) refl
        | inr q ↦ rw (h, k, e, m, q) refl
      ]
      | inr m ↦ rw (h, k, e, m) refl
    ]
  ]

  -- A response to a client's request never makes the dispatch panic, whatever its function number
  -- is, unless the request was an initialisation (01H) or a test (FFH).
  pub uart_response_handler_client :
      (r : ReqInfo MqttReqInfo) (client : MqttReqInfo)
      → r.mqtt_req_info ≡ some client
      → r.frame_key.afn ≢ init
      → r.frame_key.afn ≢ test
      → uart_response_handler r ≢ panic
  unfolding uart_response_handler uart_mqtt_handler
  uart_response_handler_client r client h p q =
      rw h (mqtt_by_afn-no_panic r.frame_key.afn r.frame_key.fn_num p q)
