-- ===== src/Uart/Dispatch/Reports.antt =====
-- src/uart_handler.rs: what a report that the module sends unasked leads to.
use plc_service_rust.Base.{
  ℕ, ◌==◌, if◌then◌else◌, Outcome, ok, err, panic, Bool, true, false, ◌≡◌, ◌≢◌,
}
use plc_service_rust.Protocol.Fault.{
  Afn, answer, init, data_forward, query_data, port_check, ctrl_cmd, report, route_get, route_set,
  route_ctrl, route_data_forward, route_data_read, file_transfer, debug, cocurrent_read_meter, test,
}
use plc_service_rust.Protocol.Frame.Kind.{is_slave_report}
use plc_service_rust.Uart.Request.{UartMessage}
use plc_service_rust.Uart.Dispatch.{
  UartHandlerError, unsupported_afn, unsupported_afn_fn, Target, member, query_data_numbers,
  uart_response_handler,
}

-- What is done: for a report of the module's information, that an upgrade has ended or the start-up
-- gets the address; for the others, the function of the service; for a response, its handler.
pub data Handled : Type 0 where
  upgrade_finished update_address clock_data comm_delay slave_node_event node_info
        node_info_and_device work_status :
      Handled
  response : Target → Handled

abbrev pub uart_route_data_read_handler : ℕ → Outcome UartHandlerError Handled
uart_route_data_read_handler n =
    if n == 2
    then ok clock_data
    else if n == 3
    then ok comm_delay
    else err (unsupported_afn_fn route_data_read n)

abbrev pub uart_active_report_handler : ℕ → Outcome UartHandlerError Handled
uart_active_report_handler n =
    if n == 5
    then ok slave_node_event
    else if n == 1
    then ok node_info
    else if n == 4
    then ok node_info_and_device
    else if n == 3
    then ok work_status
    else err (unsupported_afn_fn report n)

-- `read` is whether the report of the module's information can be read, `upgrading` whether a file
-- is on its way or an upgrade under way (`is_upgrading`).
abbrev pub module_info_report : Bool → Bool → Outcome UartHandlerError Handled
module_info_report true true = ok upgrade_finished
module_info_report true false = ok update_address
module_info_report false upgrading = panic

abbrev pub report_by_afn : Bool → Bool → Afn → ℕ → Outcome UartHandlerError Handled
report_by_afn read upgrading query_data n =
    if member n query_data_numbers
    then (if n == 10
        then module_info_report read upgrading
        else err (unsupported_afn_fn query_data n))
    else err (unsupported_afn_fn query_data n)
report_by_afn read upgrading route_data_read n = uart_route_data_read_handler n
report_by_afn read upgrading report n = uart_active_report_handler n
report_by_afn read upgrading other n = err (unsupported_afn other)

abbrev pub to_response : Outcome UartHandlerError Target → Outcome UartHandlerError Handled
to_response (ok t) = ok (response t)
to_response (err e) = err e
to_response panic = panic

-- No panic.
abbrev IsHandled : Outcome UartHandlerError Handled → Type 0
IsHandled o = o ≢ panic

if-IsHandled :
    (b : Bool) (x y : Outcome UartHandlerError Handled)
    → IsHandled x
    → IsHandled y
    → IsHandled (if b then x else y)
if-IsHandled true x y h k = h
if-IsHandled false x y h k = k

module_info-IsHandled : (upgrading : Bool) → IsHandled (module_info_report true upgrading)
module_info-IsHandled true e = cc
module_info-IsHandled false e = cc

route_data-IsHandled : (n : ℕ) → IsHandled (uart_route_data_read_handler n)
route_data-IsHandled n =
    if-IsHandled (n == 2) _ _ (λ e. cc) (if-IsHandled (n == 3) _ _ (λ e. cc) (λ e. cc))

active-IsHandled : (n : ℕ) → IsHandled (uart_active_report_handler n)
active-IsHandled n =
    if-IsHandled (n == 5) _ _ (λ e. cc)
      (if-IsHandled (n == 1) _ _ (λ e. cc)
        (if-IsHandled (n == 4) _ _ (λ e. cc) (if-IsHandled (n == 3) _ _ (λ e. cc) (λ e. cc))))

report_by_afn-IsHandled :
    (upgrading : Bool) (a : Afn) (n : ℕ) → IsHandled (report_by_afn true upgrading a n)
report_by_afn-IsHandled upgrading answer n = λ e. cc
report_by_afn-IsHandled upgrading init n = λ e. cc
report_by_afn-IsHandled upgrading data_forward n = λ e. cc
report_by_afn-IsHandled upgrading query_data n =
    if-IsHandled (member n query_data_numbers) _ _
      (if-IsHandled (n == 10) _ _ (module_info-IsHandled upgrading) (λ e. cc)) (λ e. cc)
report_by_afn-IsHandled upgrading port_check n = λ e. cc
report_by_afn-IsHandled upgrading ctrl_cmd n = λ e. cc
report_by_afn-IsHandled upgrading report n = active-IsHandled n
report_by_afn-IsHandled upgrading route_get n = λ e. cc
report_by_afn-IsHandled upgrading route_set n = λ e. cc
report_by_afn-IsHandled upgrading route_ctrl n = λ e. cc
report_by_afn-IsHandled upgrading route_data_forward n = λ e. cc
report_by_afn-IsHandled upgrading route_data_read n = route_data-IsHandled n
report_by_afn-IsHandled upgrading file_transfer n = λ e. cc
report_by_afn-IsHandled upgrading debug n = λ e. cc
report_by_afn-IsHandled upgrading cocurrent_read_meter n = λ e. cc
report_by_afn-IsHandled upgrading test n = λ e. cc

module _ {MqttReqInfo : Type 0} where
  unfoldable pub uart_slave_report_handler :
      Bool → Bool → UartMessage MqttReqInfo → Outcome UartHandlerError Handled
  uart_slave_report_handler read upgrading m =
      report_by_afn read upgrading m.req_info.frame_key.afn m.req_info.frame_key.fn_num

  unfoldable pub uart_msg_handler :
      Bool → Bool → UartMessage MqttReqInfo → Outcome UartHandlerError Handled
  uart_msg_handler read upgrading m =
      if is_slave_report m.frame
      then uart_slave_report_handler read upgrading m
      else to_response (uart_response_handler m.req_info)

  -- No report makes the dispatch panic, whatever its function is, if it is not a report of the
  -- module's information that cannot be read.
  pub uart_msg_handler_report :
      (upgrading : Bool) (m : UartMessage MqttReqInfo)
      → is_slave_report m.frame ≡ true
      → uart_msg_handler true upgrading m ≢ panic
  unfolding uart_msg_handler uart_slave_report_handler
  uart_msg_handler_report upgrading m h =
      rw h (report_by_afn-IsHandled upgrading m.req_info.frame_key.afn m.req_info.frame_key.fn_num)
