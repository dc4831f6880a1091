-- ===== src/Uart/Dispatch/Timeouts.antt =====
-- src/uart_handler.rs: who learns that a request was not answered in time. As for the responses, the
-- services' own functions are only named.
use plc_service_rust.Base.{
  ℕ, ◌==◌, ==_iff, if◌then◌else◌, [], ◌∷◌, none, some, Outcome, ok, err, panic, unwrap, ◌>>=◌, Bool,
  true, false, ◌&&◌, ◌||◌, ◌≡◌, ◌≢◌, ◌↔◌, refl, Bool-cases, Option-cases, inl, inr,
}
use plc_service_rust.Protocol.Fault.{
  Afn, answer, init, data_forward, query_data, port_check, ctrl_cmd, report, route_get, route_set,
  route_ctrl, route_data_forward, route_data_read, file_transfer, debug, cocurrent_read_meter, test,
}
use plc_service_rust.Uart.Request.{ReqInfo, is_init}
use plc_service_rust.Uart.Dispatch.{
  UartHandlerError, unsupported_afn_fn, no_origin_req_key, member, route_set_numbers,
  route_query_numbers,
}

-- What is called: `client` is the refusal that an MQTT client gets, `start_up` is `notify_timeout`.
pub data TimeoutTarget : Type 0 where
  concurrent_meter node_manage identify_area monitor_node data_transfer hplc_info file_upgrade
        client start_up :
      TimeoutTarget

-- `try_from(...).map_err(...)?`, and then a match.
abbrev pub known :
    Bool → Afn → ℕ → Outcome UartHandlerError TimeoutTarget → Outcome UartHandlerError TimeoutTarget
known known_ afn n next = if known_ then next else err (unsupported_afn_fn afn n)

abbrev pub handle_route_data_forward_timeout : ℕ → Outcome UartHandlerError TimeoutTarget
handle_route_data_forward_timeout n = known (n == 1) route_data_forward n (ok monitor_node)

abbrev pub handle_data_forward_timeout : ℕ → Outcome UartHandlerError TimeoutTarget
handle_data_forward_timeout n = known (n == 1) data_forward n (ok data_transfer)

abbrev pub handle_file_transfer_timeout : ℕ → Outcome UartHandlerError TimeoutTarget
handle_file_transfer_timeout n = known (n == 1) file_transfer n (ok file_upgrade)

abbrev pub comm_delay_timeout : Afn → ℕ → Outcome UartHandlerError TimeoutTarget
comm_delay_timeout route_data_forward n = known (n == 1) route_data_forward n (ok monitor_node)
comm_delay_timeout _ n = panic

-- Not to the upgrade.
abbrev IsOther : Outcome UartHandlerError TimeoutTarget → Type 0
IsOther o = o ≢ ok file_upgrade

if-IsOther :
    (b : Bool) (x y : Outcome UartHandlerError TimeoutTarget)
    → IsOther x
    → IsOther y
    → IsOther (if b then x else y)
if-IsOther true x y h k = h
if-IsOther false x y h k = k

known-IsOther :
    (b : Bool) (a : Afn) (n : ℕ) (next : Outcome UartHandlerError TimeoutTarget)
    → IsOther next
    → IsOther (known b a n next)
known-IsOther b a n next h = if-IsOther b next (err (unsupported_afn_fn a n)) h (λ e. cc)

if-ne :
    (b : Bool) (x y : TimeoutTarget)
    → x ≢ file_upgrade
    → y ≢ file_upgrade
    → (if b then x else y) ≢ file_upgrade
if-ne true x y h k = h
if-ne false x y h k = k

ok-IsOther : (x : TimeoutTarget) → x ≢ file_upgrade → IsOther (ok x)
ok-IsOther x h = λ e. h cc

comm_delay-IsOther : (a : Afn) (n : ℕ) → IsOther (comm_delay_timeout a n)
comm_delay-IsOther answer n = λ f. cc
comm_delay-IsOther init n = λ f. cc
comm_delay-IsOther data_forward n = λ f. cc
comm_delay-IsOther query_data n = λ f. cc
comm_delay-IsOther port_check n = λ f. cc
comm_delay-IsOther ctrl_cmd n = λ f. cc
comm_delay-IsOther report n = λ f. cc
comm_delay-IsOther route_get n = λ f. cc
comm_delay-IsOther route_set n = λ f. cc
comm_delay-IsOther route_ctrl n = λ f. cc
comm_delay-IsOther route_data_forward n =
    known-IsOther (n == 1) route_data_forward n (ok monitor_node) (λ f. cc)
comm_delay-IsOther route_data_read n = λ f. cc
comm_delay-IsOther file_transfer n = λ f. cc
comm_delay-IsOther debug n = λ f. cc
comm_delay-IsOther cocurrent_read_meter n = λ f. cc
comm_delay-IsOther test n = λ f. cc

module _ {MqttReqInfo : Type 0} where
  abbrev pub default_timeout_handler : ReqInfo MqttReqInfo → TimeoutTarget
  default_timeout_handler r = elim r.mqtt_req_info [ some mqtt ↦ client | none ↦ start_up ]

  unfoldable pub handle_concurrent_read_meter_timeout :
      ReqInfo MqttReqInfo → Outcome UartHandlerError TimeoutTarget
  handle_concurrent_read_meter_timeout r =
      known (r.frame_key.fn_num == 1) cocurrent_read_meter r.frame_key.fn_num
        (unwrap r.mqtt_req_info >>= λ mqtt. ok concurrent_meter)

  unfoldable pub handle_route_set_timeout :
      ReqInfo MqttReqInfo → Outcome UartHandlerError TimeoutTarget
  handle_route_set_timeout r =
      known (member r.frame_key.fn_num route_set_numbers) route_set r.frame_key.fn_num (
        ok (
          if r.frame_key.fn_num == 1 || r.frame_key.fn_num == 2
          then node_manage
          else if r.frame_key.fn_num == 5
          then identify_area
          else default_timeout_handler r))

  unfoldable pub handle_route_data_read_timeout :
      ReqInfo MqttReqInfo → Outcome UartHandlerError TimeoutTarget
  handle_route_data_read_timeout r =
      known (member r.frame_key.fn_num (2 ∷ 3 ∷ [])) route_data_read r.frame_key.fn_num (
        if r.frame_key.fn_num == 3
        then (elim r.origin_req_key [
          | none ↦ err no_origin_req_key
          | some key ↦ comm_delay_timeout key.afn key.fn_num
        ])
        else panic)

  unfoldable pub handle_route_get_timeout :
      ReqInfo MqttReqInfo → Outcome UartHandlerError TimeoutTarget
  handle_route_get_timeout r =
      known (member r.frame_key.fn_num route_query_numbers) route_get r.frame_key.fn_num (
        ok (
          if r.frame_key.fn_num == 4 && is_init r
          then identify_area
          else if r.frame_key.fn_num == 21 || r.frame_key.fn_num == 104
          then hplc_info
          else default_timeout_handler r))

  abbrev pub timeout_by_afn : Afn → ReqInfo MqttReqInfo → Outcome UartHandlerError TimeoutTarget
  timeout_by_afn cocurrent_read_meter r = handle_concurrent_read_meter_timeout r
  timeout_by_afn route_set r = handle_route_set_timeout r
  timeout_by_afn route_data_forward r = handle_route_data_forward_timeout r.frame_key.fn_num
  timeout_by_afn data_forward r = handle_data_forward_timeout r.frame_key.fn_num
  timeout_by_afn route_data_read r = handle_route_data_read_timeout r
  timeout_by_afn route_get r = handle_route_get_timeout r
  timeout_by_afn file_transfer r = handle_file_transfer_timeout r.frame_key.fn_num
  timeout_by_afn _ r = ok (default_timeout_handler r)

  unfoldable pub handle_timeout : ReqInfo MqttReqInfo → Outcome UartHandlerError TimeoutTarget
  handle_timeout r = timeout_by_afn r.frame_key.afn r

  default-ne : (r : ReqInfo MqttReqInfo) → default_timeout_handler r ≢ file_upgrade
  default-ne r = elim (Option-cases r.mqtt_req_info) [ inl e ↦ λ f. cc | inr (mqtt, e) ↦ λ f. cc ]

  by_default : (r : ReqInfo MqttReqInfo) → IsOther (ok (default_timeout_handler r))
  by_default r = ok-IsOther (default_timeout_handler r) (default-ne r)

  upgrade_only :
      (a : Afn) (r : ReqInfo MqttReqInfo)
      → timeout_by_afn a r ≡ ok file_upgrade
      → (a ≡ file_transfer) × (r.frame_key.fn_num ≡ 1)
  unfolding handle_concurrent_read_meter_timeout handle_route_set_timeout
      handle_route_data_read_timeout handle_route_get_timeout
  upgrade_only answer r h = absurd (by_default r h)
  upgrade_only init r h = absurd (by_default r h)
  upgrade_only data_forward r h =
      absurd (known-IsOther (r.frame_key.fn_num == 1) data_forward r.frame_key.fn_num _ (λ f. cc) h)
  upgrade_only query_data r h = absurd (by_default r h)
  upgrade_only port_check r h = absurd (by_default r h)
  upgrade_only ctrl_cmd r h = absurd (by_default r h)
  upgrade_only report r h = absurd (by_default r h)
  upgrade_only route_get r h = absurd (
      known-IsOther (member r.frame_key.fn_num route_query_numbers) route_get r.frame_key.fn_num _
        (ok-IsOther _ (
          if-ne (r.frame_key.fn_num == 4 && is_init r) _ _ (λ f. cc)
            (if-ne (r.frame_key.fn_num == 21 || r.frame_key.fn_num == 104) _ _ (λ f. cc)
              (default-ne r))))
        h)
  upgrade_only route_set r h = absurd (
      known-IsOther (member r.frame_key.fn_num route_set_numbers) route_set r.frame_key.fn_num _
        (ok-IsOther _ (
          if-ne (r.frame_key.fn_num == 1 || r.frame_key.fn_num == 2) _ _ (λ f. cc)
            (if-ne (r.frame_key.fn_num == 5) _ _ (λ f. cc) (default-ne r))))
        h)
  upgrade_only route_ctrl r h = absurd (by_default r h)
  upgrade_only route_data_forward r h =
      absurd (
        known-IsOther (r.frame_key.fn_num == 1) route_data_forward r.frame_key.fn_num _ (λ f. cc) h)
  upgrade_only route_data_read r h = absurd (
      known-IsOther (member r.frame_key.fn_num (2 ∷ 3 ∷ [])) route_data_read r.frame_key.fn_num _
        (if-IsOther (r.frame_key.fn_num == 3) _ _
          (elim (Option-cases r.origin_req_key) [
            | inl e ↦ rw e (λ f. cc)
            | inr (key, e) ↦ rw e (comm_delay-IsOther key.afn key.fn_num)
          ])
          (λ f. cc))
        h)
  upgrade_only file_transfer r h = elim (Bool-cases (r.frame_key.fn_num == 1)) [
    | inl e ↦ (refl, (==_iff r.frame_key.fn_num 1).0 e)
    | inr e ↦ absurd (cc (rw e at h))
  ]
  upgrade_only debug r h = absurd (by_default r h)
  upgrade_only cocurrent_read_meter r h = absurd (
      known-IsOther (r.frame_key.fn_num == 1) cocurrent_read_meter r.frame_key.fn_num _
        (elim (Option-cases r.mqtt_req_info) [
          | inl e ↦ rw e (λ f. cc)
          | inr (mqtt, e) ↦ rw e (λ f. cc)
        ])
        h)
  upgrade_only test r h = absurd (by_default r h)

  -- The timeout of a request goes to the upgrade service if and only if the request was a file
  -- segment, whoever made it and whatever its origin is.
  pub handle_timeout_upgrade :
      (r : ReqInfo MqttReqInfo)
      → (handle_timeout r ≡ ok file_upgrade)
        ↔ ((r.frame_key.afn ≡ file_transfer) × (r.frame_key.fn_num ≡ 1))
  unfolding handle_timeout
  handle_timeout_upgrade r = (upgrade_only r.frame_key.afn r, λ h. rw (h.0, h.1) refl)
