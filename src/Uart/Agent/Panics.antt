-- ===== src/Uart/Agent/Panics.antt =====
-- src/uart_agent.rs: which events of the threads panic.
use plc_service_rust.Base.{
  ℕ, none, Outcome, ok, panic, ◌>>=◌, Bool, ◌≡◌, refl, ap, ◌∙◌, Bool-cases, Option-cases, inl, inr,
  ◌⊎◌, ◌&&◌, if◌then◌else◌,
}
use plc_service_rust.Protocol.Fault.{Error}
use plc_service_rust.Protocol.Frame.{Frame}
use plc_service_rust.Protocol.Frame.Kind.{frame_afn, frame_fn_num, is_slave_report}
use plc_service_rust.Uart.Request as Request
use plc_service_rust.Uart.Request.{ReqInfo, UartMessage}
use plc_service_rust.Uart.Agent.{
  UartReqInfo, Routed, report, Event, response, concurrent_request, concurrent_timeout, Output,
  handled, timed_out, sent, no_origin, take_answered, take_request, send_concurrent, expire, react,
  get, remove,
}

module _ {MqttReqInfo Guard : Type 0} where
  -- A response has a function number.
  abbrev pub IsReadable : Event MqttReqInfo Guard → Type 0
  IsReadable (response f) = (n : ℕ) × (frame_fn_num f ≡ ok n)
  IsReadable (concurrent_request message guard written) = Unit
  IsReadable (concurrent_timeout seq) = Unit

  take_request_total :
      (f : Frame) (s : UartReqInfo MqttReqInfo Guard) (n : ℕ)
      → frame_fn_num f ≡ ok n
      → (p : UartReqInfo MqttReqInfo Guard × Routed MqttReqInfo) × (take_request f s ≡ ok p)
  unfolding take_request
  take_request_total f s n h =
      let branch : Bool → Outcome Error (UartReqInfo MqttReqInfo Guard × Routed MqttReqInfo) = λ b.
        if b
        then Request.new f none >>= (λ info. ok (s, report info))
        else ok (take_answered f s) in
      elim (Bool-cases (is_slave_report f && no_origin s.req_info)) [
        | inl e ↦ (
          (s, report (Request.new_with_key f (record { afn = frame_afn f; fn_num = n }) none)),
          ap branch e ∙ rw h refl,
        )
        | inr e ↦ (take_answered f s, ap branch e)
      ]

  -- An event with a readable frame goes through, unless it is the timeout of a concurrent request
  -- with a sequence number that has no entry: that one panics.
  pub react_total :
      (e : Event MqttReqInfo Guard) (s : UartReqInfo MqttReqInfo Guard)
      → IsReadable e
      → ((p : UartReqInfo MqttReqInfo Guard × Output MqttReqInfo) × (react e s ≡ ok p))
        ⊎ ((seq : ℕ) × (e ≡ concurrent_timeout seq)
            × (get seq s.concurrent_req_info ≡ none)
            × (react e s ≡ panic))
  unfolding react expire
  react_total (response f) s (n, h) =
      let (p, taken) = take_request_total f s n h in inl ((p.0, handled f (p.1)), rw taken refl)
  react_total (concurrent_request message guard written) s h =
      inl ((send_concurrent message guard written s, sent), refl)
  react_total (concurrent_timeout seq) s h = elim (Option-cases (get seq s.concurrent_req_info)) [
    | inl e ↦ inr (seq, refl, e, rw (e, expire) refl)
    | inr (v, e) ↦ inl (
      (record s { concurrent_req_info = remove seq s.concurrent_req_info }, timed_out seq (v.0)),
      rw (e, expire) refl,
    )
  ]
