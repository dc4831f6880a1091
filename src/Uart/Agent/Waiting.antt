-- ===== src/Uart/Agent/Waiting.antt =====
-- src/uart_agent.rs: the serial request that waits, under one event of another thread.
use plc_service_rust.Base.{
  ℕ, ==_iff, List, [], ◌∷◌, ◌++◌, none, some, ok, ◌>>=◌, >>=-eq-ok, unwrap, Bool, true, false, ◌≡◌,
  refl, sym, Bool-cases, inl, inr, ◌⊎◌, subst, ◌&&◌, Option-cases, ap, ◌∙◌, if◌then◌else◌,
}
use plc_service_rust.Protocol.Frame.{Frame}
use plc_service_rust.Protocol.Frame.Kind.{get_seq, match_req, is_slave_report}
use plc_service_rust.Uart.Request as Request
use plc_service_rust.Uart.Request.{ReqInfo, UartMessage}
use plc_service_rust.Uart.Agent.{
  UartReqInfo, Routed, report, serial, Event, response, concurrent_request, concurrent_timeout,
  Output, handled, timed_out, sent, no_origin, take_serial, take_answered, take_request,
  send_concurrent, expire, react, get, remove,
}

module _ {MqttReqInfo : Type 0} where
  -- The responses that were handled as the answer of the serial request.
  abbrev pub answer_of : Output MqttReqInfo → List (Frame × ReqInfo MqttReqInfo)
  answer_of (handled f (serial r)) = (f, r) ∷ []
  answer_of (handled f other) = []
  answer_of (timed_out seq r) = []
  answer_of sent = []

  abbrev pub answers : List (Output MqttReqInfo) → List (Frame × ReqInfo MqttReqInfo)
  answers [] = []
  answers (o ∷ outputs) = answer_of o ++ answers outputs

module _ {MqttReqInfo Guard : Type 0} where
  -- One event keeps the serial request that waits, if there is one, or it is a response with its
  -- sequence number, which answers it.
  unfoldable pub OneAnswer :
      UartReqInfo MqttReqInfo Guard → UartReqInfo MqttReqInfo Guard → Output MqttReqInfo → Type 0
  OneAnswer s s' o =
      ((s'.req_info ≡ s.req_info) × (answer_of o ≡ []))
      ⊎ ((r : ReqInfo MqttReqInfo) × (f : Frame) × (s.req_info ≡ some r)
          × (s'.req_info ≡ none)
          × (answer_of o ≡ (f, r) ∷ [])
          × (get_seq f ≡ r.seq_num))

  take_serial-waiting :
      (f : Frame) (s : UartReqInfo MqttReqInfo Guard)
      → OneAnswer s ((take_serial f s).0) (handled f ((take_serial f s).1))
  unfolding take_serial OneAnswer
  take_serial-waiting f s = elim (Option-cases s.req_info) [
    | inl n ↦ rw n (inl (refl, refl))
    | inr (r, h) ↦ elim (Bool-cases (match_req f r.seq_num)) [
      | inl e ↦ rw (h, e) (inr (r, f, refl, refl, refl, (==_iff _ _).0 e))
      | inr e ↦ rw (h, e) (inl (refl, refl))
    ]
  ]

  take_answered-waiting :
      (f : Frame) (s : UartReqInfo MqttReqInfo Guard)
      → OneAnswer s ((take_answered f s).0) (handled f ((take_answered f s).1))
  unfolding take_answered
  take_answered-waiting f s = elim (Option-cases (get (get_seq f) s.concurrent_req_info)) [
    | inl e ↦ rw (e, take_answered) (take_serial-waiting f s)
    | inr (v, e) ↦ rw (e, take_answered) (unfold OneAnswer in inl (refl, refl))
  ]

  take_request-waiting :
      (f : Frame) (s : UartReqInfo MqttReqInfo Guard)
      (p : UartReqInfo MqttReqInfo Guard × Routed MqttReqInfo)
      → take_request f s ≡ ok p
      → OneAnswer s (p.0) (handled f (p.1))
  unfolding take_request
  take_request-waiting f s p k = elim (Bool-cases (is_slave_report f && no_origin s.req_info)) [
    | inl e ↦
        let opened : take_request f s ≡ (Request.new f none >>= λ info. ok (s, report info)) =
          ap
            (λ b.
              if b
              then (Request.new f none >>= λ info. ok (s, report info))
              else ok (take_answered f s))
            e in
        let (info, made, q) =
          >>=-eq-ok (Request.new f none) (λ info. ok (s, report info)) (sym opened ∙ k) in
        let same : ◌≡◌ {A = UartReqInfo MqttReqInfo Guard × Routed MqttReqInfo} (s, report info) p =
          cc in
        let kept : OneAnswer s s (handled f (report info)) = unfold OneAnswer in inl (refl, refl) in
        subst (λ p. OneAnswer s (p.0) (handled f (p.1))) same kept
    | inr e ↦
        let opened : take_request f s ≡ ok (take_answered f s) =
          ap
            (λ b.
              if b
              then (Request.new f none >>= λ info. ok (s, report info))
              else ok (take_answered f s))
            e in
        let same : take_answered f s ≡ p = cc in
        subst (λ p. OneAnswer s (p.0) (handled f (p.1))) same (take_answered-waiting f s)
  ]

  send_concurrent-waiting :
      (message : UartMessage MqttReqInfo) (guard : Guard) (written : Bool)
      (s : UartReqInfo MqttReqInfo Guard)
      → OneAnswer s (send_concurrent message guard written s) sent
  unfolding send_concurrent OneAnswer
  send_concurrent-waiting message guard true s = inl (refl, refl)
  send_concurrent-waiting message guard false s = inl (refl, refl)

  expire-waiting :
      (seq : ℕ) (s : UartReqInfo MqttReqInfo Guard)
      (p : UartReqInfo MqttReqInfo Guard × ReqInfo MqttReqInfo)
      → expire seq s ≡ ok p
      → OneAnswer s (p.0) (timed_out seq (p.1))
  unfolding expire
  expire-waiting seq s p k =
      let (entry, found, q) =
        >>=-eq-ok (unwrap (get seq s.concurrent_req_info))
          (λ entry.
            ok (record s { concurrent_req_info = remove seq s.concurrent_req_info }, entry.0))
          k in
      let same : ◌≡◌ {A = UartReqInfo MqttReqInfo Guard × ReqInfo MqttReqInfo}
          (record s { concurrent_req_info = remove seq s.concurrent_req_info }, entry.0) p =
        cc in
      let kept : OneAnswer s (record s { concurrent_req_info = remove seq s.concurrent_req_info })
          (timed_out seq (entry.0)) =
        unfold OneAnswer in inl (refl, refl) in
      subst (λ p. OneAnswer s (p.0) (timed_out seq (p.1))) same kept

  pub react-waiting :
      (e : Event MqttReqInfo Guard) (s s' : UartReqInfo MqttReqInfo Guard) (o : Output MqttReqInfo)
      → react e s ≡ ok (s', o)
      → OneAnswer s s' o
  unfolding react
  react-waiting (response f) s s' o k =
      let (p, taken, q) = >>=-eq-ok (take_request f s) (λ p. ok (p.0, handled f (p.1))) k in
      let same : ◌≡◌ {A = UartReqInfo MqttReqInfo Guard × Output MqttReqInfo} (p.0, handled f (p.1))
          (s', o) =
        cc in
      subst (λ p. OneAnswer s (p.0) (p.1)) same (take_request-waiting f s p taken)
  react-waiting (concurrent_request message guard written) s s' o k =
      let same : ◌≡◌ {A = UartReqInfo MqttReqInfo Guard × Output MqttReqInfo}
          (send_concurrent message guard written s, sent) (s', o) =
        cc in
      subst (λ p. OneAnswer s (p.0) (p.1)) same (send_concurrent-waiting message guard written s)
  react-waiting (concurrent_timeout seq) s s' o k =
      let (p, expired, q) = >>=-eq-ok (expire seq s) (λ p. ok (p.0, timed_out seq (p.1))) k in
      let same : ◌≡◌ {A = UartReqInfo MqttReqInfo Guard × Output MqttReqInfo}
          (p.0, timed_out seq (p.1)) (s', o) =
        cc in
      subst (λ p. OneAnswer s (p.0) (p.1)) same (expire-waiting seq s p expired)
