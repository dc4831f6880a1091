-- ===== src/Uart/Agent/Entry.antt =====
-- src/uart_agent.rs: an entry of `concurrent_req_info` under one event.
use plc_service_rust.Base.{
  ℕ, ◌==◌, ==_iff, List, [], ◌∷◌, ◌++◌, none, some, Outcome, ok, panic, ◌>>=◌, >>=-eq-ok, Bool,
  true, false, ◌≡◌, ◌≢◌, refl, sym, Bool-cases, inl, inr, ◌⊎◌, Option-cases, subst, ◌&&◌, ap, ◌∙◌,
  if◌then◌else◌,
}
use plc_service_rust.Protocol.Fault.{Error}
use plc_service_rust.Protocol.Frame.{Frame}
use plc_service_rust.Protocol.Frame.Kind.{get_seq, match_req, is_slave_report}
use plc_service_rust.Uart.Request as Request
use plc_service_rust.Uart.Request.{ReqInfo, UartMessage}
use plc_service_rust.Uart.Agent.{
  UartReqInfo, Routed, report, concurrent, Event, response, concurrent_request, concurrent_timeout,
  Output, handled, timed_out, sent, no_origin, take_serial, take_answered, take_request,
  send_concurrent, expire, react, get, remove,
}
use plc_service_rust.Uart.Agent.Maps.{get-remove, get-remove_other, get-insert_other}

module _ {MqttReqInfo : Type 0} where
  -- The concurrent requests with the sequence number `key` that an output resolves: handled with
  -- their response, or timed out.
  abbrev pub resolved_by : ℕ → Output MqttReqInfo → List (ReqInfo MqttReqInfo)
  resolved_by key (handled f (concurrent r)) = if get_seq f == key then r ∷ [] else []
  resolved_by key (handled f other) = []
  resolved_by key (timed_out seq r) = if seq == key then r ∷ [] else []
  resolved_by key sent = []

  abbrev pub resolved : ℕ → List (Output MqttReqInfo) → List (ReqInfo MqttReqInfo)
  resolved key [] = []
  resolved key (o ∷ outputs) = resolved_by key o ++ resolved key outputs

module _ {MqttReqInfo Guard : Type 0} where
  -- The event puts an entry under `key`.
  abbrev pub submits : ℕ → Event MqttReqInfo Guard → Bool
  submits key (response f) = false
  submits key (concurrent_request message guard written) = written && (get_seq message.frame == key)
  submits key (concurrent_timeout seq) = false

  unfoldable pub OneResolution :
      ℕ
      → UartReqInfo MqttReqInfo Guard
      → UartReqInfo MqttReqInfo Guard
      → Output MqttReqInfo
      → Type 0
  OneResolution key s s' o =
      ((get key s'.concurrent_req_info ≡ get key s.concurrent_req_info) × (resolved_by key o ≡ []))
      ⊎ ((v : ReqInfo MqttReqInfo × Guard) × (get key s.concurrent_req_info ≡ some v)
          × (get key s'.concurrent_req_info ≡ none)
          × (resolved_by key o ≡ v.0 ∷ []))

  take_serial-resolution :
      (key : ℕ) (f : Frame) (s : UartReqInfo MqttReqInfo Guard)
      → OneResolution key s ((take_serial f s).0) (handled f ((take_serial f s).1))
  unfolding take_serial OneResolution
  take_serial-resolution key f s = elim (Option-cases s.req_info) [
    | inl n ↦ rw n (inl (refl, refl))
    | inr (r, h) ↦ elim (Bool-cases (match_req f r.seq_num)) [
      | inl e ↦ rw (h, e) (inl (refl, refl))
      | inr e ↦ rw (h, e) (inl (refl, refl))
    ]
  ]

  -- An entry goes away, and the output is its resolution.
  removed :
      (key seq : ℕ) (s : UartReqInfo MqttReqInfo Guard) (v : ReqInfo MqttReqInfo × Guard)
      (o : Output MqttReqInfo)
      → get seq s.concurrent_req_info ≡ some v
      → resolved_by key o ≡ (if seq == key then v.0 ∷ [] else [])
      → OneResolution key s (record s { concurrent_req_info = remove seq s.concurrent_req_info }) o
  unfolding OneResolution
  removed key seq s v o found h = elim (Bool-cases (seq == key)) [
    | inl e ↦
        let same : seq ≡ key = (==_iff seq key).0 e in
        inr (
          v,
          subst (λ k. get k s.concurrent_req_info ≡ some v) same found,
          subst (λ k. get k (remove seq s.concurrent_req_info) ≡ none) same
              (get-remove seq s.concurrent_req_info),
          h ∙ ap (λ b. if b then v.0 ∷ [] else []) e,
        )
    | inr e ↦
        let apart : key ≢ seq =
          λ p. let yes : (seq == key) ≡ true = (==_iff seq key).1 (sym p) in cc in
        inl (
          get-remove_other key seq s.concurrent_req_info apart,
          h ∙ ap (λ b. if b then v.0 ∷ [] else []) e,
        )
  ]

  take_answered-resolution :
      (key : ℕ) (f : Frame) (s : UartReqInfo MqttReqInfo Guard)
      → OneResolution key s ((take_answered f s).0) (handled f ((take_answered f s).1))
  unfolding take_answered
  take_answered-resolution key f s = elim (Option-cases (get (get_seq f) s.concurrent_req_info)) [
    | inl e ↦ rw (e, take_answered) (take_serial-resolution key f s)
    | inr ((r, guard), e) ↦
        rw (e, take_answered)
          (removed key (get_seq f) s (r, guard) (handled f (concurrent r)) e refl)
  ]

  pub take_request-resolution :
      (key : ℕ) (f : Frame) (s : UartReqInfo MqttReqInfo Guard)
      (p : UartReqInfo MqttReqInfo Guard × Routed MqttReqInfo)
      → take_request f s ≡ ok p
      → OneResolution key s (p.0) (handled f (p.1))
  unfolding take_request
  take_request-resolution key f s p k =
      let branch : Bool → Outcome Error (UartReqInfo MqttReqInfo Guard × Routed MqttReqInfo) = λ b.
        if b
        then (Request.new f none >>= λ info. ok (s, report info))
        else ok (take_answered f s) in
      elim (Bool-cases (is_slave_report f && no_origin s.req_info)) [
        | inl e ↦
            let (info, made, q) =
              >>=-eq-ok (Request.new f none) (λ info. ok (s, report info))
                (sym (ap branch e) ∙ k) in
            let same : ◌≡◌ {A = UartReqInfo MqttReqInfo Guard × Routed MqttReqInfo} (s, report info)
                p =
              cc in
            let kept : OneResolution key s s (handled f (report info)) =
              unfold OneResolution in inl (refl, refl) in
            subst (λ p. OneResolution key s (p.0) (handled f (p.1))) same kept
        | inr e ↦
            let done : ◌≡◌ {A = Outcome Error (UartReqInfo MqttReqInfo Guard × Routed MqttReqInfo)}
                (ok (take_answered f s)) (ok p) =
              sym (ap branch e) ∙ k in
            let same : take_answered f s ≡ p = cc in
            subst (λ p. OneResolution key s (p.0) (handled f (p.1))) same
              (take_answered-resolution key f s)
      ]

  send_concurrent-resolution :
      (key : ℕ) (message : UartMessage MqttReqInfo) (guard : Guard) (written : Bool)
      (s : UartReqInfo MqttReqInfo Guard)
      → submits key (concurrent_request message guard written) ≡ false
      → OneResolution key s (send_concurrent message guard written s) sent
  unfolding send_concurrent OneResolution
  send_concurrent-resolution key message guard false s h = inl (refl, refl)
  send_concurrent-resolution key message guard true s h =
      let apart : key ≢ get_seq message.frame = λ p.
        let yes : (get_seq message.frame == key) ≡ true =
          (==_iff (get_seq message.frame) key).1 (sym p) in
        cc in
      inl (
        get-insert_other key (get_seq message.frame) (message.req_info, guard) s.concurrent_req_info
            apart,
        refl,
      )

  expire-resolution :
      (key seq : ℕ) (s : UartReqInfo MqttReqInfo Guard)
      (p : UartReqInfo MqttReqInfo Guard × ReqInfo MqttReqInfo)
      → expire seq s ≡ ok p
      → OneResolution key s (p.0) (timed_out seq (p.1))
  unfolding expire
  expire-resolution key seq s p k = elim (Option-cases (get seq s.concurrent_req_info)) [
    | inl e ↦ let opened : expire seq s ≡ panic = rw (e, expire) refl in absurd (cc)
    | inr (v, e) ↦
        let opened : expire seq s
            ≡ ok (record s { concurrent_req_info = remove seq s.concurrent_req_info }, v.0) =
          rw (e, expire) refl in
        let same : ◌≡◌ {A = UartReqInfo MqttReqInfo Guard × ReqInfo MqttReqInfo}
            (record s { concurrent_req_info = remove seq s.concurrent_req_info }, v.0) p =
          cc in
        subst (λ p. OneResolution key s (p.0) (timed_out seq (p.1))) same
          (removed key seq s v (timed_out seq (v.0)) e refl)
  ]

  pub react-resolution :
      (key : ℕ) (e : Event MqttReqInfo Guard) (s s' : UartReqInfo MqttReqInfo Guard)
      (o : Output MqttReqInfo)
      → submits key e ≡ false
      → react e s ≡ ok (s', o)
      → OneResolution key s s' o
  unfolding react
  react-resolution key (response f) s s' o h k =
      let (p, taken, q) = >>=-eq-ok (take_request f s) (λ p. ok (p.0, handled f (p.1))) k in
      let same : ◌≡◌ {A = UartReqInfo MqttReqInfo Guard × Output MqttReqInfo} (p.0, handled f (p.1))
          (s', o) =
        cc in
      subst (λ p. OneResolution key s (p.0) (p.1)) same (take_request-resolution key f s p taken)
  react-resolution key (concurrent_request message guard written) s s' o h k =
      let same : ◌≡◌ {A = UartReqInfo MqttReqInfo Guard × Output MqttReqInfo}
          (send_concurrent message guard written s, sent) (s', o) =
        cc in
      subst (λ p. OneResolution key s (p.0) (p.1)) same
        (send_concurrent-resolution key message guard written s h)
  react-resolution key (concurrent_timeout seq) s s' o h k =
      let (p, expired, q) = >>=-eq-ok (expire seq s) (λ p. ok (p.0, timed_out seq (p.1))) k in
      let same : ◌≡◌ {A = UartReqInfo MqttReqInfo Guard × Output MqttReqInfo}
          (p.0, timed_out seq (p.1)) (s', o) =
        cc in
      subst (λ p. OneResolution key s (p.0) (p.1)) same (expire-resolution key seq s p expired)
