-- ===== src/Uart/Agent/Exchange.antt =====
-- src/uart_agent.rs: the turns of the serial thread, from a request to its answer or timeout.
use plc_service_rust.Base.{
  ℕ, ◌+◌, ◌%◌, List, [], ◌∷◌, ◌++◌, ap₂, none, some, ok, ◌>>=◌, >>=-eq-ok, true, ◌≡◌, refl, sym,
  inl, inr, ◌⊎◌, subst, ap, ◌∙◌, if◌then◌else◌,
}
use plc_service_rust.Protocol.Frame.{Frame}
use plc_service_rust.Protocol.Frame.Kind.{get_seq}
use plc_service_rust.Uart.Request.{ReqInfo, UartMessage}
use plc_service_rust.Uart.Agent.{
  UartReqInfo, Event, Output, react, react_all, submit, waits, Turn, turn, waited, not_waited,
  counted,
}
use plc_service_rust.Uart.Agent.Waiting.{OneAnswer, answers, react-waiting}

module _ {MqttReqInfo Guard : Type 0} where
  -- The same over any number of events.
  AtMostOne :
      UartReqInfo MqttReqInfo Guard
      → UartReqInfo MqttReqInfo Guard
      → List (Output MqttReqInfo)
      → Type 0
  AtMostOne s s' os =
      ((s'.req_info ≡ s.req_info) × (answers os ≡ []))
      ⊎ ((r : ReqInfo MqttReqInfo) × (f : Frame) × (s.req_info ≡ some r)
          × (s'.req_info ≡ none)
          × (answers os ≡ (f, r) ∷ [])
          × (get_seq f ≡ r.seq_num))

  joined_answers :
      (s s1 s2 : UartReqInfo MqttReqInfo Guard) (o : Output MqttReqInfo)
      (os : List (Output MqttReqInfo))
      → OneAnswer s s1 o
      → AtMostOne s1 s2 os
      → AtMostOne s s2 (o ∷ os)
  unfolding OneAnswer AtMostOne
  joined_answers s s1 s2 o os (inl (k, a)) (inl (l, b)) = inl (l ∙ k, ap₂ (λ x y. x ++ y) a b)
  joined_answers s s1 s2 o os (inl (k, a)) (inr (r, f, w, l, b, m)) =
      inr (r, f, sym k ∙ w, l, ap₂ (λ x y. x ++ y) a b, m)
  joined_answers s s1 s2 o os (inr (r, f, w, k, a, m)) (inl (l, b)) =
      inr (r, f, w, l ∙ k, ap₂ (λ x y. x ++ y) a b, m)
  joined_answers s s1 s2 o os (inr (r, f, w, k, a, m)) (inr (r', f', w', l, b, m')) = absurd (cc)

  react_all-waiting :
      (events : List (Event MqttReqInfo Guard)) (s s' : UartReqInfo MqttReqInfo Guard)
      (os : List (Output MqttReqInfo))
      → react_all events s ≡ ok (s', os)
      → AtMostOne s s' os
  unfolding react_all
  react_all-waiting [] s s' os k =
      let same : ◌≡◌ {A = UartReqInfo MqttReqInfo Guard × List (Output MqttReqInfo)} (s, [])
          (s', os) =
        cc in
      subst (λ p. AtMostOne s (p.0) (p.1)) same (unfold AtMostOne in inl (refl, refl))
  react_all-waiting (e ∷ events) s s' os k =
      let (p, first, k') =
        >>=-eq-ok (react e s) (λ p. react_all events (p.0) >>= λ q. ok (q.0, p.1 ∷ q.1)) k in
      let (q, later, k'') = >>=-eq-ok (react_all events (p.0)) (λ q. ok (q.0, p.1 ∷ q.1)) k' in
      let same : ◌≡◌ {A = UartReqInfo MqttReqInfo Guard × List (Output MqttReqInfo)}
          (q.0, p.1 ∷ q.1) (s', os) =
        cc in
      subst (λ p. AtMostOne s (p.0) (p.1)) same
        (joined_answers s (p.0) (q.0) (p.1) (q.1) (react-waiting e s (p.0) (p.1) first)
          (react_all-waiting events (p.0) (q.0) (q.1) later))

  abbrev Resolved : UartMessage MqttReqInfo → ℕ → Turn MqttReqInfo Guard → Type 0
  Resolved message counter t =
      (t.shared.req_info ≡ none)
      × (((t.timeout ≡ some message.req_info)
            × (answers t.outputs ≡ [])
            × (t.counter ≡ (counter + 1) % 256))
          ⊎ ((f : Frame) × (t.timeout ≡ none)
              × (answers t.outputs ≡ (f, message.req_info) ∷ [])
              × (get_seq f ≡ message.req_info.seq_num)
              × (t.counter ≡ 0)))

  waited-resolves :
      (message : UartMessage MqttReqInfo) (counter : ℕ) (s s' : UartReqInfo MqttReqInfo Guard)
      (os : List (Output MqttReqInfo))
      → s.req_info ≡ some message.req_info
      → AtMostOne s s' os
      → Resolved message counter (waited counter (s', os))
  unfolding AtMostOne
  waited-resolves message counter s s' os h (inl (k, a)) =
      (refl, inl (k ∙ h, a, ap (λ r. counted r counter) (k ∙ h)))
  waited-resolves message counter s s' os h (inr (r, f, w, k, a, m)) =
      let same : r ≡ message.req_info = cc in
      (refl, inr (f, k, rw⁻¹ same a, m ∙ ap (λ r. r.seq_num) same, ap (λ r. counted r counter) k))

  -- A request that the serial thread waits on is resolved exactly once, whatever the other threads
  -- do meanwhile: if none of them panics, then either exactly one response was handled as its
  -- answer, that response carries its sequence number, no timeout is reported and the counter of
  -- timeouts is 0 again, or no response was, its timeout is reported and the counter goes up by one
  -- modulo 256. In both cases no request is left waiting.
  pub turn_resolves :
      (message : UartMessage MqttReqInfo) (events : List (Event MqttReqInfo Guard))
      (s : UartReqInfo MqttReqInfo Guard) (counter : ℕ) (t : Turn MqttReqInfo Guard)
      → waits message ≡ true
      → turn message events s counter ≡ ok t
      → (t.shared.req_info ≡ none)
        × (((t.timeout ≡ some message.req_info)
              × (answers t.outputs ≡ [])
              × (t.counter ≡ (counter + 1) % 256))
            ⊎ ((f : Frame) × (t.timeout ≡ none)
                × (answers t.outputs ≡ (f, message.req_info) ∷ [])
                × (get_seq f ≡ message.req_info.seq_num)
                × (t.counter ≡ 0)))
  unfolding turn
  turn_resolves message events s counter t w k =
      let (p, reacted, q) =
        >>=-eq-ok (react_all events (submit message s))
          (λ p. ok (if waits message then waited counter p else not_waited counter p)) k in
      let ended : (if waits message then waited counter p else not_waited counter p)
          ≡ waited counter p =
        ap (λ b. if b then waited counter p else not_waited counter p) w in
      let ends : (if waits message then waited counter p else not_waited counter p) ≡ t = cc in
      let same : waited counter p ≡ t = sym ended ∙ ends in
      subst (λ t. Resolved message counter t) same
        (waited-resolves message counter (submit message s) (p.0) (p.1) refl
          (react_all-waiting events (submit message s) (p.0) (p.1) reacted))
