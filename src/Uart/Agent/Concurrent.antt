-- ===== src/Uart/Agent/Concurrent.antt =====
-- src/uart_agent.rs: the concurrent requests, from their entry to their answer or timeout.
use plc_service_rust.Base.{
  ℕ, ==_refl, List, [], ◌∷◌, ◌++◌, ap₂, none, some, ok, panic, ◌>>=◌, >>=-eq-ok, true, false, ◌≡◌,
  refl, sym, inl, inr, ◌⊎◌, subst, ap, ◌∙◌, if◌then◌else◌, All,
}
use plc_service_rust.Protocol.Frame.{Frame}
use plc_service_rust.Protocol.Frame.Kind.{get_seq}
use plc_service_rust.Uart.Request.{ReqInfo, UartMessage}
use plc_service_rust.Uart.Agent.{
  UartReqInfo, concurrent, Event, concurrent_request, Output, handled, sent, take_request,
  send_concurrent, expire, react, react_all, get, insert,
}
use plc_service_rust.Uart.Agent.Maps.{get-insert}
use plc_service_rust.Uart.Agent.Entry.{
  OneResolution, resolved, submits, react-resolution, take_request-resolution,
}

module _ {MqttReqInfo Guard : Type 0} where
  Resolution :
      ℕ
      → UartReqInfo MqttReqInfo Guard
      → UartReqInfo MqttReqInfo Guard
      → List (Output MqttReqInfo)
      → Type 0
  Resolution key s s' os =
      ((get key s'.concurrent_req_info ≡ get key s.concurrent_req_info) × (resolved key os ≡ []))
      ⊎ ((v : ReqInfo MqttReqInfo × Guard) × (get key s.concurrent_req_info ≡ some v)
          × (get key s'.concurrent_req_info ≡ none)
          × (resolved key os ≡ v.0 ∷ []))

  joined_resolutions :
      (key : ℕ) (s s1 s2 : UartReqInfo MqttReqInfo Guard) (o : Output MqttReqInfo)
      (os : List (Output MqttReqInfo))
      → OneResolution key s s1 o
      → Resolution key s1 s2 os
      → Resolution key s s2 (o ∷ os)
  unfolding OneResolution Resolution
  joined_resolutions key s s1 s2 o os (inl (k, a)) (inl (l, b)) =
      inl (l ∙ k, ap₂ (λ x y. x ++ y) a b)
  joined_resolutions key s s1 s2 o os (inl (k, a)) (inr (v, w, l, b)) =
      inr (v, sym k ∙ w, l, ap₂ (λ x y. x ++ y) a b)
  joined_resolutions key s s1 s2 o os (inr (v, w, k, a)) (inl (l, b)) =
      inr (v, w, l ∙ k, ap₂ (λ x y. x ++ y) a b)
  joined_resolutions key s s1 s2 o os (inr (v, w, k, a)) (inr (v', w', l, b)) = absurd (cc)

  react_all-Resolution :
      (key : ℕ) (events : List (Event MqttReqInfo Guard)) (s s' : UartReqInfo MqttReqInfo Guard)
      (os : List (Output MqttReqInfo))
      → All (λ e. submits key e ≡ false) events
      → react_all events s ≡ ok (s', os)
      → Resolution key s s' os
  unfolding react_all
  react_all-Resolution key [] s s' os h k =
      let same : ◌≡◌ {A = UartReqInfo MqttReqInfo Guard × List (Output MqttReqInfo)} (s, [])
          (s', os) =
        cc in
      subst (λ p. Resolution key s (p.0) (p.1)) same (unfold Resolution in inl (refl, refl))
  react_all-Resolution key (e ∷ events) s s' os (first_quiet, quiet) k =
      let (p, first, k') =
        >>=-eq-ok (react e s) (λ p. react_all events (p.0) >>= λ q. ok (q.0, p.1 ∷ q.1)) k in
      let (q, later, k'') = >>=-eq-ok (react_all events (p.0)) (λ q. ok (q.0, p.1 ∷ q.1)) k' in
      let same : ◌≡◌ {A = UartReqInfo MqttReqInfo Guard × List (Output MqttReqInfo)}
          (q.0, p.1 ∷ q.1) (s', os) =
        cc in
      subst (λ p. Resolution key s (p.0) (p.1)) same
        (joined_resolutions key s (p.0) (q.0) (p.1) (q.1)
          (react-resolution key e s (p.0) (p.1) first_quiet first)
          (react_all-Resolution key events (p.0) (q.0) (q.1) quiet later))

  abbrev Settled :
      ℕ
      → ReqInfo MqttReqInfo × Guard
      → UartReqInfo MqttReqInfo Guard
      → List (Output MqttReqInfo)
      → Type 0
  Settled key v s os =
      ((get key s.concurrent_req_info ≡ some v) × (resolved key os ≡ []))
      ⊎ ((get key s.concurrent_req_info ≡ none) × (resolved key os ≡ v.0 ∷ []))

  settles :
      (key : ℕ) (v : ReqInfo MqttReqInfo × Guard) (s s' : UartReqInfo MqttReqInfo Guard)
      (os : List (Output MqttReqInfo))
      → get key s.concurrent_req_info ≡ some v
      → Resolution key s s' os
      → Settled key v s' os
  unfolding Resolution
  settles key v s s' os h (inl (k, a)) = inl (k ∙ h, a)
  settles key v s s' os h (inr (w, g, l, a)) =
      let same : w ≡ v = cc in inr (l, a ∙ ap (λ w. w.0 ∷ []) same)

  -- A concurrent request that was written is resolved at most once while its sequence number is not
  -- used again: over any events that run without a panic, either it is still in the map with its
  -- guard and no output resolves that number, or it has left the map and exactly one output, its
  -- response or its timeout, hands on this request.
  pub concurrent_resolves :
      (message : UartMessage MqttReqInfo) (guard : Guard) (events : List (Event MqttReqInfo Guard))
      (s s' : UartReqInfo MqttReqInfo Guard) (os : List (Output MqttReqInfo))
      → All (λ e. submits (get_seq message.frame) e ≡ false) events
      → react_all (concurrent_request message guard true ∷ events) s ≡ ok (s', os)
      → ((get (get_seq message.frame) s'.concurrent_req_info ≡ some (message.req_info, guard))
          × (resolved (get_seq message.frame) os ≡ []))
        ⊎ ((get (get_seq message.frame) s'.concurrent_req_info ≡ none)
            × (resolved (get_seq message.frame) os ≡ message.req_info ∷ []))
  unfolding react_all react send_concurrent
  concurrent_resolves message guard events s s' os quiet k =
      let key : ℕ = get_seq message.frame in
      let s1 : UartReqInfo MqttReqInfo Guard = record s {
        concurrent_req_info = insert key (message.req_info, guard) s.concurrent_req_info;
      } in
      let (q, later, k') = >>=-eq-ok (react_all events s1) (λ q. ok (q.0, sent ∷ q.1)) k in
      let same : ◌≡◌ {A = UartReqInfo MqttReqInfo Guard × List (Output MqttReqInfo)}
          (q.0, sent ∷ q.1) (s', os) =
        cc in
      subst (λ p. Settled key (message.req_info, guard) (p.0) (p.1)) same
        (settles key (message.req_info, guard) s1 (q.0) (q.1)
          (get-insert key (message.req_info, guard) s.concurrent_req_info)
          (react_all-Resolution key events s1 (q.0) (q.1) quiet later))

  gone :
      (f : Frame) (s s' : UartReqInfo MqttReqInfo Guard) (r : ReqInfo MqttReqInfo)
      → OneResolution (get_seq f) s s' (handled f (concurrent r))
      → get (get_seq f) s'.concurrent_req_info ≡ none
  unfolding OneResolution
  gone f s s' r (inl (k, a)) =
      let one : r ∷ [] ≡ [] = sym (ap (λ b. if b then r ∷ [] else []) (==_refl (get_seq f))) ∙ a in
      absurd (cc)
  gone f s s' r (inr (v, w, n, a)) = n

  -- A timer callback that gets the lock after the response with its sequence number was taken
  -- panics, with the lock held: its `remove(&seq).unwrap()` finds nothing.
  pub take_request-expire :
      (f : Frame) (s s' : UartReqInfo MqttReqInfo Guard) (r : ReqInfo MqttReqInfo)
      → take_request f s ≡ ok (s', concurrent r)
      → expire (get_seq f) s' ≡ panic
  unfolding expire
  take_request-expire f s s' r k =
      let none_left : get (get_seq f) s'.concurrent_req_info ≡ none =
        gone f s s' r (take_request-resolution (get_seq f) f s (s', concurrent r) k) in
      rw (none_left, expire) refl
