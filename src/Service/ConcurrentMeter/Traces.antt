-- ===== src/Service/ConcurrentMeter/Traces.antt =====
-- What holds in each sequence of steps of src/service/concurrent_meter.rs.
use plc_service_rust.Base.{
  ℕ, ◌+◌, ◌≤◌, String, if◌then◌else◌, List, [], ◌∷◌, some, Outcome, Outcome-cases, Option-cases,
  Bool-cases, inl, inr, ok, err, panic, All, length, ◌≡◌, ◌≢◌, refl, ap, ◌∙◌, subst, arith,
}
use plc_service_rust.Protocol.Frame.{Frame}
use plc_service_rust.Message.MeterReading.{read_meter_of_app}
use plc_service_rust.Service.Dict.{same}
use plc_service_rust.Service.Dict.Entries.{occurrences}
use plc_service_rust.Service.Response.{response_of_frame}
use plc_service_rust.Service.ConcurrentMeter.{
  SampleCache, ConcurrentMeter, ConcurrentMeterError, Setting, handle_meter_reading,
  handle_next_request, uart_meter_reading, uart_meter_reading_timeout, age,
}
use plc_service_rust.Service.ConcurrentMeter.Counting.{sent_to, waits, waiting}
use plc_service_rust.Service.ConcurrentMeter.Sound.{IsEntry, IsSound, Balance}
use plc_service_rust.Service.ConcurrentMeter.Requests.{next-IsSound, handle_meter_reading-IsSound}
use plc_service_rust.Service.ConcurrentMeter.Resuming.{handle_cache_request-IsSound, age-IsSound}
use plc_service_rust.Service.ConcurrentMeter.Steps.{
  Step, request, response, reading_timeout, cache_request, tick, metering_set, settled,
  mqtt_concurrent_meter_reading, step, steps, ended, ended_all, IsWaiting, IsDue, AreDue, initial,
}

module _ {Message : Type 0} (g : Setting Message) where
  -- What a step leaves.
  abbrev pub Leaves : (String → ℕ) → ConcurrentMeter Message → ConcurrentMeter Message → Type 0
  Leaves fin s s' = IsSound g s' × ((a : String) → Balance g a (fin a) s s')

  settled-eq :
      (r : ConcurrentMeter Message × Outcome ConcurrentMeterError (Unit {0}))
      (s' : ConcurrentMeter Message)
      → settled g r ≡ some s'
      → (r ≡ (s', r.1)) × (r.1 ≢ panic)
  settled-eq (s, ok a) s' h = let e : s ≡ s' = cc in (ap (λ z. (z, ok a)) e, λ f. cc)
  settled-eq (s, err e) s' h = let q : s ≡ s' = cc in (ap (λ z. (z, err e)) q, λ f. cc)
  settled-eq (s, panic) s' h = cc

  next-Leaves :
      (addr : String) (s s' : ConcurrentMeter Message)
      → IsSound g s
      → IsWaiting g addr s
      → handle_next_request g addr s ≡ some s'
      → Leaves (λ a. if same addr a then 1 else 0) s s'
  next-Leaves addr s s' v (c, has, busy) h =
      let (sound, balance) = next-IsSound g addr c s s' v has h in
      (
        sound,
        λ a.
            let whole : waits a addr c ≡ (if same addr a then 1 else 0) =
              ap (λ b. if same addr a then (if b then 1 else 0) else 0) busy in
            balance a ∙ ap (λ n. sent_to a s.sent + waiting a s'.sample_cache + n) whole,
      )

  request-Leaves :
      (message : Message) (now : ℕ) (s s' : ConcurrentMeter Message)
      → IsSound g s
      → mqtt_concurrent_meter_reading g message now s ≡ some s'
      → Leaves (λ a. 0) s s'
  unfolding mqtt_concurrent_meter_reading
  request-Leaves message now s s' v h = elim (Option-cases (g.payload message)) [
    | inl none_ ↦
        let same_ : s ≡ s' = cc (rw (none_, mqtt_concurrent_meter_reading) at h) in
        subst (λ z. Leaves (λ a. 0) s z) same_ (v, λ a. omega arith)
    | inr (p, parsed) ↦
        let r = handle_meter_reading g p.acq_addr message now s in
        let (whole, calm) = settled-eq r s' (rw (parsed, mqtt_concurrent_meter_reading) at h) in
        handle_meter_reading-IsSound g p.acq_addr message now s s' (r.1) v (p, parsed, refl) whole
          calm
  ]

  response-Leaves :
      (addr : String) (f : Frame) (s s' : ConcurrentMeter Message)
      → IsSound g s
      → IsWaiting g addr s
      → uart_meter_reading g addr f s ≡ some s'
      → Leaves (λ a. ended g a (response addr f)) s s'
  unfolding ended uart_meter_reading
  response-Leaves addr f s s' v d h = elim (Outcome-cases (response_of_frame read_meter_of_app f)) [
    | inl (r, e) ↦
        let next : handle_next_request g addr s ≡ some s' = rw (e, uart_meter_reading) at h in
        rw e (next-Leaves addr s s' v d next)
    | inr (inl (failure, e)) ↦
        let same_ : s ≡ s' = cc (rw (e, uart_meter_reading) at h) in
        rw e (subst (λ z. Leaves (λ a. 0) s z) same_ (v, λ a. omega arith))
    | inr (inr e) ↦ absurd (cc (rw (e, uart_meter_reading) at h))
  ]

  step-Leaves :
      (e : Step Message) (s s' : ConcurrentMeter Message)
      → IsSound g s
      → IsDue g e s
      → step g e s ≡ some s'
      → Leaves (λ a. ended g a e) s s'
  unfolding step uart_meter_reading_timeout ended
  step-Leaves (request message now) s s' v d h = request-Leaves message now s s' v h
  step-Leaves (response addr f) s s' v d h = response-Leaves addr f s s' v d h
  step-Leaves (reading_timeout addr) s s' v d h = next-Leaves addr s s' v d h
  step-Leaves cache_request s s' v d h = handle_cache_request-IsSound g s s' v h
  step-Leaves (tick now) s s' v d h =
      let after : age g now s ≡ s' = cc in
      subst (λ z. Leaves (λ a. 0) s z) after (age-IsSound g now s v)
  step-Leaves (metering_set b) s s' v d h =
      let after : record s { metering = b } ≡ s' = cc in
      subst (λ z. Leaves (λ a. 0) s z) after
        (record { entries = v.entries; single = v.single }, λ a. omega arith)

  pub steps-Leaves :
      (es : List (Step Message)) (s s' : ConcurrentMeter Message)
      → IsSound g s
      → AreDue g es s
      → steps g es s ≡ some s'
      → Leaves (λ a. ended_all g a es) s s'
  unfolding steps ended_all
  steps-Leaves [] s s' v d h =
      let same_ : s ≡ s' = cc in subst (λ z. Leaves (λ a. 0) s z) same_ (v, λ a. omega arith)
  steps-Leaves (e ∷ es) s s' v (d, ds) h = elim (Option-cases (step g e s)) [
    | inl none_ ↦ absurd (cc (rw (none_, steps) at h))
    | inr (s1, first) ↦
        let (sound, one) = step-Leaves e s s1 v d first in
        let rest : steps g es s1 ≡ some s' = rw (first, steps) at h in
        let (sound', balance) = steps-Leaves es s1 s' sound (ds s1 first) rest in
        (sound', λ a. omega (arith, one a, balance a))
  ]

  pub waiting-le-occurrences :
      (a : String) (entries : List (String × SampleCache Message))
      → waiting a entries ≤ occurrences a entries
  unfolding waiting occurrences
  waiting-le-occurrences a [] = omega arith
  waiting-le-occurrences a ((addr, c) ∷ entries) =
      let rest : waiting a entries ≤ occurrences a entries = waiting-le-occurrences a entries in
      elim (Bool-cases (same addr a)) [
        | inl e ↦ elim (Bool-cases c.is_waiting_response) [
          | inl b ↦ rw (e, b) (omega arith)
          | inr b ↦ rw (e, b) (omega arith)
        ]
        | inr e ↦ rw e (omega arith)
      ]

  pub initial-IsSound : (seq : ℕ) → IsSound g (initial g seq)
  unfolding occurrences
  initial-IsSound seq = record { entries = tt; single = λ a. omega arith }

  -- Whatever the clients, the module, the timers and the monitoring services do, in any order: each
  -- address has one reading under way at most (as many were sent for it as have ended, or one more),
  -- and no queue is longer than configured. A response or timeout is due while its address waits.
  pub one_at_a_time :
      (seq : ℕ) (es : List (Step Message)) (s' : ConcurrentMeter Message)
      → AreDue g es (initial g seq)
      → steps g es (initial g seq) ≡ some s'
      → ((a : String)
          → (ended_all g a es ≤ sent_to a s'.sent) × (sent_to a s'.sent ≤ ended_all g a es + 1))
        × All (λ e. length e.1.msg_cache_queue ≤ g.config.cache_queue_size) s'.sample_cache
  unfolding sent_to waiting occurrences
  one_at_a_time seq es s' d h =
      let (sound, balance) = steps-Leaves es (initial g seq) s' (initial-IsSound seq) d h in
      (
        (λ a. (
          omega (arith, balance a),
          omega (arith, balance a, waiting-le-occurrences a s'.sample_cache, sound.single a),
        )),
        short s'.sample_cache sound.entries,
      )
    where
      short :
          (entries : List (String × SampleCache Message))
          → All (IsEntry g) entries
          → All (λ e. length e.1.msg_cache_queue ≤ g.config.cache_queue_size) entries
      short [] h = tt
      short (e ∷ entries) ((keyed, few), h) = (few, short entries h)
