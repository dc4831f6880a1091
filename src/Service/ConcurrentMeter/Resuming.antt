-- ===== src/Service/ConcurrentMeter/Resuming.antt =====
-- src/service/concurrent_meter.rs: the requests that waited while the line was used otherwise, and
-- the entries that are too old.
use plc_service_rust.Base.{
  ℕ, ◌+◌, ◌≤◌, ltb, String, if◌then◌else◌, List, [], ◌∷◌, Option, some, Option-cases, Bool-cases,
  inl, inr, Bool, true, false, ◌||◌, or_false, All, length, ◌≡◌, refl, ◌∙◌, subst, arith,
}
use plc_service_rust.Service.Dict.Entries.{occurrences}
use plc_service_rust.Service.ConcurrentMeter.{
  SampleCache, ConcurrentMeter, Setting, mqtt_meter_reading_handler, is_busy, retain, resume,
  resume_of, resume_all, handle_cache_request, age,
}
use plc_service_rust.Service.ConcurrentMeter.Counting.{sent_to, waits, waiting, IsFor}
use plc_service_rust.Service.ConcurrentMeter.Sound.{IsEntry, IsSound, Balance, sent_message}
use plc_service_rust.Service.ConcurrentMeter.Requests.{idle-waits}

module _ {Message : Type 0} (g : Setting Message) where
  -- What the resumption of one entry leaves.
  abbrev Resumed :
      String
      → SampleCache Message
      → ConcurrentMeter Message
      → SampleCache Message
      → ConcurrentMeter Message
      → Type 0
  Resumed addr c s c' s' =
      IsEntry g (addr, c')
      × ((a : String) → sent_to a s'.sent + waits a addr c ≡ sent_to a s.sent + waits a addr c')

  resume-Resumed :
      (addr : String) (c c' : SampleCache Message) (s s' : ConcurrentMeter Message)
      → IsEntry g (addr, c)
      → resume g c s ≡ some (c', s')
      → Resumed addr c s c' s'
  unfolding resume
  resume-Resumed addr c c' s s' (keyed, short) h = elim (Bool-cases c.is_waiting_response) [
    | inl busy ↦ stay (subst branch busy h)
    | inr free ↦ by_queue free c.msg_cache_queue keyed short (subst branch free h)
  ]
    where
      branch : Bool → Type 0
      branch b = (if b then some (c, s) else resume_of g c c.msg_cache_queue s) ≡ some (c', s')

      stay :
          ◌≡◌ {A = Option (SampleCache Message × ConcurrentMeter Message)}
            (some (c, s))
            (some (c', s'))
          → Resumed addr c s c' s'
      stay e =
          let same_ : ◌≡◌ {A = SampleCache Message × ConcurrentMeter Message} (c, s) (c', s') =
            cc in
          subst (λ p. Resumed addr c s (p.0) (p.1)) same_ ((keyed, short), λ a. refl)

      by_queue :
          c.is_waiting_response ≡ false
          → (queue : List Message) → All (IsFor g addr) queue
          → length queue ≤ g.config.cache_queue_size
          → resume_of g c queue s ≡ some (c', s')
          → Resumed addr c s c' s'
      by_queue free [] f few e = stay e
      by_queue free (message ∷ rest) (f, fs) few e =
          elim (Option-cases (mqtt_meter_reading_handler g message s)) [
            | inl none_ ↦ absurd (cc (rw (none_, resume_of) at e))
            | inr (s1, sent) ↦
                let busy : SampleCache Message = record c {
                  is_waiting_response = true;
                  msg_cache_queue = rest;
                } in
                let same_ : ◌≡◌ {A = SampleCache Message × ConcurrentMeter Message} (busy, s1)
                    (c', s') =
                  cc (rw (sent, resume_of) at e) in
                let count = (sent_message g addr message s s1 f sent).1 in
                subst (λ p. Resumed addr c s (p.0) (p.1)) same_
                  ((fs, omega arith), λ a. omega (arith, count a, idle-waits g addr a c free))
          ]

  -- The same of all entries.
  abbrev AllResumed :
      List (String × SampleCache Message)
      → ConcurrentMeter Message
      → List (String × SampleCache Message)
      → ConcurrentMeter Message
      → Type 0
  AllResumed entries s entries' s' =
      All (IsEntry g) entries'
      × ((a : String)
          → sent_to a s'.sent + waiting a entries ≡ sent_to a s.sent + waiting a entries')
      × ((a : String) → occurrences a entries' ≡ occurrences a entries)

  resume_all-AllResumed :
      (entries out : List (String × SampleCache Message)) (s s' : ConcurrentMeter Message)
      → All (IsEntry g) entries
      → resume_all g entries s ≡ some (out, s')
      → AllResumed entries s out s'
  unfolding resume_all waiting occurrences
  resume_all-AllResumed [] out s s' v h =
      let same_ : ◌≡◌ {A = List (String × SampleCache Message) × ConcurrentMeter Message} ([], s)
          (out, s') =
        cc in
      subst (λ p. AllResumed [] s (p.0) (p.1)) same_ (tt, (λ a. refl), (λ a. refl))
  resume_all-AllResumed ((addr, c) ∷ entries) out s s' (v, vs) h =
      let later = λ (es : List (String × SampleCache Message)) (s1 s2 : ConcurrentMeter Message).
        resume_all-AllResumed entries es s1 s2 vs in
      elim (Option-cases (resume g c s)) [
        | inl none_ ↦ absurd (cc (rw (none_, resume_all) at h))
        | inr ((c1, s1), first) ↦ elim (Option-cases (resume_all g entries s1)) [
          | inl none_ ↦ absurd (cc (rw (first, none_, resume_all) at h))
          | inr ((es, s2), rest) ↦
              let same_ : ◌≡◌ {A = List (String × SampleCache Message) × ConcurrentMeter Message}
                  ((addr, c1) ∷ es, s2) (out, s') =
                cc (rw (first, rest, resume_all) at h) in
              let (entry, one) = resume-Resumed addr c c1 s s1 v first in
              let (all, balance, single) = later es s1 s2 rest in
              subst (λ p. AllResumed ((addr, c) ∷ entries) s (p.0) (p.1)) same_
                (
                  (entry, all),
                  (λ a. omega (arith, one a, balance a)),
                  (λ a. omega (arith, single a)),
                )
        ]
      ]

  -- Entries that wait, or have a queue, stay.
  retain-waiting :
      (aging now : ℕ) (entries : List (String × SampleCache Message)) (a : String)
      → waiting a (retain aging now entries) ≡ waiting a entries
  unfolding retain waiting
  retain-waiting aging now [] a = refl
  retain-waiting aging now ((addr, c) ∷ entries) a =
      let rest : waiting a (retain aging now entries) ≡ waiting a entries =
        retain-waiting aging now entries a in
      elim (Bool-cases (is_busy c || ltb now (c.last_operation_time + aging))) [
        | inl e ↦ rw (e, rest)
        | inr e ↦
            let idle : c.is_waiting_response ≡ false = or_false _ _ (or_false _ _ e) in
            rw e (rest ∙ omega (arith, idle-waits g addr a c idle))
      ]

  retain-All :
      (aging now : ℕ) (entries : List (String × SampleCache Message))
      → All (IsEntry g) entries
      → All (IsEntry g) (retain aging now entries)
  unfolding retain
  retain-All aging now [] h = tt
  retain-All aging now ((addr, c) ∷ entries) (q, h) =
      let rest : All (IsEntry g) (retain aging now entries) = retain-All aging now entries h in
      elim (Bool-cases (is_busy c || ltb now (c.last_operation_time + aging))) [
        | inl e ↦ rw e (q, rest)
        | inr e ↦ rw e rest
      ]

  retain-occurrences :
      (aging now : ℕ) (entries : List (String × SampleCache Message)) (a : String)
      → occurrences a (retain aging now entries) ≤ occurrences a entries
  unfolding retain occurrences
  retain-occurrences aging now [] a = omega arith
  retain-occurrences aging now ((addr, c) ∷ entries) a =
      let rest : occurrences a (retain aging now entries) ≤ occurrences a entries =
        retain-occurrences aging now entries a in
      elim (Bool-cases (is_busy c || ltb now (c.last_operation_time + aging))) [
        | inl e ↦ rw e (omega arith)
        | inr e ↦ rw e (omega arith)
      ]

  pub handle_cache_request-IsSound :
      (s s' : ConcurrentMeter Message)
      → IsSound g s
      → handle_cache_request g s ≡ some s'
      → IsSound g s' × ((a : String) → Balance g a 0 s s')
  unfolding handle_cache_request
  handle_cache_request-IsSound s s' v h = elim (Option-cases (resume_all g s.sample_cache s)) [
    | inl none_ ↦ absurd (cc (rw (none_, handle_cache_request) at h))
    | inr ((es, s1), e) ↦
        let (all, balance, single) = resume_all-AllResumed s.sample_cache es s s1 v.entries e in
        let after : record s1 { sample_cache = es } ≡ s' = cc (rw (e, handle_cache_request) at h) in
        subst (λ z. IsSound g z × ((a : String) → Balance g a 0 s z)) after
          (
            record { entries = all; single = λ a. omega (arith, single a, v.single a) },
            λ a. omega (arith, balance a),
          )
  ]

  pub age-IsSound :
      (now : ℕ) (s : ConcurrentMeter Message)
      → IsSound g s
      → IsSound g (age g now s) × ((a : String) → Balance g a 0 s (age g now s))
  unfolding age
  age-IsSound now s v =
      let aging : ℕ = g.config.queue_aging_time in
      (
        record {
          entries = retain-All aging now s.sample_cache v.entries;
          single = λ a. omega (arith, retain-occurrences aging now s.sample_cache a, v.single a);
        },
        λ a. omega (arith, retain-waiting aging now s.sample_cache a),
      )
