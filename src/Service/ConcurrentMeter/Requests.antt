-- ===== src/Service/ConcurrentMeter/Requests.antt =====
-- src/service/concurrent_meter.rs: the requests of the clients and the ends of readings.
use plc_service_rust.Base.{
  ℕ, ◌≤◌, leb, String, List, [], ◌∷◌, ◌++◌, some, Outcome, Option-cases, Bool-cases, inl, inr,
  panic, true, false, ◌||◌, or_false, All, All-snoc, length, length-append, ◌≡◌, ◌≢◌, refl, sym, ap,
  ◌∙◌, subst, arith,
}
use plc_service_rust.Service.Dict.{same, get, update}
use plc_service_rust.Service.Dict.Entries.{occurrences, occurrences-update, update-All, get-All}
use plc_service_rust.Service.ConcurrentMeter.{
  SampleCache, ConcurrentMeter, ConcurrentMeterError, Setting, mqtt_meter_reading_handler,
  new_cache, set_cache, start, next_of, handle_next_request, handle_waiting_cache, read_or_queue,
  handle_meter_reading, concurrent_addr_num,
}
use plc_service_rust.Service.ConcurrentMeter.Counting.{
  waits, waiting, waiting-update, waiting-update_new, get-update, IsFor,
}
use plc_service_rust.Service.ConcurrentMeter.Sound.{IsEntry, IsSound, Balance, sent_message}

module _ {Message : Type 0} (g : Setting Message) where
  set-IsSound :
      (addr : String) (c : SampleCache Message) (s : ConcurrentMeter Message)
      → IsSound g s
      → IsEntry g (addr, c)
      → IsSound g (set_cache addr c s)
  set-IsSound addr c s v e = record {
    entries = update-All (IsEntry g) addr c s.sample_cache v.entries e;
    single = λ a. occurrences-update a addr c s.sample_cache v.single;
  }

  -- A message is sent for an address; what waited for the address before is ended.
  pub start-IsSound :
      (addr : String) (message : Message) (c c0 : SampleCache Message)
      (s s' : ConcurrentMeter Message)
      → IsSound g s
      → get addr s.sample_cache ≡ some c0
      → IsFor g addr message
      → IsEntry g (addr, c)
      → start g addr message c s ≡ some s'
      → IsSound g s' × ((a : String) → Balance g a (waits a addr c0) s s')
  unfolding start
  start-IsSound addr message c c0 s s' v has for_ entry h =
      elim (Option-cases (mqtt_meter_reading_handler g message s)) [
        | inl none_ ↦ absurd (cc (rw (none_, start) at h))
        | inr (s1, e) ↦
            let (kept, count) = sent_message g addr message s s1 for_ e in
            let busy : SampleCache Message = record c { is_waiting_response = true } in
            let after : set_cache addr busy s1 ≡ s' = cc (rw (e, start) at h) in
            let sound : IsSound g s1 = record {
              entries = subst (λ m. All (IsEntry g) m) (sym kept) v.entries;
              single = λ a. subst (λ m. occurrences a m ≤ 1) (sym kept) (v.single a);
            } in
            (
              subst (λ z. IsSound g z) after (set-IsSound addr busy s1 sound entry),
              λ a.
                  subst (λ z. Balance g a (waits a addr c0) s z) after
                    (omega (
                      arith,
                      count a,
                      waiting-update a addr c0 busy s.sample_cache has,
                      ap (λ m. waiting a (update addr busy (λ _. busy) m)) kept,
                    )),
            )
      ]

  pub idle-waits :
      (addr a : String) (c : SampleCache Message)
      → c.is_waiting_response ≡ false
      → waits a addr c ≡ 0
  idle-waits addr a c e = elim (Bool-cases (same addr a)) [ inl f ↦ rw (f, e) | inr f ↦ rw f ]

  -- The next request of an address, when its reading has ended.
  pub next-IsSound :
      (addr : String) (c0 : SampleCache Message) (s s' : ConcurrentMeter Message)
      → IsSound g s
      → get addr s.sample_cache ≡ some c0
      → handle_next_request g addr s ≡ some s'
      → IsSound g s' × ((a : String) → Balance g a (waits a addr c0) s s')
  unfolding handle_next_request
  next-IsSound addr c0 s s' v has h =
      let entry : IsEntry g (addr, c0) = get-All (IsEntry g) addr s.sample_cache v.entries has in
      by_queue c0.msg_cache_queue (entry.0) (entry.1) entry (
        let found : handle_next_request g addr s ≡ next_of g addr c0 c0.msg_cache_queue s =
          rw (has, handle_next_request) in
        sym found ∙ h)
    where
      by_queue :
          (queue : List Message)
          → All (IsFor g addr) queue
          → length queue ≤ g.config.cache_queue_size
          → IsEntry g (addr, c0)
          → next_of g addr c0 queue s ≡ some s'
          → IsSound g s' × ((a : String) → Balance g a (waits a addr c0) s s')
      by_queue [] f short entry e =
          let idle : SampleCache Message = record c0 { is_waiting_response = false } in
          let after : set_cache addr idle s ≡ s' = cc in
          (
            subst (λ z. IsSound g z) after (set-IsSound addr idle s v entry),
            λ a.
                subst (λ z. Balance g a (waits a addr c0) s z) after
                  (omega (
                    arith,
                    waiting-update a addr c0 idle s.sample_cache has,
                    idle-waits addr a idle refl,
                  )),
          )
      by_queue (message ∷ rest) (f, fs) short entry e =
          start-IsSound addr message (record c0 { msg_cache_queue = rest }) c0 s s' v has f
            (fs, omega arith) e

  -- A request of a client that finds an entry: it is sent, queued or refused.
  read_or_queue-IsSound :
      (addr : String) (message : Message) (c : SampleCache Message) (now : ℕ)
      (s s' : ConcurrentMeter Message) (answer : Outcome ConcurrentMeterError (Unit {0}))
      → IsSound g s
      → get addr s.sample_cache ≡ some c
      → IsFor g addr message
      → read_or_queue g addr c message now s ≡ (s', answer)
      → answer ≢ panic
      → IsSound g s' × ((a : String) → Balance g a 0 s s')
  unfolding read_or_queue handle_waiting_cache
  read_or_queue-IsSound addr message c now s s' answer v has for_ h calm =
      let entry : IsEntry g (addr, c) = get-All (IsEntry g) addr s.sample_cache v.entries has in
      let stay : s ≡ s' → IsSound g s' × ((a : String) → Balance g a 0 s s') = λ e.
        subst (λ z. IsSound g z × ((a : String) → Balance g a 0 s z)) e (v, λ a. omega arith) in
      elim (Bool-cases (c.is_waiting_response || s.metering)) [
        | inl busy ↦ elim (Bool-cases (leb g.config.cache_queue_size (length c.msg_cache_queue))) [
          | inl full ↦ stay (cc (ap (λ r. r.0) (rw (busy, full) at h)))
          | inr room ↦
              let queued : SampleCache Message = record c {
                msg_cache_queue = c.msg_cache_queue ++ (message ∷ []);
                last_operation_time = now;
              } in
              let after : set_cache addr queued s ≡ s' =
                cc (ap (λ r. r.0) (rw (busy, room) at h)) in
              let fits : length (c.msg_cache_queue ++ (message ∷ [])) ≤ g.config.cache_queue_size =
                ground (arith, length-append c.msg_cache_queue (message ∷ [])) in
              (
                subst (λ z. IsSound g z) after
                    (set-IsSound addr queued s v
                      (All-snoc (IsFor g addr) c.msg_cache_queue message (entry.0) for_, fits)),
                λ a.
                    subst (λ z. Balance g a 0 s z) after
                      (omega (arith, waiting-update a addr c queued s.sample_cache has)),
              )
        ]
        | inr free ↦ elim (Option-cases (start g addr message c s)) [
          | inl none_ ↦ absurd (calm (sym (ap (λ r. r.1) (rw (free, none_) at h))))
          | inr (z, e) ↦
              let after : z ≡ s' = ap (λ r. r.0) (rw (free, e) at h) in
              let (sound, balance) = start-IsSound addr message c c s z v has for_ entry e in
              let quiet : c.is_waiting_response ≡ false = or_false _ _ free in
              (
                subst (λ y. IsSound g y) after sound,
                λ a.
                    let still : waits a addr c ≡ 0 = idle-waits addr a c quiet in
                    subst (λ y. Balance g a 0 s y) after (omega (arith, balance a, still)),
              )
        ]
      ]

  -- A request of a client, whatever comes of it.
  pub handle_meter_reading-IsSound :
      (addr : String) (message : Message) (now : ℕ) (s s' : ConcurrentMeter Message)
      (answer : Outcome ConcurrentMeterError (Unit {0}))
      → IsSound g s
      → IsFor g addr message
      → handle_meter_reading g addr message now s ≡ (s', answer)
      → answer ≢ panic
      → IsSound g s' × ((a : String) → Balance g a 0 s s')
  unfolding handle_meter_reading new_cache
  handle_meter_reading-IsSound addr message now s s' answer v for_ h calm =
      elim (Option-cases (get addr s.sample_cache)) [
        | inr (c, has) ↦
            read_or_queue-IsSound addr message c now s s' answer v has for_
              (rw (has, handle_meter_reading) at h) calm
        | inl gone ↦
            elim (Bool-cases (leb g.config.concurrent_addr (concurrent_addr_num s.sample_cache))) [
              | inl full ↦
                  let same_ : s ≡ s' = ap (λ r. r.0) (rw (gone, full, handle_meter_reading) at h) in
                  subst (λ z. IsSound g z × ((a : String) → Balance g a 0 s z)) same_
                    (v, λ a. omega arith)
              | inr room ↦
                  let fresh : SampleCache Message = new_cache now in
                  let (sound, balance) =
                    read_or_queue-IsSound addr message fresh now (set_cache addr fresh s) s' answer
                      (set-IsSound addr fresh s v (tt, omega arith))
                      (get-update addr fresh s.sample_cache) for_
                      (rw (gone, room, handle_meter_reading) at h) calm in
                  (
                    sound,
                    λ a. omega (
                      arith,
                      balance a,
                      waiting-update_new a addr fresh s.sample_cache gone,
                      idle-waits addr a fresh refl,
                    ),
                  )
            ]
      ]
