-- ===== src/Service/ConcurrentMeter/Sound.antt =====
-- src/service/concurrent_meter.rs: what holds of the map of the addresses, and what each part of an
-- operation does to the count of what was sent and of what waits.
use plc_service_rust.Base.{
  ℕ, ◌+◌, ◌≤◌, String, if◌then◌else◌, [], ◌∷◌, ◌++◌, some, Outcome-cases, inl, inr, All, length,
  ◌≡◌, refl, sym, ap, ◌∙◌, subst,
}
use plc_service_rust.Service.Dict.{same}
use plc_service_rust.Service.Dict.Entries.{occurrences}
use plc_service_rust.Service.ConcurrentMeter.{
  SampleCache, ConcurrentMeter, Setting, reading_of, mqtt_meter_reading_handler,
}
use plc_service_rust.Service.ConcurrentMeter.Counting.{
  sent_to, waiting, sent_to-append, IsFor, reading_of-payload,
}

module _ {Message : Type 0} (g : Setting Message) where
  -- A queue holds readings of its address only, and is not too long.
  abbrev pub IsEntry : String × SampleCache Message → Type 0
  IsEntry e =
      All (IsFor g (e.0)) e.1.msg_cache_queue
      × (length e.1.msg_cache_queue ≤ g.config.cache_queue_size)

  pub record IsSound (s : ConcurrentMeter Message) : Type 0 where
    pub entries : All IsEntry s.sample_cache
    pub single : (addr : String) → occurrences addr s.sample_cache ≤ 1

  -- What an operation sends for an address and what it leaves waiting, `fin` readings being ended.
  abbrev pub Balance : String → ℕ → ConcurrentMeter Message → ConcurrentMeter Message → Type 0
  Balance addr fin s s' =
      sent_to addr s'.sent + waiting addr s.sample_cache
      ≡ sent_to addr s.sent + waiting addr s'.sample_cache + fin

  -- The sending of a message.
  pub sent_message :
      (addr : String) (message : Message) (s s1 : ConcurrentMeter Message)
      → IsFor g addr message
      → mqtt_meter_reading_handler g message s ≡ some s1
      → (s1.sample_cache ≡ s.sample_cache)
        × ((a : String) → sent_to a s1.sent ≡ sent_to a s.sent + (if same addr a then 1 else 0))
  unfolding mqtt_meter_reading_handler
  sent_message addr message s s1 (p, parsed, named) h =
      elim (Outcome-cases (reading_of g message s.seq)) [
        | inr (inl (e, failed)) ↦ absurd (cc (rw failed at h))
        | inr (inr failed) ↦ absurd (cc (rw failed at h))
        | inl ((m, next), made) ↦
            let after : record s { sent = s.sent ++ (m ∷ []); seq = next } ≡ s1 =
              cc (rw (made, mqtt_meter_reading_handler) at h) in
            let told : m.req_info.mqtt_req_info
                ≡ some (record { message = message; extra_data = p }) =
              reading_of-payload g message s.seq m next p parsed made in
            (
              ap (λ z. z.sample_cache) (sym after),
              λ a.
                  subst (λ z. sent_to a z.sent ≡ sent_to a s.sent + (if same addr a then 1 else 0))
                    after (sent_to-append a s.sent m ∙ rw (told, named) refl),
            )
      ]
