-- ===== src/Service/ConcurrentMeter/Limits.antt =====
-- src/service/concurrent_meter.rs: the limit on the number of busy addresses.
use plc_service_rust.Base.{
  ℕ, suc, none, ◌≤◌, le→leb, leb, String, if◌then◌else◌, List, [], ◌∷◌, some, Bool-cases, inl, inr,
  ok, err, true, false, ◌||◌, or_false, ◌≡◌, refl, ap, ◌∙◌, arith,
}
use plc_service_rust.Service.Dict.{same, same_refl, get, update}
use plc_service_rust.Service.ConcurrentMeter.{
  addr_limit, SampleCache, ConcurrentMeter, Setting, mqtt_meter_reading_handler, start, started,
  handle_waiting_cache, read_or_queue, handle_meter_reading, concurrent_addr_num, is_busy,
  set_cache,
}
use plc_service_rust.Service.ConcurrentMeter.Sound.{sent_message}
use plc_service_rust.Service.ConcurrentMeter.Counting.{IsFor, sent_to}

module _ {Message : Type 0} (g : Setting Message) where
  num-update :
      (key : String) (c c' : SampleCache Message) (entries : List (String × SampleCache Message))
      → get key entries ≡ some c
      → is_busy c ≡ false
      → is_busy c' ≡ true
      → concurrent_addr_num (update key c' (λ _. c') entries) ≡ suc (concurrent_addr_num entries)
  unfolding concurrent_addr_num update get
  num-update key c c' [] h i b = cc
  num-update key c c' ((k, x) ∷ entries) h i b =
      let rest : get key entries ≡ some c
          → concurrent_addr_num (update key c' (λ _. c') entries)
            ≡ suc (concurrent_addr_num entries) =
        λ e. num-update key c c' entries e i b in
      elim (Bool-cases (same k key)) [
        | inl e ↦
            let equal : x ≡ c = cc (rw e at h) in
            let before : is_busy x ≡ false = ap (λ z. is_busy z) equal ∙ i in
            rw (e, b, before) (omega arith)
        | inr e ↦ rw e (omega (arith, rest (rw e at h)))
      ]

  -- When the number of busy addresses has reached its limit or passed it, a request for an address
  -- with no entry is refused and changes nothing, but one for an address with an idle entry is sent,
  -- so that one more address is busy: if no monitoring goes on and the sending does not panic.
  pub limit_passed :
      (addr other : String) (message message' : Message) (now : ℕ) (c : SampleCache Message)
      (s s1 : ConcurrentMeter Message)
      → g.config.concurrent_addr ≤ concurrent_addr_num s.sample_cache
      → get other s.sample_cache ≡ none
      → get addr s.sample_cache ≡ some c
      → is_busy c ≡ false
      → s.metering ≡ false
      → IsFor g addr message
      → mqtt_meter_reading_handler g message s ≡ some s1
      → (handle_meter_reading g other message' now s
          ≡ (s, err (addr_limit g.config.concurrent_addr)))
        × ((handle_meter_reading g addr message now s).1 ≡ ok tt)
        × (sent_to addr (handle_meter_reading g addr message now s).0.sent
            ≡ suc (sent_to addr s.sent))
        × (concurrent_addr_num (handle_meter_reading g addr message now s).0.sample_cache
            ≡ suc (concurrent_addr_num s.sample_cache))
  unfolding handle_meter_reading read_or_queue start
  limit_passed addr other message message' now c s s1 full missing has idle quiet for_ sent =
      let waiting_ : c.is_waiting_response ≡ false = or_false _ _ idle in
      let busy : SampleCache Message = record c { is_waiting_response = true } in
      let (kept, counted) = sent_message g addr message s s1 for_ sent in
      let free : (c.is_waiting_response || s.metering) ≡ false =
        ap (λ b. b || s.metering) waiting_ ∙ quiet in
      let begun : start g addr message c s ≡ some (set_cache addr busy s1) = rw (sent, start) in
      let whole : handle_meter_reading g addr message now s ≡ (set_cache addr busy s1, ok tt) =
        rw (has, handle_meter_reading)
          (ap
              (λ b.
                if b
                then handle_waiting_cache g addr c message now s
                else started g s (start g addr message c s))
              free
            ∙ ap (started g s) begun) in
      let limit : leb g.config.concurrent_addr (concurrent_addr_num s.sample_cache) ≡ true =
        le→leb _ _ full in
      let one : sent_to addr s1.sent ≡ suc (sent_to addr s.sent) =
        let added : ◌≡◌ {A = ℕ} (if same addr addr then 1 else 0) 1 = rw (same_refl addr) refl in
        omega (arith, counted addr, added) in
      let grown : concurrent_addr_num (update addr busy (λ _. busy) s1.sample_cache)
          ≡ suc (concurrent_addr_num s.sample_cache) =
        ap (λ m. concurrent_addr_num (update addr busy (λ _. busy) m)) kept
        ∙ num-update addr c busy s.sample_cache has idle refl in
      (
        rw (missing, limit, handle_meter_reading),
        ap (λ r. r.1) whole,
        ap (λ r. sent_to addr r.0.sent) whole ∙ one,
        ap (λ r. concurrent_addr_num r.0.sample_cache) whole ∙ grown,
      )
