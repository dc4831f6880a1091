-- ===== src/Service/ConcurrentMeter/Blocked.antt =====
-- src/service/concurrent_meter.rs: an address whose response could not be read.
use plc_service_rust.Base.{
  ℕ, ◌≤◌, String, List, [], ◌∷◌, some, Bool-cases, inl, inr, err, true, ◌≡◌, ap, ◌∙◌, arith,
}
use plc_service_rust.Protocol.Fault.{Error}
use plc_service_rust.Protocol.Frame.{Frame}
use plc_service_rust.Message.MeterReading.{read_meter_of_app}
use plc_service_rust.Service.Dict.{same, get}
use plc_service_rust.Service.Response.{response_of_frame}
use plc_service_rust.Service.ConcurrentMeter.{
  SampleCache, ConcurrentMeter, Setting, uart_meter_reading,
}
use plc_service_rust.Service.ConcurrentMeter.Counting.{sent_to, waiting}
use plc_service_rust.Service.ConcurrentMeter.Steps.{
  Step, response, step, steps, ended_all, AreDue, initial,
}
use plc_service_rust.Service.ConcurrentMeter.Traces.{
  steps-Leaves, waiting-le-occurrences, initial-IsSound,
}

module _ {Message : Type 0} (g : Setting Message) where
  waiting-get :
      (addr : String) (c : SampleCache Message) (entries : List (String × SampleCache Message))
      → get addr entries ≡ some c
      → c.is_waiting_response ≡ true
      → 1 ≤ waiting addr entries
  unfolding waiting get
  waiting-get addr c [] has busy = absurd (cc has)
  waiting-get addr c ((key, x) ∷ entries) has busy =
      let rest : get addr entries ≡ some c → 1 ≤ waiting addr entries =
        λ h. waiting-get addr c entries h busy in
      elim (Bool-cases (same key addr)) [
        | inl e ↦
            let equal : x ≡ c = cc (rw e at has) in
            let waits_ : x.is_waiting_response ≡ true =
              ap (λ z. z.is_waiting_response) equal ∙ busy in
            rw (e, waits_) (omega arith)
        | inr e ↦ rw e (omega (arith, rest (rw e at has)))
      ]

  -- A response that cannot be read blocks its address: when it has come for an address that waits,
  -- after any steps from the start, then nothing more is sent for the address in any steps that
  -- follow, as long as no timeout and no response that can be read come for it.
  pub unreadable_blocks :
      (seq : ℕ) (es after : List (Step Message)) (addr : String) (f : Frame) (failure : Error)
      (s s' : ConcurrentMeter Message) (c : SampleCache Message)
      → AreDue g es (initial g seq)
      → steps g es (initial g seq) ≡ some s
      → get addr s.sample_cache ≡ some c
      → c.is_waiting_response ≡ true
      → response_of_frame read_meter_of_app f ≡ err failure
      → AreDue g after s
      → ended_all g addr after ≡ 0
      → steps g (response addr f ∷ after) s ≡ some s'
      → sent_to addr s'.sent ≤ sent_to addr s.sent
  unfolding steps step uart_meter_reading
  unreadable_blocks seq es after addr f failure s s' c due ran has busy unread due' quiet ran' =
      let (sound, first) = steps-Leaves g es (initial g seq) s (initial-IsSound g seq) due ran in
      let kept : step g (response addr f) s ≡ some s = rw (unread, uart_meter_reading) in
      let rest : steps g after s ≡ some s' = rw (steps, kept) at ran' in
      let (sound', balance) = steps-Leaves g after s s' sound due' rest in
      omega (
        arith,
        balance addr,
        quiet,
        waiting-get addr c s.sample_cache has busy,
        waiting-le-occurrences g addr s'.sample_cache,
        sound'.single addr,
      )
