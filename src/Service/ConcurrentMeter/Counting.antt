-- ===== src/Service/ConcurrentMeter/Counting.antt =====
-- src/service/concurrent_meter.rs: which addresses wait, and what was sent for an address.
use plc_service_rust.Base.{
  ℕ, ◌+◌, String, if◌then◌else◌, List, [], ◌∷◌, ◌++◌, none, some, Bool-cases, inl, inr, ok, unwrap,
  >>=-eq-ok, Bool, false, ◌≡◌, sym, ap, ◌∙◌, arith,
}
use plc_service_rust.Uart.Request.{UartMessage}
use plc_service_rust.Service.Dict.{same, same_iff, same_refl, get, update}
use plc_service_rust.Service.Response.{address_of_text}
use plc_service_rust.Service.Response.Making.{message_of-mqtt}
use plc_service_rust.Service.ConcurrentMeter.{
  SamplePayload, SampleCache, ReadingInfo, Setting, reading_of,
}

module _ {Message : Type 0} where
  abbrev pub is_for : String → UartMessage (ReadingInfo Message) → Bool
  is_for addr m = elim m.req_info.mqtt_req_info [
    | none ↦ false
    | some i ↦ same i.extra_data.acq_addr addr
  ]

  -- The readings that were sent for an address.
  unfoldable pub sent_to : String → List (UartMessage (ReadingInfo Message)) → ℕ
  sent_to addr [] = 0
  sent_to addr (m ∷ ms) = (if is_for addr m then 1 else 0) + sent_to addr ms

  abbrev pub waits : String → String → SampleCache Message → ℕ
  waits addr key c = if same key addr then (if c.is_waiting_response then 1 else 0) else 0

  -- The entries of an address that wait for a response.
  unfoldable pub waiting : String → List (String × SampleCache Message) → ℕ
  waiting addr [] = 0
  waiting addr ((key, c) ∷ entries) = waits addr key c + waiting addr entries

  pub sent_to-append :
      (addr : String) (ms : List (UartMessage (ReadingInfo Message)))
      (m : UartMessage (ReadingInfo Message))
      → sent_to addr (ms ++ (m ∷ [])) ≡ sent_to addr ms + (if is_for addr m then 1 else 0)
  unfolding sent_to
  sent_to-append addr [] m = omega arith
  sent_to-append addr (x ∷ ms) m = omega (arith, sent_to-append addr ms m)

  -- An entry changes.
  pub waiting-update :
      (addr key : String) (c c' : SampleCache Message)
      (entries : List (String × SampleCache Message))
      → get key entries ≡ some c
      → waiting addr (update key c' (λ _. c') entries) + waits addr key c
        ≡ waiting addr entries + waits addr key c'
  unfolding waiting update get
  waiting-update addr key c c' [] h = cc
  waiting-update addr key c c' ((k, x) ∷ entries) h =
      let rest : get key entries ≡ some c
          → waiting addr (update key c' (λ _. c') entries) + waits addr key c
            ≡ waiting addr entries + waits addr key c' =
        waiting-update addr key c c' entries in
      elim (Bool-cases (same k key)) [
        | inl e ↦
            let equal : x ≡ c = cc (rw e at h) in
            let named : k ≡ key = (same_iff k key).0 e in rw (e, equal, named) (omega arith)
        | inr e ↦ rw e (omega (arith, rest (rw e at h)))
      ]

  -- An entry is added.
  pub waiting-update_new :
      (addr key : String) (c : SampleCache Message) (entries : List (String × SampleCache Message))
      → get key entries ≡ none
      → waiting addr (update key c (λ _. c) entries) ≡ waiting addr entries + waits addr key c
  unfolding waiting update get
  waiting-update_new addr key c [] h = omega arith
  waiting-update_new addr key c ((k, x) ∷ entries) h =
      let rest : get key entries ≡ none
          → waiting addr (update key c (λ _. c) entries) ≡ waiting addr entries + waits addr key c =
        waiting-update_new addr key c entries in
      elim (Bool-cases (same k key)) [
        | inl e ↦ absurd (cc (rw e at h))
        | inr e ↦ rw e (omega (arith, rest (rw e at h)))
      ]

  pub get-update :
      (key : String) (c : SampleCache Message) (entries : List (String × SampleCache Message))
      → get key (update key c (λ _. c) entries) ≡ some c
  unfolding get update
  get-update key c [] = rw (same_refl key)
  get-update key c ((k, x) ∷ entries) =
      let rest : get key (update key c (λ _. c) entries) ≡ some c = get-update key c entries in
      elim (Bool-cases (same k key)) [ inl e ↦ rw (e, e) | inr e ↦ rw (e, e) rest ]

module _ {Message : Type 0} (g : Setting Message) where
  -- The message is a reading of the address.
  abbrev pub IsFor : String → Message → Type 0
  IsFor addr message = (p : SamplePayload) × (g.payload message ≡ some p) × (p.acq_addr ≡ addr)

  -- What is sent carries the payload.
  pub reading_of-payload :
      (message : Message) (seq : ℕ) (m : UartMessage (ReadingInfo Message)) (next : ℕ)
      (p : SamplePayload)
      → g.payload message ≡ some p
      → reading_of g message seq ≡ ok (m, next)
      → m.req_info.mqtt_req_info ≡ some (record { message = message; extra_data = p })
  unfolding reading_of
  reading_of-payload message seq m next p parsed h =
      let (q, e1, h1) = >>=-eq-ok (unwrap (g.payload message)) _ h in
      let (address, e2, h2) = >>=-eq-ok (address_of_text g.texts q.acq_addr) _ h1 in
      let (protocol_type, e3, h3) = >>=-eq-ok (unwrap (g.texts.parse_u8 q.pro_type)) _ h2 in
      let (bytes, e4, h4) = >>=-eq-ok (unwrap (g.texts.decode q.data_)) _ h3 in
      let equal : p ≡ q = cc (rw parsed at e1) in
      message_of-mqtt _ _ _ _ m next h4
      ∙ ap (λ x. some (record { message = message; extra_data = x })) (sym equal)
