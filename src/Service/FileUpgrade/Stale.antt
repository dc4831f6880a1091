-- ===== src/Service/FileUpgrade/Stale.antt =====
-- src/service/file_upgrade.rs: the result that an upgrade of the module leaves behind.
use plc_service_rust.Base.{
  ℕ, ◌+◌, ◌-◌, ◌%◌, ◌<◌, if◌then◌else◌, List, [], ◌∷◌, ◌++◌, none, some, Outcome, ok, Bool, true,
  false, length, chunks, length-chunks_loop, leb, lt→leb_false, ◌≡◌, refl, ap, ◌∙◌, arith,
}
use plc_service_rust.Message.FileTransfer.{FileFlag}
use plc_service_rust.Service.Action.{ServiceError, ◌>>◌}
use plc_service_rust.Service.FileUpgrade.{
  FileUpgrade, transfer_failed, success, segment, Event, reported, judge, prefix_len, segment_count,
  transfer, transfer_file, start_upgrade, finish_upgrade, react, react_all, sleep, wait_result,
  wait_from, upgrade_finished, watch_module, watched, watch_from, upgrading_,
}
use plc_service_rust.Service.FileUpgrade.Transfer.{IsAnswered, send_segment_lem, module_answers}

-- The upgrade of a module that reports ends well, and its result stays.
watch_reported :
    {MqttReqInfo : Type 0} (now : ℕ) (s : FileUpgrade MqttReqInfo) (later : List (List Event))
    → s.upgrading ≡ true
    → s.result ≡ none
    → s.events ≡ (reported ∷ []) ∷ later
    → (z : FileUpgrade MqttReqInfo) × (watch_module now s ≡ (z, ok tt))
      × (z.result ≡ some (segment 0))
      × (z.upgrading ≡ false)
      × (z.upgrade_result ≡ success)
      × (z.events ≡ later)
unfolding watch_module sleep react_all react upgrade_finished finish_upgrade
watch_reported {MqttReqInfo} now s later busy fresh next =
    let watching : FileUpgrade MqttReqInfo = record s { status = upgrading_ } in
    let awake : FileUpgrade MqttReqInfo = upgrade_finished (record watching { events = later }) in
    let slept : sleep s.events watching ≡ awake =
      ap (λ e. sleep e watching) next
      ∙ ap
          (λ b.
            if b
            then upgrade_finished (record watching { events = later })
            else record watching { events = later })
          busy in
    (
      finish_upgrade success now awake,
      ap (λ r. watch_from now r watching) fresh ∙ ap (watched now) slept,
      refl,
      refl,
      refl,
      refl,
    )

-- With a result there before the first answer, the answer to the first segment is taken for the
-- answer to the second.
stale_transfer :
    {MqttReqInfo : Type 0} (flag : FileFlag) (count : ℕ) (mqtt : MqttReqInfo) (now : ℕ)
    (d0 d1 : List ℕ) (rest : List (List ℕ)) (events : List Event) (later : List (List Event))
    (s : FileUpgrade MqttReqInfo)
    → 1 < count
    → s.result ≡ some (segment 0)
    → s.events ≡ events ∷ later
    → IsAnswered 0 events
    → (z : FileUpgrade MqttReqInfo) × (transfer flag count mqtt now 0 (d0 ∷ d1 ∷ rest) s
        ≡ (z, ok false))
      × (z.upgrade_result ≡ transfer_failed)
unfolding transfer finish_upgrade judge wait_result
stale_transfer {MqttReqInfo} flag count mqtt now d0 d1 rest events later s more old next answer =
    let (m0, sent0, carried0) = send_segment_lem flag count mqtt 0 d0 s (omega arith) in
    let s0 : FileUpgrade MqttReqInfo = record s {
      sent = s.sent ++ (m0 ∷ []);
      seq = (s.seq + 1) % 256;
    } in
    let s1 : FileUpgrade MqttReqInfo = record s0 { result = none } in
    let waited : wait_result s0 ≡ (s1, ok (segment 0)) = ap (λ r. wait_from r s0) old in
    let (m1, sent1, carried1) = send_segment_lem flag count mqtt 1 d1 s1 more in
    let s2 : FileUpgrade MqttReqInfo = record s1 {
      sent = s1.sent ++ (m1 ∷ []);
      seq = (s1.seq + 1) % 256;
    } in
    let woken = module_answers 0 events later s2 refl next answer in
    (
      finish_upgrade transfer_failed now (record s2 { result = none; events = later }),
      rw (sent0, waited, sent1, woken) refl,
      refl,
    )

-- After an upgrade of the module that ended by its report, the transfer of the next file of two
-- segments or more fails, although the module answers the first segment with its number.
pub stale_result :
    {MqttReqInfo : Type 0} (flag : FileFlag) (mqtt : MqttReqInfo) (packet now then_ : ℕ)
    (content d0 d1 : List ℕ) (rest : List (List ℕ)) (events : List Event)
    (later : List (List Event)) (s : FileUpgrade MqttReqInfo)
    → s.upgrading ≡ true
    → s.result ≡ none
    → s.events ≡ (reported ∷ []) ∷ events ∷ later
    → IsAnswered 0 events
    → prefix_len < packet
    → chunks content (packet - prefix_len) ≡ d0 ∷ d1 ∷ rest
    → length (d0 ∷ d1 ∷ rest) < 65536
    → (z : FileUpgrade MqttReqInfo) × ((watch_module now
            >> transfer_file flag mqtt packet then_ content)
          s
        ≡ (z, ok false))
      × (z.upgrade_result ≡ transfer_failed)
unfolding transfer_file start_upgrade chunks
stale_result {MqttReqInfo} flag mqtt packet now then_ content d0 d1 rest events later s busy fresh
      next answer long split few =
    let (y, ended, old, free, won, events_left) =
      watch_reported now s (events ∷ later) busy fresh next in
    let size : ℕ = packet - prefix_len in
    let begun : FileUpgrade MqttReqInfo = start_upgrade then_ y in
    let counted : length (chunks content size) ≡ segment_count content size =
      length-chunks_loop (length content) size content (omega arith) (omega arith) in
    let count : segment_count content size % 65536 ≡ length (d0 ∷ d1 ∷ rest) =
      omega (arith, counted, ap length split) in
    let enough : leb packet prefix_len ≡ false = lt→leb_false _ _ long in
    let (z, failed, why) =
      stale_transfer flag (length (d0 ∷ d1 ∷ rest)) mqtt then_ d0 d1 rest events later begun
        (omega arith) old events_left answer in
    let branch : Bool → FileUpgrade MqttReqInfo × Outcome ServiceError Bool = λ b.
      if b
      then (y, ok false)
      else transfer flag (segment_count content size % 65536) mqtt then_ 0 (chunks content size)
          begun in
    let opened : transfer_file flag mqtt packet then_ content y ≡ branch y.upgrading =
      rw enough refl in
    (
      z,
      rw ended (
          opened
          ∙ ap branch free
          ∙ ap (λ n. transfer flag n mqtt then_ 0 (chunks content size) begun) count
          ∙ ap (λ l. transfer flag (length (d0 ∷ d1 ∷ rest)) mqtt then_ 0 l begun) split
          ∙ failed),
      why,
    )
