-- ===== src/Service/FileUpgrade/Transfer.antt =====
-- The transfer of a file in src/service/file_upgrade.rs when the module answers each segment.
use plc_service_rust.Base.{
  ℕ, suc, ◌+◌, ◌-◌, ◌%◌, ◌<◌, ◌==◌, ==_refl, ne→==_false, List, [], ◌∷◌, ◌++◌, none, some, ok,
  false, ◌≡◌, refl, sym, ap, ◌∙◌, subst, arith,
}
use plc_service_rust.Protocol.Fault.{file_transfer}
use plc_service_rust.Protocol.AppData.Check.{made}
use plc_service_rust.Protocol.Frame.{Frame}
use plc_service_rust.Uart.Request.{UartMessage}
use plc_service_rust.Message.FileTransfer.{
  FileFlag, segment_to_app_of, segment_flag_of_app, segment_to_app_of_lem,
}
use plc_service_rust.Service.Response.{normal, response_of_frame, message_of}
use plc_service_rust.Service.Response.Making.{message_of-made}
use plc_service_rust.Service.FileUpgrade.{
  FileUpgrade, segment, Event, answered, judge, uart_file_transfer, react, react_all, sleep,
  wait_result, wait_from, take_result, send_segment, file_check_error,
}

-- The events of a wait are one response, the answer to a segment.
abbrev pub IsAnswered : ℕ → List Event → Type 0
IsAnswered offset events =
    (f : Frame) × (events ≡ answered f ∷ [])
    × (response_of_frame segment_flag_of_app f ≡ ok (normal offset))

-- So are those of the next waits, for the segments in order.
abbrev pub AreAnswered : ℕ → List (List ℕ) → List (List Event) → Type 0
AreAnswered offset [] waits = Unit
AreAnswered offset (data_ ∷ rest) [] = ⊥
AreAnswered offset (data_ ∷ rest) (events ∷ waits) =
    IsAnswered offset events × AreAnswered (suc offset) rest waits

-- The messages carry the parts of a file of `count` segments, numbered from `offset`.
abbrev pub Carry :
    {MqttReqInfo : Type 0}
    → FileFlag
    → ℕ
    → ℕ
    → List (List ℕ)
    → List (UartMessage MqttReqInfo)
    → Type 0
Carry flag count offset [] [] = Unit
Carry flag count offset [] (m ∷ ms) = ⊥
Carry flag count offset (data_ ∷ rest) [] = ⊥
Carry flag count offset (data_ ∷ rest) (m ∷ ms) =
    (segment_to_app_of flag count offset data_ ≡ ok m.frame.user_data.app_data)
    × Carry flag count (suc offset) rest ms

module _ {MqttReqInfo : Type 0} (flag : FileFlag) (count : ℕ) (mqtt : MqttReqInfo) where
  -- A segment is sent.
  pub send_segment_lem :
      (offset : ℕ) (data_ : List ℕ) (s : FileUpgrade MqttReqInfo)
      → offset < count
      → (m : UartMessage MqttReqInfo) × (send_segment flag count mqtt offset data_ s
          ≡ (record s { sent = s.sent ++ (m ∷ []); seq = (s.seq + 1) % 256 }, ok tt))
        × (segment_to_app_of flag count offset data_ ≡ ok m.frame.user_data.app_data)
  unfolding send_segment
  send_segment_lem offset data_ s small =
      let whole : suc (count - 1) ≡ count = omega arith in
      let (bytes, app, size, mark) =
        segment_to_app_of_lem flag (count - 1) offset data_ (omega arith) in
      let app_ : segment_to_app_of flag count offset data_
          ≡ ok (made file_transfer 1 (some bytes)) =
        subst (λ n. segment_to_app_of flag n offset data_ ≡ ok (made file_transfer 1 (some bytes)))
          whole app in
      let (m, sent, carried, info) =
        message_of-made s.seq none (some mqtt) file_transfer 1 (some bytes) (omega arith)
          (omega arith) in
      let message : message_of s.seq none (some mqtt) (segment_to_app_of flag count offset data_)
          ≡ ok (m, (s.seq + 1) % 256) =
        ap (message_of s.seq none (some mqtt)) app_ ∙ sent in
      (m, rw message refl, app_ ∙ ap ok (sym carried))

pub module_answers :
    {MqttReqInfo : Type 0} (offset : ℕ) (events : List Event) (later : List (List Event))
    (s : FileUpgrade MqttReqInfo)
    → s.result ≡ none
    → s.events ≡ events ∷ later
    → IsAnswered offset events
    → wait_result s ≡ (record s { result = none; events = later }, ok (segment offset))
unfolding wait_result sleep react_all react uart_file_transfer
module_answers {MqttReqInfo} offset events later s fresh next (f, only, read) =
    let awake : FileUpgrade MqttReqInfo = record s {
      result = some (segment offset);
      events = later;
    } in
    let slept : sleep s.events s ≡ awake = rw (next, only, read, uart_file_transfer) refl in
    ap (λ r. wait_from r s) fresh ∙ ap (λ z. take_result z z.result) slept

pub judge-none : (offset : ℕ) → offset < 4294967295 → judge offset (segment offset) ≡ none
unfolding judge
judge-none offset small =
    let off : (offset % 4294967296 == file_check_error) ≡ false =
      ne→==_false _ _ (λ e. omega arith) in
    rw (off, ==_refl offset) refl
