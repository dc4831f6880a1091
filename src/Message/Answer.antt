-- ===== src/Message/Answer.antt =====
-- src/protocol/app_data/answer.rs: the answers `ConfirmResponse` and `DenyResponse` (AFN 00H).
use plc_service_rust.Base.{
  ℕ, ◌+◌, ◌*◌, ◌/◌, ◌%◌, ◌<◌, ◌==◌, if◌then◌else◌, List, [], ◌∷◌, ◌++◌, some, Outcome, ok, err,
  index, slice, ◌>>=◌, ◌>>◌, ◌≡◌, refl, ap₂, arith,
}
use plc_service_rust.Protocol.Fault.{answer, Error, primitive}
use plc_service_rust.Protocol.InfoField.{u16_of_le, u16_to_le}
use plc_service_rust.Protocol.AppData.{AppData, check, new}
use plc_service_rust.Protocol.AppData.Check.{new-made, check-made}
use plc_service_rust.Message.{units_of, u16_of_slice, u32_of_be_slice, u32_to_be}

pub record ConfirmResponse : Type 0 where
  pub channel_status : ℕ
  pub wait_time : ℕ

abbrev pub default_confirm : ConfirmResponse
default_confirm = record { channel_status = 0; wait_time = 6 }

unfoldable pub confirm_of_app : AppData → Outcome Error ConfirmResponse
confirm_of_app app = do
  check app answer 1 6
  units ← units_of app
  status_bytes ← slice units 0 4
  status ← u32_of_be_slice status_bytes
  wait_bytes ← slice units 4 6
  wait ← u16_of_slice wait_bytes
  ok (record { channel_status = status; wait_time = wait })

unfoldable pub confirm_to_app : ConfirmResponse → Outcome Error AppData
confirm_to_app r = new answer 1 (some (u32_to_be r.channel_status ++ u16_to_le r.wait_time))

pub data DenyErrorCode : Type 0 where
  time_out invalid_data_unit length_error checksum_error info_class_not_exist format_error meter_dup
        meter_not_exist app_no_response master_busy master_not_support slave_no_response
        slave_out_net exceed_cocurrent_num exceed_msg_num meter_operating other :
      DenyErrorCode

abbrev pub deny_to_u8 : DenyErrorCode → ℕ
deny_to_u8 time_out = 0
deny_to_u8 invalid_data_unit = 1
deny_to_u8 length_error = 2
deny_to_u8 checksum_error = 3
deny_to_u8 info_class_not_exist = 4
deny_to_u8 format_error = 5
deny_to_u8 meter_dup = 6
deny_to_u8 meter_not_exist = 7
deny_to_u8 app_no_response = 8
deny_to_u8 master_busy = 9
deny_to_u8 master_not_support = 10
deny_to_u8 slave_no_response = 11
deny_to_u8 slave_out_net = 12
deny_to_u8 exceed_cocurrent_num = 109
deny_to_u8 exceed_msg_num = 110
deny_to_u8 meter_operating = 111
deny_to_u8 other = 255

-- The first code of the list with this number.
unfoldable pub find_deny : ℕ → List DenyErrorCode → Outcome Error DenyErrorCode
find_deny b [] = err (primitive b)
find_deny b (code ∷ codes) =
    let rest = find_deny b codes in if deny_to_u8 code == b then ok code else rest

abbrev pub deny_codes : List DenyErrorCode
deny_codes =
    time_out ∷ invalid_data_unit ∷ length_error ∷ checksum_error ∷ info_class_not_exist
    ∷ format_error ∷ meter_dup ∷ meter_not_exist ∷ app_no_response ∷ master_busy
    ∷ master_not_support ∷ slave_no_response ∷ slave_out_net ∷ exceed_cocurrent_num ∷ exceed_msg_num
    ∷ meter_operating ∷ other ∷ []

-- The derived `TryFrom<u8>`.
abbrev pub deny_of_u8 : ℕ → Outcome Error DenyErrorCode
deny_of_u8 b = find_deny b deny_codes

pub record DenyResponse : Type 0 where
  pub error_code : DenyErrorCode

unfoldable pub deny_of_app : AppData → Outcome Error DenyResponse
deny_of_app app = do
  check app answer 2 1
  units ← units_of app
  b ← index units 0
  code ← deny_of_u8 b
  ok (record { error_code = code })

unfoldable pub deny_to_app : DenyResponse → Outcome Error AppData
deny_to_app r = new answer 2 (some (deny_to_u8 r.error_code ∷ []))

-- A confirmation whose fields fit their widths is read back from its application data.
pub confirm_of_app-confirm_to_app :
    (r : ConfirmResponse)
    → r.channel_status < 4294967296
    → r.wait_time < 65536
    → (confirm_to_app r >>= confirm_of_app) ≡ ok r
unfolding confirm_of_app confirm_to_app
confirm_of_app-confirm_to_app r h k =
    let units : List ℕ = u32_to_be r.channel_status ++ u16_to_le r.wait_time in
    let status : r.channel_status % 256
          + r.channel_status / 256 % 256 * 256
          + r.channel_status / 65536 % 256 * 65536
          + r.channel_status / 16777216 % 256 * 16777216
        ≡ r.channel_status =
      omega arith in
    let wait : u16_of_le (r.wait_time % 256) (r.wait_time / 256 % 256) ≡ r.wait_time =
      omega arith in
    rw
      (
        new-made answer 1 (some units) (omega arith),
        check-made answer 1 6 (some units) (omega arith) (omega arith) refl,
      )
      (ap₂ (λ s w. ok (record { channel_status = s; wait_time = w })) status wait)

deny_of_u8-deny_to_u8 : (code : DenyErrorCode) → deny_of_u8 (deny_to_u8 code) ≡ ok code
unfolding find_deny
deny_of_u8-deny_to_u8 time_out = refl
deny_of_u8-deny_to_u8 invalid_data_unit = refl
deny_of_u8-deny_to_u8 length_error = refl
deny_of_u8-deny_to_u8 checksum_error = refl
deny_of_u8-deny_to_u8 info_class_not_exist = refl
deny_of_u8-deny_to_u8 format_error = refl
deny_of_u8-deny_to_u8 meter_dup = refl
deny_of_u8-deny_to_u8 meter_not_exist = refl
deny_of_u8-deny_to_u8 app_no_response = refl
deny_of_u8-deny_to_u8 master_busy = refl
deny_of_u8-deny_to_u8 master_not_support = refl
deny_of_u8-deny_to_u8 slave_no_response = refl
deny_of_u8-deny_to_u8 slave_out_net = refl
deny_of_u8-deny_to_u8 exceed_cocurrent_num = refl
deny_of_u8-deny_to_u8 exceed_msg_num = refl
deny_of_u8-deny_to_u8 meter_operating = refl
deny_of_u8-deny_to_u8 other = refl

-- A refusal is read back from its application data, with each of the seventeen error codes.
pub deny_of_app-deny_to_app : (r : DenyResponse) → (deny_to_app r >>= deny_of_app) ≡ ok r
unfolding deny_of_app deny_to_app
deny_of_app-deny_to_app r =
    let units : List ℕ = deny_to_u8 r.error_code ∷ [] in
    rw
      (
        new-made answer 2 (some units) (omega arith),
        check-made answer 2 1 (some units) (omega arith) (omega arith) refl,
        deny_of_u8-deny_to_u8 r.error_code,
      )
      refl
