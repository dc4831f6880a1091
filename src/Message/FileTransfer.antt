-- ===== src/Message/FileTransfer.antt =====
-- src/protocol/app_data/file_transfer.rs: the segments of a file (AFN 15H).
use plc_service_rust.Base.{
  ℕ, zero, suc, ◌+◌, ◌%◌, ◌≤◌, ◌==◌, ltb, if◌then◌else◌, List, ◌∷◌, ◌++◌, length, some, Outcome, ok,
  panic, index, slice, ◌>>=◌, ◌>>◌, ◌≡◌, ap, arith,
}
use plc_service_rust.Protocol.Fault.{file_transfer, Error}
use plc_service_rust.Protocol.InfoField.{u16_to_le}
use plc_service_rust.Protocol.AppData.{AppData, check, new}
use plc_service_rust.Protocol.AppData.Check.{made, new-made}
use plc_service_rust.Message.{units_of, u32_of_le_slice, u32_to_le}

pub data FileFlag : Type 0 where
  clear module_ master_and_slave slave : FileFlag

abbrev pub file_flag_to_u8 : FileFlag → ℕ
file_flag_to_u8 clear = 0
file_flag_to_u8 module_ = 3
file_flag_to_u8 master_and_slave = 7
file_flag_to_u8 slave = 8

abbrev pub file_transfer_prefix_len : ℕ
file_transfer_prefix_len = 11

pub record FileTransferRequest : Type 0 where
  pub file_flag : FileFlag
  pub file_attr : ℕ
  pub file_command : ℕ
  pub segment_num : ℕ
  pub segment_offset : ℕ
  pub segment_len : ℕ
  pub file_data : List ℕ

-- `segment_num as u32 - 1`, with overflow checks.
abbrev pub last_segment : ℕ → Outcome Error ℕ
last_segment zero = panic
last_segment (suc n) = ok n

unfoldable pub new_segment : FileFlag → ℕ → ℕ → List ℕ → Outcome Error FileTransferRequest
new_segment file_flag segment_num segment_offset file_data = do
  last ← last_segment segment_num
  ok (record {
    file_flag = file_flag;
    file_attr = if segment_offset == last then 1 else 0;
    file_command = 0;
    segment_num = segment_num;
    segment_offset = segment_offset;
    segment_len = length file_data % 65536;
    file_data = file_data;
  })

abbrev pub segment_bytes : FileTransferRequest → List ℕ
segment_bytes r =
    file_flag_to_u8 r.file_flag ∷ r.file_attr ∷ r.file_command ∷ u16_to_le r.segment_num
    ++ (u32_to_le r.segment_offset ++ (u16_to_le r.segment_len ++ r.file_data))

unfoldable pub segment_to_app : FileTransferRequest → Outcome Error AppData
segment_to_app r = new file_transfer 1 (some (segment_bytes r))

unfoldable pub segment_flag_of_app : AppData → Outcome Error ℕ
segment_flag_of_app app = do
  check app file_transfer 1 4
  units ← units_of app
  flag_bytes ← slice units 0 4
  u32_of_le_slice flag_bytes

abbrev pub segment_to_app_of : FileFlag → ℕ → ℕ → List ℕ → Outcome Error AppData
segment_to_app_of flag count offset data_ = new_segment flag count offset data_ >>= segment_to_app

-- In a file of the segments 0 to `count`, the data of segment `offset` have a second byte of 1, which
-- marks the last segment, if it is segment `count`, and of 0 if it is an earlier one; they are 11
-- bytes more than its part of the file.
pub segment_to_app_of_lem :
    (flag : FileFlag) (count offset : ℕ) (data_ : List ℕ)
    → offset ≤ count
    → (bytes : List ℕ) × (segment_to_app_of flag (suc count) offset data_
        ≡ ok (made file_transfer 1 (some bytes)))
      × (length bytes ≡ file_transfer_prefix_len + length data_)
      × (index {E = Error} bytes 1 ≡ ok (if ltb offset count then 0 else 1))
unfolding segment_to_app new_segment
segment_to_app_of_lem flag count offset data_ h = (
  segment_bytes (record {
    file_flag = flag;
    file_attr = if offset == count then 1 else 0;
    file_command = 0;
    segment_num = suc count;
    segment_offset = offset;
    segment_len = length data_ % 65536;
    file_data = data_;
  }),
  new-made file_transfer 1 _ (omega arith),
  omega arith,
  ap ok (ground arith),
)
