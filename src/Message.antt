-- ===== src/Message.antt =====
-- src/protocol/app_data/: the requests and responses that application data carry. The numbers of the
-- functions are those of the enums there.
pub mod Answer
pub mod Entries
pub mod Bcd
pub mod DataTrans
pub mod MeterReading
pub mod RouteDataForward
pub mod RouteDataRead
pub mod CtrlCmd
pub mod FileTransfer
pub mod RouteGet
pub mod ActiveReport
pub mod RouteSet
pub mod QueryData
pub mod Wire
use plc_service_rust.Base.{
  ℕ, ◌+◌, ◌*◌, ◌/◌, ◌%◌, List, [], ◌∷◌, Option, Outcome, ok, panic, unwrap, slice, ◌>>=◌,
}
use plc_service_rust.Protocol.Fault.{Error}
use plc_service_rust.Protocol.InfoField.{u16_of_le}
use plc_service_rust.Protocol.AppData.{AppData}

-- `app_data.data_units.unwrap()`.
abbrev pub units_of : AppData → Outcome Error (List ℕ)
units_of app = unwrap app.data_units

-- `u16::from_le_bytes(slice.try_into().unwrap())`, or with `?` in place of `unwrap`: the slices that
-- the source takes have two bytes, so that neither can fail.
abbrev pub u16_of_slice : List ℕ → Outcome Error ℕ
u16_of_slice (lo ∷ hi ∷ []) = ok (u16_of_le lo hi)
u16_of_slice _ = panic

-- `u32::from_be_bytes` and `u32::from_le_bytes` of a slice, and `to_be_bytes`, `to_le_bytes`.
abbrev pub u32_of_be_slice : List ℕ → Outcome Error ℕ
u32_of_be_slice (b3 ∷ b2 ∷ b1 ∷ b0 ∷ []) = ok (b0 + b1 * 256 + b2 * 65536 + b3 * 16777216)
u32_of_be_slice _ = panic

abbrev pub u32_of_le_slice : List ℕ → Outcome Error ℕ
u32_of_le_slice (b0 ∷ b1 ∷ b2 ∷ b3 ∷ []) = ok (b0 + b1 * 256 + b2 * 65536 + b3 * 16777216)
u32_of_le_slice _ = panic

abbrev pub u32_to_be : ℕ → List ℕ
u32_to_be n = n / 16777216 % 256 ∷ n / 65536 % 256 ∷ n / 256 % 256 ∷ n % 256 ∷ []

abbrev pub u32_to_le : ℕ → List ℕ
u32_to_le n = n % 256 ∷ n / 256 % 256 ∷ n / 65536 % 256 ∷ n / 16777216 % 256 ∷ []
