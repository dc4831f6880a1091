-- ===== src/Protocol/AppData.antt =====
-- src/protocol/app_data/mod.rs: addresses, data flags and application data. `fn_num - 1`,
-- `self.mark >> index` and `self.type_ * 8 + index + 1` are `u8` arithmetic with overflow checks.
pub mod Flag
pub mod Codec
pub mod Check
use plc_service_rust.Base.{
  ℕ, zero, suc, ◌+◌, ◌-◌, ◌*◌, ◌/◌, ◌%◌, ◌^◌, ◌==◌, leb, ltb, if◌then◌else◌, bit_and, bit_or, List,
  [], ◌∷◌, ◌++◌, reverse, length, Option, none, some, Outcome, ok, err, panic, ensure, unwrap,
  index, slice, slice_from, add_u8, sub_u8, mul_u8, ◌>>=◌, ◌>>◌, Bool,
}
use plc_service_rust.Base.Bits.{shl_u8}
use plc_service_rust.Protocol.Fault.{
  Afn, answer, init, data_forward, query_data, ctrl_cmd, route_get, route_set, route_data_forward,
  cocurrent_read_meter, afn_to_u8, afn_eq, afn_of_u8, AppDataError, afn, fn_num, data_length, Error,
  app_data, message,
}

abbrev pub addr_len : ℕ
addr_len = 6

-- `Address([u8; 6])`: the array as a list; `AddressFits` says that it has six bytes.
pub record Address : Type 0 where
  pub bytes : List ℕ

-- `Address::try_from(&[u8])`: the wire has the bytes in reverse order.
unfoldable pub address_of_bytes : List ℕ → Outcome Error Address
address_of_bytes data_ = do
  ensure (length data_ == addr_len) (message "address length error")
  ok (record { bytes = reverse data_ })

unfoldable pub address_to_bytes : Address → List ℕ
address_to_bytes address = reverse address.bytes

abbrev pub app_data_prefix_size : ℕ
app_data_prefix_size = 3

pub record DataFlag : Type 0 where
  pub type_ : ℕ
  pub mark : ℕ

-- The loop of `as_fn_num` with the rounds left as fuel: at index 8 the shift of a `u8` overflows.
unfoldable pub find_mark : ℕ → ℕ → ℕ → Outcome Error ℕ
find_mark zero index mark = panic
find_mark (suc rounds) index mark =
    let next = find_mark rounds (index + 1) mark in
    if bit_and (mark / 2 ^ index) 0x01 == 0x00 then next else ok index

unfoldable pub as_fn_num : DataFlag → Outcome Error ℕ
as_fn_num flag = do
  index ← find_mark 8 0 flag.mark
  types ← mul_u8 flag.type_ 8
  sum ← add_u8 types index
  add_u8 sum 1

-- `DataFlag::from(u8)`.
unfoldable pub flag_of_fn_num : ℕ → Outcome Error DataFlag
flag_of_fn_num number = do
  n ← sub_u8 number 1
  ok (record { type_ = n / 8; mark = shl_u8 1 (n % 8) })

-- `DataFlag::from(&[u8])`: a little-endian `u16` with the type in its high byte.
unfoldable pub flag_of_bytes : List ℕ → Outcome Error DataFlag
flag_of_bytes data_flag = do
  lo ← index data_flag 0
  hi ← index data_flag 1
  if length data_flag == 2 then ok (record { type_ = hi; mark = lo }) else panic

pub record AppData : Type 0 where
  pub afn : Afn
  pub data_flag : DataFlag
  pub data_units : Option (List ℕ)

unfoldable pub new : Afn → ℕ → Option (List ℕ) → Outcome Error AppData
new a number units = do
  flag ← flag_of_fn_num number
  ok (record { afn = a; data_flag = flag; data_units = units })

-- The length of the data units.
abbrev pub units_length : Option (List ℕ) → ℕ
units_length none = 0
units_length (some units) = length units

abbrev pub app_data_length : AppData → ℕ
app_data_length app = app_data_prefix_size + units_length app.data_units

abbrev pub comm_mark_of_afn : Afn → ℕ
comm_mark_of_afn answer = 0
comm_mark_of_afn init = 0
comm_mark_of_afn query_data = 0
comm_mark_of_afn ctrl_cmd = 0
comm_mark_of_afn route_get = 0
comm_mark_of_afn route_set = 0
comm_mark_of_afn data_forward = 1
comm_mark_of_afn route_data_forward = 1
comm_mark_of_afn cocurrent_read_meter = 1
comm_mark_of_afn _ = 0

abbrev pub get_comm_mark : AppData → ℕ
get_comm_mark app = comm_mark_of_afn app.afn

unfoldable pub check : AppData → Afn → ℕ → ℕ → Outcome Error (Unit {0})
check app a number len = do
  ensure (afn_eq app.afn a) (app_data (AppDataError.afn app.afn))
  n ← as_fn_num app.data_flag
  ensure (n == number) (app_data (AppDataError.fn_num n))
  ensure (units_length app.data_units == len)
      (app_data (AppDataError.data_length (units_length app.data_units)))

-- `AppData::try_from(&[u8])`.
unfoldable pub of_bytes : List ℕ → Outcome Error AppData
of_bytes bytes = do
  ensure (leb app_data_prefix_size (length bytes)) (message "app data length error")
  b0 ← index bytes 0
  a ← afn_of_u8 b0
  flag_bytes ← slice bytes 1 app_data_prefix_size
  flag ← flag_of_bytes flag_bytes
  number ← as_fn_num flag
  units ← slice_from bytes app_data_prefix_size
  new a number (if ltb app_data_prefix_size (length bytes) then some units else none)

abbrev pub units_bytes : Option (List ℕ) → List ℕ
units_bytes none = []
units_bytes (some units) = units

unfoldable pub to_bytes : AppData → List ℕ
to_bytes app =
    afn_to_u8 app.afn ∷ app.data_flag.mark ∷ app.data_flag.type_ ∷ units_bytes app.data_units
