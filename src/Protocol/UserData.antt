-- ===== src/Protocol/UserData.antt =====
-- src/protocol/user_data.rs: the address field and the user data of a frame.
pub mod AddressCodec
pub mod Codec
pub mod Relays
use plc_service_rust.Base.{
  ℕ, ◌+◌, ◌-◌, ◌*◌, ◌/◌, ◌%◌, ◌==◌, leb, ltb, if◌then◌else◌, List, [], ◌∷◌, ◌++◌, length, Option,
  none, some, Outcome, ok, ensure, unwrap_result, slice, slice_from, chunks, ◌>>=◌, ◌>>◌, bit_and,
  add_u8, mul_u8,
}
use plc_service_rust.Protocol.Fault.{Error, message}
use plc_service_rust.Protocol.InfoField as Info
use plc_service_rust.Protocol.InfoField.{InfoField, InfoFieldType, info_field_size}
use plc_service_rust.Protocol.AppData as App
use plc_service_rust.Protocol.AppData.{
  Address, addr_len, address_of_bytes, address_to_bytes, AppData, app_data_length, get_comm_mark,
}

-- Two BCD digits against a number, in `u8` arithmetic with overflow checks.
unfoldable pub hex_to_dec : ℕ → Outcome Error ℕ
hex_to_dec bcd = do tens ← mul_u8 (bcd / 16) 10; add_u8 tens (bit_and bcd 0x0f)

unfoldable pub dec_to_hex : ℕ → Outcome Error ℕ
dec_to_hex value = do tens ← mul_u8 (value / 10 % 10) 16; add_u8 tens (value % 10)

pub record AddressField : Type 0 where
  pub src_address : Address
  pub relay_address : Option (List Address)
  pub dst_address : Address

abbrev pub relay_count : Option (List Address) → ℕ
relay_count none = 0
relay_count (some relays) = length relays

abbrev pub address_field_length : AddressField → ℕ
address_field_length field = addr_len * (2 + relay_count field.relay_address)

abbrev pub addresses_to_bytes : List Address → List ℕ
addresses_to_bytes [] = []
addresses_to_bytes (a ∷ rest) = address_to_bytes a ++ addresses_to_bytes rest

abbrev pub relay_bytes : Option (List Address) → List ℕ
relay_bytes none = []
relay_bytes (some relays) = addresses_to_bytes relays

unfoldable pub address_field_to_bytes : AddressField → List ℕ
address_field_to_bytes field =
    address_to_bytes field.src_address
    ++ (relay_bytes field.relay_address ++ address_to_bytes field.dst_address)

-- `.map(|b| b.try_into().unwrap()).collect()`
unfoldable pub collect_addresses : List (List ℕ) → Outcome Error (List Address)
collect_addresses [] = ok []
collect_addresses (b ∷ rest) = do
  a ← unwrap_result (address_of_bytes b)
  as_ ← collect_addresses rest
  ok (a ∷ as_)

unfoldable pub relays_of_bytes : List ℕ → Outcome Error (Option (List Address))
relays_of_bytes bytes =
    if ltb (addr_len * 2) (length bytes)
    then (do
      middle ← slice bytes addr_len (length bytes - addr_len)
      relays ← collect_addresses (chunks middle addr_len)
      ok (some relays))
    else ok none

unfoldable pub address_field_of_bytes : List ℕ → Outcome Error AddressField
address_field_of_bytes bytes = do
  first ← slice bytes 0 addr_len
  src ← unwrap_result (address_of_bytes first)
  relays ← relays_of_bytes bytes
  last ← slice_from bytes (length bytes - addr_len)
  dst ← unwrap_result (address_of_bytes last)
  ok (record { src_address = src; relay_address = relays; dst_address = dst })

pub record UserData : Type 0 where
  pub info_field : InfoField
  pub address_field : Option AddressField
  pub app_data : AppData

-- `a.relay_address.is_some() as u8`, and 0 where there is no address field.
abbrev pub relay_flag : Option AddressField → ℕ
relay_flag none = 0
relay_flag (some field) = elim field.relay_address [ none ↦ 0 | some _ ↦ 1 ]

unfoldable pub new : ℕ → Option AddressField → AppData → UserData
new seq address app = record {
  info_field = Info.new InfoFieldType.down seq (relay_flag address) (get_comm_mark app);
  address_field = address;
  app_data = app;
}

abbrev pub optional_address_length : Option AddressField → ℕ
optional_address_length none = 0
optional_address_length (some field) = address_field_length field

abbrev pub user_data_length : UserData → ℕ
user_data_length ud =
    info_field_size + optional_address_length ud.address_field + app_data_length ud.app_data

-- `UserData::from_bytes`, the part after the information field. Its two slices at
-- `INFO_FIELD_SIZE + len` follow the `ensure!`.
unfoldable pub addressed_of_bytes : InfoField → List ℕ → Outcome Error UserData
addressed_of_bytes info bytes = do
  let len = (Info.relay_level info + 2) * addr_len
  ensure (leb (info_field_size + len) (length bytes)) (message "address field length error")
  part ← slice bytes info_field_size (info_field_size + len)
  address ← address_field_of_bytes part
  rest ← slice_from bytes (info_field_size + len)
  app ← App.of_bytes rest
  ok (record { info_field = info; address_field = some address; app_data = app })

unfoldable pub unaddressed_of_bytes : InfoField → List ℕ → Outcome Error UserData
unaddressed_of_bytes info bytes = do
  rest ← slice_from bytes info_field_size
  app ← App.of_bytes rest
  ok (record { info_field = info; address_field = none; app_data = app })

unfoldable pub from_bytes : InfoFieldType → List ℕ → Outcome Error UserData
from_bytes t bytes = do
  head ← slice bytes 0 info_field_size
  info ← Info.from_bytes t head
  if Info.comm_model_mark info == 1
      then addressed_of_bytes info bytes
      else unaddressed_of_bytes info bytes

abbrev pub optional_address_bytes : Option AddressField → List ℕ
optional_address_bytes none = []
optional_address_bytes (some field) = address_field_to_bytes field

unfoldable pub to_bytes : UserData → List ℕ
to_bytes ud =
    Info.to_bytes ud.info_field
    ++ (optional_address_bytes ud.address_field ++ App.to_bytes ud.app_data)

abbrev pub get_seq : UserData → ℕ
get_seq ud = Info.seq_num ud.info_field
