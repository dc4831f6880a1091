-- ===== src/Message/RouteGet/ModuleIds.antt =====
-- src/protocol/app_data/route_get.rs: the identities of the nodes' modules, in entries of different
-- lengths. A text of two bytes is its bytes in UTF-8.
pub mod Calm
pub mod Panics
use plc_service_rust.Base.{
  ℕ, zero, suc, ◌+◌, ◌-◌, ◌≤◌, ◌<◌, ◌==◌, leb, ltb, ◌&&◌, ◌||◌, none, leb→le, le→leb, if◌then◌else◌,
  String, List, [], ◌∷◌, Option, some, Outcome, ok, err, panic, ensure, index, slice, slice_from,
  unwrap, length, reverse, ==_iff, length-take, length-drop, take, drop, ◌>>=◌, ◌>>◌, Bool, true,
  false, ◌≡◌, ◌≢◌, refl, ap, arith,
}
use plc_service_rust.Protocol.Fault.{
  route_get, afn_eq, Error, primitive, app_data, AppDataError, Afn,
}
use plc_service_rust.Protocol.AppData.{
  AppData, check, as_fn_num, units_length, Address, address_of_bytes,
}
use plc_service_rust.Message.{units_of, u16_of_slice}
use plc_service_rust.Message.RouteGet.{address_at_start}

pub data ModuleIdFormat : Type 0 where
  combine bcd bin ascii : ModuleIdFormat

unfoldable pub format_of_u8 : ℕ → Outcome Error ModuleIdFormat
format_of_u8 b =
    if b == 0
    then ok combine
    else if b == 1
    then ok bcd
    else if b == 2
    then ok bin
    else if b == 3
    then ok ascii
    else err (primitive b)

pub record SlaveModuleIdInfo : Type 0 where
  pub address : Address
  pub device_type : ℕ
  pub factory_code : List ℕ
  pub id_format : ModuleIdFormat
  pub id_info : List ℕ

pub record SlaveModuleIdResponse : Type 0 where
  pub total_node_number : ℕ
  pub node_number : ℕ
  pub slave_module_id_infos : List SlaveModuleIdInfo

-- `String::from_utf8` of two bytes: two of ASCII, or a leading byte and a continuation byte.
abbrev pub is_utf8 : ℕ → ℕ → Bool
is_utf8 a b =
    (ltb a 0x80 && ltb b 0x80) || ((leb 0xc2 a && leb a 0xdf) && (leb 0x80 b && leb b 0xbf))

abbrev pub from_utf8 : ℕ → ℕ → Option (List ℕ)
from_utf8 a b = if is_utf8 a b then some (a ∷ b ∷ []) else none

unfoldable pub module_id_of_bytes : List ℕ → Outcome Error SlaveModuleIdInfo
module_id_of_bytes data_ = do
  address ← address_at_start data_
  device_type ← index data_ 6
  b8 ← index data_ 8
  b7 ← index data_ 7
  factory_code ← unwrap (from_utf8 b8 b7)
  b10 ← index data_ 10
  id_format ← format_of_u8 b10
  id_info ← slice_from data_ 11
  ok (record {
    address = address;
    device_type = device_type;
    factory_code = factory_code;
    id_format = id_format;
    id_info = id_info;
  })

-- `node_number` rounds from an index on: the index after them, and the entries.
unfoldable pub module_ids : ℕ → List ℕ → ℕ → Outcome Error (ℕ × List SlaveModuleIdInfo)
module_ids zero units i = ok (i, [])
module_ids (suc n) units i = do
  ensure (leb (i + 11) (length units)) (app_data (AppDataError.data_length (length units)))
  id_length ← index units (i + 9)
  ensure (leb (i + (id_length + 11)) (length units))
      (app_data (AppDataError.data_length (length units)))
  piece ← slice units i (i + (id_length + 11))
  info ← module_id_of_bytes piece
  (j, rest) ← module_ids n units (i + (id_length + 11))
  ok (j, info ∷ rest)

unfoldable pub slave_module_id_of_app : AppData → Outcome Error SlaveModuleIdResponse
slave_module_id_of_app app = do
  ensure (leb 3 (units_length app.data_units))
      (app_data (AppDataError.data_length (units_length app.data_units)))
  units ← units_of app
  node_number ← index units 2
  (last, infos) ← module_ids node_number units 3
  check app route_get 7 last
  total_bytes ← slice units 0 2
  total ← u16_of_slice total_bytes
  ok (record {
    total_node_number = total;
    node_number = node_number;
    slave_module_id_infos = infos;
  })
