-- ===== src/Message/RouteGet.antt =====
-- src/protocol/app_data/route_get.rs: queries of the nodes (AFN 10H), the responses with text left
-- out.
pub mod Lines
pub mod Network
pub mod Status
pub mod ModuleIds
use plc_service_rust.Base.{
  ℕ, zero, suc, ◌+◌, ◌-◌, ◌*◌, ◌/◌, ◌%◌, ◌^◌, ◌<◌, ◌≤◌, ◌==◌, ==_refl, ==_iff, not_both, ltb, leb,
  lt→ltb, le→ltb_false, le→leb, lt→leb_false, ne→==_false, if◌then◌else◌, List, [], ◌∷◌, ◌++◌, map,
  length, length-append, Option, none, some, Outcome, ok, err, panic, ensure, index, slice,
  slice_from, ◌>>=◌, ◌>>◌, ◌≡◌, ◌≢◌, refl, sym, ap, ap₂, ◌∙◌, arith, Bool, true, false,
  slice-append, get_elem?, get_elem?-append, unwrap, unwrap_result, Bool-cases, inl, inr, chunks,
  chunks_loop, bit_and, All, take, drop,
}
use plc_service_rust.Protocol.Fault.{
  Afn, answer, init, data_forward, query_data, ctrl_cmd, route_get, route_set, route_ctrl,
  route_data_forward, route_data_read, file_transfer, cocurrent_read_meter, Error, primitive,
  app_data, AppDataError,
}
use plc_service_rust.Protocol.InfoField.{u16_of_le, u16_to_le}
use plc_service_rust.Protocol.AppData.{
  AppData, check, new, units_length, Address, address_to_bytes, address_of_bytes,
}
use plc_service_rust.Protocol.AppData.Check.{
  made, new-made, check-made, check-made_length, check-counted,
}
use plc_service_rust.Message.{units_of, u16_of_slice, u32_of_be_slice, u32_of_le_slice, u32_to_le}
use plc_service_rust.Message.Entries.{
  read_entries, entries_to_bytes, Layout, read_entries-chunks_loop, length-entries_to_bytes,
}
use plc_service_rust.Protocol.AppData.Codec.{
  AddressFits, length-address_to_bytes, address_of_bytes-address_to_bytes,
}

-- The requests for a page of nodes all have this shape.
pub record PageRequest : Type 0 where
  pub start_seq : ℕ
  pub node_number : ℕ

unfoldable pub page_to_app : ℕ → PageRequest → Outcome Error AppData
page_to_app query r = new route_get query (some (u16_to_le r.start_seq ++ (r.node_number ∷ [])))

abbrev pub query_node_info_to_app : PageRequest → Outcome Error AppData
query_node_info_to_app r = page_to_app 2 r

abbrev pub slave_module_id_to_app : PageRequest → Outcome Error AppData
slave_module_id_to_app r = page_to_app 7 r

abbrev pub net_topology_to_app : PageRequest → Outcome Error AppData
net_topology_to_app r = page_to_app 21 r

abbrev pub query_node_line_info_to_app : PageRequest → Outcome Error AppData
query_node_line_info_to_app r = page_to_app 31 r

abbrev pub network_node_info_to_app : PageRequest → Outcome Error AppData
network_node_info_to_app r = page_to_app 104 r

abbrev pub chip_info_to_app : PageRequest → Outcome Error AppData
chip_info_to_app r = page_to_app 112 r

unfoldable pub query_node_number_to_app : Outcome Error AppData
query_node_number_to_app = new route_get 1 none

pub record QueryNodeNumberResponse : Type 0 where
  pub node_number : ℕ
  pub max_node_number : ℕ

unfoldable pub node_number_of_app : AppData → Outcome Error QueryNodeNumberResponse
node_number_of_app app = do
  check app route_get 1 4
  units ← units_of app
  number_bytes ← slice units 0 2
  number ← u16_of_slice number_bytes
  max_bytes ← slice units 2 4
  max_number ← u16_of_slice max_bytes
  ok (record { node_number = number; max_node_number = max_number })

-- `data[0..6].try_into().unwrap()`.
abbrev pub address_at_start : List ℕ → Outcome Error Address
address_at_start data_ = slice data_ 0 6 >>= λ bytes. unwrap_result (address_of_bytes bytes)

pub record NodeDetail : Type 0 where
  pub src_addr : Address
  pub listen_signal_quality : ℕ
  pub relay_level : ℕ
  pub comm_protocol_type : ℕ
  pub phase : ℕ

unfoldable pub node_detail_of_bytes : List ℕ → Outcome Error NodeDetail
node_detail_of_bytes data_ = do
  src_addr ← address_at_start data_
  b6 ← index data_ 6
  b7 ← index data_ 7
  ok (record {
    src_addr = src_addr;
    listen_signal_quality = b6 / 2 ^ 4;
    relay_level = bit_and b6 0x0F;
    comm_protocol_type = bit_and (b7 / 2 ^ 3) 0x07;
    phase = bit_and b7 0x07;
  })

pub record QueryNodeInfoResponse : Type 0 where
  pub total_node_number : ℕ
  pub node_number : ℕ
  pub node_infos : List NodeDetail

unfoldable pub node_info_of_app : AppData → Outcome Error QueryNodeInfoResponse
node_info_of_app app = do
  ensure (leb 3 (units_length app.data_units))
      (app_data (AppDataError.data_length (units_length app.data_units)))
  units ← units_of app
  node_number ← index units 2
  check app route_get 2 (node_number * 8 + 3)
  total_bytes ← slice units 0 2
  total ← u16_of_slice total_bytes
  tail ← slice_from units 3
  node_infos ← read_entries node_detail_of_bytes (take node_number (chunks tail 8))
  ok (record { total_node_number = total; node_number = node_number; node_infos = node_infos })

pub record NodeLineInfo : Type 0 where
  pub addr : Address
  pub info : ℕ

unfoldable pub line_of_bytes : List ℕ → Outcome Error NodeLineInfo
line_of_bytes data_ = do
  addr ← address_at_start data_
  info_bytes ← slice data_ 6 8
  info ← u16_of_slice info_bytes
  ok (record { addr = addr; info = info })

pub record QueryNodeLineInfoResponse : Type 0 where
  pub total_node_number : ℕ
  pub start_index : ℕ
  pub node_number : ℕ
  pub line_infos : List NodeLineInfo

unfoldable pub node_line_of_app : AppData → Outcome Error QueryNodeLineInfoResponse
node_line_of_app app = do
  ensure (leb 5 (units_length app.data_units))
      (app_data (AppDataError.data_length (units_length app.data_units)))
  units ← units_of app
  node_number ← index units 4
  check app route_get 31 (node_number * 8 + 5)
  total_bytes ← slice units 0 2
  total ← u16_of_slice total_bytes
  start_bytes ← slice units 2 4
  start ← u16_of_slice start_bytes
  tail ← slice_from units 5
  line_infos ← read_entries line_of_bytes (take node_number (chunks tail 8))
  ok (record {
    total_node_number = total;
    start_index = start;
    node_number = node_number;
    line_infos = line_infos;
  })

pub record IdInfoRequest : Type 0 where
  pub device_type : ℕ
  pub address : Address
  pub id_type : ℕ

unfoldable pub id_info_to_app : IdInfoRequest → Outcome Error AppData
id_info_to_app r =
    new route_get 40 (some (r.device_type ∷ address_to_bytes r.address ++ (r.id_type ∷ [])))

pub record IdInfoResponse : Type 0 where
  pub device_type : ℕ
  pub address : Address
  pub id_type : ℕ
  pub id_length : ℕ
  pub id_info : List ℕ

unfoldable pub id_info_of_app : AppData → Outcome Error IdInfoResponse
id_info_of_app app = do
  ensure (leb 9 (units_length app.data_units))
      (app_data (AppDataError.data_length (units_length app.data_units)))
  units ← units_of app
  id_length ← index units 8
  check app route_get 40 (id_length + 9)
  device_type ← index units 0
  addr_bytes ← slice units 1 7
  address ← address_of_bytes addr_bytes
  id_type ← index units 7
  id_info ← slice units 9 (9 + id_length)
  ok (record {
    device_type = device_type;
    address = address;
    id_type = id_type;
    id_length = id_length;
    id_info = id_info;
  })
