-- ===== src/Message/RouteGet/Network.antt =====
-- src/protocol/app_data/route_get.rs: the network's topology, its neighbours, its size, the chips.
use plc_service_rust.Base.{
  ℕ, ◌+◌, ◌*◌, ◌/◌, ◌^◌, leb, List, [], ◌∷◌, none, Outcome, ok, ensure, index, slice, slice_from,
  ◌>>=◌, ◌>>◌, chunks, bit_and, take, unwrap_result,
}
use plc_service_rust.Protocol.Fault.{route_get, Error, app_data, AppDataError}
use plc_service_rust.Protocol.InfoField.{u16_of_le}
use plc_service_rust.Protocol.AppData.{AppData, check, new, units_length, Address, address_of_bytes}
use plc_service_rust.Message.{units_of, u16_of_slice}
use plc_service_rust.Message.Entries.{read_entries}
use plc_service_rust.Message.RouteGet.{address_at_start}

pub record NetTopologyInfo : Type 0 where
  pub address : Address
  pub node_flag : ℕ
  pub proxy_node_flag : ℕ
  pub node_level : ℕ
  pub node_role : ℕ

unfoldable pub topology_of_bytes : List ℕ → Outcome Error NetTopologyInfo
topology_of_bytes data_ = do
  address ← address_at_start data_
  flag_bytes ← slice data_ 6 8
  node_flag ← u16_of_slice flag_bytes
  proxy_bytes ← slice data_ 8 10
  proxy_node_flag ← u16_of_slice proxy_bytes
  b10 ← index data_ 10
  ok (record {
    address = address;
    node_flag = node_flag;
    proxy_node_flag = proxy_node_flag;
    node_level = bit_and b10 0x0F;
    node_role = b10 / 2 ^ 4;
  })

pub record NetTopologyResponse : Type 0 where
  pub total_node_number : ℕ
  pub start_index : ℕ
  pub node_number : ℕ
  pub net_topology_infos : List NetTopologyInfo

unfoldable pub net_topology_of_app : AppData → Outcome Error NetTopologyResponse
net_topology_of_app app = do
  ensure (leb 5 (units_length app.data_units))
      (app_data (AppDataError.data_length (units_length app.data_units)))
  units ← units_of app
  node_number ← index units 4
  check app route_get 21 (node_number * 11 + 5)
  tail ← slice_from units 5
  net_topology_infos ← read_entries topology_of_bytes (take node_number (chunks tail 11))
  total_bytes ← slice units 0 2
  total ← u16_of_slice total_bytes
  start_bytes ← slice units 2 4
  start ← u16_of_slice start_bytes
  ok (record {
    total_node_number = total;
    start_index = start;
    node_number = node_number;
    net_topology_infos = net_topology_infos;
  })

unfoldable pub multiple_net_to_app : Outcome Error AppData
multiple_net_to_app = new route_get 111 none

-- `u32::from_le_bytes([a, b, c, 0])` of three bytes in a row.
unfoldable pub u24_at : List ℕ → ℕ → Outcome Error ℕ
u24_at data_ i = do
  b0 ← index data_ i
  b1 ← index data_ (i + 1)
  b2 ← index data_ (i + 2)
  ok (b0 + b1 * 256 + b2 * 65536)

pub record MultipleNetResponse : Type 0 where
  pub total_node_number : ℕ
  pub node_net_identity : ℕ
  pub address : Address
  pub multiple_net_infos : List ℕ

unfoldable pub multiple_net_of_app : AppData → Outcome Error MultipleNetResponse
multiple_net_of_app app = do
  ensure (leb 10 (units_length app.data_units))
      (app_data (AppDataError.data_length (units_length app.data_units)))
  units ← units_of app
  total ← index units 0
  check app route_get 111 (total * 3 + 10)
  tail ← slice_from units 10
  multiple_net_infos ← read_entries (λ piece. u24_at piece 0) (take total (chunks tail 3))
  node_net_identity ← u24_at units 1
  address_bytes ← slice units 4 10
  address ← unwrap_result (address_of_bytes address_bytes)
  ok (record {
    total_node_number = total;
    node_net_identity = node_net_identity;
    address = address;
    multiple_net_infos = multiple_net_infos;
  })

unfoldable pub network_size_to_app : Outcome Error AppData
network_size_to_app = new route_get 9 none

unfoldable pub network_size_of_app : AppData → Outcome Error ℕ
network_size_of_app app = do
  check app route_get 9 2
  units ← units_of app
  lo ← index units 0
  hi ← index units 1
  ok (u16_of_le lo hi)

-- `software_version` before it is written as text.
pub record ChipInformation : Type 0 where
  pub address : Address
  pub device_type : ℕ
  pub id_info : List ℕ
  pub software_version : List ℕ

unfoldable pub chip_of_bytes : List ℕ → Outcome Error ChipInformation
chip_of_bytes data_ = do
  address ← address_at_start data_
  device_type ← index data_ 6
  id_info ← slice data_ 7 31
  b32 ← index data_ 32
  b31 ← index data_ 31
  ok (record {
    address = address;
    device_type = device_type;
    id_info = id_info;
    software_version = b32 ∷ b31 ∷ [];
  })

pub record ChipInfoResponse : Type 0 where
  pub total_node_number : ℕ
  pub start_seq : ℕ
  pub node_number : ℕ
  pub chip_infos : List ChipInformation

unfoldable pub chip_info_of_app : AppData → Outcome Error ChipInfoResponse
chip_info_of_app app = do
  ensure (leb 5 (units_length app.data_units))
      (app_data (AppDataError.data_length (units_length app.data_units)))
  units ← units_of app
  node_number ← index units 4
  check app route_get 112 (node_number * 33 + 5)
  total_bytes ← slice units 0 2
  total ← u16_of_slice total_bytes
  start_bytes ← slice units 2 4
  start ← u16_of_slice start_bytes
  tail ← slice_from units 5
  chip_infos ← read_entries chip_of_bytes (chunks tail 33)
  ok (record {
    total_node_number = total;
    start_seq = start;
    node_number = node_number;
    chip_infos = chip_infos;
  })
