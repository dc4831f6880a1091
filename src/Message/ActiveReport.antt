-- ===== src/Message/ActiveReport.antt =====
-- src/protocol/app_data/active_report.rs: what the nodes report by themselves (AFN 06H).
use plc_service_rust.Base.{
  ℕ, ◌+◌, ◌*◌, ◌==◌, leb, if◌then◌else◌, List, Outcome, ok, err, ensure, index, slice, slice_from,
  ◌>>=◌, ◌>>◌, chunks, take,
}
use plc_service_rust.Protocol.Fault.{report, Error, primitive, app_data, AppDataError}
use plc_service_rust.Protocol.AppData.{AppData, check, units_length, Address}
use plc_service_rust.Message.{units_of, u16_of_slice}
use plc_service_rust.Message.Entries.{read_entries}
use plc_service_rust.Message.RouteGet.{address_at_start}

pub record ReportNodeInfoDetail : Type 0 where
  pub address : Address
  pub protocol_type : ℕ
  pub seq_num : ℕ

unfoldable pub report_detail_of_bytes : List ℕ → Outcome Error ReportNodeInfoDetail
report_detail_of_bytes data_ = do
  address ← address_at_start data_
  protocol_type ← index data_ 6
  seq_bytes ← slice data_ 7 9
  seq_num ← u16_of_slice seq_bytes
  ok (record { address = address; protocol_type = protocol_type; seq_num = seq_num })

pub record ReportNodeInfo : Type 0 where
  pub node_number : ℕ
  pub node_info_details : List ReportNodeInfoDetail

unfoldable pub node_report_of_app : AppData → Outcome Error ReportNodeInfo
node_report_of_app app = do
  ensure (leb 1 (units_length app.data_units))
      (app_data (AppDataError.data_length (units_length app.data_units)))
  units ← units_of app
  node_number ← index units 0
  check app report 1 (1 + node_number * 9)
  tail ← slice_from units 1
  details ← read_entries report_detail_of_bytes (take node_number (chunks tail 9))
  ok (record { node_number = node_number; node_info_details = details })

pub data WorkStatusType : Type 0 where
  meter search_ identify_area other : WorkStatusType

unfoldable pub work_status_of_u8 : ℕ → Outcome Error WorkStatusType
work_status_of_u8 b =
    if b == 1
    then ok meter
    else if b == 2
    then ok search_
    else if b == 3
    then ok identify_area
    else if b == 4
    then ok other
    else err (primitive b)

unfoldable pub work_status_of_app : AppData → Outcome Error WorkStatusType
work_status_of_app app = do
  check app report 3 1
  units ← units_of app
  b ← index units 0
  work_status_of_u8 b

pub record SlaveNodeCommInfo : Type 0 where
  pub address : Address
  pub protocol_type : ℕ

unfoldable pub slave_node_of_bytes : List ℕ → Outcome Error SlaveNodeCommInfo
slave_node_of_bytes data_ = do
  address ← address_at_start data_
  protocol_type ← index data_ 6
  ok (record { address = address; protocol_type = protocol_type })

pub record ReportNodeInfoAndDeviceType : Type 0 where
  pub node_number : ℕ
  pub node_info : ReportNodeInfoDetail
  pub device_type : ℕ
  pub slave_node_count : ℕ
  pub slave_node_number : ℕ
  pub slave_node_comm_infos : List SlaveNodeCommInfo

unfoldable pub device_report_of_app : AppData → Outcome Error ReportNodeInfoAndDeviceType
device_report_of_app app = do
  ensure (leb 13 (units_length app.data_units))
      (app_data (AppDataError.data_length (units_length app.data_units)))
  units ← units_of app
  slave_node_number ← index units 12
  check app report 4 (13 + slave_node_number * 7)
  tail ← slice_from units 13
  infos ← read_entries slave_node_of_bytes (take slave_node_number (chunks tail 7))
  node_number ← index units 0
  detail_bytes ← slice units 1 10
  node_info ← report_detail_of_bytes detail_bytes
  device_type ← index units 10
  slave_node_count ← index units 11
  ok (record {
    node_number = node_number;
    node_info = node_info;
    device_type = device_type;
    slave_node_count = slave_node_count;
    slave_node_number = slave_node_number;
    slave_node_comm_infos = infos;
  })

pub record SlaveNodeEvent : Type 0 where
  pub device_type : ℕ
  pub protocol_type : ℕ
  pub data_length : ℕ
  pub data_ : List ℕ

unfoldable pub event_of_app : AppData → Outcome Error SlaveNodeEvent
event_of_app app = do
  ensure (leb 3 (units_length app.data_units))
      (app_data (AppDataError.data_length (units_length app.data_units)))
  units ← units_of app
  data_length ← index units 2
  check app report 5 (3 + data_length)
  device_type ← index units 0
  protocol_type ← index units 1
  data_ ← slice units 3 (3 + data_length)
  ok (record {
    device_type = device_type;
    protocol_type = protocol_type;
    data_length = data_length;
    data_ = data_;
  })
