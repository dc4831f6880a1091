-- ===== src/Message/RouteGet/Status.antt =====
-- src/protocol/app_data/route_get.rs: the running status of the module.
use plc_service_rust.Base.{
  ℕ, ◌/◌, ◌^◌, ◌==◌, if◌then◌else◌, List, none, Outcome, ok, panic, index, slice, ◌>>=◌, ◌>>◌,
  bit_and,
}
use plc_service_rust.Protocol.Fault.{route_get, Error}
use plc_service_rust.Protocol.InfoField.{u16_of_le}
use plc_service_rust.Protocol.AppData.{AppData, check, new}
use plc_service_rust.Message.{units_of}

unfoldable pub running_status_to_app : Outcome Error AppData
running_status_to_app = new route_get 4 none

pub record RunningStatus : Type 0 where
  pub error_code : ℕ
  pub report_event_flag : ℕ
  pub work_flag : ℕ
  pub route_finish_flag : ℕ

abbrev pub running_status_of_u8 : ℕ → RunningStatus
running_status_of_u8 value = record {
  error_code = bit_and value 0xf0 / 2 ^ 4;
  report_event_flag = bit_and value 0x04 / 2 ^ 2;
  work_flag = bit_and value 0x02 / 2 ^ 1;
  route_finish_flag = bit_and value 0x01;
}

pub record WorkStatus : Type 0 where
  pub meter_status : ℕ
  pub area_identify_status : ℕ
  pub report_event_flag : ℕ
  pub register_permit : ℕ
  pub work_status : ℕ

abbrev pub work_status_of_u8 : ℕ → WorkStatus
work_status_of_u8 value = record {
  meter_status = bit_and value 0xc0 / 2 ^ 6;
  area_identify_status = bit_and value 0x08 / 2 ^ 3;
  report_event_flag = bit_and value 0x04 / 2 ^ 2;
  register_permit = bit_and value 0x02 / 2 ^ 1;
  work_status = bit_and value 0x01;
}

pub record RunningStatusResponse : Type 0 where
  pub running_status : RunningStatus
  pub total_node_number : ℕ
  pub meter_node_number : ℕ
  pub relay_meter_node_number : ℕ
  pub work_status : WorkStatus
  pub comm_speed : ℕ
  pub relay_level : List ℕ
  pub work_step : List ℕ

pub data CurrentStatus : Type 0 where
  metering searching upgrading other : CurrentStatus

-- `CurrentStatus::try_from(self.work_status.meter_status).unwrap()`.
unfoldable pub current_status : RunningStatusResponse → Outcome Error CurrentStatus
current_status r =
    if r.work_status.meter_status == 0
    then ok metering
    else if r.work_status.meter_status == 1
    then ok searching
    else if r.work_status.meter_status == 2
    then ok upgrading
    else if r.work_status.meter_status == 3
    then ok other
    else panic

unfoldable pub u16_at : List ℕ → ℕ → ℕ → Outcome Error ℕ
u16_at units i j = do lo ← index units i; hi ← index units j; ok (u16_of_le lo hi)

unfoldable pub running_status_of_app : AppData → Outcome Error RunningStatusResponse
running_status_of_app app = do
  check app route_get 4 16
  units ← units_of app
  b0 ← index units 0
  total ← u16_at units 1 2
  meters ← u16_at units 3 4
  relays ← u16_at units 5 6
  b7 ← index units 7
  speed ← u16_at units 8 9
  relay_level ← slice units 10 13
  work_step ← slice units 13 16
  ok (record {
    running_status = running_status_of_u8 b0;
    total_node_number = total;
    meter_node_number = meters;
    relay_meter_node_number = relays;
    work_status = work_status_of_u8 b7;
    comm_speed = speed;
    relay_level = relay_level;
    work_step = work_step;
  })
