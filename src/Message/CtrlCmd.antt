-- ===== src/Message/CtrlCmd.antt =====
-- src/protocol/app_data/ctrl_cmd.rs, init.rs and meter_ctrl.rs: commands to the module (AFN 05H, 01H
-- and 12H).
use plc_service_rust.Base.{ℕ, ◌%◌, List, [], ◌∷◌, length, none, some, Outcome}
use plc_service_rust.Protocol.Fault.{init, ctrl_cmd, route_ctrl, Error}
use plc_service_rust.Protocol.AppData.{AppData, new, Address, address_to_bytes}

pub record BroadcastRequest : Type 0 where
  pub protocol_type : ℕ
  pub message : List ℕ

unfoldable pub broadcast_to_app : BroadcastRequest → Outcome Error AppData
broadcast_to_app r = new ctrl_cmd 3 (some (r.protocol_type ∷ length r.message % 256 ∷ r.message))

unfoldable pub address_set_to_app : Address → Outcome Error AppData
address_set_to_app address = new ctrl_cmd 1 (some (address_to_bytes address))

unfoldable pub identify_area_to_app : ℕ → Outcome Error AppData
identify_area_to_app enable_flag = new ctrl_cmd 6 (some (enable_flag ∷ []))

unfoldable pub frequency_to_app : ℕ → Outcome Error AppData
frequency_to_app frequency = new ctrl_cmd 16 (some (frequency ∷ []))

unfoldable pub slave_report_to_app : ℕ → Outcome Error AppData
slave_report_to_app enable = new ctrl_cmd 2 (some (enable ∷ []))

pub data InitOperation : Type 0 where
  hard params data_ : InitOperation

abbrev pub operation_to_u8 : InitOperation → ℕ
operation_to_u8 hard = 1
operation_to_u8 params = 2
operation_to_u8 data_ = 3

unfoldable pub init_to_app : InitOperation → Outcome Error AppData
init_to_app operation = new init (operation_to_u8 operation) none

pub data MeterControl : Type 0 where
  restart pause resume : MeterControl

abbrev pub control_to_u8 : MeterControl → ℕ
control_to_u8 restart = 1
control_to_u8 pause = 2
control_to_u8 resume = 3

-- `RestartMetering`, `PauseMetering` and `ResumeMetering`.
unfoldable pub metering_to_app : MeterControl → Outcome Error AppData
metering_to_app control = new route_ctrl (control_to_u8 control) none
