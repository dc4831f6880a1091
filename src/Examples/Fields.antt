-- ===== src/Examples/Fields.antt =====
-- Information fields, addresses, data flags and application data.
use plc_service_rust.Base.{ℕ, ◌≡◌, refl, List, [], ◌∷◌, ok, panic, arith, ◌>>=◌}
use plc_service_rust.Base.Bits.{shl_u8}
use plc_service_rust.Protocol.Fault.{init, afn_to_u8, afn_of_u8}
use plc_service_rust.Protocol.InfoField as Info
use plc_service_rust.Protocol.InfoField.{InfoField, InfoFieldType, InfoFieldDown}
use plc_service_rust.Protocol.InfoField.Codec as InfoCodec
use plc_service_rust.Protocol.InfoField.Codec.{Fits}
use plc_service_rust.Protocol.AppData as App
use plc_service_rust.Protocol.AppData.{
  Address, address_of_bytes, address_to_bytes, AppData, as_fn_num, flag_of_fn_num, units_bytes,
}
use plc_service_rust.Protocol.AppData.Flag.{IsLowestBit, as_fn_num-flag_of_fn_num}
use plc_service_rust.Protocol.AppData.Codec as AppCodec
use plc_service_rust.Protocol.AppData.Codec.{AddressFits}
use plc_service_rust.Protocol.UserData.{address_field_to_bytes, address_field_of_bytes}
use plc_service_rust.Protocol.UserData.AddressCodec.{address_field_of_bytes-address_field_to_bytes}
use plc_service_rust.Examples.Inputs.{init_app, init_app-IsCanonical, one_relay}

-- The field of the tests of src/protocol/info_field.rs.
abbrev tested : InfoFieldDown
tested = record {
  route_flag = 1;
  node_flag = 1;
  comm_model_mark = 1;
  conflict_check = 1;
  relay_level = 1;
  channel_flag = 10;
  ecc = 2;
  answer_bytes = 3;
  speed = 1284;
  speed_unit_flag = 1;
  seq_num = 6;
}

abbrev tested_bytes : List ℕ
tested_bytes = 0x1F ∷ 0x2A ∷ 0x03 ∷ 0x04 ∷ 0x85 ∷ 0x06 ∷ []

tested_read : Info.from_bytes InfoFieldType.down tested_bytes ≡ ok (InfoField.down tested)
unfolding Info.from_bytes Info.down_of_bytes
tested_read = refl

tested_written : Info.to_bytes (InfoField.down tested) ≡ tested_bytes
unfolding Info.to_bytes
tested_written = refl

from_bytes-to_bytes_info_example :
    Info.from_bytes InfoFieldType.down (Info.to_bytes (InfoField.down tested))
    ≡ ok (InfoField.down tested)
from_bytes-to_bytes_info_example =
    InfoCodec.from_bytes-to_bytes_info (InfoField.down tested) (omega arith)

from_bytes_total_example :
    (f : InfoField) × (Info.from_bytes InfoFieldType.up tested_bytes ≡ ok f)
    × (Info.get_type f ≡ InfoFieldType.up)
    × Fits f
from_bytes_total_example =
    InfoCodec.from_bytes_total InfoFieldType.up tested_bytes (omega arith) refl

as_fn_num-flag_of_fn_num_example : (flag_of_fn_num 19 >>= as_fn_num) ≡ ok 19
as_fn_num-flag_of_fn_num_example = as_fn_num-flag_of_fn_num 19 (omega arith) (omega arith)

of_bytes-to_bytes_app_example : App.of_bytes (App.to_bytes init_app) ≡ ok init_app
of_bytes-to_bytes_app_example =
    AppCodec.of_bytes-to_bytes_app init_app 2 init_app-IsCanonical (λ e. cc)

-- Two mark bits are set: the function number is that of the lower one.
two_marks : App.of_bytes (1 ∷ 6 ∷ 0 ∷ []) ≡ ok init_app
unfolding App.of_bytes App.flag_of_bytes App.as_fn_num App.find_mark App.new App.flag_of_fn_num
    afn_of_u8
two_marks = refl

of_bytes_decodes_example :
    (i : ℕ) × IsLowestBit 6 i
    × (afn_to_u8 init ≡ 1)
    × (init_app.data_flag ≡ record { type_ = 0; mark = shl_u8 1 i })
    × (units_bytes init_app.data_units ≡ [])
of_bytes_decodes_example = AppCodec.of_bytes_decodes 1 6 0 [] init_app (omega arith) two_marks

of_bytes_no_mark_example : App.of_bytes (1 ∷ 0 ∷ 0 ∷ []) ≡ panic
of_bytes_no_mark_example = AppCodec.of_bytes_no_mark init 0 []

address_field_example : address_field_of_bytes (address_field_to_bytes one_relay) ≡ ok one_relay
address_field_example =
    address_field_of_bytes-address_field_to_bytes one_relay
      (record { src = refl; dst = refl; relays = (omega arith, omega arith) })
