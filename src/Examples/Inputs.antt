-- ===== src/Examples/Inputs.antt =====
-- Concrete values that the examples share: the frame of the test of src/protocol/app_data/init.rs,
-- `680f00430000000000000102004616`, and addresses.
use plc_service_rust.Base.{ℕ, List, [], ◌∷◌, none, some, arith, refl, false}
use plc_service_rust.Protocol.Fault.{init, data_forward}
use plc_service_rust.Protocol.AppData.{Address, AppData}
use plc_service_rust.Protocol.AppData.Flag.{flag_values}
use plc_service_rust.Protocol.AppData.Codec.{IsCanonical}
use plc_service_rust.Protocol.UserData.{AddressField}
use plc_service_rust.Service.Response.{Texts}
use plc_service_rust.Protocol.Frame.{Frame}
use plc_service_rust.Protocol.Frame.Build.{built}

abbrev pub init_app : AppData
init_app = record { afn = init; data_flag = flag_values 2; data_units = none }

pub init_app-IsCanonical : IsCanonical init_app 2
init_app-IsCanonical = record { positive = omega arith; fits = omega arith; flag = refl }

abbrev pub forward_app : AppData
forward_app = record {
  afn = data_forward;
  data_flag = flag_values 1;
  data_units = some (7 ∷ 8 ∷ []);
}

pub forward_app-IsCanonical : IsCanonical forward_app 1
forward_app-IsCanonical = record { positive = omega arith; fits = omega arith; flag = refl }

abbrev pub node : ℕ → Address
node n = record { bytes = n ∷ 2 ∷ 3 ∷ 4 ∷ 5 ∷ 6 ∷ [] }

abbrev pub one_relay : AddressField
one_relay = record {
  src_address = node 1;
  relay_address = some (node 7 ∷ []);
  dst_address = node 9;
}

abbrev pub init_bytes : List ℕ
init_bytes =
    0x68 ∷ 0x0f ∷ 0x00 ∷ 0x43 ∷ 0 ∷ 0 ∷ 0 ∷ 0 ∷ 0 ∷ 0 ∷ 0x01 ∷ 0x02 ∷ 0x00 ∷ 0x46 ∷ 0x16 ∷ []

abbrev pub init_frame : Frame
init_frame = built false 0 none init_app

abbrev pub texts : Texts
texts = record { decode = λ s. some (1 ∷ 2 ∷ 3 ∷ 4 ∷ 5 ∷ 6 ∷ []); parse_u8 = λ s. some 2 }
