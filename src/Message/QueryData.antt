-- ===== src/Message/QueryData.antt =====
-- src/protocol/app_data/query_data.rs: queries of the module (AFN 03H), the responses with text and
-- dates left out.
use plc_service_rust.Base.{
  ℕ, ◌+◌, ◌%◌, leb, List, [], ◌∷◌, length, none, some, Outcome, ok, ensure, index, slice,
  slice_from, ◌>>=◌, ◌>>◌, ◌≡◌, refl, sym, ap, ◌∙◌, arith, slice-append, append-nil, unwrap_result,
}
use plc_service_rust.Protocol.Fault.{query_data, Error, app_data, AppDataError}
use plc_service_rust.Protocol.AppData.{
  AppData, check, new, units_length, Address, address_to_bytes, address_of_bytes,
}
use plc_service_rust.Protocol.AppData.Check.{made, check-made}
use plc_service_rust.Message.{units_of, u16_of_slice}
use plc_service_rust.Protocol.AppData.Codec.{
  AddressFits, length-address_to_bytes, address_of_bytes-address_to_bytes,
}

unfoldable pub comm_module_info_to_app : Outcome Error AppData
comm_module_info_to_app = new query_data 1 none

unfoldable pub master_address_to_app : Outcome Error AppData
master_address_to_app = new query_data 4 none

unfoldable pub module_info_to_app : Outcome Error AppData
module_info_to_app = new query_data 10 none

unfoldable pub master_id_info_to_app : Outcome Error AppData
master_id_info_to_app = new query_data 12 none

unfoldable pub get_frequency_to_app : Outcome Error AppData
get_frequency_to_app = new query_data 16 none

unfoldable pub master_address_of_app : AppData → Outcome Error Address
master_address_of_app app = do
  check app query_data 4 6
  units ← units_of app
  bytes ← slice units 0 6
  unwrap_result (address_of_bytes bytes)

unfoldable pub get_frequency_of_app : AppData → Outcome Error ℕ
get_frequency_of_app app = do check app query_data 16 1; units ← units_of app; index units 0

pub record BroadcastDelayRequest : Type 0 where
  pub protocol_type : ℕ
  pub message : List ℕ

unfoldable pub delay_to_app : BroadcastDelayRequest → Outcome Error AppData
delay_to_app r = new query_data 9 (some (r.protocol_type ∷ length r.message % 256 ∷ r.message))

pub record BroadcastDelayResponse : Type 0 where
  pub delay : ℕ
  pub protocol_type : ℕ
  pub message_len : ℕ
  pub message : List ℕ

unfoldable pub delay_of_app : AppData → Outcome Error BroadcastDelayResponse
delay_of_app app = do
  ensure (leb 4 (units_length app.data_units))
      (app_data (AppDataError.data_length (units_length app.data_units)))
  units ← units_of app
  message_len ← index units 3
  check app query_data 9 (4 + message_len)
  delay_bytes ← slice units 0 2
  delay ← u16_of_slice delay_bytes
  protocol_type ← index units 2
  message ← slice_from units 4
  ok (record {
    delay = delay;
    protocol_type = protocol_type;
    message_len = message_len;
    message = message;
  })

-- The address of the module is read back from the six bytes of the response, last byte first.
pub master_address_of_app-made :
    (address : Address)
    → AddressFits address
    → master_address_of_app (made query_data 4 (some (address_to_bytes address))) ≡ ok address
unfolding master_address_of_app
master_address_of_app-made address h =
    let wide : length (address_to_bytes address) ≡ 6 = length-address_to_bytes address h in
    let whole : slice {E = Error} (address_to_bytes address) 0 6 ≡ ok (address_to_bytes address) =
      ap (λ b. slice {E = Error} b 0 6) (sym (append-nil (address_to_bytes address)))
      ∙ slice-append [] (address_to_bytes address) [] 0 6 refl (omega (arith, wide)) in
    rw
      (
        check-made query_data 4 6 (some (address_to_bytes address)) (omega arith) (omega arith)
            wide,
        whole,
        address_of_bytes-address_to_bytes address h,
      )
      refl
