-- ===== src/Message/MeterReading.antt =====
-- src/protocol/app_data/meter_reading.rs: concurrent meter reading (AFN F1H).
use plc_service_rust.Base.{
  ℕ, ◌+◌, ◌*◌, ◌%◌, ◌==◌, leb, le→leb, if◌then◌else◌, List, ◌∷◌, ◌++◌, length, some, Outcome, ok,
  err, ensure, index, slice, slice_from, ◌>>=◌, ◌>>◌, ◌≡◌, refl, arith, true, Bool-cases, inl, inr,
}
use plc_service_rust.Protocol.Fault.{cocurrent_read_meter, Error, app_data, AppDataError}
use plc_service_rust.Protocol.InfoField.{u16_to_le}
use plc_service_rust.Protocol.AppData.{AppData, check, new, units_length}
use plc_service_rust.Protocol.AppData.Check.{made, check-counted}
use plc_service_rust.Message.{units_of, u16_of_slice}

pub record ConcurrentReadMeterRequest : Type 0 where
  pub protocol_type : ℕ
  pub reserve : ℕ
  pub message : List ℕ

abbrev pub new_read_meter : ℕ → List ℕ → ConcurrentReadMeterRequest
new_read_meter protocol_type message = record {
  protocol_type = protocol_type;
  reserve = 0;
  message = message;
}

-- The length is cut to a `u16`.
unfoldable pub read_meter_to_app : ConcurrentReadMeterRequest → Outcome Error AppData
read_meter_to_app r =
    new cocurrent_read_meter 1
      (some (r.protocol_type ∷ r.reserve ∷ u16_to_le (length r.message % 65536) ++ r.message))

pub record ConcurrentReadMeterResponse : Type 0 where
  pub protocol_type : ℕ
  pub message_len : ℕ
  pub message : List ℕ

unfoldable pub read_meter_of_app : AppData → Outcome Error ConcurrentReadMeterResponse
read_meter_of_app app = do
  ensure (leb 3 (units_length app.data_units))
      (app_data (AppDataError.data_length (units_length app.data_units)))
  units ← units_of app
  len_bytes ← slice units 1 3
  message_len ← u16_of_slice len_bytes
  check app cocurrent_read_meter 1 (3 + message_len)
  protocol_type ← index units 0
  message ← slice_from units 3
  ok (record { protocol_type = protocol_type; message_len = message_len; message = message })

-- A response is accepted if and only if its two length bytes count the bytes behind them, low byte
-- first; any other with at least three bytes of data is refused for its length.
pub read_meter_of_app-made :
    (p lo hi : ℕ) (message : List ℕ)
    → read_meter_of_app (made cocurrent_read_meter 1 (some (p ∷ lo ∷ hi ∷ message))) ≡ (
        if length message == lo + hi * 256
        then ok (record { protocol_type = p; message_len = lo + hi * 256; message = message })
        else err (app_data (AppDataError.data_length (3 + length message))))
unfolding read_meter_of_app
read_meter_of_app-made p lo hi message =
    let units : List ℕ = p ∷ lo ∷ hi ∷ message in
    let long : leb 3 (length units) ≡ true = le→leb _ _ (omega arith) in
    let counted =
      check-counted cocurrent_read_meter 1 3 (lo + hi * 256) (length message) (some units)
        (omega arith) (omega arith) (omega arith) in
    elim (Bool-cases (length message == lo + hi * 256)) [
      | inl e ↦ rw (long, counted, e) refl
      | inr e ↦ rw (long, counted, e) refl
    ]
