-- ===== src/Message/DataTrans.antt =====
-- src/protocol/app_data/data_trans.rs: a frame that is passed on (AFN 02H).
use plc_service_rust.Base.{
  ℕ, ◌+◌, ◌%◌, ◌==◌, ==_refl, ltb, leb, le→leb, if◌then◌else◌, List, ◌∷◌, length, some, Outcome, ok,
  err, ensure, index, slice_from, ◌>>=◌, ◌>>◌, ◌≡◌, refl, arith, true, false, Bool-cases, inl, inr,
}
use plc_service_rust.Protocol.Fault.{data_forward, Error, app_data, AppDataError}
use plc_service_rust.Protocol.AppData.{AppData, check, new, units_length}
use plc_service_rust.Protocol.AppData.Check.{made, new-made, check-counted}
use plc_service_rust.Message.{units_of}

pub record TransferFrameRequest : Type 0 where
  pub protocol_type : ℕ
  pub message : List ℕ

-- The length byte is cut to a `u8`.
unfoldable pub transfer_to_app : TransferFrameRequest → Outcome Error AppData
transfer_to_app r = new data_forward 1 (some (r.protocol_type ∷ length r.message % 256 ∷ r.message))

pub record TransferFrameResponse : Type 0 where
  pub protocol_type : ℕ
  pub message_len : ℕ
  pub message : List ℕ

unfoldable pub transfer_of_app : AppData → Outcome Error TransferFrameResponse
transfer_of_app app = do
  ensure (leb 2 (units_length app.data_units))
      (app_data (AppDataError.data_length (units_length app.data_units)))
  units ← units_of app
  message_len ← index units 1
  check app data_forward 1 (2 + message_len)
  protocol_type ← index units 0
  message ← slice_from units 2
  ok (record { protocol_type = protocol_type; message_len = message_len; message = message })

transfer_of_app-made :
    (p n : ℕ) (message : List ℕ)
    → transfer_of_app (made data_forward 1 (some (p ∷ n ∷ message))) ≡ (
        if length message == n
        then ok (record { protocol_type = p; message_len = n; message = message })
        else err (app_data (AppDataError.data_length (2 + length message))))
unfolding transfer_of_app
transfer_of_app-made p n message =
    let units : List ℕ = p ∷ n ∷ message in
    let long : leb 2 (length units) ≡ true = le→leb _ _ (omega arith) in
    let counted =
      check-counted data_forward 1 2 n (length message) (some units) (omega arith) (omega arith)
        (omega arith) in
    elim (Bool-cases (length message == n)) [
      | inl e ↦ rw (long, counted, e) refl
      | inr e ↦ rw (long, counted, e) refl
    ]

-- A message of at most 255 bytes is read back whole from the application data of its request; a
-- longer one, whose length byte is cut, is refused for its length.
pub transfer_of_app-transfer_to_app :
    (r : TransferFrameRequest)
    → (transfer_to_app r >>= transfer_of_app) ≡ (
        if ltb (length r.message) 256
        then ok (record {
          protocol_type = r.protocol_type;
          message_len = length r.message;
          message = r.message;
        })
        else err (app_data (AppDataError.data_length (2 + length r.message))))
unfolding transfer_to_app
transfer_of_app-transfer_to_app r =
    let len : ℕ = length r.message in
    let read = transfer_of_app-made r.protocol_type (len % 256) r.message in
    rw (new-made data_forward 1 (some (r.protocol_type ∷ len % 256 ∷ r.message)) (omega arith))
      (elim (Bool-cases (ltb len 256)) [
        | inl e ↦ let cut : len % 256 ≡ len = ground arith in rw (read, e, cut, ==_refl len) refl
        | inr e ↦ let cut : (len == len % 256) ≡ false = ground arith in rw (read, e, cut) refl
      ])
