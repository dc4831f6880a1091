-- ===== src/Message/RouteDataRead.antt =====
-- src/protocol/app_data/route_data_read.rs: reads of the clock and of the delay (AFN 14H). The clock
-- comes from the crate chrono: its fields are given.
use plc_service_rust.Base.{
  ℕ, ◌+◌, ◌%◌, ◌<◌, leb, List, [], ◌∷◌, length, some, Outcome, ok, ensure, index, slice, slice_from,
  ◌>>=◌, ◌>>◌, ◌≡◌, arith,
}
use plc_service_rust.Protocol.Fault.{route_data_read, Error, app_data, AppDataError}
use plc_service_rust.Protocol.InfoField.{u16_of_le}
use plc_service_rust.Protocol.AppData.{AppData, check, new, units_length, Address, address_of_bytes}
use plc_service_rust.Protocol.AppData.Check.{made, new-made}
use plc_service_rust.Message.{units_of}
use plc_service_rust.Protocol.UserData.{dec_to_hex}
use plc_service_rust.Message.Bcd.{bcd, dec_to_hex-bcd}

-- `Local::now()`: the fields that are used of it.
pub record Clock : Type 0 where
  pub second : ℕ
  pub minute : ℕ
  pub hour : ℕ
  pub day : ℕ
  pub month : ℕ
  pub year : ℕ

unfoldable pub clock_to_app : Clock → Outcome Error AppData
clock_to_app now = do
  second ← dec_to_hex now.second
  minute ← dec_to_hex now.minute
  hour ← dec_to_hex now.hour
  day ← dec_to_hex now.day
  month ← dec_to_hex now.month
  year ← dec_to_hex (now.year % 100)
  new route_data_read 2 (some (second ∷ minute ∷ hour ∷ day ∷ month ∷ year ∷ []))

pub record CommDelayRequest : Type 0 where
  pub node_addr : Address
  pub delay : ℕ
  pub message_len : ℕ
  pub message : List ℕ

unfoldable pub comm_delay_of_app : AppData → Outcome Error CommDelayRequest
comm_delay_of_app app = do
  ensure (leb 9 (units_length app.data_units))
      (app_data (AppDataError.data_length (units_length app.data_units)))
  units ← units_of app
  message_len ← index units 8
  check app route_data_read 3 (9 + message_len)
  addr_bytes ← slice units 0 6
  node_addr ← address_of_bytes addr_bytes
  lo ← index units 6
  hi ← index units 7
  message ← slice_from units 9
  ok (record {
    node_addr = node_addr;
    delay = u16_of_le lo hi;
    message_len = message_len;
    message = message;
  })

pub record CommDelayResponse : Type 0 where
  pub message_len : ℕ
  pub message : List ℕ

abbrev pub new_comm_delay : List ℕ → CommDelayResponse
new_comm_delay message = record { message_len = length message % 256; message = message }

unfoldable pub comm_delay_to_app : CommDelayResponse → Outcome Error AppData
comm_delay_to_app r = new route_data_read 3 (some (r.message_len ∷ r.message))

-- A clock whose second, minute, hour, day and month are below 100 is sent in binary-coded decimal,
-- two digits to the byte, the year with its last two digits.
pub clock_to_app_lem :
    (now : Clock)
    → now.second < 100
    → now.minute < 100
    → now.hour < 100
    → now.day < 100
    → now.month < 100
    → clock_to_app now
      ≡ ok (
          made route_data_read 2 (
            some (
              bcd now.second
              ∷ bcd now.minute
              ∷ bcd now.hour
              ∷ bcd now.day
              ∷ bcd now.month
              ∷ bcd (now.year % 100)
              ∷ [])))
unfolding clock_to_app
clock_to_app_lem now s m h d o =
    rw
      (
        dec_to_hex-bcd now.second s,
        dec_to_hex-bcd now.minute m,
        dec_to_hex-bcd now.hour h,
        dec_to_hex-bcd now.day d,
        dec_to_hex-bcd now.month o,
        dec_to_hex-bcd (now.year % 100) (omega arith),
      )
      (new-made route_data_read 2 _ (omega arith))
