-- ===== src/Message/RouteDataForward.antt =====
-- src/protocol/app_data/route_data_forward.rs: monitoring of a node (AFN 13H).
use plc_service_rust.Base.{
  ℕ, ◌+◌, ◌*◌, ◌%◌, ◌==◌, leb, le→leb, if◌then◌else◌, List, [], ◌∷◌, ◌++◌, length, some, Outcome,
  ok, err, ensure, index, slice, slice_from, ◌>>=◌, ◌>>◌, ◌≡◌, refl, arith, true, Bool-cases, inl,
  inr,
}
use plc_service_rust.Protocol.Fault.{route_data_forward, Error, app_data, AppDataError}
use plc_service_rust.Protocol.AppData.{AppData, check, new, units_length, Address, address_to_bytes}
use plc_service_rust.Protocol.AppData.Check.{made, check-counted}
use plc_service_rust.Message.{units_of, u16_of_slice}

pub record MonitorNodeRequest : Type 0 where
  pub protocol_type : ℕ
  pub comm_delay_flag : ℕ
  pub node_addrs : List Address
  pub message : List ℕ

-- `for addr in node_addrs { data.extend(addr); }`.
unfoldable pub addrs_to_bytes : List Address → List ℕ
addrs_to_bytes [] = []
addrs_to_bytes (a ∷ addrs) = address_to_bytes a ++ addrs_to_bytes addrs

unfoldable pub monitor_to_app : MonitorNodeRequest → Outcome Error AppData
monitor_to_app r = new route_data_forward 1 (
    some (
      r.protocol_type ∷ r.comm_delay_flag ∷ length r.node_addrs % 256 ∷ addrs_to_bytes r.node_addrs
      ++ (length r.message % 256 ∷ r.message)))

pub record MonitorNodeResponse : Type 0 where
  pub up_time : ℕ
  pub protocol_type : ℕ
  pub message_len : ℕ
  pub message : List ℕ

unfoldable pub monitor_of_app : AppData → Outcome Error MonitorNodeResponse
monitor_of_app app = do
  ensure (leb 4 (units_length app.data_units))
      (app_data (AppDataError.data_length (units_length app.data_units)))
  units ← units_of app
  message_len ← index units 3
  check app route_data_forward 1 (4 + message_len)
  up_bytes ← slice units 0 2
  up_time ← u16_of_slice up_bytes
  protocol_type ← index units 2
  message ← slice_from units 4
  ok (record {
    up_time = up_time;
    protocol_type = protocol_type;
    message_len = message_len;
    message = message;
  })

-- A response is accepted if and only if its fourth byte counts the bytes behind it; any other with
-- at least four bytes of data is refused for its length.
pub monitor_of_app-made :
    (lo hi p n : ℕ) (message : List ℕ)
    → monitor_of_app (made route_data_forward 1 (some (lo ∷ hi ∷ p ∷ n ∷ message))) ≡ (
        if length message == n
        then ok (record {
          up_time = lo + hi * 256;
          protocol_type = p;
          message_len = n;
          message = message;
        })
        else err (app_data (AppDataError.data_length (4 + length message))))
unfolding monitor_of_app
monitor_of_app-made lo hi p n message =
    let units : List ℕ = lo ∷ hi ∷ p ∷ n ∷ message in
    let long : leb 4 (length units) ≡ true = le→leb _ _ (omega arith) in
    let some_units : leb 2 (length units) ≡ true = le→leb _ _ (omega arith) in
    let counted =
      check-counted route_data_forward 1 4 n (length message) (some units) (omega arith)
        (omega arith) (omega arith) in
    elim (Bool-cases (length message == n)) [
      | inl e ↦ rw (long, counted, e, some_units) refl
      | inr e ↦ rw (long, counted, e) refl
    ]
