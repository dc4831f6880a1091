-- ===== src/Service/ConcurrentMeter/Steps.antt =====
-- src/service/concurrent_meter.rs as a machine: the requests of the clients, the responses, the
-- timeouts, the resumptions and the clock, in any order.
use plc_service_rust.Base.{
  ℕ, ◌+◌, String, if◌then◌else◌, List, [], ◌∷◌, Option, none, some, Outcome, ok, err, panic, Bool,
  true, false, ◌≡◌,
}
use plc_service_rust.Protocol.Fault.{Error}
use plc_service_rust.Protocol.Frame.{Frame}
use plc_service_rust.Message.MeterReading.{read_meter_of_app}
use plc_service_rust.Service.Dict.{same, get}
use plc_service_rust.Service.Response.{response_of_frame}
use plc_service_rust.Service.ConcurrentMeter.{
  SampleCache, ConcurrentMeter, ConcurrentMeterError, Setting, handle_meter_reading,
  handle_cache_request, uart_meter_reading, uart_meter_reading_timeout, age,
}

-- An operation, with its input. `metering_set` is the flag of the monitoring services.
pub data Step (Message : Type 0) : Type 0 where
  request : Message → ℕ → Step Message
  response : String → Frame → Step Message
  reading_timeout : String → Step Message
  cache_request : Step Message
  tick : ℕ → Step Message
  metering_set : Bool → Step Message

module _ {Message : Type 0} (g : Setting Message) where
  abbrev pub settled :
      ConcurrentMeter Message × Outcome ConcurrentMeterError (Unit {0})
      → Option (ConcurrentMeter Message)
  settled (s, ok a) = some s
  settled (s, err e) = some s
  settled (s, panic) = none

  -- `mqtt_concurrent_meter_reading`: a payload that is not understood is refused before the lock.
  unfoldable pub mqtt_concurrent_meter_reading :
      Message → ℕ → ConcurrentMeter Message → Option (ConcurrentMeter Message)
  mqtt_concurrent_meter_reading message now s = elim (g.payload message) [
    | none ↦ some s
    | some p ↦ settled (handle_meter_reading g p.acq_addr message now s)
  ]

  -- `none` is a panic.
  unfoldable pub step : Step Message → ConcurrentMeter Message → Option (ConcurrentMeter Message)
  step (request message now) s = mqtt_concurrent_meter_reading message now s
  step (response addr f) s = uart_meter_reading g addr f s
  step (reading_timeout addr) s = uart_meter_reading_timeout g addr s
  step cache_request s = handle_cache_request g s
  step (tick now) s = some (age g now s)
  step (metering_set b) s = some (record s { metering = b })

  unfoldable pub steps :
      List (Step Message) → ConcurrentMeter Message → Option (ConcurrentMeter Message)
  steps [] s = some s
  steps (e ∷ es) s = elim (step e s) [ none ↦ none | some s' ↦ steps es s' ]

  -- Whether a response can be read.
  abbrev pub is_read : {A : Type 0} → Outcome Error A → Bool
  is_read (ok a) = true
  is_read (err e) = false
  is_read panic = false

  -- The readings of an address that a step ends.
  unfoldable pub ended : String → Step Message → ℕ
  ended a (response addr f) =
      if is_read (response_of_frame read_meter_of_app f) then (if same addr a then 1 else 0) else 0
  ended a (reading_timeout addr) = if same addr a then 1 else 0
  ended a (request message now) = 0
  ended a cache_request = 0
  ended a (tick now) = 0
  ended a (metering_set b) = 0

  unfoldable pub ended_all : String → List (Step Message) → ℕ
  ended_all a [] = 0
  ended_all a (e ∷ es) = ended a e + ended_all a es

  -- The agent hands on responses and timeouts only of readings that were sent.
  abbrev pub IsWaiting : String → ConcurrentMeter Message → Type 0
  IsWaiting addr s =
      (c : SampleCache Message) × (get addr s.sample_cache ≡ some c)
      × (c.is_waiting_response ≡ true)

  abbrev pub IsDue : Step Message → ConcurrentMeter Message → Type 0
  IsDue (response addr f) s = IsWaiting addr s
  IsDue (reading_timeout addr) s = IsWaiting addr s
  IsDue (request message now) s = Unit
  IsDue cache_request s = Unit
  IsDue (tick now) s = Unit
  IsDue (metering_set b) s = Unit

  abbrev pub AreDue : List (Step Message) → ConcurrentMeter Message → Type 0
  AreDue [] s = Unit
  AreDue (e ∷ es) s =
      IsDue e s × ((s' : ConcurrentMeter Message) → step e s ≡ some s' → AreDue es s')

  abbrev pub initial : ℕ → ConcurrentMeter Message
  initial seq = record { sample_cache = []; metering = false; sent = []; seq = seq }
