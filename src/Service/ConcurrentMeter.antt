-- ===== src/Service/ConcurrentMeter.antt =====
-- src/service/concurrent_meter.rs: the readings of meters, one at a time for each address, with a
-- queue for each address. The map `sample_cache` is behind one lock; its entries are in some order.
-- The parsing of a payload (serde), the texts and the clock are given; what is sent to the agent is
-- kept in a list. `metering` is the flag that the monitoring services set while they use the line.
pub mod Counting
pub mod Sound
pub mod Requests
pub mod Resuming
pub mod Steps
pub mod Traces
pub mod Blocked
pub mod Limits
use plc_service_rust.Base.{
  ℕ, suc, ◌+◌, ◌-◌, ◌==◌, ltb, leb, String, if◌then◌else◌, List, [], ◌∷◌, ◌++◌, Option, none, some,
  Outcome, ok, err, panic, unwrap, ◌>>=◌, Bool, true, false, not, ◌&&◌, ◌||◌, length,
}
use plc_service_rust.Protocol.Fault.{Error}
use plc_service_rust.Protocol.AppData.{Address}
use plc_service_rust.Protocol.UserData.{AddressField}
use plc_service_rust.Protocol.Frame.{Frame}
use plc_service_rust.Uart.Request.{UartMessage}
use plc_service_rust.Message.MeterReading.{new_read_meter, read_meter_to_app, read_meter_of_app}
use plc_service_rust.Service.Dict.{get, update}
use plc_service_rust.Service.Response.{Texts, address_of_text, message_of, response_of_frame}

pub record SamplePayload : Type 0 where
  pub task_id : String
  pub acq_addr : String
  pub pro_type : String
  pub data_ : String

pub record SampleCache (Message : Type 0) : Type 0 where
  pub is_waiting_response : Bool
  pub msg_cache_queue : List Message
  pub last_operation_time : ℕ

pub record MeterReadingConfig : Type 0 where
  pub concurrent_addr : ℕ
  pub cache_queue_size : ℕ
  pub queue_aging_time : ℕ

pub data ConcurrentMeterError : Type 0 where
  addr_limit : ℕ → ConcurrentMeterError
  queue_limit : ℕ → ConcurrentMeterError
  protocol : Error → ConcurrentMeterError

-- `MqttReqInfo` of a reading: its `extra_data` is the payload.
pub record ReadingInfo (Message : Type 0) : Type 0 where
  pub message : Message
  pub extra_data : SamplePayload

pub record ConcurrentMeter (Message : Type 0) : Type 0 where
  pub sample_cache : List (String × SampleCache Message)
  pub metering : Bool
  pub sent : List (UartMessage (ReadingInfo Message))
  pub seq : ℕ

-- What the model is given: `payload` is the parsing of a message.
pub record Setting (Message : Type 0) : Type 0 where
  pub texts : Texts
  pub payload : Message → Option SamplePayload
  pub config : MeterReadingConfig
  pub master_address : Address

module _ {Message : Type 0} where
  unfoldable pub new_cache : ℕ → SampleCache Message
  new_cache now = record {
    is_waiting_response = false;
    msg_cache_queue = [];
    last_operation_time = now;
  }

  abbrev pub is_busy : SampleCache Message → Bool
  is_busy c = c.is_waiting_response || (elim c.msg_cache_queue [ [] ↦ false | m ∷ rest ↦ true ])

  unfoldable pub concurrent_addr_num : List (String × SampleCache Message) → ℕ
  concurrent_addr_num [] = 0
  concurrent_addr_num ((addr, c) ∷ entries) =
      (if is_busy c then 1 else 0) + concurrent_addr_num entries

  -- A change of an entry that is there.
  abbrev pub set_cache :
      String → SampleCache Message → ConcurrentMeter Message → ConcurrentMeter Message
  set_cache addr c s = record s { sample_cache = update addr c (λ _. c) s.sample_cache }

  -- Old entries go, at each tick of a timer: less than `aging` has passed since the last operation.
  unfoldable pub retain :
      ℕ → ℕ → List (String × SampleCache Message) → List (String × SampleCache Message)
  retain aging now [] = []
  retain aging now ((addr, c) ∷ entries) =
      let rest = retain aging now entries in
      if is_busy c || ltb now (c.last_operation_time + aging) then (addr, c) ∷ rest else rest

  module _ (g : Setting Message) where
    -- The request of a message.
    unfoldable pub reading_of : Message → ℕ → Outcome Error (UartMessage (ReadingInfo Message) × ℕ)
    reading_of message seq = do
      payload ← unwrap (g.payload message)
      address ← address_of_text g.texts payload.acq_addr
      protocol_type ← unwrap (g.texts.parse_u8 payload.pro_type)
      bytes ← unwrap (g.texts.decode payload.data_)
      message_of seq
          (some (record {
            src_address = g.master_address;
            relay_address = none;
            dst_address = address;
          }))
          (some (record { message = message; extra_data = payload }))
          (read_meter_to_app (new_read_meter protocol_type bytes))

    -- The sending; a failure in it is a panic.
    abbrev pub send :
        ConcurrentMeter Message
        → Outcome Error (UartMessage (ReadingInfo Message) × ℕ)
        → Option (ConcurrentMeter Message)
    send s (ok (m, seq)) = some (record s { sent = s.sent ++ (m ∷ []); seq = seq })
    send s (err e) = none
    send s panic = none

    -- `none` is a panic.
    unfoldable pub mqtt_meter_reading_handler :
        Message → ConcurrentMeter Message → Option (ConcurrentMeter Message)
    mqtt_meter_reading_handler message s = send s (reading_of message s.seq)

    -- A message is sent, and its address waits with what is left of its queue.
    unfoldable pub start :
        String
        → Message
        → SampleCache Message
        → ConcurrentMeter Message
        → Option (ConcurrentMeter Message)
    start addr message c s = elim (mqtt_meter_reading_handler message s) [
      | none ↦ none
      | some s' ↦ some (set_cache addr (record c { is_waiting_response = true }) s')
    ]

    abbrev pub next_of :
        String
        → SampleCache Message
        → List Message
        → ConcurrentMeter Message
        → Option (ConcurrentMeter Message)
    next_of addr c [] s = some (set_cache addr (record c { is_waiting_response = false }) s)
    next_of addr c (message ∷ rest) s = start addr message (record c { msg_cache_queue = rest }) s

    unfoldable pub handle_next_request :
        String → ConcurrentMeter Message → Option (ConcurrentMeter Message)
    handle_next_request addr s = elim (get addr s.sample_cache) [
      | none ↦ some s
      | some c ↦ next_of addr c c.msg_cache_queue s
    ]

    unfoldable pub handle_waiting_cache :
        String
        → SampleCache Message
        → Message
        → ℕ
        → ConcurrentMeter Message
        → ConcurrentMeter Message × Outcome ConcurrentMeterError (Unit {0})
    handle_waiting_cache addr c message now s =
        if leb g.config.cache_queue_size (length c.msg_cache_queue)
        then (s, err (queue_limit g.config.cache_queue_size))
        else (
          set_cache addr
              (record c {
                msg_cache_queue = c.msg_cache_queue ++ (message ∷ []);
                last_operation_time = now;
              })
              s,
          ok tt,
        )

    -- The panic of a sending, as an outcome.
    abbrev pub started :
        ConcurrentMeter Message
        → Option (ConcurrentMeter Message)
        → ConcurrentMeter Message × Outcome ConcurrentMeterError (Unit {0})
    started s none = (s, panic)
    started s (some s') = (s', ok tt)

    unfoldable pub read_or_queue :
        String
        → SampleCache Message
        → Message
        → ℕ
        → ConcurrentMeter Message
        → ConcurrentMeter Message × Outcome ConcurrentMeterError (Unit {0})
    read_or_queue addr c message now s =
        if c.is_waiting_response || s.metering
        then handle_waiting_cache addr c message now s
        else started s (start addr message c s)

    unfoldable pub handle_meter_reading :
        String
        → Message
        → ℕ
        → ConcurrentMeter Message
        → ConcurrentMeter Message × Outcome ConcurrentMeterError (Unit {0})
    handle_meter_reading addr message now s = elim (get addr s.sample_cache) [
      | some c ↦ read_or_queue addr c message now s
      | none ↦
          if leb g.config.concurrent_addr (concurrent_addr_num s.sample_cache)
          then (s, err (addr_limit g.config.concurrent_addr))
          else read_or_queue addr (new_cache now) message now (set_cache addr (new_cache now) s)
    ]

    abbrev pub resume_of :
        SampleCache Message
        → List Message
        → ConcurrentMeter Message
        → Option (SampleCache Message × ConcurrentMeter Message)
    resume_of c [] s = some (c, s)
    resume_of c (message ∷ rest) s = elim (mqtt_meter_reading_handler message s) [
      | none ↦ none
      | some s' ↦ some (record c { is_waiting_response = true; msg_cache_queue = rest }, s')
    ]

    unfoldable pub resume :
        SampleCache Message
        → ConcurrentMeter Message
        → Option (SampleCache Message × ConcurrentMeter Message)
    resume c s = if c.is_waiting_response then some (c, s) else resume_of c c.msg_cache_queue s

    -- The entries, one after the other.
    unfoldable pub resume_all :
        List (String × SampleCache Message)
        → ConcurrentMeter Message
        → Option (List (String × SampleCache Message) × ConcurrentMeter Message)
    resume_all [] s = some ([], s)
    resume_all ((addr, c) ∷ entries) s = elim (resume c s) [
      | none ↦ none
      | some (c', s') ↦ elim (resume_all entries s') [
        | none ↦ none
        | some (entries', s'') ↦ some ((addr, c') ∷ entries', s'')
      ]
    ]

    unfoldable pub handle_cache_request : ConcurrentMeter Message → Option (ConcurrentMeter Message)
    handle_cache_request s = elim (resume_all s.sample_cache s) [
      | none ↦ none
      | some (entries, s') ↦ some (record s' { sample_cache = entries })
    ]

    -- A response to the reading of an address. One that cannot be read is an error, and returned.
    unfoldable pub uart_meter_reading :
        String → Frame → ConcurrentMeter Message → Option (ConcurrentMeter Message)
    uart_meter_reading addr f s = elim (response_of_frame read_meter_of_app f) [
      | ok response ↦ handle_next_request addr s
      | err e ↦ some s
      | panic ↦ none
    ]

    -- The end of a reading by its timer.
    unfoldable pub uart_meter_reading_timeout :
        String → ConcurrentMeter Message → Option (ConcurrentMeter Message)
    uart_meter_reading_timeout addr s = handle_next_request addr s

    unfoldable pub age : ℕ → ConcurrentMeter Message → ConcurrentMeter Message
    age now s = record s { sample_cache = retain g.config.queue_aging_time now s.sample_cache }
