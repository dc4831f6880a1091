-- ===== src/Uart/Agent.antt =====
-- src/uart_agent.rs: the state that the three threads of the agent share behind one lock, and what
-- each of them does to it while it holds the lock. The writer is the serial line: what a write
-- returns is given. A `Guard` of the crate timer is kept with a concurrent request and dropped with
-- it, which stops the timer unless its callback has started.
pub mod Maps
pub mod Waiting
pub mod Entry
pub mod Exchange
pub mod Concurrent
pub mod Panics
use plc_service_rust.Base.{
  ℕ, ◌+◌, ◌%◌, ◌==◌, if◌then◌else◌, List, [], ◌∷◌, ◌++◌, Option, none, some, Outcome, ok, unwrap,
  ◌>>=◌, Bool, true, false, not, ◌&&◌,
}
use plc_service_rust.Protocol.Fault.{Error}
use plc_service_rust.Protocol.Frame.{Frame}
use plc_service_rust.Protocol.Frame.Kind.{get_seq, is_slave_report, is_master_response, match_req}
use plc_service_rust.Uart.Request as Request
use plc_service_rust.Uart.Request.{ReqInfo, UartMessage, has_origin}

-- A `HashMap` with number keys: `get`, `remove` and `insert`.
module _ {V : Type 0} where
  unfoldable pub get : ℕ → List (ℕ × V) → Option V
  get key [] = none
  get key ((k, v) ∷ entries) = let rest = get key entries in if k == key then some v else rest

  unfoldable pub remove : ℕ → List (ℕ × V) → List (ℕ × V)
  remove key [] = []
  remove key ((k, v) ∷ entries) =
      let rest = remove key entries in if k == key then rest else (k, v) ∷ rest

  unfoldable pub insert : ℕ → V → List (ℕ × V) → List (ℕ × V)
  insert key v entries = (key, v) ∷ remove key entries

pub record UartReqInfo (MqttReqInfo Guard : Type 0) : Type 0 where
  pub req_info : Option (ReqInfo MqttReqInfo)
  pub concurrent_req_info : List (ℕ × (ReqInfo MqttReqInfo × Guard))

-- The request that a response is handed on with, and the branch that found it: `serial` is
-- `is_serial_req`, `invalid` is `None`.
pub data Routed (MqttReqInfo : Type 0) : Type 0 where
  report : ReqInfo MqttReqInfo → Routed MqttReqInfo
  concurrent : ReqInfo MqttReqInfo → Routed MqttReqInfo
  serial : ReqInfo MqttReqInfo → Routed MqttReqInfo
  invalid : Routed MqttReqInfo

-- What the other threads do while the serial thread waits: a response is read, a concurrent request
-- is sent (with its guard and whether the write succeeds), a concurrent request's timer fires.
pub data Event (MqttReqInfo Guard : Type 0) : Type 0 where
  response : Frame → Event MqttReqInfo Guard
  concurrent_request : UartMessage MqttReqInfo → Guard → Bool → Event MqttReqInfo Guard
  concurrent_timeout : ℕ → Event MqttReqInfo Guard

-- What an event leads to: a response is handled with a request (or dropped), a timeout is handled.
pub data Output (MqttReqInfo : Type 0) : Type 0 where
  handled : Frame → Routed MqttReqInfo → Output MqttReqInfo
  timed_out : ℕ → ReqInfo MqttReqInfo → Output MqttReqInfo
  sent : Output MqttReqInfo

-- What one turn of the serial thread's loop leaves: the shared state, the outputs of the other
-- threads, the request that timed out and the counter.
pub record Turn (MqttReqInfo Guard : Type 0) : Type 0 where
  pub shared : UartReqInfo MqttReqInfo Guard
  pub outputs : List (Output MqttReqInfo)
  pub timeout : Option (ReqInfo MqttReqInfo)
  pub counter : ℕ

module _ {MqttReqInfo : Type 0} where
  abbrev pub no_origin : Option (ReqInfo MqttReqInfo) → Bool
  no_origin none = true
  no_origin (some r) = not (has_origin r)

  -- Whether the serial thread waits after it has written a message.
  abbrev pub waits : UartMessage MqttReqInfo → Bool
  waits message = not (is_master_response message.frame && not (has_origin message.req_info))

  -- After the wait: the request that timed out, if there is one, and the counter
  -- `consecutive_timeouts`, a `u8` that wraps.
  abbrev pub counted : Option (ReqInfo MqttReqInfo) → ℕ → ℕ
  counted none counter = 0
  counted (some r) counter = (counter + 1) % 256

module _ {MqttReqInfo Guard : Type 0} where
  unfoldable pub take_serial :
      Frame → UartReqInfo MqttReqInfo Guard → UartReqInfo MqttReqInfo Guard × Routed MqttReqInfo
  take_serial f s = elim s.req_info [
    | none ↦ (s, invalid)
    | some r ↦
        if match_req f r.seq_num then (record s { req_info = none }, serial r) else (s, invalid)
  ]

  unfoldable pub take_answered :
      Frame → UartReqInfo MqttReqInfo Guard → UartReqInfo MqttReqInfo Guard × Routed MqttReqInfo
  take_answered f s = elim (get (get_seq f) s.concurrent_req_info) [
    | some (r, guard) ↦
        (record s { concurrent_req_info = remove (get_seq f) s.concurrent_req_info }, concurrent r)
    | none ↦ take_serial f s
  ]

  -- The reader thread, for one response.
  unfoldable pub take_request :
      Frame
      → UartReqInfo MqttReqInfo Guard
      → Outcome Error (UartReqInfo MqttReqInfo Guard × Routed MqttReqInfo)
  take_request f s =
      if is_slave_report f && no_origin s.req_info
      then Request.new f none >>= (λ info. ok (s, report info))
      else ok (take_answered f s)

  -- The concurrent thread, for one request.
  unfoldable pub send_concurrent :
      UartMessage MqttReqInfo
      → Guard
      → Bool
      → UartReqInfo MqttReqInfo Guard
      → UartReqInfo MqttReqInfo Guard
  send_concurrent message guard written s =
      if written
      then record s {
        concurrent_req_info =
            insert (get_seq message.frame) (message.req_info, guard) s.concurrent_req_info;
      }
      else s

  -- The callback of a concurrent request's timer.
  unfoldable pub expire :
      ℕ
      → UartReqInfo MqttReqInfo Guard
      → Outcome Error (UartReqInfo MqttReqInfo Guard × ReqInfo MqttReqInfo)
  expire seq s = unwrap (get seq s.concurrent_req_info) >>= λ entry.
      ok (record s { concurrent_req_info = remove seq s.concurrent_req_info }, entry.0)

  unfoldable pub react :
      Event MqttReqInfo Guard
      → UartReqInfo MqttReqInfo Guard
      → Outcome Error (UartReqInfo MqttReqInfo Guard × Output MqttReqInfo)
  react (response f) s = take_request f s >>= λ r. ok (r.0, handled f (r.1))
  react (concurrent_request message guard written) s =
      ok (send_concurrent message guard written s, sent)
  react (concurrent_timeout seq) s = expire seq s >>= λ r. ok (r.0, timed_out seq (r.1))

  unfoldable pub react_all :
      List (Event MqttReqInfo Guard)
      → UartReqInfo MqttReqInfo Guard
      → Outcome Error (UartReqInfo MqttReqInfo Guard × List (Output MqttReqInfo))
  react_all [] s = ok (s, [])
  react_all (e ∷ events) s = do
    (s1, output) ← react e s
    (s2, outputs) ← react_all events s1
    ok (s2, output ∷ outputs)

  abbrev pub submit :
      UartMessage MqttReqInfo → UartReqInfo MqttReqInfo Guard → UartReqInfo MqttReqInfo Guard
  submit message s = record s { req_info = some message.req_info }

  -- The end of a turn after a wait, and without one.
  abbrev pub waited :
      ℕ → UartReqInfo MqttReqInfo Guard × List (Output MqttReqInfo) → Turn MqttReqInfo Guard
  waited counter (s, outputs) = record {
    shared = record s { req_info = none };
    outputs = outputs;
    timeout = s.req_info;
    counter = counted s.req_info counter;
  }

  abbrev pub not_waited :
      ℕ → UartReqInfo MqttReqInfo Guard × List (Output MqttReqInfo) → Turn MqttReqInfo Guard
  not_waited counter (s, outputs) = record {
    shared = s;
    outputs = outputs;
    timeout = none;
    counter = counter;
  }

  -- One turn, with the events that happen before it ends.
  unfoldable pub turn :
      UartMessage MqttReqInfo
      → List (Event MqttReqInfo Guard)
      → UartReqInfo MqttReqInfo Guard
      → ℕ
      → Outcome Error (Turn MqttReqInfo Guard)
  turn message events s counter = react_all events (submit message s) >>= λ reached.
      ok (if waits message then waited counter reached else not_waited counter reached)
