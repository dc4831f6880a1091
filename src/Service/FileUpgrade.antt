-- ===== src/Service/FileUpgrade.antt =====
-- src/service/file_upgrade.rs: a file goes to the module in segments, each of which the module
-- answers, and then the module upgrades itself or the nodes. The state is behind one lock, which a
-- wait gives up while there is no result. The file's bytes, the clock, what the module is
-- (`MODULE_INFO`) and the events of each wait are given.
pub mod Transfer
pub mod Stale
use plc_service_rust.Base.{
  ℕ, suc, ◌+◌, ◌-◌, ◌/◌, ◌%◌, ◌==◌, leb, if◌then◌else◌, List, [], ◌∷◌, ◌++◌, Option, none, some,
  Outcome, ok, err, panic, Bool, true, false, not, length, chunks,
}
use plc_service_rust.Protocol.InfoField.{info_field_size}
use plc_service_rust.Protocol.AppData.{app_data_prefix_size}
use plc_service_rust.Protocol.Frame.{Frame, frame_size}
use plc_service_rust.Uart.Request.{UartMessage}
use plc_service_rust.Message.FileTransfer.{
  FileFlag, segment_to_app_of, segment_flag_of_app, file_transfer_prefix_len,
}
use plc_service_rust.Service.Action.{
  Action, ServiceError, timeout, waiting, denied, continue, ◌>>=◌, ◌>>◌, done, fail, die, change,
}
use plc_service_rust.Message.Answer.{deny_to_u8}
use plc_service_rust.Service.Response.{
  UartResponse, normal, deny, response_of_frame, of_protocol, message_of,
}

pub data UpgradeStatus : Type 0 where
  idle upgrading_ finished : UpgradeStatus

pub data UpgradeResult : Type 0 where
  success file_error transfer_failed other_error : UpgradeResult

-- `Result<usize>`.
pub data Answer : Type 0 where
  segment : ℕ → Answer
  failed : ServiceError → Answer

pub data Event : Type 0 where
  answered : Frame → Event
  timed_out : Event
  reported : Event

pub record FileUpgrade (MqttReqInfo : Type 0) : Type 0 where
  pub status : UpgradeStatus
  pub start_time : ℕ
  pub end_time : ℕ
  pub upgrade_result : UpgradeResult
  pub result : Option Answer
  pub upgrading : Bool
  pub sent : List (UartMessage MqttReqInfo)
  pub seq : ℕ
  pub events : List (List Event)

abbrev pub file_check_error : ℕ
file_check_error = 0xffffffff

abbrev pub answer_of : UartResponse ℕ → Answer
answer_of (normal n) = segment n
answer_of (deny r) = failed (denied (deny_to_u8 r.error_code))

-- What the answer to a segment leads to: nothing, or the end of the upgrade.
unfoldable pub judge : ℕ → Answer → Option UpgradeResult
judge offset (segment n) =
    if n % 4294967296 == file_check_error
    then some file_error
    else if n == offset
    then none
    else some transfer_failed
judge offset (failed e) = some transfer_failed

abbrev pub prefix_len : ℕ
prefix_len = frame_size + (info_field_size + app_data_prefix_size) + file_transfer_prefix_len

-- `content.len().div_ceil(size)`.
abbrev pub segment_count : List ℕ → ℕ → ℕ
segment_count content size = (length content + (size - 1)) / size

module _ {MqttReqInfo : Type 0} where
  unfoldable pub start_upgrade : ℕ → FileUpgrade MqttReqInfo → FileUpgrade MqttReqInfo
  start_upgrade now s = record s { upgrading = true; status = idle; start_time = now }

  unfoldable pub finish_upgrade :
      UpgradeResult → ℕ → FileUpgrade MqttReqInfo → FileUpgrade MqttReqInfo
  finish_upgrade r now s = record s {
    status = finished;
    end_time = now;
    upgrade_result = r;
    upgrading = false;
  }

  unfoldable pub upgrade_finished : FileUpgrade MqttReqInfo → FileUpgrade MqttReqInfo
  upgrade_finished s = record s { result = some (segment 0); status = finished }

  unfoldable pub uart_file_transfer_timeout : FileUpgrade MqttReqInfo → FileUpgrade MqttReqInfo
  uart_file_transfer_timeout s = record s { result = some (failed timeout) }

  -- A response that cannot be read changes nothing.
  unfoldable pub uart_file_transfer : Frame → FileUpgrade MqttReqInfo → FileUpgrade MqttReqInfo
  uart_file_transfer f s = elim (response_of_frame segment_flag_of_app f) [
    | ok response ↦ record s { result = some (answer_of response) }
    | err e ↦ s
    | panic ↦ s
  ]

  -- A report of the module's start counts only during an upgrade (src/uart_handler.rs).
  unfoldable pub react : Event → FileUpgrade MqttReqInfo → FileUpgrade MqttReqInfo
  react (answered f) s = uart_file_transfer f s
  react timed_out s = uart_file_transfer_timeout s
  react reported s = if s.upgrading then upgrade_finished s else s

  unfoldable pub react_all : List Event → FileUpgrade MqttReqInfo → FileUpgrade MqttReqInfo
  react_all [] s = s
  react_all (e ∷ events) s = react_all events (react e s)

  -- The events of the next wait happen.
  unfoldable pub sleep : List (List Event) → FileUpgrade MqttReqInfo → FileUpgrade MqttReqInfo
  sleep [] s = s
  sleep (events ∷ later) s = react_all events (record s { events = later })

  abbrev pub take_result :
      FileUpgrade MqttReqInfo
      → Option Answer
      → FileUpgrade MqttReqInfo × Outcome ServiceError Answer
  take_result s none = (s, err waiting)
  take_result s (some a) = (record s { result = none }, ok a)

  abbrev pub wait_from :
      Option Answer
      → FileUpgrade MqttReqInfo
      → FileUpgrade MqttReqInfo × Outcome ServiceError Answer
  wait_from (some a) s = take_result s (some a)
  wait_from none s = take_result (sleep s.events s) (sleep s.events s).result

  -- `wait_while` with a result already there does not wait.
  unfoldable pub wait_result : Action (FileUpgrade MqttReqInfo) Answer
  wait_result s = wait_from s.result s

  unfoldable pub send_segment :
      FileFlag → ℕ → MqttReqInfo → ℕ → List ℕ → Action (FileUpgrade MqttReqInfo) (Unit {0})
  send_segment flag count mqtt offset data_ s =
      continue
        (
          s,
          of_protocol
              (message_of s.seq none (some mqtt) (segment_to_app_of flag count offset data_)),
        )
        (λ made. change (λ s'. record s' { sent = s'.sent ++ (made.0 ∷ []); seq = made.1 }))

  -- After an answer: the rest, or the end.
  abbrev pub go_on :
      ℕ
      → Option UpgradeResult
      → Action (FileUpgrade MqttReqInfo) Bool
      → Action (FileUpgrade MqttReqInfo) Bool
  go_on now none next = next
  go_on now (some r) next = change (finish_upgrade r now) >> done false

  -- The segments from one on: whether all were sent and answered well. `now` is the time of a failure.
  unfoldable pub transfer :
      FileFlag → ℕ → MqttReqInfo → ℕ → ℕ → List (List ℕ) → Action (FileUpgrade MqttReqInfo) Bool
  transfer flag count mqtt now offset [] = done true
  transfer flag count mqtt now offset (data_ ∷ rest) =
      send_segment flag count mqtt offset data_
      >> (wait_result >>= λ answer.
          go_on now (judge offset answer) (transfer flag count mqtt now (suc offset) rest))

  -- The transfer of a whole file, after it was opened: `packet` is the module's longest packet. A
  -- request during an upgrade is refused.
  unfoldable pub transfer_file :
      FileFlag → MqttReqInfo → ℕ → ℕ → List ℕ → Action (FileUpgrade MqttReqInfo) Bool
  transfer_file flag mqtt packet now content s =
      if s.upgrading
      then (s, ok false)
      else if leb packet prefix_len
      then (start_upgrade now s, panic)
      else transfer flag (segment_count content (packet - prefix_len) % 65536) mqtt now 0
          (chunks content (packet - prefix_len)) (start_upgrade now s)

  -- After the wait of the thread that watches an upgrade of the module itself. With a result, but the
  -- status `upgrading_`, the loop goes on, with no wait and for ever.
  abbrev pub watched :
      ℕ → FileUpgrade MqttReqInfo → FileUpgrade MqttReqInfo × Outcome ServiceError (Unit {0})
  watched now s = elim s.status [
    | finished ↦ change (finish_upgrade success now) s
    | idle ↦ change (finish_upgrade success now) s
    | upgrading_ ↦ elim s.result [
      | none ↦ change (finish_upgrade other_error now) s
      | some a ↦ fail waiting s
    ]
  ]

  abbrev pub watch_from :
      ℕ
      → Option Answer
      → FileUpgrade MqttReqInfo
      → FileUpgrade MqttReqInfo × Outcome ServiceError (Unit {0})
  watch_from now (some a) s = fail waiting s
  watch_from now none s = watched now (sleep s.events s)

  -- That thread. A wait with no result ends by its time.
  unfoldable pub watch_module : ℕ → Action (FileUpgrade MqttReqInfo) (Unit {0})
  watch_module now s = watch_from now s.result (record s { status = upgrading_ })
