-- ===== src/Protocol/Frame/Kind.antt =====
-- src/protocol/frame.rs: what the rest of the program asks of a frame (`is_confirm`, `is_deny`,
-- `is_slave_report`, `is_master_response`, `match_req` and the parts of its application data).
use plc_service_rust.Base.{ℕ, ◌==◌, Outcome, ok, ◌>>=◌, Bool, true, false}
use plc_service_rust.Protocol.Fault.{Afn, answer, afn_eq, Error}
use plc_service_rust.Protocol.AppData.{as_fn_num}
use plc_service_rust.Protocol.UserData as User
use plc_service_rust.Protocol.Frame.{Frame, Dir, Prm}

abbrev pub get_seq : Frame → ℕ
get_seq f = User.get_seq f.user_data

abbrev pub frame_afn : Frame → Afn
frame_afn f = f.user_data.app_data.afn

abbrev pub frame_fn_num : Frame → Outcome Error ℕ
frame_fn_num f = as_fn_num f.user_data.app_data.data_flag

-- An answer with the function number `number`: `&&` takes the number only of an answer.
abbrev pub is_answer : ℕ → Frame → Outcome Error Bool
is_answer number f = elim (afn_eq (frame_afn f) answer) [
  | true ↦ frame_fn_num f >>= λ n. ok (n == number)
  | false ↦ ok false
]

abbrev pub is_confirm : Frame → Outcome Error Bool
is_confirm f = is_answer 1 f

abbrev pub is_deny : Frame → Outcome Error Bool
is_deny f = is_answer 2 f

abbrev pub is_up : Dir → Bool
is_up Dir.up = true
is_up Dir.down = false

abbrev pub is_master : Prm → Bool
is_master Prm.master = true
is_master Prm.slave = false

abbrev pub is_slave_report : Frame → Bool
is_slave_report f = elim (is_up f.ctrl_field.dir) [
  | true ↦ is_master f.ctrl_field.prm
  | false ↦ false
]

abbrev pub is_master_response : Frame → Bool
is_master_response f = elim (is_up f.ctrl_field.dir) [
  | true ↦ false
  | false ↦ elim (is_master f.ctrl_field.prm) [ true ↦ false | false ↦ true ]
]

abbrev pub match_req : Frame → ℕ → Bool
match_req f seq = get_seq f == seq
