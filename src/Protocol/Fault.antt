-- ===== src/Protocol/Fault.antt =====
-- The application function codes `Afn` and the errors of src/protocol (frame.rs, app_data/mod.rs),
-- with num_enum's and anyhow's own errors as far as the code uses them.
use plc_service_rust.Base.{
  ℕ, String, Outcome, ok, err, Bool, ◌==◌, if◌then◌else◌, ◌≡◌, refl, arith, ◌<◌,
}

pub data Afn : Type 0 where
  answer init data_forward query_data port_check ctrl_cmd report route_get route_set route_ctrl
        route_data_forward route_data_read file_transfer debug cocurrent_read_meter test :
      Afn

-- `afn as u8`.
abbrev pub afn_to_u8 : Afn → ℕ
afn_to_u8 answer = 0x00
afn_to_u8 init = 0x01
afn_to_u8 data_forward = 0x02
afn_to_u8 query_data = 0x03
afn_to_u8 port_check = 0x04
afn_to_u8 ctrl_cmd = 0x05
afn_to_u8 report = 0x06
afn_to_u8 route_get = 0x10
afn_to_u8 route_set = 0x11
afn_to_u8 route_ctrl = 0x12
afn_to_u8 route_data_forward = 0x13
afn_to_u8 route_data_read = 0x14
afn_to_u8 file_transfer = 0x15
afn_to_u8 debug = 0xf0
afn_to_u8 cocurrent_read_meter = 0xf1
afn_to_u8 test = 0xff

pub data FrameError : Type 0 where
  length : ℕ → FrameError
  header : ℕ → FrameError
  checksum : ℕ → ℕ → FrameError
  tail : ℕ → FrameError

pub data AppDataError : Type 0 where
  afn : Afn → AppDataError
  fn_num : ℕ → AppDataError
  data_length : ℕ → AppDataError

-- What an `anyhow::Error` of this code holds: `primitive n` is num_enum's error for a number that is
-- no value of the enum, `message` an `ensure!` with a text.
pub data Error : Type 0 where
  frame : FrameError → Error
  app_data : AppDataError → Error
  primitive : ℕ → Error
  message : String → Error

-- The derived `PartialEq`.
abbrev pub afn_eq : Afn → Afn → Bool
afn_eq a b = afn_to_u8 a == afn_to_u8 b

unfoldable pub afn_of_u8 : ℕ → Outcome Error Afn
afn_of_u8 b =
    if b == 0x00
    then ok answer
    else if b == 0x01
    then ok init
    else if b == 0x02
    then ok data_forward
    else if b == 0x03
    then ok query_data
    else if b == 0x04
    then ok port_check
    else if b == 0x05
    then ok ctrl_cmd
    else if b == 0x06
    then ok report
    else if b == 0x10
    then ok route_get
    else if b == 0x11
    then ok route_set
    else if b == 0x12
    then ok route_ctrl
    else if b == 0x13
    then ok route_data_forward
    else if b == 0x14
    then ok route_data_read
    else if b == 0x15
    then ok file_transfer
    else if b == 0xf0
    then ok debug
    else if b == 0xf1
    then ok cocurrent_read_meter
    else if b == 0xff
    then ok test
    else err (primitive b)

pub afn_of_u8-afn_to_u8 : (a : Afn) → afn_of_u8 (afn_to_u8 a) ≡ ok a
unfolding afn_of_u8
afn_of_u8-afn_to_u8 answer = refl
afn_of_u8-afn_to_u8 _ = refl

pub afn_to_u8-afn_of_u8 : (b : ℕ) (a : Afn) → afn_of_u8 b ≡ ok a → afn_to_u8 a ≡ b
unfolding afn_of_u8
afn_to_u8-afn_of_u8 b a h = ground arith

pub afn_to_u8-lt : (a : Afn) → afn_to_u8 a < 256
afn_to_u8-lt answer = omega arith
afn_to_u8-lt _ = omega arith
