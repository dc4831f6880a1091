-- ===== src/Protocol/Frame.antt =====
-- src/protocol/frame.rs: the frame of the serial line.
pub mod Parts
pub mod Checksum
pub mod Codec
pub mod Build
pub mod Cursor
pub mod Kind
use plc_service_rust.Base.{
  ℕ, zero, suc, ◌+◌, ◌-◌, ◌*◌, ◌/◌, ◌%◌, ◌^◌, ◌==◌, leb, ltb, if◌then◌else◌, List, [], ◌∷◌, ◌++◌,
  length, Option, none, some, Outcome, ok, err, ensure, index, slice, ◌>>=◌, ◌>>◌, bit_and, bit_or,
  Bool, true, false, ◌&&◌, not, get_elem?,
}
use plc_service_rust.Base.Bits.{shl_u8}
use plc_service_rust.Protocol.Fault.{Afn, answer, afn_eq, Error, frame, primitive, FrameError}
use plc_service_rust.Protocol.InfoField as Info
use plc_service_rust.Protocol.InfoField.{InfoFieldType}
use plc_service_rust.Protocol.AppData as App
use plc_service_rust.Protocol.AppData.{AppData}
use plc_service_rust.Protocol.UserData as User
use plc_service_rust.Protocol.UserData.{AddressField, UserData, user_data_length}

abbrev pub header_byte : ℕ
header_byte = 0x68

pub record Header : Type 0 where
  pub header : ℕ
  pub length : ℕ

abbrev pub header_to_bytes : Header → List ℕ
header_to_bytes h = h.header ∷ h.length % 256 ∷ h.length / 256 % 256 ∷ []

pub data Dir : Type 0 where
  down up : Dir

pub data Prm : Type 0 where
  slave master : Prm

pub data Comm : Type 0 where
  centralize decentralize hplc lower_power ethernet : Comm

pub record CtrlField : Type 0 where
  pub dir : Dir
  pub prm : Prm
  pub comm : Comm

abbrev pub dir_to_u8 : Dir → ℕ
dir_to_u8 down = 0
dir_to_u8 up = 1

abbrev pub prm_to_u8 : Prm → ℕ
prm_to_u8 slave = 0
prm_to_u8 master = 1

abbrev pub comm_to_u8 : Comm → ℕ
comm_to_u8 centralize = 1
comm_to_u8 decentralize = 2
comm_to_u8 hplc = 3
comm_to_u8 lower_power = 10
comm_to_u8 ethernet = 20

unfoldable pub dir_of_u8 : ℕ → Outcome Error Dir
dir_of_u8 b = if b == 0 then ok down else if b == 1 then ok up else err (primitive b)

unfoldable pub prm_of_u8 : ℕ → Outcome Error Prm
prm_of_u8 b = if b == 0 then ok slave else if b == 1 then ok master else err (primitive b)

unfoldable pub comm_of_u8 : ℕ → Outcome Error Comm
comm_of_u8 b =
    if b == 1
    then ok centralize
    else if b == 2
    then ok decentralize
    else if b == 3
    then ok hplc
    else if b == 10
    then ok lower_power
    else if b == 20
    then ok ethernet
    else err (primitive b)

abbrev pub ctrl_new : Bool → CtrlField
ctrl_new is_response = record {
  dir = down;
  prm = if is_response then slave else master;
  comm = hplc;
}

abbrev pub get_info_field_type : CtrlField → InfoFieldType
get_info_field_type c = elim c.dir [ down ↦ InfoFieldType.down | up ↦ InfoFieldType.up ]

unfoldable pub ctrl_to_u8 : CtrlField → ℕ
ctrl_to_u8 c =
    bit_or (bit_or (shl_u8 (dir_to_u8 c.dir) 7) (shl_u8 (prm_to_u8 c.prm) 6)) (comm_to_u8 c.comm)

unfoldable pub ctrl_of_u8 : ℕ → Outcome Error CtrlField
ctrl_of_u8 b = do
  dir ← dir_of_u8 (b / 2 ^ 7)
  prm ← prm_of_u8 (bit_and (b / 2 ^ 6) 0x01)
  comm ← comm_of_u8 (bit_and b 0x3f)
  ok (record { dir = dir; prm = prm; comm = comm })

abbrev pub tail_byte : ℕ
tail_byte = 0x16

abbrev pub header_size : ℕ
header_size = 3

-- `HEADER_SIZE + CTRL_FIELD_SIZE + CHECK_SUM_SIZE + TAIL_SIZE`, and `LAST_SIZE` with the offsets.
abbrev pub frame_size : ℕ
frame_size = 6

abbrev pub last_size : ℕ
last_size = 2

abbrev pub ctrl_field_offset : ℕ
ctrl_field_offset = 3

abbrev pub user_data_offset : ℕ
user_data_offset = 4

pub record Frame : Type 0 where
  pub header : Header
  pub ctrl_field : CtrlField
  pub user_data : UserData
  pub checksum : ℕ
  pub tail : ℕ

-- The loop of `calc_checksum`, with `wrapping_add`.
unfoldable pub checksum_loop : ℕ → List ℕ → ℕ
checksum_loop sum [] = sum
checksum_loop sum (b ∷ bytes) = checksum_loop ((sum + b) % 256) bytes

unfoldable pub calc_checksum : List ℕ → ℕ
calc_checksum bytes = checksum_loop 0 bytes

unfoldable pub to_bytes : Frame → List ℕ
to_bytes f =
    header_to_bytes f.header
    ++ (ctrl_to_u8 f.ctrl_field ∷ User.to_bytes f.user_data ++ (f.checksum ∷ f.tail ∷ []))

-- `Frame::new`. The length is cut to a `u16`, and the checksum is taken over the bytes of the frame
-- with checksum 0.
unfoldable pub blank : Bool → ℕ → Option AddressField → AppData → Frame
blank is_response seq address app =
    let ud = User.new seq address app in
    record {
      header = record { header = header_byte; length = (frame_size + user_data_length ud) % 65536 };
      ctrl_field = ctrl_new is_response;
      user_data = ud;
      checksum = 0;
      tail = tail_byte;
    }

unfoldable pub new : Bool → ℕ → Option AddressField → AppData → Outcome Error Frame
new is_response seq address app = do
  let bytes = to_bytes (blank is_response seq address app)
  part ← slice bytes ctrl_field_offset (length bytes - last_size)
  ok (record (blank is_response seq address app) { checksum = calc_checksum part })

-- `Frame::new_request` takes its sequence number from the global counter, `SEQ.fetch_add(1)`, which
-- wraps; the counter after the call comes with the frame.
unfoldable pub new_request : ℕ → Option AddressField → AppData → Outcome Error (Frame × ℕ)
new_request seq address app = do f ← new false seq address app; ok (f, (seq + 1) % 256)

unfoldable pub new_response : ℕ → Option AddressField → AppData → Outcome Error Frame
new_response seq address app = new true seq address app

unfoldable pub of_bytes : List ℕ → Outcome Error Frame
of_bytes bytes = do
  ensure (leb frame_size (length bytes)) (frame (FrameError.length (length bytes)))
  b0 ← index bytes 0
  b1 ← index bytes 1
  b2 ← index bytes 2
  ensure (b0 == header_byte) (frame (FrameError.header b0))
  ensure (leb (Info.u16_of_le b1 b2) (length bytes)) (frame (FrameError.length (length bytes)))
  b3 ← index bytes ctrl_field_offset
  ctrl ← ctrl_of_u8 b3
  ud_bytes ← slice bytes user_data_offset (length bytes - last_size)
  ud ← User.from_bytes (get_info_field_type ctrl) ud_bytes
  checksum ← index bytes (length bytes - last_size)
  part ← slice bytes ctrl_field_offset (length bytes - last_size)
  ensure (checksum == calc_checksum part)
      (frame (FrameError.checksum checksum (calc_checksum part)))
  tail ← index bytes (length bytes - 1)
  ensure (tail == tail_byte) (frame (FrameError.tail tail))
  ok (record {
    header = record { header = b0; length = Info.u16_of_le b1 b2 };
    ctrl_field = ctrl;
    user_data = ud;
    checksum = checksum;
    tail = tail;
  })
