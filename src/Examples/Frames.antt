-- ===== src/Examples/Frames.antt =====
-- User data and frames.
use plc_service_rust.Base.{
  ◌≡◌, ◌≢◌, refl, [], ◌∷◌, length, none, some, ok, arith, ◌>>=◌, false, ap, ◌∙◌, sym,
}
use plc_service_rust.Protocol.InfoField as Info
use plc_service_rust.Protocol.InfoField.{InfoFieldType}
use plc_service_rust.Protocol.AppData as App
use plc_service_rust.Protocol.AppData.{AppData}
use plc_service_rust.Protocol.UserData as User
use plc_service_rust.Protocol.UserData.{UserData, AddressField}
use plc_service_rust.Protocol.UserData.Codec as UserCodec
use plc_service_rust.Protocol.UserData.Codec.{IsSound}
use plc_service_rust.Protocol.UserData.Relays.{relays_lost, leftover, seen, sent}
use plc_service_rust.Protocol.Frame.{
  Frame, CtrlField, Dir, Prm, Comm, ctrl_to_u8, ctrl_of_u8, to_bytes, of_bytes, new, calc_checksum,
  checksum_loop, dir_of_u8, prm_of_u8, comm_of_u8,
}
use plc_service_rust.Protocol.Frame.Checksum.{one_byte_error}
use plc_service_rust.Protocol.Frame.Codec.{IsFrame, of_bytes-to_bytes_frame}
use plc_service_rust.Protocol.Frame.Build.{new_readable, built, built-IsFrame}
use plc_service_rust.Examples.Inputs.{
  init_app, init_app-IsCanonical, forward_app, forward_app-IsCanonical, node, one_relay, init_bytes,
  init_frame,
}

forward_data-IsSound : IsSound (User.new 5 (some one_relay) forward_app)
forward_data-IsSound =
    UserCodec.new-IsSound 5 1 (some one_relay) forward_app (omega arith) forward_app-IsCanonical
      (λ e. cc)
      (refl, omega arith, record { src = refl; dst = refl; relays = (omega arith, omega arith) })

from_bytes-to_bytes_user_example :
    User.from_bytes
      (Info.get_type (User.new 5 (some one_relay) forward_app).info_field)
      (User.to_bytes (User.new 5 (some one_relay) forward_app))
    ≡ ok (User.new 5 (some one_relay) forward_app)
from_bytes-to_bytes_user_example =
    UserCodec.from_bytes-to_bytes_user (User.new 5 (some one_relay) forward_app)
      forward_data-IsSound

relays_lost_example :
    User.from_bytes InfoFieldType.down
      (User.to_bytes (sent 0 (node 1) (node 2 ∷ node 3 ∷ []) (node 4) forward_app))
    ≡ (App.of_bytes (leftover [] (node 4) forward_app) >>= λ read. ok (record {
      info_field = (sent 0 (node 1) (node 2 ∷ node 3 ∷ []) (node 4) forward_app).info_field;
      address_field = some (seen (node 1) (node 2) (node 3));
      app_data = read;
    }))
relays_lost_example =
    relays_lost 0 (node 1) (node 2) (node 3) [] (node 4) forward_app (omega arith) (omega arith)
      refl

init_frame-IsFrame : IsFrame init_frame
init_frame-IsFrame =
    built-IsFrame false 0 2 none init_app (omega arith) init_app-IsCanonical (λ e. cc)
      (λ e. omega arith) (unfold User.new in omega arith)

new_readable_example :
    (f : Frame) × (new false 0 none init_app ≡ ok f)
    × (f.user_data ≡ User.new 0 none init_app)
    × (f.header.length ≡ length (to_bytes f))
    × (of_bytes (to_bytes f) ≡ ok f)
new_readable_example =
    new_readable false 0 2 none init_app (omega arith) init_app-IsCanonical (λ e. cc)
      (λ e. omega arith) (unfold User.new in omega arith)

of_bytes-to_bytes_frame_example : of_bytes (to_bytes init_frame) ≡ ok init_frame
of_bytes-to_bytes_frame_example = of_bytes-to_bytes_frame init_frame init_frame-IsFrame

-- The bytes of the repository's test are those of the frame that is built for the same request.
pub init_frame_bytes : to_bytes init_frame ≡ init_bytes
unfolding to_bytes built calc_checksum checksum_loop ctrl_to_u8 User.new User.to_bytes Info.new
    Info.to_bytes App.to_bytes
init_frame_bytes = refl

init_accepted : of_bytes init_bytes ≡ ok init_frame
init_accepted =
    ap of_bytes (sym init_frame_bytes) ∙ of_bytes-to_bytes_frame init_frame init_frame-IsFrame

one_byte_error_example :
    of_bytes
      (0x68 ∷ 0x0f ∷ 0x00 ∷ 0x43 ∷ 0 ∷ 0 ∷ 0 ∷ 0 ∷ 0 ∷ 0 ∷ 0x01 ∷ 0x04 ∷ 0x00 ∷ 0x46 ∷ 0x16 ∷ [])
    ≢ ok init_frame
one_byte_error_example =
    one_byte_error (0x68 ∷ 0x0f ∷ 0x00 ∷ 0x43 ∷ 0 ∷ 0 ∷ 0 ∷ 0 ∷ 0 ∷ 0 ∷ 0x01 ∷ [])
      (0x00 ∷ 0x46 ∷ 0x16 ∷ []) 0x02 0x04 init_frame init_frame (omega arith) (omega arith)
      (omega arith) (omega arith) (omega arith) init_accepted

abbrev up_control : CtrlField
up_control = record { dir = Dir.up; prm = Prm.slave; comm = Comm.hplc }

ctrl_83 : ctrl_of_u8 0x83 ≡ ok up_control
unfolding ctrl_of_u8 dir_of_u8 prm_of_u8 comm_of_u8
ctrl_83 = refl
