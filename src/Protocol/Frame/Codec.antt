-- ===== src/Protocol/Frame/Codec.antt =====
-- frame.rs: a frame against its bytes, and the frames that `Frame::new` makes.
use plc_service_rust.Base.{
  ℕ, ◌+◌, ◌/◌, ◌%◌, ◌≤◌, ◌<◌, ◌≡◌, refl, ap, ◌∙◌, ok, arith, leb, ◌==◌, Bool, true, List, ◌∷◌,
  length, le→leb, Outcome, ==_refl, ==_iff,
}
use plc_service_rust.Base.Bits.{holds_below, holds_below_lem}
use plc_service_rust.Protocol.Fault.{Error}
use plc_service_rust.Protocol.InfoField as Info
use plc_service_rust.Protocol.InfoField.{u16_of_le}
use plc_service_rust.Protocol.UserData as User
use plc_service_rust.Protocol.UserData.{AddressField, UserData, user_data_length}
use plc_service_rust.Protocol.UserData.Codec as UserCodec
use plc_service_rust.Protocol.UserData.Codec.{IsSound, IsAddressed}
use plc_service_rust.Protocol.Frame.{
  Frame, Dir, Prm, Comm, CtrlField, dir_of_u8, prm_of_u8, comm_of_u8, ctrl_to_u8, ctrl_of_u8,
  get_info_field_type, calc_checksum, to_bytes, of_bytes, header_byte, tail_byte,
}
use plc_service_rust.Protocol.Frame.Parts.{layout, length-layout, of_bytes-layout}

ctrl_back :
    (d : Dir) (p : Prm) (c : Comm)
    → ctrl_of_u8 (ctrl_to_u8 (record { dir = d; prm = p; comm = c }))
      ≡ ok (record { dir = d; prm = p; comm = c })
unfolding ctrl_of_u8 ctrl_to_u8 dir_of_u8 prm_of_u8 comm_of_u8
ctrl_back Dir.down Prm.slave Comm.centralize = refl
ctrl_back Dir.down Prm.slave _ = refl
ctrl_back Dir.down Prm.master Comm.centralize = refl
ctrl_back Dir.down Prm.master _ = refl
ctrl_back Dir.up Prm.slave Comm.centralize = refl
ctrl_back Dir.up Prm.slave _ = refl
ctrl_back Dir.up Prm.master Comm.centralize = refl
ctrl_back Dir.up Prm.master _ = refl

-- Each control field is read back from its own byte.
pub ctrl_of_u8-ctrl_to_u8 : (c : CtrlField) → ctrl_of_u8 (ctrl_to_u8 c) ≡ ok c
ctrl_of_u8-ctrl_to_u8 c = ctrl_back c.dir c.prm c.comm

ctrl_same : ℕ → Outcome Error CtrlField → Bool
ctrl_same b (ok c) = ctrl_to_u8 c == b
ctrl_same b _ = true

ctrl_table : holds_below (λ b. ctrl_same b (ctrl_of_u8 b)) 256 ≡ true
unfolding holds_below ctrl_same ctrl_of_u8 ctrl_to_u8 dir_of_u8 prm_of_u8 comm_of_u8
ctrl_table = refl

-- A byte that is read as a control field is the byte of that field: no bit is lost.
pub ctrl_to_u8-ctrl_of_u8 :
    (b : ℕ) (c : CtrlField) → b < 256 → ctrl_of_u8 b ≡ ok c → ctrl_to_u8 c ≡ b
ctrl_to_u8-ctrl_of_u8 b c lt e =
    let t : ctrl_same b (ctrl_of_u8 b) ≡ true =
      holds_below_lem (λ c. ctrl_same c (ctrl_of_u8 c)) 256 b lt ctrl_table in
    let u : ctrl_same b (ok c) ≡ true = rw e at t in (==_iff _ _).0 (unfold ctrl_same in u)

-- A frame as the format has it: the start and the end byte, a length that fits two bytes and is not
-- more than the bytes there are, sound user data in the direction of the control field, and its
-- checksum.
pub record IsFrame (f : Frame) : Type 0 where
  pub start : f.header.header ≡ header_byte
  pub fits : f.header.length < 65536
  pub counted : f.header.length ≤ length (to_bytes f)
  pub sound : IsSound f.user_data
  pub direction : get_info_field_type f.ctrl_field ≡ Info.get_type f.user_data.info_field
  pub summed : f.checksum ≡ calc_checksum (ctrl_to_u8 f.ctrl_field ∷ User.to_bytes f.user_data)
  pub end_ : f.tail ≡ tail_byte

abbrev frame_layout : Frame → List ℕ
frame_layout f =
    layout f.header.header (f.header.length % 256) (f.header.length / 256 % 256)
      (ctrl_to_u8 f.ctrl_field) (User.to_bytes f.user_data) f.checksum f.tail

pub to_bytes-layout : (f : Frame) → to_bytes f ≡ frame_layout f
unfolding to_bytes
to_bytes-layout f = refl

pub length-to_bytes : (f : Frame) → length (to_bytes f) ≡ length (User.to_bytes f.user_data) + 6
length-to_bytes f =
    ap length (to_bytes-layout f)
    ∙ length-layout f.header.header (f.header.length % 256) (f.header.length / 256 % 256)
        (ctrl_to_u8 f.ctrl_field) (User.to_bytes f.user_data) f.checksum f.tail

-- Each frame of the format is read back from its own bytes.
pub of_bytes-to_bytes_frame : (f : Frame) → IsFrame f → of_bytes (to_bytes f) ≡ ok f
of_bytes-to_bytes_frame f h =
    let body : List ℕ = User.to_bytes f.user_data in
    let lo : ℕ = f.header.length % 256 in
    let hi : ℕ = f.header.length / 256 % 256 in
    let number : u16_of_le lo hi ≡ f.header.length = omega (arith, h.fits) in
    let counted : leb f.header.length (length body + 6) ≡ true =
      le→leb _ _ (omega (arith, length-to_bytes f, h.counted)) in
    let back : User.from_bytes (get_info_field_type f.ctrl_field) body ≡ ok f.user_data =
      ap (λ t. User.from_bytes t body) h.direction
      ∙ UserCodec.from_bytes-to_bytes_user f.user_data h.sound in
    ap of_bytes (to_bytes-layout f)
    ∙ of_bytes-layout f.header.header lo hi (ctrl_to_u8 f.ctrl_field) body f.checksum f.tail
    ∙ rw (
      h.start,
      number,
      counted,
      ctrl_of_u8-ctrl_to_u8 f.ctrl_field,
      back,
      h.summed,
      ==_refl,
      h.end_,
    )
