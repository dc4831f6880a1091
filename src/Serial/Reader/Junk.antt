-- ===== src/Serial/Reader/Junk.antt =====
-- frame.rs, `Frame::parse` and `Frame::try_from`, on bytes that are no frame or stand behind some.
use plc_service_rust.Base.{
  ℕ, ◌+◌, ◌-◌, ◌/◌, ◌%◌, ◌≤◌, ◌<◌, ◌≡◌, ◌≢◌, ap, sym, ◌∙◌, ok, panic, arith, ltb, true, List, ◌∷◌,
  length, none, lt→ltb, lt→leb_false, le→leb, ne→==_false,
}
use plc_service_rust.Protocol.InfoField.{u16_of_le}
use plc_service_rust.Protocol.UserData as User
use plc_service_rust.Protocol.Frame.{
  Frame, CtrlField, ctrl_of_u8, get_info_field_type, to_bytes, of_bytes, header_byte,
}
use plc_service_rust.Protocol.Frame.Parts.{layout, of_bytes-layout}
use plc_service_rust.Protocol.Frame.Cursor.{skip, parse_from, parse}
use plc_service_rust.Serial.Reader.{parse_frame}
use plc_service_rust.Serial.Reader.Whole.{IsWhole, after_length, whole_shape, parse_from_three}

-- One byte before a whole frame of less than 256 bytes keeps the frame from being taken, though all of
-- it is in the buffer: the length is read one byte too early, over the start byte.
pub parse_frame_junk :
    (f : Frame) (b : ℕ)
    → IsWhole f
    → length (to_bytes f) < 256
    → b ≢ header_byte
    → parse_frame (b ∷ to_bytes f) ≡ ok (none, b ∷ to_bytes f)
unfolding parse_frame parse
parse_frame_junk f b w short ne =
    let lo : ℕ = f.header.length % 256 in
    let hi : ℕ = f.header.length / 256 % 256 in
    let bytes : List ℕ = b ∷ header_byte ∷ lo ∷ hi ∷ after_length f in
    let shape : b ∷ to_bytes f ≡ bytes = ap (λ r. b ∷ r) (whole_shape f w) in
    let size : length (to_bytes f) ≡ 3 + length (after_length f) =
      ap length (whole_shape f w) ∙ omega arith in
    let start : skip (length bytes) bytes 0 ≡ 1 =
      unfold skip in rw (ne→==_false b header_byte ne) in
    let wait : ltb (3 + length (hi ∷ after_length f) - 1) (u16_of_le header_byte lo) ≡ true =
      lt→ltb _ _ (omega (arith, w.exact)) in
    let none_yet : parse_from bytes 1 ≡ ok (none, 1) =
      parse_from_three b header_byte lo (hi ∷ after_length f) 1 (omega arith) ∙ rw wait in
    let kept : parse_frame bytes ≡ ok (none, bytes) = rw (start, none_yet) in
    ap parse_frame shape ∙ kept ∙ ap (λ r. ok (none, r)) (sym shape)

short_body :
    (ctrl : CtrlField) (body : List ℕ)
    → length body < 6
    → User.from_bytes (get_info_field_type ctrl) body ≡ panic
unfolding User.from_bytes
short_body ctrl body h = rw (lt→leb_false 6 (length body) h)

-- Bytes with a start byte, a length that they have, and a known control field, but with fewer than six
-- bytes of user data, are not refused by an error: the slice of the information field is out of range.
-- Checksum and end byte are not looked at.
pub of_bytes_short_body :
    (lo hi c : ℕ) (body : List ℕ) (ck t : ℕ) (ctrl : CtrlField)
    → ctrl_of_u8 c ≡ ok ctrl
    → u16_of_le lo hi ≤ length body + 6
    → length body < 6
    → of_bytes (layout header_byte lo hi c body ck t) ≡ panic
of_bytes_short_body lo hi c body ck t ctrl e counted h =
    of_bytes-layout header_byte lo hi c body ck t
    ∙ rw (le→leb (u16_of_le lo hi) (length body + 6) counted, e, short_body ctrl body h)
