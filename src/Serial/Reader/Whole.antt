-- ===== src/Serial/Reader/Whole.antt =====
-- frame.rs, `Frame::parse`, as the reader uses it: on a whole frame, a part of one, and behind a byte
-- that starts no frame.
use plc_service_rust.Base.{
  ℕ, zero, suc, ◌+◌, ◌-◌, ◌/◌, ◌%◌, ◌≤◌, ◌<◌, ◌≡◌, refl, ap, sym, ◌∙◌, ok, ◌>>=◌, arith, ltb, leb,
  true, false, List, [], ◌∷◌, ◌++◌, length, length-append, drop-append, some, none, slice,
  slice-append, le→leb, lt→ltb, le→ltb_false, if◌then◌else◌,
}
use plc_service_rust.Protocol.Fault.{Error}
use plc_service_rust.Protocol.InfoField.{u16_of_le}
use plc_service_rust.Protocol.UserData as User
use plc_service_rust.Protocol.Frame.{Frame, to_bytes, of_bytes, header_byte, ctrl_to_u8}
use plc_service_rust.Protocol.Frame.Codec.{
  IsFrame, to_bytes-layout, length-to_bytes, of_bytes-to_bytes_frame,
}
use plc_service_rust.Protocol.Frame.Cursor.{skip, parse_from, parse}
use plc_service_rust.Serial.Reader.{parse_frame}

-- A frame whose length field is the number of its bytes.
pub record IsWhole (f : Frame) : Type 0 where
  pub frame : IsFrame f
  pub exact : f.header.length ≡ length (to_bytes f)

-- The bytes behind the length field.
pub after_length : Frame → List ℕ
after_length f = ctrl_to_u8 f.ctrl_field ∷ (User.to_bytes f.user_data ++ (f.checksum ∷ f.tail ∷ []))

-- `Frame::parse` behind its loop, on three bytes at least and with the cursor at `start`.
pub parse_from_three :
    (h lo hi : ℕ) (rest : List ℕ) (start : ℕ)
    → start ≤ length rest
    → parse_from (h ∷ lo ∷ hi ∷ rest) start ≡ (
        if ltb (3 + length rest - start) (u16_of_le lo hi)
        then ok (none, start)
        else (slice (h ∷ lo ∷ hi ∷ rest) start (start + u16_of_le lo hi) >>= λ part.
            of_bytes part >>= λ f. ok (some f, start + u16_of_le lo hi)))
unfolding parse_from
parse_from_three h lo hi rest start le =
    let n : ℕ = length (h ∷ lo ∷ hi ∷ rest) in
    let inside : leb start n ≡ true = le→leb _ _ (omega arith) in
    let long : leb 3 n ≡ true = le→leb _ _ (omega arith) in
    let enough : ltb (n - start) 3 ≡ false = le→ltb_false _ _ (omega arith) in
    let size : n - start ≡ 3 + length rest - start = omega arith in rw (inside, enough, long, size)

module _ (f : Frame) (w : IsWhole f) where
  abbrev lo : ℕ
  lo = f.header.length % 256

  abbrev hi : ℕ
  hi = f.header.length / 256 % 256

  pub whole_shape : to_bytes f ≡ header_byte ∷ lo ∷ hi ∷ after_length f
  unfolding after_length
  whole_shape =
      to_bytes-layout f
      ∙ ap
          (λ h.
            h
            ∷ lo
            ∷ hi
            ∷ ctrl_to_u8 f.ctrl_field
            ∷ (User.to_bytes f.user_data ++ (f.checksum ∷ f.tail ∷ [])))
          w.frame.start

  pub length_number : u16_of_le lo hi ≡ length (to_bytes f)
  length_number = omega (arith, w.exact, w.frame.fits)

  pub length-ge : 6 ≤ length (to_bytes f)
  length-ge = omega (arith, length-to_bytes f)

  -- With the start byte in front, the loop moves nowhere.
  skip_none : (fuel : ℕ) (rest : List ℕ) → skip fuel (header_byte ∷ rest) 0 ≡ 0
  unfolding skip
  skip_none zero rest = refl
  skip_none (suc fuel) rest = refl

  parse_from_whole :
      (more : List ℕ) → parse_from (to_bytes f ++ more) 0 ≡ ok (some f, length (to_bytes f))
  unfolding parse_from
  parse_from_whole more =
      let all : List ℕ = header_byte ∷ lo ∷ hi ∷ (after_length f ++ more) in
      let shape : to_bytes f ++ more ≡ all = ap (λ b. b ++ more) whole_shape in
      let size : length all ≡ length (to_bytes f) + length more =
        ap length (sym shape) ∙ length-append (to_bytes f) more in
      let part : slice {E = Error} all 0 (0 + u16_of_le lo hi) ≡ ok (to_bytes f) =
        ap (λ b. slice b 0 (0 + u16_of_le lo hi)) (sym shape)
        ∙ slice-append [] (to_bytes f) more 0 _ refl (omega (arith, length_number)) in
      let enough : ltb (3 + length (after_length f ++ more) - 0) (u16_of_le lo hi) ≡ false =
        le→ltb_false _ _ (omega (arith, length_number)) in
      let number : 0 + u16_of_le lo hi ≡ length (to_bytes f) = omega (arith, length_number) in
      ap (λ b. parse_from b 0) shape
      ∙ parse_from_three header_byte lo hi (after_length f ++ more) 0 (omega arith)
      ∙ rw (enough, part, of_bytes-to_bytes_frame f w.frame, number)

  -- Whatever follows a whole frame in the buffer, the frame is taken and the rest stays.
  pub parse_frame_whole : (more : List ℕ) → parse_frame (to_bytes f ++ more) ≡ ok (some f, more)
  unfolding parse_frame parse
  parse_frame_whole more =
      let shape : to_bytes f ++ more ≡ header_byte ∷ lo ∷ hi ∷ (after_length f ++ more) =
        ap (λ b. b ++ more) whole_shape in
      let start : skip (length (to_bytes f ++ more)) (to_bytes f ++ more) 0 ≡ 0 =
        ap (λ b. skip (length b) b 0) shape ∙ skip_none _ (lo ∷ hi ∷ (after_length f ++ more)) in
      rw (start, parse_from_whole more, drop-append (length (to_bytes f)) (to_bytes f) more refl)

  parse_frame_start :
      (rest back : List ℕ)
      → after_length f ≡ rest ++ back
      → 0 < length back
      → parse_frame (header_byte ∷ lo ∷ hi ∷ rest) ≡ ok (none, header_byte ∷ lo ∷ hi ∷ rest)
  unfolding parse_frame parse
  parse_frame_start rest back e pos =
      let bytes : List ℕ = header_byte ∷ lo ∷ hi ∷ rest in
      let start : skip (length bytes) bytes 0 ≡ 0 = skip_none _ (lo ∷ hi ∷ rest) in
      let short : ltb (3 + length rest - 0) (u16_of_le lo hi) ≡ true = lt→ltb _ _ (
        omega
          (arith, length_number, ap length whole_shape, ap length e, length-append rest back)) in
      let none_yet : parse_from bytes 0 ≡ ok (none, 0) =
        parse_from_three header_byte lo hi rest 0 (omega arith) ∙ rw short in
      rw (start, none_yet)

  -- Of a proper part of a frame, from its start on, nothing is taken.
  pub parse_frame_part :
      (front back : List ℕ)
      → to_bytes f ≡ front ++ back
      → 0 < length back
      → parse_frame front ≡ ok (none, front)
  parse_frame_part [] back e pos = unfold parse_frame parse skip parse_from in refl
  parse_frame_part (a ∷ []) back e pos =
      let p : a ≡ header_byte = cc (whole_shape) in
      rw p (unfold parse_frame parse skip parse_from in refl)
  parse_frame_part (a ∷ b ∷ []) back e pos =
      let p : a ≡ header_byte = cc (whole_shape) in
      rw p (unfold parse_frame parse skip parse_from in refl)
  parse_frame_part (a ∷ b ∷ c ∷ front) back e pos =
      let p : a ≡ header_byte = cc (whole_shape) in
      let q : b ≡ lo = cc (whole_shape) in
      let r : c ≡ hi = cc (whole_shape) in
      let rest : after_length f ≡ front ++ back = cc (whole_shape) in
      rw (p, q, r) (parse_frame_start front back rest pos)
