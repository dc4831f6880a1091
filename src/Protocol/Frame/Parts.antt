-- ===== src/Protocol/Frame/Parts.antt =====
-- frame.rs: `Frame::try_from` on bytes that are laid out as a frame, and the checksum.
use plc_service_rust.Base.{
  ℕ, ◌+◌, ◌-◌, ◌<◌, ◌≡◌, refl, ap, sym, ◌∙◌, ok, err, ◌>>=◌, ◌>>◌, arith, leb, ◌==◌, true, List, [],
  ◌∷◌, ◌++◌, length, length-append, append_assoc, le→leb, slice, slice-append, index, unwrap,
  get_elem?-append, Outcome, ensure,
}
use plc_service_rust.Protocol.Fault.{Error, frame, FrameError}
use plc_service_rust.Protocol.InfoField.{u16_of_le}
use plc_service_rust.Protocol.UserData as User
use plc_service_rust.Protocol.UserData.{UserData}
use plc_service_rust.Protocol.Frame.{
  Frame, ctrl_of_u8, get_info_field_type, calc_checksum, of_bytes, header_byte, tail_byte,
}

-- The bytes of a frame: header, length (two bytes), control field, user data, checksum, tail.
abbrev pub layout : ℕ → ℕ → ℕ → ℕ → List ℕ → ℕ → ℕ → List ℕ
layout h lo hi c body ck t = h ∷ lo ∷ hi ∷ c ∷ (body ++ (ck ∷ t ∷ []))

-- What `Frame::try_from` does on a layout, without its indices.
abbrev pub read_layout : ℕ → ℕ → ℕ → ℕ → List ℕ → ℕ → ℕ → Outcome Error Frame
read_layout h lo hi c body ck t = do
  ensure (h == header_byte) (frame (FrameError.header h))
  ensure (leb (u16_of_le lo hi) (length body + 6)) (frame (FrameError.length (length body + 6)))
  ctrl ← ctrl_of_u8 c
  ud ← User.from_bytes (get_info_field_type ctrl) body
  ensure (ck == calc_checksum (c ∷ body))
      (frame (FrameError.checksum ck (calc_checksum (c ∷ body))))
  ensure (t == tail_byte) (frame (FrameError.tail t))
  ok (record {
    header = record { header = h; length = u16_of_le lo hi };
    ctrl_field = ctrl;
    user_data = ud;
    checksum = ck;
    tail = t;
  })

pub length-layout :
    (h lo hi c : ℕ) (body : List ℕ) (ck t : ℕ)
    → length (layout h lo hi c body ck t) ≡ length body + 6
length-layout h lo hi c body ck t = omega (arith, length-append body (ck ∷ t ∷ []))

module _ (h lo hi c : ℕ) (body : List ℕ) (ck t : ℕ) where
  abbrev all : List ℕ
  all = layout h lo hi c body ck t

  slice_body : slice {E = Error} all 4 (length all - 2) ≡ ok body
  slice_body =
      slice-append (h ∷ lo ∷ hi ∷ c ∷ []) body (ck ∷ t ∷ []) 4 _ refl
        (omega (arith, length-layout h lo hi c body ck t))

  pub slice_summed : slice {E = Error} all 3 (length all - 2) ≡ ok (c ∷ body)
  slice_summed =
      slice-append (h ∷ lo ∷ hi ∷ []) (c ∷ body) (ck ∷ t ∷ []) 3 _ refl
        (omega (arith, length-layout h lo hi c body ck t))

  index_checksum : index {E = Error} all (length all - 2) ≡ ok ck
  index_checksum = ap unwrap (
      get_elem?-append (length all - 2) (h ∷ lo ∷ hi ∷ c ∷ body) ck (t ∷ [])
        (omega (arith, length-layout h lo hi c body ck t)))

  index_tail : index {E = Error} all (length all - 1) ≡ ok t
  index_tail =
      ap (λ b. index b (length all - 1))
        (sym (append_assoc (h ∷ lo ∷ hi ∷ c ∷ body) (ck ∷ []) (t ∷ [])))
      ∙ ap unwrap (
          get_elem?-append (length all - 1) ((h ∷ lo ∷ hi ∷ c ∷ body) ++ (ck ∷ [])) t []
            (omega (arith, length-layout h lo hi c body ck t, length-append body (ck ∷ []))))

  pub of_bytes-layout : of_bytes all ≡ read_layout h lo hi c body ck t
  unfolding of_bytes
  of_bytes-layout =
      let size : length all ≡ length body + 6 = length-layout h lo hi c body ck t in
      let long : leb 6 (length all) ≡ true = le→leb _ _ (omega arith) in
      rw (long, slice_body, slice_summed, index_checksum, index_tail, size)

-- Bytes that are read as a frame have the start byte, the checksum of control field and user data,
-- and the end byte.
pub accepts-layout :
    (h lo hi c : ℕ) (body : List ℕ) (ck t : ℕ) (f : Frame)
    → of_bytes (layout h lo hi c body ck t) ≡ ok f
    → (h ≡ header_byte) × (ck ≡ calc_checksum (c ∷ body)) × (t ≡ tail_byte)
accepts-layout h lo hi c body ck t f e =
    let r : read_layout h lo hi c body ck t ≡ ok f =
      sym (of_bytes-layout h lo hi c body ck t) ∙ e in
    ground arith

-- Fewer than six bytes are refused.
pub of_bytes_short :
    (bytes : List ℕ)
    → length bytes < 6
    → of_bytes bytes ≡ err (frame (FrameError.length (length bytes)))
unfolding of_bytes
of_bytes_short bytes h = ground arith
