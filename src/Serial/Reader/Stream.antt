-- ===== src/Serial/Reader/Stream.antt =====
-- serial_port.rs, `read_response`: frames out of a stream, whatever pieces the stream comes in.
use plc_service_rust.Base.{
  ℕ, zero, suc, ◌<◌, ◌≡◌, refl, ap, ◌∙◌, ok, arith, List, [], ◌∷◌, ◌++◌, map, append_assoc, length,
  length-append, some, none, inl, inr, All, ◌⊎◌,
}
use plc_service_rust.Protocol.Frame.{Frame, to_bytes}
use plc_service_rust.Serial.Reader.{Read, chunk, parse_frame, got, read_response}
use plc_service_rust.Serial.Reader.Whole.{IsWhole, parse_frame_whole, parse_frame_part}

abbrev pub joined : List (List ℕ) → List ℕ
joined [] = []
joined (c ∷ cs) = c ++ joined cs

-- Two ways to cut one list: the first cut lies at or behind the second, or before it.
cut_cases :
    (xs ys zs ws : List ℕ)
    → xs ++ ys ≡ zs ++ ws
    → ((b : List ℕ) × (xs ≡ zs ++ b) × (b ++ ys ≡ ws))
      ⊎ ((b : List ℕ) × (zs ≡ xs ++ b) × (0 < length b) × (ys ≡ b ++ ws))
cut_cases xs ys [] ws e = inl (xs, refl, e)
cut_cases [] ys (z ∷ zs) ws e = inr (z ∷ zs, refl, omega arith, e)
cut_cases (x ∷ xs) ys (z ∷ zs) ws e =
    let head : x ≡ z = cc in
    elim (cut_cases xs ys zs ws cc) [
      | inl (b, p, q) ↦ inl (b, cc, q)
      | inr (b, p, pos, q) ↦ inr (b, cc, pos, q)
    ]

read_now :
    (buffer buffer' : List ℕ) (reads : List Read) (f : Frame)
    → parse_frame buffer ≡ ok (some f, buffer')
    → read_response buffer reads ≡ got f buffer' reads
unfolding read_response
read_now buffer buffer' [] f e = rw (e, read_response)
read_now buffer buffer' (r ∷ reads) f e = rw (e, read_response)

read_on :
    (buffer bytes : List ℕ) (reads : List Read)
    → parse_frame buffer ≡ ok (none, buffer)
    → read_response buffer (chunk bytes ∷ reads) ≡ read_response (buffer ++ bytes) reads
unfolding read_response
read_on buffer bytes reads e = rw (e, read_response)

-- If the buffer and the pieces to come begin with the bytes of a whole frame, then `read_response`
-- returns that frame, and leaves just the bytes behind it, in the buffer and in the pieces not read.
pub read_response_frame :
    (f : Frame) (cs : List (List ℕ)) (buffer more : List ℕ)
    → IsWhole f
    → buffer ++ joined cs ≡ to_bytes f ++ more
    → (buffer' : List ℕ) × (rest : List (List ℕ)) × (read_response buffer (map chunk cs)
        ≡ got f buffer' (map chunk rest))
      × (buffer' ++ joined rest ≡ more)
read_response_frame f [] buffer more w e = elim (cut_cases buffer [] (to_bytes f) more e) [
  | inl (b, p, q) ↦ (b, [], read_now buffer b [] f (ap parse_frame p ∙ parse_frame_whole f w b), q)
  | inr (b, p, pos, q) ↦ absurd (omega (arith, ap (length {0}) q, length-append b more))
]
read_response_frame f (c ∷ cs) buffer more w e =
    let later =
      read_response_frame f cs (buffer ++ c) more w (append_assoc buffer c (joined cs) ∙ e) in
    elim (cut_cases buffer (c ++ joined cs) (to_bytes f) more e) [
      | inl (b, p, q) ↦ (
        b,
        c ∷ cs,
        read_now buffer b (map chunk (c ∷ cs)) f (ap parse_frame p ∙ parse_frame_whole f w b),
        q,
      )
      | inr (b, p, pos, q) ↦
          let (buffer', rest, r, s) = later in
          (
            buffer',
            rest,
            read_on buffer c (map chunk cs) (parse_frame_part f w buffer b p pos) ∙ r,
            s,
          )
    ]

-- The frames that the next `n` calls of `read_response` return, up to a call that returns none.
unfoldable pub responses : ℕ → List ℕ → List Read → List Frame
responses zero buffer reads = []
responses (suc n) buffer reads = elim (read_response buffer reads) [
  | got f buffer' reads' ↦ f ∷ responses n buffer' reads'
  | _ ↦ []
]

abbrev pub frames_to_bytes : List Frame → List ℕ
frames_to_bytes [] = []
frames_to_bytes (f ∷ fs) = to_bytes f ++ frames_to_bytes fs

responses_frames :
    (fs : List Frame) (cs : List (List ℕ)) (buffer more : List ℕ)
    → All IsWhole fs
    → buffer ++ joined cs ≡ frames_to_bytes fs ++ more
    → responses (length fs) buffer (map chunk cs) ≡ fs
unfolding responses
responses_frames [] cs buffer more w e = refl
responses_frames (f ∷ fs) cs buffer more w e =
    let (buffer', rest, r, s) =
      read_response_frame f cs buffer (frames_to_bytes fs ++ more) w.0
        (e ∙ append_assoc (to_bytes f) (frames_to_bytes fs) more) in
    rw (r, responses) (ap (λ t. f ∷ t) (responses_frames fs rest buffer' more w.1 s))

-- Whole frames that are sent one after the other are received as they are, in order, however the
-- stream cuts their bytes into pieces, and whatever follows them.
pub responses-joined :
    (fs : List Frame) (cs : List (List ℕ)) (more : List ℕ)
    → All IsWhole fs
    → joined cs ≡ frames_to_bytes fs ++ more
    → responses (length fs) [] (map chunk cs) ≡ fs
responses-joined fs cs more w e = responses_frames fs cs [] more w e
