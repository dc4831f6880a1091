-- ===== src/Examples/Streams.antt =====
-- The reader of the serial line.
use plc_service_rust.Base.{
  ℕ, ◌≡◌, refl, List, [], ◌∷◌, ◌++◌, map, length, none, ok, panic, arith, false, ap, sym,
}
use plc_service_rust.Protocol.UserData as User
use plc_service_rust.Protocol.Frame.{
  ctrl_of_u8, dir_of_u8, prm_of_u8, comm_of_u8, to_bytes, of_bytes, header_byte, Dir, Prm, Comm,
}
use plc_service_rust.Protocol.Frame.Build.{built-IsFrame, built_counted}
use plc_service_rust.Protocol.Frame.Parts.{layout}
use plc_service_rust.Serial.Reader.{chunk, got, parse_frame, read_response}
use plc_service_rust.Serial.Reader.Whole.{IsWhole, parse_frame_part}
use plc_service_rust.Serial.Reader.Stream.{
  joined, read_response_frame, responses, responses-joined, frames_to_bytes,
}
use plc_service_rust.Serial.Reader.Junk.{parse_frame_junk, of_bytes_short_body}
use plc_service_rust.Examples.Frames.{init_frame_bytes}
use plc_service_rust.Examples.Inputs.{init_app, init_app-IsCanonical, init_frame, init_bytes}

init_frame-IsWhole : IsWhole init_frame
init_frame-IsWhole = record {
  frame =
      built-IsFrame false 0 2 none init_app (omega arith) init_app-IsCanonical (λ e. cc)
        (λ e. omega arith) (unfold User.new in omega arith);
  exact =
      built_counted false 0 2 none init_app (omega arith) init_app-IsCanonical (λ e. cc)
        (λ e. omega arith) (unfold User.new in omega arith);
}

-- The frame in two pieces, and one byte of the next frame.
abbrev pieces : List (List ℕ)
pieces =
    (0x68 ∷ 0x0f ∷ 0x00 ∷ 0x43 ∷ 0 ∷ [])
    ∷ (0 ∷ 0 ∷ 0 ∷ 0 ∷ 0 ∷ 0x01 ∷ 0x02 ∷ 0x00 ∷ 0x46 ∷ 0x16 ∷ 0x68 ∷ [])
    ∷ []

joined-pieces : joined pieces ≡ to_bytes init_frame ++ (0x68 ∷ [])
joined-pieces = ap (λ b. b ++ (0x68 ∷ [])) (sym init_frame_bytes)

read_response_frame_example :
    (buffer' : List ℕ) × (rest : List (List ℕ)) × (read_response [] (map chunk pieces)
      ≡ got init_frame buffer' (map chunk rest))
    × (buffer' ++ joined rest ≡ 0x68 ∷ [])
read_response_frame_example =
    read_response_frame init_frame pieces [] (0x68 ∷ []) init_frame-IsWhole joined-pieces

abbrev twice : List ℕ
twice = init_bytes ++ init_bytes

joined-twice : joined (twice ∷ []) ≡ frames_to_bytes (init_frame ∷ init_frame ∷ []) ++ []
joined-twice = ap (λ b. (b ++ (b ++ [])) ++ []) (sym init_frame_bytes)

responses-joined_example : responses 2 [] (map chunk (twice ∷ [])) ≡ init_frame ∷ init_frame ∷ []
responses-joined_example =
    responses-joined (init_frame ∷ init_frame ∷ []) (twice ∷ []) []
      (init_frame-IsWhole, (init_frame-IsWhole, tt)) joined-twice

parse_frame_part_example :
    parse_frame (0x68 ∷ 0x0f ∷ 0x00 ∷ 0x43 ∷ 0 ∷ []) ≡ ok (none, 0x68 ∷ 0x0f ∷ 0x00 ∷ 0x43 ∷ 0 ∷ [])
parse_frame_part_example =
    parse_frame_part init_frame init_frame-IsWhole (0x68 ∷ 0x0f ∷ 0x00 ∷ 0x43 ∷ 0 ∷ [])
      (0 ∷ 0 ∷ 0 ∷ 0 ∷ 0 ∷ 0x01 ∷ 0x02 ∷ 0x00 ∷ 0x46 ∷ 0x16 ∷ []) init_frame_bytes (omega arith)

-- The case of the repository's test `test_frame_parse_invalid_header`.
parse_frame_junk_example :
    parse_frame (0 ∷ to_bytes init_frame) ≡ ok (none, 0 ∷ to_bytes init_frame)
parse_frame_junk_example =
    parse_frame_junk init_frame 0 init_frame-IsWhole
      (omega (arith, ap (length {0}) init_frame_bytes)) (omega arith)

ctrl_43 : ctrl_of_u8 0x43 ≡ ok (record { dir = Dir.down; prm = Prm.master; comm = Comm.hplc })
unfolding ctrl_of_u8 dir_of_u8 prm_of_u8 comm_of_u8
ctrl_43 = refl

of_bytes_short_body_example : of_bytes (layout header_byte 0x06 0x00 0x43 [] 0x43 0x16) ≡ panic
of_bytes_short_body_example =
    of_bytes_short_body 0x06 0x00 0x43 [] 0x43 0x16
      (record { dir = Dir.down; prm = Prm.master; comm = Comm.hplc }) ctrl_43 (omega arith)
      (omega arith)
