-- ===== src/Protocol/InfoField/Codec.antt =====
-- info_field.rs: what the six bytes and the fields have to do with one another.
use plc_service_rust.Base.{
  ℕ, ◌+◌, ◌*◌, ◌/◌, ◌%◌, ◌<◌, ◌≡◌, refl, ap, ◌∙◌, List, [], ◌∷◌, length, All, ok, err, arith, ◌≢◌,
}
use plc_service_rust.Base.Bits.{
  mask_01, mask_02, mask_04, mask_08, mask_0f, mask_7f, mask_80, mask_f0, bit_or_shl_1,
  bit_or_shl_2, bit_or_shl_3, bit_or_shl_4, bit_or_shl_7,
}
use plc_service_rust.Protocol.Fault.{message}
use plc_service_rust.Protocol.InfoField.{
  InfoFieldType, InfoFieldDown, InfoFieldUp, InfoField, down_of_bytes, up_of_bytes, from_bytes,
  to_bytes, get_type,
}

abbrev pub IsByte : ℕ → Type 0
IsByte b = b < 256

-- Each field fits the bits that the format has for it.
pub record DownFits (d : InfoFieldDown) : Type 0 where
  pub route_flag : d.route_flag < 2
  pub node_flag : d.node_flag < 2
  pub comm_model_mark : d.comm_model_mark < 2
  pub conflict_check : d.conflict_check < 2
  pub relay_level : d.relay_level < 16
  pub channel_flag : d.channel_flag < 16
  pub ecc : d.ecc < 16
  pub answer_bytes : d.answer_bytes < 256
  pub speed : d.speed < 32768
  pub speed_unit_flag : d.speed_unit_flag < 2
  pub seq_num : d.seq_num < 256

pub record UpFits (u : InfoFieldUp) : Type 0 where
  pub route_flag : u.route_flag < 2
  pub comm_model_mark : u.comm_model_mark < 2
  pub relay_level : u.relay_level < 16
  pub channel_flag : u.channel_flag < 16
  pub line_mark : u.line_mark < 16
  pub meter_feature : u.meter_feature < 16
  pub cmd_signal_quality : u.cmd_signal_quality < 16
  pub res_signal_quality : u.res_signal_quality < 16
  pub event_mark : u.event_mark < 256
  pub seq_num : u.seq_num < 256

abbrev pub Fits : InfoField → Type 0
Fits (InfoField.down d) = DownFits d
Fits (InfoField.up u) = UpFits u

-- The fields in plain arithmetic.
abbrev down_values : ℕ → ℕ → ℕ → ℕ → ℕ → ℕ → InfoFieldDown
down_values b0 b1 b2 b3 b4 b5 = record {
  route_flag = b0 % 2;
  node_flag = b0 / 2 % 2;
  comm_model_mark = b0 / 4 % 2;
  conflict_check = b0 / 8 % 2;
  relay_level = b0 / 16;
  channel_flag = b1 % 16;
  ecc = b1 / 16;
  answer_bytes = b2;
  speed = b3 + b4 % 128 * 256;
  speed_unit_flag = b4 / 128;
  seq_num = b5;
}

abbrev up_values : ℕ → ℕ → ℕ → ℕ → ℕ → ℕ → InfoFieldUp
up_values b0 b1 b2 b3 b4 b5 = record {
  route_flag = b0 % 2;
  comm_model_mark = b0 / 4 % 2;
  relay_level = b0 / 16;
  channel_flag = b1 % 16;
  line_mark = b2 % 16;
  meter_feature = b2 / 16;
  cmd_signal_quality = b3 % 16;
  res_signal_quality = b3 / 16;
  event_mark = b4;
  seq_num = b5;
}

down_of_bytes_values :
    (b0 b1 b2 b3 b4 b5 : ℕ)
    → IsByte b0
    → IsByte b1
    → IsByte b4
    → down_of_bytes (b0 ∷ b1 ∷ b2 ∷ b3 ∷ b4 ∷ b5 ∷ []) ≡ ok (down_values b0 b1 b2 b3 b4 b5)
unfolding down_of_bytes
down_of_bytes_values b0 b1 b2 b3 b4 b5 h0 h1 h4 = ground (
  arith,
  mask_01 b0 h0,
  mask_02 b0 h0,
  mask_04 b0 h0,
  mask_08 b0 h0,
  mask_f0 b0 h0,
  mask_0f b1 h1,
  mask_f0 b1 h1,
  mask_7f b4 h4,
  mask_80 b4 h4,
)

up_of_bytes_values :
    (b0 b1 b2 b3 b4 b5 : ℕ)
    → IsByte b0
    → IsByte b1
    → IsByte b2
    → IsByte b3
    → up_of_bytes (b0 ∷ b1 ∷ b2 ∷ b3 ∷ b4 ∷ b5 ∷ []) ≡ ok (up_values b0 b1 b2 b3 b4 b5)
unfolding up_of_bytes
up_of_bytes_values b0 b1 b2 b3 b4 b5 h0 h1 h2 h3 = ground (
  arith,
  mask_01 b0 h0,
  mask_04 b0 h0,
  mask_f0 b0 h0,
  mask_0f b1 h1,
  mask_0f b2 h2,
  mask_f0 b2 h2,
  mask_0f b3 h3,
  mask_f0 b3 h3,
)

-- The bytes in plain arithmetic.
abbrev down_bytes : InfoFieldDown → List ℕ
down_bytes d =
    (d.route_flag
      + d.node_flag * 2
      + d.comm_model_mark * 4
      + d.conflict_check * 8
      + d.relay_level * 16)
    ∷ (d.channel_flag + d.ecc * 16)
    ∷ d.answer_bytes
    ∷ d.speed % 256
    ∷ (d.speed / 256 + d.speed_unit_flag * 128)
    ∷ d.seq_num
    ∷ []

to_bytes-down : (d : InfoFieldDown) → DownFits d → to_bytes (InfoField.down d) ≡ down_bytes d
unfolding to_bytes
to_bytes-down d h =
    rw
      (
        bit_or_shl_1 d.route_flag d.node_flag h.route_flag (omega arith),
        bit_or_shl_2 (d.route_flag + d.node_flag * 2) d.comm_model_mark (omega arith) (omega arith),
        bit_or_shl_3 (d.route_flag + d.node_flag * 2 + d.comm_model_mark * 4) d.conflict_check
            (omega arith) (omega arith),
        bit_or_shl_4 (d.route_flag + d.node_flag * 2 + d.comm_model_mark * 4 + d.conflict_check * 8)
            d.relay_level (omega arith) h.relay_level,
        bit_or_shl_4 d.channel_flag d.ecc h.channel_flag h.ecc,
        mask_7f (d.speed / 256 % 256) (omega arith),
        bit_or_shl_7 (d.speed / 256 % 256 % 128) d.speed_unit_flag (omega arith) h.speed_unit_flag,
      )
      (ground arith)

abbrev up_bytes : InfoFieldUp → List ℕ
up_bytes u =
    (u.route_flag + u.comm_model_mark * 4 + u.relay_level * 16)
    ∷ u.channel_flag
    ∷ (u.line_mark + u.meter_feature * 16)
    ∷ (u.cmd_signal_quality + u.res_signal_quality * 16)
    ∷ u.event_mark
    ∷ u.seq_num
    ∷ []

to_bytes-up : (u : InfoFieldUp) → UpFits u → to_bytes (InfoField.up u) ≡ up_bytes u
unfolding to_bytes
to_bytes-up u h = rw (
  bit_or_shl_2 u.route_flag u.comm_model_mark (omega arith) (omega arith),
  bit_or_shl_4 (u.route_flag + u.comm_model_mark * 4) u.relay_level (omega arith) h.relay_level,
  bit_or_shl_4 u.line_mark u.meter_feature h.line_mark h.meter_feature,
  bit_or_shl_4 u.cmd_signal_quality u.res_signal_quality (omega arith) (omega arith),
)

down_values-down_bytes : (d : InfoFieldDown) → DownFits d → down_of_bytes (down_bytes d) ≡ ok d
down_values-down_bytes d h =
    down_of_bytes_values _ _ _ _ _ _ (omega arith) (omega arith) (omega arith)
    ∙ ap ok (ground arith)

up_values-up_bytes : (u : InfoFieldUp) → UpFits u → up_of_bytes (up_bytes u) ≡ ok u
up_values-up_bytes u h =
    up_of_bytes_values _ _ _ _ _ _ (omega arith) (omega arith) (omega arith) (omega arith)
    ∙ ap ok (ground arith)

-- An information field whose parts fit their bits is read back from its own six bytes.
pub from_bytes-to_bytes_info :
    (f : InfoField) → Fits f → from_bytes (get_type f) (to_bytes f) ≡ ok f
unfolding from_bytes
from_bytes-to_bytes_info (InfoField.down d) h =
    rw (to_bytes-down d h) (rw (down_values-down_bytes d h))
from_bytes-to_bytes_info (InfoField.up u) h = rw (to_bytes-up u h) (rw (up_values-up_bytes u h))

-- A list of six elements, taken apart.
six_elements :
    (bytes : List ℕ)
    → length bytes ≡ 6
    → (b0 b1 b2 b3 b4 b5 : ℕ) × (bytes ≡ b0 ∷ b1 ∷ b2 ∷ b3 ∷ b4 ∷ b5 ∷ [])
six_elements (b0 ∷ b1 ∷ b2 ∷ b3 ∷ b4 ∷ b5 ∷ []) h = (b0, b1, b2, b3, b4, b5, refl)
six_elements [] h = absurd (omega arith)
six_elements (b0 ∷ []) h = absurd (omega arith)
six_elements (b0 ∷ b1 ∷ []) h = absurd (omega arith)
six_elements (b0 ∷ b1 ∷ b2 ∷ []) h = absurd (omega arith)
six_elements (b0 ∷ b1 ∷ b2 ∷ b3 ∷ []) h = absurd (omega arith)
six_elements (b0 ∷ b1 ∷ b2 ∷ b3 ∷ b4 ∷ []) h = absurd (omega arith)
six_elements (b0 ∷ b1 ∷ b2 ∷ b3 ∷ b4 ∷ b5 ∷ b6 ∷ bs) h = absurd (omega arith)

from_bytes_six :
    (t : InfoFieldType) (b0 b1 b2 b3 b4 b5 : ℕ)
    → All IsByte (b0 ∷ b1 ∷ b2 ∷ b3 ∷ b4 ∷ b5 ∷ [])
    → (f : InfoField) × (from_bytes t (b0 ∷ b1 ∷ b2 ∷ b3 ∷ b4 ∷ b5 ∷ []) ≡ ok f)
      × (get_type f ≡ t)
      × Fits f
unfolding from_bytes
from_bytes_six InfoFieldType.down b0 b1 b2 b3 b4 b5 h = (
  InfoField.down (down_values b0 b1 b2 b3 b4 b5),
  rw (down_of_bytes_values b0 b1 b2 b3 b4 b5 (omega arith) (omega arith) (omega arith)),
  refl,
  omega arith,
)
from_bytes_six InfoFieldType.up b0 b1 b2 b3 b4 b5 h = (
  InfoField.up (up_values b0 b1 b2 b3 b4 b5),
  rw (up_of_bytes_values b0 b1 b2 b3 b4 b5 (omega arith) (omega arith) (omega arith) (omega arith)),
  refl,
  omega arith,
)

-- Any six bytes are read, in either direction: the result has the type that was asked for, and each
-- of its parts fits the bits that the format has for it.
pub from_bytes_total :
    (t : InfoFieldType) (bytes : List ℕ)
    → All IsByte bytes
    → length bytes ≡ 6
    → (f : InfoField) × (from_bytes t bytes ≡ ok f) × (get_type f ≡ t) × Fits f
from_bytes_total t bytes hb h =
    let (b0, b1, b2, b3, b4, b5, e) = six_elements bytes h in
    let (f, p, q, r) = from_bytes_six t b0 b1 b2 b3 b4 b5 (rw e at hb) in (f, rw e p, q, r)

-- Any other number of bytes is refused with the error of the size check, in either direction.
pub from_bytes_size :
    (t : InfoFieldType) (bytes : List ℕ)
    → length bytes ≢ 6
    → from_bytes t bytes ≡ err (message "Invalid info field size")
unfolding from_bytes down_of_bytes up_of_bytes
from_bytes_size InfoFieldType.down bytes h = ground arith
from_bytes_size InfoFieldType.up bytes h = ground arith

down_bytes-down_values :
    (b0 b1 b2 b3 b4 b5 : ℕ)
    → IsByte b0
    → IsByte b3
    → IsByte b4
    → down_bytes (down_values b0 b1 b2 b3 b4 b5) ≡ b0 ∷ b1 ∷ b2 ∷ b3 ∷ b4 ∷ b5 ∷ []
down_bytes-down_values b0 b1 b2 b3 b4 b5 h0 h3 h4 = ground arith

-- In the down direction no bit is lost: any six bytes are written again as they were read.
pub to_bytes-from_bytes_info :
    (bytes : List ℕ) (f : InfoField)
    → All IsByte bytes
    → length bytes ≡ 6
    → from_bytes InfoFieldType.down bytes ≡ ok f
    → to_bytes f ≡ bytes
unfolding from_bytes
to_bytes-from_bytes_info bytes f hb h p =
    let (b0, b1, b2, b3, b4, b5, e) = six_elements bytes h in
    let all : All IsByte (b0 ∷ b1 ∷ b2 ∷ b3 ∷ b4 ∷ b5 ∷ []) = rw e at hb in
    let values : InfoField = InfoField.down (down_values b0 b1 b2 b3 b4 b5) in
    let q : from_bytes InfoFieldType.down (b0 ∷ b1 ∷ b2 ∷ b3 ∷ b4 ∷ b5 ∷ []) ≡ ok values =
      rw (down_of_bytes_values b0 b1 b2 b3 b4 b5 (omega arith) (omega arith) (omega arith)) in
    let same : values ≡ f = cc in
    rw (← same, e)
      (to_bytes-down (down_values b0 b1 b2 b3 b4 b5) (omega arith)
        ∙ down_bytes-down_values b0 b1 b2 b3 b4 b5 (omega arith) (omega arith) (omega arith))
