-- ===== src/Protocol/InfoField.antt =====
-- src/protocol/info_field.rs: the six bytes of link information. A field of the source's structs is
-- a `u8` (`speed` a `u16`) and so a number here.
pub mod Codec
use plc_service_rust.Base.{
  ℕ, ◌+◌, ◌*◌, ◌/◌, ◌%◌, ◌^◌, ◌==◌, bit_and, bit_or, List, [], ◌∷◌, length, Outcome, ok, ensure,
  index, ◌>>=◌, ◌>>◌,
}
use plc_service_rust.Base.Bits.{shl_u8}
use plc_service_rust.Protocol.Fault.{Error, message}

abbrev pub info_field_size : ℕ
info_field_size = 6

pub data InfoFieldType : Type 0 where
  down up : InfoFieldType

pub record InfoFieldDown : Type 0 where
  pub route_flag : ℕ
  pub node_flag : ℕ
  pub comm_model_mark : ℕ
  pub conflict_check : ℕ
  pub relay_level : ℕ
  pub channel_flag : ℕ
  pub ecc : ℕ
  pub answer_bytes : ℕ
  pub speed : ℕ
  pub speed_unit_flag : ℕ
  pub seq_num : ℕ

pub record InfoFieldUp : Type 0 where
  pub route_flag : ℕ
  pub comm_model_mark : ℕ
  pub relay_level : ℕ
  pub channel_flag : ℕ
  pub line_mark : ℕ
  pub meter_feature : ℕ
  pub cmd_signal_quality : ℕ
  pub res_signal_quality : ℕ
  pub event_mark : ℕ
  pub seq_num : ℕ

pub data InfoField : Type 0 where
  down : InfoFieldDown → InfoField
  up : InfoFieldUp → InfoField

-- `u16::from_le_bytes` and `u16::to_le_bytes`.
abbrev pub u16_of_le : ℕ → ℕ → ℕ
u16_of_le lo hi = lo + hi * 256

abbrev pub u16_to_le : ℕ → List ℕ
u16_to_le n = n % 256 ∷ n / 256 % 256 ∷ []

unfoldable pub down_of_bytes : List ℕ → Outcome Error InfoFieldDown
down_of_bytes bytes = do
  ensure (length bytes == info_field_size) (message "Invalid info field size")
  b0 ← index bytes 0
  b1 ← index bytes 1
  b2 ← index bytes 2
  b3 ← index bytes 3
  b4 ← index bytes 4
  b5 ← index bytes 5
  ok (record {
    route_flag = bit_and b0 0x01;
    node_flag = bit_and b0 0x02 / 2 ^ 1;
    comm_model_mark = bit_and b0 0x04 / 2 ^ 2;
    conflict_check = bit_and b0 0x08 / 2 ^ 3;
    relay_level = bit_and b0 0xF0 / 2 ^ 4;
    channel_flag = bit_and b1 0x0F;
    ecc = bit_and b1 0xF0 / 2 ^ 4;
    answer_bytes = b2;
    speed = u16_of_le b3 (bit_and b4 0x7F);
    speed_unit_flag = bit_and b4 0x80 / 2 ^ 7;
    seq_num = b5;
  })

unfoldable pub up_of_bytes : List ℕ → Outcome Error InfoFieldUp
up_of_bytes bytes = do
  ensure (length bytes == info_field_size) (message "Invalid info field size")
  b0 ← index bytes 0
  b1 ← index bytes 1
  b2 ← index bytes 2
  b3 ← index bytes 3
  b4 ← index bytes 4
  b5 ← index bytes 5
  ok (record {
    route_flag = bit_and b0 0x01;
    comm_model_mark = bit_and b0 0x04 / 2 ^ 2;
    relay_level = bit_and b0 0xF0 / 2 ^ 4;
    channel_flag = bit_and b1 0x0F;
    line_mark = bit_and b2 0x0F;
    meter_feature = bit_and b2 0xF0 / 2 ^ 4;
    cmd_signal_quality = bit_and b3 0x0F;
    res_signal_quality = bit_and b3 0xF0 / 2 ^ 4;
    event_mark = b4;
    seq_num = b5;
  })

unfoldable pub from_bytes : InfoFieldType → List ℕ → Outcome Error InfoField
from_bytes down bytes = do d ← down_of_bytes bytes; ok (InfoField.down d)
from_bytes up bytes = do u ← up_of_bytes bytes; ok (InfoField.up u)

-- `InfoField::new`; the other fields are `Default`.
unfoldable pub new : InfoFieldType → ℕ → ℕ → ℕ → InfoField
new down seq relay_level comm_model_mark = InfoField.down (record {
  route_flag = 0;
  node_flag = 0;
  comm_model_mark = comm_model_mark;
  conflict_check = 0;
  relay_level = relay_level;
  channel_flag = 0;
  ecc = 0;
  answer_bytes = 0;
  speed = 0;
  speed_unit_flag = 0;
  seq_num = seq;
})
new up seq relay_level comm_model_mark = InfoField.up (record {
  route_flag = 0;
  comm_model_mark = comm_model_mark;
  relay_level = relay_level;
  channel_flag = 0;
  line_mark = 0;
  meter_feature = 0;
  cmd_signal_quality = 0;
  res_signal_quality = 0;
  event_mark = 0;
  seq_num = seq;
})

abbrev pub get_type : InfoField → InfoFieldType
get_type (InfoField.down d) = InfoFieldType.down
get_type (InfoField.up u) = InfoFieldType.up

abbrev pub relay_level : InfoField → ℕ
relay_level (InfoField.down d) = d.relay_level
relay_level (InfoField.up u) = u.relay_level

abbrev pub comm_model_mark : InfoField → ℕ
comm_model_mark (InfoField.down d) = d.comm_model_mark
comm_model_mark (InfoField.up u) = u.comm_model_mark

abbrev pub seq_num : InfoField → ℕ
seq_num (InfoField.down d) = d.seq_num
seq_num (InfoField.up u) = u.seq_num

unfoldable pub set_comm_model_mark : InfoField → ℕ → InfoField
set_comm_model_mark (InfoField.down d) mark = InfoField.down (record d { comm_model_mark = mark })
set_comm_model_mark (InfoField.up u) mark = InfoField.up (record u { comm_model_mark = mark })

unfoldable pub to_bytes : InfoField → List ℕ
to_bytes (InfoField.down d) =
    bit_or
      (bit_or (bit_or (bit_or d.route_flag (shl_u8 d.node_flag 1)) (shl_u8 d.comm_model_mark 2))
        (shl_u8 d.conflict_check 3))
      (shl_u8 d.relay_level 4)
    ∷ bit_or d.channel_flag (shl_u8 d.ecc 4)
    ∷ d.answer_bytes
    ∷ d.speed % 256
    ∷ bit_or (bit_and (d.speed / 256 % 256) 0x7F) (shl_u8 d.speed_unit_flag 7)
    ∷ d.seq_num
    ∷ []
to_bytes (InfoField.up u) =
    bit_or (bit_or u.route_flag (shl_u8 u.comm_model_mark 2)) (shl_u8 u.relay_level 4)
    ∷ u.channel_flag
    ∷ bit_or u.line_mark (shl_u8 u.meter_feature 4)
    ∷ bit_or u.cmd_signal_quality (shl_u8 u.res_signal_quality 4)
    ∷ u.event_mark
    ∷ u.seq_num
    ∷ []
