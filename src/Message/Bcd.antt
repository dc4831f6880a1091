-- ===== src/Message/Bcd.antt =====
-- src/protocol/user_data.rs: `dec_to_hex` as binary-coded decimal.
use plc_service_rust.Base.{ℕ, ◌+◌, ◌*◌, ◌/◌, ◌%◌, ◌<◌, ok, ◌≡◌, arith}
use plc_service_rust.Protocol.UserData.{dec_to_hex}

-- Two decimal digits, the tens in the high half of the byte.
abbrev pub bcd : ℕ → ℕ
bcd n = n / 10 * 16 + n % 10

pub dec_to_hex-bcd : (n : ℕ) → n < 100 → dec_to_hex n ≡ ok (bcd n)
unfolding dec_to_hex
dec_to_hex-bcd n h = ground arith
