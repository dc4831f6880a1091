-- ===== src/Protocol/Frame/Cursor.antt =====
-- frame.rs, `Frame::parse`: a frame out of a cursor over the bytes received so far.
use plc_service_rust.Base.{
  ℕ, zero, suc, ◌+◌, ◌-◌, ◌==◌, leb, ltb, if◌then◌else◌, List, length, get_elem?, Option, none,
  some, Outcome, ok, panic, slice, index, ◌>>=◌,
}
use plc_service_rust.Protocol.Fault.{Error}
use plc_service_rust.Protocol.InfoField.{u16_of_le}
use plc_service_rust.Protocol.Frame.{Frame, header_byte, header_size, of_bytes}

-- The loop that skips bytes up to a start byte, with the bytes left as fuel. There is an element at
-- `position` just if `position < end`.
unfoldable pub skip : ℕ → List ℕ → ℕ → ℕ
skip zero bytes position = position
skip (suc fuel) bytes position = elim (get_elem? bytes position) [
  | none ↦ position
  | some b ↦ if b == header_byte then position else skip fuel bytes (position + 1)
]

-- `a - b` on `usize` with overflow checks.
abbrev pub sub_usize : ℕ → ℕ → Outcome Error ℕ
sub_usize a b = if leb b a then ok (a - b) else panic

-- The part of `Frame::parse` after the loop, with the cursor's position `start`. The length is taken
-- from the second and third byte of all bytes, not of those from `start` on.
unfoldable pub parse_from : List ℕ → ℕ → Outcome Error (Option Frame × ℕ)
parse_from bytes start = do
  available ← sub_usize (length bytes) start
  if ltb available header_size then ok (none, start) else (do
    field ← slice bytes 1 header_size
    lo ← index field 0
    hi ← index field 1
    if ltb available (u16_of_le lo hi) then ok (none, start) else (do
      part ← slice bytes start (start + u16_of_le lo hi)
      f ← of_bytes part
      ok (some f, start + u16_of_le lo hi)))

-- The result and the position of the cursor after the call.
unfoldable pub parse : List ℕ → ℕ → Outcome Error (Option Frame × ℕ)
parse bytes position = parse_from bytes (skip (length bytes) bytes position)
