-- ===== src/Base/Bits.antt =====
-- Masks and shifts on one byte as arithmetic; each is a table of at most 256 entries, checked by
-- evaluation. `shl_u8` is Rust's `<<` on `u8`: the bits that leave the byte are lost.
use Prim.Native.Nat.{ℕ, zero, suc, ◌+◌, ◌*◌, ◌/◌, ◌%◌, ◌^◌, ◌<◌, bit_and, bit_or}
use mathlib.Core.Path.{◌≡◌, refl, ap₂, ◌∙◌, sym}
use mathlib.Core.Bool.{Bool, true, ◌&&◌}
use native.Mathlib.Omega.{arith}
use plc_service_rust.Base.Tests.{◌==◌, ==_iff}

-- A test holds at every entry of a table.
unfoldable pub holds_below : (ℕ → Bool) → ℕ → Bool
holds_below test zero = true
holds_below test (suc top) = holds_below test top && test top

pub holds_below_lem :
    (test : ℕ → Bool) (top i : ℕ) → i < top → holds_below test top ≡ true → test i ≡ true
unfolding holds_below
holds_below_lem test zero i in_range checked = absurd (omega arith)
holds_below_lem test (suc top) i in_range checked = ground (arith, holds_below_lem test top i)

pub agree_below :
    (n : ℕ) (f g : ℕ → ℕ) (x : ℕ) → holds_below (λ i. f i == g i) n ≡ true → x < n → f x ≡ g x
agree_below n f g x h lt = (==_iff _ _).0 (holds_below_lem (λ i. f i == g i) n x lt h)

abbrev pub shl_u8 : ℕ → ℕ → ℕ
shl_u8 x k = x * 2 ^ k % 256

pub mask_01 : (b : ℕ) → b < 256 → bit_and b 0x01 ≡ b % 2
unfolding holds_below
mask_01 b = agree_below 256 (λ i. bit_and i 0x01) (λ i. i % 2) b refl

pub mask_02 : (b : ℕ) → b < 256 → bit_and b 0x02 ≡ b / 2 % 2 * 2
unfolding holds_below
mask_02 b = agree_below 256 (λ i. bit_and i 0x02) (λ i. i / 2 % 2 * 2) b refl

pub mask_04 : (b : ℕ) → b < 256 → bit_and b 0x04 ≡ b / 4 % 2 * 4
unfolding holds_below
mask_04 b = agree_below 256 (λ i. bit_and i 0x04) (λ i. i / 4 % 2 * 4) b refl

pub mask_08 : (b : ℕ) → b < 256 → bit_and b 0x08 ≡ b / 8 % 2 * 8
unfolding holds_below
mask_08 b = agree_below 256 (λ i. bit_and i 0x08) (λ i. i / 8 % 2 * 8) b refl

pub mask_0f : (b : ℕ) → b < 256 → bit_and b 0x0F ≡ b % 16
unfolding holds_below
mask_0f b = agree_below 256 (λ i. bit_and i 0x0F) (λ i. i % 16) b refl

pub mask_3f : (b : ℕ) → b < 256 → bit_and b 0x3f ≡ b % 64
unfolding holds_below
mask_3f b = agree_below 256 (λ i. bit_and i 0x3f) (λ i. i % 64) b refl

pub mask_7f : (b : ℕ) → b < 256 → bit_and b 0x7F ≡ b % 128
unfolding holds_below
mask_7f b = agree_below 256 (λ i. bit_and i 0x7F) (λ i. i % 128) b refl

pub mask_80 : (b : ℕ) → b < 256 → bit_and b 0x80 ≡ b / 128 * 128
unfolding holds_below
mask_80 b = agree_below 256 (λ i. bit_and i 0x80) (λ i. i / 128 * 128) b refl

pub mask_f0 : (b : ℕ) → b < 256 → bit_and b 0xF0 ≡ b / 16 * 16
unfolding holds_below
mask_f0 b = agree_below 256 (λ i. bit_and i 0xF0) (λ i. i / 16 * 16) b refl

-- An `|` of a low part and a shifted part is their sum.
abbrev join : ℕ → ℕ → ℕ
join m i = bit_or (i % m) (i / m * m)

bit_or-join :
    (m a b : ℕ)
    → holds_below (λ i. join m i == i) 256 ≡ true
    → (a + b * m) % m ≡ a
    → (a + b * m) / m ≡ b
    → a + b * m < 256
    → bit_or a (b * m) ≡ a + b * m
bit_or-join m a b same low high lt =
    sym (ap₂ (λ x y. bit_or x (y * m)) low high)
    ∙ agree_below 256 (join m) (λ i. i) (a + b * m) same lt

pub bit_or_shl_1 : (a b : ℕ) → a < 2 → b < 128 → bit_or a (shl_u8 b 1) ≡ a + b * 2
unfolding holds_below
bit_or_shl_1 a b h k =
    let e : b * 2 ^ 1 % 256 ≡ b * 2 = omega arith in
    rw e (bit_or-join 2 a b refl (omega arith) (omega arith) (omega arith))

pub bit_or_shl_2 : (a b : ℕ) → a < 4 → b < 64 → bit_or a (shl_u8 b 2) ≡ a + b * 4
unfolding holds_below
bit_or_shl_2 a b h k =
    let e : b * 2 ^ 2 % 256 ≡ b * 4 = omega arith in
    rw e (bit_or-join 4 a b refl (omega arith) (omega arith) (omega arith))

pub bit_or_shl_3 : (a b : ℕ) → a < 8 → b < 32 → bit_or a (shl_u8 b 3) ≡ a + b * 8
unfolding holds_below
bit_or_shl_3 a b h k =
    let e : b * 2 ^ 3 % 256 ≡ b * 8 = omega arith in
    rw e (bit_or-join 8 a b refl (omega arith) (omega arith) (omega arith))

pub bit_or_shl_4 : (a b : ℕ) → a < 16 → b < 16 → bit_or a (shl_u8 b 4) ≡ a + b * 16
unfolding holds_below
bit_or_shl_4 a b h k =
    let e : b * 2 ^ 4 % 256 ≡ b * 16 = omega arith in
    rw e (bit_or-join 16 a b refl (omega arith) (omega arith) (omega arith))

pub bit_or_shl_7 : (a b : ℕ) → a < 128 → b < 2 → bit_or a (shl_u8 b 7) ≡ a + b * 128
unfolding holds_below
bit_or_shl_7 a b h k =
    let e : b * 2 ^ 7 % 256 ≡ b * 128 = omega arith in
    rw e (bit_or-join 128 a b refl (omega arith) (omega arith) (omega arith))
