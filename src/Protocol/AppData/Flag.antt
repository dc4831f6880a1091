-- ===== src/Protocol/AppData/Flag.antt =====
-- app_data/mod.rs: the data flag, that is, a function number as a type byte and one mark bit.
use plc_service_rust.Base.{
  ℕ, zero, suc, ◌+◌, ◌-◌, ◌*◌, ◌/◌, ◌%◌, ◌^◌, ◌<◌, ◌≡◌, refl, ◌∙◌, ok, err, panic, ◌>>=◌, arith,
  ◌==◌, ltb, if◌then◌else◌, Bool, true, false, Outcome, ◌&&◌, ◌||◌,
}
use plc_service_rust.Base.Bits.{holds_below, holds_below_lem, shl_u8}
use plc_service_rust.Protocol.Fault.{Error}
use plc_service_rust.Protocol.AppData.{DataFlag, find_mark, as_fn_num, flag_of_fn_num}

-- Bit `i` is the lowest bit of `mark` that is set.
abbrev pub IsLowestBit : ℕ → ℕ → Type 0
IsLowestBit mark i = (i < 8) × (mark % 2 ^ (i + 1) ≡ 2 ^ i)

abbrev finds_lowest : ℕ → Outcome Error ℕ → Bool
finds_lowest mark (ok i) = ltb i 8 && (mark % 2 ^ (i + 1) == 2 ^ i)
finds_lowest mark (err e) = false
finds_lowest mark panic = false

finds_lowest_table : holds_below (λ m. m == 0 || finds_lowest m (find_mark 8 0 m)) 256 ≡ true
unfolding holds_below find_mark
finds_lowest_table = refl

finds_lowest-ok :
    (mark : ℕ) (o : Outcome Error ℕ)
    → finds_lowest mark o ≡ true
    → (i : ℕ) × (o ≡ ok i) × IsLowestBit mark i
finds_lowest-ok mark (ok i) h = (i, refl, (ground arith, ground arith))
finds_lowest-ok mark (err e) h = cc
finds_lowest-ok mark panic h = cc

pub find_mark_lem :
    (mark : ℕ) → 0 < mark → mark < 256 → (i : ℕ) × (find_mark 8 0 mark ≡ ok i) × IsLowestBit mark i
find_mark_lem mark pos lt = finds_lowest-ok mark (find_mark 8 0 mark) (
    ground (
      arith,
      holds_below_lem (λ m. m == 0 || finds_lowest m (find_mark 8 0 m)) 256 mark lt
          finds_lowest_table,
    ))

pub as_fn_num-find_mark :
    (type_ mark i : ℕ)
    → find_mark 8 0 mark ≡ ok i
    → as_fn_num (record { type_ = type_; mark = mark })
      ≡ (if ltb (type_ * 8 + i + 1) 256 then ok (type_ * 8 + i + 1) else panic)
unfolding as_fn_num
as_fn_num-find_mark type_ mark i h = ground arith

-- A data flag with a mark that is not 0 has the function number of its lowest mark bit `i`, that is,
-- 8 * type + i + 1, where that fits a byte; where it does not, the sum overflows.
pub as_fn_num_lem :
    (type_ mark : ℕ)
    → 0 < mark
    → mark < 256
    → (i : ℕ) × IsLowestBit mark i
      × (as_fn_num (record { type_ = type_; mark = mark })
          ≡ (if ltb (type_ * 8 + i + 1) 256 then ok (type_ * 8 + i + 1) else panic))
as_fn_num_lem type_ mark pos lt =
    let (i, found, low) = find_mark_lem mark pos lt in
    (i, low, as_fn_num-find_mark type_ mark i found)

pub as_fn_num_zero : (type_ : ℕ) → as_fn_num (record { type_ = type_; mark = 0 }) ≡ panic
unfolding as_fn_num find_mark
as_fn_num_zero type_ = refl

find_mark_power : (r : ℕ) → r < 8 → find_mark 8 0 (shl_u8 1 r) ≡ ok r
unfolding find_mark
find_mark_power zero h = refl
find_mark_power (suc zero) h = refl
find_mark_power (suc (suc zero)) h = refl
find_mark_power (suc (suc (suc zero))) h = refl
find_mark_power (suc (suc (suc (suc zero)))) h = refl
find_mark_power (suc (suc (suc (suc (suc zero))))) h = refl
find_mark_power (suc (suc (suc (suc (suc (suc zero)))))) h = refl
find_mark_power (suc (suc (suc (suc (suc (suc (suc zero))))))) h = refl
find_mark_power (suc (suc (suc (suc (suc (suc (suc (suc r)))))))) h = absurd (omega arith)

abbrev pub flag_values : ℕ → DataFlag
flag_values n = record { type_ = (n - 1) / 8; mark = shl_u8 1 ((n - 1) % 8) }

pub flag_of_fn_num_values : (n : ℕ) → 0 < n → flag_of_fn_num n ≡ ok (flag_values n)
unfolding flag_of_fn_num
flag_of_fn_num_values n h = ground arith

pub as_fn_num-flag_values : (n : ℕ) → 0 < n → n < 256 → as_fn_num (flag_values n) ≡ ok n
as_fn_num-flag_values n pos lt =
    as_fn_num-find_mark ((n - 1) / 8) _ ((n - 1) % 8) (find_mark_power ((n - 1) % 8) (omega arith))
    ∙ ground arith

-- Each function number from 1 to 255 has a data flag, and is read back from it.
pub as_fn_num-flag_of_fn_num : (n : ℕ) → 0 < n → n < 256 → (flag_of_fn_num n >>= as_fn_num) ≡ ok n
as_fn_num-flag_of_fn_num n pos lt =
    rw (flag_of_fn_num_values n pos) (as_fn_num-flag_values n pos lt)

-- The other way round, a flag with exactly one mark bit is the flag of its own function number.
pub flag_of_fn_num-as_fn_num :
    (type_ i : ℕ)
    → i < 8
    → type_ * 8 + i + 1 < 256
    → (as_fn_num (record { type_ = type_; mark = shl_u8 1 i }) >>= flag_of_fn_num)
      ≡ ok (record { type_ = type_; mark = shl_u8 1 i })
flag_of_fn_num-as_fn_num type_ i h lt =
    let number : as_fn_num (record { type_ = type_; mark = shl_u8 1 i }) ≡ ok (type_ * 8 + i + 1) =
      as_fn_num-find_mark type_ _ i (find_mark_power i h) ∙ ground arith in
    let e : type_ * 8 + i + 1 - 1 ≡ type_ * 8 + i = omega arith in
    let q : (type_ * 8 + i) / 8 ≡ type_ = omega arith in
    let r : (type_ * 8 + i) % 8 ≡ i = omega arith in
    rw number (flag_of_fn_num_values (type_ * 8 + i + 1) (omega arith) ∙ rw (e, q, r))
