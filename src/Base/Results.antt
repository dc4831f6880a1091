-- ===== src/Base/Results.antt =====
-- The outcome of Rust code that can fail: `Ok`, `Err` with the error, or a panic (an index or slice
-- out of range, an `unwrap` of `None`, an arithmetic overflow with overflow checks on).
use Prim.Native.Nat.{ℕ, ◌+◌, ◌-◌, ◌*◌}
use mathlib.Core.Path.{◌≡◌, refl, ap, ◌∙◌}
use mathlib.Core.Logic.{◌⊎◌, inl, inr}
use mathlib.Core.Bool.{Bool, true, false, ◌&&◌}
use mathlib.Core.Option.{Option, none, some}
use mathlib.Core.List.{List, ◌++◌}
use native.Mathlib.Omega.{arith}
use plc_service_rust.Base.Tests.{ltb, leb, if◌then◌else◌, le→leb}
use plc_service_rust.Base.Lists.{
  length, take, drop, get_elem?, length-append, take-append, drop-append,
}

pub data Outcome {ℓ} (E : Type 0) (A : Type ℓ) : Type ℓ where
  ok : A → Outcome E A
  err : E → Outcome E A
  panic : Outcome E A

-- anyhow's `ensure!`.
abbrev pub ensure : {E : Type 0} → Bool → E → Outcome E (Unit {0})
ensure false failure = err failure
ensure true failure = ok tt

-- Rust's `?`, which hands an error on, and a panic, which ends everything.
infixl 5 ◌>>=◌ ◌>>◌
abbrev pub ◌>>=◌ {κ ℓ} :
    {E : Type 0} {B : Type κ} {A : Type ℓ} → Outcome E A → (A → Outcome E B) → Outcome E B
panic >>= next = panic
err failure >>= next = err failure
ok value >>= next = next value

abbrev pub ◌>>◌ {κ} : {E : Type 0} {B : Type κ} → Outcome E (Unit {0}) → Outcome E B → Outcome E B
first >> second = first >>= λ _. second

-- `Option::unwrap`.
abbrev pub unwrap {ℓ} : {E : Type 0} {A : Type ℓ} → Option A → Outcome E A
unwrap none = panic
unwrap (some a) = ok a

-- `Result::unwrap`.
abbrev pub unwrap_result {ℓ} : {E : Type 0} {A : Type ℓ} → Outcome E A → Outcome E A
unwrap_result (ok a) = ok a
unwrap_result (err e) = panic
unwrap_result panic = panic

module _ {E : Type 0} where
  -- `bytes[i]`.
  abbrev pub index {ℓ} : {A : Type ℓ} → List A → ℕ → Outcome E A
  index bytes i = unwrap (get_elem? bytes i)

  -- `&bytes[from..to]`.
  abbrev pub slice {ℓ} : {A : Type ℓ} → List A → ℕ → ℕ → Outcome E (List A)
  slice bytes from to =
      if leb from to && leb to (length bytes)
      then ok (take (to - from) (drop from bytes))
      else panic

  -- `&bytes[from..]`.
  abbrev pub slice_from {ℓ} : {A : Type ℓ} → List A → ℕ → Outcome E (List A)
  slice_from bytes from = if leb from (length bytes) then ok (drop from bytes) else panic

  -- `u8` arithmetic with overflow checks.
  abbrev pub add_u8 : ℕ → ℕ → Outcome E ℕ
  add_u8 a b = if ltb (a + b) 256 then ok (a + b) else panic

  abbrev pub sub_u8 : ℕ → ℕ → Outcome E ℕ
  sub_u8 a b = if leb b a then ok (a - b) else panic

  abbrev pub mul_u8 : ℕ → ℕ → Outcome E ℕ
  mul_u8 a b = if ltb (a * b) 256 then ok (a * b) else panic

  -- A slice that a split of the list shows.
  pub slice-append {ℓ} :
      {A : Type ℓ} (xs ys zs : List A) (from to : ℕ)
      → from ≡ length xs
      → to ≡ length xs + length ys
      → slice (xs ++ (ys ++ zs)) from to ≡ ok ys
  slice-append xs ys zs from to p q =
      let fits : leb to (length (xs ++ (ys ++ zs))) ≡ true =
        le→leb _ _ (omega (arith, length-append xs (ys ++ zs), length-append ys zs)) in
      let part : take (to - from) (drop from (xs ++ (ys ++ zs))) ≡ ys =
        ap (take (to - from)) (drop-append from xs (ys ++ zs) p)
        ∙ take-append (to - from) ys zs (omega arith) in
      let ordered : leb from to ≡ true = le→leb _ _ (omega arith) in
      ap
        (λ b.
          if b && leb to (length (xs ++ (ys ++ zs)))
          then ok (take (to - from) (drop from (xs ++ (ys ++ zs))))
          else panic)
        ordered
      ∙ ap (λ b. if b then ok (take (to - from) (drop from (xs ++ (ys ++ zs)))) else panic) fits
      ∙ ap ok part

  pub slice_from-append {ℓ} :
      {A : Type ℓ} (xs ys : List A) (from : ℕ)
      → from ≡ length xs
      → slice_from (xs ++ ys) from ≡ ok ys
  slice_from-append xs ys from p =
      let fits : leb from (length (xs ++ ys)) ≡ true =
        le→leb _ _ (omega (arith, length-append xs ys)) in
      ap (λ b. if b then ok (drop from (xs ++ ys)) else panic) fits
      ∙ ap ok (drop-append from xs ys p)

-- What follows runs only after success.
pub >>=-eq-ok {κ ℓ} :
    {E : Type 0} {B : Type κ} {A : Type ℓ} (first : Outcome E A) (next : A → Outcome E B)
    {result : B}
    → (first >>= next) ≡ ok result
    → (value : A) × (first ≡ ok value) × (next value ≡ ok result)
>>=-eq-ok panic next h = cc
>>=-eq-ok (err failure) next h = cc
>>=-eq-ok (ok value) next h = (value, refl, h)

pub Outcome-cases {ℓ} :
    {E : Type 0} {A : Type ℓ} (m : Outcome E A)
    → ((a : A) × (m ≡ ok a)) ⊎ (((e : E) × (m ≡ err e)) ⊎ (m ≡ panic))
Outcome-cases (ok a) = inl (a, refl)
Outcome-cases (err e) = inr (inl (e, refl))
Outcome-cases panic = inr (inr refl)
