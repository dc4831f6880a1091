-- ===== src/Base/Lists.antt =====
-- Lists measured and indexed by native numbers, under the library's names.
use Prim.Native.Nat.{ℕ, zero, suc, ◌+◌, ◌-◌, ◌/◌, ◌≤◌, ◌<◌, min}
use mathlib.Core.Path.{◌≡◌, refl, ap, sym, ◌∙◌}
use mathlib.Core.List.{List, [], ◌∷◌, ◌++◌}
use mathlib.Core.Option.{Option, none, some}
use native.Mathlib.Omega.{arith}
use native.Mathlib.Decide.{dec_lt}
use native.Mathlib.Nat.{div-eq_of_lt, div-eq-sub-div}

module _ {ℓ} {A : Type ℓ} where
  abbrev pub length : List A → ℕ
  length [] = 0
  length (x ∷ xs) = suc (length xs)

  abbrev pub get_elem? : List A → ℕ → Option A
  get_elem? [] i = none
  get_elem? (x ∷ xs) zero = some x
  get_elem? (x ∷ xs) (suc i) = get_elem? xs i

  abbrev pub take : ℕ → List A → List A
  take zero xs = []
  take (suc n) [] = []
  take (suc n) (x ∷ xs) = x ∷ take n xs

  abbrev pub drop : ℕ → List A → List A
  drop zero xs = xs
  drop (suc n) [] = []
  drop (suc n) (x ∷ xs) = drop n xs

  abbrev pub All {κ} : (A → Type κ) → List A → Type κ
  All P [] = Unit {κ}
  All P (x ∷ xs) = P x × All P xs

  pub length-append : (xs ys : List A) → length (xs ++ ys) ≡ length xs + length ys
  length-append [] ys = omega arith
  length-append (x ∷ xs) ys = omega (arith, length-append xs ys)

  pub length-take : (n : ℕ) (xs : List A) → length (take n xs) ≡ min n (length xs)
  length-take zero xs = omega arith
  length-take (suc n) [] = omega arith
  length-take (suc n) (x ∷ xs) = omega (arith, length-take n xs)

  pub length-drop : (n : ℕ) (xs : List A) → length (drop n xs) ≡ length xs - n
  length-drop zero xs = omega arith
  length-drop (suc n) [] = omega arith
  length-drop (suc n) (x ∷ xs) = omega (arith, length-drop n xs)

  pub take-append-drop : (n : ℕ) (xs : List A) → take n xs ++ drop n xs ≡ xs
  take-append-drop zero xs = refl
  take-append-drop (suc n) [] = refl
  take-append-drop (suc n) (x ∷ xs) = ap (λ r. x ∷ r) (take-append-drop n xs)

module _ {ℓ} {A : Type ℓ} where
  pub take-append : (n : ℕ) (xs ys : List A) → n ≡ length xs → take n (xs ++ ys) ≡ xs
  take-append zero [] ys h = refl
  take-append zero (x ∷ xs) ys h = absurd (omega arith)
  take-append (suc n) [] ys h = absurd (omega arith)
  take-append (suc n) (x ∷ xs) ys h = ap (λ r. x ∷ r) (take-append n xs ys (omega arith))

  pub drop-append : (n : ℕ) (xs ys : List A) → n ≡ length xs → drop n (xs ++ ys) ≡ ys
  drop-append zero [] ys h = refl
  drop-append zero (x ∷ xs) ys h = absurd (omega arith)
  drop-append (suc n) [] ys h = absurd (omega arith)
  drop-append (suc n) (x ∷ xs) ys h = drop-append n xs ys (omega arith)

  pub take_all : (n : ℕ) (xs : List A) → n ≡ length xs → take n xs ≡ xs
  take_all zero [] h = refl
  take_all zero (x ∷ xs) h = absurd (omega arith)
  take_all (suc n) [] h = absurd (omega arith)
  take_all (suc n) (x ∷ xs) h = ap (λ r. x ∷ r) (take_all n xs (omega arith))

module _ {ℓ κ} {A : Type ℓ} (P : A → Type κ) where
  pub All-snoc : (xs : List A) (x : A) → All P xs → P x → All P (xs ++ (x ∷ []))
  All-snoc [] x h p = (p, tt)
  All-snoc (y ∷ xs) x (q, h) p = (q, All-snoc xs x h p)

  pub All-take : (n : ℕ) (xs : List A) → All P xs → All P (take n xs)
  All-take zero xs h = tt
  All-take (suc n) [] h = tt
  All-take (suc n) (x ∷ xs) (p, h) = (p, All-take n xs h)

  pub All-drop : (n : ℕ) (xs : List A) → All P xs → All P (drop n xs)
  All-drop zero xs h = h
  All-drop (suc n) [] h = tt
  All-drop (suc n) (x ∷ xs) (p, h) = All-drop n xs h

module _ {ℓ κ μ} {A : Type ℓ} (P : A → Type κ) (Q : A → Type μ) where
  pub All-map : (xs : List A) → ((x : A) → P x → Q x) → All P xs → All Q xs
  All-map [] f h = tt
  All-map (x ∷ xs) f (p, h) = (f x p, All-map xs f h)

-- `slice::chunks(n)` for `n` above 0. Each round takes an element at least, so the length of the list
-- is fuel enough.
module _ {ℓ} {A : Type ℓ} where
  unfoldable pub chunks_loop : ℕ → ℕ → List A → List (List A)
  chunks_loop fuel n [] = []
  chunks_loop zero n (x ∷ xs) = []
  chunks_loop (suc fuel) n (x ∷ xs) = take n (x ∷ xs) ∷ chunks_loop fuel n (drop n (x ∷ xs))

  unfoldable pub chunks : List A → ℕ → List (List A)
  unfolding chunks_loop
  chunks xs n = chunks_loop (length xs) n xs

  pub chunks_loop-append :
      (fuel n : ℕ) (xs ys : List A)
      → n ≡ length xs
      → 0 < n
      → length (xs ++ ys) ≤ fuel
      → chunks_loop fuel n (xs ++ ys) ≡ xs ∷ chunks_loop (fuel - 1) n ys
  unfolding chunks_loop
  chunks_loop-append fuel n [] ys e pos h = absurd (omega arith)
  chunks_loop-append zero n (x ∷ xs) ys e pos h = absurd (omega arith)
  chunks_loop-append (suc fuel) n (x ∷ xs) ys e pos h =
      let one : suc fuel - 1 ≡ fuel = omega arith in
      rw (take-append n (x ∷ xs) ys e, drop-append n (x ∷ xs) ys e, one)

module _ {ℓ} {A : Type ℓ} where
  -- There are as many chunks as `div_ceil` says.
  pub length-chunks_loop :
      (fuel n : ℕ) (xs : List A)
      → 0 < n
      → length xs ≤ fuel
      → length (chunks_loop fuel n xs) ≡ (length xs + (n - 1)) / n
  unfolding chunks_loop
  length-chunks_loop fuel n [] pos h =
      let small : 0 + (n - 1) < n = omega arith in sym (div-eq_of_lt small)
  length-chunks_loop zero n (x ∷ xs) pos h = absurd (omega arith)
  length-chunks_loop (suc fuel) n (x ∷ xs) pos h =
      let size : length (drop n (x ∷ xs)) ≡ length (x ∷ xs) - n = length-drop n (x ∷ xs) in
      let rest : length (chunks_loop fuel n (drop n (x ∷ xs)))
          ≡ (length (x ∷ xs) - n + (n - 1)) / n =
        length-chunks_loop fuel n (drop n (x ∷ xs)) pos (omega arith)
        ∙ ap (λ l. (l + (n - 1)) / n) size in
      let all : (length (x ∷ xs) + (n - 1)) / n ≡ (length (x ∷ xs) + (n - 1) - n) / n + 1 =
        div-eq-sub-div pos (omega arith) in
      elim (dec_lt (length (x ∷ xs)) n) [
        | yes short ↦
            let none_ : (length (x ∷ xs) - n + (n - 1)) / n ≡ 0 = div-eq_of_lt (omega arith) in
            let last : (length (x ∷ xs) + (n - 1) - n) / n ≡ 0 = div-eq_of_lt (omega arith) in
            omega (arith, rest, all, none_, last)
        | no long ↦
            let same_ : length (x ∷ xs) - n + (n - 1) ≡ length (x ∷ xs) + (n - 1) - n =
              omega arith in
            omega (arith, rest, all, ap (λ l. l / n) same_)
      ]

module _ {ℓ} {A : Type ℓ} where
  pub get_elem?-append :
      (i : ℕ) (xs : List A) (y : A) (ys : List A)
      → i ≡ length xs
      → get_elem? (xs ++ (y ∷ ys)) i ≡ some y
  get_elem?-append zero [] y ys h = refl
  get_elem?-append zero (x ∷ xs) y ys h = absurd (omega arith)
  get_elem?-append (suc i) [] y ys h = absurd (omega arith)
  get_elem?-append (suc i) (x ∷ xs) y ys h = get_elem?-append i xs y ys (omega arith)
