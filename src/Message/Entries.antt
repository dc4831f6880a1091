-- ===== src/Message/Entries.antt =====
-- The lists of entries of one size in the responses of src/protocol/app_data/: `chunks(size)`, of
-- which at most `count` are taken, each of them converted.
use plc_service_rust.Base.{
  ℕ, suc, ◌+◌, ◌-◌, ◌*◌, ◌<◌, ◌≤◌, List, [], ◌∷◌, ◌++◌, length, length-append, take, chunks_loop,
  chunks_loop-append, All, Outcome, ok, ◌>>=◌, ◌≡◌, refl, ap, ap₂, sym, ◌∙◌, arith,
}
use plc_service_rust.Protocol.Fault.{Error}

-- `.map(T::from).collect()`, where the conversion can panic.
unfoldable pub read_entries :
    {A : Type 0} → (List ℕ → Outcome Error A) → List (List ℕ) → Outcome Error (List A)
read_entries read [] = ok []
read_entries read (c ∷ pieces) = do
  entry ← read c
  rest ← read_entries read pieces
  ok (entry ∷ rest)

-- The bytes of a list of entries, one after the other.
unfoldable pub entries_to_bytes : {A : Type 0} → (A → List ℕ) → List A → List ℕ
entries_to_bytes to_bytes [] = []
entries_to_bytes to_bytes (x ∷ xs) = to_bytes x ++ entries_to_bytes to_bytes xs

-- A reader of entries against their bytes.
pub record Layout {A : Type 0} (Fits : A → Type 0) (size : ℕ) (to_bytes : A → List ℕ)
    (read : List ℕ → Outcome Error A) : Type 0 where
  pub positive : 0 < size
  pub width : (x : A) → Fits x → length (to_bytes x) ≡ size
  pub round : (x : A) → Fits x → read (to_bytes x) ≡ ok x

module _ {A : Type 0} {Fits : A → Type 0} {size : ℕ} {to_bytes : A → List ℕ}
    {read : List ℕ → Outcome Error A} (layout : Layout Fits size to_bytes read) where
  pub read_entries-chunks_loop :
      (fuel : ℕ) (xs : List A)
      → All Fits xs
      → length (entries_to_bytes to_bytes xs) ≤ fuel
      → read_entries read (take (length xs) (chunks_loop fuel size (entries_to_bytes to_bytes xs)))
        ≡ ok xs
  unfolding read_entries entries_to_bytes
  read_entries-chunks_loop fuel [] h le = refl
  read_entries-chunks_loop fuel (x ∷ xs) h le =
      let width : length (to_bytes x) ≡ size = layout.width x (h.0) in
      let rest : length (entries_to_bytes to_bytes xs) ≤ fuel - 1 = omega (
        arith,
        width,
        layout.positive,
        length-append (to_bytes x) (entries_to_bytes to_bytes xs),
      ) in
      ap (λ c. read_entries read (take (suc (length xs)) c))
        (chunks_loop-append fuel size (to_bytes x) (entries_to_bytes to_bytes xs) (sym width)
          layout.positive le)
      ∙ rw (layout.round x (h.0), read_entries-chunks_loop (fuel - 1) xs (h.1) rest) refl

  pub length-entries_to_bytes :
      (xs : List A) → All Fits xs → length (entries_to_bytes to_bytes xs) ≡ length xs * size
  unfolding entries_to_bytes
  length-entries_to_bytes [] h = omega arith
  length-entries_to_bytes (x ∷ xs) h =
      length-append (to_bytes x) (entries_to_bytes to_bytes xs)
      ∙ ap₂ (λ a b. a + b) (layout.width x (h.0)) (length-entries_to_bytes xs (h.1))
      ∙ grind arith
