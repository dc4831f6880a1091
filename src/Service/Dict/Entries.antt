-- ===== src/Service/Dict/Entries.antt =====
-- The entries of a map with text keys: how often a key stands, and what holds of all entries.
use plc_service_rust.Base.{
  ℕ, ◌+◌, ◌≤◌, String, if◌then◌else◌, List, [], ◌∷◌, none, some, Option-cases, Bool-cases, inl, inr,
  All, ◌≡◌, refl, sym, ◌∙◌, subst, arith,
}
use plc_service_rust.Service.Dict.{same, same_iff, get, update}

-- The entries of an address.
unfoldable pub occurrences : {V : Type 0} → String → List (String × V) → ℕ
occurrences addr [] = 0
occurrences addr ((key, c) ∷ entries) = (if same key addr then 1 else 0) + occurrences addr entries

module _ {V : Type 0} where
  occurrences-none :
      (addr : String) (entries : List (String × V))
      → get addr entries ≡ none
      → occurrences addr entries ≡ 0
  unfolding occurrences get
  occurrences-none addr [] h = refl
  occurrences-none addr ((k, x) ∷ entries) h =
      let rest : get addr entries ≡ none → occurrences addr entries ≡ 0 =
        occurrences-none addr entries in
      elim (Bool-cases (same k addr)) [
        | inl e ↦ absurd (cc (rw e at h))
        | inr e ↦ rw e (omega (arith, rest (rw e at h)))
      ]

  occurrences-update_kept :
      (addr key : String) (c : V) (entries : List (String × V)) {x : V}
      → get key entries ≡ some x
      → occurrences addr (update key c (λ _. c) entries) ≡ occurrences addr entries
  unfolding occurrences update get
  occurrences-update_kept addr key c [] h = cc
  occurrences-update_kept addr key c ((k, y) ∷ entries) {x} h =
      let rest : get key entries ≡ some x
          → occurrences addr (update key c (λ _. c) entries) ≡ occurrences addr entries =
        occurrences-update_kept addr key c entries in
      elim (Bool-cases (same k key)) [ inl e ↦ rw e | inr e ↦ rw e (rw (rest (rw e at h))) ]

  occurrences-update_added :
      (addr key : String) (c : V) (entries : List (String × V))
      → get key entries ≡ none
      → occurrences addr (update key c (λ _. c) entries)
        ≡ occurrences addr entries + (if same key addr then 1 else 0)
  unfolding occurrences update get
  occurrences-update_added addr key c [] h = omega arith
  occurrences-update_added addr key c ((k, y) ∷ entries) h =
      let rest : get key entries ≡ none
          → occurrences addr (update key c (λ _. c) entries)
            ≡ occurrences addr entries + (if same key addr then 1 else 0) =
        occurrences-update_added addr key c entries in
      elim (Bool-cases (same k key)) [
        | inl e ↦ absurd (cc (rw e at h))
        | inr e ↦ rw e (omega (arith, rest (rw e at h)))
      ]

  -- An update adds an entry only for a key that has none.
  pub occurrences-update :
      (addr key : String) (c : V) (entries : List (String × V))
      → ((a : String) → occurrences a entries ≤ 1)
      → occurrences addr (update key c (λ _. c) entries) ≤ 1
  occurrences-update addr key c entries single = elim (Option-cases (get key entries)) [
    | inr (x, has) ↦ omega (arith, occurrences-update_kept addr key c entries has, single addr)
    | inl gone ↦ elim (Bool-cases (same key addr)) [
      | inl e ↦
          let empty : occurrences addr entries ≡ 0 =
            subst (λ a. occurrences a entries ≡ 0) ((same_iff key addr).0 e)
              (occurrences-none key entries gone) in
          let added : occurrences addr (update key c (λ _. c) entries)
              ≡ occurrences addr entries + 1 =
            occurrences-update_added addr key c entries gone ∙ rw e refl in
          omega arith
      | inr e ↦
          let added : occurrences addr (update key c (λ _. c) entries)
              ≡ occurrences addr entries + 0 =
            occurrences-update_added addr key c entries gone ∙ rw e refl in
          omega (arith, single addr)
    ]
  ]

  pub update-All :
      (P : String × V → Type 0) (key : String) (c : V) (entries : List (String × V))
      → All P entries
      → P (key, c)
      → All P (update key c (λ _. c) entries)
  unfolding update
  update-All P key c [] h p = (p, tt)
  update-All P key c ((k, x) ∷ entries) (q, h) p =
      let rest : All P (update key c (λ _. c) entries) = update-All P key c entries h p in
      elim (Bool-cases (same k key)) [
        | inl e ↦ rw e ((subst (λ a. P (a, c)) (sym ((same_iff k key).0 e)) p), h)
        | inr e ↦ rw e (q, rest)
      ]

  pub get-All :
      (P : String × V → Type 0) (key : String) (entries : List (String × V)) {c : V}
      → All P entries
      → get key entries ≡ some c
      → P (key, c)
  unfolding get
  get-All P key [] h g = cc
  get-All P key ((k, x) ∷ entries) {c} (q, h) g =
      let rest : get key entries ≡ some c → P (key, c) = get-All P key entries h in
      elim (Bool-cases (same k key)) [
        | inl e ↦
            let equal : x ≡ c = cc (rw e at g) in
            subst (λ a. P (a, c)) ((same_iff k key).0 e) (subst (λ v. P (k, v)) equal q)
        | inr e ↦ rest (rw e at g)
      ]
