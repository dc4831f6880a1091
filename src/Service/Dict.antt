-- ===== src/Service/Dict.antt =====
-- A `HashMap` with `String` keys: `get`, `remove`, `insert`, and `update` for a change through
-- `entry(key).or_default()`.
pub mod Entries
use plc_service_rust.Base.{
  String, Bool, true, false, if◌then◌else◌, List, [], ◌∷◌, Option, none, some, ◌≡◌, ◌≢◌, ◌↔◌, refl,
  sym, ◌∙◌, Bool-cases, inl, inr,
}
use text.Mathlib.Text.{◌==◌}
use text.Mathlib.TextEquality.{eq_iff}

unfoldable pub same : String → String → Bool
same s t = s == t

pub same_iff : (s t : String) → (same s t ≡ true) ↔ (s ≡ t)
unfolding same
same_iff s t = eq_iff s t

pub same_refl : (s : String) → same s s ≡ true
same_refl s = (same_iff s s).1 refl

pub ne→same_false : (s t : String) → s ≢ t → same s t ≡ false
ne→same_false s t ne = elim (Bool-cases (same s t)) [
  | inl e ↦ absurd (ne ((same_iff s t).0 e))
  | inr e ↦ e
]

pub same_sym : (s t : String) → same s t ≡ false → same t s ≡ false
same_sym s t apart = elim (Bool-cases (same t s)) [
  | inl e ↦ absurd (cc ((same_iff s t).1 (sym ((same_iff t s).0 e))))
  | inr e ↦ e
]

module _ {V : Type 0} where
  unfoldable pub get : String → List (String × V) → Option V
  get key [] = none
  get key ((k, v) ∷ entries) = let rest = get key entries in if same k key then some v else rest

  unfoldable pub remove : String → List (String × V) → List (String × V)
  remove key [] = []
  remove key ((k, v) ∷ entries) =
      let rest = remove key entries in if same k key then rest else (k, v) ∷ rest

  unfoldable pub insert : String → V → List (String × V) → List (String × V)
  insert key v entries = (key, v) ∷ remove key entries

  unfoldable pub update : String → V → (V → V) → List (String × V) → List (String × V)
  update key default f [] = (key, f default) ∷ []
  update key default f ((k, v) ∷ entries) =
      let rest = (k, v) ∷ update key default f entries in
      if same k key then (k, f v) ∷ entries else rest

  unfoldable pub get_or : V → String → List (String × V) → V
  get_or default key [] = default
  get_or default key ((k, v) ∷ entries) =
      let rest = get_or default key entries in if same k key then v else rest

  pub get-remove :
      (key other : String) (entries : List (String × V))
      → get key (remove other entries) ≡ (if same other key then none else get key entries)
  unfolding get remove
  get-remove key other [] = elim (Bool-cases (same other key)) [ inl e ↦ rw e | inr e ↦ rw e ]
  get-remove key other ((k, v) ∷ entries) =
      let rest : get key (remove other entries)
          ≡ (if same other key then none else get key entries) =
        get-remove key other entries in
      elim (Bool-cases (same k other)) [
        | inl e ↦
            let equal : k ≡ other = (same_iff k other).0 e in
            rw (e, rest, equal) (elim (Bool-cases (same other key)) [ inl f ↦ rw f | inr f ↦ rw f ])
        | inr e ↦ elim (Bool-cases (same k key)) [
          | inl f ↦ elim (Bool-cases (same other key)) [
            | inl g ↦ absurd (not_equal e ((same_iff k key).0 f ∙ sym ((same_iff other key).0 g)))
            | inr g ↦ rw (e, f, g)
          ]
          | inr f ↦ rw (e, f) rest
        ]
      ]
    where
      not_equal : {s t : String} → same s t ≡ false → s ≢ t
      not_equal {s} {t} apart equal = cc ((same_iff s t).1 equal)

  pub get-insert :
      (key other : String) (v : V) (entries : List (String × V))
      → get key (insert other v entries) ≡ (if same other key then some v else get key entries)
  unfolding get insert
  get-insert key other v entries = elim (Bool-cases (same other key)) [
    | inl e ↦ rw e
    | inr e ↦ rw e (rw (get-remove key other entries, e))
  ]
