-- ===== src/Service/NodeConfig/Nodes.antt =====
-- The nodes of one application in src/service/node_config.rs: what is found, counted and removed.
use plc_service_rust.Base.{
  ℕ, suc, ◌+◌, ◌==◌, String, if◌then◌else◌, List, [], ◌∷◌, ◌++◌, none, some, Bool, true, false,
  Bool-cases, Option-cases, inl, inr, get_elem?, All, ◌≡◌, refl, ◌∙◌, sym, subst, arith,
}
use plc_service_rust.Service.Dict.{same, same_iff, same_sym}
use plc_service_rust.Service.NodeConfig.{Shared, find, position, remove_at, count_in}

-- `iter().any` by the address.
unfoldable pub holds : String → List Shared → Bool
holds addr [] = false
holds addr (x ∷ xs) = let rest = holds addr xs in if same x.node.acq_addr addr then true else rest

-- Each address stands once.
unfoldable pub IsDistinct : List Shared → Type 0
IsDistinct [] = Unit
IsDistinct (x ∷ xs) = (holds x.node.acq_addr xs ≡ false) × IsDistinct xs

abbrev pub one_if : Bool → ℕ
one_if true = 1
one_if false = 0

-- The second list is the first without one occurrence of the node.
pub data Removal (x : Shared) : List Shared → List Shared → Type 0 where
  here : {xs : List Shared} → Removal x (x ∷ xs) xs
  there : {y : Shared} {xs ys : List Shared} → Removal x xs ys → Removal x (y ∷ xs) (y ∷ ys)

pub find-holds : (addr : String) (xs : List Shared) → find addr xs ≡ none → holds addr xs ≡ false
unfolding find holds
find-holds addr [] h = refl
find-holds addr (x ∷ xs) h =
    let rest : find addr xs ≡ none → holds addr xs ≡ false = find-holds addr xs in
    elim (Bool-cases (same x.node.acq_addr addr)) [
      | inl e ↦ absurd (cc (rw e at h))
      | inr e ↦ rw e (rest (rw e at h))
    ]

pub find-holds-some :
    (addr : String) (xs : List Shared) {x : Shared} → find addr xs ≡ some x → holds addr xs ≡ true
unfolding find holds
find-holds-some addr [] h = cc
find-holds-some addr (y ∷ xs) {x} h =
    let rest : find addr xs ≡ some x → holds addr xs ≡ true = find-holds-some addr xs in
    elim (Bool-cases (same y.node.acq_addr addr)) [ inl e ↦ rw e | inr e ↦ rw e (rest (rw e at h)) ]

pub holds-append :
    (addr : String) (xs : List Shared) (x : Shared)
    → holds addr (xs ++ (x ∷ [])) ≡ (if holds addr xs then true else same x.node.acq_addr addr)
unfolding holds
holds-append addr [] x = elim (Bool-cases (same x.node.acq_addr addr)) [
  | inl e ↦ rw e
  | inr e ↦ rw e
]
holds-append addr (y ∷ xs) x =
    let rest : holds addr (xs ++ (x ∷ []))
        ≡ (if holds addr xs then true else same x.node.acq_addr addr) =
      holds-append addr xs x in
    elim (Bool-cases (same y.node.acq_addr addr)) [ inl e ↦ rw e | inr e ↦ rw e rest ]

pub count_in-append :
    (id : ℕ) (xs : List Shared) (x : Shared)
    → count_in id (xs ++ (x ∷ [])) ≡ count_in id xs + one_if (x.id == id)
unfolding count_in
count_in-append id [] x = ground arith
count_in-append id (y ∷ xs) x = ground (arith, count_in-append id xs x)

pub append-IsDistinct :
    (xs : List Shared) (x : Shared)
    → IsDistinct xs
    → holds x.node.acq_addr xs ≡ false
    → IsDistinct (xs ++ (x ∷ []))
unfolding IsDistinct holds
append-IsDistinct [] x d h = (refl, tt)
append-IsDistinct (y ∷ xs) x (apart, d) h =
    let rest : holds x.node.acq_addr xs ≡ false → IsDistinct (xs ++ (x ∷ [])) =
      append-IsDistinct xs x d in
    elim (Bool-cases (same y.node.acq_addr x.node.acq_addr)) [
      | inl e ↦ absurd (cc (rw e at h))
      | inr e ↦
          let other : same x.node.acq_addr y.node.acq_addr ≡ false =
            same_sym y.node.acq_addr x.node.acq_addr e in
          (holds-append y.node.acq_addr xs x ∙ rw (apart, other) refl, rest (rw e at h))
    ]

-- What stands at a position, which has the address, and what is left when it is removed.
abbrev pub Located : String → List Shared → ℕ → Type 0
Located addr xs pos =
    (x : Shared) × (get_elem? xs pos ≡ some x)
    × (x.node.acq_addr ≡ addr)
    × Removal x xs (remove_at pos xs)

pub position-Removal :
    (addr : String) (xs : List Shared) (pos : ℕ) → position addr xs ≡ some pos → Located addr xs pos
unfolding position remove_at
position-Removal addr [] pos h = cc
position-Removal addr (x ∷ xs) pos h = elim (Bool-cases (same x.node.acq_addr addr)) [
  | inl e ↦
      let first : 0 ≡ pos = cc (rw e at h) in
      subst (λ p. Located addr (x ∷ xs) p) first
        (x, refl, (same_iff x.node.acq_addr addr).0 e, here)
  | inr e ↦ elim (Option-cases (position addr xs)) [
    | inl none_ ↦ absurd (cc (rw (e, none_) at h))
    | inr (i, found) ↦
        let later : suc i ≡ pos = cc (rw (e, found) at h) in
        let (y, at_i, named, rest) = position-Removal addr xs i found in
        subst (λ p. Located addr (x ∷ xs) p) later (y, at_i, named, there rest)
  ]
]

pub holds-position :
    (addr : String) (xs : List Shared)
    → holds addr xs ≡ true
    → (pos : ℕ) × (position addr xs ≡ some pos)
unfolding holds position
holds-position addr [] h = cc
holds-position addr (x ∷ xs) h = elim (Bool-cases (same x.node.acq_addr addr)) [
  | inl e ↦ (0, rw e)
  | inr e ↦ let (i, found) = holds-position addr xs (rw e at h) in (suc i, rw (e, found))
]

module _ {x : Shared} where
  pub All-Removal :
      (P : Shared → Type 0) {xs ys : List Shared} → Removal x xs ys → All P xs → P x × All P ys
  All-Removal P here h = h
  All-Removal P (there r) (q, h) = let (p, rest) = All-Removal P r h in (p, (q, rest))

  pub count_in-Removal :
      (id : ℕ) {xs ys : List Shared}
      → Removal x xs ys
      → count_in id xs ≡ count_in id ys + one_if (x.id == id)
  unfolding count_in
  count_in-Removal id here = ground arith
  count_in-Removal id (there r) = ground (arith, count_in-Removal id r)

  pub holds-Removal :
      (addr : String) {xs ys : List Shared}
      → Removal x xs ys
      → holds addr xs ≡ (if same x.node.acq_addr addr then true else holds addr ys)
  unfolding holds
  holds-Removal addr here = refl
  holds-Removal addr (there {y} {xs} {ys} r) =
      let rest : holds addr xs ≡ (if same x.node.acq_addr addr then true else holds addr ys) =
        holds-Removal addr r in
      elim (Bool-cases (same x.node.acq_addr addr)) [
        | inl e ↦ elim (Bool-cases (same y.node.acq_addr addr)) [
          | inl f ↦ rw (f, e)
          | inr f ↦ rw (f, e) (rest ∙ rw e)
        ]
        | inr e ↦ elim (Bool-cases (same y.node.acq_addr addr)) [
          | inl f ↦ rw (f, e)
          | inr f ↦ rw (f, e) (rest ∙ rw e)
        ]
      ]

  pub Removal-IsDistinct :
      {xs ys : List Shared}
      → Removal x xs ys
      → IsDistinct xs
      → IsDistinct ys × (holds x.node.acq_addr ys ≡ false)
  unfolding IsDistinct holds
  Removal-IsDistinct here (apart, d) = (d, apart)
  Removal-IsDistinct (there {y} {xs} {ys} r) (apart, d) =
      let (rest, gone) = Removal-IsDistinct r d in
      let before : (if same x.node.acq_addr y.node.acq_addr then true else holds y.node.acq_addr ys)
          ≡ false =
        sym (holds-Removal y.node.acq_addr r) ∙ apart in
      elim (Bool-cases (same x.node.acq_addr y.node.acq_addr)) [
        | inl e ↦ absurd (cc (rw e at before))
        | inr e ↦ ((rw e at before, rest), rw (same_sym x.node.acq_addr y.node.acq_addr e) gone)
      ]

pub position-none :
    (addr : String) (xs : List Shared) → holds addr xs ≡ false → position addr xs ≡ none
unfolding holds position
position-none addr [] h = refl
position-none addr (x ∷ xs) h = elim (Bool-cases (same x.node.acq_addr addr)) [
  | inl e ↦ absurd (cc (rw e at h))
  | inr e ↦ let rest : position addr xs ≡ none = position-none addr xs (rw e at h) in rw (e, rest)
]
