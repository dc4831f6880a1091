-- ===== src/Service/NodeConfig/Consistent.antt =====
-- What keeps the two maps of src/service/node_config.rs together, and the reference counts.
use plc_service_rust.Base.{
  ℕ, suc, ◌<◌, ◌==◌, ==_iff, ==_refl, ne→==_false, String, List, [], ◌∷◌, some, false, Bool-cases,
  Option-cases, inl, inr, All, ◌≡◌, refl, ap, ◌∙◌, sym, subst, arith,
}
use plc_service_rust.Service.Dict.{same, same_iff, get}
use plc_service_rust.Service.NodeConfig.{
  Shared, NodeData, NodeConfig, count_in, strong_count, upgrade, get_node_info, find,
}
use plc_service_rust.Service.NodeConfig.Nodes.{holds, one_if, IsDistinct}
use plc_service_rust.Service.NodeConfig.Applications.{EachList, holders}

-- The allocation that the global map has under its address.
abbrev pub IsKnown : List (String × Shared) → Shared → Type 0
IsKnown global x = get x.node.acq_addr global ≡ some x

-- The two maps agree: what an application holds is what the global map has for its address, once for
-- each application; the global map has nothing else, and an allocation for each address.
pub record IsConsistent (data_ : NodeData) (global : List (String × Shared)) (allocated : ℕ)
    : Type 0 where
  pub known : EachList (All (IsKnown global)) data_
  pub distinct : EachList IsDistinct data_
  pub keyed : (addr : String) (x : Shared) → get addr global ≡ some x → x.node.acq_addr ≡ addr
  pub apart :
      (addr other : String) (x y : Shared)
      → get addr global ≡ some x
      → get other global ≡ some y
      → x.id ≡ y.id
      → x ≡ y
  pub fresh : (addr : String) (x : Shared) → get addr global ≡ some x → x.id < allocated
  pub alive : (addr : String) (x : Shared) → get addr global ≡ some x → 0 < strong_count x.id data_

abbrev pub IsValid : {Storage : Type 0} → NodeConfig Storage → Type 0
IsValid s = IsConsistent s.node_data s.global_data s.allocated

module _ {data_ : NodeData} {global : List (String × Shared)} {allocated : ℕ}
    (c : IsConsistent data_ global allocated) (addr : String) (x : Shared)
    (has : get addr global ≡ some x) where
  -- An allocation of `node_data` is this one just when it has the address.
  pub known_same : (y : Shared) → IsKnown global y → (y.id == x.id) ≡ same y.node.acq_addr addr
  known_same y k = elim (Bool-cases (same y.node.acq_addr addr)) [
    | inl e ↦
        let place : get addr global ≡ some y =
          subst (λ a. get a global ≡ some y) ((same_iff y.node.acq_addr addr).0 e) k in
        let equal : y ≡ x = cc in rw (e, equal) (==_refl x.id)
    | inr e ↦ elim (Bool-cases (y.id == x.id)) [
      | inl f ↦
          let equal : y ≡ x = c.apart y.node.acq_addr addr y x k has ((==_iff y.id x.id).0 f) in
          let named : y.node.acq_addr ≡ addr =
            ap (λ z. z.node.acq_addr) equal ∙ c.keyed addr x has in
          absurd (cc ((same_iff y.node.acq_addr addr).1 named))
      | inr f ↦ f ∙ sym e
    ]
  ]

  count_in-absent :
      (xs : List Shared) → All (IsKnown global) xs → holds addr xs ≡ false → count_in x.id xs ≡ 0
  unfolding count_in holds
  count_in-absent [] k h = refl
  count_in-absent (y ∷ xs) (k, ks) h =
      let rest : holds addr xs ≡ false → count_in x.id xs ≡ 0 = count_in-absent xs ks in
      elim (Bool-cases (same y.node.acq_addr addr)) [
        | inl e ↦ absurd (cc (rw e at h))
        | inr e ↦ rw (known_same y k, e) (rest (rw e at h))
      ]

  -- In one application's list.
  pub count_in-holds :
      (xs : List Shared)
      → All (IsKnown global) xs
      → IsDistinct xs
      → count_in x.id xs ≡ one_if (holds addr xs)
  unfolding count_in holds IsDistinct
  count_in-holds [] k d = refl
  count_in-holds (y ∷ xs) (k, ks) (apart_, d) =
      let rest : count_in x.id xs ≡ one_if (holds addr xs) = count_in-holds xs ks d in
      elim (Bool-cases (same y.node.acq_addr addr)) [
        | inl e ↦
            let named : y.node.acq_addr ≡ addr = (same_iff y.node.acq_addr addr).0 e in
            let gone : holds addr xs ≡ false = subst (λ a. holds a xs ≡ false) named apart_ in
            rw (known_same y k, e) (ap suc (count_in-absent xs ks gone))
        | inr e ↦ rw (known_same y k, e) rest
      ]

  strong_count-loop :
      (entries : NodeData)
      → EachList (All (IsKnown global)) entries
      → EachList IsDistinct entries
      → strong_count x.id entries ≡ holders addr entries
  unfolding strong_count holders
  strong_count-loop [] k d = refl
  strong_count-loop ((a, nodes) ∷ entries) (k, ks) (d, ds) =
      rw (count_in-holds nodes k d, strong_count-loop entries ks ds)

  -- The reference count of an address's allocation is the number of applications that hold it.
  pub strong_count-holders : strong_count x.id data_ ≡ holders addr data_
  strong_count-holders = strong_count-loop data_ c.known c.distinct

-- What is found by its address is what the global map has.
pub find-known :
    (global : List (String × Shared)) (addr : String) (xs : List Shared) {x : Shared}
    → All (IsKnown global) xs
    → find addr xs ≡ some x
    → get addr global ≡ some x
unfolding find
find-known global addr [] k h = cc
find-known global addr (y ∷ xs) {x} (k, ks) h =
    let rest : find addr xs ≡ some x → get addr global ≡ some x = find-known global addr xs ks in
    elim (Bool-cases (same y.node.acq_addr addr)) [
      | inl e ↦
          let equal : y ≡ x = cc (rw e at h) in
          subst (λ a. get a global ≡ some x) ((same_iff y.node.acq_addr addr).0 e)
            (subst (λ z. get y.node.acq_addr global ≡ some z) equal k)
      | inr e ↦ rest (rw e at h)
    ]

module _ {Storage : Type 0} (s : NodeConfig Storage) (c : IsValid s) (addr : String) where
  -- The global map's allocations can be upgraded.
  pub get_node_info-valid : get_node_info addr s ≡ get addr s.global_data
  unfolding upgrade get_node_info
  get_node_info-valid = elim (Option-cases (get addr s.global_data)) [
    | inl absent ↦ rw (absent, get_node_info)
    | inr (x, has) ↦
        let used : (strong_count x.id s.node_data == 0) ≡ false =
          ne→==_false _ _ (λ e. omega (arith, c.alive addr x has)) in
        rw (has, used, get_node_info)
  ]
