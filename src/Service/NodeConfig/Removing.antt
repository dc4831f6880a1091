-- ===== src/Service/NodeConfig/Removing.antt =====
-- Nodes that are removed in src/service/node_config.rs.
use plc_service_rust.Base.{
  ℕ, ◌+◌, ◌<◌, ◌==◌, ==_iff, ==_refl, String, if◌then◌else◌, List, [], ◌∷◌, none, some, false,
  Bool-cases, inl, inr, All, ◌≡◌, ◌≢◌, refl, ap, ◌∙◌, sym, arith,
}
use plc_service_rust.Service.Dict.{same, same_iff, same_sym, get, remove, update, get-remove}
use plc_service_rust.Service.NodeConfig.{Shared, NodeData, app_data, count_in, strong_count}
use plc_service_rust.Service.NodeConfig.Nodes.{
  one_if, IsDistinct, Removal, All-Removal, count_in-Removal, Removal-IsDistinct,
}
use plc_service_rust.Service.NodeConfig.Applications.{
  EachList, update-EachList, strong_count-update,
}
use plc_service_rust.Service.NodeConfig.Consistent.{IsKnown, IsConsistent, known_same}
use plc_service_rust.Service.NodeConfig.Adding.{app-IsKnown, app-IsDistinct}

abbrev Apart : ℕ → Shared → Type 0
Apart id y = (y.id == id) ≡ false

-- What nothing refers to stands nowhere.
unused_in : (id : ℕ) (xs : List Shared) → count_in id xs ≡ 0 → All (Apart id) xs
unfolding count_in
unused_in id [] h = tt
unused_in id (y ∷ xs) h =
    let rest : count_in id xs ≡ 0 → All (Apart id) xs = unused_in id xs in
    elim (Bool-cases (y.id == id)) [
      | inl e ↦ absurd (omega (arith, rw e at h))
      | inr e ↦ (e, rest (rw e at h))
    ]

unused : (id : ℕ) (data_ : NodeData) → strong_count id data_ ≡ 0 → EachList (All (Apart id)) data_
unfolding strong_count
unused id [] h = tt
unused id ((a, nodes) ∷ entries) h =
    (unused_in id nodes (omega arith), unused id entries (omega arith))

module _ {data_ : NodeData} {global : List (String × Shared)} {allocated : ℕ}
    (c : IsConsistent data_ global allocated) (app : String) {x : Shared}
    (f : List Shared → List Shared)
    (removed : Removal x (app_data app data_) (f (app_data app data_))) where
  removed-IsKnown : EachList (All (IsKnown global)) (update app [] f data_)
  removed-IsKnown =
      update-EachList app f (All (IsKnown global)) data_ c.known
        (All-Removal (IsKnown global) removed (app-IsKnown c app)).1

  removed-IsDistinct : EachList IsDistinct (update app [] f data_)
  removed-IsDistinct =
      update-EachList app f IsDistinct data_ c.distinct
        (Removal-IsDistinct removed (app-IsDistinct c app)).0

  -- One reference less.
  pub strong_count-removed :
      (id : ℕ)
      → strong_count id data_ ≡ strong_count id (update app [] f data_) + one_if (x.id == id)
  strong_count-removed id =
      omega (arith, strong_count-update app f id data_, count_in-Removal id removed)

  -- An application gives a shared node up.
  pub release-IsConsistent :
      strong_count x.id data_ ≢ 1 → IsConsistent (update app [] f data_) global allocated
  release-IsConsistent shared_ = record {
    known = removed-IsKnown;
    distinct = removed-IsDistinct;
    keyed = c.keyed;
    apart = c.apart;
    fresh = c.fresh;
    alive = λ addr y has. elim (Bool-cases (x.id == y.id)) [
      | inl e ↦
          let equal : x.id ≡ y.id = (==_iff x.id y.id).0 e in
          let many : strong_count y.id data_ ≢ 1 = λ one. shared_ (rw equal one) in
          let left : strong_count y.id data_ ≡ strong_count y.id (update app [] f data_) + 1 =
            strong_count-removed y.id ∙ rw e refl in
          omega (arith, c.alive addr y has, many)
      | inr e ↦
          let left : strong_count y.id data_ ≡ strong_count y.id (update app [] f data_) + 0 =
            strong_count-removed y.id ∙ rw e refl in
          omega (arith, c.alive addr y has)
    ];
  }

  module _ (only : strong_count x.id data_ ≡ 1) where
    abbrev left : List (String × Shared)
    left = remove x.node.acq_addr global

    here-IsKnown : IsKnown global x
    here-IsKnown = (All-Removal (IsKnown global) removed (app-IsKnown c app)).0

    left_old : (addr : String) (y : Shared) → get addr left ≡ some y → get addr global ≡ some y
    left_old addr y has =
        let step : (if same x.node.acq_addr addr then none else get addr global) ≡ some y =
          sym (get-remove addr x.node.acq_addr global) ∙ has in
        elim (Bool-cases (same x.node.acq_addr addr)) [
          | inl e ↦ absurd (cc (rw e at step))
          | inr e ↦ rw e at step
        ]

    IsKnown-left :
        (xs : List Shared) → All (IsKnown global) xs → All (Apart x.id) xs → All (IsKnown left) xs
    IsKnown-left [] k h = tt
    IsKnown-left (y ∷ xs) (k, ks) (off, offs) =
        let other : same x.node.acq_addr y.node.acq_addr ≡ false =
          same_sym y.node.acq_addr x.node.acq_addr
            (sym (known_same c x.node.acq_addr x here-IsKnown y k) ∙ off) in
        (get-remove y.node.acq_addr x.node.acq_addr global ∙ rw other k, IsKnown-left xs ks offs)

    IsKnown-left_each :
        (entries : NodeData)
        → EachList (All (IsKnown global)) entries
        → EachList (All (Apart x.id)) entries
        → EachList (All (IsKnown left)) entries
    IsKnown-left_each [] k h = tt
    IsKnown-left_each ((a, nodes) ∷ entries) (k, ks) (h, hs) =
        (IsKnown-left nodes k h, IsKnown-left_each entries ks hs)

    -- The last application that holds a node gives it up.
    pub forget-IsConsistent : IsConsistent (update app [] f data_) left allocated
    forget-IsConsistent =
        let none_left : strong_count x.id (update app [] f data_) ≡ 0 =
          let own : strong_count x.id data_ ≡ strong_count x.id (update app [] f data_) + 1 =
            strong_count-removed x.id ∙ rw (==_refl x.id) refl in
          omega (arith, only) in
        record {
          known =
              IsKnown-left_each (update app [] f data_) removed-IsKnown
                (unused x.id (update app [] f data_) none_left);
          distinct = removed-IsDistinct;
          keyed = λ addr y has. c.keyed addr y (left_old addr y has);
          apart = λ addr other y z hy hz.
              c.apart addr other y z (left_old addr y hy) (left_old other z hz);
          fresh = λ addr y has. c.fresh addr y (left_old addr y has);
          alive = λ addr y has. still addr y has;
        }
      where
        still :
            (addr : String) (y : Shared)
            → get addr left ≡ some y
            → 0 < strong_count y.id (update app [] f data_)
        still addr y has = elim (Bool-cases (x.id == y.id)) [
          | inl e ↦
              let equal : x ≡ y =
                c.apart x.node.acq_addr addr x y here-IsKnown (left_old addr y has)
                  ((==_iff _ _).0 e) in
              let named : x.node.acq_addr ≡ addr =
                ap (λ z. z.node.acq_addr) equal ∙ c.keyed addr y (left_old addr y has) in
              let gone : get addr left ≡ none =
                get-remove addr x.node.acq_addr global
                ∙ rw ((same_iff x.node.acq_addr addr).1 named) refl in
              absurd (cc (sym gone ∙ has))
          | inr e ↦
              let left_count : strong_count y.id data_
                  ≡ strong_count y.id (update app [] f data_) + 0 =
                strong_count-removed y.id ∙ rw e refl in
              omega (arith, c.alive addr y (left_old addr y has))
        ]
