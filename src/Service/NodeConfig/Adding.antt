-- ===== src/Service/NodeConfig/Adding.antt =====
-- Nodes that are added in src/service/node_config.rs.
use plc_service_rust.Base.{
  ℕ, suc, ◌==◌, ==_refl, String, if◌then◌else◌, List, [], ◌∷◌, ◌++◌, none, some, false, Bool-cases,
  Option-cases, inl, inr, All, All-snoc, ◌≡◌, ◌⊎◌, refl, ap, ◌∙◌, sym, subst, arith,
}
use plc_service_rust.Service.Dict.{same, same_iff, same_refl, get, insert, update, get-insert}
use plc_service_rust.Service.NodeConfig.{NodeInfo, Shared, NodeData, app_data, find}
use plc_service_rust.Service.NodeConfig.Nodes.{
  holds, one_if, IsDistinct, find-holds, append-IsDistinct, count_in-append,
}
use plc_service_rust.Service.NodeConfig.Applications.{
  app_data-EachList, update-EachList, strong_count-update, map-EachList,
}
use plc_service_rust.Service.NodeConfig.Consistent.{IsKnown, IsConsistent, find-known}

module _ {data_ : NodeData} {global : List (String × Shared)} {allocated : ℕ}
    (c : IsConsistent data_ global allocated) (app : String) where
  pub app-IsKnown : All (IsKnown global) (app_data app data_)
  app-IsKnown = app_data-EachList (All (IsKnown global)) app data_ tt c.known

  pub app-IsDistinct : IsDistinct (app_data app data_)
  unfolding IsDistinct
  app-IsDistinct = app_data-EachList IsDistinct app data_ tt c.distinct

  -- `entry(app).or_default()` alone.
  pub touch-IsConsistent : IsConsistent (update app [] (λ nodes. nodes) data_) global allocated
  touch-IsConsistent = record {
    known = update-EachList app (λ nodes. nodes) (All (IsKnown global)) data_ c.known app-IsKnown;
    distinct = update-EachList app (λ nodes. nodes) IsDistinct data_ c.distinct app-IsDistinct;
    keyed = c.keyed;
    apart = c.apart;
    fresh = c.fresh;
    alive = λ addr x has.
        omega (arith, c.alive addr x has, strong_count-update app (λ nodes. nodes) x.id data_);
  }

  -- An allocation that the global map has, and the application has not.
  pub push-IsConsistent :
      (x : Shared)
      → IsKnown global x
      → holds x.node.acq_addr (app_data app data_) ≡ false
      → IsConsistent (update app [] (λ nodes. nodes ++ (x ∷ [])) data_) global allocated
  push-IsConsistent x k absent = record {
    known =
        update-EachList app (λ nodes. nodes ++ (x ∷ [])) (All (IsKnown global)) data_ c.known
          (All-snoc (IsKnown global) (app_data app data_) x app-IsKnown k);
    distinct =
        update-EachList app (λ nodes. nodes ++ (x ∷ [])) IsDistinct data_ c.distinct
          (append-IsDistinct (app_data app data_) x app-IsDistinct absent);
    keyed = c.keyed;
    apart = c.apart;
    fresh = c.fresh;
    alive = λ addr y has. omega (
      arith,
      c.alive addr y has,
      strong_count-update app (λ nodes. nodes ++ (x ∷ [])) y.id data_,
      count_in-append y.id (app_data app data_) x,
    );
  }

module _ {data_ : NodeData} {global : List (String × Shared)} {allocated : ℕ}
    (c : IsConsistent data_ global allocated) (node : NodeInfo)
    (new_ : get node.acq_addr global ≡ none) where
  -- The new allocation, and the global map with it.
  abbrev made : Shared
  made = record { id = allocated; node = node }

  abbrev grown : List (String × Shared)
  grown = insert node.acq_addr made global

  -- What the grown map has.
  grown_cases :
      (addr : String) (x : Shared)
      → get addr grown ≡ some x
      → ((node.acq_addr ≡ addr) × (made ≡ x)) ⊎ (get addr global ≡ some x)
  grown_cases addr x has =
      let step : (if same node.acq_addr addr then some made else get addr global) ≡ some x =
        sym (get-insert addr node.acq_addr made global) ∙ has in
      elim (Bool-cases (same node.acq_addr addr)) [
        | inl e ↦ inl ((same_iff node.acq_addr addr).0 e, cc (rw e at step))
        | inr e ↦ inr (rw e at step)
      ]

  IsKnown-grown : (y : Shared) → IsKnown global y → IsKnown grown y
  IsKnown-grown y k =
      get-insert y.node.acq_addr node.acq_addr made global
      ∙ elim (Bool-cases (same node.acq_addr y.node.acq_addr)) [
        | inl e ↦
            let clash : get node.acq_addr global ≡ some y =
              subst (λ a. get a global ≡ some y) (sym ((same_iff _ _).0 e)) k in
            absurd (cc (sym new_ ∙ clash))
        | inr e ↦ rw e k
      ]

  All-grown : (xs : List Shared) → All (IsKnown global) xs → All (IsKnown grown) xs
  All-grown [] h = tt
  All-grown (y ∷ xs) (k, h) = (IsKnown-grown y k, All-grown xs h)

  module _ (app : String) where
    absent_here : holds node.acq_addr (app_data app data_) ≡ false
    absent_here = elim (Option-cases (find node.acq_addr (app_data app data_))) [
      | inl e ↦ find-holds node.acq_addr (app_data app data_) e
      | inr (y, e) ↦ absurd (
          cc
            (sym new_ ∙ find-known global node.acq_addr (app_data app data_) (app-IsKnown c app) e))
    ]

    -- A node whose address is new gets an allocation of its own.
    pub made-IsConsistent :
        IsConsistent (update app [] (λ nodes. nodes ++ (made ∷ [])) data_) grown (suc allocated)
    made-IsConsistent = record {
      known =
          update-EachList app (λ nodes. nodes ++ (made ∷ [])) (All (IsKnown grown)) data_
            (map-EachList (All (IsKnown global)) (All (IsKnown grown)) data_ All-grown c.known)
            (All-snoc (IsKnown grown) (app_data app data_) made
              (All-grown (app_data app data_) (app-IsKnown c app))
              (get-insert node.acq_addr node.acq_addr made global
                ∙ rw (same_refl node.acq_addr) refl));
      distinct =
          update-EachList app (λ nodes. nodes ++ (made ∷ [])) IsDistinct data_ c.distinct
            (append-IsDistinct (app_data app data_) made (app-IsDistinct c app) absent_here);
      keyed = λ addr x has. elim (grown_cases addr x has) [
        | inl (named, e) ↦ subst (λ z. z.node.acq_addr ≡ addr) e named
        | inr old ↦ c.keyed addr x old
      ];
      apart = λ addr other x y hx hy ids. elim (grown_cases addr x hx) [
        | inl (n, e) ↦ elim (grown_cases other y hy) [
          | inl (m, f) ↦ sym e ∙ f
          | inr old ↦ absurd (omega (arith, c.fresh other y old, ids, ap (λ z. z.id) e))
        ]
        | inr old ↦ elim (grown_cases other y hy) [
          | inl (m, f) ↦ absurd (omega (arith, c.fresh addr x old, ids, ap (λ z. z.id) f))
          | inr older ↦ c.apart addr other x y old older ids
        ]
      ];
      fresh = λ addr x has. elim (grown_cases addr x has) [
        | inl (n, e) ↦ omega (arith, ap (λ z. z.id) e)
        | inr old ↦ omega (arith, c.fresh addr x old)
      ];
      alive = λ addr x has. elim (grown_cases addr x has) [
        | inl (n, e) ↦
            let counted : one_if (made.id == x.id) ≡ 1 = rw (ap (λ z. z.id) e, ==_refl x.id) refl in
            omega (
              arith,
              counted,
              strong_count-update app (λ nodes. nodes ++ (made ∷ [])) x.id data_,
              count_in-append x.id (app_data app data_) made,
            )
        | inr old ↦ omega (
          arith,
          c.alive addr x old,
          strong_count-update app (λ nodes. nodes ++ (made ∷ [])) x.id data_,
          count_in-append x.id (app_data app data_) made,
        )
      ];
    }
