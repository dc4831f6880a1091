-- ===== src/Service/NodeConfig/Applications.antt =====
-- The nodes of all applications in src/service/node_config.rs: predicates on every list, what an
-- application holds and how often an allocation is referred to, after a change of one application.
use plc_service_rust.Base.{
  ℕ, ◌+◌, String, List, [], ◌∷◌, none, some, false, Bool-cases, inl, inr, ◌≡◌, refl, arith,
}
use plc_service_rust.Service.Dict.{same, same_iff, same_refl, get, update, get_or}
use plc_service_rust.Service.NodeConfig.{Shared, NodeData, app_data, count_in, strong_count}
use plc_service_rust.Service.NodeConfig.Nodes.{holds, one_if}

-- Every application's list.
abbrev pub EachList : (List Shared → Type 0) → NodeData → Type 0
EachList P [] = Unit
EachList P ((app, nodes) ∷ entries) = P nodes × EachList P entries

-- The applications that hold the address, counted.
unfoldable pub holders : String → NodeData → ℕ
holders addr [] = 0
holders addr ((app, nodes) ∷ entries) = one_if (holds addr nodes) + holders addr entries

module _ (app : String) (f : List Shared → List Shared) where
  pub update-EachList :
      (P : List Shared → Type 0) (data_ : NodeData)
      → EachList P data_
      → P (f (app_data app data_))
      → EachList P (update app [] f data_)
  unfolding update get_or
  update-EachList P [] h p = (p, tt)
  update-EachList P ((a, nodes) ∷ entries) (q, h) p =
      let rest : P (f (app_data app entries)) → EachList P (update app [] f entries) =
        update-EachList P entries h in
      elim (Bool-cases (same a app)) [
        | inl e ↦ rw e ((rw e at p), h)
        | inr e ↦ rw e (q, rest (rw e at p))
      ]

  pub strong_count-update :
      (id : ℕ) (data_ : NodeData)
      → strong_count id (update app [] f data_) + count_in id (app_data app data_)
        ≡ strong_count id data_ + count_in id (f (app_data app data_))
  unfolding update get_or strong_count count_in
  strong_count-update id [] = omega arith
  strong_count-update id ((a, nodes) ∷ entries) =
      let rest : strong_count id (update app [] f entries) + count_in id (app_data app entries)
          ≡ strong_count id entries + count_in id (f (app_data app entries)) =
        strong_count-update id entries in
      elim (Bool-cases (same a app)) [ inl e ↦ rw e (omega arith) | inr e ↦ rw e (omega arith) ]

  pub holders-update :
      (addr : String) (data_ : NodeData)
      → holders addr (update app [] f data_) + one_if (holds addr (app_data app data_))
        ≡ holders addr data_ + one_if (holds addr (f (app_data app data_)))
  unfolding update get_or holders holds
  holders-update addr [] = omega arith
  holders-update addr ((a, nodes) ∷ entries) =
      let rest : holders addr (update app [] f entries) + one_if (holds addr (app_data app entries))
          ≡ holders addr entries + one_if (holds addr (f (app_data app entries))) =
        holders-update addr entries in
      elim (Bool-cases (same a app)) [ inl e ↦ rw e (omega arith) | inr e ↦ rw e (omega arith) ]

  pub app_data-update :
      (data_ : NodeData) → app_data app (update app [] f data_) ≡ f (app_data app data_)
  unfolding update get_or
  app_data-update [] = rw (same_refl app)
  app_data-update ((a, nodes) ∷ entries) =
      let rest : app_data app (update app [] f entries) ≡ f (app_data app entries) =
        app_data-update entries in
      elim (Bool-cases (same a app)) [ inl e ↦ rw (e, e) | inr e ↦ rw (e, e) rest ]

  pub app_data-update_other :
      (other : String) (data_ : NodeData)
      → same app other ≡ false
      → app_data other (update app [] f data_) ≡ app_data other data_
  unfolding update get_or
  app_data-update_other other [] apart = rw apart
  app_data-update_other other ((a, nodes) ∷ entries) apart =
      let rest : app_data other (update app [] f entries) ≡ app_data other entries =
        app_data-update_other other entries apart in
      elim (Bool-cases (same a app)) [
        | inl e ↦ let off : same a other ≡ false = rw ((same_iff a app).0 e) apart in rw (e, off)
        | inr e ↦ elim (Bool-cases (same a other)) [ inl g ↦ rw (e, g) | inr g ↦ rw (e, g) rest ]
      ]

pub app_data-EachList :
    (P : List Shared → Type 0) (app : String) (data_ : NodeData)
    → P []
    → EachList P data_
    → P (app_data app data_)
unfolding get_or
app_data-EachList P app [] p h = p
app_data-EachList P app ((a, nodes) ∷ entries) p (q, h) =
    let rest : P (app_data app entries) = app_data-EachList P app entries p h in
    elim (Bool-cases (same a app)) [ inl e ↦ rw e q | inr e ↦ rw e rest ]

pub map-EachList :
    (P Q : List Shared → Type 0) (data_ : NodeData)
    → ((nodes : List Shared) → P nodes → Q nodes)
    → EachList P data_
    → EachList Q data_
map-EachList P Q [] f h = tt
map-EachList P Q ((a, nodes) ∷ entries) f (q, h) = (f nodes q, map-EachList P Q entries f h)

pub app_data-get :
    (app : String) (data_ : NodeData) {nodes : List Shared}
    → get app data_ ≡ some nodes
    → app_data app data_ ≡ nodes
unfolding get get_or
app_data-get app [] h = cc
app_data-get app ((a, xs) ∷ entries) {nodes} h =
    let rest : get app entries ≡ some nodes → app_data app entries ≡ nodes =
      app_data-get app entries in
    elim (Bool-cases (same a app)) [
      | inl e ↦ rw e (cc (rw e at h))
      | inr e ↦ rw e (rest (rw e at h))
    ]

pub app_data-get-none :
    (app : String) (data_ : NodeData) → get app data_ ≡ none → app_data app data_ ≡ []
unfolding get get_or
app_data-get-none app [] h = refl
app_data-get-none app ((a, xs) ∷ entries) h =
    let rest : get app entries ≡ none → app_data app entries ≡ [] = app_data-get-none app entries in
    elim (Bool-cases (same a app)) [
      | inl e ↦ absurd (cc (rw e at h))
      | inr e ↦ rw e (rest (rw e at h))
    ]
