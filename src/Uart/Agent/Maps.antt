-- ===== src/Uart/Agent/Maps.antt =====
-- The map of the concurrent requests in src/uart_agent.rs: what is found after a removal and an
-- insertion.
use plc_service_rust.Base.{
  ℕ, ◌==◌, ==_iff, ==_refl, ne→==_false, List, [], ◌∷◌, none, some, false, ◌≡◌, ◌≢◌, refl, sym,
  Bool-cases, inl, inr, ◌∙◌,
}
use plc_service_rust.Uart.Agent.{get, remove, insert}

module _ {V : Type 0} where
  pub get-remove : (key : ℕ) (entries : List (ℕ × V)) → get key (remove key entries) ≡ none
  unfolding get remove
  get-remove key [] = refl
  get-remove key ((k, v) ∷ entries) = elim (Bool-cases (k == key)) [
    | inl e ↦ rw e (get-remove key entries)
    | inr e ↦ rw e (rw e (get-remove key entries))
  ]

  pub get-remove_other :
      (key other : ℕ) (entries : List (ℕ × V))
      → key ≢ other
      → get key (remove other entries) ≡ get key entries
  unfolding get remove
  get-remove_other key other [] ne = refl
  get-remove_other key other ((k, v) ∷ entries) ne =
      let rest : get key (remove other entries) ≡ get key entries =
        get-remove_other key other entries ne in
      elim (Bool-cases (k == other)) [
        | inl e ↦
            let apart : (k == key) ≡ false =
              ne→==_false k key (λ p. ne (sym p ∙ (==_iff k other).0 e)) in
            rw (e, apart) rest
        | inr e ↦ rw (e, rest) refl
      ]

  pub get-insert :
      (key : ℕ) (v : V) (entries : List (ℕ × V)) → get key (insert key v entries) ≡ some v
  unfolding get insert
  get-insert key v entries = rw (==_refl key) refl

  pub get-insert_other :
      (key other : ℕ) (v : V) (entries : List (ℕ × V))
      → key ≢ other
      → get key (insert other v entries) ≡ get key entries
  unfolding get insert
  get-insert_other key other v entries ne =
      rw (ne→==_false other key (λ e. ne (sym e))) (get-remove_other key other entries ne)
