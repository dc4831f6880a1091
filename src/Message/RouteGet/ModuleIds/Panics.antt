-- ===== src/Message/RouteGet/ModuleIds/Panics.antt =====
-- What the reader of the identities of the nodes' modules, in src/protocol/app_data/route_get.rs,
-- panics on.
use plc_service_rust.Base.{
  ℕ, suc, ◌+◌, ◌-◌, ◌≤◌, leb, le→leb, List, ◌∷◌, some, ok, panic, index, length, take, drop, true,
  false, ◌≡◌, refl, ap, arith,
}
use plc_service_rust.Protocol.Fault.{Error}
use plc_service_rust.Protocol.AppData.{AppData}
use plc_service_rust.Message.RouteGet.ModuleIds.{
  is_utf8, module_id_of_bytes, module_ids, slave_module_id_of_app,
}
use plc_service_rust.Message.RouteGet.ModuleIds.Calm.{address_calm}

-- Two neighbouring bytes, in the other order, that are no text.
abbrev pub HasBadCode : List ℕ → Type 0
HasBadCode units =
    (i : ℕ) × (a : ℕ) × (b : ℕ) × (index {E = Error} units i ≡ ok b)
    × (index {E = Error} units (suc i) ≡ ok a)
    × (is_utf8 a b ≡ false)

entry_panic :
    (a0 a1 a2 a3 a4 a5 device b7 b8 len format : ℕ) (info : List ℕ)
    → is_utf8 b8 b7 ≡ false
    → module_id_of_bytes (a0 ∷ a1 ∷ a2 ∷ a3 ∷ a4 ∷ a5 ∷ device ∷ b7 ∷ b8 ∷ len ∷ format ∷ info)
      ≡ panic
unfolding module_id_of_bytes
entry_panic a0 a1 a2 a3 a4 a5 device b7 b8 len format info bad =
    let entry : List ℕ = a0 ∷ a1 ∷ a2 ∷ a3 ∷ a4 ∷ a5 ∷ device ∷ b7 ∷ b8 ∷ len ∷ format ∷ info in
    let (a, at0) = address_calm entry (omega arith) in rw (at0, bad) refl

-- A response whose first entry has a factory code that is no UTF-8 makes its reader panic, whatever
-- its function code is: if the entry has all the bytes that it counts.
pub slave_module_id_unreadable :
    (app : AppData) (t0 t1 n a0 a1 a2 a3 a4 a5 device b7 b8 len format : ℕ) (rest : List ℕ)
    → app.data_units
      ≡ some
          (t0 ∷ t1 ∷ suc n ∷ a0 ∷ a1 ∷ a2 ∷ a3 ∷ a4 ∷ a5 ∷ device ∷ b7 ∷ b8 ∷ len ∷ format ∷ rest)
    → len ≤ length rest
    → is_utf8 b8 b7 ≡ false
    → slave_module_id_of_app app ≡ panic
unfolding slave_module_id_of_app module_ids
slave_module_id_unreadable app t0 t1 n a0 a1 a2 a3 a4 a5 device b7 b8 len format rest has enough
      bad =
    let units : List ℕ =
      t0 ∷ t1 ∷ suc n ∷ a0 ∷ a1 ∷ a2 ∷ a3 ∷ a4 ∷ a5 ∷ device ∷ b7 ∷ b8 ∷ len ∷ format ∷ rest in
    let fits : leb (3 + (len + 11)) (length units) ≡ true = le→leb _ _ (omega arith) in
    let three : leb 3 (length units) ≡ true = le→leb _ _ (omega arith) in
    let long : leb (3 + 11) (length units) ≡ true = le→leb _ _ (omega arith) in
    let order : leb 3 (3 + (len + 11)) ≡ true = le→leb _ _ (omega arith) in
    let size : 3 + (len + 11) - 3
        ≡ suc (suc (suc (suc (suc (suc (suc (suc (suc (suc (suc len)))))))))) =
      omega arith in
    let piece : take (3 + (len + 11) - 3) (drop 3 units)
        ≡ a0 ∷ a1 ∷ a2 ∷ a3 ∷ a4 ∷ a5 ∷ device ∷ b7 ∷ b8 ∷ len ∷ format ∷ take len rest =
      ap (λ m. take m (drop 3 units)) size in
    rw
      (
        has,
        three,
        long,
        fits,
        order,
        piece,
        entry_panic a0 a1 a2 a3 a4 a5 device b7 b8 len format (take len rest) bad,
      )
      refl
