-- ===== src/Service/Action.antt =====
-- A method with `&mut self` that returns a `Result`: it hands on the state that it leaves also when
-- it fails or panics. And the errors of the services in src/service.
use plc_service_rust.Base.{ℕ, String, Outcome, ok, err, panic, List, [], ◌∷◌}
use plc_service_rust.Protocol.Fault.{Error}

-- `storage` is an error of the configuration's file or database, `denied` a `DenyResponse`, with its
-- code, that became an error, `protocol` an error of src/protocol. `waiting` stands for a thread that
-- is still waiting.
pub data ServiceError : Type 0 where
  not_found : String → ServiceError
  type_mismatch : String → String → ServiceError
  storage : ServiceError
  timeout : ServiceError
  waiting : ServiceError
  denied : ℕ → ServiceError
  protocol : Error → ServiceError

abbrev pub Action : Type 0 → Type 0 → Type 0
Action S A = S → S × Outcome ServiceError A

module _ {S A B : Type 0} where
  abbrev pub continue : S × Outcome ServiceError A → (A → Action S B) → S × Outcome ServiceError B
  continue (s, ok a) next = next a s
  continue (s, err e) next = (s, err e)
  continue (s, panic) next = (s, panic)

  infixl 5 ◌>>=◌
  abbrev pub ◌>>=◌ : Action S A → (A → Action S B) → Action S B
  ◌>>=◌ first next s = continue (first s) next

module _ {S B : Type 0} where
  infixl 5 ◌>>◌
  abbrev pub ◌>>◌ : Action S (Unit {0}) → Action S B → Action S B
  ◌>>◌ first next s = continue (first s) (λ _. next)

module _ {S A : Type 0} where
  abbrev pub done : A → Action S A
  done a s = (s, ok a)

  abbrev pub fail : ServiceError → Action S A
  fail e s = (s, err e)

  abbrev pub die : Action S A
  die s = (s, panic)

module _ {S : Type 0} where
  abbrev pub change : (S → S) → Action S (Unit {0})
  change f s = (f s, ok tt)

  -- A loop that ends at the first error, with `?` in its body.
  unfoldable pub for_each : {X : Type 0} → (X → Action S (Unit {0})) → List X → Action S (Unit {0})
  for_each body [] = done tt
  for_each body (x ∷ xs) = body x >> for_each body xs
