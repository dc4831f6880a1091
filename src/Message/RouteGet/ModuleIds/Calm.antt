-- ===== src/Message/RouteGet/ModuleIds/Calm.antt =====
-- What does not panic, for the reader of the identities of the nodes' modules.
use plc_service_rust.Base.{
  ℕ, zero, suc, ◌-◌, ◌≤◌, ◌<◌, ◌==◌, leb, le→leb, List, [], ◌∷◌, Outcome, ok, err, panic, ensure,
  index, slice, length, reverse, ==_iff, length-take, length-drop, take, drop, ◌>>=◌, ◌>>◌, Bool,
  true, false, ◌≡◌, ◌≢◌, refl, arith,
}
use plc_service_rust.Protocol.Fault.{afn_eq, Error, Afn}
use plc_service_rust.Protocol.AppData.{
  AppData, check, as_fn_num, units_length, Address, address_of_bytes,
}
use plc_service_rust.Message.{u16_of_slice}
use plc_service_rust.Message.RouteGet.{address_at_start}
use plc_service_rust.Message.RouteGet.ModuleIds.{format_of_u8}

-- What is no panic, and a step that is none before a rest that is none.
abbrev pub IsCalm : {A : Type 0} → Outcome Error A → Type 0
IsCalm m = m ≢ panic

pub bind-IsCalm :
    {A B : Type 0} (m : Outcome Error A) (next : A → Outcome Error B)
    → IsCalm m
    → ((a : A) → m ≡ ok a → IsCalm (next a))
    → IsCalm (m >>= next)
bind-IsCalm (ok a) next h k = k a refl
bind-IsCalm (err e) next h k = λ f. cc
bind-IsCalm panic next h k = absurd (h refl)

ensure-IsCalm : (b : Bool) (e : Error) → IsCalm (ensure b e)
ensure-IsCalm true e f = cc
ensure-IsCalm false e f = cc

pub index_calm : (xs : List ℕ) (i : ℕ) → i < length xs → (b : ℕ) × (index {E = Error} xs i ≡ ok b)
index_calm [] i h = absurd (omega arith)
index_calm (x ∷ xs) zero h = (x, refl)
index_calm (x ∷ xs) (suc i) h = index_calm xs i (omega arith)

pub slice_calm :
    (xs : List ℕ) (from to : ℕ)
    → from ≤ to
    → to ≤ length xs
    → (ys : List ℕ) × (slice {E = Error} xs from to ≡ ok ys)
      × (length ys ≡ to - from)
      × (ys ≡ take (to - from) (drop from xs))
slice_calm xs from to h k =
    let a : leb from to ≡ true = le→leb _ _ h in
    let b : leb to (length xs) ≡ true = le→leb _ _ k in
    (
      take (to - from) (drop from xs),
      rw (a, b) refl,
      omega (arith, length-take (to - from) (drop from xs), length-drop from xs),
      refl,
    )

guarded :
    {B : Type 0} (b : Bool) (e : Error) (next : Outcome Error B)
    → (b ≡ true → IsCalm next)
    → IsCalm (ensure b e >> next)
guarded true e next h = h refl
guarded false e next h = λ f. cc

pub address_calm : (xs : List ℕ) → 6 ≤ length xs → (a : Address) × (address_at_start xs ≡ ok a)
unfolding address_of_bytes
address_calm xs h =
    let (ys, cut, six, part) = slice_calm xs 0 6 (omega arith) h in
    let whole : (length ys == 6) ≡ true = (==_iff _ _).1 six in
    (record { bytes = reverse ys }, rw (cut, whole) refl)

pub u16-IsCalm : (xs : List ℕ) → length xs ≡ 2 → IsCalm (u16_of_slice xs)
u16-IsCalm [] h = absurd (omega arith)
u16-IsCalm (a ∷ []) h = absurd (omega arith)
u16-IsCalm (a ∷ b ∷ []) h = λ f. cc
u16-IsCalm (a ∷ b ∷ c ∷ xs) h = absurd (omega arith)

pub format-IsCalm : (b : ℕ) → IsCalm (format_of_u8 b)
unfolding format_of_u8
format-IsCalm b = ground arith

pub check-IsCalm :
    (app : AppData) (a : Afn) (number len n : ℕ)
    → as_fn_num app.data_flag ≡ ok n
    → IsCalm (check app a number len)
unfolding check
check-IsCalm app a number len n flag = guarded (afn_eq app.afn a) _ _ (λ _.
    rw flag (guarded (n == number) _ _ (λ _. ensure-IsCalm (units_length app.data_units == len) _)))
