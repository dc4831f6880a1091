-- ===== src/Protocol/AppData/Check.antt =====
-- src/protocol/app_data/mod.rs: `AppData::check`, on which the responses' conversions rest.
use plc_service_rust.Base.{
  ℕ, ◌<◌, ◌==◌, ==_iff, ==_refl, ne→==_false, not_both, Bool-cases, inl, inr, if◌then◌else◌, ◌+◌,
  ◌≡◌, refl, ap, ◌∙◌, List, Option, ok, err, false, arith,
}
use plc_service_rust.Protocol.Fault.{Afn, afn_to_u8, app_data, AppDataError}
use plc_service_rust.Protocol.AppData.{AppData, check, units_length, new}
use plc_service_rust.Protocol.AppData.Flag.{
  flag_values, flag_of_fn_num_values, as_fn_num-flag_values,
}

-- Application data as `AppData::new` makes it.
abbrev pub made : Afn → ℕ → Option (List ℕ) → AppData
made a n units = record { afn = a; data_flag = flag_values n; data_units = units }

pub new-made :
    (a : Afn) (n : ℕ) (units : Option (List ℕ)) → 0 < n → new a n units ≡ ok (made a n units)
unfolding new
new-made a n units h = rw (flag_of_fn_num_values n h) refl

pub check-made :
    (a : Afn) (n len : ℕ) (units : Option (List ℕ))
    → 0 < n
    → n < 256
    → units_length units ≡ len
    → check (made a n units) a n len ≡ ok tt
unfolding check
check-made a n len units pos lt h =
    rw (==_refl (afn_to_u8 a), as_fn_num-flag_values n pos lt, ==_refl n, h, ==_refl len) refl

-- The length is the last thing that is looked at.
pub check-made_length :
    (a : Afn) (n len : ℕ) (units : Option (List ℕ))
    → 0 < n
    → n < 256
    → (units_length units == len) ≡ false
    → check (made a n units) a n len
      ≡ err (app_data (AppDataError.data_length (units_length units)))
unfolding check
check-made_length a n len units pos lt h =
    rw (==_refl (afn_to_u8 a), as_fn_num-flag_values n pos lt, ==_refl n, h) refl

-- The check of a response that counts the bytes behind its first `pre` bytes, `m`, as `n`.
pub check-counted :
    (a : Afn) (k pre n m : ℕ) (units : Option (List ℕ))
    → 0 < k
    → k < 256
    → units_length units ≡ pre + m
    → check (made a k units) a k (pre + n)
      ≡ (if m == n then ok tt else err (app_data (AppDataError.data_length (pre + m))))
check-counted a k pre n m units pos lt h = elim (Bool-cases (m == n)) [
  | inl e ↦
      let same : m ≡ n = (==_iff m n).0 e in
      rw e (check-made a k (pre + n) units pos lt (omega (arith, same, h)))
  | inr e ↦
      let other : (units_length units == pre + n) ≡ false =
        ne→==_false _ _ (λ q. not_both (m == n) ((==_iff m n).1 (omega (arith, q, h))) e) in
      rw e (
        check-made_length a k (pre + n) units pos lt other
        ∙ ap (λ u. err (app_data (AppDataError.data_length u))) h)
]
