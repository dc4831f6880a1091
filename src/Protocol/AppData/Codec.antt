-- ===== src/Protocol/AppData/Codec.antt =====
-- app_data/mod.rs: application data and addresses against their bytes.
use mathlib.Core.List.{reverse-reverse, reverse-append}
use plc_service_rust.Base.{
  ℕ, suc, ◌+◌, ◌*◌, ◌%◌, ◌<◌, ◌≡◌, ◌≢◌, refl, ap, sym, ◌∙◌, ok, err, panic, ◌>>=◌, arith, leb, ltb,
  le→leb, lt→ltb, true, List, [], ◌∷◌, reverse, length, length-append, Option, none, some,
  >>=-eq-ok, Outcome-cases, ◌-◌, ◌/◌, zero, inl, inr,
}
use plc_service_rust.Base.Bits.{shl_u8}
use plc_service_rust.Protocol.Fault.{
  Afn, afn_to_u8, afn_of_u8, afn_of_u8-afn_to_u8, afn_to_u8-afn_of_u8, message,
}
use plc_service_rust.Protocol.AppData.{
  Address, address_of_bytes, address_to_bytes, DataFlag, as_fn_num, flag_of_fn_num, flag_of_bytes,
  AppData, new, of_bytes, units_bytes, to_bytes,
}
use plc_service_rust.Protocol.AppData.Flag.{
  IsLowestBit, as_fn_num_lem, as_fn_num_zero, flag_values, flag_of_fn_num_values,
  as_fn_num-flag_values,
}

length-reverse : (xs : List ℕ) → length (reverse xs) ≡ length xs
length-reverse [] = refl
length-reverse (x ∷ xs) =
    ap length (reverse-append (x ∷ []) xs)
    ∙ length-append (reverse xs) (x ∷ [])
    ∙ omega (arith, length-reverse xs)

-- An `[u8; 6]`.
abbrev pub AddressFits : Address → Type 0
AddressFits a = length a.bytes ≡ 6

pub length-address_to_bytes : (a : Address) → AddressFits a → length (address_to_bytes a) ≡ 6
unfolding address_to_bytes
length-address_to_bytes a h = length-reverse a.bytes ∙ h

pub address_of_bytes-address_to_bytes :
    (a : Address) → AddressFits a → address_of_bytes (address_to_bytes a) ≡ ok a
unfolding address_of_bytes
address_of_bytes-address_to_bytes a h =
    rw (length-address_to_bytes a h)
      (unfold address_to_bytes in ap (λ b. ok (record { bytes = b })) (reverse-reverse a.bytes))

-- Six bytes of the wire are read as an address, which is written as the same six bytes.
pub address_of_bytes_six :
    (bytes : List ℕ)
    → length bytes ≡ 6
    → (a : Address) × (address_of_bytes bytes ≡ ok a) × AddressFits a × (address_to_bytes a ≡ bytes)
unfolding address_of_bytes address_to_bytes
address_of_bytes_six bytes h =
    (record { bytes = reverse bytes }, rw h, length-reverse bytes ∙ h, reverse-reverse bytes)

-- Application data as `AppData::new` makes it: the data flag of a function number that fits a byte.
pub record IsCanonical (app : AppData) (n : ℕ) : Type 0 where
  pub positive : 0 < n
  pub fits : n < 256
  pub flag : app.data_flag ≡ flag_values n

pub new-IsCanonical :
    (a : Afn) (n : ℕ) (units : Option (List ℕ)) {app : AppData}
    → n < 256
    → new a n units ≡ ok app
    → IsCanonical app n
unfolding new flag_of_fn_num
new-IsCanonical a n units lt h = ground arith

pub new_lem :
    (a : Afn) (n : ℕ) (units : Option (List ℕ))
    → 0 < n
    → new a n units ≡ ok (record { afn = a; data_flag = flag_values n; data_units = units })
unfolding new
new_lem a n units h = rw (flag_of_fn_num_values n h)

abbrev read_units : List ℕ → Option (List ℕ)
read_units [] = none
read_units (x ∷ xs) = some (x ∷ xs)

of_bytes_flag :
    (b0 mark type_ : ℕ) (rest : List ℕ) (a : Afn)
    → afn_of_u8 b0 ≡ ok a
    → of_bytes (b0 ∷ mark ∷ type_ ∷ rest)
      ≡ (as_fn_num (record { type_ = type_; mark = mark }) >>= λ n. new a n (read_units rest))
unfolding of_bytes flag_of_bytes
of_bytes_flag b0 mark type_ [] a p = rw p
of_bytes_flag b0 mark type_ (x ∷ xs) a p =
    let long : leb 3 (length (b0 ∷ mark ∷ type_ ∷ x ∷ xs)) ≡ true = le→leb _ _ (omega arith) in
    let two : ltb 3 (length (b0 ∷ mark ∷ type_ ∷ x ∷ xs)) ≡ true = lt→ltb _ _ (omega arith) in
    rw (long, two, p)

of_bytes_ok :
    (b0 mark type_ : ℕ) (rest : List ℕ) (a : Afn) (n : ℕ)
    → afn_of_u8 b0 ≡ ok a
    → as_fn_num (record { type_ = type_; mark = mark }) ≡ ok n
    → of_bytes (b0 ∷ mark ∷ type_ ∷ rest) ≡ new a n (read_units rest)
of_bytes_ok b0 mark type_ rest a n p q = of_bytes_flag b0 mark type_ rest a p ∙ rw q

read_units-units_bytes :
    (units : Option (List ℕ)) → units ≢ some [] → read_units (units_bytes units) ≡ units
read_units-units_bytes none h = refl
read_units-units_bytes (some []) h = absurd (h refl)
read_units-units_bytes (some (x ∷ xs)) h = refl

-- Application data with a function number that fits a byte, and with no empty vector of data units,
-- is read back from its own bytes.
pub of_bytes-to_bytes_app :
    (app : AppData) (n : ℕ)
    → IsCanonical app n
    → app.data_units ≢ some []
    → of_bytes (to_bytes app) ≡ ok app
unfolding to_bytes
of_bytes-to_bytes_app app n c h = rw c.flag (
    of_bytes_ok _ _ _ (units_bytes app.data_units) app.afn n (afn_of_u8-afn_to_u8 app.afn)
      (as_fn_num-flag_values n c.positive c.fits)
    ∙ rw (new_lem app.afn n (read_units (units_bytes app.data_units)) c.positive)
        (rw (read_units-units_bytes app.data_units h, ← c.flag)))

-- A known function code with a data flag that has no mark bit is not refused by an error: the search
-- for the mark bit runs off the byte.
pub of_bytes_no_mark :
    (a : Afn) (type_ : ℕ) (rest : List ℕ) → of_bytes (afn_to_u8 a ∷ 0 ∷ type_ ∷ rest) ≡ panic
of_bytes_no_mark a type_ rest =
    of_bytes_flag (afn_to_u8 a) 0 type_ rest a (afn_of_u8-afn_to_u8 a) ∙ rw (as_fn_num_zero type_)

-- Fewer than three bytes are refused.
pub of_bytes_short :
    (bytes : List ℕ) → length bytes < 3 → of_bytes bytes ≡ err (message "app data length error")
unfolding of_bytes
of_bytes_short bytes h = ground arith

as_fn_num-lt : (flag : DataFlag) (n : ℕ) → as_fn_num flag ≡ ok n → (0 < n) × (n < 256)
unfolding as_fn_num
as_fn_num-lt flag n h = ground arith

-- What a successful read has done step by step.
of_bytes_steps :
    (b0 mark type_ : ℕ) (rest : List ℕ) (app : AppData)
    → of_bytes (b0 ∷ mark ∷ type_ ∷ rest) ≡ ok app
    → (a : Afn) × (n : ℕ) × (afn_to_u8 a ≡ b0)
      × (as_fn_num (record { type_ = type_; mark = mark }) ≡ ok n)
      × (app ≡ record { afn = a; data_flag = flag_values n; data_units = read_units rest })
of_bytes_steps b0 mark type_ rest app h = elim (Outcome-cases (afn_of_u8 b0)) [
  | inl (a, p) ↦
      let (n, q, r) =
        >>=-eq-ok (as_fn_num (record { type_ = type_; mark = mark }))
          (λ n. new a n (read_units rest)) (sym (of_bytes_flag b0 mark type_ rest a p) ∙ h) in
      let bounds : (0 < n) × (n < 256) = as_fn_num-lt _ n q in
      (a, n, afn_to_u8-afn_of_u8 b0 a p, q, cc (r, new_lem a n (read_units rest) bounds.0))
  | inr (inl (e, p)) ↦ absurd (unfold of_bytes in ground arith)
  | inr (inr p) ↦ absurd (unfold of_bytes in ground arith)
]

units_bytes-read_units : (rest : List ℕ) → units_bytes (read_units rest) ≡ rest
units_bytes-read_units [] = refl
units_bytes-read_units (x ∷ xs) = refl

-- Application data that is read from bytes `b0 mark type rest` has the function code `b0`, the data
-- flag `type` with the lowest bit of `mark` alone, and the data units `rest`.
pub of_bytes_decodes :
    (b0 mark type_ : ℕ) (rest : List ℕ) (app : AppData)
    → mark < 256
    → of_bytes (b0 ∷ mark ∷ type_ ∷ rest) ≡ ok app
    → (i : ℕ) × IsLowestBit mark i
      × (afn_to_u8 app.afn ≡ b0)
      × (app.data_flag ≡ record { type_ = type_; mark = shl_u8 1 i })
      × (units_bytes app.data_units ≡ rest)
of_bytes_decodes b0 zero type_ rest app lt h =
    let (a, n, p, q, r) = of_bytes_steps b0 0 type_ rest app h in absurd (cc (as_fn_num_zero type_))
of_bytes_decodes b0 (suc m) type_ rest app lt h =
    let (a, n, p, q, r) = of_bytes_steps b0 (suc m) type_ rest app h in
    let (i, low, e) = as_fn_num_lem type_ (suc m) (omega arith) lt in
    let number : n ≡ type_ * 8 + i + 1 = ground arith in
    let t : (n - 1) / 8 ≡ type_ = omega arith in
    let u : (n - 1) % 8 ≡ i = omega arith in
    (
      i,
      low,
      rw r p,
      ap (λ x. x.data_flag) r ∙ rw (t, u),
      ap (λ x. units_bytes x.data_units) r ∙ units_bytes-read_units rest,
    )
