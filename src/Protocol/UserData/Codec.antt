-- ===== src/Protocol/UserData/Codec.antt =====
-- user_data.rs: user data against its bytes, and the user data that `UserData::new` makes.
use plc_service_rust.Base.{
  ℕ, ◌+◌, ◌*◌, ◌≤◌, ◌<◌, ◌≡◌, ◌≢◌, refl, ap, sym, ◌∙◌, ok, ◌>>=◌, ◌>>◌, arith, leb, ◌==◌,
  if◌then◌else◌, true, List, [], ◌++◌, append_assoc, length, length-append, Option, none, some,
  le→leb, ne→==_false, slice, slice_from, slice-append, slice_from-append, Outcome, ensure,
}
use plc_service_rust.Protocol.Fault.{Error, Afn, answer, message}
use plc_service_rust.Protocol.InfoField as Info
use plc_service_rust.Protocol.InfoField.{InfoField, InfoFieldType}
use plc_service_rust.Protocol.InfoField.Codec as InfoCodec
use plc_service_rust.Protocol.InfoField.Codec.{Fits}
use plc_service_rust.Protocol.AppData as App
use plc_service_rust.Protocol.AppData.{
  Address, AppData, comm_mark_of_afn, app_data_length, units_bytes, units_length,
}
use plc_service_rust.Protocol.AppData.Codec as AppCodec
use plc_service_rust.Protocol.AppData.Codec.{IsCanonical}
use plc_service_rust.Protocol.UserData.{
  AddressField, address_field_to_bytes, address_field_of_bytes, relay_count, relay_flag, UserData,
  new, user_data_length, optional_address_bytes, optional_address_length, addressed_of_bytes,
  unaddressed_of_bytes, from_bytes, to_bytes,
}
use plc_service_rust.Protocol.UserData.AddressCodec.{
  AddressFieldFits, RelaysFit, length-address_field_to_bytes,
  address_field_of_bytes-address_field_to_bytes,
}

-- The address field is there just if the information field marks it, with as many relay addresses as
-- the information field says.
abbrev pub AddressMatches : InfoField → Option AddressField → Type 0
AddressMatches info none = Info.comm_model_mark info ≢ 1
AddressMatches info (some field) =
    (Info.comm_model_mark info ≡ 1)
    × (Info.relay_level info ≡ relay_count field.relay_address)
    × AddressFieldFits field

pub record IsSound (ud : UserData) : Type 0 where
  pub info : Fits ud.info_field
  pub address : AddressMatches ud.info_field ud.address_field
  pub number : ℕ
  pub canonical : IsCanonical ud.app_data number
  pub units : ud.app_data.data_units ≢ some []

pub length-info : (info : InfoField) → length (Info.to_bytes info) ≡ 6
length-info (InfoField.down d) = unfold Info.to_bytes in refl
length-info (InfoField.up u) = unfold Info.to_bytes in refl

length-units_bytes : (units : Option (List ℕ)) → length (units_bytes units) ≡ units_length units
length-units_bytes none = refl
length-units_bytes (some xs) = refl

length-app : (app : AppData) → length (App.to_bytes app) ≡ app_data_length app
unfolding App.to_bytes
length-app app = omega (arith, length-units_bytes app.data_units)

length-optional_address_bytes :
    (info : InfoField) (address : Option AddressField)
    → AddressMatches info address
    → length (optional_address_bytes address) ≡ optional_address_length address
length-optional_address_bytes info none h = refl
length-optional_address_bytes info (some field) h = length-address_field_to_bytes field h.2

-- The bytes of user data are as many as its `length` says.
pub length-to_bytes :
    (ud : UserData)
    → AddressMatches ud.info_field ud.address_field
    → length (to_bytes ud) ≡ user_data_length ud
unfolding to_bytes
length-to_bytes ud h =
    length-append (Info.to_bytes ud.info_field) _
    ∙ omega (
      arith,
      length-append (optional_address_bytes ud.address_field) (App.to_bytes ud.app_data),
      length-info ud.info_field,
      length-app ud.app_data,
      length-optional_address_bytes ud.info_field ud.address_field h,
    )

unaddressed_lem :
    (info : InfoField) (app : AppData) (xs : List ℕ)
    → length xs ≡ 6
    → App.of_bytes (App.to_bytes app) ≡ ok app
    → unaddressed_of_bytes info (xs ++ App.to_bytes app)
      ≡ ok (record { info_field = info; address_field = none; app_data = app })
unfolding unaddressed_of_bytes
unaddressed_lem info app xs six back =
    let rest : slice_from {E = Error} (xs ++ App.to_bytes app) 6 ≡ ok (App.to_bytes app) =
      slice_from-append xs _ 6 (omega arith) in
    rw (rest, back)

pub addressed_parts :
    (info : InfoField) (field : AddressField) (xs zs : List ℕ)
    → length xs ≡ 6
    → Info.relay_level info ≡ relay_count field.relay_address
    → AddressFieldFits field
    → addressed_of_bytes info (xs ++ (address_field_to_bytes field ++ zs)) ≡ (
        App.of_bytes zs >>= λ app.
        ok (record { info_field = info; address_field = some field; app_data = app }))
unfolding addressed_of_bytes
addressed_parts info field xs zs six level fits =
    let ys : List ℕ = address_field_to_bytes field in
    let to : ℕ = 6 + (Info.relay_level info + 2) * 6 in
    let size : length ys ≡ (Info.relay_level info + 2) * 6 =
      length-address_field_to_bytes field fits ∙ omega arith in
    let long : leb to (length (xs ++ (ys ++ zs))) ≡ true =
      le→leb _ _ (omega (arith, length-append xs (ys ++ zs), length-append ys zs)) in
    let part : slice {E = Error} (xs ++ (ys ++ zs)) 6 to ≡ ok ys =
      slice-append xs ys zs 6 to (omega arith) (omega arith) in
    let rest : slice_from {E = Error} (xs ++ (ys ++ zs)) to ≡ ok zs =
      ap (λ b. slice_from b to) (sym (append_assoc xs ys zs))
      ∙ slice_from-append (xs ++ ys) zs to (omega (arith, length-append xs ys)) in
    let after : List ℕ → Outcome Error UserData = λ part. address_field_of_bytes part >>= λ address.
    slice_from (xs ++ (ys ++ zs)) to >>= λ rest. App.of_bytes rest >>= λ app.
    ok (record { info_field = info; address_field = some address; app_data = app }) in
    ap
      (λ b.
        ensure b (message "address field length error")
        >> (slice (xs ++ (ys ++ zs)) 6 to >>= after))
      long
    ∙ ap (λ m. m >>= after) part
    ∙ rw (address_field_of_bytes-address_field_to_bytes field fits, rest)

addressed_lem :
    (info : InfoField) (field : AddressField) (app : AppData) (xs : List ℕ)
    → length xs ≡ 6
    → Info.relay_level info ≡ relay_count field.relay_address
    → AddressFieldFits field
    → App.of_bytes (App.to_bytes app) ≡ ok app
    → addressed_of_bytes info (xs ++ (address_field_to_bytes field ++ App.to_bytes app))
      ≡ ok (record { info_field = info; address_field = some field; app_data = app })
addressed_lem info field app xs six level fits back =
    addressed_parts info field xs (App.to_bytes app) six level fits ∙ rw back

read_lem :
    (info : InfoField) (address : Option AddressField) (app : AppData) (xs : List ℕ)
    → length xs ≡ 6
    → AddressMatches info address
    → App.of_bytes (App.to_bytes app) ≡ ok app
    → (if Info.comm_model_mark info == 1
        then addressed_of_bytes info (xs ++ (optional_address_bytes address ++ App.to_bytes app))
        else unaddressed_of_bytes info (xs ++ (optional_address_bytes address ++ App.to_bytes app)))
      ≡ ok (record { info_field = info; address_field = address; app_data = app })
read_lem info none app xs six h back =
    rw (ne→==_false (Info.comm_model_mark info) 1 h) (unaddressed_lem info app xs six back)
read_lem info (some field) app xs six h back =
    rw h.0 (addressed_lem info field app xs six h.1 h.2 back)

-- Sound user data is read back from its own bytes, in the direction of its information field.
pub from_bytes-to_bytes_user :
    (ud : UserData) → IsSound ud → from_bytes (Info.get_type ud.info_field) (to_bytes ud) ≡ ok ud
unfolding from_bytes to_bytes
from_bytes-to_bytes_user ud s =
    let xs : List ℕ = Info.to_bytes ud.info_field in
    let rest : List ℕ = optional_address_bytes ud.address_field ++ App.to_bytes ud.app_data in
    let head : slice {E = Error} (xs ++ rest) 0 6 ≡ ok xs =
      slice-append [] xs rest 0 6 refl (omega (arith, length-info ud.info_field)) in
    rw (head, InfoCodec.from_bytes-to_bytes_info ud.info_field s.info)
      (read_lem ud.info_field ud.address_field ud.app_data xs (length-info ud.info_field) s.address
        (AppCodec.of_bytes-to_bytes_app ud.app_data s.number s.canonical s.units))

-- An address field for application data of this function code: one with at most one relay address if
-- the function code is sent to a node, and none otherwise.
abbrev pub IsAddressed : Afn → Option AddressField → Type 0
IsAddressed a none = comm_mark_of_afn a ≢ 1
IsAddressed a (some field) =
    (comm_mark_of_afn a ≡ 1) × (relay_count field.relay_address ≤ 1) × AddressFieldFits field

comm_mark_of_afn-lt : (a : Afn) → comm_mark_of_afn a < 2
comm_mark_of_afn-lt answer = omega arith
comm_mark_of_afn-lt _ = omega arith

relay_flag-lt : (address : Option AddressField) → relay_flag address < 2
relay_flag-lt none = omega arith
relay_flag-lt (some field) = relays field.relay_address
  where
    relays : (r : Option (List Address)) → (elim r [ none ↦ 0 | some _ ↦ 1 ]) < 2
    relays none = omega arith
    relays (some rs) = omega arith

relay_flag-relay_count :
    (field : AddressField)
    → relay_count field.relay_address ≤ 1
    → AddressFieldFits field
    → relay_flag (some field) ≡ relay_count field.relay_address
relay_flag-relay_count field h fits = relays field.relay_address h fits.relays
  where
    relays :
        (r : Option (List Address))
        → relay_count r ≤ 1
        → RelaysFit r
        → (elim r [ none ↦ 0 | some _ ↦ 1 ]) ≡ relay_count r
    relays none h f = refl
    relays (some rs) h f = omega arith

pub new-AddressMatches :
    (seq : ℕ) (address : Option AddressField) (app : AppData)
    → IsAddressed app.afn address
    → AddressMatches (new seq address app).info_field (new seq address app).address_field
unfolding new Info.new
new-AddressMatches seq none app h = h
new-AddressMatches seq (some field) app h = (h.0, relay_flag-relay_count field h.1 h.2, h.2)

-- User data that is made for a sequence number of a byte and an address field that suits the function
-- code is sound.
pub new-IsSound :
    (seq n : ℕ) (address : Option AddressField) (app : AppData)
    → seq < 256
    → IsCanonical app n
    → app.data_units ≢ some []
    → IsAddressed app.afn address
    → IsSound (new seq address app)
new-IsSound seq n address app lt canonical units addressed = record {
  info = unfold new Info.new in omega (arith, comm_mark_of_afn-lt app.afn, relay_flag-lt address);
  address = new-AddressMatches seq address app addressed;
  number = n;
  canonical = unfold new in canonical;
  units = unfold new in units;
}
