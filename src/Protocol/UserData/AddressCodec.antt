-- ===== src/Protocol/UserData/AddressCodec.antt =====
-- user_data.rs: the address field against its bytes.
use plc_service_rust.Base.{
  ℕ, ◌+◌, ◌-◌, ◌*◌, ◌≤◌, ◌<◌, ◌≡◌, refl, ap, sym, ◌∙◌, ok, ◌>>=◌, arith, ltb, if◌then◌else◌, true,
  List, [], ◌∷◌, ◌++◌, append_assoc, length, length-append, All, Option, none, some, lt→ltb, slice,
  slice_from, slice-append, slice_from-append, chunks_loop, chunks, chunks_loop-append, Outcome,
}
use plc_service_rust.Protocol.Fault.{Error}
use plc_service_rust.Protocol.AppData.{Address, address_to_bytes}
use plc_service_rust.Protocol.AppData.Codec.{
  AddressFits, length-address_to_bytes, address_of_bytes-address_to_bytes,
}
use plc_service_rust.Protocol.UserData.{
  AddressField, relay_count, address_field_length, addresses_to_bytes, relay_bytes,
  address_field_to_bytes, collect_addresses, relays_of_bytes, address_field_of_bytes,
}

length-addresses_to_bytes :
    (rs : List Address) → All AddressFits rs → length (addresses_to_bytes rs) ≡ 6 * length rs
length-addresses_to_bytes [] h = omega arith
length-addresses_to_bytes (a ∷ rs) h =
    length-append (address_to_bytes a) (addresses_to_bytes rs)
    ∙ omega (arith, length-address_to_bytes a h.0, length-addresses_to_bytes rs h.1)

collect_addresses-chunks_loop :
    (fuel : ℕ) (rs : List Address)
    → All AddressFits rs
    → length (addresses_to_bytes rs) ≤ fuel
    → collect_addresses (chunks_loop fuel 6 (addresses_to_bytes rs)) ≡ ok rs
unfolding collect_addresses
collect_addresses-chunks_loop fuel [] h le = unfold chunks_loop in refl
collect_addresses-chunks_loop fuel (a ∷ rs) h le =
    let six : 6 ≡ length (address_to_bytes a) = omega (arith, length-address_to_bytes a h.0) in
    let rest : length (addresses_to_bytes rs) ≤ fuel - 1 = omega (
      arith,
      length-address_to_bytes a h.0,
      length-append (address_to_bytes a) (addresses_to_bytes rs),
    ) in
    ap collect_addresses
      (chunks_loop-append fuel 6 (address_to_bytes a) (addresses_to_bytes rs) six (omega arith) le)
    ∙ rw (
      address_of_bytes-address_to_bytes a h.0,
      collect_addresses-chunks_loop (fuel - 1) rs h.1 rest,
    )

-- Relay addresses that the format can carry: none, or a list that is not empty.
abbrev pub RelaysFit : Option (List Address) → Type 0
RelaysFit none = Unit
RelaysFit (some relays) = (0 < length relays) × All AddressFits relays

pub record AddressFieldFits (field : AddressField) : Type 0 where
  pub src : AddressFits field.src_address
  pub dst : AddressFits field.dst_address
  pub relays : RelaysFit field.relay_address

length-relay_bytes :
    (relays : Option (List Address))
    → RelaysFit relays
    → length (relay_bytes relays) ≡ 6 * relay_count relays
length-relay_bytes none h = omega arith
length-relay_bytes (some rs) h = length-addresses_to_bytes rs h.1

-- An address field takes as many bytes as its `length` says.
pub length-address_field_to_bytes :
    (field : AddressField)
    → AddressFieldFits field
    → length (address_field_to_bytes field) ≡ address_field_length field
unfolding address_field_to_bytes
length-address_field_to_bytes field h =
    length-append (address_to_bytes field.src_address) _
    ∙ omega (
      arith,
      length-append (relay_bytes field.relay_address) (address_to_bytes field.dst_address),
      length-address_to_bytes field.src_address h.src,
      length-address_to_bytes field.dst_address h.dst,
      length-relay_bytes field.relay_address h.relays,
    )

-- Three parts in a row, the outer two of six bytes.
module _ (xs ys zs : List ℕ) (six : length xs ≡ 6) (last : length zs ≡ 6) where
  length_parts : length (xs ++ (ys ++ zs)) ≡ length ys + 12
  length_parts = length-append xs (ys ++ zs) ∙ omega (arith, length-append ys zs)

  relays_none : length ys ≡ 0 → relays_of_bytes (xs ++ (ys ++ zs)) ≡ ok none
  unfolding relays_of_bytes
  relays_none h = ground (arith, length_parts)

  relays_some :
      (rs : List Address)
      → 0 < length ys
      → collect_addresses (chunks ys 6) ≡ ok rs
      → relays_of_bytes (xs ++ (ys ++ zs)) ≡ ok (some rs)
  unfolding relays_of_bytes
  relays_some rs h c =
      let long : ltb 12 (length (xs ++ (ys ++ zs))) ≡ true =
        lt→ltb _ _ (omega (arith, length_parts)) in
      let cut : length (xs ++ (ys ++ zs)) - 6 ≡ length xs + length ys =
        omega (arith, length_parts) in
      let read : List ℕ → Outcome Error (Option (List Address)) =
        λ m. collect_addresses (chunks m 6) >>= λ r. ok (some r) in
      let start : relays_of_bytes (xs ++ (ys ++ zs))
          ≡ (slice (xs ++ (ys ++ zs)) 6 (length (xs ++ (ys ++ zs)) - 6) >>= read) =
        ap
          (λ b.
            if b
            then (slice (xs ++ (ys ++ zs)) 6 (length (xs ++ (ys ++ zs)) - 6) >>= read)
            else ok none)
          long in
      let read_ys : read ys ≡ ok (some rs) = rw c in
      start ∙ ap (λ m. m >>= read) (slice-append xs ys zs 6 _ (omega arith) cut) ∙ read_ys

relays_of_bytes-relay_bytes :
    (xs zs : List ℕ) (relays : Option (List Address))
    → length xs ≡ 6
    → length zs ≡ 6
    → RelaysFit relays
    → relays_of_bytes (xs ++ (relay_bytes relays ++ zs)) ≡ ok relays
relays_of_bytes-relay_bytes xs zs none p q h = relays_none xs [] zs p q refl
relays_of_bytes-relay_bytes xs zs (some rs) p q h =
    relays_some xs (addresses_to_bytes rs) zs p q rs
      (omega (arith, length-addresses_to_bytes rs h.1))
      (unfold chunks in collect_addresses-chunks_loop _ rs h.1 (omega arith))

-- An address field with any number of relay addresses is read back from its own bytes.
pub address_field_of_bytes-address_field_to_bytes :
    (field : AddressField)
    → AddressFieldFits field
    → address_field_of_bytes (address_field_to_bytes field) ≡ ok field
unfolding address_field_of_bytes address_field_to_bytes
address_field_of_bytes-address_field_to_bytes field h =
    let src : List ℕ = address_to_bytes field.src_address in
    let mid : List ℕ = relay_bytes field.relay_address in
    let dst : List ℕ = address_to_bytes field.dst_address in
    let six : length src ≡ 6 = length-address_to_bytes field.src_address h.src in
    let last : length dst ≡ 6 = length-address_to_bytes field.dst_address h.dst in
    let first : slice {E = Error} (src ++ (mid ++ dst)) 0 6 ≡ ok src =
      slice-append [] src (mid ++ dst) 0 6 refl (omega arith) in
    let final : slice_from {E = Error} (src ++ (mid ++ dst)) (length (src ++ (mid ++ dst)) - 6)
        ≡ ok dst =
      ap (λ b. slice_from b (length (src ++ (mid ++ dst)) - 6)) (sym (append_assoc src mid dst))
      ∙ slice_from-append (src ++ mid) dst _ (
          omega (
            arith,
            length-append src (mid ++ dst),
            length-append mid dst,
            length-append src mid,
          )) in
    rw (
      first,
      address_of_bytes-address_to_bytes field.src_address h.src,
      relays_of_bytes-relay_bytes src dst field.relay_address six last h.relays,
      final,
      address_of_bytes-address_to_bytes field.dst_address h.dst,
    )
