-- ===== src/Protocol/UserData/Relays.antt =====
-- user_data.rs: user data with more than one relay address.
use plc_service_rust.Base.{
  ℕ, ◌<◌, ◌≡◌, refl, ok, ◌>>=◌, arith, List, [], ◌∷◌, ◌++◌, append_assoc, append-nil, All, some,
  slice, slice-append,
}
use plc_service_rust.Protocol.Fault.{Error}
use plc_service_rust.Protocol.InfoField as Info
use plc_service_rust.Protocol.InfoField.{InfoFieldType}
use plc_service_rust.Protocol.InfoField.Codec as InfoCodec
use plc_service_rust.Protocol.AppData as App
use plc_service_rust.Protocol.AppData.{Address, address_to_bytes, AppData, comm_mark_of_afn}
use plc_service_rust.Protocol.AppData.Codec.{AddressFits}
use plc_service_rust.Protocol.UserData.{
  AddressField, address_field_to_bytes, optional_address_bytes, addresses_to_bytes, UserData, new,
  from_bytes, to_bytes,
}
use plc_service_rust.Protocol.UserData.AddressCodec.{AddressFieldFits}
use plc_service_rust.Protocol.UserData.Codec.{length-info, addressed_parts}

abbrev pub sent : ℕ → Address → List Address → Address → AppData → UserData
sent seq src relays dst app =
    new seq (some (record { src_address = src; relay_address = some relays; dst_address = dst }))
      app

-- What the receiver takes for the address field.
abbrev pub seen : Address → Address → Address → AddressField
seen src r1 r2 = record { src_address = src; relay_address = some (r1 ∷ []); dst_address = r2 }

-- What it takes for the application data.
abbrev pub leftover : List Address → Address → AppData → List ℕ
leftover rs dst app = addresses_to_bytes rs ++ (address_to_bytes dst ++ App.to_bytes app)

module _ (seq : ℕ) (src r1 r2 : Address) (rs : List Address) (dst : Address) (app : AppData)
    (byte : seq < 256) (fits : All AddressFits (src ∷ r1 ∷ r2 ∷ []))
    (addressed : comm_mark_of_afn app.afn ≡ 1) where
  -- User data that `UserData::new` makes with two or more relay addresses is not read back: the
  -- information field says one relay, so that the second relay is taken for the destination, and the
  -- other relays, the destination and the application data together for the application data.
  pub relays_lost :
      from_bytes InfoFieldType.down (to_bytes (sent seq src (r1 ∷ r2 ∷ rs) dst app)) ≡ (
        App.of_bytes (leftover rs dst app) >>= λ read. ok (record {
          info_field = (sent seq src (r1 ∷ r2 ∷ rs) dst app).info_field;
          address_field = some (seen src r1 r2);
          app_data = read;
        }))
  unfolding from_bytes to_bytes new Info.new
  relays_lost =
      let info : Info.InfoField = Info.InfoField.down (record {
        route_flag = 0;
        node_flag = 0;
        comm_model_mark = 1;
        conflict_check = 0;
        relay_level = 1;
        channel_flag = 0;
        ecc = 0;
        answer_bytes = 0;
        speed = 0;
        speed_unit_flag = 0;
        seq_num = seq;
      }) in
      let xs : List ℕ = Info.to_bytes info in
      let ok_seen : AddressFieldFits (seen src r1 r2) = omega arith in
      let split : optional_address_bytes (sent seq src (r1 ∷ r2 ∷ rs) dst app).address_field
            ++ App.to_bytes app
          ≡ address_field_to_bytes (seen src r1 r2) ++ (leftover rs dst app) =
        unfold address_field_to_bytes in simp (append_assoc, append-nil) in
      let head : slice {E = Error}
            (xs ++ (address_field_to_bytes (seen src r1 r2) ++ (leftover rs dst app))) 0 6
          ≡ ok xs =
        slice-append [] xs (address_field_to_bytes (seen src r1 r2) ++ (leftover rs dst app)) 0 6
          refl (omega (arith, length-info info)) in
      rw (addressed, split)
        (rw (head, InfoCodec.from_bytes-to_bytes_info info (omega arith))
          (addressed_parts info (seen src r1 r2) xs (leftover rs dst app) (length-info info) refl
            ok_seen))
