-- ===== src/Message/RouteGet/Lines.antt =====
-- src/protocol/app_data/route_get.rs: the response with the line information of the nodes.
use plc_service_rust.Base.{
  ℕ, ◌+◌, ◌*◌, ◌/◌, ◌%◌, ◌<◌, leb, le→leb, List, [], ◌∷◌, ◌++◌, length, length-append, some, ok,
  slice, ◌≡◌, refl, ◌∙◌, arith, true, slice-append, chunks, chunks_loop, All, take,
}
use plc_service_rust.Protocol.Fault.{route_get, Error}
use plc_service_rust.Protocol.InfoField.{u16_of_le, u16_to_le}
use plc_service_rust.Protocol.AppData.{check, address_to_bytes}
use plc_service_rust.Protocol.AppData.Check.{made, check-made}
use plc_service_rust.Message.Entries.{
  read_entries, entries_to_bytes, Layout, read_entries-chunks_loop, length-entries_to_bytes,
}
use plc_service_rust.Protocol.AppData.Codec.{
  AddressFits, length-address_to_bytes, address_of_bytes-address_to_bytes,
}
use plc_service_rust.Message.RouteGet.{NodeLineInfo, line_of_bytes, node_line_of_app}

abbrev pub LineFits : NodeLineInfo → Type 0
LineFits x = AddressFits x.addr × (x.info < 65536)

-- The eight bytes of an entry on the wire.
abbrev pub line_to_bytes : NodeLineInfo → List ℕ
line_to_bytes x = address_to_bytes x.addr ++ u16_to_le x.info

line_of_bytes-line_to_bytes :
    (x : NodeLineInfo) → LineFits x → line_of_bytes (line_to_bytes x) ≡ ok x
unfolding line_of_bytes
line_of_bytes-line_to_bytes x (h, k) =
    let wide : length (address_to_bytes x.addr) ≡ 6 = length-address_to_bytes x.addr h in
    let front : slice {E = Error} (line_to_bytes x) 0 6 ≡ ok (address_to_bytes x.addr) =
      slice-append [] (address_to_bytes x.addr) (u16_to_le x.info) 0 6 refl (omega (arith, wide)) in
    let back : slice {E = Error} (line_to_bytes x) 6 8 ≡ ok (u16_to_le x.info) =
      slice-append (address_to_bytes x.addr) (u16_to_le x.info) [] 6 8 (omega (arith, wide))
        (omega (arith, wide)) in
    let value : u16_of_le (x.info % 256) (x.info / 256 % 256) ≡ x.info = omega arith in
    rw (front, address_of_bytes-address_to_bytes x.addr h, back, value) refl

line-Layout : Layout LineFits 8 line_to_bytes line_of_bytes
line-Layout = record {
  positive = omega arith;
  width = λ x h.
      length-append (address_to_bytes x.addr) (u16_to_le x.info)
      ∙ omega (arith, length-address_to_bytes x.addr (h.0));
  round = line_of_bytes-line_to_bytes;
}

-- The response for any page of at most 255 nodes is read whole: total, start, count and every entry,
-- in order.
pub node_line_of_app-made :
    (total start : ℕ) (infos : List NodeLineInfo)
    → total < 65536
    → start < 65536
    → All LineFits infos
    → node_line_of_app (
        made route_get 31 (
          some (
            u16_to_le total
            ++ (u16_to_le start ++ (length infos ∷ entries_to_bytes line_to_bytes infos)))))
      ≡ ok (record {
        total_node_number = total;
        start_index = start;
        node_number = length infos;
        line_infos = infos;
      })
unfolding node_line_of_app chunks
node_line_of_app-made total start infos h k fit =
    let entries : List ℕ = entries_to_bytes line_to_bytes infos in
    let units : List ℕ = u16_to_le total ++ (u16_to_le start ++ (length infos ∷ entries)) in
    let size : length entries ≡ length infos * 8 = length-entries_to_bytes line-Layout infos fit in
    let five : leb 5 (length units) ≡ true = le→leb _ _ (omega arith) in
    let two : leb 2 (length units) ≡ true = le→leb _ _ (omega arith) in
    let four : leb 4 (length units) ≡ true = le→leb _ _ (omega arith) in
    let checked : check (made route_get 31 (some units)) route_get 31 (length infos * 8 + 5)
        ≡ ok tt =
      check-made route_get 31 (length infos * 8 + 5) (some units) (omega arith) (omega arith)
        (omega (arith, size)) in
    let total_value : u16_of_le (total % 256) (total / 256 % 256) ≡ total = omega arith in
    let start_value : u16_of_le (start % 256) (start / 256 % 256) ≡ start = omega arith in
    let read : read_entries line_of_bytes
          (take (length infos) (chunks_loop (length entries) 8 entries))
        ≡ ok infos =
      read_entries-chunks_loop line-Layout (length entries) infos fit (omega arith) in
    rw (five, checked, two, four, total_value, start_value, read) refl
