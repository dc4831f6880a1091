-- ===== src/Message/RouteSet.antt =====
-- src/protocol/app_data/route_set.rs: the nodes that the module is to know (AFN 11H). The start time
-- comes from the crate chrono: its fields are given.
use plc_service_rust.Base.{
  ℕ, ◌*◌, ◌%◌, List, [], ◌∷◌, ◌++◌, length, length-append, none, some, Outcome, ok, slice, ◌>>=◌,
  ◌≡◌, refl, ◌∙◌, arith, slice-append, get_elem?, get_elem?-append, chunks, All, take,
}
use plc_service_rust.Protocol.Fault.{route_set, Error}
use plc_service_rust.Protocol.InfoField.{u16_to_le}
use plc_service_rust.Protocol.AppData.{AppData, new, Address, address_to_bytes}
use plc_service_rust.Protocol.AppData.Check.{made, new-made}
use plc_service_rust.Message.Entries.{
  read_entries, entries_to_bytes, Layout, read_entries-chunks_loop, length-entries_to_bytes,
}
use plc_service_rust.Protocol.AppData.Codec.{
  AddressFits, length-address_to_bytes, address_of_bytes-address_to_bytes,
}
use plc_service_rust.Message.ActiveReport.{slave_node_of_bytes}
use plc_service_rust.Message.RouteDataRead.{Clock}
use plc_service_rust.Protocol.UserData.{dec_to_hex}

pub record NodeInfo : Type 0 where
  pub src_addr : Address
  pub protocol_type : ℕ

abbrev pub node_to_bytes : NodeInfo → List ℕ
node_to_bytes node = address_to_bytes node.src_addr ++ (node.protocol_type ∷ [])

-- The count is cut to a `u8`.
unfoldable pub add_node_to_app : List NodeInfo → Outcome Error AppData
add_node_to_app node_infos =
    new route_set 1 (some (length node_infos % 256 ∷ entries_to_bytes node_to_bytes node_infos))

unfoldable pub del_node_to_app : List Address → Outcome Error AppData
del_node_to_app node_addrs =
    new route_set 2 (some (length node_addrs % 256 ∷ entries_to_bytes address_to_bytes node_addrs))

unfoldable pub stop_register_to_app : Outcome Error AppData
stop_register_to_app = new route_set 6 none

pub record ActiveNodeRegisterRequest : Type 0 where
  pub start_time : Clock
  pub duration : ℕ
  pub retry_count : ℕ
  pub random_wait_count : ℕ

unfoldable pub active_register_to_app : ActiveNodeRegisterRequest → Outcome Error AppData
active_register_to_app r = do
  second ← dec_to_hex r.start_time.second
  minute ← dec_to_hex r.start_time.minute
  hour ← dec_to_hex r.start_time.hour
  day ← dec_to_hex r.start_time.day
  month ← dec_to_hex r.start_time.month
  year ← dec_to_hex (r.start_time.year % 100)
  new route_set 5 (
      some (
        second ∷ minute ∷ hour ∷ day ∷ month ∷ year ∷ u16_to_le r.duration
        ++ (r.retry_count ∷ r.random_wait_count ∷ [])))

abbrev pub NodeFits : NodeInfo → Type 0
NodeFits node = AddressFits node.src_addr

-- A node as the reader of the nodes' own reports, which have these seven bytes too, reads it.
unfoldable pub read_node : List ℕ → Outcome Error NodeInfo
read_node bytes = do
  node ← slave_node_of_bytes bytes
  ok (record { src_addr = node.address; protocol_type = node.protocol_type })

read_node-node_to_bytes : (x : NodeInfo) → NodeFits x → read_node (node_to_bytes x) ≡ ok x
unfolding read_node slave_node_of_bytes
read_node-node_to_bytes x h =
    let wide : length (address_to_bytes x.src_addr) ≡ 6 = length-address_to_bytes x.src_addr h in
    let front : slice {E = Error} (node_to_bytes x) 0 6 ≡ ok (address_to_bytes x.src_addr) =
      slice-append [] (address_to_bytes x.src_addr) (x.protocol_type ∷ []) 0 6 refl
        (omega (arith, wide)) in
    let back : get_elem? (node_to_bytes x) 6 ≡ some x.protocol_type =
      get_elem?-append 6 (address_to_bytes x.src_addr) x.protocol_type [] (omega (arith, wide)) in
    rw (front, address_of_bytes-address_to_bytes x.src_addr h, back) refl

node-Layout : Layout NodeFits 7 node_to_bytes read_node
node-Layout = record {
  positive = omega arith;
  width = λ x h.
      length-append (address_to_bytes x.src_addr) (x.protocol_type ∷ [])
      ∙ omega (arith, length-address_to_bytes x.src_addr h);
  round = read_node-node_to_bytes;
}

-- A request to add nodes carries them all, in order, with seven bytes each behind the count, as the
-- reader of the nodes' own reports reads them.
pub read_entries-add_node_to_app :
    (nodes : List NodeInfo)
    → All NodeFits nodes
    → (body : List ℕ) × (add_node_to_app nodes
        ≡ ok (made route_set 1 (some (length nodes % 256 ∷ body))))
      × (length body ≡ length nodes * 7)
      × (read_entries read_node (take (length nodes) (chunks body 7)) ≡ ok nodes)
unfolding add_node_to_app chunks
read_entries-add_node_to_app nodes fit = (
  entries_to_bytes node_to_bytes nodes,
  new-made route_set 1 _ (omega arith),
  length-entries_to_bytes node-Layout nodes fit,
  read_entries-chunks_loop node-Layout (length (entries_to_bytes node_to_bytes nodes)) nodes fit
      (omega arith),
)
