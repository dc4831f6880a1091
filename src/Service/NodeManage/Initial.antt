-- ===== src/Service/NodeManage/Initial.antt =====
-- The nodes of the stored configuration on their way to the module, in src/service/node_manage.rs.
use plc_service_rust.Base.{
  ℕ, zero, suc, ◌+◌, ◌%◌, ◌<◌, ◌≤◌, List, [], ◌∷◌, ◌++◌, Option, none, some, ok, length, take, drop,
  length-take, length-drop, take-append-drop, chunks_loop, All, ◌≡◌, refl, sym, ap, ◌∙◌, arith,
}
use plc_service_rust.Protocol.Fault.{route_set}
use plc_service_rust.Protocol.AppData.Check.{made, new-made}
use plc_service_rust.Uart.Request.{UartMessage}
use plc_service_rust.Message.RouteSet as RouteSet
use plc_service_rust.Message.RouteSet.{add_node_to_app, node_to_bytes}
use plc_service_rust.Message.Entries.{entries_to_bytes}
use plc_service_rust.Service.Response.{Texts, message_of}
use plc_service_rust.Service.Response.Making.{message_of-made}
use plc_service_rust.Service.NodeConfig.{NodeInfo}
use plc_service_rust.Service.NodeManage.Request.{
  add_acq_files, to_uart_node_info, convert, create_uart_request,
}

-- The texts of a node are an address and a protocol number.
abbrev pub IsConvertible : Texts → NodeInfo → Type 0
IsConvertible texts node = (u : RouteSet.NodeInfo) × (to_uart_node_info texts node ≡ ok u)

convert-All :
    (texts : Texts) (nodes : List NodeInfo)
    → All (IsConvertible texts) nodes
    → (us : List RouteSet.NodeInfo) × (convert (to_uart_node_info texts) nodes ≡ ok us)
unfolding convert
convert-All texts [] h = ([], refl)
convert-All texts (node ∷ nodes) ((u, e), h) =
    let (us, f) = convert-All texts nodes h in (u ∷ us, rw (e, f) refl)

-- A chunk is sent in one message, which carries all of it.
pub message_of-add :
    {MqttReqInfo : Type 0} (texts : Texts) (seq : ℕ) (mqtt : Option MqttReqInfo)
    (nodes : List NodeInfo)
    → All (IsConvertible texts) nodes
    → (m : UartMessage MqttReqInfo) × (message_of seq none mqtt
          (create_uart_request texts add_acq_files nodes)
        ≡ ok (m, (seq + 1) % 256))
      × (create_uart_request texts add_acq_files nodes ≡ ok m.frame.user_data.app_data)
unfolding create_uart_request add_node_to_app
message_of-add texts seq mqtt nodes h =
    let (us, e) = convert-All texts nodes h in
    let units = some (length us % 256 ∷ entries_to_bytes node_to_bytes us) in
    let app : create_uart_request texts add_acq_files nodes ≡ ok (made route_set 1 units) =
      rw e (new-made route_set 1 units (omega arith)) in
    let (m, sent, carried, info) =
      message_of-made seq none mqtt route_set 1 units (omega arith) (omega arith) in
    (m, ap (message_of seq none mqtt) app ∙ sent, app ∙ ap ok (sym carried))

-- The parts of a list.
unfoldable pub concat : List (List NodeInfo) → List NodeInfo
concat [] = []
concat (part ∷ parts) = part ++ concat parts

pub All-concat :
    (P : NodeInfo → Type 0) (parts : List (List NodeInfo))
    → All P (concat parts)
    → All (All P) parts
unfolding concat
All-concat P [] h = tt
All-concat P (part ∷ parts) h = ((split part h).0, All-concat P parts (split part h).1)
  where
    split : (xs : List NodeInfo) → All P (xs ++ concat parts) → All P xs × All P (concat parts)
    split [] h = (tt, h)
    split (x ∷ xs) (p, h) = let (a, b) = split xs h in ((p, a), b)

abbrev pub IsPart : ℕ → List NodeInfo → Type 0
IsPart n part = (0 < length part) × (length part ≤ n)

pub chunks_loop-parts :
    (fuel n : ℕ) (nodes : List NodeInfo)
    → 0 < n
    → length nodes ≤ fuel
    → (concat (chunks_loop fuel n nodes) ≡ nodes) × All (IsPart n) (chunks_loop fuel n nodes)
unfolding chunks_loop concat
chunks_loop-parts fuel n [] pos h = (refl, tt)
chunks_loop-parts zero n (x ∷ xs) pos h = absurd (omega arith)
chunks_loop-parts (suc fuel) n (x ∷ xs) pos h =
    let rest =
      chunks_loop-parts fuel n (drop n (x ∷ xs)) pos (omega (arith, length-drop n (x ∷ xs))) in
    (
      ap (λ r. take n (x ∷ xs) ++ r) (rest.0) ∙ take-append-drop n (x ∷ xs),
      ((omega (arith, length-take n (x ∷ xs)), omega (arith, length-take n (x ∷ xs))), rest.1),
    )
