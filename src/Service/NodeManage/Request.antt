-- ===== src/Service/NodeManage/Request.antt =====
-- src/service/node_manage.rs: the requests to the module, and src/service/node_config.rs:
-- `to_uart_node_info`.
use plc_service_rust.Base.{
  ℕ, String, Outcome, ok, unwrap, ◌>>=◌, Option, none, some, Bool, true, false, ◌&&◌, ◌||◌, List,
  [], ◌∷◌, ◌++◌, if◌then◌else◌,
}
use plc_service_rust.Protocol.Fault.{Error}
use plc_service_rust.Protocol.AppData.{AppData}
use plc_service_rust.Message.RouteSet as RouteSet
use plc_service_rust.Message.RouteSet.{add_node_to_app, del_node_to_app}
use plc_service_rust.Message.CtrlCmd.{init_to_app, params}
use plc_service_rust.Service.Dict.{same}
use plc_service_rust.Service.Response.{Texts, address_of_text}
use plc_service_rust.Service.NodeConfig.{NodeInfo}

abbrev pub acq_files_chunk_size : ℕ
acq_files_chunk_size = 10

-- The implementations of `AcqFilesOperation`.
pub data Operation : Type 0 where
  add_acq_files del_acq_files clear_acq_files : Operation

abbrev pub is_none : {A : Type 0} → Option A → Bool
is_none none = true
is_none (some a) = false

-- A loop with an unwrap or a panic in it.
unfoldable pub convert : {A B : Type 0} → (A → Outcome Error B) → List A → Outcome Error (List B)
convert f [] = ok []
convert f (x ∷ xs) = f x >>= λ y. convert f xs >>= λ ys. ok (y ∷ ys)

unfoldable pub to_uart_node_info : Texts → NodeInfo → Outcome Error RouteSet.NodeInfo
to_uart_node_info texts node = do
  address ← address_of_text texts node.acq_addr
  protocol_type ← unwrap (texts.parse_u8 node.pro_type)
  ok (record { src_addr = address; protocol_type = protocol_type })

unfoldable pub create_uart_request : Texts → Operation → List NodeInfo → Outcome Error AppData
create_uart_request texts add_acq_files nodes =
    convert (to_uart_node_info texts) nodes >>= add_node_to_app
create_uart_request texts del_acq_files nodes =
    convert (λ node. address_of_text texts node.acq_addr) nodes >>= del_node_to_app
create_uart_request texts clear_acq_files nodes =
    convert (λ node. address_of_text texts node.acq_addr) nodes >>= del_node_to_app

abbrev pub clear_request : Outcome Error AppData
clear_request = init_to_app params

-- The derived `PartialEq`, and `contains`.
abbrev pub same_node : NodeInfo → NodeInfo → Bool
same_node a b = same a.acq_addr b.acq_addr && same a.pro_type b.pro_type

unfoldable pub contains : List NodeInfo → NodeInfo → Bool
contains [] node = false
contains (x ∷ xs) node = same_node x node || contains xs node

unfoldable pub push_new : List NodeInfo → List NodeInfo → List NodeInfo
push_new seen [] = seen
push_new seen (node ∷ nodes) =
    push_new (if contains seen node then seen else seen ++ (node ∷ [])) nodes

unfoldable pub push_all_new : List NodeInfo → List (String × List NodeInfo) → List NodeInfo
push_all_new seen [] = seen
push_all_new seen ((app, nodes) ∷ entries) = push_all_new (push_new seen nodes) entries

-- The nodes of all applications, without repetitions.
abbrev pub without_repeats : List (String × List NodeInfo) → List NodeInfo
without_repeats = push_all_new []
