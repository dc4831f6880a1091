-- ===== src/Examples/Messages.antt =====
-- The requests and responses of the application.
use plc_service_rust.Base.{
  none, ℕ, ◌+◌, ◌*◌, List, [], ◌∷◌, ◌++◌, length, some, ok, index, ◌≡◌, refl, arith, take, chunks,
}
use plc_service_rust.Protocol.Fault.{route_get, route_set, file_transfer, Error}
use plc_service_rust.Protocol.InfoField.{u16_to_le}
use plc_service_rust.Protocol.AppData.{AppData}
use plc_service_rust.Protocol.AppData.Check.{made}
use plc_service_rust.Message.Entries.{read_entries, entries_to_bytes}
use plc_service_rust.Message.RouteDataRead.{Clock}
use plc_service_rust.Message.FileTransfer.{
  module_, segment_to_app_of, segment_to_app_of_lem, file_transfer_prefix_len,
}
use plc_service_rust.Message.RouteGet.{NodeLineInfo, node_line_of_app}
use plc_service_rust.Message.RouteGet.Lines.{line_to_bytes, node_line_of_app-made}
use plc_service_rust.Message.RouteSet.{
  NodeInfo, add_node_to_app, read_node, read_entries-add_node_to_app,
}
use plc_service_rust.Protocol.Frame.{Frame, to_bytes, of_bytes, new_request}
use plc_service_rust.Message.Wire.{add_node_on_wire}
use plc_service_rust.Examples.Inputs.{node}

abbrev noon : Clock
noon = record { second = 30; minute = 59; hour = 12; day = 31; month = 1; year = 2024 }

segment_example :
    (bytes : List ℕ) × (segment_to_app_of module_ 3 2 (1 ∷ 2 ∷ [])
      ≡ ok (made file_transfer 1 (some bytes)))
    × (length bytes ≡ file_transfer_prefix_len + 2)
    × (index {E = Error} bytes 1 ≡ ok 1)
segment_example = segment_to_app_of_lem module_ 2 2 (1 ∷ 2 ∷ []) (omega arith)

abbrev lines : List NodeLineInfo
lines = record { addr = node 1; info = 258 } ∷ record { addr = node 2; info = 3 } ∷ []

node_line_example :
    node_line_of_app (
      made route_get 31
        (some (u16_to_le 300 ++ (u16_to_le 7 ++ (2 ∷ entries_to_bytes line_to_bytes lines)))))
    ≡ ok (record { total_node_number = 300; start_index = 7; node_number = 2; line_infos = lines })
node_line_example =
    node_line_of_app-made 300 7 lines (omega arith) (omega arith)
      ((refl, omega arith), ((refl, omega arith), tt))

abbrev nodes : List NodeInfo
nodes =
    record { src_addr = node 1; protocol_type = 2 }
    ∷ record { src_addr = node 5; protocol_type = 3 }
    ∷ []

add_node_example :
    (body : List ℕ) × (add_node_to_app nodes ≡ ok (made route_set 1 (some (2 ∷ body))))
    × (length body ≡ 2 * 7)
    × (read_entries read_node (take 2 (chunks body 7)) ≡ ok nodes)
add_node_example = read_entries-add_node_to_app nodes (refl, (refl, tt))

add_node_on_wire_example :
    (app : AppData) × (f : Frame) × (body : List ℕ) × (add_node_to_app nodes ≡ ok app)
    × (new_request 255 none app ≡ ok (f, 0))
    × (of_bytes (to_bytes f) ≡ ok f)
    × (f.user_data.app_data.data_units ≡ some (2 ∷ body))
    × (read_entries read_node (take 2 (chunks body 7)) ≡ ok nodes)
add_node_on_wire_example = add_node_on_wire 255 nodes (omega arith) (omega arith) (refl, (refl, tt))
