-- ===== src/Message/Wire.antt =====
-- From a request of src/protocol/app_data/route_set.rs to the bytes of the serial line and back.
use plc_service_rust.Base.{
  ℕ, ◌+◌, ◌%◌, ◌<◌, List, ◌∷◌, length, take, chunks, All, some, none, ok, ◌≡◌, refl, ap, ◌∙◌, arith,
  false,
}
use plc_service_rust.Protocol.Fault.{route_set}
use plc_service_rust.Protocol.AppData.{AppData}
use plc_service_rust.Protocol.AppData.Check.{made}
use plc_service_rust.Protocol.AppData.Codec.{IsCanonical}
use plc_service_rust.Protocol.UserData as User
use plc_service_rust.Protocol.Frame.{Frame, to_bytes, of_bytes, new_request}
use plc_service_rust.Protocol.Frame.Build.{new_readable}
use plc_service_rust.Message.Entries.{read_entries}
use plc_service_rust.Message.RouteSet.{
  NodeInfo, NodeFits, add_node_to_app, read_node, read_entries-add_node_to_app,
}

made-IsCanonical :
    (nodes : List NodeInfo) (body : List ℕ)
    → IsCanonical (made route_set 1 (some (length nodes % 256 ∷ body))) 1
made-IsCanonical nodes body = record { positive = omega arith; fits = omega arith; flag = refl }

-- A request to add at most 255 nodes goes over the line whole: it makes application data, a frame
-- with the next sequence number is made of them, the bytes of that frame are read as the same frame,
-- and its data units are the number of nodes and then, seven bytes each, the nodes in order.
pub add_node_on_wire :
    (seq : ℕ) (nodes : List NodeInfo)
    → seq < 256
    → length nodes < 256
    → All NodeFits nodes
    → (app : AppData) × (f : Frame) × (body : List ℕ) × (add_node_to_app nodes ≡ ok app)
      × (new_request seq none app ≡ ok (f, (seq + 1) % 256))
      × (of_bytes (to_bytes f) ≡ ok f)
      × (f.user_data.app_data.data_units ≡ some (length nodes ∷ body))
      × (read_entries read_node (take (length nodes) (chunks body 7)) ≡ ok nodes)
unfolding new_request
add_node_on_wire seq nodes byte few fit =
    let (body, request, size, read) = read_entries-add_node_to_app nodes fit in
    let app : AppData = made route_set 1 (some (length nodes % 256 ∷ body)) in
    let (f, framed, data_, counted, back) =
      new_readable false seq 1 none app byte (made-IsCanonical nodes body) (λ e. cc)
        (λ e. omega arith) (unfold User.new in omega (arith, size, few)) in
    let count : length nodes % 256 ≡ length nodes = omega arith in
    let units : f.user_data.app_data.data_units ≡ some (length nodes % 256 ∷ body) =
      ap (λ u. u.app_data.data_units) data_ ∙ (unfold User.new in refl) in
    (app, f, body, request, rw framed refl, back, units ∙ ap (λ n. some (n ∷ body)) count, read)
