-- ===== src/Service/NodeConfig.antt =====
-- src/service/node_config.rs: which application asked for which nodes. An `Arc<NodeInfo>` is an
-- allocation, with its number and the node in it; its `strong_count` is the number of times that it
-- stands in `node_data`, since every other clone is dropped before the lock is. A `Weak` is the same
-- allocation, and `upgrade` finds it while it stands somewhere in `node_data`. The names that begin
-- with an underscore are not used by the service. SQLite and the file system are given.
pub mod Nodes
pub mod Applications
pub mod Consistent
pub mod Adding
pub mod Removing
pub mod Operations
pub mod Sharing
use plc_service_rust.Base.{
  ℕ, suc, ◌+◌, ◌-◌, ◌==◌, String, if◌then◌else◌, List, [], ◌∷◌, ◌++◌, Option, none, some, Outcome,
  ok, Bool, true, false, leb, take, drop, length, get_elem?, map,
}
use plc_service_rust.Service.Action.{
  Action, ServiceError, not_found, type_mismatch, ◌>>=◌, ◌>>◌, done, fail, die, change, for_each,
}
use plc_service_rust.Service.Dict.{same, get, remove, insert, update, get_or}

pub record NodeInfo : Type 0 where
  pub acq_addr : String
  pub pro_type : String

pub record Shared : Type 0 where
  pub id : ℕ
  pub node : NodeInfo

abbrev pub NodeData : Type 0
NodeData = List (String × List Shared)

-- The SQL statements of the code, by what they are formatted from.
pub data Sql : Type 0 where
  create_table : String → Sql
  insert_row : String → NodeInfo → Sql
  delete_rows : String → NodeInfo → Sql

-- What keeps the configuration: `is_file` is `config_path.is_some()`.
pub record Backend (Storage : Type 0) : Type 0 where
  pub is_file : Bool
  pub write : List (String × List NodeInfo) → Action Storage (Unit {0})
  pub execute : Sql → Action Storage (Unit {0})

pub record NodeConfig (Storage : Type 0) : Type 0 where
  pub node_data : NodeData
  pub global_data : List (String × Shared)
  pub allocated : ℕ
  pub storage_state : Storage

unfoldable pub count_in : ℕ → List Shared → ℕ
count_in id [] = 0
count_in id (x ∷ xs) = let rest = count_in id xs in if x.id == id then suc rest else rest

unfoldable pub strong_count : ℕ → NodeData → ℕ
strong_count id [] = 0
strong_count id ((app, nodes) ∷ entries) = count_in id nodes + strong_count id entries

unfoldable pub upgrade : Shared → NodeData → Option Shared
upgrade weak data_ = if strong_count weak.id data_ == 0 then none else some weak

-- `iter().find` and `iter().position` by the address.
unfoldable pub find : String → List Shared → Option Shared
find addr [] = none
find addr (x ∷ xs) = let rest = find addr xs in if same x.node.acq_addr addr then some x else rest

unfoldable pub position : String → List Shared → Option ℕ
position addr [] = none
position addr (x ∷ xs) =
    let rest : Option ℕ = elim (position addr xs) [ none ↦ none | some i ↦ some (suc i) ] in
    if same x.node.acq_addr addr then some 0 else rest

-- `Vec::remove`.
unfoldable pub remove_at : ℕ → List Shared → List Shared
remove_at i nodes = take i nodes ++ drop (suc i) nodes

abbrev pub app_data : String → NodeData → List Shared
app_data app data_ = get_or [] app data_

module _ {Storage : Type 0} where
  unfoldable pub get_node_info : String → NodeConfig Storage → Option Shared
  get_node_info addr s = elim (get addr s.global_data) [
    | none ↦ none
    | some weak ↦ upgrade weak s.node_data
  ]

  -- `node_data.entry(app).or_default()`, with the change that follows.
  abbrev pub with_app :
      String → (List Shared → List Shared) → NodeConfig Storage → NodeConfig Storage
  with_app app f s = record s { node_data = update app [] f s.node_data }

  abbrev pub touch : String → NodeConfig Storage → NodeConfig Storage
  touch app = with_app app (λ nodes. nodes)

  abbrev pub push : String → Shared → NodeConfig Storage → NodeConfig Storage
  push app x = with_app app (λ nodes. nodes ++ (x ∷ []))

  unfoldable pub add_node_info_checked : String → NodeInfo → NodeConfig Storage → NodeConfig Storage
  add_node_info_checked app node s =
      let shared : Shared = record { id = s.allocated; node = node } in
      push app shared (record s {
        global_data = insert node.acq_addr shared s.global_data;
        allocated = suc s.allocated;
      })

  -- `GlobalNodeConfig::remove_node_info`.
  unfoldable pub forget : NodeInfo → Action (NodeConfig Storage) (Unit {0})
  forget node s = elim (get node.acq_addr s.global_data) [
    | some weak ↦ (record s { global_data = remove node.acq_addr s.global_data }, ok tt)
    | none ↦ fail (not_found node.acq_addr) s
  ]

  unfoldable pub remove_node_info_checked :
      String → NodeInfo → Action (NodeConfig Storage) (Unit {0})
  remove_node_info_checked app node s = elim (get app s.node_data) [
    | none ↦ die s
    | some nodes ↦ elim (position node.acq_addr nodes) [
      | none ↦ die s
      | some pos ↦ forget node (with_app app (remove_at pos) s)
    ]
  ]

  unfoldable pub clear_all_app : NodeConfig Storage → NodeConfig Storage
  clear_all_app s = record s { node_data = []; global_data = [] }

  unfoldable pub get_node_infos : String → ℕ → ℕ → NodeConfig Storage → List Shared
  get_node_infos app index count s = elim (get app s.node_data) [
    | none ↦ []
    | some nodes ↦
        take count (drop (if leb index (length nodes) then index else length nodes) nodes)
  ]

  unfoldable pub get_all_node_infos : String → NodeConfig Storage → List Shared
  get_all_node_infos app s = app_data app s.node_data

  unfoldable pub get_node_count : String → NodeConfig Storage → ℕ
  get_node_count app s = elim (get app s.node_data) [ none ↦ 0 | some nodes ↦ length nodes ]

-- What is written to the file: the nodes of each application.
unfoldable pub contents : NodeData → List (String × List NodeInfo)
contents [] = []
contents ((app, nodes) ∷ entries) = (app, map (λ x. x.node) nodes) ∷ contents entries

module _ {Storage : Type 0} (backend : Backend Storage) where
  abbrev pub stored : Action Storage (Unit {0}) → Action (NodeConfig Storage) (Unit {0})
  stored action s =
      let (storage_state, result) = action s.storage_state in
      (record s { storage_state = storage_state }, result)

  unfoldable pub add_db_config : String → List NodeInfo → Action Storage (Unit {0})
  add_db_config app nodes =
      backend.execute (create_table app)
      >> for_each (λ node. backend.execute (insert_row app node)) nodes

  unfoldable pub del_db_config : String → List NodeInfo → Action Storage (Unit {0})
  del_db_config app nodes = for_each (λ node. backend.execute (delete_rows app node)) nodes

  unfoldable pub add_config : String → List NodeInfo → Action (NodeConfig Storage) (Unit {0})
  add_config app nodes s =
      stored
        (if backend.is_file then backend.write (contents s.node_data) else add_db_config app nodes)
        s

  unfoldable pub del_config : String → List NodeInfo → Action (NodeConfig Storage) (Unit {0})
  del_config app nodes s =
      stored
        (if backend.is_file then backend.write (contents s.node_data) else del_db_config app nodes)
        s

  -- A node that another application has: its allocation is shared.
  unfoldable pub share : String → NodeInfo → Bool → Shared → Action (NodeConfig Storage) Bool
  share app node is_init existing =
      if same existing.node.pro_type node.pro_type
      then change (push app existing)
        >> ((if is_init then done tt else add_config app (node ∷ [])) >> done true)
      else fail (type_mismatch node.pro_type existing.node.pro_type)

  unfoldable pub add_node_info_exist : String → NodeInfo → Bool → Action (NodeConfig Storage) Bool
  add_node_info_exist app node is_init s = elim (find node.acq_addr (app_data app s.node_data)) [
    | some existing ↦
        if same existing.node.pro_type node.pro_type
        then done true (touch app s)
        else fail (type_mismatch node.pro_type existing.node.pro_type) (touch app s)
    | none ↦ elim (get_node_info node.acq_addr (touch app s)) [
      | some existing ↦ share app node is_init existing (touch app s)
      | none ↦ done false (touch app s)
    ]
  ]

  unfoldable pub add_node_info : String → NodeInfo → Action (NodeConfig Storage) (Unit {0})
  add_node_info app node = add_node_info_exist app node true >>= λ existed.
      if existed then done tt else change (add_node_info_checked app node)

  unfoldable pub release : String → ℕ → Shared → Action (NodeConfig Storage) Bool
  release app pos shared =
      change (with_app app (remove_at pos)) >> (del_config app (shared.node ∷ []) >> done false)

  unfoldable pub should_remove_node_info : String → NodeInfo → Action (NodeConfig Storage) Bool
  should_remove_node_info app node s = elim (get app s.node_data) [
    | none ↦ done false s
    | some nodes ↦ elim (position node.acq_addr nodes) [
      | none ↦ done false s
      | some pos ↦ elim (get_elem? nodes pos) [
        | none ↦ die s
        | some shared ↦
            if strong_count shared.id s.node_data == 1
            then done true s
            else release app pos shared s
      ]
    ]
  ]

  unfoldable pub add_node_infos : String → List NodeInfo → Action (NodeConfig Storage) (Unit {0})
  add_node_infos app = for_each (add_node_info app)

  -- The nodes that were read, into both maps, in the order of the applications.
  unfoldable pub load_nodes : List (String × List NodeInfo) → Action (NodeConfig Storage) (Unit {0})
  load_nodes = for_each (λ entry. add_node_infos entry.0 entry.1)

  unfoldable pub add_node_infos_checked :
      String → List NodeInfo → Action (NodeConfig Storage) (Unit {0})
  add_node_infos_checked app nodes =
      for_each (λ node. change (add_node_info_checked app node)) nodes >> add_config app nodes

  unfoldable pub remove_node_infos_checked :
      String → List NodeInfo → Action (NodeConfig Storage) (Unit {0})
  remove_node_infos_checked app nodes =
      for_each (remove_node_info_checked app) nodes >> del_config app nodes
