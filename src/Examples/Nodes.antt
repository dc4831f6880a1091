-- ===== src/Examples/Nodes.antt =====
-- The nodes of two applications: a client adds, removes, and the stored nodes go to the module.
use plc_service_rust.Base.{
  ℕ, List, [], ◌∷◌, ◌++◌, none, some, ok, panic, true, false, chunks, All, ◌≡◌, ◌≢◌, refl, arith,
  ap, ◌∙◌,
}
use plc_service_rust.Protocol.Fault.{answer, route_set}
use plc_service_rust.Protocol.UserData as User
use plc_service_rust.Protocol.AppData as App
use plc_service_rust.Protocol.AppData.{
  AppData, as_fn_num, find_mark, check, flag_of_fn_num, address_to_bytes,
}
use plc_service_rust.Message.RouteSet.{del_node_to_app}
use plc_service_rust.Message.Entries.{entries_to_bytes}
use plc_service_rust.Protocol.AppData.Flag.{flag_values}
use plc_service_rust.Protocol.AppData.Check.{made}
use plc_service_rust.Protocol.Frame.{Frame}
use plc_service_rust.Protocol.Frame.Build.{built}
use plc_service_rust.Uart.Request.{UartMessage}
use plc_service_rust.Message.Answer.{default_confirm, confirm_of_app}
use plc_service_rust.Service.Action.{done}
use plc_service_rust.Service.Dict.{get, same, get_or, update, insert}
use plc_service_rust.Service.Response.{normal, response_of_frame, address_of_text, message_of}
use plc_service_rust.Service.Response.Making.{message_of-made}
use plc_service_rust.Service.NodeConfig.{
  NodeInfo, Backend, NodeConfig, app_data, add_node_info, add_node_info_exist, find, get_node_info,
  add_node_info_checked, upgrade, strong_count, count_in, share, should_remove_node_info,
}
use plc_service_rust.Service.NodeConfig.Nodes.{holds}
use plc_service_rust.Service.NodeConfig.Operations.{add_node_info-IsValid}
use plc_service_rust.Service.NodeConfig.Applications.{holders}
use plc_service_rust.Service.NodeConfig.Consistent.{IsValid}
use plc_service_rust.Service.NodeConfig.Sharing.{should_remove-holders, Released}
use plc_service_rust.Service.NodeManage.{
  NodeManage, answered, loaded, operate_chunk_acq_files, operate_acq_files,
}
use plc_service_rust.Service.NodeManage.Request.{
  add_acq_files, del_acq_files, create_uart_request, acq_files_chunk_size, to_uart_node_info,
  convert,
}
use plc_service_rust.Service.NodeManage.Initial.{IsConvertible, IsPart, concat}
use plc_service_rust.Service.NodeManage.Loaded.{AreConfirmed, Carry, operate_acq_files-Carry}
use plc_service_rust.Service.NodeManage.Adding.{IsUnrepeated}
use plc_service_rust.Service.NodeManage.Repeats.{has_repeat, operate_chunk_twice}
use plc_service_rust.Service.NodeManage.Waiting.{AreApart}
use plc_service_rust.Service.NodeManage.Chunks.{operate_acq_files-IsValid}
use plc_service_rust.Examples.Inputs.{texts}

abbrev backend : Backend ℕ
backend = record { is_file = false; write = λ c. done tt; execute = λ sql. done tt }

abbrev first : NodeInfo
first = record { acq_addr = "000000000001"; pro_type = "02" }

abbrev second : NodeInfo
second = record { acq_addr = "000000000002"; pro_type = "02" }

abbrev confirmation : Frame
confirmation = built true 0 none (record {
  afn = answer;
  data_flag = flag_values 1;
  data_units = some (0 ∷ 0 ∷ 0 ∷ 0 ∷ 6 ∷ 0 ∷ []);
})

abbrev empty : NodeConfig ℕ
empty = record { node_data = []; global_data = []; allocated = 0; storage_state = 0 }

empty-IsValid : IsValid empty
unfolding get
empty-IsValid = record {
  known = tt;
  distinct = tt;
  keyed = λ addr x has. absurd (cc has);
  apart = λ addr other x y has has'. absurd (cc has);
  fresh = λ addr x has. absurd (cc has);
  alive = λ addr x has. absurd (cc has);
}

abbrev manage : NodeManage ℕ ℕ
manage = record {
  node_config = empty;
  operation_result = none;
  sent = [];
  seq = 4;
  events = (answered confirmation ∷ []) ∷ [];
}

confirmation-read : response_of_frame confirm_of_app confirmation ≡ ok (normal default_confirm)
unfolding response_of_frame confirm_of_app built User.new as_fn_num find_mark check
confirmation-read = refl

abbrev third : NodeInfo
third = record { acq_addr = "000000000003"; pro_type = "02" }

-- The start-up loads the third node while the chunk waits.
abbrev loading : NodeManage ℕ ℕ
loading = record manage {
  events = (loaded (("b", third ∷ []) ∷ []) ∷ answered confirmation ∷ []) ∷ [];
}

abbrev added : NodeManage ℕ ℕ
added = (operate_acq_files backend texts add_acq_files "a" (some 7) (first ∷ second ∷ []) loading).0

loading-AreApart : AreApart (first ∷ second ∷ []) loading.events
unfolding same
loading-AreApart = ((((((refl, (refl, tt)), tt), tt), (tt, tt))), tt)

unrepeated : All IsUnrepeated (chunks (first ∷ second ∷ []) acq_files_chunk_size)
unfolding chunks same
unrepeated = (((refl, tt), (tt, tt)), tt)

operate_acq_files-IsValid_example : IsValid added.node_config
operate_acq_files-IsValid_example =
    operate_acq_files-IsValid backend texts "a" 7 (first ∷ second ∷ []) loading unrepeated
      loading-AreApart empty-IsValid

convertible : All (IsConvertible texts) (first ∷ second ∷ [])
unfolding to_uart_node_info address_of_text
convertible = ((_, refl), ((_, refl), tt))

confirmed_all : AreConfirmed (chunks (first ∷ second ∷ []) acq_files_chunk_size) manage.events
unfolding chunks
confirmed_all = ((confirmation, default_confirm, refl, confirmation-read), tt)

operate_acq_files-Carry_example :
    (z : NodeManage ℕ ℕ) × (parts : List (List NodeInfo)) × (messages : List (UartMessage ℕ))
    × (operate_acq_files backend texts add_acq_files "" none (first ∷ second ∷ []) manage
        ≡ (z, ok tt))
    × (z.sent ≡ [] ++ messages)
    × (concat parts ≡ first ∷ second ∷ [])
    × All (IsPart 10) parts
    × Carry texts parts messages
    × (z.node_config ≡ empty)
operate_acq_files-Carry_example =
    operate_acq_files-Carry backend texts "" (first ∷ second ∷ []) manage convertible confirmed_all

-- Two applications have the first node.
abbrev two : NodeConfig ℕ
two = (add_node_info backend "b" first (add_node_info backend "a" first empty).0).0

two-IsValid : IsValid two
two-IsValid =
    add_node_info-IsValid backend "b" first _
      (add_node_info-IsValid backend "a" first empty empty-IsValid)

two-held : holds first.acq_addr (app_data "a" two.node_data) ≡ true
unfolding holds get_or add_node_info add_node_info_exist find get_node_info get
    add_node_info_checked update same insert upgrade strong_count count_in share
two-held = refl

should_remove-holders_example :
    (holders first.acq_addr two.node_data ≡ 1
      → should_remove_node_info backend "a" first two ≡ (two, ok true))
    × (holders first.acq_addr two.node_data ≢ 1
        → ((should_remove_node_info backend "a" first two).1 ≢ ok true)
          × Released backend "a" first two two-IsValid
              (should_remove_node_info backend "a" first two).0)
should_remove-holders_example = should_remove-holders backend "a" first two two-IsValid two-held

-- One application has it.
abbrev one : NodeConfig ℕ
one = (add_node_info backend "a" first empty).0

one-IsValid : IsValid one
one-IsValid = add_node_info-IsValid backend "a" first empty empty-IsValid

one-held : holds first.acq_addr (app_data "a" one.node_data) ≡ true
unfolding holds get_or add_node_info add_node_info_exist find get_node_info get
    add_node_info_checked update same
one-held = refl

one-holders : holders first.acq_addr one.node_data ≡ 1
unfolding holders holds get_or add_node_info add_node_info_exist find get_node_info get
    add_node_info_checked update same
one-holders = refl

abbrev removing : NodeManage ℕ ℕ
removing = record manage { node_config = one }

abbrev del_app : AppData
del_app = made route_set 2 (some (2 ∷ 6 ∷ 5 ∷ 4 ∷ 3 ∷ 2 ∷ 1 ∷ 6 ∷ 5 ∷ 4 ∷ 3 ∷ 2 ∷ 1 ∷ []))

del_app-made : create_uart_request texts del_acq_files (first ∷ first ∷ []) ≡ ok del_app
unfolding create_uart_request convert address_of_text del_node_to_app App.new flag_of_fn_num
    entries_to_bytes address_to_bytes
del_app-made = refl

abbrev message : UartMessage ℕ
message =
    (message_of-made {MqttReqInfo = ℕ} 4 none (some 7) route_set 2 del_app.data_units (omega arith)
      (omega arith)).0

message-made :
    message_of 4 none (some 7) (create_uart_request texts del_acq_files (first ∷ first ∷ []))
    ≡ ok (message, 5)
message-made =
    ap (message_of 4 none (some 7)) del_app-made
    ∙ (message_of-made {MqttReqInfo = ℕ} 4 none (some 7) route_set 2 del_app.data_units
        (omega arith) (omega arith)).1

one-repeat : has_repeat (first ∷ first ∷ []) ≡ true
unfolding same
one-repeat = refl

operate_chunk_twice_example :
    (operate_chunk_acq_files backend texts del_acq_files "a"
      (some 7)
      (first ∷ first ∷ [])
      removing).1
    ≡ panic
operate_chunk_twice_example =
    operate_chunk_twice backend texts "a" (first ∷ first ∷ []) removing 7 message 5
      (answered confirmation ∷ []) [] one-IsValid
      ((one-held, one-holders), ((one-held, one-holders), tt)) one-repeat message-made refl
      (confirmation, default_confirm, refl, confirmation-read)
