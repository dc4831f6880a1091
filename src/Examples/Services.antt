-- ===== src/Examples/Services.antt =====
-- Readings of meters, upgrades of the module, and the modules of the nodes.
use plc_service_rust.Base.{
  ℕ, suc, ◌+◌, ◌-◌, ◌≤◌, String, List, [], ◌∷◌, Option, none, some, ok, err, panic, true, false,
  length, chunks, All, ◌≡◌, refl, sym, ◌∙◌, subst, arith,
}
use plc_service_rust.Protocol.Fault.{
  AppDataError, app_data, file_transfer, route_get, cocurrent_read_meter,
}
use plc_service_rust.Protocol.UserData as User
use plc_service_rust.Protocol.AppData.{
  AppData, as_fn_num, find_mark, check, flag_of_fn_num, address_to_bytes,
}
use plc_service_rust.Protocol.AppData as App
use plc_service_rust.Protocol.InfoField as Info
use plc_service_rust.Protocol.Frame as Frame
use plc_service_rust.Protocol.AppData.Flag.{flag_values}
use plc_service_rust.Protocol.Frame.{Frame}
use plc_service_rust.Protocol.Frame.Build.{built}
use plc_service_rust.Message.FileTransfer.{module_, segment_flag_of_app}
use plc_service_rust.Message.MeterReading.{read_meter_of_app, read_meter_to_app}
use plc_service_rust.Message.RouteGet.ModuleIds.{slave_module_id_of_app}
use plc_service_rust.Message.RouteGet.ModuleIds.Panics.{slave_module_id_unreadable}
use plc_service_rust.Service.Action.{◌>>◌}
use plc_service_rust.Service.Dict.{get, same, update}
use plc_service_rust.Service.Response.{normal, response_of_frame, address_of_text, message_of}
use plc_service_rust.Service.ConcurrentMeter.{
  addr_limit, SampleCache, ConcurrentMeter, Setting, concurrent_addr_num,
  mqtt_meter_reading_handler, handle_meter_reading, uart_meter_reading, reading_of, read_or_queue,
  new_cache, start, handle_waiting_cache, handle_next_request, uart_meter_reading_timeout,
}
use plc_service_rust.Service.ConcurrentMeter.Counting.{sent_to}
use plc_service_rust.Service.ConcurrentMeter.Steps.{
  Step, request, response, ended, reading_timeout, steps, initial, step,
  mqtt_concurrent_meter_reading, IsDue, AreDue, ended_all,
}
use plc_service_rust.Service.ConcurrentMeter.Traces.{one_at_a_time}
use plc_service_rust.Service.ConcurrentMeter.Blocked.{unreadable_blocks}
use plc_service_rust.Service.ConcurrentMeter.Limits.{limit_passed}
use plc_service_rust.Service.FileUpgrade.{
  answered, reported, idle, success, transfer_failed, FileUpgrade, prefix_len, transfer_file,
  watch_module,
}
use plc_service_rust.Service.FileUpgrade.Stale.{stale_result}
use plc_service_rust.Examples.Inputs.{texts}

-- Each message asks for the address "1".
abbrev setting : Setting ℕ
setting = record {
  texts = texts;
  payload = λ n. some (record { task_id = "t"; acq_addr = "1"; pro_type = "02"; data_ = "68" });
  config = record { concurrent_addr = 1; cache_queue_size = 2; queue_aging_time = 60 };
  master_address = record { bytes = 1 ∷ 2 ∷ 3 ∷ 4 ∷ 5 ∷ 6 ∷ [] };
}

abbrev or_initial : Option (ConcurrentMeter ℕ) → ConcurrentMeter ℕ
or_initial none = initial setting 0
or_initial (some s) = s

-- Two requests and a timeout: the second reading is sent after the first has ended.
abbrev run : List (Step ℕ)
run = request 3 0 ∷ request 4 1 ∷ reading_timeout "1" ∷ []

abbrev after_one : ConcurrentMeter ℕ
after_one = or_initial (step setting (request 3 0) (initial setting 0))

abbrev after_two : ConcurrentMeter ℕ
after_two = or_initial (step setting (request 4 1) after_one)

abbrev after_three : ConcurrentMeter ℕ
after_three = or_initial (step setting (reading_timeout "1") after_two)

step-one : step setting (request 3 0) (initial setting 0) ≡ some after_one
unfolding handle_meter_reading mqtt_concurrent_meter_reading step concurrent_addr_num read_or_queue
    new_cache start handle_waiting_cache handle_next_request uart_meter_reading_timeout get same
    update mqtt_meter_reading_handler reading_of address_of_text message_of read_meter_to_app
    App.new flag_of_fn_num Frame.new_request Frame.new Frame.to_bytes User.to_bytes Info.to_bytes
    Frame.blank User.new Info.new User.address_field_to_bytes address_to_bytes as_fn_num find_mark
    App.to_bytes Frame.calc_checksum Frame.checksum_loop Frame.ctrl_to_u8
step-one = refl

step-two : step setting (request 4 1) after_one ≡ some after_two
unfolding handle_meter_reading mqtt_concurrent_meter_reading step concurrent_addr_num read_or_queue
    new_cache start handle_waiting_cache handle_next_request uart_meter_reading_timeout get same
    update mqtt_meter_reading_handler reading_of address_of_text message_of read_meter_to_app
    App.new flag_of_fn_num Frame.new_request Frame.new Frame.to_bytes User.to_bytes Info.to_bytes
    Frame.blank User.new Info.new User.address_field_to_bytes address_to_bytes as_fn_num find_mark
    App.to_bytes Frame.calc_checksum Frame.checksum_loop Frame.ctrl_to_u8
step-two = refl

step-three : step setting (reading_timeout "1") after_two ≡ some after_three
unfolding handle_meter_reading mqtt_concurrent_meter_reading step concurrent_addr_num read_or_queue
    new_cache start handle_waiting_cache handle_next_request uart_meter_reading_timeout get same
    update mqtt_meter_reading_handler reading_of address_of_text message_of read_meter_to_app
    App.new flag_of_fn_num Frame.new_request Frame.new Frame.to_bytes User.to_bytes Info.to_bytes
    Frame.blank User.new Info.new User.address_field_to_bytes address_to_bytes as_fn_num find_mark
    App.to_bytes Frame.calc_checksum Frame.checksum_loop Frame.ctrl_to_u8
step-three = refl

-- The first reading is under way.
after_one-busy :
    (c : SampleCache ℕ) × (get "1" after_one.sample_cache ≡ some c) × (c.is_waiting_response ≡ true)
unfolding handle_meter_reading mqtt_concurrent_meter_reading step concurrent_addr_num read_or_queue
    new_cache start handle_waiting_cache handle_next_request uart_meter_reading_timeout get same
    update mqtt_meter_reading_handler reading_of address_of_text message_of read_meter_to_app
    App.new flag_of_fn_num Frame.new_request Frame.new Frame.to_bytes User.to_bytes Info.to_bytes
    Frame.blank User.new Info.new User.address_field_to_bytes address_to_bytes as_fn_num find_mark
    App.to_bytes Frame.calc_checksum Frame.checksum_loop Frame.ctrl_to_u8
after_one-busy = (_, refl, refl)

-- The first reading is under way, and the second waits.
after_two-busy :
    (c : SampleCache ℕ) × (get "1" after_two.sample_cache ≡ some c) × (c.is_waiting_response ≡ true)
unfolding handle_meter_reading mqtt_concurrent_meter_reading step concurrent_addr_num read_or_queue
    new_cache start handle_waiting_cache handle_next_request uart_meter_reading_timeout get same
    update mqtt_meter_reading_handler reading_of address_of_text message_of read_meter_to_app
    App.new flag_of_fn_num Frame.new_request Frame.new Frame.to_bytes User.to_bytes Info.to_bytes
    Frame.blank User.new Info.new User.address_field_to_bytes address_to_bytes as_fn_num find_mark
    App.to_bytes Frame.calc_checksum Frame.checksum_loop Frame.ctrl_to_u8
after_two-busy = (_, refl, refl)

steps-step :
    (e : Step ℕ) (es : List (Step ℕ)) (s s' : ConcurrentMeter ℕ) (r : Option (ConcurrentMeter ℕ))
    → step setting e s ≡ some s'
    → steps setting es s' ≡ r
    → steps setting (e ∷ es) s ≡ r
unfolding steps
steps-step e es s s' r h k = rw (steps, h) k

steps-run : steps setting run (initial setting 0) ≡ some after_three
unfolding steps
steps-run =
    steps-step (request 3 0) (request 4 1 ∷ reading_timeout "1" ∷ []) (initial setting 0) after_one
      _ step-one
      (steps-step (request 4 1) (reading_timeout "1" ∷ []) after_one after_two _ step-two
        (steps-step (reading_timeout "1") [] after_two after_three _ step-three refl))

some_same : {s s' : ConcurrentMeter ℕ} → some s ≡ some s' → s ≡ s'
some_same h = cc

run-AreDue : AreDue setting run (initial setting 0)
run-AreDue = (tt, λ s' h. (tt, λ s'' h'. (due s' s'' h h', λ s3 h''. tt)))
  where
    due :
        (s' s'' : ConcurrentMeter ℕ)
        → step setting (request 3 0) (initial setting 0) ≡ some s'
        → step setting (request 4 1) s' ≡ some s''
        → IsDue setting (reading_timeout "1") s''
    due s' s'' h h' =
        let first : after_one ≡ s' = some_same (sym step-one ∙ h) in
        let second : after_two ≡ s'' =
          some_same
            (sym step-two ∙ subst (λ s. step setting (request 4 1) s ≡ some s'') (sym first) h') in
        subst (IsDue setting (reading_timeout "1")) second after_two-busy

one_at_a_time_example :
    ((a : String)
      → (ended_all setting a run ≤ sent_to a after_three.sent)
        × (sent_to a after_three.sent ≤ ended_all setting a run + 1))
    × All (λ e. length e.1.msg_cache_queue ≤ 2) after_three.sample_cache
one_at_a_time_example = one_at_a_time setting 0 run after_three run-AreDue steps-run

abbrev app_frame : AppData → Frame
app_frame app = built true 0 none app

abbrev segment_answer : ℕ → Frame
segment_answer n = app_frame (record {
  afn = file_transfer;
  data_flag = flag_values 1;
  data_units = some (n ∷ 0 ∷ 0 ∷ 0 ∷ []);
})

-- A response with less than the bytes that its reader asks for.
abbrev short_frame : Frame
short_frame =
    app_frame (record { afn = cocurrent_read_meter; data_flag = flag_values 1; data_units = none })

short_frame-unread :
    response_of_frame read_meter_of_app short_frame ≡ err (app_data (AppDataError.data_length 0))
unfolding response_of_frame built User.new read_meter_of_app
short_frame-unread = refl

abbrev busy : SampleCache ℕ
busy = record { is_waiting_response = true; msg_cache_queue = []; last_operation_time = 0 }

abbrev blocked : ConcurrentMeter ℕ
blocked = record { sample_cache = ("1", busy) ∷ []; metering = false; sent = []; seq = 0 }

step-unread : (s : ConcurrentMeter ℕ) → step setting (response "1" short_frame) s ≡ some s
unfolding step uart_meter_reading
step-unread s = rw (short_frame-unread, uart_meter_reading)

steps-one : steps setting (request 3 0 ∷ []) (initial setting 0) ≡ some after_one
unfolding steps
steps-one = steps-step (request 3 0) [] (initial setting 0) after_one _ step-one refl

steps-unread :
    steps setting (response "1" short_frame ∷ request 4 1 ∷ []) after_one ≡ some after_two
unfolding steps
steps-unread =
    steps-step (response "1" short_frame) (request 4 1 ∷ []) after_one after_one _
      (step-unread after_one) (steps-step (request 4 1) [] after_one after_two _ step-two refl)

nothing-ended : ended_all setting "1" (request 4 1 ∷ []) ≡ 0
unfolding ended_all ended
nothing-ended = refl

unreadable_blocks_example : sent_to "1" after_two.sent ≤ sent_to "1" after_one.sent
unreadable_blocks_example =
    unreadable_blocks setting 0 (request 3 0 ∷ []) (request 4 1 ∷ []) "1" short_frame
      (app_data (AppDataError.data_length 0)) after_one after_two (after_one-busy.0) (tt, λ z h. tt)
      steps-one (after_one-busy.1) (after_one-busy.2) short_frame-unread (tt, λ z h. tt)
      nothing-ended steps-unread

abbrev resting : SampleCache ℕ
resting = record busy { is_waiting_response = false }

abbrev full : ConcurrentMeter ℕ
full = record blocked { sample_cache = ("2", busy) ∷ ("1", resting) ∷ [] }

full-get : get "1" full.sample_cache ≡ some resting
unfolding get same
full-get = refl

abbrev full_sent : ConcurrentMeter ℕ
full_sent = or_initial (mqtt_meter_reading_handler setting 3 full)

full-sent : mqtt_meter_reading_handler setting 3 full ≡ some full_sent
unfolding get same update mqtt_meter_reading_handler reading_of address_of_text message_of
    read_meter_to_app App.new flag_of_fn_num Frame.new_request Frame.new Frame.to_bytes
    User.to_bytes Info.to_bytes Frame.blank User.new Info.new User.address_field_to_bytes
    address_to_bytes as_fn_num find_mark App.to_bytes Frame.calc_checksum Frame.checksum_loop
    Frame.ctrl_to_u8
full-sent = refl

full-counted : concurrent_addr_num full.sample_cache ≡ 1
unfolding concurrent_addr_num
full-counted = refl

full-missing : get "3" full.sample_cache ≡ none
unfolding get same
full-missing = refl

full-limit : 1 ≤ concurrent_addr_num full.sample_cache
full-limit = omega (arith, full-counted)

limit_passed_example :
    (handle_meter_reading setting "3" 3 5 full ≡ (full, err (addr_limit 1)))
    × ((handle_meter_reading setting "1" 3 5 full).1 ≡ ok tt)
    × (sent_to "1" (handle_meter_reading setting "1" 3 5 full).0.sent ≡ suc (sent_to "1" full.sent))
    × (concurrent_addr_num (handle_meter_reading setting "1" 3 5 full).0.sample_cache
        ≡ suc (concurrent_addr_num full.sample_cache))
limit_passed_example =
    limit_passed setting "1" "3" 3 3 5 resting full full_sent full-limit full-missing full-get refl
      refl (_, refl, refl) full-sent

abbrev content : List ℕ
content = 1 ∷ 2 ∷ 3 ∷ []

abbrev packet : ℕ
packet = prefix_len + 2

read-first : response_of_frame segment_flag_of_app (segment_answer 0) ≡ ok (normal 0)
unfolding response_of_frame segment_flag_of_app built User.new as_fn_num find_mark check
read-first = refl

abbrev fresh : FileUpgrade ℕ
fresh = record {
  status = idle;
  start_time = 0;
  end_time = 0;
  upgrade_result = success;
  result = none;
  upgrading = false;
  sent = [];
  seq = 9;
  events = (answered (segment_answer 0) ∷ []) ∷ (answered (segment_answer 1) ∷ []) ∷ [];
}

-- An upgrade of the module that its report ends, and the transfer that follows.
abbrev upgrading : FileUpgrade ℕ
upgrading = record fresh {
  upgrading = true;
  events = (reported ∷ []) ∷ (answered (segment_answer 0) ∷ []) ∷ [];
}

content-split : chunks content (packet - prefix_len) ≡ (1 ∷ 2 ∷ []) ∷ (3 ∷ []) ∷ []
unfolding chunks
content-split = refl

stale_result_example :
    (z : FileUpgrade ℕ) × ((watch_module 20 >> transfer_file module_ 7 packet 30 content) upgrading
      ≡ (z, ok false))
    × (z.upgrade_result ≡ transfer_failed)
stale_result_example =
    stale_result module_ 7 packet 20 30 content (1 ∷ 2 ∷ []) (3 ∷ []) []
      (answered (segment_answer 0) ∷ []) [] upgrading refl refl refl
      (segment_answer 0, refl, read-first) (omega arith) content-split (omega arith)

-- One node, whose module's factory code is no UTF-8.
abbrev ids_app : AppData
ids_app = record {
  afn = route_get;
  data_flag = flag_values 7;
  data_units = some (1 ∷ 0 ∷ 1 ∷ 1 ∷ 2 ∷ 3 ∷ 4 ∷ 5 ∷ 6 ∷ 0 ∷ 0x41 ∷ 0xff ∷ 2 ∷ 2 ∷ 9 ∷ 8 ∷ []);
}

slave_module_id_unreadable_example : slave_module_id_of_app ids_app ≡ panic
slave_module_id_unreadable_example =
    slave_module_id_unreadable ids_app 1 0 0 1 2 3 4 5 6 0 0x41 0xff 2 2 (9 ∷ 8 ∷ []) refl
      (omega arith) refl
