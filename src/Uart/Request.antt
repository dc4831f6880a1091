-- ===== src/Uart/Request.antt =====
-- src/request_info.rs: what is kept of a request until it is answered. `MqttReqInfo` (topic, token
-- and a value of any type) is passed on unopened, so it is a parameter.
use plc_service_rust.Base.{ℕ, Option, none, some, Outcome, ok, ◌>>=◌, Bool, true, false}
use plc_service_rust.Protocol.Fault.{Afn, Error}
use plc_service_rust.Protocol.Frame.{Frame}
use plc_service_rust.Protocol.Frame.Kind.{get_seq, frame_afn, frame_fn_num}

pub record FrameKey : Type 0 where
  pub afn : Afn
  pub fn_num : ℕ

-- `FrameKey::new(frame.afn(), frame.fn_num())`.
abbrev pub key_of_frame : Frame → Outcome Error FrameKey
key_of_frame f = frame_fn_num f >>= λ n. ok (record { afn = frame_afn f; fn_num = n })

pub record ReqInfo (MqttReqInfo : Type 0) : Type 0 where
  pub mqtt_req_info : Option MqttReqInfo
  pub frame_key : FrameKey
  pub seq_num : ℕ
  pub origin_req_key : Option FrameKey

pub record UartMessage (MqttReqInfo : Type 0) : Type 0 where
  pub req_info : ReqInfo MqttReqInfo
  pub frame : Frame

module _ {MqttReqInfo : Type 0} where
  -- `ReqInfo::new_with_key` and `ReqInfo::new_with_key_and_origin`.
  abbrev pub new_with_key : Frame → FrameKey → Option MqttReqInfo → ReqInfo MqttReqInfo
  new_with_key f key mqtt = record {
    mqtt_req_info = mqtt;
    frame_key = key;
    seq_num = get_seq f;
    origin_req_key = none;
  }

  abbrev pub new_with_key_and_origin :
      Frame → FrameKey → Option MqttReqInfo → FrameKey → ReqInfo MqttReqInfo
  new_with_key_and_origin f key mqtt origin = record {
    mqtt_req_info = mqtt;
    frame_key = key;
    seq_num = get_seq f;
    origin_req_key = some origin;
  }

  -- `ReqInfo::new` and `ReqInfo::new_with_mqtt` (with the `MqttReqInfo` made).
  abbrev pub new : Frame → Option MqttReqInfo → Outcome Error (ReqInfo MqttReqInfo)
  new f mqtt = key_of_frame f >>= λ key. ok (new_with_key f key mqtt)

  abbrev pub new_with_origin_req_key : Frame → FrameKey → Outcome Error (ReqInfo MqttReqInfo)
  new_with_origin_req_key f origin =
      key_of_frame f >>= λ key. ok (new_with_key_and_origin f key none origin)

  abbrev pub has_origin : ReqInfo MqttReqInfo → Bool
  has_origin r = elim r.origin_req_key [ some key ↦ true | none ↦ false ]

  abbrev pub is_init : ReqInfo MqttReqInfo → Bool
  is_init r = elim r.mqtt_req_info [ some mqtt ↦ false | none ↦ true ]
