-- ===== src/Service/Response.antt =====
-- src/service/parse_response.rs: a response is what was asked for or a refusal. And `Address::from`
-- of a text, of src/protocol/app_data/mod.rs, whose crate hex is given.
pub mod Making
use plc_service_rust.Base.{
  ℕ, String, Outcome, ok, err, panic, ◌>>=◌, unwrap, Option, if◌then◌else◌, ◌==◌, length, List,
}
use plc_service_rust.Protocol.Fault.{Error}
use plc_service_rust.Protocol.AppData.{AppData, Address}
use plc_service_rust.Protocol.UserData.{AddressField}
use plc_service_rust.Protocol.Frame.{Frame, new_request}
use plc_service_rust.Uart.Request as Info
use plc_service_rust.Uart.Request.{UartMessage}
use plc_service_rust.Protocol.Frame.Kind.{is_deny}
use plc_service_rust.Message.Answer.{DenyResponse, deny_of_app, deny_to_u8}
use plc_service_rust.Service.Action.{ServiceError, denied, protocol}

pub data UartResponse (A : Type 0) : Type 0 where
  normal : A → UartResponse A
  deny : DenyResponse → UartResponse A

-- `UartResponse::<T>::try_from`, with the `try_from` of `T`.
unfoldable pub response_of_frame :
    {A : Type 0} → (AppData → Outcome Error A) → Frame → Outcome Error (UartResponse A)
response_of_frame read f = is_deny f >>= λ refused.
    if refused
    then (deny_of_app f.user_data.app_data >>= λ r. ok (deny r))
    else (read f.user_data.app_data >>= λ a. ok (normal a))

-- `Result::<()>::from` of a response that is a confirmation.
unfoldable pub confirmed : {A : Type 0} → UartResponse A → Outcome ServiceError (Unit {0})
confirmed (deny r) = err (denied (deny_to_u8 r.error_code))
confirmed (normal a) = ok tt

-- What a function of src/protocol returns, in a service.
abbrev pub of_protocol : {A : Type 0} → Outcome Error A → Outcome ServiceError A
of_protocol (ok a) = ok a
of_protocol (err e) = err (protocol e)
of_protocol panic = panic

-- `hex::decode` and `str::parse::<u8>`.
pub record Texts : Type 0 where
  pub decode : String → Option (List ℕ)
  pub parse_u8 : String → Option ℕ

-- `copy_from_slice` panics when the lengths differ.
unfoldable pub address_of_text : Texts → String → Outcome Error Address
address_of_text texts s = unwrap (texts.decode s) >>= λ bytes.
    if length bytes == 6 then ok (record { bytes = bytes }) else panic

-- `Frame::new_request` and `ReqInfo::new`, with the sequence number that is next, as a service makes
-- its requests (`mqtt_info_request_uart_handler`, before the sending).
unfoldable pub message_of :
    {MqttReqInfo : Type 0}
    → ℕ
    → Option AddressField
    → Option MqttReqInfo
    → Outcome Error AppData
    → Outcome Error (UartMessage MqttReqInfo × ℕ)
message_of seq address mqtt request = do
  app ← request
  (f, next) ← new_request seq address app
  info ← Info.new f mqtt
  ok (record { req_info = info; frame = f }, next)
