-- ===== src/Service/Response/Making.antt =====
-- The message that a service makes of a request, with Protocol.Frame's and Uart.Request's functions.
use plc_service_rust.Base.{
  ℕ, ◌+◌, ◌%◌, ◌<◌, List, Option, ok, false, Outcome, >>=-eq-ok, subst, ◌≡◌, refl,
}
use plc_service_rust.Protocol.Fault.{Afn, Error}
use plc_service_rust.Protocol.AppData.{AppData}
use plc_service_rust.Protocol.AppData.Check.{made}
use plc_service_rust.Protocol.AppData.Flag.{as_fn_num-flag_values}
use plc_service_rust.Protocol.UserData as User
use plc_service_rust.Protocol.UserData.{AddressField}
use plc_service_rust.Protocol.Frame.{Frame, new_request}
use plc_service_rust.Protocol.Frame.Build.{built, new-built}
use plc_service_rust.Uart.Request.{UartMessage, new_with_key, key_of_frame}
use plc_service_rust.Uart.Request as Info
use plc_service_rust.Service.Response.{message_of}

module _ {MqttReqInfo : Type 0} (seq : ℕ) (address : Option AddressField)
    (mqtt : Option MqttReqInfo) (a : Afn) (n : ℕ) (units : Option (List ℕ)) (pos : 0 < n)
    (byte : n < 256) where
  pub message_of-made :
      (m : UartMessage MqttReqInfo) × (message_of seq address mqtt (ok (made a n units))
        ≡ ok (m, (seq + 1) % 256))
      × (m.frame.user_data.app_data ≡ made a n units)
      × (m.req_info.mqtt_req_info ≡ mqtt)
  unfolding message_of new_request User.new built
  message_of-made =
      let f : Frame = built false seq address (made a n units) in
      (
        record { req_info = new_with_key f (record { afn = a; fn_num = n }) mqtt; frame = f },
        rw (new-built false seq address (made a n units), as_fn_num-flag_values n pos byte) refl,
        refl,
        refl,
      )

module _ {MqttReqInfo : Type 0} where
  -- A message keeps the client that it is for.
  pub message_of-mqtt :
      (seq : ℕ) (address : Option AddressField) (mqtt : Option MqttReqInfo)
      (request : Outcome Error AppData) (m : UartMessage MqttReqInfo) (next : ℕ)
      → message_of seq address mqtt request ≡ ok (m, next)
      → m.req_info.mqtt_req_info ≡ mqtt
  unfolding message_of
  message_of-mqtt seq address mqtt request m next h =
      let (app, e1, h1) = >>=-eq-ok request _ h in
      let (framed, e2, h2) = >>=-eq-ok (new_request seq address app) _ h1 in
      let (info, e3, h3) = >>=-eq-ok (Info.new (framed.0) mqtt) _ h2 in
      let (key, e4, h4) = >>=-eq-ok (key_of_frame (framed.0)) _ e3 in
      let same_info : new_with_key (framed.0) key mqtt ≡ info = cc in
      let same_ : ◌≡◌ {A = UartMessage MqttReqInfo × ℕ}
          (record { req_info = info; frame = framed.0 }, framed.1) (m, next) =
        cc in
      subst (λ p. p.0.req_info.mqtt_req_info ≡ mqtt) same_
        (subst (λ i. i.mqtt_req_info ≡ mqtt) same_info refl)
