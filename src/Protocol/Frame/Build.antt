-- ===== src/Protocol/Frame/Build.antt =====
-- frame.rs: the frames that `Frame::new`, `new_request` and `new_response` make.
use plc_service_rust.Base.{
  ℕ, ◌+◌, ◌-◌, ◌%◌, ◌/◌, ◌<◌, ◌≡◌, ◌≢◌, refl, ap, ◌∙◌, ok, ◌>>=◌, arith, Bool, [], ◌∷◌, length,
  Option, some, slice,
}
use plc_service_rust.Protocol.Fault.{Error}
use plc_service_rust.Protocol.InfoField as Info
use plc_service_rust.Protocol.AppData.{AppData}
use plc_service_rust.Protocol.AppData.Codec.{IsCanonical}
use plc_service_rust.Protocol.UserData as User
use plc_service_rust.Protocol.UserData.{AddressField, user_data_length}
use plc_service_rust.Protocol.UserData.Codec as UserCodec
use plc_service_rust.Protocol.UserData.Codec.{IsSound, IsAddressed}
use plc_service_rust.Protocol.Frame.{
  Frame, ctrl_to_u8, ctrl_new, calc_checksum, to_bytes, blank, new, of_bytes,
}
use plc_service_rust.Protocol.Frame.Parts.{slice_summed}
use plc_service_rust.Protocol.Frame.Codec.{
  IsFrame, to_bytes-layout, length-to_bytes, of_bytes-to_bytes_frame,
}

-- The frame that `Frame::new` returns.
unfoldable pub built : Bool → ℕ → Option AddressField → AppData → Frame
unfolding blank
built is_response seq address app = record (blank is_response seq address app) {
  checksum =
      calc_checksum (ctrl_to_u8 (ctrl_new is_response) ∷ User.to_bytes (User.new seq address app));
}

pub new-built :
    (is_response : Bool) (seq : ℕ) (address : Option AddressField) (app : AppData)
    → new is_response seq address app ≡ ok (built is_response seq address app)
unfolding new built
new-built is_response seq address app =
    let b : Frame = blank is_response seq address app in
    let part : slice {E = Error} (to_bytes b) 3 (length (to_bytes b) - 2)
        ≡ ok (ctrl_to_u8 b.ctrl_field ∷ User.to_bytes b.user_data) =
      ap (λ all. slice all 3 (length all - 2)) (to_bytes-layout b)
      ∙ slice_summed b.header.header (b.header.length % 256) (b.header.length / 256 % 256)
          (ctrl_to_u8 b.ctrl_field) (User.to_bytes b.user_data) b.checksum b.tail in
    ap (λ m. m >>= λ part. ok (record b { checksum = calc_checksum part })) part

-- What a caller has to give for a frame that can be read again.
module _ (is_response : Bool) (seq n : ℕ) (address : Option AddressField) (app : AppData)
    (byte : seq < 256) (canonical : IsCanonical app n) (units : app.data_units ≢ some [])
    (addressed : IsAddressed app.afn address)
    (short : 6 + user_data_length (User.new seq address app) < 65536) where
  pub built_counted :
      (built is_response seq address app).header.length
      ≡ length (to_bytes (built is_response seq address app))
  unfolding built
  built_counted = omega (
    arith,
    length-to_bytes (built is_response seq address app),
    UserCodec.length-to_bytes (User.new seq address app)
        (UserCodec.new-AddressMatches seq address app addressed),
  )

  pub built-IsFrame : IsFrame (built is_response seq address app)
  built-IsFrame = record {
    start = unfold built in refl;
    fits = unfold built in omega arith;
    counted = omega (arith, built_counted);
    sound = unfold built in UserCodec.new-IsSound seq n address app byte canonical units addressed;
    direction = unfold built User.new Info.new in refl;
    summed = unfold built in refl;
    end_ = unfold built in refl;
  }

  -- `Frame::new` makes a frame, for the given user data, that is read back from its own bytes, where
  -- the sequence number is a byte, the function number fits a byte, the data units are no empty
  -- vector, the address field suits the function code, and the length fits two bytes.
  pub new_readable :
      (f : Frame) × (new is_response seq address app ≡ ok f)
      × (f.user_data ≡ User.new seq address app)
      × (f.header.length ≡ length (to_bytes f))
      × (of_bytes (to_bytes f) ≡ ok f)
  new_readable = (
    built is_response seq address app,
    new-built is_response seq address app,
    (unfold built in refl),
    built_counted,
    of_bytes-to_bytes_frame (built is_response seq address app) built-IsFrame,
  )
