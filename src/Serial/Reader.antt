-- ===== src/Serial/Reader.antt =====
-- serial_port.rs, `StreamReader`: its buffer, and `read_response` over what the stream's `read`
-- returns call after call.
pub mod Whole
pub mod Stream
pub mod Junk
use plc_service_rust.Base.{
  ℕ, List, [], ◌∷◌, ◌++◌, drop, Option, none, some, Outcome, ok, err, panic, ◌>>=◌, Bool, true,
  false,
}
use plc_service_rust.Protocol.Fault.{Error}
use plc_service_rust.Protocol.Frame.{Frame}
use plc_service_rust.Protocol.Frame.Cursor.{parse}

-- What one `read` of the stream returns: some bytes, end of stream (0), or an error.
pub data Read : Type 0 where
  chunk : List ℕ → Read
  closed : Read
  failed : Read

-- `StreamReader::parse_frame`: the buffer goes on by the cursor's position if there is a frame.
unfoldable pub parse_frame : List ℕ → Outcome Error (Option Frame × List ℕ)
parse_frame buffer = do
  (found, position) ← parse buffer 0
  ok (found, elim found [ some f ↦ drop position buffer | none ↦ buffer ])

-- How `read_response` ends: with a frame, the buffer and the reads to come; with an error; with a
-- panic; or not before the stream returns more than the reads given.
pub data Response : Type 0 where
  got : Frame → List ℕ → List Read → Response
  bad_frame : Error → Response
  connection_close : Response
  connection_reset : Response
  read_error : Response
  panicked : Response
  waiting : List ℕ → Response

-- The error at the end of the stream.
abbrev pub end_of_stream : List ℕ → Response
end_of_stream [] = connection_close
end_of_stream (b ∷ bytes) = connection_reset

unfoldable pub read_response : List ℕ → List Read → Response
read_response buffer [] = elim (parse_frame buffer) [
  | ok (some f, buffer') ↦ got f buffer' []
  | ok (none, buffer') ↦ waiting buffer'
  | err e ↦ bad_frame e
  | panic ↦ panicked
]
read_response buffer (r ∷ reads) = elim (parse_frame buffer) [
  | ok (some f, buffer') ↦ got f buffer' (r ∷ reads)
  | ok (none, buffer') ↦ elim r [
    | chunk bytes ↦ read_response (buffer' ++ bytes) reads
    | closed ↦ end_of_stream buffer'
    | failed ↦ read_error
  ]
  | err e ↦ bad_frame e
  | panic ↦ panicked
]
