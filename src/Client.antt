-- ===== src/Client.antt =====
-- crates/devsite-client/src/lib.rs: `request_stream`, from the capability to the daemon's verdict. The
-- stream to the daemon is what the client writes; the stream from it, the bytes that will arrive.
pub mod Laws
use devsite.Prelude.{Result, ok, err, ◌>>=◌, Bytes}
use devsite.Proto.Crypto.{Postcard}
use devsite.Proto.Capability.{SignedCapability}
use devsite.Proto.Wire.{
  Request, connect, Response, connected, error, ErrorCode, denied, bad_request,
  upstream_unavailable, encode, decode, read_frame,
}

-- `transport` is every failure before a verdict.
pub data ConnectError : Type 0 where
  refused transport : ConnectError
  rejected : ErrorCode → ConnectError

-- The match on the response; `ok` keeps what is left of the stream for the service's bytes.
unfoldable pub verdict : Response → Bytes → Result ConnectError Bytes
verdict connected rest = ok rest
verdict (error denied message) rest = err refused
verdict (error bad_request message) rest = err (rejected bad_request)
verdict (error upstream_unavailable message) rest = err (rejected upstream_unavailable)

-- The frame that the client sends.
unfoldable pub request_frame : Postcard Request → SignedCapability → Result ConnectError Bytes
request_frame wire capability = elim (encode wire (connect (record { capability = capability }))) [
  | ok frame ↦ ok frame
  | err _ ↦ err transport
]

-- The client's side from the first byte of the answer on.
unfoldable pub read_response : Postcard Response → Bytes → Result ConnectError Bytes
unfolding verdict
read_response wire incoming = elim (read_frame incoming) [
  | err _ ↦ err transport
  | ok (payload, rest) ↦ elim (decode wire payload) [
    | err _ ↦ err transport
    | ok response ↦ verdict response rest
  ]
]

-- What was sent, and how the attempt ended.
unfoldable pub request_stream :
    Postcard Request
    → Postcard Response
    → SignedCapability
    → Bytes
    → Result ConnectError (Bytes × Bytes)
unfolding request_frame read_response
request_stream wire answers capability incoming = do
  sent ← request_frame wire capability
  rest ← read_response answers incoming
  ok (sent, rest)
