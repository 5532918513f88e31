-- ===== src/Proto/Wire.antt =====
-- crates/devsite-proto/src/wire.rs: frames with a length prefix of four bytes. `read_frame` is the
-- reading side, which crates/devsite-daemon/src/lib.rs and crates/devsite-client/src/lib.rs write
-- out alike; a stream is the bytes that are still to come, and `read_exact` fails when it ends.
pub mod Laws
use devsite.Prelude.{
  ℕ, ◌++◌, ◌%◌, Result, ok, err, Option, ◌>>=◌, ◌>>◌, ensure, ok_or, map_err, leb, ltb, length,
  take, drop, Bytes, Text, if◌then◌else◌,
}
use devsite.Prelude.Words.{le_bytes, from_le, u32_mod}
use devsite.Proto.Crypto.{Postcard}
use devsite.Proto.Capability.{SignedCapability}

abbrev pub max_frame_bytes : ℕ
max_frame_bytes = 4194304

pub record ConnectRequest : Type 0 where
  pub capability : SignedCapability

pub data Request : Type 0 where
  connect : ConnectRequest → Request

pub data ErrorCode : Type 0 where
  denied bad_request upstream_unavailable : ErrorCode

pub data Response : Type 0 where
  connected : Response
  error : ErrorCode → Text → Response

pub data CodecError : Type 0 where
  too_large : ℕ → CodecError
  malformed : CodecError

-- Validate a length prefix before it is used to size an allocation.
unfoldable pub frame_len : Bytes → Result CodecError ℕ
frame_len prefix =
    let size = from_le prefix in if ltb max_frame_bytes size then err (too_large size) else ok size

module _ {T : Type 0} (postcard : Postcard T) where
  unfoldable pub encode : T → Result CodecError Bytes
  encode value = do
    payload ← ok_or (postcard.to_allocvec value) malformed
    ensure (leb (length payload) max_frame_bytes) (too_large (length payload))
    ok (le_bytes 4 (length payload % u32_mod) ++ payload)

  unfoldable pub decode : Bytes → Result CodecError T
  decode payload = ok_or (postcard.from_bytes payload) malformed

-- Why a frame could not be read.
pub data ReadError : Type 0 where
  ended : ReadError
  codec : CodecError → ReadError

-- `recv.read_exact`: the first `n` bytes, and what is left.
unfoldable pub read_exact : ℕ → Bytes → Result ReadError (Bytes × Bytes)
read_exact n stream = if leb n (length stream) then ok (take n stream, drop n stream) else err ended

-- The payload of the next frame, and what is left of the stream.
unfoldable pub read_frame : Bytes → Result ReadError (Bytes × Bytes)
read_frame stream = do
  head ← read_exact 4 stream
  len ← elim (frame_len head.0) [ ok n ↦ ok n | err e ↦ err (codec e) ]
  read_exact len head.1
