-- ===== src/Proto/Crypto.antt =====
-- What crates/devsite-proto takes from other crates: Ed25519 signatures (ed25519-dalek) and the
-- postcard encoding. Both are parameters of the model, with the laws that their documentation
-- states. A key is 32 bytes and is read as the number that they spell.
use devsite.Prelude.{ℕ, ◌≡◌, Bool, true, Option, some, length, Bytes, Text}

abbrev pub KeyBytes : Type 0
KeyBytes = ℕ

pub record Ed25519 : Type 0 where
  pub verifying_key : KeyBytes → KeyBytes
  pub sign : KeyBytes → Bytes → Bytes
  pub verify : KeyBytes → Bytes → Bytes → Bool
  pub length-sign : (key : KeyBytes) (m : Bytes) → length (sign key m) ≡ 64
  pub verify-sign : (key : KeyBytes) (m : Bytes) → verify (verifying_key key) m (sign key m) ≡ true

-- `postcard::to_allocvec` and `postcard::from_bytes` at one type.
pub record Postcard (T : Type 0) : Type 0 where
  pub to_allocvec : T → Option Bytes
  pub from_bytes : Bytes → Option T
  pub from_bytes-to_allocvec :
      (t : T) (bs : Bytes) → to_allocvec t ≡ some bs → from_bytes bs ≡ some t

-- A text encoding of bytes from data-encoding: base32, base64url or hex.
pub record Encoding : Type 0 where
  pub encode : Bytes → Text
  pub decode : Text → Option Bytes
  pub decode-encode : (bs : Bytes) → decode (encode bs) ≡ some bs
