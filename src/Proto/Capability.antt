-- ===== src/Proto/Capability.antt =====
-- crates/devsite-proto/src/capability.rs: short-lived signed grants. Identifiers, keys and nonces
-- are compared for equality alone here, and each is the number that its bytes spell. A
-- `SignedCapability` holds the exact bytes that were signed.
pub mod Laws
use devsite.Prelude.{
  ℕ, ◌+◌, ◌≡◌, Bool, Option, some, none, Result, ok, err, ◌>>=◌, ◌>>◌, ensure, ok_or, ltb, leb,
  ◌==◌, not, length, Bytes, Text, if◌then◌else◌,
}
use devsite.Prelude.Words.{saturating_add}
use devsite.Proto.Crypto.{KeyBytes, Ed25519, Postcard}

abbrev pub AccountId : Type 0
AccountId = ℕ

abbrev pub ResourceId : Type 0
ResourceId = ℕ

abbrev pub default_lifetime_secs : ℕ
default_lifetime_secs = 180

abbrev pub max_clock_skew_secs : ℕ
max_clock_skew_secs = 30

pub data Permission : Type 0 where
  tcp_connect : Permission

pub record CapabilityClaims : Type 0 where
  pub issuer : Text
  pub viewer : AccountId
  pub resource : ResourceId
  pub audience : KeyBytes
  pub client_key : KeyBytes
  pub permission : Permission
  pub issued_at : ℕ
  pub expires_at : ℕ
  pub nonce : ℕ

pub record SignedCapability : Type 0 where
  pub claims : Bytes
  pub signature : Bytes

pub data CapabilityError : Type 0 where
  bad_signature malformed expired not_yet_valid wrong_audience wrong_client_key : CapabilityError

-- The checks of `verify_for` after the signature, in their order.
unfoldable pub check_context :
    KeyBytes → KeyBytes → ℕ → CapabilityClaims → Result CapabilityError CapabilityClaims
check_context audience peer now claims =
    if not (claims.audience == audience)
    then err wrong_audience
    else if not (claims.client_key == peer)
    then err wrong_client_key
    else if ltb claims.expires_at now
    then err expired
    else if ltb (saturating_add now max_clock_skew_secs) claims.issued_at
    then err not_yet_valid
    else ok claims

module _ (ed : Ed25519) (postcard : Postcard CapabilityClaims) where
  unfoldable pub sign : CapabilityClaims → KeyBytes → Result CapabilityError SignedCapability
  sign claims key = do
    bytes ← ok_or (postcard.to_allocvec claims) malformed
    ok (record { claims = bytes; signature = ed.sign key bytes })

  unfoldable pub verify : SignedCapability → KeyBytes → Result CapabilityError CapabilityClaims
  verify token key = do
    ensure (length token.signature == 64) malformed
    ensure (ed.verify key token.claims token.signature) bad_signature
    ok_or (postcard.from_bytes token.claims) malformed

  unfoldable pub verify_for :
      SignedCapability
      → KeyBytes
      → KeyBytes
      → KeyBytes
      → ℕ
      → Result CapabilityError CapabilityClaims
  unfolding check_context
  verify_for token key audience peer now = do
    claims ← verify token key
    check_context audience peer now claims
