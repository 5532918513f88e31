-- ===== src/Server/Issuer.antt =====
-- crates/devsite-server/src/issuer.rs: the server's signing key, and the capabilities and approval
-- tokens that it signs. The random nonce of `issue` is an argument.
pub mod Laws
use devsite.Prelude.{ℕ, ◌+◌, Result, ok, err, ◌>>=◌, Option, some, none, ok_or, map_err, Text}
use devsite.Proto.Crypto.{KeyBytes, Ed25519}
use devsite.Proto.Capability.{
  CapabilityClaims, SignedCapability, CapabilityError, malformed, AccountId, ResourceId,
  tcp_connect, sign, default_lifetime_secs,
}
use devsite.Proto.AccessPlan.{ServiceGrantPlanClaims, ServiceGrantPlanError, to_token, from_token}
use devsite.Proto.AccessPlan as AccessPlan
use devsite.Server.Env.{Env, trim}

pub record Issuer : Type 0 where
  pub issuer_name : Text
  pub key : KeyBytes

module _ (env : Env) where
  -- `none` is a text that is not 32 bytes of hexadecimal.
  unfoldable pub from_hex : Text → Text → Option Issuer
  from_hex hex issuer_name = elim (env.hex.decode (trim env.unicode.is_whitespace hex)) [
    | none ↦ none
    | some key ↦ some (record { issuer_name = issuer_name; key = key })
  ]

  unfoldable pub verifying_key : Issuer → KeyBytes
  verifying_key issuer = env.ed.verifying_key issuer.key

  unfoldable pub public_key_hex : Issuer → Text
  unfolding verifying_key
  public_key_hex issuer = env.hex.encode (verifying_key issuer)

  unfoldable pub issue_access_plan :
      Issuer → ServiceGrantPlanClaims → Result ServiceGrantPlanError Text
  issue_access_plan issuer claims = do
    plan ← AccessPlan.sign env.ed env.grant_codec claims issuer.key
    to_token env.plan_codec env.base64url plan

  unfoldable pub verify_access_plan :
      Issuer → Text → Result ServiceGrantPlanError ServiceGrantPlanClaims
  unfolding verifying_key
  verify_access_plan issuer token = do
    plan ← from_token env.plan_codec env.base64url token
    AccessPlan.verify env.ed env.grant_codec plan (verifying_key issuer)

  -- The claims that `issue` signs.
  unfoldable pub issued_claims :
      Issuer → AccountId → ResourceId → KeyBytes → KeyBytes → ℕ → ℕ → CapabilityClaims
  issued_claims issuer viewer resource audience client_key nonce now = record {
    issuer = issuer.issuer_name;
    viewer = viewer;
    resource = resource;
    audience = audience;
    client_key = client_key;
    permission = tcp_connect;
    issued_at = now;
    expires_at = now + default_lifetime_secs;
    nonce = nonce;
  }

  unfoldable pub issue :
      Issuer
      → AccountId
      → ResourceId
      → KeyBytes
      → KeyBytes
      → ℕ
      → ℕ
      → Result CapabilityError SignedCapability
  unfolding issued_claims
  issue issuer viewer resource audience client_key nonce now =
      sign env.ed env.claims_codec
        (issued_claims issuer viewer resource audience client_key nonce now) issuer.key

  -- `issue`, then the text of `to_bytes`, which panics where the capability does not serialize:
  -- `err malformed` here.
  unfoldable pub issued_text :
      Issuer → AccountId → ResourceId → KeyBytes → KeyBytes → ℕ → ℕ → Result CapabilityError Text
  issued_text issuer viewer resource audience client_key nonce now = do
    token ← issue issuer viewer resource audience client_key nonce now
    bytes ← ok_or (env.capability_codec.to_allocvec token) malformed
    ok (env.base64url.encode bytes)
