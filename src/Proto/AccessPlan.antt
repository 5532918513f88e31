-- ===== src/Proto/AccessPlan.antt =====
-- crates/devsite-proto/src/access_plan.rs: approval tokens that the control plane signs over a
-- domain-separated encoding of a service grant.
pub mod Laws
use devsite.Prelude.{
  ℕ, ◌++◌, List, [], ◌∷◌, Result, ok, err, ◌>>=◌, ◌>>◌, ensure, ok_or, ◌==◌, length, Bytes, Text,
  text, strip_prefix,
}
use devsite.Proto.Crypto.{KeyBytes, Ed25519, Postcard, Encoding}

pub record ServiceGrantPlanClaims : Type 0 where
  pub schema_version : ℕ
  pub issuer_credential_id : Text
  pub request_id : Text
  pub service : Text
  pub resource_id : Text
  pub requester_endpoint_id : Text
  pub request_expires_at : ℕ
  pub grant_expires_at : ℕ

pub record SignedServiceGrantPlan : Type 0 where
  pub claims : Bytes
  pub signature : Bytes

pub data ServiceGrantPlanError : Type 0 where
  bad_signature malformed : ServiceGrantPlanError

-- `b"dev.site approved service grant plan v1\0"`.
abbrev pub plan_prefix : Bytes
plan_prefix = text "dev.site approved service grant plan v1" ++ 0 ∷ []

module _ (ed : Ed25519) (claims_codec : Postcard ServiceGrantPlanClaims) where
  unfoldable pub sign :
      ServiceGrantPlanClaims → KeyBytes → Result ServiceGrantPlanError SignedServiceGrantPlan
  sign claims key = do
    payload ← ok_or (claims_codec.to_allocvec claims) malformed
    ok (record {
      claims = plan_prefix ++ payload;
      signature = ed.sign key (plan_prefix ++ payload);
    })

  unfoldable pub verify :
      SignedServiceGrantPlan → KeyBytes → Result ServiceGrantPlanError ServiceGrantPlanClaims
  verify plan key = do
    ensure (length plan.signature == 64) malformed
    ensure (ed.verify key plan.claims plan.signature) bad_signature
    payload ← ok_or (strip_prefix plan_prefix plan.claims) malformed
    ok_or (claims_codec.from_bytes payload) malformed

module _ (claims_codec : Postcard ServiceGrantPlanClaims) where
  unfoldable pub unverified_claims :
      SignedServiceGrantPlan → Result ServiceGrantPlanError ServiceGrantPlanClaims
  unverified_claims plan = do
    payload ← ok_or (strip_prefix plan_prefix plan.claims) malformed
    ok_or (claims_codec.from_bytes payload) malformed

-- `to_token` panics where the plan does not serialize: `err malformed` here.
module _ (plan_codec : Postcard SignedServiceGrantPlan) (base64url : Encoding) where
  unfoldable pub to_token : SignedServiceGrantPlan → Result ServiceGrantPlanError Text
  to_token plan = do
    bytes ← ok_or (plan_codec.to_allocvec plan) malformed
    ok (text "dsp_" ++ base64url.encode bytes)

  unfoldable pub from_token : Text → Result ServiceGrantPlanError SignedServiceGrantPlan
  from_token token = do
    encoded ← ok_or (strip_prefix (text "dsp_") token) malformed
    bytes ← ok_or (base64url.decode encoded) malformed
    ok_or (plan_codec.from_bytes bytes) malformed
