-- ===== src/Server/Issuer/Laws.antt =====
-- What the server signs, as others read it: crates/devsite-server/src/issuer.rs.
use devsite.Prelude.{
  ℕ, ◌≡◌, some, ok, Text, sym, ◌∙◌, ap, >>=-eq-ok, ok_or-eq-ok, ok_or, ok-injective, Bytes,
}
use devsite.Proto.Capability.{
  AccountId, ResourceId, SignedCapability, CapabilityClaims, malformed, verify_for, check_context,
}
use devsite.Proto.Capability.Laws.{verify_for-sign}
use devsite.Proto.AccessPlan.{ServiceGrantPlanClaims, to_token}
use devsite.Proto.AccessPlan as AccessPlan
use devsite.Proto.AccessPlan.Laws.{verify-from_token}
use devsite.Server.Env.{Env}
use devsite.Server.Issuer.{
  Issuer, issue, issued_claims, issued_text, verifying_key, issue_access_plan, verify_access_plan,
}

module _ (env : Env) where
  -- The text decodes to a capability that verifies under the issuer's key just where its claims
  -- fit.
  pub record Carries (issuer : Issuer) (claims : CapabilityClaims) (t : Text) : Type 0 where
    pub token : SignedCapability
    pub bytes : Bytes
    pub decoded : env.base64url.decode t ≡ some bytes
    pub read : env.capability_codec.from_bytes bytes ≡ some token
    pub verified :
        (audience peer now : ℕ)
        → verify_for env.ed env.claims_codec token (verifying_key env issuer) audience peer now
          ≡ check_context audience peer now claims

  pub issued_text-Carries :
      (issuer : Issuer) (viewer : AccountId) (id : ResourceId) (audience peer nonce now : ℕ)
      (t : Text)
      → issued_text env issuer viewer id audience peer nonce now ≡ ok t
      → Carries issuer (issued_claims env issuer viewer id audience peer nonce now) t
  unfolding issued_text verifying_key issue
  issued_text-Carries issuer viewer id audience peer nonce now t e =
      let (token, signed, e1) =
        >>=-eq-ok (issue env issuer viewer id audience peer nonce now) _ e in
      let (bytes, encoded, e2) =
        >>=-eq-ok (ok_or (env.capability_codec.to_allocvec token) malformed) _ e1 in
      record {
        token = token;
        bytes = bytes;
        decoded =
            ap env.base64url.decode (sym (ok-injective e2)) ∙ env.base64url.decode-encode bytes;
        read = env.capability_codec.from_bytes-to_allocvec token bytes (ok_or-eq-ok _ _ encoded);
        verified = λ a p n.
            verify_for-sign env.ed env.claims_codec
              (issued_claims env issuer viewer id audience peer nonce now) issuer.key token a p n
              signed;
      }

  -- An approval token that the server issues is one that it verifies later, as the same claims.
  pub verify_access_plan-issue_access_plan :
      (issuer : Issuer) (claims : ServiceGrantPlanClaims) (t : Text)
      → issue_access_plan env issuer claims ≡ ok t
      → verify_access_plan env issuer t ≡ ok claims
  unfolding issue_access_plan verify_access_plan verifying_key
  verify_access_plan-issue_access_plan issuer claims t e =
      let (plan, signed, printed) =
        >>=-eq-ok (AccessPlan.sign env.ed env.grant_codec claims issuer.key) _ e in
      let (parsed, verified, _) =
        verify-from_token env.ed env.grant_codec env.plan_codec env.base64url claims issuer.key plan
          t signed printed in
      rw parsed verified
