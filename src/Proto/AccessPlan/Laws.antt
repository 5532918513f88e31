-- ===== src/Proto/AccessPlan/Laws.antt =====
-- Approval tokens round trip: crates/devsite-proto/src/access_plan.rs.
use devsite.Prelude.{
  ◌≡◌, ap, ◌∙◌, sym, ◌++◌, ok, some, arith, Text, text, >>=-eq-ok, ok_or, ok_or-eq-ok, strip_prefix,
  strip_prefix-append, true, length, Bytes, ok-injective,
}
use devsite.Proto.Crypto.{KeyBytes, Ed25519, Postcard, Encoding}
use devsite.Proto.AccessPlan.{
  ServiceGrantPlanClaims, SignedServiceGrantPlan, malformed, plan_prefix, sign, verify,
  unverified_claims, to_token, from_token,
}

module _ (ed : Ed25519) (claims_codec : Postcard ServiceGrantPlanClaims)
    (plan_codec : Postcard SignedServiceGrantPlan) (base64url : Encoding) where
  from_token-to_token :
      (plan : SignedServiceGrantPlan) (token : Text)
      → to_token plan_codec base64url plan ≡ ok token
      → from_token plan_codec base64url token ≡ ok plan
  unfolding to_token from_token
  from_token-to_token plan token e =
      let (bytes, encoded, built) = >>=-eq-ok (ok_or (plan_codec.to_allocvec plan) malformed) _ e in
      let same : text "dsp_" ++ base64url.encode bytes ≡ token = ground arith in
      rw (sym same) (
        rw (strip_prefix-append (text "dsp_") (base64url.encode bytes)) (
          rw (base64url.decode-encode bytes)
            (rw (plan_codec.from_bytes-to_allocvec plan bytes (ok_or-eq-ok _ _ encoded)))))

  -- What `sign` puts together.
  record Built (claims : ServiceGrantPlanClaims) (key : KeyBytes) (plan : SignedServiceGrantPlan)
      : Type 0 where
    pub payload : Bytes
    pub body : plan.claims ≡ plan_prefix ++ payload
    pub seal : plan.signature ≡ ed.sign key plan.claims
    pub decoded : claims_codec.from_bytes payload ≡ some claims

  sign-Built :
      (claims : ServiceGrantPlanClaims) (key : KeyBytes) (plan : SignedServiceGrantPlan)
      → sign ed claims_codec claims key ≡ ok plan
      → Built claims key plan
  unfolding sign
  sign-Built claims key plan e =
      let (payload, encoded, built) =
        >>=-eq-ok (ok_or (claims_codec.to_allocvec claims) malformed) _ e in
      let same = ok-injective built in
      record {
        payload = payload;
        body = ap (λ p. p.claims) (sym same);
        seal = ap (λ p. p.signature) (sym same) ∙ ap (λ p. ed.sign key p.claims) same;
        decoded = claims_codec.from_bytes-to_allocvec claims payload (ok_or-eq-ok _ _ encoded);
      }

  verify-sign :
      (claims : ServiceGrantPlanClaims) (key : KeyBytes) (plan : SignedServiceGrantPlan)
      → Built claims key plan
      → verify ed claims_codec plan (ed.verifying_key key) ≡ ok claims
  unfolding verify
  verify-sign claims key plan b =
      let sized : length plan.signature ≡ 64 = rw b.seal (ed.length-sign key plan.claims) in
      let signed : ed.verify (ed.verifying_key key) plan.claims plan.signature ≡ true =
        rw b.seal (ed.verify-sign key plan.claims) in
      let stripped : strip_prefix plan_prefix plan.claims ≡ some b.payload =
        rw b.body (strip_prefix-append plan_prefix b.payload) in
      rw (sized, signed) (rw stripped (rw b.decoded))

  unverified_claims-sign :
      (claims : ServiceGrantPlanClaims) (key : KeyBytes) (plan : SignedServiceGrantPlan)
      → Built claims key plan
      → unverified_claims claims_codec plan ≡ ok claims
  unfolding unverified_claims
  unverified_claims-sign claims key plan b =
      let stripped : strip_prefix plan_prefix plan.claims ≡ some b.payload =
        rw b.body (strip_prefix-append plan_prefix b.payload) in
      rw stripped (rw b.decoded)

  -- The claims of a plan that was signed and sent as a token are recovered from the token, both by
  -- the server's verification under its own key and by a client that does not verify.
  pub verify-from_token :
      (claims : ServiceGrantPlanClaims) (key : KeyBytes) (plan : SignedServiceGrantPlan)
      (token : Text)
      → sign ed claims_codec claims key ≡ ok plan
      → to_token plan_codec base64url plan ≡ ok token
      → (from_token plan_codec base64url token ≡ ok plan)
        × (verify ed claims_codec plan (ed.verifying_key key) ≡ ok claims)
        × (unverified_claims claims_codec plan ≡ ok claims)
  verify-from_token claims key plan token e f = (
    from_token-to_token plan token f,
    verify-sign claims key plan (sign-Built claims key plan e),
    unverified_claims-sign claims key plan (sign-Built claims key plan e),
  )

  -- A verified plan was signed by the key, and a client that reads the claims without verifying
  -- sees the same claims.
  pub unverified_of_verified :
      (plan : SignedServiceGrantPlan) (key : KeyBytes) (claims : ServiceGrantPlanClaims)
      → verify ed claims_codec plan key ≡ ok claims
      → (ed.verify key plan.claims plan.signature ≡ true)
        × (length plan.signature ≡ 64)
        × (unverified_claims claims_codec plan ≡ ok claims)
  unfolding verify unverified_claims
  unverified_of_verified plan key claims e = ground arith
