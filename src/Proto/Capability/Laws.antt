-- ===== src/Proto/Capability/Laws.antt =====
-- What a signed capability proves: crates/devsite-proto/src/capability.rs.
use devsite.Prelude.{
  ℕ, ◌≤◌, ◌≡◌, ◌↔◌, ok, some, arith, true, length, >>=-eq-ok, ok_or, ok_or-eq-ok, ap, ◌∙◌,
}
use mathlib.Core.Path.{subst}
use devsite.Prelude.Words.{saturating_add}
use devsite.Proto.Crypto.{KeyBytes, Ed25519, Postcard}
use devsite.Proto.Capability.{
  CapabilityClaims, SignedCapability, max_clock_skew_secs, sign, verify, verify_for, check_context,
  malformed,
}

-- The claims are addressed to this daemon and bound to this peer, and hold at this time.
pub record FitsContext (audience peer : KeyBytes) (now : ℕ) (c : CapabilityClaims) : Type 0 where
  pub addressed : c.audience ≡ audience
  pub bound : c.client_key ≡ peer
  pub unexpired : now ≤ c.expires_at
  pub begun : c.issued_at ≤ saturating_add now max_clock_skew_secs

pub check_context-eq-ok :
    (audience peer now : ℕ) (c d : CapabilityClaims)
    → check_context audience peer now c ≡ ok d
    → (c ≡ d) × FitsContext audience peer now c
unfolding check_context
check_context-eq-ok audience peer now c d e = ground arith

pub check_context_of_FitsContext :
    (audience peer now : ℕ) (c : CapabilityClaims)
    → FitsContext audience peer now c
    → check_context audience peer now c ≡ ok c
unfolding check_context
check_context_of_FitsContext audience peer now c h = ground arith

module _ (ed : Ed25519) (postcard : Postcard CapabilityClaims) where
  -- The key signed exactly the bytes that decode to the claims.
  pub record Attests (key : KeyBytes) (token : SignedCapability) (c : CapabilityClaims)
      : Type 0 where
    pub sized : length token.signature ≡ 64
    pub signed : ed.verify key token.claims token.signature ≡ true
    pub decoded : postcard.from_bytes token.claims ≡ some c

  pub verify-eq-ok :
      (token : SignedCapability) (key : KeyBytes) (c : CapabilityClaims)
      → verify ed postcard token key ≡ ok c
      → Attests key token c
  unfolding verify
  verify-eq-ok token key c e = ground arith

  pub verify_of_Attests :
      (token : SignedCapability) (key : KeyBytes) (c : CapabilityClaims)
      → Attests key token c
      → verify ed postcard token key ≡ ok c
  unfolding verify
  verify_of_Attests token key c h = ground arith

  verify_for-attested :
      (token : SignedCapability) (key audience peer now : ℕ) (c : CapabilityClaims)
      → Attests key token c
      → verify_for ed postcard token key audience peer now ≡ check_context audience peer now c
  unfolding verify_for
  verify_for-attested token key audience peer now c h = rw (verify_of_Attests token key c h)

  verify_for-eq-ok :
      (token : SignedCapability) (key audience peer now : ℕ) (c : CapabilityClaims)
      → verify_for ed postcard token key audience peer now ≡ ok c
      → Attests key token c × FitsContext audience peer now c
  unfolding verify_for
  verify_for-eq-ok token key audience peer now c e =
      let (d, verified, checked) = >>=-eq-ok (verify ed postcard token key) _ e in
      let (same, fits) = check_context-eq-ok audience peer now d c checked in
      (
        verify-eq-ok token key c (verified ∙ ap ok same),
        subst (FitsContext audience peer now) same fits,
      )

  -- `verify_for` returns claims exactly when the given key signed the very bytes that decode to
  -- them, the signature has 64 bytes, and the claims name this audience and this peer, have not
  -- expired, and were not issued more than the permitted clock skew in the future.
  pub verify_for-eq-ok_iff :
      (token : SignedCapability) (key audience peer now : ℕ) (c : CapabilityClaims)
      → (verify_for ed postcard token key audience peer now ≡ ok c)
        ↔ (Attests key token c × FitsContext audience peer now c)
  verify_for-eq-ok_iff token key audience peer now c = (
    verify_for-eq-ok token key audience peer now c,
    λ h.
        verify_for-attested token key audience peer now c h.0
        ∙ check_context_of_FitsContext audience peer now c h.1,
  )

  sign-Attests :
      (c : CapabilityClaims) (key : KeyBytes) (token : SignedCapability)
      → sign ed postcard c key ≡ ok token
      → Attests (ed.verifying_key key) token c
  unfolding sign
  sign-Attests c key token e =
      let (bytes, encoded, built) = >>=-eq-ok (ok_or (postcard.to_allocvec c) malformed) _ e in
      let from = postcard.from_bytes-to_allocvec c bytes (ok_or-eq-ok _ _ encoded) in
      let same : record { claims = bytes; signature = ed.sign key bytes } ≡ token = ground arith in
      subst (λ s. Attests (ed.verifying_key key) s c) same
        (record {
          sized = ed.length-sign key bytes;
          signed = ed.verify-sign key bytes;
          decoded = from;
        })

  -- A capability that was signed verifies under the signer's public key exactly in the contexts
  -- that its claims name, and then gives back the claims that were signed.
  pub verify_for-sign :
      (c : CapabilityClaims) (key : KeyBytes) (token : SignedCapability) (audience peer now : ℕ)
      → sign ed postcard c key ≡ ok token
      → verify_for ed postcard token (ed.verifying_key key) audience peer now
        ≡ check_context audience peer now c
  verify_for-sign c key token audience peer now e =
      verify_for-attested token (ed.verifying_key key) audience peer now c
        (sign-Attests c key token e)
