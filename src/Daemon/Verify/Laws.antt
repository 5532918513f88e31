-- ===== src/Daemon/Verify/Laws.antt =====
-- The decision of `authorize`, branch by branch: crates/devsite-daemon/src/verify.rs.
use devsite.Prelude.{
  ℕ, ◌≤◌, ◌≡◌, refl, ◌↔◌, ◌⊎◌, inl, inr, List, Result, ok, err, some, none, arith, Result-cases, ap,
  ◌∙◌, sym, ltb, All, [], ◌∷◌,
}
use devsite.Prelude.Map.{lookup, insert, retain}
use devsite.Proto.Crypto.{KeyBytes, Ed25519, Postcard}
use devsite.Proto.Capability.{
  CapabilityClaims, CapabilityError, SignedCapability, verify_for, ResourceId,
}
use devsite.Proto.Capability.Laws.{Attests, FitsContext, verify_for-eq-ok_iff}
use mathlib.Core.Path.{subst}
use devsite.Daemon.Verify.{
  SocketAddr, Authorized, ReplayGuard, Denied, capability, replayed, prune, resolve, authorize,
}

-- No live record of the nonce: every record of it has expired.
abbrev pub NotRedeemed : ℕ → ReplayGuard → ℕ → Type 0
NotRedeemed nonce g now = All (λ e. e.0 ≡ nonce → e.1 ≤ now) g.seen

lookup-prune-eq-none :
    (nonce now : ℕ) (m : List (ℕ × ℕ))
    → lookup nonce (retain (λ _ expiry. ltb now expiry) m) ≡ none
    → All (λ e. e.0 ≡ nonce → e.1 ≤ now) m
unfolding lookup retain
lookup-prune-eq-none nonce now [] e = tt
lookup-prune-eq-none nonce now ((j, x) ∷ m) e =
    (λ same. ground arith, lookup-prune-eq-none nonce now m (ground arith))

pub lookup-prune_of_NotRedeemed :
    (nonce now : ℕ) (m : List (ℕ × ℕ))
    → All (λ e. e.0 ≡ nonce → e.1 ≤ now) m
    → lookup nonce (retain (λ _ expiry. ltb now expiry) m) ≡ none
unfolding lookup retain
lookup-prune_of_NotRedeemed nonce now [] h = refl
lookup-prune_of_NotRedeemed nonce now ((j, x) ∷ m) h =
    ground (arith, h.0, lookup-prune_of_NotRedeemed nonce now m h.1)

resolve-eq-ok :
    (targets : List (ResourceId × SocketAddr)) (g : ReplayGuard) (c : CapabilityClaims) (now : ℕ)
    (a : Authorized)
    → (resolve targets g c now).1 ≡ ok a
    → (a.claims ≡ c)
      × (lookup c.resource targets ≡ some a.target)
      × (lookup c.nonce (prune now g) ≡ none)
unfolding resolve
resolve-eq-ok targets g c now a e = ground arith

pub resolve_of_fresh :
    (targets : List (ResourceId × SocketAddr)) (g : ReplayGuard) (c : CapabilityClaims) (now : ℕ)
    (t : SocketAddr)
    → lookup c.resource targets ≡ some t
    → lookup c.nonce (prune now g) ≡ none
    → resolve targets g c now ≡ (
      record { seen = insert c.nonce c.expires_at (prune now g) },
      ok (record { claims = c; target = t }),
    )
unfolding resolve
resolve_of_fresh targets g c now t found fresh = ground arith

-- What the daemon holds fixed while it answers one request.
module _ (ed : Ed25519) (postcard : Postcard CapabilityClaims) (key me peer : KeyBytes)
    (targets : List (ResourceId × SocketAddr)) where
  -- Every fact that an accepted request rests on.
  pub record Justified (token : SignedCapability) (g : ReplayGuard) (now : ℕ) (a : Authorized)
      : Type 0 where
    pub attested : Attests ed postcard key token a.claims
    pub fits : FitsContext me peer now a.claims
    pub served : lookup a.claims.resource targets ≡ some a.target
    pub fresh : NotRedeemed a.claims.nonce g now

  pub authorize-verified :
      (token : SignedCapability) (g : ReplayGuard) (now : ℕ) (c : CapabilityClaims)
      → verify_for ed postcard token key me peer now ≡ ok c
      → authorize ed postcard token key me peer targets g now ≡ resolve targets g c now
  unfolding authorize
  authorize-verified token g now c e = rw (e, authorize)

  pub authorize-unverified :
      (token : SignedCapability) (g : ReplayGuard) (now : ℕ) (x : CapabilityError)
      → verify_for ed postcard token key me peer now ≡ err x
      → authorize ed postcard token key me peer targets g now ≡ (g, err capability)
  unfolding authorize
  authorize-unverified token g now x e = rw (e, authorize)

  authorize-Justified :
      (token : SignedCapability) (g : ReplayGuard) (now : ℕ) (a : Authorized)
      → (authorize ed postcard token key me peer targets g now).1 ≡ ok a
      → Justified token g now a
  authorize-Justified token g now a e =
      elim (Result-cases (verify_for ed postcard token key me peer now)) [
        | inl (c, verified) ↦
            let (same, found, fresh) =
              resolve-eq-ok targets g c now a
                (rw (authorize-verified token g now c verified) at e) in
            let (attested, fits) =
              (verify_for-eq-ok_iff ed postcard token key me peer now a.claims).0
                (verified ∙ ap ok (sym same)) in
            record {
              attested = attested;
              fits = fits;
              served = subst (λ d. lookup d.resource targets ≡ some a.target) (sym same) found;
              fresh =
                  subst (λ d. NotRedeemed d.nonce g now) (sym same)
                    (lookup-prune-eq-none c.nonce now g.seen fresh);
            }
        | inr (x, refused) ↦
            let denied : ◌≡◌ {A = Result Denied Authorized} (err capability) (ok a) =
              rw (authorize-unverified token g now x refused) at e in
            cc
      ]

  pub authorize_of_Justified :
      (token : SignedCapability) (g : ReplayGuard) (now : ℕ) (a : Authorized)
      → Justified token g now a
      → authorize ed postcard token key me peer targets g now
        ≡ (record { seen = insert a.claims.nonce a.claims.expires_at (prune now g) }, ok a)
  authorize_of_Justified token g now a h =
      authorize-verified token g now a.claims
        ((verify_for-eq-ok_iff ed postcard token key me peer now a.claims).1 (h.attested, h.fits))
      ∙ resolve_of_fresh targets g a.claims now a.target h.served
          (lookup-prune_of_NotRedeemed a.claims.nonce now g.seen h.fresh)

  -- A request is authorized exactly when the control plane's key signed the capability, its claims
  -- name this daemon, the authenticated peer and a time that holds, the daemon serves the named
  -- resource at the returned target, and no unexpired record of the nonce is in the replay guard.
  pub authorize-eq-ok_iff :
      (token : SignedCapability) (g : ReplayGuard) (now : ℕ) (a : Authorized)
      → ((authorize ed postcard token key me peer targets g now).1 ≡ ok a) ↔ Justified token g now a
  authorize-eq-ok_iff token g now a = (
    authorize-Justified token g now a,
    λ h. ap (λ r. r.1) (authorize_of_Justified token g now a h),
  )

  -- A denied request records no nonce: the guard is unchanged unless the denial is `replayed`, and
  -- then it has only lost its expired records.
  pub authorize_denied :
      (token : SignedCapability) (g : ReplayGuard) (now : ℕ) (d : Denied)
      → (authorize ed postcard token key me peer targets g now).1 ≡ err d
      → ((authorize ed postcard token key me peer targets g now).0 ≡ g)
        ⊎ ((d ≡ replayed)
            × ((authorize ed postcard token key me peer targets g now).0.seen ≡ prune now g))
  unfolding authorize
  authorize_denied token g now d e = ground arith
