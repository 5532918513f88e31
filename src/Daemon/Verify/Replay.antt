-- ===== src/Daemon/Verify/Replay.antt =====
-- The replay guard over many requests: crates/devsite-daemon/src/verify.rs.
use devsite.Prelude.{
  ℕ, ◌≤◌, ◌<◌, ◌≡◌, refl, inl, inr, List, [], ◌∷◌, Result, ok, some, arith, ltb, All, Result-cases,
  ◌≢◌, Bool-cases, ◌==◌,
}
use devsite.Prelude.Map.{lookup, insert, remove, lookup-retain-some}
use devsite.Prelude.Map.{lookup-remove}
use devsite.Proto.Crypto.{KeyBytes, Ed25519, Postcard}
use devsite.Proto.Capability.{CapabilityClaims, SignedCapability, ResourceId, verify_for}
use devsite.Proto.Capability.Laws.{verify_for-eq-ok_iff}
use devsite.Daemon.Verify.Laws.{
  authorize-verified, authorize-unverified, authorize-eq-ok_iff, authorize_of_Justified,
}
use mathlib.Core.Path.{subst}
use devsite.Daemon.Verify.{SocketAddr, Authorized, ReplayGuard, Denied, prune, resolve, authorize}

-- The guard holds the nonce with this expiry.
abbrev pub Remembers : ℕ → ℕ → ReplayGuard → Type 0
Remembers nonce expires_at g = lookup nonce g.seen ≡ some expires_at

-- One request as the daemon meets it: its capability, its authenticated peer, the resources that
-- are configured when it arrives, and the clock.
pub record Incoming : Type 0 where
  pub token : SignedCapability
  pub peer : KeyBytes
  pub targets : List (ResourceId × SocketAddr)
  pub now : ℕ

resolve-Remembers :
    (targets : List (ResourceId × SocketAddr)) (g : ReplayGuard) (c : CapabilityClaims)
    (now n e : ℕ)
    → now < e
    → Remembers n e g
    → Remembers n e (resolve targets g c now).0
unfolding resolve lookup insert
resolve-Remembers targets g c now n e live h =
    let kept = lookup-retain-some (λ _ expiry. ltb now expiry) n g.seen e h (ground arith) in
    ground (arith, kept, lookup-remove c.nonce n (prune now g))

resolve_remembered :
    (targets : List (ResourceId × SocketAddr)) (g : ReplayGuard) (c : CapabilityClaims) (now e : ℕ)
    (a : Authorized)
    → now < e
    → Remembers c.nonce e g
    → (resolve targets g c now).1 ≡ ok a
    → ⊥
unfolding resolve
resolve_remembered targets g c now e a live h r =
    let kept = lookup-retain-some (λ _ expiry. ltb now expiry) c.nonce g.seen e h (ground arith) in
    ground arith

resolve-ok-Remembers :
    (targets : List (ResourceId × SocketAddr)) (g : ReplayGuard) (c : CapabilityClaims) (now : ℕ)
    (a : Authorized)
    → (resolve targets g c now).1 ≡ ok a
    → Remembers a.claims.nonce a.claims.expires_at (resolve targets g c now).0
unfolding resolve insert lookup
resolve-ok-Remembers targets g c now a r = ground arith

remove-NotRedeemed : (n now : ℕ) (m : List (ℕ × ℕ)) → All (λ e. e.0 ≡ n → e.1 ≤ now) (remove n m)
unfolding remove
remove-NotRedeemed n now [] = tt
remove-NotRedeemed n now ((j, x) ∷ m) = elim (Bool-cases (j == n)) [
  | inl hit ↦ rw hit (remove-NotRedeemed n now m)
  | inr miss ↦ rw miss (λ same. ground arith, remove-NotRedeemed n now m)
]

-- An entry that expires at once counts for nothing in the same second.
insert-NotRedeemed :
    (n now : ℕ) (m : List (ℕ × ℕ)) (e : ℕ) → e ≤ now → All (λ x. x.0 ≡ n → x.1 ≤ now) (insert n e m)
unfolding insert
insert-NotRedeemed n now m e h = (λ _. h, remove-NotRedeemed n now m)

-- The daemon over its lifetime: the requests in the order in which they take the guard's lock.
module _ (ed : Ed25519) (postcard : Postcard CapabilityClaims) (key me : KeyBytes) where
  abbrev pub answer : ReplayGuard → Incoming → ReplayGuard × Result Denied Authorized
  answer g r = authorize ed postcard r.token key me r.peer r.targets g r.now

  unfoldable pub guard_after : ReplayGuard → List Incoming → ReplayGuard
  guard_after g [] = g
  guard_after g (r ∷ rs) = guard_after (answer g r).0 rs

  answer-Remembers :
      (g : ReplayGuard) (r : Incoming) (n e : ℕ)
      → r.now < e
      → Remembers n e g
      → Remembers n e (answer g r).0
  answer-Remembers g r n e live h =
      elim (Result-cases (verify_for ed postcard r.token key me r.peer r.now)) [
        | inl (c, verified) ↦
            rw (authorize-verified ed postcard key me r.peer r.targets r.token g r.now c verified)
              (resolve-Remembers r.targets g c r.now n e live h)
        | inr (x, refused) ↦
            rw (authorize-unverified ed postcard key me r.peer r.targets r.token g r.now x refused)
              h
      ]

  guard_after-Remembers :
      (g : ReplayGuard) (rs : List Incoming) (n e : ℕ)
      → All (λ r. r.now < e) rs
      → Remembers n e g
      → Remembers n e (guard_after g rs)
  unfolding guard_after
  guard_after-Remembers g [] n e early h = h
  guard_after-Remembers g (r ∷ rs) n e early h =
      guard_after-Remembers (answer g r).0 rs n e early.1 (answer-Remembers g r n e early.0 h)

  answer-eq-ok :
      (g : ReplayGuard) (r : Incoming) (a : Authorized)
      → (answer g r).1 ≡ ok a
      → (c : CapabilityClaims) × (answer g r ≡ resolve r.targets g c r.now) × (a.claims ≡ c)
  answer-eq-ok g r a e =
      let h = (authorize-eq-ok_iff ed postcard key me r.peer r.targets r.token g r.now a).0 e in
      (
        a.claims,
        authorize-verified ed postcard key me r.peer r.targets r.token g r.now a.claims (
            (verify_for-eq-ok_iff ed postcard r.token key me r.peer r.now a.claims).1
              (h.attested, h.fits)),
        refl,
      )

  answer-ok-Remembers :
      (g : ReplayGuard) (r : Incoming) (a : Authorized)
      → (answer g r).1 ≡ ok a
      → Remembers a.claims.nonce a.claims.expires_at (answer g r).0
  answer-ok-Remembers g r a e =
      let (c, computed, same) = answer-eq-ok g r a e in
      rw computed (resolve-ok-Remembers r.targets g c r.now a (rw computed at e))

  answer_remembered :
      (g : ReplayGuard) (r : Incoming) (b : Authorized) (e : ℕ)
      → r.now < e
      → Remembers b.claims.nonce e g
      → (answer g r).1 ≡ ok b
      → ⊥
  answer_remembered g r b e live h o =
      let (c, computed, same) = answer-eq-ok g r b o in
      resolve_remembered r.targets g c r.now e b live (subst (λ d. Remembers d.nonce e g) same h)
        (rw computed at o)

  -- A nonce is redeemed at most once before the capability expires: after an authorized request,
  -- and any further requests at times before its expiry, no request at such a time is authorized
  -- with the same nonce, whatever its capability, peer and configuration.
  pub redeem_once :
      (g : ReplayGuard) (first : Incoming) (a : Authorized) (between : List Incoming)
      (again : Incoming) (b : Authorized)
      → (answer g first).1 ≡ ok a
      → All (λ r. r.now < a.claims.expires_at) between
      → again.now < a.claims.expires_at
      → (answer (guard_after (answer g first).0 between) again).1 ≡ ok b
      → b.claims.nonce ≢ a.claims.nonce
  redeem_once g first a between again b accepted early now repeated same =
      answer_remembered (guard_after (answer g first).0 between) again b a.claims.expires_at now
        (rw same (
          guard_after-Remembers (answer g first).0 between a.claims.nonce a.claims.expires_at early
            (answer-ok-Remembers g first a accepted)))
        repeated

  -- In the last second of its life, when the clock equals the expiry, a capability that is
  -- authorized is authorized again at once: its record is not kept beyond a lookup.
  pub replay_at_expiry :
      (g : ReplayGuard) (r : Incoming) (a : Authorized)
      → (answer g r).1 ≡ ok a
      → a.claims.expires_at ≡ r.now
      → (answer (answer g r).0 r).1 ≡ ok a
  replay_at_expiry g r a e last =
      let h = (authorize-eq-ok_iff ed postcard key me r.peer r.targets r.token g r.now a).0 e in
      let after = authorize_of_Justified ed postcard key me r.peer r.targets r.token g r.now a h in
      (authorize-eq-ok_iff ed postcard key me r.peer r.targets r.token (answer g r).0 r.now a).1
        (record {
          attested = h.attested;
          fits = h.fits;
          served = h.served;
          fresh = rw after (
              insert-NotRedeemed a.claims.nonce r.now (prune r.now g) a.claims.expires_at
                (omega arith));
        })
