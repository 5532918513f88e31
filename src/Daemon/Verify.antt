-- ===== src/Daemon/Verify.antt =====
-- crates/devsite-daemon/src/verify.rs: whether a daemon honours a request. The replay guard is the
-- state that `authorize` passes on; time is an argument of each call.
pub mod Replay
pub mod Laws
use devsite.Prelude.{
  ℕ, ◌≡◌, Bool, true, false, Option, some, none, List, [], ◌∷◌, Result, ok, err, ltb, length,
}
use devsite.Prelude.Map.{lookup, insert, retain}
use devsite.Proto.Crypto.{KeyBytes, Ed25519, Postcard}
use devsite.Proto.Capability.{
  CapabilityClaims, SignedCapability, Permission, tcp_connect, ResourceId, verify_for,
}

-- `std::net::SocketAddr`.
pub record SocketAddr : Type 0 where
  pub ip : ℕ
  pub port : ℕ

pub record Authorized : Type 0 where
  pub claims : CapabilityClaims
  pub target : SocketAddr

pub data Denied : Type 0 where
  capability unknown_resource replayed : Denied

pub record ReplayGuard : Type 0 where
  pub seen : List (ℕ × ℕ)

abbrev pub new_guard : ReplayGuard
new_guard = record { seen = [] }

abbrev pub len : ReplayGuard → ℕ
len guard = length guard.seen

abbrev pub is_empty : ReplayGuard → Bool
is_empty guard = elim guard.seen [ [] ↦ true | _ ∷ _ ↦ false ]

-- The entries that `retain` keeps: `*expiry > now`.
abbrev pub prune : ℕ → ReplayGuard → List (ℕ × ℕ)
prune now guard = retain (λ _ expiry. ltb now expiry) guard.seen

-- Record a nonce; `false` if it had already been used.
unfoldable pub admit : ReplayGuard → ℕ → ℕ → ℕ → ReplayGuard × Bool
admit guard nonce expires_at now = elim (lookup nonce (prune now guard)) [
  | some _ ↦ (record { seen = prune now guard }, false)
  | none ↦ (record { seen = insert nonce expires_at (prune now guard) }, true)
]

-- The last step of `authorize`: the nonce is consumed only when all else has passed.
unfoldable pub redeem :
    ReplayGuard → CapabilityClaims → SocketAddr → ℕ → ReplayGuard × Result Denied Authorized
unfolding admit
redeem guard claims target now =
    let (guard', fresh) = admit guard claims.nonce claims.expires_at now in
    elim fresh [
      | true ↦ (guard', ok (record { claims = claims; target = target }))
      | false ↦ (guard', err replayed)
    ]

unfoldable pub resolve :
    List (ResourceId × SocketAddr)
    → ReplayGuard
    → CapabilityClaims
    → ℕ
    → ReplayGuard × Result Denied Authorized
unfolding redeem
resolve targets guard claims now = elim claims.permission [
  | tcp_connect ↦ elim (lookup claims.resource targets) [
    | none ↦ (guard, err unknown_resource)
    | some target ↦ redeem guard claims target now
  ]
]

module _ (ed : Ed25519) (postcard : Postcard CapabilityClaims) where
  unfoldable pub authorize :
      SignedCapability
      → KeyBytes
      → KeyBytes
      → KeyBytes
      → List (ResourceId × SocketAddr)
      → ReplayGuard
      → ℕ
      → ReplayGuard × Result Denied Authorized
  unfolding resolve
  authorize token control_plane_key my_endpoint peer targets guard now =
      elim (verify_for ed postcard token control_plane_key my_endpoint peer now) [
        | err _ ↦ (guard, err capability)
        | ok claims ↦ resolve targets guard claims now
      ]
