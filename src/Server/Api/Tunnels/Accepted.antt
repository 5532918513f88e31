-- ===== src/Server/Api/Tunnels/Accepted.antt =====
-- A capability from crates/devsite-server/src/api.rs at the daemon of
-- crates/devsite-daemon/src/verify.rs.
use mathlib.Core.Path.{subst}
use devsite.Prelude.{
  ℕ, ◌≡◌, ◌≤◌, ◌+◌, refl, sym, ◌∙◌, ap, some, ◌==◌, List, ok, arith, Text, find-any, Option, ==_iff,
}
use devsite.Prelude.Words.{u64_max}
use devsite.Prelude.Map.{lookup, insert}
use devsite.Proto.Crypto.{KeyBytes}
use devsite.Proto.Capability.{ResourceId, SignedCapability, default_lifetime_secs}
use devsite.Proto.Capability.Laws.{check_context_of_FitsContext}
use devsite.Daemon.Verify.{SocketAddr, ReplayGuard, prune, authorize}
use devsite.Daemon.Verify.Laws.{
  NotRedeemed, lookup-prune_of_NotRedeemed, resolve_of_fresh, authorize-verified,
}
use devsite.Server.Env.{Env, parse_endpoint_id}
use devsite.Server.Issuer.{Issuer, issued_claims, verifying_key}
use devsite.Server.Issuer.Laws.{Carries}
use devsite.Server.Db.Rows.{Db, Resource, TunnelRow, resource}
use devsite.Server.Db.Tickets.{tunnel_session}
use devsite.Server.Api.{AppState, Headers, Clock}
use devsite.Server.Api.Tunnels.{CapabilityResponse, tunnel_capability}
use devsite.Server.Api.Tunnels.Laws.{Bears, tunnel_capability-Issues}

some-injective {ℓ} : {A : Type ℓ} {a b : A} → ◌≡◌ {A = Option A} (some a) (some b) → a ≡ b
some-injective e = cc

pub resource_has_id :
    (db : Db) (id : ResourceId) (r : Resource) → resource db id ≡ some r → r.id ≡ id
unfolding resource
resource_has_id db id r e = (==_iff r.id id).0 (find-any (λ x. x.id == id) db.resources e)

module _ (env : Env) (issuer : Issuer) where
  Bears-unique :
      (now : ℕ) (headers : Headers) (db : Db) (a b : TunnelRow)
      → Bears env now headers a db
      → Bears env now headers b db
      → a ≡ b
  Bears-unique now headers db a b h k = some-injective (
      sym h.live
      ∙ ap (λ x. tunnel_session (env.hash_token x) now db) (some-injective (sym h.sent ∙ k.sent))
      ∙ k.live)

  module _ (targets : List (ResourceId × SocketAddr)) (g : ReplayGuard) (now : ℕ)
      (target : SocketAddr) where
    -- A daemon takes what verifies as its claims, while they last.
    authorize_carried :
        (id me peer viewer nonce issued_at : ℕ) (text : Text)
        (c : Carries env issuer (issued_claims env issuer viewer id me peer nonce issued_at) text)
        → issued_at ≤ now
        → now ≤ issued_at + default_lifetime_secs
        → now ≤ u64_max
        → lookup id targets ≡ some target
        → NotRedeemed nonce g now
        → authorize env.ed env.claims_codec c.token (verifying_key env issuer) me peer targets g now
          ≡ (
            record { seen = insert nonce (issued_at + default_lifetime_secs) (prune now g) },
            ok (record {
              claims = issued_claims env issuer viewer id me peer nonce issued_at;
              target = target;
            }),
          )
    unfolding issued_claims
    authorize_carried id me peer viewer nonce issued_at text c begun lasts bounded found fresh =
        let claims = issued_claims env issuer viewer id me peer nonce issued_at in
        authorize-verified env.ed env.claims_codec (verifying_key env issuer) me peer targets
          c.token g now claims
          (c.verified me peer now
            ∙ check_context_of_FitsContext me peer now claims
                (record { addressed = refl; bound = refl; unexpired = lasts; begun = omega arith }))
        ∙ resolve_of_fresh targets g claims now target found
            (lookup-prune_of_NotRedeemed nonce now g.seen fresh)

    -- A capability that the server has issued for a tunnel session is accepted: a client that
    -- decodes the answer and presents the capability within its lifetime, from the endpoint of the
    -- session and at the daemon that the answer names, is authorized for the session's resource
    -- where that daemon serves it, unless the nonce has been used there.
    pub authorize-tunnel_capability :
        (clock : Clock) (headers : Headers) (nonce : ℕ) (s t : AppState)
        (response : CapabilityResponse) (session : TunnelRow) (me peer : KeyBytes)
        → tunnel_capability env issuer clock headers nonce s ≡ (t, ok response)
        → Bears env clock.now headers session s.db
        → parse_endpoint_id env response.daemon_endpoint_id ≡ some me
        → parse_endpoint_id env session.client_endpoint_id ≡ some peer
        → clock.now ≤ now
        → now ≤ clock.now + default_lifetime_secs
        → now ≤ u64_max
        → lookup session.resource_id targets ≡ some target
        → NotRedeemed nonce g now
        → (token : SignedCapability) × (bytes : List ℕ) × (env.base64url.decode response.capability
            ≡ some bytes)
          × (env.capability_codec.from_bytes bytes ≡ some token)
          × (authorize env.ed env.claims_codec token
                (verifying_key env issuer)
                me
                peer
                targets
                g
                now
              ≡ (
                record { seen = insert nonce (clock.now + default_lifetime_secs) (prune now g) },
                ok (record {
                  claims =
                      issued_claims env issuer session.viewer_id session.resource_id me peer nonce
                        clock.now;
                  target = target;
                }),
              ))
    authorize-tunnel_capability clock headers nonce s t response session me peer e bears named bound
          begun lasts bounded found fresh =
        let (session', r, bears', shows, issues) =
          tunnel_capability-Issues env issuer clock headers nonce s t response e in
        let same = Bears-unique clock.now headers s.db session' session bears' bears in
        let id : r.id ≡ session.resource_id =
          resource_has_id s.db session'.resource_id r shows.stored ∙ ap (λ x. x.resource_id) same in
        let daemon : issues.audience ≡ me = some-injective (sym issues.addressed ∙ named) in
        let client : issues.peer ≡ peer =
          some-injective (
            sym issues.bound ∙ ap (λ x. parse_endpoint_id env x.client_endpoint_id) same ∙ bound) in
        let viewer : session'.viewer_id ≡ session.viewer_id = ap (λ x. x.viewer_id) same in
        let c : Carries env issuer
            (issued_claims env issuer session.viewer_id session.resource_id me peer nonce clock.now)
            response.capability =
          subst (λ x. Carries env issuer x response.capability)
            (λ i. issued_claims env issuer (viewer i) (id i) (daemon i) (client i) nonce clock.now)
            issues.carried in
        (
          c.token,
          c.bytes,
          c.decoded,
          c.read,
          authorize_carried session.resource_id me peer session.viewer_id nonce clock.now
              response.capability c begun lasts bounded found fresh,
        )
