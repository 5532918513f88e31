-- ===== src/Server/Api/Tunnels/Laws.antt =====
-- The path of a capability: crates/devsite-server/src/api.rs issues it for a tunnel session, and the
-- daemon of crates/devsite-daemon/src/verify.rs takes it.
use mathlib.Core.Path.{subst}
use devsite.Prelude.{
  ℕ, ◌≡◌, true, Option, some, none, ok, arith, Text, map_err, map_err-eq-ok, sym, ◌∙◌, ap,
}
use devsite.Proto.Crypto.{KeyBytes}
use devsite.Proto.Capability.{ResourceId, CapabilityClaims}
use devsite.Server.Env.{Env, parse_endpoint_id}
use devsite.Server.Issuer.{Issuer, issued_claims, issued_text}
use devsite.Server.Issuer.Laws.{Carries, issued_text-Carries}
use devsite.Server.Policy.{can_view}
use devsite.Server.RateLimits.{capability}
use devsite.Server.Db.Rows.{Db, Resource, TunnelRow, resource}
use devsite.Server.Db.Shares.{shared_with}
use devsite.Server.Db.Resources.{is_service}
use devsite.Server.Db.Machines.{daemon_endpoint}
use devsite.Server.Db.Tickets.{tunnel_session}
use devsite.Server.Api.{
  AppState, Headers, Clock, bearer_token, internal, unauthorized, not_found, invalid_request,
  unavailable, Handler, ◌>>=◌, or_fail,
}
use devsite.Server.Api.Steps.{
  or_fail-eq-ok, query-eq-ok, lift-eq-ok, require-eq-ok, check_rate-eq-ok, >>=-eq-ok, counted,
}
use devsite.Server.Api.Tunnels.{
  CapabilityResponse, tunnel_capability, bearer_session, session_service, issue_for,
  valid_prefixed_token, tunnel_session_prefix,
}

module _ (env : Env) where
  -- The bearer of a request holds the token of a live tunnel session.
  pub record Bears (now : ℕ) (headers : Headers) (session : TunnelRow) (db : Db) : Type 0 where
    pub token : Text
    pub sent : bearer_token headers ≡ some token
    pub well_formed : valid_prefixed_token token tunnel_session_prefix ≡ true
    pub live : tunnel_session (env.hash_token token) now db ≡ some session

  pub bearer_session-eq-ok :
      (now : ℕ) (headers : Headers) (s : AppState) {t : AppState} {session : TunnelRow}
      → bearer_session env now headers s ≡ (t, ok session)
      → (t ≡ s) × Bears now headers session s.db
  unfolding bearer_session
  bearer_session-eq-ok now headers s {t} {session} e =
      let (token, sent, e1) = or_fail-eq-ok (bearer_token headers) unauthorized _ s e in
      let (valid, e2) =
        require-eq-ok (valid_prefixed_token token tunnel_session_prefix) unauthorized _ s e1 in
      let (found, e3) =
        found_session (tunnel_session (env.hash_token token) now s.db)
          (query-eq-ok (tunnel_session (env.hash_token token) now) _ s e2) in
      (e3, record { token = token; sent = sent; well_formed = valid; live = found })
    where
      found_session :
          (o : Option TunnelRow)
          → or_fail o unauthorized s ≡ (t, ok session)
          → (o ≡ some session) × (t ≡ s)
      found_session none e = cc
      found_session (some a) e = ground arith

  -- A request of a tunnel session goes on with the session, in the state that it began in.
  pub after_bearer {ℓ} :
      {B : Type ℓ} (now : ℕ) (headers : Headers) (next : TunnelRow → Handler B) (s : AppState)
      {t : AppState} {b : B}
      → (bearer_session env now headers >>= next) s ≡ (t, ok b)
      → (session : TunnelRow) × Bears now headers session s.db × (next session s ≡ (t, ok b))
  after_bearer now headers next s e =
      let (session, u, opened, e1) = >>=-eq-ok (bearer_session env now headers) next s e in
      let (same, borne) = bearer_session-eq-ok now headers s opened in
      (session, borne, sym (ap (next session) same) ∙ e1)

  -- A service that the policy shows to the viewer of a session, and the daemon registered for it.
  pub record Shows (db : Db) (session : TunnelRow) (r : Resource) (registered : Option Text)
      : Type 0 where
    pub stored : resource db session.resource_id ≡ some r
    pub visible :
        can_view
          (some session.viewer_id)
          r.owner_id
          r.visibility
          (shared_with session.resource_id db)
        ≡ true
    pub serves : is_service r.kind ≡ true
    pub registration : registered ≡ daemon_endpoint r.owner_id db

  session_service-eq-ok :
      (session : TunnelRow) (s : AppState) {t : AppState} (r : Resource) (registered : Option Text)
      → session_service env session s ≡ (t, ok (r, registered))
      → (t ≡ s) × Shows s.db session r registered
  unfolding session_service
  session_service-eq-ok session s {t} r registered e =
      let (r', stored, e2) =
        or_fail-eq-ok (resource s.db session.resource_id) not_found _ s
          (query-eq-ok (λ db. resource db session.resource_id) _ s e) in
      let (visible, e3) =
        require-eq-ok
          (can_view (some session.viewer_id) r'.owner_id r'.visibility
            (shared_with session.resource_id s.db))
          not_found _ s (query-eq-ok (shared_with session.resource_id) _ s e2) in
      let (serves, e4) = require-eq-ok (is_service r'.kind) invalid_request _ s e3 in
      (
        ground arith,
        subst (λ x. Shows s.db session x registered) (ground arith)
            (record {
              stored = stored;
              visible = visible;
              serves = serves;
              registration = ground arith;
            }),
      )

  -- What is issued for a session and a service.
  pub record Issues (issuer : Issuer) (clock : Clock) (nonce : ℕ) (session : TunnelRow)
      (r : Resource) (registered : Option Text) (response : CapabilityResponse) : Type 0 where
    pub audience : KeyBytes
    pub peer : KeyBytes
    pub named : registered ≡ some response.daemon_endpoint_id
    pub addressed : parse_endpoint_id env response.daemon_endpoint_id ≡ some audience
    pub bound : parse_endpoint_id env session.client_endpoint_id ≡ some peer
    pub carried :
        Carries env issuer
          (issued_claims env issuer session.viewer_id r.id audience peer nonce clock.now)
          response.capability

  issue_for-Issues :
      (issuer : Issuer) (clock : Clock) (nonce : ℕ) (session : TunnelRow) (r : Resource)
      (registered : Option Text) (s : AppState) {t : AppState} (response : CapabilityResponse)
      → issue_for env issuer clock nonce session (r, registered) s ≡ (t, ok response)
      → Issues issuer clock nonce session r registered response
  unfolding issue_for
  issue_for-Issues issuer clock nonce session r registered s response e =
      let (_, e5) = check_rate-eq-ok clock session.viewer_id capability _ s e in
      let u = counted clock session.viewer_id capability s in
      let (peer, bound, e6) =
        or_fail-eq-ok (parse_endpoint_id env session.client_endpoint_id) internal _ u e5 in
      let (endpoint, named, e7) = or_fail-eq-ok registered unavailable _ u e6 in
      let (audience, addressed, e8) =
        or_fail-eq-ok (parse_endpoint_id env endpoint) internal _ u e7 in
      let (token, printed, e9) =
        lift-eq-ok
          (map_err (issued_text env issuer session.viewer_id r.id audience peer nonce clock.now)
            internal)
          _ u e8 in
      let same : record { capability = token; daemon_endpoint_id = endpoint } ≡ response =
        ground arith in
      subst (Issues issuer clock nonce session r registered) same (record {
        audience = audience;
        peer = peer;
        named = named;
        addressed = addressed;
        bound = bound;
        carried =
            issued_text-Carries env issuer session.viewer_id r.id audience peer nonce clock.now
              token (map_err-eq-ok _ internal printed);
      })

  -- The claims that are issued for a session.
  abbrev pub granted_claims :
      Issuer → Clock → ℕ → TunnelRow → ResourceId → KeyBytes → KeyBytes → CapabilityClaims
  granted_claims issuer clock nonce session id audience peer =
      issued_claims env issuer session.viewer_id id audience peer nonce clock.now

  -- A capability is issued only for the token of a live tunnel session whose viewer the policy
  -- still shows the session's service. It is for the daemon that the service's owner registered
  -- and for the client that the session is bound to, and whoever decodes it verifies it exactly
  -- where those claims fit.
  pub tunnel_capability-Issues :
      (issuer : Issuer) (clock : Clock) (headers : Headers) (nonce : ℕ) (s : AppState)
      (t : AppState) (response : CapabilityResponse)
      → tunnel_capability env issuer clock headers nonce s ≡ (t, ok response)
      → (session : TunnelRow) × (r : Resource) × Bears clock.now headers session s.db
        × Shows s.db session r (daemon_endpoint r.owner_id s.db)
        × Issues issuer clock nonce session r (daemon_endpoint r.owner_id s.db) response
  unfolding tunnel_capability
  tunnel_capability-Issues issuer clock headers nonce s t response e =
      let (session, borne, e1) = after_bearer clock.now headers _ s e in
      let ((r, registered), u, served, e2) = >>=-eq-ok (session_service env session) _ s e1 in
      let (same, shows) = session_service-eq-ok session s r registered served in
      let issues = issue_for-Issues issuer clock nonce session r registered u response e2 in
      (
        session,
        r,
        borne,
        subst (Shows s.db session r) shows.registration shows,
        subst (λ o. Issues issuer clock nonce session r o response) shows.registration issues,
      )
