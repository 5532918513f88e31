-- ===== src/Server/Api/Tunnels.antt =====
-- crates/devsite-server/src/api.rs: a browser's ticket, the tunnel session that a client gets for
-- it, and the capabilities that the session asks for. The generated tokens and nonces are arguments.
pub mod Laws
pub mod Accepted
pub mod Redeemed
pub mod Opened
use devsite.Prelude.{
  ℕ, ◌+◌, Bool, true, false, not, ◌&&◌, ◌||◌, Option, some, none, List, [], ◌∷◌, ◌++◌, Result, ok,
  err, ◌==◌, Text, text, length, strip_prefix, all, map_err, if◌then◌else◌,
}
use devsite.Proto.Crypto.{KeyBytes}
use devsite.Proto.Capability.{AccountId, ResourceId}
use devsite.Server.Auth.{is_allowed, utf8_len}
use devsite.Server.Env.{Env, parse_endpoint_id, parse_resource_id, resource_id_text}
use devsite.Server.Issuer.{Issuer, issued_text}
use devsite.Server.Relay.{RelayAccess}
use devsite.Server.Policy.{can_view}
use devsite.Server.RateLimits.{capability}
use devsite.Server.Db.Rows.{Db, Resource, TunnelRow, resource}
use devsite.Server.Db.Shares.{shared_with}
use devsite.Server.Db.Resources.{is_service}
use devsite.Server.Db.Machines.{daemon_endpoint}
use devsite.Server.Db.Tickets as Tickets
use devsite.Server.Db.Tickets.{tunnel_session, consume_connection_ticket}
use devsite.Server.Api.{
  Headers, Clock, Handler, ApiError, invalid_request, unauthorized, not_found, internal,
  unavailable, ◌>>=◌, ◌>>◌, return, lift, query, inserted, found_or, attempt, require, or_fail,
  bearer_token, require_browser_account, check_rate,
}

abbrev pub connection_ticket_lifetime_secs : ℕ
connection_ticket_lifetime_secs = 120

abbrev pub tunnel_session_lifetime_secs : ℕ
tunnel_session_lifetime_secs = 28800

abbrev pub connection_ticket_prefix : Text
connection_ticket_prefix = text "dst_"

abbrev pub tunnel_session_prefix : Text
tunnel_session_prefix = text "dss_"

-- The generated part follows the prefix.
abbrev pub prefixed_token : Text → Text → Text
prefixed_token prefix generated = prefix ++ generated

-- `token[prefix.len()..].bytes().all(…)` after `starts_with`.
abbrev pub all_allowed : Option Text → Bool
all_allowed none = false
all_allowed (some rest) = all is_allowed rest

unfoldable pub valid_prefixed_token : Text → Text → Bool
valid_prefixed_token token prefix =
    utf8_len token == utf8_len prefix + 43 && all_allowed (strip_prefix prefix token)

-- What a viewer may open: a service that the policy shows.
unfoldable pub may_open : AccountId → Resource → Db → Bool
may_open viewer r db =
    is_service r.kind && can_view (some viewer) r.owner_id r.visibility (shared_with r.id db)

pub record ConnectionTicketResponse : Type 0 where
  pub ticket : Text
  pub expires_at : ℕ

pub record RedeemTicketRequest : Type 0 where
  pub ticket : Text
  pub client_endpoint_id : Text

pub record RedeemTicketResponse : Type 0 where
  pub session_token : Text
  pub relay_access : RelayAccess
  pub resource_id : Text
  pub name : Text
  pub expires_at : ℕ

pub record CapabilityResponse : Type 0 where
  pub capability : Text
  pub daemon_endpoint_id : Text

pub record TunnelSessionInfo : Type 0 where
  pub resource_id : Text
  pub name : Text
  pub requester_endpoint_id : Text
  pub relay_access : RelayAccess
  pub expires_at : ℕ
  pub brokered : Bool

abbrev pub is_some : Option Text → Bool
is_some none = false
is_some (some _) = true

-- The stored resource is read by the identifier that names it, so `r.id` is that identifier.
module _ (env : Env) where
  unfoldable pub create_connection_ticket :
      Clock → Headers → Text → Text → Handler ConnectionTicketResponse
  create_connection_ticket clock headers id generated = do
    viewer ← require_browser_account env clock headers
    check_rate clock viewer capability
    resource_id ← or_fail (parse_resource_id env id) not_found
    found ← query (λ db. resource db resource_id)
    r ← or_fail found not_found
    visible ← query (may_open viewer r)
    require visible not_found
    attempt (λ db. inserted (
        Tickets.create_connection_ticket
          (env.hash_token (prefixed_token connection_ticket_prefix generated)) viewer resource_id
          clock.now (clock.now + connection_ticket_lifetime_secs) db))
    return (record {
      ticket = prefixed_token connection_ticket_prefix generated;
      expires_at = clock.now + connection_ticket_lifetime_secs;
    })

  -- What happens under the lock: the ticket is consumed, and a session stands for it.
  unfoldable pub exchange : Clock → Text → KeyBytes → Text → Handler Resource
  exchange clock ticket client_key session_token = do
    consumed ← attempt (λ db.
        found_or unauthorized (consume_connection_ticket (env.hash_token ticket) clock.now db))
    found ← query (λ db. resource db consumed.1)
    r ← or_fail found unauthorized
    visible ← query (may_open consumed.0 r)
    require visible unauthorized
    attempt (λ db. inserted (
        Tickets.create_tunnel_session (env.hash_token session_token) consumed.0 consumed.1
          (env.hex.encode client_key) clock.now (clock.now + tunnel_session_lifetime_secs) db))
    return r

  -- `relay_access` is `RelayConfig::access` of the server's relay configuration.
  unfoldable pub redeem_connection_ticket :
      (KeyBytes → Option RelayAccess)
      → Clock
      → RedeemTicketRequest
      → Text
      → Handler RedeemTicketResponse
  redeem_connection_ticket relay_access clock body generated = do
    require (valid_prefixed_token body.ticket connection_ticket_prefix) unauthorized
    client_key ← or_fail (parse_endpoint_id env body.client_endpoint_id) invalid_request
    r ← exchange clock body.ticket client_key (prefixed_token tunnel_session_prefix generated)
    relay ← or_fail (relay_access client_key) internal
    return (record {
      session_token = prefixed_token tunnel_session_prefix generated;
      relay_access = relay;
      resource_id = resource_id_text env r.id;
      name = r.name;
      expires_at = clock.now + tunnel_session_lifetime_secs;
    })

  -- The session that a bearer token stands for.
  unfoldable pub bearer_session : ℕ → Headers → Handler TunnelRow
  bearer_session now headers = do
    token ← or_fail (bearer_token headers) unauthorized
    require (valid_prefixed_token token tunnel_session_prefix) unauthorized
    session ← query (tunnel_session (env.hash_token token) now)
    or_fail session unauthorized

  -- The service of a session and its daemon, read under the lock.
  unfoldable pub session_service : TunnelRow → Handler (Resource × Option Text)
  session_service session = do
    found ← query (λ db. resource db session.resource_id)
    r ← or_fail found not_found
    shared ← query (shared_with session.resource_id)
    require (can_view (some session.viewer_id) r.owner_id r.visibility shared) not_found
    require (is_service r.kind) invalid_request
    query (λ db. (r, daemon_endpoint r.owner_id db))

  -- What follows when the lock is released.
  unfoldable pub issue_for :
      Issuer → Clock → ℕ → TunnelRow → Resource × Option Text → Handler CapabilityResponse
  issue_for issuer clock nonce session (r, registered) = do
    check_rate clock session.viewer_id capability
    client_key ← or_fail (parse_endpoint_id env session.client_endpoint_id) internal
    endpoint_id ← or_fail registered unavailable
    audience ← or_fail (parse_endpoint_id env endpoint_id) internal
    token ← lift (
        map_err (issued_text env issuer session.viewer_id r.id audience client_key nonce clock.now)
          internal)
    return (record { capability = token; daemon_endpoint_id = endpoint_id })

  unfoldable pub tunnel_capability : Issuer → Clock → Headers → ℕ → Handler CapabilityResponse
  tunnel_capability issuer clock headers nonce = do
    session ← bearer_session clock.now headers
    found ← session_service session
    issue_for issuer clock nonce session found

  unfoldable pub tunnel_session_info :
      (KeyBytes → Option RelayAccess) → Clock → Headers → Handler TunnelSessionInfo
  tunnel_session_info relay_access clock headers = do
    session ← bearer_session clock.now headers
    found ← query (λ db. resource db session.resource_id)
    r ← or_fail found unauthorized
    visible ← query (may_open session.viewer_id r)
    require visible unauthorized
    client_key ← or_fail (parse_endpoint_id env session.client_endpoint_id) internal
    relay ← or_fail (relay_access client_key) internal
    return (record {
      resource_id = resource_id_text env r.id;
      name = r.name;
      requester_endpoint_id = session.client_endpoint_id;
      relay_access = relay;
      expires_at = session.expires_at;
      brokered = is_some session.issuer_credential_id;
    })

  unfoldable pub delete_tunnel_session : Headers → Handler (Unit {0})
  delete_tunnel_session headers = do
    token ← or_fail (bearer_token headers) unauthorized
    require (valid_prefixed_token token tunnel_session_prefix) unauthorized
    attempt (λ db. ((Tickets.delete_tunnel_session (env.hash_token token) db).0, ok tt))
