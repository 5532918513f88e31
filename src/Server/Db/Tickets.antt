-- ===== src/Server/Db/Tickets.antt =====
-- crates/devsite-server/src/db.rs: connection tickets, tunnel sessions and browser sessions. A
-- token is stored as its hash.
pub mod Laws
pub mod Broker
use devsite.Prelude.{
  ℕ, Bool, true, false, not, ◌&&◌, ◌||◌, Option, some, none, List, [], ◌∷◌, ◌++◌, ◌==◌, Text, find,
  filter, length, list_eq, if◌then◌else◌, any, ltb, leb,
}
use devsite.Proto.Capability.{AccountId, ResourceId}
use devsite.Server.Db.Rows.{
  Db, SessionRow, TicketRow, TunnelRow, MachineRow, AccountRow, has_account, has_resource,
  account_by_id,
}
use devsite.Server.Db.Shares.{references}

-- `token_hash = ?1 AND expires_at > ?2`.
abbrev pub is_live : ℕ → ℕ → TicketRow → Bool
is_live token_hash now t = t.token_hash == token_hash && ltb now t.expires_at

unfoldable pub purge_tickets : ℕ → List TicketRow → List TicketRow
purge_tickets now [] = []
purge_tickets now (t ∷ ts) =
    let rest = purge_tickets now ts in if leb t.expires_at now then rest else t ∷ rest

-- The two statements of `create_connection_ticket`; `false` is a failed insertion, which leaves the
-- expired tickets removed.
unfoldable pub create_connection_ticket : ℕ → AccountId → ResourceId → ℕ → ℕ → Db → Db × Bool
create_connection_ticket token_hash viewer resource now expires_at db =
    let tickets = purge_tickets now db.connection_tickets in
    if references resource viewer db && not (any (λ t. t.token_hash == token_hash) tickets)
    then (record db { connection_tickets = created ∷ tickets }, true)
    else (record db { connection_tickets = tickets }, false)
  where
    created : TicketRow
    created = record {
      token_hash = token_hash;
      viewer_id = viewer;
      resource_id = resource;
      expires_at = expires_at;
    }

unfoldable pub drop_live : ℕ → ℕ → List TicketRow → List TicketRow
drop_live token_hash now [] = []
drop_live token_hash now (t ∷ ts) =
    let rest = drop_live token_hash now ts in if is_live token_hash now t then rest else t ∷ rest

unfoldable pub live_ticket : ℕ → ℕ → List TicketRow → Option (AccountId × ResourceId)
live_ticket token_hash now [] = none
live_ticket token_hash now (t ∷ ts) =
    let rest = live_ticket token_hash now ts in
    if is_live token_hash now t then some (t.viewer_id, t.resource_id) else rest

-- `DELETE … RETURNING viewer_id, resource_id`.
unfoldable pub consume_connection_ticket : ℕ → ℕ → Db → Db × Option (AccountId × ResourceId)
consume_connection_ticket token_hash now db = (
  record db { connection_tickets = drop_live token_hash now db.connection_tickets },
  live_ticket token_hash now db.connection_tickets,
)

unfoldable pub purge_tunnels : ℕ → List TunnelRow → List TunnelRow
purge_tunnels now [] = []
purge_tunnels now (t ∷ ts) =
    let rest = purge_tunnels now ts in if leb t.expires_at now then rest else t ∷ rest

abbrev pub has_tunnel : ℕ → List TunnelRow → Bool
has_tunnel token_hash ts = any (λ t. t.token_hash == token_hash) ts

-- `false` is a failed insertion, which leaves the expired sessions removed.
unfoldable pub create_tunnel_session : ℕ → AccountId → ResourceId → Text → ℕ → ℕ → Db → Db × Bool
create_tunnel_session token_hash viewer resource client_endpoint_id now expires_at db =
    let tunnels = purge_tunnels now db.tunnel_sessions in
    if references resource viewer db && not (has_tunnel token_hash tunnels)
    then (record db { tunnel_sessions = created ∷ tunnels }, true)
    else (record db { tunnel_sessions = tunnels }, false)
  where
    created : TunnelRow
    created = record {
      token_hash = token_hash;
      viewer_id = viewer;
      resource_id = resource;
      client_endpoint_id = client_endpoint_id;
      expires_at = expires_at;
      issuer_credential_id = none;
      grant_request_id = none;
    }

-- The unique index on `grant_request_id`.
unfoldable pub request_is : Text → Option Text → Bool
unfolding list_eq
request_is request none = false
request_is request (some r) = list_eq r request

unfoldable pub has_request : Text → List TunnelRow → Bool
has_request request ts = any (λ t. request_is request t.grant_request_id) ts

unfoldable pub has_credential : Text → List MachineRow → Bool
unfolding list_eq
has_credential id rows = any (λ m. list_eq m.id id) rows

-- `INSERT OR IGNORE`: a taken token or request inserts nothing and answers `false`; a missing
-- reference fails, which is `none`.
unfoldable pub create_broker_tunnel_session :
    ℕ → AccountId → ResourceId → Text → Text → Text → ℕ → ℕ → Db → Db × Option Bool
create_broker_tunnel_session token_hash viewer resource client_endpoint_id issuer_credential_id
      grant_request_id now expires_at db =
    let tunnels = purge_tunnels now db.tunnel_sessions in
    if has_tunnel token_hash tunnels || has_request grant_request_id tunnels
    then (record db { tunnel_sessions = tunnels }, some false)
    else if references resource viewer db
        && has_credential issuer_credential_id db.machine_credentials
    then (record db { tunnel_sessions = created ∷ tunnels }, some true)
    else (record db { tunnel_sessions = tunnels }, none)
  where
    created : TunnelRow
    created = record {
      token_hash = token_hash;
      viewer_id = viewer;
      resource_id = resource;
      client_endpoint_id = client_endpoint_id;
      expires_at = expires_at;
      issuer_credential_id = some issuer_credential_id;
      grant_request_id = some grant_request_id;
    }

unfoldable pub active_broker_grant_count : Text → ℕ → Db → ℕ
active_broker_grant_count credential_id now db = length (
    filter (λ t. request_is credential_id t.issuer_credential_id && ltb now t.expires_at)
      db.tunnel_sessions)

unfoldable pub tunnel_session : ℕ → ℕ → Db → Option TunnelRow
tunnel_session token_hash now db =
    find (λ t. t.token_hash == token_hash && ltb now t.expires_at) db.tunnel_sessions

unfoldable pub delete_tunnel_session : ℕ → Db → Db × Bool
delete_tunnel_session token_hash db = (
  record db { tunnel_sessions = filter (λ t. not (t.token_hash == token_hash)) db.tunnel_sessions },
  has_tunnel token_hash db.tunnel_sessions,
)

unfoldable pub session_account : ℕ → ℕ → Db → Option AccountRow
session_account token_hash now db =
    elim (find (λ s. s.token_hash == token_hash && ltb now s.expires_at) db.sessions) [
      | none ↦ none
      | some s ↦ account_by_id db s.account_id
    ]

unfoldable pub purge_expired_sessions : ℕ → Db → Db
purge_expired_sessions now db = record db {
  sessions = filter (λ s. not (leb s.expires_at now)) db.sessions;
}

unfoldable pub delete_session : ℕ → Db → Db × Bool
delete_session token_hash db = (
  record db { sessions = filter (λ s. not (s.token_hash == token_hash)) db.sessions },
  any (λ s. s.token_hash == token_hash) db.sessions,
)
