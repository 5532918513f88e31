-- ===== src/Server/Api/Tunnels/Redeemed.antt =====
-- A browser's ticket and the tunnel session that replaces it: crates/devsite-server/src/api.rs.
use devsite.Prelude.{
  ℕ, ◌≡◌, ◌≤◌, ◌<◌, ◌+◌, refl, sym, ◌∙◌, ap, some, none, true, [], ◌∷◌, List, ok, arith, Text,
  Option,
}
use devsite.Proto.Crypto.{KeyBytes}
use devsite.Proto.Capability.{AccountId, ResourceId}
use devsite.Server.Env.{Env, parse_endpoint_id}
use devsite.Server.Relay.{RelayAccess}
use devsite.Server.Db.Rows.{Db, Resource, TicketRow, TunnelRow, resource}
use devsite.Server.Db.Shares.{shared_with}
use devsite.Server.Db.Tickets as Tickets
use devsite.Server.Db.Tickets.{
  is_live, drop_live, live_ticket, consume_connection_ticket, session_account, purge_tickets,
  purge_tunnels, has_tunnel, tunnel_session,
}
use devsite.Server.Api.{
  AppState, found_or, inserted, Clock, unauthorized, invalid_request, internal,
}
use devsite.Server.Api.Steps.{
  >>=-eq-ok, inserted-eq-ok, found_or-eq-ok, or_fail-eq-ok, query-eq-ok, require-eq-ok,
  attempt-eq-ok,
}
use devsite.Server.Api.Tunnels.{
  connection_ticket_prefix, tunnel_session_prefix, tunnel_session_lifetime_secs, prefixed_token,
  valid_prefixed_token, may_open, RedeemTicketRequest, RedeemTicketResponse,
  redeem_connection_ticket, exchange,
}

live_ticket-drop_live :
    (h now later : ℕ) (ts : List TicketRow)
    → now ≤ later
    → live_ticket h later (drop_live h now ts) ≡ none
unfolding live_ticket drop_live
live_ticket-drop_live h now later [] le = refl
live_ticket-drop_live h now later (t ∷ ts) le =
    ground (arith, live_ticket-drop_live h now later ts le)

-- The row that a redemption inserts.
abbrev pub session_row : ℕ → AccountId → ResourceId → Text → ℕ → TunnelRow
session_row token_hash viewer id endpoint expires_at = record {
  token_hash = token_hash;
  viewer_id = viewer;
  resource_id = id;
  client_endpoint_id = endpoint;
  expires_at = expires_at;
  issuer_credential_id = none;
  grant_request_id = none;
}

abbrev with_session : TunnelRow → ℕ → Db → Db
with_session row now db = record db { tunnel_sessions = row ∷ purge_tunnels now db.tunnel_sessions }

abbrev with_db : AppState → Db → AppState
with_db s db = record s { db = db }

create_tunnel_session-true :
    (h : ℕ) (v : AccountId) (id : ResourceId) (c : Text) (now later : ℕ) (db : Db) {db1 : Db}
    → Tickets.create_tunnel_session h v id c now later db ≡ (db1, true)
    → db1 ≡ with_session (session_row h v id c later) now db
unfolding Tickets.create_tunnel_session
create_tunnel_session-true h v id c now later db e = ground arith

consume_connection_ticket-some :
    (h now : ℕ) (db : Db) {db1 : Db} {found : AccountId × ResourceId}
    → consume_connection_ticket h now db ≡ (db1, some found)
    → (db1 ≡ record db { connection_tickets = drop_live h now db.connection_tickets })
      × (live_ticket h now db.connection_tickets ≡ some found)
unfolding consume_connection_ticket
consume_connection_ticket-some h now db e = (sym (ap (λ p. p.0) e), ap (λ p. p.1) e)

module _ (env : Env) (clock : Clock) where
  -- The ticket was live, and its holder may open the service that it names.
  pub record Redeems (ticket : Text) (viewer : AccountId) (id : ResourceId) (r : Resource) (db : Db)
      : Type 0 where
    pub held :
        live_ticket (env.hash_token ticket) clock.now db.connection_tickets ≡ some (viewer, id)
    pub stored : resource db id ≡ some r
    pub opens : may_open viewer r db ≡ true

  -- The tables afterwards.
  abbrev pub exchanged : Text → AccountId → ResourceId → KeyBytes → Text → Db → Db
  exchanged ticket viewer id client_key session_token db =
      with_session
        (session_row (env.hash_token session_token) viewer id (env.hex.encode client_key)
          (clock.now + tunnel_session_lifetime_secs))
        clock.now
        (record db {
          connection_tickets = drop_live (env.hash_token ticket) clock.now db.connection_tickets;
        })

  exchange-Redeems :
      (ticket : Text) (client_key : KeyBytes) (session_token : Text) (s : AppState) {t : AppState}
      (r : Resource)
      → exchange env clock ticket client_key session_token s ≡ (t, ok r)
      → (viewer : AccountId) × (id : ResourceId) × Redeems ticket viewer id r s.db
        × (t ≡ with_db s (exchanged ticket viewer id client_key session_token s.db))
  unfolding exchange consume_connection_ticket resource may_open shared_with
  exchange-Redeems ticket client_key session_token s {t} r e =
      let (consumed, db1, taken, e1) =
        attempt-eq-ok
          (λ db.
            found_or unauthorized (consume_connection_ticket (env.hash_token ticket) clock.now db))
          _ s e in
      let (change, held) =
        consume_connection_ticket-some (env.hash_token ticket) clock.now s.db
          (found_or-eq-ok unauthorized _ taken) in
      let u = with_db s db1 in
      let (r', stored, e2) =
        or_fail-eq-ok (resource db1 consumed.1) unauthorized _ u
          (query-eq-ok (λ db. resource db consumed.1) _ u e1) in
      let (opens, e3) =
        require-eq-ok (may_open consumed.0 r' db1) unauthorized _ u
          (query-eq-ok (may_open consumed.0 r') _ u e2) in
      let (_, db2, made, e4) =
        attempt-eq-ok
          (λ db. inserted (
            Tickets.create_tunnel_session (env.hash_token session_token) consumed.0 consumed.1
              (env.hex.encode client_key) clock.now (clock.now + tunnel_session_lifetime_secs) db))
          _ u e3 in
      let made_row =
        create_tunnel_session-true (env.hash_token session_token) consumed.0 consumed.1
          (env.hex.encode client_key) clock.now (clock.now + tunnel_session_lifetime_secs) db1
          (inserted-eq-ok _ made) in
      let same : r' ≡ r = ground arith in
      (
        consumed.0,
        consumed.1,
        record {
          held = held;
          stored = ap (λ d. resource d consumed.1) (sym change) ∙ stored ∙ ap some same;
          opens =
              ap (λ d. may_open consumed.0 r d) (sym change)
              ∙ ap (λ x. may_open consumed.0 x db1) (sym same)
              ∙ opens;
        },
        ap (λ p. p.0) (sym e4)
            ∙ ap (with_db s) (
                made_row
                ∙ ap
                    (with_session
                      (session_row (env.hash_token session_token) consumed.0 consumed.1
                        (env.hex.encode client_key) (clock.now + tunnel_session_lifetime_secs))
                      clock.now)
                    change),
      )

  tunnel_session-exchanged :
      (ticket : Text) (viewer : AccountId) (id : ResourceId) (client_key : KeyBytes)
      (token sent : Text) (later ends : ℕ) (db db1 : Db)
      → db1 ≡ exchanged ticket viewer id client_key token db
      → ends ≡ clock.now + tunnel_session_lifetime_secs
      → sent ≡ token
      → later < ends
      → tunnel_session (env.hash_token sent) later db1
        ≡ some (session_row (env.hash_token sent) viewer id (env.hex.encode client_key) ends)
  unfolding tunnel_session
  tunnel_session-exchanged ticket viewer id client_key token sent later ends db db1 e f g lt =
      rw (e, f, g) (ground arith)

  -- A ticket is exchanged only while it is live, and only where its holder may still open the
  -- service that it names. From then on the ticket is no longer live, and for eight hours, 28800
  -- seconds, after which the answer says that it expires, the returned token stands for a session of
  -- that viewer and service, bound to the client's key.
  pub redeem_connection_ticket-exchanges :
      (relay_access : KeyBytes → Option RelayAccess) (body : RedeemTicketRequest) (generated : Text)
      (s t : AppState) (response : RedeemTicketResponse) (later : ℕ)
      → redeem_connection_ticket env relay_access clock body generated s ≡ (t, ok response)
      → clock.now ≤ later
      → later < clock.now + 28800
      → (viewer : AccountId) × (id : ResourceId) × (r : Resource) × (client_key : KeyBytes)
        × (response.expires_at ≡ clock.now + 28800)
        × Redeems body.ticket viewer id r s.db
        × (parse_endpoint_id env body.client_endpoint_id ≡ some client_key)
        × (live_ticket (env.hash_token body.ticket) later t.db.connection_tickets ≡ none)
        × (tunnel_session (env.hash_token response.session_token) later t.db
            ≡ some (
                session_row
                  (env.hash_token response.session_token)
                  viewer
                  id
                  (env.hex.encode client_key)
                  response.expires_at))
  unfolding redeem_connection_ticket
  redeem_connection_ticket-exchanges relay_access body generated s t response later e le lt =
      let (valid, e1) =
        require-eq-ok (valid_prefixed_token body.ticket connection_ticket_prefix) unauthorized _ s
          e in
      let (key, bound, e2) =
        or_fail-eq-ok (parse_endpoint_id env body.client_endpoint_id) invalid_request _ s e1 in
      let token = prefixed_token tunnel_session_prefix generated in
      let (r, u, swapped, e3) = >>=-eq-ok (exchange env clock body.ticket key token) _ s e2 in
      let (viewer, id, redeems, change) = exchange-Redeems body.ticket key token s r swapped in
      let (relay, _, e4) = or_fail-eq-ok (relay_access key) internal _ u e3 in
      let same : t.db ≡ exchanged body.ticket viewer id key token s.db =
        ap (λ p. p.0.db) (sym e4) ∙ ap (λ x. x.db) change in
      let ends : response.expires_at ≡ clock.now + tunnel_session_lifetime_secs = ground arith in
      let sent : response.session_token ≡ token = ground arith in
      (
        viewer,
        id,
        r,
        key,
        ends,
        redeems,
        bound,
        ap (λ d. live_ticket (env.hash_token body.ticket) later d.connection_tickets) same
            ∙ live_ticket-drop_live (env.hash_token body.ticket) clock.now later
                s.db.connection_tickets le,
        tunnel_session-exchanged body.ticket viewer id key token response.session_token later
            response.expires_at s.db t.db same ends sent (omega arith),
      )
