-- ===== src/Server/Api/Tunnels/Opened.antt =====
-- From a browser's ticket to a session, when nothing stands in the way: crates/devsite-server/src/api.rs.
use mathlib.Core.Path.{subst}
use devsite.Prelude.{
  ℕ, ◌≡◌, ◌≤◌, ◌∙◌, ◌<◌, ◌+◌, refl, sym, ap, some, true, false, [], ◌∷◌, List, ok, arith, Text,
  Option,
}
use devsite.Proto.Crypto.{KeyBytes}
use devsite.Proto.Capability.{AccountId, ResourceId}
use devsite.Server.Env.{Env, parse_endpoint_id, parse_resource_id, resource_id_text}
use devsite.Server.Relay.{RelayAccess}
use devsite.Server.RateLimits.{capability}
use devsite.Server.Db.Rows.{Db, Resource, TicketRow, TunnelRow, resource}
use devsite.Server.Db.Shares.{references, shared_with}
use devsite.Server.Db.Tickets as Tickets
use devsite.Server.Db.Tickets.{
  tunnel_session, live_ticket, consume_connection_ticket, session_account, purge_tickets,
  purge_tunnels, has_tunnel,
}
use devsite.Server.Api.{
  AppState, Headers, Clock, ◌>>=◌, continue, not_found, inserted, require_browser_account,
}
use devsite.Server.Api.Steps.{
  >>=-eq-ok, inserted-eq-ok, or_fail-eq-ok, query-eq-ok, require-eq-ok, attempt-eq-ok,
  check_rate-eq-ok, counted,
}
use devsite.Server.Api.Identity.{require_browser_account-eq-ok}
use devsite.Server.Api.Tunnels.Redeemed.{session_row, redeem_connection_ticket-exchanges}
use devsite.Server.Api.Tunnels.{
  connection_ticket_prefix, tunnel_session_prefix, connection_ticket_lifetime_secs,
  tunnel_session_lifetime_secs, prefixed_token, valid_prefixed_token, may_open, exchange,
  RedeemTicketRequest, ConnectionTicketResponse, RedeemTicketResponse, create_connection_ticket,
  redeem_connection_ticket,
}

-- What an exchange needs of the tables.
pub record Ready (h now : ℕ) (viewer : AccountId) (id : ResourceId) (r : Resource) (db : Db)
    : Type 0 where
  pub held : live_ticket h now db.connection_tickets ≡ some (viewer, id)
  pub stored : resource db id ≡ some r
  pub opens : may_open viewer r db ≡ true
  pub refers : references id viewer db ≡ true

abbrev with_ticket : TicketRow → ℕ → Db → Db
with_ticket row now db = record db {
  connection_tickets = row ∷ purge_tickets now db.connection_tickets;
}

has_tunnel-purge_tunnels :
    (h now : ℕ) (ts : List TunnelRow)
    → has_tunnel h ts ≡ false
    → has_tunnel h (purge_tunnels now ts) ≡ false
unfolding purge_tunnels
has_tunnel-purge_tunnels h now [] e = refl
has_tunnel-purge_tunnels h now (t ∷ ts) e = ground (arith, has_tunnel-purge_tunnels h now ts)

create_connection_ticket-true :
    (h v id now ends : ℕ) (db : Db) {db1 : Db}
    → Tickets.create_connection_ticket h v id now ends db ≡ (db1, true)
    → (db1
        ≡ with_ticket
            (record { token_hash = h; viewer_id = v; resource_id = id; expires_at = ends })
            now
            db)
      × (references id v db ≡ true)
unfolding Tickets.create_connection_ticket
create_connection_ticket-true h v id now ends db {db1} e = (ground arith, ground arith)

created_Ready :
    (h v id now ends later : ℕ) (r : Resource) (db : Db) {db1 : Db}
    → resource db id ≡ some r
    → may_open v r db ≡ true
    → Tickets.create_connection_ticket h v id now ends db ≡ (db1, true)
    → later < ends
    → Ready h later v id r db1
unfolding live_ticket resource may_open shared_with
created_Ready h v id now ends later r db stored opens e lt =
    let (change, refers) = create_connection_ticket-true h v id now ends db e in
    subst (Ready h later v id r) (sym change)
      (record { held = ground arith; stored = stored; opens = opens; refers = refers })

module _ (env : Env) where
  exchange_of_Ready :
      (clock : Clock) (ticket : Text) (client_key : KeyBytes) (token : Text) (viewer : AccountId)
      (id : ResourceId) (r : Resource) (s : AppState)
      → Ready (env.hash_token ticket) clock.now viewer id r s.db
      → has_tunnel (env.hash_token token) s.db.tunnel_sessions ≡ false
      → (t : AppState) × (exchange env clock ticket client_key token s ≡ (t, ok r))
  unfolding exchange ◌>>=◌ continue consume_connection_ticket resource may_open shared_with
      Tickets.create_tunnel_session
  exchange_of_Ready clock ticket client_key token viewer id r s ready fresh =
      let kept =
        has_tunnel-purge_tunnels (env.hash_token token) clock.now s.db.tunnel_sessions fresh in
      (
        (exchange env clock ticket client_key token s).0,
        rw ready.held (rw ready.stored (ground (arith, ready.opens, ready.refers, kept))),
      )

  -- A ticket that is made lasts two minutes, for a service that its viewer may open.
  pub create_connection_ticket-Ready :
      (clock : Clock) (headers : Headers) (id generated : Text) (s t : AppState)
      (response : ConnectionTicketResponse) (later : ℕ)
      → create_connection_ticket env clock headers id generated s ≡ (t, ok response)
      → later < response.expires_at
      → (viewer : AccountId) × (resource_id : ResourceId) × (r : Resource) × (known : AppState)
        × (require_browser_account env clock headers s ≡ (known, ok viewer))
        × (parse_resource_id env id ≡ some resource_id)
        × Ready (env.hash_token response.ticket) later viewer resource_id r t.db
  unfolding create_connection_ticket
  create_connection_ticket-Ready clock headers id generated s t response later e lt =
      let (viewer, s1, identified, e1) =
        >>=-eq-ok (require_browser_account env clock headers) _ s e in
      let same = require_browser_account-eq-ok env clock headers s identified in
      let (_, e2) = check_rate-eq-ok clock viewer capability _ s1 e1 in
      let u = counted clock viewer capability s1 in
      let (rid, parsed, e3) = or_fail-eq-ok (parse_resource_id env id) not_found _ u e2 in
      let (r, stored, e4) =
        or_fail-eq-ok (resource s1.db rid) not_found _ u
          (query-eq-ok (λ db. resource db rid) _ u e3) in
      let (opens, e5) =
        require-eq-ok (may_open viewer r s1.db) not_found _ u
          (query-eq-ok (may_open viewer r) _ u e4) in
      let token = env.hash_token (prefixed_token connection_ticket_prefix generated) in
      let (_, db1, made, e6) =
        attempt-eq-ok
          (λ db. inserted (
            Tickets.create_connection_ticket token viewer rid clock.now
              (clock.now + connection_ticket_lifetime_secs) db))
          _ u e5 in
      let sent : env.hash_token response.ticket ≡ token = ground arith in
      let ends : response.expires_at ≡ clock.now + connection_ticket_lifetime_secs = ground arith in
      (
        viewer,
        rid,
        r,
        s1,
        identified,
        parsed,
        subst (λ h. Ready h later viewer rid r t.db) (sym sent)
            (subst (Ready token later viewer rid r) (ap (λ p. p.0.db) e6) (
              created_Ready token viewer rid clock.now (clock.now + connection_ticket_lifetime_secs)
                later r s1.db stored opens (inserted-eq-ok _ made) (omega arith))),
      )

  abbrev redeemed : Resource → Text → Clock → RelayAccess → RedeemTicketResponse
  redeemed r generated clock relay = record {
    session_token = prefixed_token tunnel_session_prefix generated;
    relay_access = relay;
    resource_id = resource_id_text env r.id;
    name = r.name;
    expires_at = clock.now + tunnel_session_lifetime_secs;
  }

  -- A live ticket is of one viewer and one service, and an endpoint's text of one key.
  session_of :
      (held : Option (AccountId × ResourceId)) (parsed : Option KeyBytes) {v w : AccountId}
      {i j : ResourceId} {k l : KeyBytes} (token : Text) (ends : ℕ) (found : Option TunnelRow)
      → held ≡ some (v, i)
      → held ≡ some (w, j)
      → parsed ≡ some k
      → parsed ≡ some l
      → found ≡ some (session_row (env.hash_token token) w j (env.hex.encode l) ends)
      → found ≡ some (session_row (env.hash_token token) v i (env.hex.encode k) ends)
  session_of held parsed {v} {w} {i} {j} {k} {l} token ends found a b c d e =
      let same_v : w ≡ v = ground arith in
      let same_i : j ≡ i = ground arith in
      let same_k : l ≡ k = ground arith in
      e ∙ λ n.
      some
        (session_row (env.hash_token token) (same_v n) (same_i n) (env.hex.encode (same_k n)) ends)

  -- A ticket that has been made opens a tunnel session when the next request redeems it, in time,
  -- with a valid endpoint, a token that no session has and relay settings: for eight hours, 28800
  -- seconds, the returned token stands for a session of the account that asked for the ticket, to
  -- the resource that it named, bound to the endpoint's key.
  pub redeem-create_connection_ticket :
      (relay_access : KeyBytes → Option RelayAccess) (clock clock2 : Clock) (headers : Headers)
      (id generated generated2 client_endpoint_id : Text) (s t : AppState)
      (response : ConnectionTicketResponse) (client_key : KeyBytes) (relay : RelayAccess)
      (later : ℕ)
      → create_connection_ticket env clock headers id generated s ≡ (t, ok response)
      → valid_prefixed_token response.ticket connection_ticket_prefix ≡ true
      → parse_endpoint_id env client_endpoint_id ≡ some client_key
      → clock2.now < response.expires_at
      → has_tunnel
          (env.hash_token (prefixed_token tunnel_session_prefix generated2))
          t.db.tunnel_sessions
        ≡ false
      → relay_access client_key ≡ some relay
      → clock2.now ≤ later
      → later < clock2.now + 28800
      → (viewer : AccountId) × (resource_id : ResourceId) × (known u : AppState)
        × (answer : RedeemTicketResponse) × (require_browser_account env clock headers s
            ≡ (known, ok viewer))
        × (parse_resource_id env id ≡ some resource_id)
        × (redeem_connection_ticket env relay_access clock2
              (record { ticket = response.ticket; client_endpoint_id = client_endpoint_id })
              generated2
              t
            ≡ (u, ok answer))
        × (tunnel_session (env.hash_token answer.session_token) later u.db
            ≡ some (
                session_row
                  (env.hash_token answer.session_token)
                  viewer
                  resource_id
                  (env.hex.encode client_key)
                  (clock2.now + 28800)))
  unfolding redeem_connection_ticket ◌>>=◌ continue
  redeem-create_connection_ticket relay_access clock clock2 headers id generated generated2
        client_endpoint_id s t response client_key relay later e valid bound lt fresh given le
        before =
      let (viewer, rid, r, known, identified, parsed, ready) =
        create_connection_ticket-Ready clock headers id generated s t response clock2.now e lt in
      let token = prefixed_token tunnel_session_prefix generated2 in
      let (u, swapped) =
        exchange_of_Ready clock2 response.ticket client_key token viewer rid r t ready fresh in
      let body : RedeemTicketRequest = record {
        ticket = response.ticket;
        client_endpoint_id = client_endpoint_id;
      } in
      let done : redeem_connection_ticket env relay_access clock2 body generated2 t
          ≡ (u, ok (redeemed r generated2 clock2 relay)) =
        rw valid (rw bound (rw swapped (rw given refl))) in
      let (w, j, q, l, ends, redeems, bound', dead, found) =
        redeem_connection_ticket-exchanges env clock2 relay_access body generated2 t u
          (redeemed r generated2 clock2 relay) later done le before in
      (
        viewer,
        rid,
        known,
        u,
        redeemed r generated2 clock2 relay,
        identified,
        parsed,
        done,
        session_of (live_ticket (env.hash_token response.ticket) clock2.now t.db.connection_tickets)
            (parse_endpoint_id env client_endpoint_id) token (clock2.now + 28800)
            (tunnel_session (env.hash_token token) later u.db) ready.held redeems.held bound bound'
            found,
      )
