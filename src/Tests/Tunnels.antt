-- ===== src/Tests/Tunnels.antt =====
-- Tickets, tunnel sessions and capabilities of crates/devsite-server/src/api.rs in a small world.
use devsite.Prelude.{
  ℕ, ◌≡◌, ◌+◌, refl, true, false, some, none, List, [], ◌∷◌, ◌++◌, ok, Text, text, arith,
  strip_prefix, list_eq, contains,
}
use devsite.Prelude.Words.{be_bytes, from_be}
use devsite.Prelude.Texts.{split, split_once}
use devsite.Proto.Crypto.{KeyBytes}
use devsite.Proto.Capability.{
  AccountId, CapabilityClaims, tcp_connect, sign, SignedCapability, default_lifetime_secs,
  ResourceId,
}
use devsite.Prelude.Map.{lookup, insert}
use devsite.Daemon.Verify.{SocketAddr, new_guard, prune, authorize}
use devsite.Server.Env.{parse_resource_id, trim, parse_endpoint_id, resource_id_text}
use devsite.Proto.Id.{from_str, to_string}
use devsite.Server.Auth.{trim_start_matches, trim_end_matches}
use devsite.Server.Issuer.{issue, issued_claims, issued_text, verifying_key}
use devsite.Server.Policy.{can_view}
use devsite.Server.RateLimits.{
  check, limit, class_index, window_of, fresh_entries, put_window, current_window, discard,
}
use devsite.Server.Db.Rows.{
  Db, Resource, TunnelRow, resource, account_by_id, has_resource, has_account,
}
use devsite.Server.Db.Shares.{shared_with}
use devsite.Server.Db.Shares.Rows.{viewers_of}
use devsite.Server.Db.Machines.{daemon_endpoint}
use devsite.Server.Db.Tickets.{
  tunnel_session, session_account, purge_tickets, purge_tunnels, has_tunnel, live_ticket, drop_live,
  consume_connection_ticket,
}
use devsite.Server.Db.Tickets as Tickets
use devsite.Server.Api.{
  AppState, ◌>>=◌, continue, bearer_token, check_rate, require_browser_account, cookie_token,
  session_value, account_id,
}
use devsite.Server.Api.Tunnels.{
  CapabilityResponse, ConnectionTicketResponse, RedeemTicketRequest, RedeemTicketResponse,
  create_connection_ticket, redeem_connection_ticket, exchange, may_open, valid_prefixed_token,
  bearer_session, session_service, issue_for, tunnel_capability,
}
use devsite.Server.Api.Tunnels.Laws.{Bears, Shows, Issues, tunnel_capability-Issues}
use devsite.Server.Api.Tunnels.Accepted.{authorize-tunnel_capability}
use devsite.Server.Api.Tunnels.Opened.{redeem-create_connection_ticket}
use devsite.Server.Api.Tunnels.Redeemed.{Redeems, session_row, redeem_connection_ticket-exchanges}
use devsite.Samples.{sum, join, claims_to, sealed}
use devsite.Samples.World.{
  env, relay, issuer, clock, state, db, bearer, browser, forty_three, session_token, letters_of,
}

abbrev granted : CapabilityClaims
granted = record {
  issuer = text "dev";
  viewer = 4;
  resource = 7;
  audience = 3;
  client_key = 2;
  permission = tcp_connect;
  issued_at = 100;
  expires_at = 280;
  nonce = 5;
}

abbrev issued : CapabilityResponse
issued = record {
  capability = join (claims_to granted) (sealed 11 (claims_to granted));
  daemon_endpoint_id = letters_of 3;
}

abbrev after : AppState
after = (tunnel_capability env issuer clock (bearer session_token) 5 state).0

capability_issued :
    tunnel_capability env issuer clock (bearer session_token) 5 state ≡ (after, ok issued)
unfolding tunnel_capability bearer_session session_service issue_for ◌>>=◌ continue bearer_token
    strip_prefix valid_prefixed_token tunnel_session resource shared_with viewers_of can_view
    daemon_endpoint check_rate check parse_endpoint_id trim trim_start_matches trim_end_matches
    issued_text issue issued_claims sign contains limit current_window window_of discard class_index
    put_window fresh_entries
capability_issued = refl

tunnel_capability-Issues_example :
    (session : TunnelRow) × (r : Resource) × Bears env clock.now (bearer session_token) session db
    × Shows env db session r (daemon_endpoint r.owner_id db)
    × Issues env issuer clock 5 session r (daemon_endpoint r.owner_id db) issued
tunnel_capability-Issues_example =
    tunnel_capability-Issues env issuer clock (bearer session_token) 5 state after issued
      capability_issued

abbrev tunnel : TunnelRow
tunnel = record {
  token_hash = sum session_token;
  viewer_id = 4;
  resource_id = 7;
  client_endpoint_id = letters_of 2;
  expires_at = 900;
  issuer_credential_id = none;
  grant_request_id = none;
}

borne : Bears env clock.now (bearer session_token) tunnel db
unfolding bearer_token strip_prefix valid_prefixed_token tunnel_session
borne = record { token = session_token; sent = refl; well_formed = refl; live = refl }

abbrev local : SocketAddr
local = record { ip = 1; port = 80 }

abbrev targets : List (ResourceId × SocketAddr)
targets = (7, local) ∷ []

served : lookup 7 targets ≡ some local
unfolding lookup
served = refl

audience_parsed : parse_endpoint_id env (letters_of 3) ≡ some 3
unfolding parse_endpoint_id trim trim_start_matches trim_end_matches
audience_parsed = refl

peer_parsed : parse_endpoint_id env (letters_of 2) ≡ some 2
unfolding parse_endpoint_id trim trim_start_matches trim_end_matches
peer_parsed = refl

authorize-tunnel_capability_example :
    (token : SignedCapability) × (bytes : List ℕ) × (env.base64url.decode issued.capability
      ≡ some bytes)
    × (env.capability_codec.from_bytes bytes ≡ some token)
    × (authorize env.ed env.claims_codec token (verifying_key env issuer) 3 2 targets new_guard 150
        ≡ (
          record { seen = insert 5 (100 + default_lifetime_secs) (prune 150 new_guard) },
          ok (record { claims = issued_claims env issuer 4 7 3 2 5 100; target = local }),
        ))
authorize-tunnel_capability_example =
    authorize-tunnel_capability env issuer targets new_guard 150 local clock (bearer session_token)
      5 state after issued tunnel 3 2 capability_issued borne audience_parsed peer_parsed
      (omega arith) (omega arith) (omega arith) served tt

-- The viewer's browser asks for a ticket, and a client with key 6 redeems it.
abbrev web_id : Text
web_id = text "res_bbbbbbbbbbbbbbbaaaaaaab"

abbrev ticket : ConnectionTicketResponse
ticket = record { ticket = text "dst_" ++ forty_three; expires_at = 220 }

abbrev ticketed : AppState
ticketed = (create_connection_ticket env clock browser web_id forty_three state).0

ticket_created :
    create_connection_ticket env clock browser web_id forty_three state ≡ (ticketed, ok ticket)
unfolding create_connection_ticket require_browser_account cookie_token session_value split
    split_once list_eq session_account account_id account_by_id parse_resource_id from_str ◌>>=◌
    continue check_rate check limit current_window window_of discard class_index put_window
    fresh_entries strip_prefix resource from_be may_open can_view contains shared_with viewers_of
    Tickets.create_connection_ticket has_resource has_account purge_tickets trim trim_start_matches
    trim_end_matches
ticket_created = refl

client_parsed : parse_endpoint_id env (letters_of 6) ≡ some 6
unfolding parse_endpoint_id trim trim_start_matches trim_end_matches
client_parsed = refl

well_formed : valid_prefixed_token ticket.ticket (text "dst_") ≡ true
unfolding valid_prefixed_token strip_prefix
well_formed = refl

abbrev generated : Text
generated = text "a123456789012345678901234567890123456789012"

abbrev body : RedeemTicketRequest
body = record { ticket = ticket.ticket; client_endpoint_id = letters_of 6 }

-- The rows after the ticket was made.
abbrev ticketed_db : Db
ticketed_db = record db {
  connection_tickets =
      record { token_hash = sum ticket.ticket; viewer_id = 4; resource_id = 7; expires_at = 220 }
      ∷ [];
}

ticketed_rows : ticketed.db ≡ ticketed_db
unfolding create_connection_ticket require_browser_account cookie_token session_value split
    split_once list_eq session_account account_id account_by_id parse_resource_id from_str ◌>>=◌
    continue check_rate check limit current_window window_of discard class_index put_window
    fresh_entries strip_prefix resource from_be may_open can_view contains shared_with viewers_of
    Tickets.create_connection_ticket has_resource has_account purge_tickets trim trim_start_matches
    trim_end_matches
ticketed_rows = refl

unused : has_tunnel (sum (text "dss_" ++ generated)) ticketed.db.tunnel_sessions ≡ false
unused = rw ticketed_rows refl

redeem-create_connection_ticket_example :
    (viewer : AccountId) × (id : ResourceId) × (known u : AppState)
    × (answer : RedeemTicketResponse) × (require_browser_account env clock browser state
        ≡ (known, ok viewer))
    × (parse_resource_id env web_id ≡ some id)
    × (redeem_connection_ticket env (λ k. some relay) clock body generated ticketed
        ≡ (u, ok answer))
    × (tunnel_session (sum answer.session_token) 150 u.db
        ≡ some (session_row (sum answer.session_token) viewer id (letters_of 6) 28900))
redeem-create_connection_ticket_example =
    redeem-create_connection_ticket env (λ k. some relay) clock clock browser web_id forty_three
      generated (letters_of 6) state ticketed ticket 6 relay 150 ticket_created well_formed
      client_parsed (omega arith) unused refl (omega arith) (omega arith)

abbrev opened : AppState
opened = record state { db = ticketed_db }

abbrev redeemed : AppState
redeemed = (redeem_connection_ticket env (λ k. some relay) clock body generated opened).0

abbrev answer : RedeemTicketResponse
answer = record {
  session_token = text "dss_" ++ generated;
  relay_access = relay;
  resource_id = web_id;
  name = text "web";
  expires_at = 28900;
}

ticket_redeemed :
    redeem_connection_ticket env (λ k. some relay) clock body generated opened
    ≡ (redeemed, ok answer)
unfolding redeem_connection_ticket exchange ◌>>=◌ continue valid_prefixed_token strip_prefix
    parse_endpoint_id trim trim_start_matches trim_end_matches consume_connection_ticket live_ticket
    drop_live resource may_open shared_with viewers_of contains can_view
    Tickets.create_tunnel_session purge_tunnels has_resource has_account resource_id_text to_string
    from_be be_bytes
ticket_redeemed = refl

redeem_connection_ticket-exchanges_example :
    (viewer : AccountId) × (id : ResourceId) × (r : Resource) × (client_key : KeyBytes)
    × (answer.expires_at ≡ 28900)
    × Redeems env clock (text "dst_" ++ forty_three) viewer id r ticketed_db
    × (parse_endpoint_id env (letters_of 6) ≡ some client_key)
    × (live_ticket (sum (text "dst_" ++ forty_three)) 150 redeemed.db.connection_tickets ≡ none)
    × (tunnel_session (sum (text "dss_" ++ generated)) 150 redeemed.db
        ≡ some
            (session_row (sum (text "dss_" ++ generated)) viewer id (letters_of client_key) 28900))
redeem_connection_ticket-exchanges_example =
    redeem_connection_ticket-exchanges env clock (λ k. some relay) body generated opened redeemed
      answer 150 ticket_redeemed (omega arith) (omega arith)
