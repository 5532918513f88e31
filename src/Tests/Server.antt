-- ===== src/Tests/Server.antt =====
-- crates/devsite-server/src at concrete inputs: policy, rate limits, tickets and authorizations.
use devsite.Prelude.{
  ℕ, ◌≡◌, ◌≢◌, ◌≤◌, ◌+◌, refl, ◌↔◌, true, some, none, List, [], ◌∷◌, text, arith, list_eq, All,
}
use devsite.Server.Policy.{
  shared, public, can_view, MayView, can_view_iff, parse, as_str, parse-as_str,
}
use devsite.Server.RateLimits.{session, limit, RateWindow, RateEntry, class_index, window_of}
use devsite.Server.RateLimits.Laws.{Distinct, allowed-le-limit, Attempt, allowed}
use devsite.Server.Db.Rows.{
  Db, AccountRow, Resource, service, MachineRow, empty_db, resource, has_resource, has_account,
}
use devsite.Server.Db.Shares.{shared_with}
use devsite.Server.Db.Resources.{service_authorizations}
use devsite.Server.Db.Resources.Authorized.{
  DistinctIds, authorizes, service_authorizations-can_view,
}
use devsite.Server.Db.Tickets.{
  create_broker_tunnel_session, has_request, has_credential, request_is, purge_tunnels,
}
use devsite.Server.Db.Tickets.Broker.{
  SessionOp, grant, close, Spares, granted_in, create_broker_tunnel_session-once,
}
use devsite.Server.Db.Tickets.Laws.{
  TicketOp, create, consume, redeemed_in, issued_in, held, redeemed_in-le-issued_in, opened,
}

can_view_iff_example :
    (can_view (some 4) 3 shared (4 ∷ []) ≡ true) ↔ MayView 3 (4 ∷ []) (some 4) shared
can_view_iff_example = can_view_iff (some 4) 3 shared (4 ∷ [])

parse-as_str_example : parse (as_str shared) ≡ some shared
parse-as_str_example = parse-as_str shared

-- Twelve sessions have been asked for by account 3 in the window that began at 100.
abbrev full : RateWindow
full = record { started_at = 100; requests = 12 }

abbrev entries : List RateEntry
entries = record { account = 3; class = session; window = full } ∷ []

entries-Distinct : Distinct entries
unfolding window_of
entries-Distinct = (refl, tt)

abbrev attempt : Attempt
attempt = record { account = 3; class = session; now = 120 }

room : 12 ≤ limit session
unfolding limit
room = omega arith

window_found : window_of 3 session entries ≡ some full
unfolding window_of class_index
window_found = refl

allowed-le-limit_example : allowed 3 session entries (attempt ∷ []) + 12 ≤ limit session
allowed-le-limit_example =
    allowed-le-limit 3 session entries (attempt ∷ []) full entries-Distinct window_found room
      (refl, tt)

abbrev account : ℕ → AccountRow
account id = record { id = id; external_sub = text "sub"; handle = none; created_at = 1 }

-- Account 3 owns service 7, and account 4 has accepted it.
abbrev web : Resource
web = record {
  id = 7;
  owner_id = 3;
  name = text "web";
  kind = service;
  visibility = shared;
  url = none;
  folder = none;
  created_at = 1;
}

abbrev machine : MachineRow
machine = record {
  id = text "m1";
  account_id = 3;
  name = text "broker";
  token_hash = 1;
  created_at = 1;
  last_used_at = none;
  endpoint_id = some (text "ab");
  enrolled_at = some 2;
  scopes = [];
}

abbrev db : Db
db = record empty_db {
  accounts = account 3 ∷ account 4 ∷ [];
  resources = web ∷ [];
  shares = record { resource_id = 7; viewer_id = 4 } ∷ [];
  machine_credentials = machine ∷ [];
}

web-DistinctIds : DistinctIds db.resources
unfolding DistinctIds
web-DistinctIds = (refl, refl)

web_found : resource db 7 ≡ some web
unfolding resource
web_found = refl

shared-not_public : shared ≢ public
shared-not_public e = cc

service_authorizations-can_view_example :
    authorizes (service_authorizations 3 db) 4 7 ≡ can_view (some 4) 3 shared (shared_with 7 db)
service_authorizations-can_view_example =
    service_authorizations-can_view db 7 web 4 web-DistinctIds web_found refl shared-not_public

-- A ticket is made once and tried twice.
abbrev tickets : List TicketOp
tickets = create 55 4 7 10 100 ∷ consume 55 20 ∷ consume 55 21 ∷ []

none_held : held 55 db.connection_tickets ≡ 0
unfolding held
none_held = refl

redeemed_in-le-issued_in_example : redeemed_in 55 tickets db ≤ issued_in 55 tickets
redeemed_in-le-issued_in_example = redeemed_in-le-issued_in 55 tickets db none_held

abbrev after : Db
after = record db {
  tunnel_sessions =
      record {
        token_hash = 60;
        viewer_id = 4;
        resource_id = 7;
        client_endpoint_id = text "cd";
        expires_at = 100;
        issuer_credential_id = some (text "m1");
        grant_request_id = some (text "r1");
      }
      ∷ [];
}

first_grant :
    create_broker_tunnel_session 60 4 7 (text "cd") (text "m1") (text "r1") 10 100 db
    ≡ (after, some true)
unfolding create_broker_tunnel_session has_request request_is purge_tunnels has_resource has_account
    has_credential list_eq
first_grant = refl

-- A second grant of the same request, another grant, and the end of another session.
abbrev events : List SessionOp
events =
    grant 61 3 7 (text "ef") (text "m1") (text "r1") 50 200
    ∷ grant 62 3 7 (text "ef") (text "m1") (text "r2") 60 200
    ∷ close 62
    ∷ grant 63 4 7 (text "cd") (text "m1") (text "r1") 99 200
    ∷ []

events_spare : All (Spares (opened 60 4 7 (text "cd") (text "m1") (text "r1") 100)) events
events_spare = (omega arith, (omega arith, (refl, (omega arith, tt))))

create_broker_tunnel_session-once_example : granted_in (text "r1") events after ≡ 0
create_broker_tunnel_session-once_example =
    create_broker_tunnel_session-once 60 4 7 (text "cd") (text "m1") (text "r1") 10 100 db after
      events first_grant events_spare
