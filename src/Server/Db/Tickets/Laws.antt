-- ===== src/Server/Db/Tickets/Laws.antt =====
-- Single use of connection tickets, and the cases of a broker request: crates/devsite-server/src/db.rs.
use devsite.Prelude.{
  ℕ, ◌≡◌, ◌≤◌, ◌+◌, suc, true, false, Option, some, none, List, [], ◌∷◌, ◌==◌, Text, if◌then◌else◌,
  arith, Bool-cases, inl, inr,
}
use devsite.Proto.Capability.{AccountId, ResourceId}
use devsite.Server.Db.Rows.{Db, TicketRow, TunnelRow}
use devsite.Server.Db.Tickets.{
  purge_tickets, create_connection_ticket, drop_live, live_ticket, consume_connection_ticket,
  purge_tunnels, has_request, create_broker_tunnel_session,
}

pub data TicketOp : Type 0 where
  create : ℕ → AccountId → ResourceId → ℕ → ℕ → TicketOp
  consume : ℕ → ℕ → TicketOp

-- The rows after an operation.
unfoldable pub after : TicketOp → Db → Db
after (create h v r now e) db = (create_connection_ticket h v r now e db).0
after (consume h now) db = (consume_connection_ticket h now db).0

-- One for a redemption of the token that succeeds.
unfoldable pub redeemed : ℕ → TicketOp → Db → ℕ
redeemed h (create _ _ _ _ _) db = 0
redeemed h (consume q now) db =
    if q == h then elim ((consume_connection_ticket q now db).1) [ none ↦ 0 | some _ ↦ 1 ] else 0

-- One for a creation of the token.
unfoldable pub issued : ℕ → TicketOp → ℕ
issued h (create q _ _ _ _) = if q == h then 1 else 0
issued h (consume _ _) = 0

unfoldable pub redeemed_in : ℕ → List TicketOp → Db → ℕ
redeemed_in h [] db = 0
redeemed_in h (op ∷ ops) db = redeemed h op db + redeemed_in h ops (after op db)

unfoldable pub issued_in : ℕ → List TicketOp → ℕ
issued_in h [] = 0
issued_in h (op ∷ ops) = issued h op + issued_in h ops

-- The rows of a token.
unfoldable pub held : ℕ → List TicketRow → ℕ
held h [] = 0
held h (t ∷ ts) = if t.token_hash == h then suc (held h ts) else held h ts

held-purge_tickets : (h now : ℕ) (ts : List TicketRow) → held h (purge_tickets now ts) ≤ held h ts
unfolding held purge_tickets
held-purge_tickets h now [] = omega arith
held-purge_tickets h now (t ∷ ts) = ground (arith, held-purge_tickets h now ts)

held-drop_live : (h q now : ℕ) (ts : List TicketRow) → held h (drop_live q now ts) ≤ held h ts
unfolding held drop_live
held-drop_live h q now [] = omega arith
held-drop_live h q now (t ∷ ts) = ground (arith, held-drop_live h q now ts)

-- One for a live ticket.
abbrev found : Option (AccountId × ResourceId) → ℕ
found none = 0
found (some _) = 1

found-live_ticket :
    (h now : ℕ) (ts : List TicketRow)
    → found (live_ticket h now ts) + held h (drop_live h now ts) ≤ held h ts
unfolding held drop_live live_ticket
found-live_ticket h now [] = omega arith
found-live_ticket h now (t ∷ ts) =
    ground (arith, found-live_ticket h now ts, held-drop_live h h now ts)

balance :
    (h : ℕ) (op : TicketOp) (db : Db)
    → redeemed h op db + held h (after op db).connection_tickets
      ≤ issued h op + held h db.connection_tickets
unfolding redeemed after issued create_connection_ticket consume_connection_ticket held
balance h (create q v r now e) db =
    let purged = held-purge_tickets h now db.connection_tickets in ground arith
balance h (consume q now) db = elim (Bool-cases (q == h)) [
  | inl this ↦
      let same : q ≡ h = ground arith in
      let b = found-live_ticket h now db.connection_tickets in rw same (ground arith)
  | inr other ↦ let b = held-drop_live h q now db.connection_tickets in ground arith
]

total :
    (h : ℕ) (ops : List TicketOp) (db : Db)
    → redeemed_in h ops db ≤ issued_in h ops + held h db.connection_tickets
unfolding redeemed_in issued_in
total h [] db = omega arith
total h (op ∷ ops) db = omega (arith, balance h op db, total h ops (after op db))

-- However creations and redemptions are ordered and whatever the times they name, a token that the
-- tables do not hold at first is redeemed successfully at most as often as it is created.
pub redeemed_in-le-issued_in :
    (h : ℕ) (ops : List TicketOp) (db : Db)
    → held h db.connection_tickets ≡ 0
    → redeemed_in h ops db ≤ issued_in h ops
redeemed_in-le-issued_in h ops db fresh = omega (arith, total h ops db)

-- The row of a broker's session.
abbrev pub opened : ℕ → AccountId → ResourceId → Text → Text → Text → ℕ → TunnelRow
opened h v r c i q e = record {
  token_hash = h;
  viewer_id = v;
  resource_id = r;
  client_endpoint_id = c;
  expires_at = e;
  issuer_credential_id = some i;
  grant_request_id = some q;
}

pub create_broker_tunnel_session-opened :
    (h : ℕ) (v : AccountId) (r : ResourceId) (c i q : Text) (now e : ℕ) (db db1 : Db)
    → create_broker_tunnel_session h v r c i q now e db ≡ (db1, some true)
    → db1.tunnel_sessions ≡ opened h v r c i q e ∷ purge_tunnels now db.tunnel_sessions
unfolding create_broker_tunnel_session
create_broker_tunnel_session-opened h v r c i q now e db db1 first = ground arith

pub create_broker_tunnel_session-taken :
    (h : ℕ) (v : AccountId) (r : ResourceId) (c i q : Text) (now e : ℕ) (db : Db)
    → has_request q (purge_tunnels now db.tunnel_sessions) ≡ true
    → create_broker_tunnel_session h v r c i q now e db
      ≡ (record db { tunnel_sessions = purge_tunnels now db.tunnel_sessions }, some false)
unfolding create_broker_tunnel_session
create_broker_tunnel_session-taken h v r c i q now e db taken = ground arith
