-- ===== src/Server/Db/Tickets/Broker.antt =====
-- The request of a broker over a history of the tunnel sessions of crates/devsite-server/src/db.rs.
use mathlib.Core.Path.{subst}
use devsite.Prelude.{
  ℕ, ◌≡◌, ◌<◌, ◌+◌, ◌⊎◌, refl, Bool, true, false, not, any, ◌&&◌, ◌||◌, Option, some, none, List,
  [], ◌∷◌, ◌==◌, Text, All, filter, leb, list_eq, list_eq_refl, list_eq_sound, if◌then◌else◌, arith,
  Bool-cases, inl, inr,
}
use devsite.Proto.Capability.{AccountId, ResourceId}
use devsite.Server.Db.Rows.{Db, TunnelRow}
use devsite.Server.Db.Tickets.{
  has_tunnel, has_credential, purge_tunnels, request_is, has_request, create_tunnel_session,
  create_broker_tunnel_session, delete_tunnel_session,
}
use devsite.Server.Db.Tickets.Laws.{
  opened, create_broker_tunnel_session-taken, create_broker_tunnel_session-opened,
}
use devsite.Server.Db.Resources.{delete_resource, drop_tunnels_of, is_at}
use devsite.Server.Db.Machines.{revoke_machine_credential, is_own}
use devsite.Server.Db.Shares.{references}

-- What happens to the table of tunnel sessions.
pub data SessionOp : Type 0 where
  grant : ℕ → AccountId → ResourceId → Text → Text → Text → ℕ → ℕ → SessionOp
  establish : ℕ → AccountId → ResourceId → Text → ℕ → ℕ → SessionOp
  close : ℕ → SessionOp
  remove_resource : AccountId → ResourceId → SessionOp
  revoke : AccountId → Text → SessionOp

unfoldable pub after : SessionOp → Db → Db
after (grant h v r c i q now e) db = (create_broker_tunnel_session h v r c i q now e db).0
after (establish h v r c now e) db = (create_tunnel_session h v r c now e db).0
after (close h) db = (delete_tunnel_session h db).0
after (remove_resource owner id) db = (delete_resource owner id db).0
after (revoke account id) db = (revoke_machine_credential account id db).0

abbrev one_if_true : Option Bool → ℕ
one_if_true none = 0
one_if_true (some false) = 0
one_if_true (some true) = 1

-- One for a grant of the request that opens a session.
unfoldable pub granted : Text → SessionOp → Db → ℕ
unfolding list_eq
granted q (grant h v r c i p now e) db =
    if list_eq p q then one_if_true ((create_broker_tunnel_session h v r c i p now e db).1) else 0
granted q (establish _ _ _ _ _ _) db = 0
granted q (close _) db = 0
granted q (remove_resource _ _) db = 0
granted q (revoke _ _) db = 0

unfoldable pub granted_in : Text → List SessionOp → Db → ℕ
granted_in q [] db = 0
granted_in q (op ∷ ops) db = granted q op db + granted_in q ops (after op db)

-- The operation neither comes after the session has expired nor deletes it.
abbrev pub Spares : TunnelRow → SessionOp → Type 0
Spares row (grant h v r c i q now e) = now < row.expires_at
Spares row (establish h v r c now e) = now < row.expires_at
Spares row (close h) = (row.token_hash == h) ≡ false
Spares row (remove_resource owner id) = (row.resource_id == id) ≡ false
Spares row (revoke account id) = request_is id row.issuer_credential_id ≡ false

-- The table holds the row.
abbrev pub Holds : TunnelRow → List TunnelRow → Type 0
Holds row [] = ⊥
Holds row (t ∷ ts) = (t ≡ row) ⊎ Holds row ts

Holds-filter :
    (p : TunnelRow → Bool) (row : TunnelRow) (ts : List TunnelRow)
    → p row ≡ true
    → Holds row ts
    → Holds row (filter p ts)
Holds-filter p row [] keep h = h
Holds-filter p row (t ∷ ts) keep (inl same) =
    let this : p t ≡ true = rw same keep in rw this (inl same)
Holds-filter p row (t ∷ ts) keep (inr more) = elim (Bool-cases (p t)) [
  | inl kept ↦ rw kept (inr (Holds-filter p row ts keep more))
  | inr dropped ↦ rw dropped (Holds-filter p row ts keep more)
]

purge_tunnels-filter :
    (now : ℕ) (ts : List TunnelRow)
    → filter (λ t. not (leb t.expires_at now)) ts ≡ purge_tunnels now ts
unfolding purge_tunnels
purge_tunnels-filter now [] = refl
purge_tunnels-filter now (t ∷ ts) = ground (arith, purge_tunnels-filter now ts)

drop_tunnels_of-filter :
    (id : ResourceId) (ts : List TunnelRow)
    → filter (λ t. not (t.resource_id == id)) ts ≡ drop_tunnels_of id ts
unfolding drop_tunnels_of
drop_tunnels_of-filter id [] = refl
drop_tunnels_of-filter id (t ∷ ts) = ground (arith, drop_tunnels_of-filter id ts)

Holds-has_request :
    (q : Text) (row : TunnelRow) (ts : List TunnelRow)
    → request_is q row.grant_request_id ≡ true
    → Holds row ts
    → has_request q ts ≡ true
unfolding has_request
Holds-has_request q row [] e h = absurd h
Holds-has_request q row (t ∷ ts) e (inl same) =
    let this : request_is q t.grant_request_id ≡ true = rw same e in rw this refl
Holds-has_request q row (t ∷ ts) e (inr more) =
    let rest = Holds-has_request q row ts e more in ground arith

Holds-purge_tunnels :
    (now : ℕ) (row : TunnelRow) (ts : List TunnelRow)
    → now < row.expires_at
    → Holds row ts
    → Holds row (purge_tunnels now ts)
Holds-purge_tunnels now row ts live h =
    subst (Holds row) (purge_tunnels-filter now ts)
      (Holds-filter (λ t. not (leb t.expires_at now)) row ts (ground arith) h)

-- An insertion leaves the rows, or puts one before them.
Holds-grant :
    (row : TunnelRow) (h : ℕ) (v : AccountId) (r : ResourceId) (c i q : Text) (now e : ℕ) (db : Db)
    → Holds row (purge_tunnels now db.tunnel_sessions)
    → Holds row ((create_broker_tunnel_session h v r c i q now e db).0.tunnel_sessions)
unfolding create_broker_tunnel_session
Holds-grant row h v r c i q now e db held =
    let ts = purge_tunnels now db.tunnel_sessions in
    elim (Bool-cases (has_tunnel h ts || has_request q ts)) [
      | inl taken ↦ rw taken held
      | inr free ↦
          elim (Bool-cases (references r v db && has_credential i db.machine_credentials)) [
            | inl known ↦ rw (free, known) (inr held)
            | inr unknown ↦ rw (free, unknown) held
          ]
    ]

Holds-establish :
    (row : TunnelRow) (h : ℕ) (v : AccountId) (r : ResourceId) (c : Text) (now e : ℕ) (db : Db)
    → Holds row (purge_tunnels now db.tunnel_sessions)
    → Holds row ((create_tunnel_session h v r c now e db).0.tunnel_sessions)
unfolding create_tunnel_session
Holds-establish row h v r c now e db held =
    elim (Bool-cases
      (references r v db && not (has_tunnel h (purge_tunnels now db.tunnel_sessions)))) [
        | inl fits ↦ rw fits (inr held)
        | inr unfit ↦ rw unfit held
      ]

Holds-delete_resource :
    (row : TunnelRow) (owner : AccountId) (id : ResourceId) (db : Db)
    → (row.resource_id == id) ≡ false
    → Holds row db.tunnel_sessions
    → Holds row (delete_resource owner id db).0.tunnel_sessions
unfolding delete_resource
Holds-delete_resource row owner id db other held =
    elim (Bool-cases (any (is_at id owner) db.resources)) [
      | inl here ↦ rw here (
          subst (Holds row) (drop_tunnels_of-filter id db.tunnel_sessions) (
            Holds-filter (λ t. not (t.resource_id == id)) row db.tunnel_sessions (rw other refl)
              held))
      | inr none_here ↦ rw none_here held
    ]

Holds-after :
    (row : TunnelRow) (op : SessionOp) (db : Db)
    → Spares row op
    → Holds row db.tunnel_sessions
    → Holds row (after op db).tunnel_sessions
unfolding after delete_tunnel_session delete_resource revoke_machine_credential
Holds-after row (grant h v r c i q now e) db live held =
    Holds-grant row h v r c i q now e db (Holds-purge_tunnels now row db.tunnel_sessions live held)
Holds-after row (establish h v r c now e) db live held =
    Holds-establish row h v r c now e db (Holds-purge_tunnels now row db.tunnel_sessions live held)
Holds-after row (close h) db other held =
    Holds-filter (λ t. not (t.token_hash == h)) row db.tunnel_sessions (rw other refl) held
Holds-after row (remove_resource owner id) db other held =
    Holds-delete_resource row owner id db other held
Holds-after row (revoke account id) db other held =
    elim (Bool-cases (any (is_own account id) db.machine_credentials)) [
      | inl here ↦ rw here (
          Holds-filter (λ t. not (request_is id t.issuer_credential_id)) row db.tunnel_sessions
            (rw other refl) held)
      | inr none_here ↦ rw none_here held
    ]

granted_of_Holds :
    (q : Text) (row : TunnelRow) (op : SessionOp) (db : Db)
    → request_is q row.grant_request_id ≡ true
    → Spares row op
    → Holds row db.tunnel_sessions
    → granted q op db ≡ 0
unfolding granted
granted_of_Holds q row (grant h v r c i p now e) db named live held =
    elim (Bool-cases (list_eq p q)) [
      | inr another ↦ rw another refl
      | inl this ↦
          let same : p ≡ q = list_eq_sound p q this in
          let found : has_request p (purge_tunnels now db.tunnel_sessions) ≡ true = rw same (
            Holds-has_request q row (purge_tunnels now db.tunnel_sessions) named
              (Holds-purge_tunnels now row db.tunnel_sessions live held)) in
          let refused = create_broker_tunnel_session-taken h v r c i p now e db found in
          rw (this, refused) refl
    ]
granted_of_Holds q row (establish _ _ _ _ _ _) db named live held = refl
granted_of_Holds q row (close _) db named live held = refl
granted_of_Holds q row (remove_resource _ _) db named live held = refl
granted_of_Holds q row (revoke _ _) db named live held = refl

granted_in_of_Holds :
    (q : Text) (row : TunnelRow) (ops : List SessionOp) (db : Db)
    → request_is q row.grant_request_id ≡ true
    → All (Spares row) ops
    → Holds row db.tunnel_sessions
    → granted_in q ops db ≡ 0
unfolding granted_in
granted_in_of_Holds q row [] db named spared held = refl
granted_in_of_Holds q row (op ∷ ops) db named spared held =
    let now = granted_of_Holds q row op db named spared.0 held in
    let later =
      granted_in_of_Holds q row ops (after op db) named spared.1
        (Holds-after row op db spared.0 held) in
    ground arith

-- While the session that it opened lasts, a broker's request is single-use: whatever grants,
-- redemptions of tickets, closings, deletions of resources and revocations of credentials follow, in
-- any order, no further grant of the same request opens a session, as long as every grant and
-- redemption comes before the first session expires and nothing deletes that session (by its token,
-- with its resource or with its credential).
pub create_broker_tunnel_session-once :
    (h : ℕ) (v : AccountId) (r : ResourceId) (c i q : Text) (now e : ℕ) (db db1 : Db)
    (ops : List SessionOp)
    → create_broker_tunnel_session h v r c i q now e db ≡ (db1, some true)
    → All (Spares (opened h v r c i q e)) ops
    → granted_in q ops db1 ≡ 0
create_broker_tunnel_session-once h v r c i q now e db db1 ops first spared =
    granted_in_of_Holds q (opened h v r c i q e) ops db1 (unfold request_is in list_eq_refl q)
      spared (rw (create_broker_tunnel_session-opened h v r c i q now e db db1 first) (inl refl))
