-- ===== src/Server/Db/Resources/Owned.antt =====
-- Creation and deletion of resources: crates/devsite-server/src/db.rs.
use devsite.Prelude.{
  ◌≡◌, ◌⊎◌, refl, true, false, none, List, [], ◌∷◌, ◌==◌, find, any, arith, Bool-cases, inl, inr,
}
use devsite.Proto.Capability.{AccountId, ResourceId}
use devsite.Server.Db.Rows.{Db, Resource, resource, TicketRow, TunnelRow}
use devsite.Server.Db.Shares.Status.{status}
use devsite.Server.Db.Shares.Rows.{share_at-drop_shares_of, invitation_at-drop_invitations_of}
use devsite.Server.Db.Resources.{
  is_at, drop_resource, delete_resource, drop_tickets_of, drop_tunnels_of,
}
use devsite.Server.Db.Resources.Authorized.{DistinctIds}

-- What stands of a resource in the tables.
pub record IsGone (db : Db) (id : ResourceId) : Type 0 where
  pub row : resource db id ≡ none
  pub standings : (v : AccountId) → status db id v ≡ none
  pub tickets : any (λ t. t.resource_id == id) db.connection_tickets ≡ false
  pub tunnels : any (λ t. t.resource_id == id) db.tunnel_sessions ≡ false

find-absent :
    (owner : AccountId) (id : ResourceId) (rows : List Resource)
    → any (λ q. q.id == id) rows ≡ false
    → find (λ r. r.id == id) (drop_resource id owner rows) ≡ none
unfolding drop_resource
find-absent owner id [] h = refl
find-absent owner id (r ∷ rows) h = ground (arith, find-absent owner id rows)

any-is_at :
    (owner : AccountId) (id : ResourceId) (rows : List Resource)
    → any (is_at id owner) rows ≡ true
    → any (λ q. q.id == id) rows ≡ true
unfolding is_at
any-is_at owner id [] h = cc
any-is_at owner id (r ∷ rows) h = ground (arith, any-is_at owner id rows)

find-drop_resource :
    (owner : AccountId) (id : ResourceId) (rows : List Resource)
    → DistinctIds rows
    → any (is_at id owner) rows ≡ true
    → find (λ r. r.id == id) (drop_resource id owner rows) ≡ none
unfolding drop_resource DistinctIds is_at
find-drop_resource owner id [] d h = cc
find-drop_resource owner id (r ∷ rows) d h = elim (Bool-cases (r.id == id)) [
  | inl this ↦
      let here : id ≡ r.id = ground arith in
      let alone : any (λ q. q.id == id) rows ≡ false = rw here d.0 in
      ground (arith, find-absent owner id rows alone, any-is_at owner id rows)
  | inr other ↦ ground (arith, find-drop_resource owner id rows d.1)
]

any-drop_tickets_of :
    (id : ResourceId) (ts : List TicketRow)
    → any (λ t. t.resource_id == id) (drop_tickets_of id ts) ≡ false
unfolding drop_tickets_of
any-drop_tickets_of id [] = refl
any-drop_tickets_of id (t ∷ ts) = ground (arith, any-drop_tickets_of id ts)

any-drop_tunnels_of :
    (id : ResourceId) (ts : List TunnelRow)
    → any (λ t. t.resource_id == id) (drop_tunnels_of id ts) ≡ false
unfolding drop_tunnels_of
any-drop_tunnels_of id [] = refl
any-drop_tunnels_of id (t ∷ ts) = ground (arith, any-drop_tunnels_of id ts)

has-deleted :
    (owner : AccountId) (id : ResourceId) (db : Db)
    → DistinctIds db.resources
    → any (is_at id owner) db.resources ≡ true
    → ((delete_resource owner id db).1 ≡ true) × IsGone (delete_resource owner id db).0 id
unfolding delete_resource
has-deleted owner id db d found = rw found (
  refl,
  record {
    row = unfold resource in find-drop_resource owner id db.resources d found;
    standings = λ v.
        unfold status in
        ground (
          arith,
          share_at-drop_shares_of id id v db.shares,
          invitation_at-drop_invitations_of id id v db.invitations,
        );
    tickets = any-drop_tickets_of id db.connection_tickets;
    tunnels = any-drop_tunnels_of id db.tunnel_sessions;
  },
)

-- A deletion by the owner removes the resource and everything that refers to it: its row, every
-- recipient's standing, its tickets and its tunnel sessions. A deletion by any other account, or of
-- a resource that does not exist, changes nothing and says so.
pub delete_resource_lem :
    (owner : AccountId) (id : ResourceId) (db : Db)
    → DistinctIds db.resources
    → ((any (is_at id owner) db.resources ≡ true)
        × ((delete_resource owner id db).1 ≡ true)
        × IsGone (delete_resource owner id db).0 id)
      ⊎ ((any (is_at id owner) db.resources ≡ false) × (delete_resource owner id db ≡ (db, false)))
delete_resource_lem owner id db d = elim (Bool-cases (any (is_at id owner) db.resources)) [
  | inl found ↦ let (told, gone) = has-deleted owner id db d found in inl (found, told, gone)
  | inr missing ↦ inr (missing, unfold delete_resource in rw (missing, delete_resource))
]
