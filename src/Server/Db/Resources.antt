-- ===== src/Server/Db/Resources.antt =====
-- crates/devsite-server/src/db.rs: resources, and the services an account authorizes.
pub mod Authorized
pub mod Owned
pub mod Relink
pub mod Stored
pub mod Recipients
use devsite.Prelude.{
  ℕ, Bool, true, false, not, ◌&&◌, ◌||◌, Option, some, none, List, [], ◌∷◌, ◌++◌, map, ◌==◌, Text,
  find, filter, length, list_eq, if◌then◌else◌, any,
}
use devsite.Proto.Capability.{AccountId, ResourceId}
use devsite.Server.Policy.{Visibility, public, private, shared}
use devsite.Server.Db.Rows.{
  Db, Resource, ResourceKind, link, service, ShareRow, TicketRow, TunnelRow, has_account,
  has_resource, resource,
}
use devsite.Server.Db.Shares.{reset_approvals}
use devsite.Server.Db.Shares.Rows.{drop_shares_of, drop_invitations_of}

abbrev pub is_service : ResourceKind → Bool
is_service link = false
is_service service = true

abbrev pub is_shared : Visibility → Bool
is_shared shared = true
is_shared _ = false

abbrev pub kind_eq : ResourceKind → ResourceKind → Bool
kind_eq link link = true
kind_eq service service = true
kind_eq _ _ = false

-- `url IS` another: the comparison of `Option<&str>`.
abbrev pub url_eq : Option Text → Option Text → Bool
url_eq none none = true
url_eq (some a) (some b) = list_eq a b
url_eq _ _ = false

-- `WHERE owner_id = ?1 AND name = ?2 AND kind = ?3`.
unfoldable pub is_named : AccountId → Text → ResourceKind → Resource → Bool
unfolding list_eq
is_named owner name kind r = r.owner_id == owner && list_eq r.name name && kind_eq r.kind kind

unfoldable pub named : AccountId → Text → ResourceKind → List Resource → Option Resource
named owner name kind rows = find (is_named owner name kind) rows

abbrev pub is_some_resource : Option Resource → Bool
is_some_resource none = false
is_some_resource (some _) = true

unfoldable pub resource_named : AccountId → Text → ResourceKind → Db → Bool
resource_named owner name kind db = is_some_resource (named owner name kind db.resources)

unfoldable pub resource_count : AccountId → Db → ℕ
resource_count owner db = length (filter (λ r. r.owner_id == owner) db.resources)

-- `UPDATE resources SET visibility = ?1, url = ?2, folder = ?3 WHERE id = ?4`.
unfoldable pub update_resource :
    ResourceId → Visibility → Option Text → Option Text → List Resource → List Resource
update_resource id visibility url folder [] = []
update_resource id visibility url folder (r ∷ rows) =
    let rest = update_resource id visibility url folder rows in
    if r.id == id
    then (record r { visibility = visibility; url = url; folder = folder }) ∷ rest
    else r ∷ rest

-- `id` is the generated identifier of a new resource; `none` is a failed statement.
unfoldable pub create_resource :
    ResourceId
    → AccountId
    → Text
    → ResourceKind
    → Visibility
    → Option Text
    → Option Text
    → ℕ
    → Db
    → Option (Db × ResourceId)
create_resource id owner name kind visibility url folder now db =
    elim (named owner name kind db.resources) [
      | some existing ↦
          let updated : Db = record db {
            resources = update_resource existing.id visibility url folder db.resources;
          } in
          some (
            if url_eq existing.url url then updated else reset_approvals existing.id updated,
            existing.id,
          )
      | none ↦
          if has_account owner db.accounts && not (has_resource id db.resources)
          then some (record db { resources = db.resources ++ (created ∷ []) }, id)
          else none
    ]
  where
    created : Resource
    created = record {
      id = id;
      owner_id = owner;
      name = name;
      kind = kind;
      visibility = visibility;
      url = url;
      folder = folder;
      created_at = now;
    }

unfoldable pub is_at : ResourceId → AccountId → Resource → Bool
is_at id owner r = r.id == id && r.owner_id == owner

unfoldable pub drop_resource : ResourceId → AccountId → List Resource → List Resource
drop_resource id owner [] = []
drop_resource id owner (r ∷ rows) =
    let rest = drop_resource id owner rows in if is_at id owner r then rest else r ∷ rest

unfoldable pub drop_tickets_of : ResourceId → List TicketRow → List TicketRow
drop_tickets_of id [] = []
drop_tickets_of id (t ∷ ts) =
    let rest = drop_tickets_of id ts in if t.resource_id == id then rest else t ∷ rest

unfoldable pub drop_tunnels_of : ResourceId → List TunnelRow → List TunnelRow
drop_tunnels_of id [] = []
drop_tunnels_of id (t ∷ ts) =
    let rest = drop_tunnels_of id ts in if t.resource_id == id then rest else t ∷ rest

-- `DELETE FROM resources WHERE id = ?1 AND owner_id = ?2`, with what `ON DELETE CASCADE` removes.
unfoldable pub delete_resource : AccountId → ResourceId → Db → Db × Bool
delete_resource owner id db =
    if any (is_at id owner) db.resources
    then (
      record db {
        resources = drop_resource id owner db.resources;
        shares = drop_shares_of id db.shares;
        invitations = drop_invitations_of id db.invitations;
        connection_tickets = drop_tickets_of id db.connection_tickets;
        tunnel_sessions = drop_tunnels_of id db.tunnel_sessions;
      },
      true,
    )
    else (db, false)

-- The owner's half of `service_authorizations`: `r.owner_id = ?1 AND r.kind = 'service'`.
unfoldable pub owner_pairs : AccountId → List Resource → List (AccountId × ResourceId)
owner_pairs owner [] = []
owner_pairs owner (r ∷ rows) =
    let rest = owner_pairs owner rows in
    if r.owner_id == owner && is_service r.kind then (r.owner_id, r.id) ∷ rest else rest

-- The rows of `shares` that a resource joins.
unfoldable pub viewer_pairs : ResourceId → List ShareRow → List (AccountId × ResourceId)
viewer_pairs id [] = []
viewer_pairs id (s ∷ rows) =
    let rest = viewer_pairs id rows in
    if s.resource_id == id then (s.viewer_id, id) ∷ rest else rest

-- The recipients' half: `… JOIN shares s ON s.resource_id = r.id … AND r.visibility = 'shared'`.
unfoldable pub recipient_pairs :
    AccountId → List ShareRow → List Resource → List (AccountId × ResourceId)
recipient_pairs owner shares [] = []
recipient_pairs owner shares (r ∷ rows) =
    let rest = recipient_pairs owner shares rows in
    if r.owner_id == owner && is_service r.kind && is_shared r.visibility
    then viewer_pairs r.id shares ++ rest
    else rest

unfoldable pub service_authorizations : AccountId → Db → List (AccountId × ResourceId)
service_authorizations owner db =
    owner_pairs owner db.resources ++ recipient_pairs owner db.shares db.resources
