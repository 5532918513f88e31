-- ===== src/Server/Db/Listings.antt =====
-- crates/devsite-server/src/db.rs: the ordered lists of resources and recipients. Rows that the
-- ORDER BY does not tell apart stand in the order of their tables. A text is ordered as its code
-- points, which is the order of its UTF-8 bytes.
pub mod Laws
use devsite.Prelude.{
  ℕ, Bool, true, false, not, ◌&&◌, ◌||◌, Option, some, none, List, [], ◌∷◌, ◌++◌, map, ◌==◌, ltb,
  leb, Text, text, filter, if◌then◌else◌,
}
use devsite.Proto.Capability.{AccountId, ResourceId}
use devsite.Proto.Id.{ascii_lower}
use devsite.Server.Db.Rows.{
  Db, AccountRow, Resource, ResourceKind, link, service, ShareRow, InvitationRow, ShareStatus,
  pending, accepted, declined, account_by_id, resource,
}
use devsite.Server.Db.Shares.Rows.{share_at}
use devsite.Server.Db.Resources.{is_service, is_shared}

module _ {ℓ} {A : Type ℓ} where
  unfoldable pub insert_by : (A → A → Bool) → A → List A → List A
  insert_by before x [] = x ∷ []
  insert_by before x (y ∷ ys) =
      let rest = insert_by before x ys in if before x y then x ∷ y ∷ ys else y ∷ rest

  -- `ORDER BY`.
  unfoldable pub order_by : (A → A → Bool) → List A → List A
  order_by before [] = []
  order_by before (x ∷ xs) = insert_by before x (order_by before xs)

unfoldable pub text_leb : Text → Text → Bool
text_leb [] t = true
text_leb (c ∷ s) [] = false
text_leb (c ∷ s) (d ∷ t) = ltb c d || (c == d && text_leb s t)

-- `COLLATE NOCASE`, and `lower`: ASCII letters without their case.
abbrev pub lower : Text → Text
lower t = map ascii_lower t

abbrev pub older : Resource → Resource → Bool
older r q = leb r.created_at q.created_at

unfoldable pub resources_owned_by : AccountId → Db → List Resource
resources_owned_by owner db = order_by older (filter (λ r. r.owner_id == owner) db.resources)

abbrev pub is_foreign_share : AccountId → Db → Resource → Bool
is_foreign_share viewer db r = share_at r.id viewer db.shares && not (r.owner_id == viewer)

unfoldable pub resources_shared_with : AccountId → Db → List Resource
resources_shared_with viewer db = order_by older (filter (is_foreign_share viewer db) db.resources)

unfoldable pub status_text : ShareStatus → Text
status_text pending = text "pending"
status_text accepted = text "accepted"
status_text declined = text "declined"

unfoldable pub kind_text : ResourceKind → Text
kind_text link = text "link"
kind_text service = text "service"

pub record ShareRecipient : Type 0 where
  pub handle : Text
  pub status : ShareStatus

unfoldable pub handle_of : AccountId → Db → Option Text
handle_of id db = elim (account_by_id db id) [ none ↦ none | some a ↦ a.handle ]

-- The row of a recipient whose account has a handle, before the others.
unfoldable pub with_recipient :
    Option Text → ShareStatus → List ShareRecipient → List ShareRecipient
with_recipient none status rest = rest
with_recipient (some handle) status rest = record { handle = handle; status = status } ∷ rest

unfoldable pub accepted_recipients : ResourceId → List ShareRow → Db → List ShareRecipient
unfolding handle_of with_recipient
accepted_recipients id [] db = []
accepted_recipients id (s ∷ ss) db =
    let rest = accepted_recipients id ss db in
    if s.resource_id == id then with_recipient (handle_of s.viewer_id db) accepted rest else rest

unfoldable pub invited_recipients : ResourceId → List InvitationRow → Db → List ShareRecipient
unfolding handle_of with_recipient
invited_recipients id [] db = []
invited_recipients id (i ∷ is) db =
    let rest = invited_recipients id is db in
    if i.resource_id == id then with_recipient (handle_of i.viewer_id db) i.status rest else rest

unfoldable pub share_recipients : ResourceId → Db → List ShareRecipient
unfolding accepted_recipients invited_recipients text_leb
share_recipients id db =
    order_by (λ a b. text_leb (lower a.handle) (lower b.handle))
      (accepted_recipients id db.shares db ++ invited_recipients id db.invitations db)

-- The owner's handle, which is left out of the account's own services.
abbrev pub shown_owner : AccountId → Resource → Db → Option Text
shown_owner viewer r db = if r.owner_id == viewer then none else handle_of r.owner_id db

unfoldable pub is_accessible : AccountId → Db → Resource → Bool
is_accessible viewer db r =
    is_service r.kind && (r.owner_id == viewer || share_at r.id viewer db.shares)

abbrev or_blank : Option Text → Text
or_blank none = []
or_blank (some t) = t

-- `ORDER BY lower(r.name), lower(COALESCE(a.handle, ''))`.
abbrev pub name_before : Db → Resource → Resource → Bool
name_before db r q =
    let a = lower r.name in
    let b = lower q.name in
    not (text_leb b a)
    || (text_leb a b
        && text_leb (lower (or_blank (handle_of r.owner_id db)))
            (lower (or_blank (handle_of q.owner_id db))))

unfoldable pub accessible_services : AccountId → Db → List (Resource × Option Text)
unfolding is_accessible handle_of text_leb
accessible_services viewer db =
    map (λ r. (r, shown_owner viewer r db))
      (order_by (name_before db) (filter (is_accessible viewer db) db.resources))

pub record IncomingShare : Type 0 where
  pub resource : Resource
  pub owner_handle : Text
  pub status : ShareStatus

-- A share of a resource that is shared and whose owner has a handle.
unfoldable pub with_incoming :
    Option Resource → ShareStatus → Db → List IncomingShare → List IncomingShare
unfolding handle_of
with_incoming none status db rest = rest
with_incoming (some r) status db rest =
    if is_shared r.visibility
    then (elim (handle_of r.owner_id db) [
      | none ↦ rest
      | some handle ↦ record { resource = r; owner_handle = handle; status = status } ∷ rest
    ])
    else rest

unfoldable pub incoming_accepted : AccountId → List ShareRow → Db → List IncomingShare
unfolding with_incoming
incoming_accepted viewer [] db = []
incoming_accepted viewer (s ∷ ss) db =
    let rest = incoming_accepted viewer ss db in
    if s.viewer_id == viewer
    then with_incoming (resource db s.resource_id) accepted db rest
    else rest

abbrev pub is_pending : ShareStatus → Bool
is_pending pending = true
is_pending _ = false

unfoldable pub incoming_pending : AccountId → List InvitationRow → Db → List IncomingShare
unfolding with_incoming
incoming_pending viewer [] db = []
incoming_pending viewer (i ∷ is) db =
    let rest = incoming_pending viewer is db in
    if i.viewer_id == viewer && is_pending i.status
    then with_incoming (resource db i.resource_id) i.status db rest
    else rest

-- Pending before accepted, then by age.
abbrev incoming_before : IncomingShare → IncomingShare → Bool
incoming_before a b =
    if is_pending a.status
    then not (is_pending b.status) || older a.resource b.resource
    else not (is_pending b.status) && older a.resource b.resource

unfoldable pub incoming_shares : AccountId → Db → List IncomingShare
unfolding incoming_accepted incoming_pending
incoming_shares viewer db =
    order_by incoming_before
      (incoming_accepted viewer db.shares db ++ incoming_pending viewer db.invitations db)
