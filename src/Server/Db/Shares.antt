-- ===== src/Server/Db/Shares.antt =====
-- crates/devsite-server/src/db.rs: who is invited to a resource, and who accepted. Accepted grants
-- stand in `shares`, the others in `share_invitations`.
pub mod Rows
pub mod Status
pub mod Answer
pub mod Decline
pub mod Laws
use devsite.Prelude.{
  ℕ, Bool, true, false, not, ◌&&◌, ◌||◌, Option, some, none, List, [], ◌∷◌, ◌++◌, map, ◌==◌,
  contains, if◌then◌else◌,
}
use devsite.Proto.Capability.{AccountId, ResourceId}
use devsite.Server.Db.Rows.{
  Db, ShareRow, InvitationRow, ShareStatus, pending, accepted, declined, has_account, has_resource,
}
use Rows.{
  share_at, invitation_at, has_pending, drop_share, drop_invitation, drop_pending, mark_declined,
  viewers_of, invited_of, drop_shares_of, pend_each,
}

-- The two `DELETE`s of `set_shares` for one recipient.
unfoldable pub remove_recipient : ResourceId → AccountId → Db → Db
remove_recipient resource viewer db = record db {
  shares = drop_share resource viewer db.shares;
  invitations = drop_invitation resource viewer db.invitations;
}

-- The first loop of `set_shares`.
unfoldable pub remove_unwanted : ResourceId → List AccountId → List AccountId → Db → Db
remove_unwanted resource desired [] db = db
remove_unwanted resource desired (v ∷ vs) db =
    remove_unwanted resource desired vs
      (if contains desired v then db else remove_recipient resource v db)

abbrev pub references : ResourceId → AccountId → Db → Bool
references resource viewer db = has_resource resource db.resources && has_account viewer db.accounts

-- `INSERT OR IGNORE INTO share_invitations … WHERE NOT EXISTS (SELECT 1 FROM shares …)`.
unfoldable pub invite : ResourceId → AccountId → Db → Option Db
invite resource viewer db =
    if share_at resource viewer db.shares
    then some db
    else elim (invitation_at resource viewer db.invitations) [
      | some _ ↦ some db
      | none ↦
          if references resource viewer db
          then some (record db {
            invitations =
                record { resource_id = resource; viewer_id = viewer; status = pending }
                ∷ db.invitations;
          })
          else none
    ]

-- The second loop of `set_shares`.
unfoldable pub invite_each : ResourceId → List AccountId → Db → Option Db
invite_each resource [] db = some db
invite_each resource (v ∷ vs) db = elim (invite resource v db) [
  | none ↦ none
  | some db' ↦ invite_each resource vs db'
]

-- The recipients of a resource: `UNION` of the two tables. (The loop over them does not notice a
-- viewer that stands there twice.)
abbrev pub recipients : ResourceId → Db → List AccountId
recipients resource db = viewers_of resource db.shares ++ invited_of resource db.invitations

unfoldable pub set_shares : ResourceId → List AccountId → Db → Option Db
set_shares resource viewers db =
    invite_each resource viewers (remove_unwanted resource viewers (recipients resource db) db)

-- `INSERT OR IGNORE INTO shares`.
unfoldable pub insert_share : ResourceId → AccountId → Db → Option Db
insert_share resource viewer db =
    if share_at resource viewer db.shares
    then some db
    else if references resource viewer db
    then some
        (record db { shares = record { resource_id = resource; viewer_id = viewer } ∷ db.shares })
    else none

unfoldable pub accept_share : AccountId → ResourceId → Db → Option (Db × Bool)
accept_share viewer resource db =
    if has_pending resource viewer db.invitations
    then elim (insert_share resource viewer
        (record db { invitations = drop_pending resource viewer db.invitations })) [
          | none ↦ none
          | some db' ↦ some (db', true)
        ]
    else some (db, false)

-- `INSERT … 'declined' ON CONFLICT … DO UPDATE SET status = 'declined'`.
unfoldable pub upsert_declined : ResourceId → AccountId → Db → Option Db
upsert_declined resource viewer db = elim (invitation_at resource viewer db.invitations) [
  | some _ ↦ some (record db {
    invitations =
        record { resource_id = resource; viewer_id = viewer; status = declined }
        ∷ drop_invitation resource viewer db.invitations;
  })
  | none ↦
      if references resource viewer db
      then some (record db {
        invitations =
            record { resource_id = resource; viewer_id = viewer; status = declined }
            ∷ db.invitations;
      })
      else none
]

unfoldable pub decline_share : AccountId → ResourceId → Db → Option (Db × Bool)
decline_share viewer resource db =
    let was_accepted = share_at resource viewer db.shares in
    let was_pending = has_pending resource viewer db.invitations in
    let db' : Db = record db {
      shares = drop_share resource viewer db.shares;
      invitations = mark_declined resource viewer db.invitations;
    } in
    if was_accepted
    then elim (upsert_declined resource viewer db') [ none ↦ none | some db'' ↦ some (db'', true) ]
    else some (db', was_pending)

-- `SELECT viewer_id FROM shares WHERE resource_id = ?1`.
unfoldable pub shared_with : ResourceId → Db → List AccountId
shared_with resource db = viewers_of resource db.shares

-- The statements of `create_resource` after a link's destination has changed: what recipients
-- accepted is pending again.
unfoldable pub reset_approvals : ResourceId → Db → Db
reset_approvals resource db = record db {
  shares = drop_shares_of resource db.shares;
  invitations = pend_each resource (viewers_of resource db.shares) db.invitations;
}
