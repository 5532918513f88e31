-- ===== src/Server/Db/Shares/Status.antt =====
-- A recipient's standing, and what `set_shares` makes of it:
-- crates/devsite-server/src/db.rs.
use devsite.Prelude.{
  ◌≡◌, ◌≢◌, refl, ◌∙◌, inl, inr, true, not, ◌&&◌, Option, some, none, List, [], ◌∷◌, ◌==◌, contains,
  if◌then◌else◌, arith, Bool-cases, Option-cases,
}
use devsite.Proto.Capability.{AccountId, ResourceId}
use devsite.Server.Db.Rows.{Db, ShareStatus, pending, accepted}
use devsite.Server.Db.Shares.Rows.{
  same, share_at, invitation_at, Distinct, or_pending, share_at-drop_share,
  invitation_at-drop_invitation, drop_invitation-Distinct,
}
use devsite.Server.Db.Shares.{remove_recipient, remove_unwanted, references, invite}

-- What the two tables say together of a resource and a viewer.
unfoldable pub status : Db → ResourceId → AccountId → Option ShareStatus
status db r v = if share_at r v db.shares then some accepted else invitation_at r v db.invitations

-- A recipient stands in one table only, once, and the invitations hold no accepted row.
pub record IsConsistent (db : Db) : Type 0 where
  pub distinct : Distinct db.invitations
  pub disjoint :
      (r : ResourceId) (v : AccountId)
      → share_at r v db.shares ≡ true
      → invitation_at r v db.invitations ≡ none
  pub open_only :
      (r : ResourceId) (v : AccountId) → invitation_at r v db.invitations ≢ some accepted

status-remove_recipient :
    (r : ResourceId) (v : AccountId) (db : Db) (q : ResourceId) (w : AccountId)
    → status (remove_recipient r v db) q w ≡ (if same r v q w then none else status db q w)
unfolding status remove_recipient
status-remove_recipient r v db q w = ground (
  arith,
  share_at-drop_share r v q w db.shares,
  invitation_at-drop_invitation r v q w db.invitations,
)

remove_recipient-IsConsistent :
    (r : ResourceId) (v : AccountId) (db : Db)
    → IsConsistent db
    → IsConsistent (remove_recipient r v db)
unfolding remove_recipient
remove_recipient-IsConsistent r v db h = record {
  distinct = drop_invitation-Distinct r v db.invitations h.distinct;
  disjoint = λ q w e. ground (
    arith,
    share_at-drop_share r v q w db.shares,
    invitation_at-drop_invitation r v q w db.invitations,
    h.disjoint q w,
  );
  open_only = λ q w e.
      ground (arith, invitation_at-drop_invitation r v q w db.invitations, h.open_only q w);
}

abbrev removal : ResourceId → List AccountId → AccountId → Db → Db
removal r desired v db = if contains desired v then db else remove_recipient r v db

status-removal :
    (r : ResourceId) (desired : List AccountId) (v : AccountId) (db : Db) (q : ResourceId)
    (w : AccountId)
    → status (removal r desired v db) q w
      ≡ (if same r v q w && not (contains desired v) then none else status db q w)
status-removal r desired v db q w = elim (Bool-cases (contains desired v)) [
  | inl wanted ↦ rw wanted (ground arith)
  | inr unwanted ↦ rw unwanted (status-remove_recipient r v db q w ∙ ground arith)
]

pub status-remove_unwanted :
    (r : ResourceId) (desired vs : List AccountId) (db : Db) (q : ResourceId) (w : AccountId)
    → status (remove_unwanted r desired vs db) q w
      ≡ (if r == q && contains vs w && not (contains desired w) then none else status db q w)
unfolding remove_unwanted contains
status-remove_unwanted r desired [] db q w = ground arith
status-remove_unwanted r desired (v ∷ vs) db q w =
    status-remove_unwanted r desired vs (removal r desired v db) q w
    ∙ ground (arith, status-removal r desired v db q w)

pub remove_unwanted-IsConsistent :
    (r : ResourceId) (desired vs : List AccountId) (db : Db)
    → IsConsistent db
    → IsConsistent (remove_unwanted r desired vs db)
unfolding remove_unwanted
remove_unwanted-IsConsistent r desired [] db h = h
remove_unwanted-IsConsistent r desired (v ∷ vs) db h =
    remove_unwanted-IsConsistent r desired vs (removal r desired v db)
      (elim (Bool-cases (contains desired v)) [
        | inl wanted ↦ rw (wanted, removal) h
        | inr unwanted ↦ rw (unwanted, removal) (remove_recipient-IsConsistent r v db h)
      ])

-- The referenced tables, which these operations leave alone.
pub record SameReferences (a b : Db) : Type 0 where
  pub accounts : a.accounts ≡ b.accounts
  pub resources : a.resources ≡ b.resources

pub remove_unwanted-SameReferences :
    (r : ResourceId) (desired vs : List AccountId) (db : Db)
    → SameReferences (remove_unwanted r desired vs db) db
unfolding remove_unwanted remove_recipient
remove_unwanted-SameReferences r desired [] db = record { accounts = refl; resources = refl }
remove_unwanted-SameReferences r desired (v ∷ vs) db =
    let ih = remove_unwanted-SameReferences r desired vs (removal r desired v db) in
    record { accounts = ground (arith, ih.accounts); resources = ground (arith, ih.resources) }

-- The outcome of an invitation: the recipient stands as before, or as pending.
pub record Invited (r : ResourceId) (v : AccountId) (db db' : Db) : Type 0 where
  pub at :
      (q : ResourceId) (w : AccountId)
      → status db' q w ≡ (if same r v q w then or_pending (status db q w) else status db q w)
  pub consistent : IsConsistent db'
  pub references : SameReferences db' db

pub invite-status :
    (r : ResourceId) (v : AccountId) (db : Db)
    → references r v db ≡ true
    → IsConsistent db
    → (db' : Db) × (invite r v db ≡ some db') × Invited r v db db'
unfolding invite
invite-status r v db known h = elim (Bool-cases (share_at r v db.shares)) [
  | inl shared ↦ (
    db,
    rw shared,
    record {
      at = λ q w. unfold status in ground (arith);
      consistent = h;
      references = record { accounts = refl; resources = refl };
    },
  )
  | inr unshared ↦ elim (Option-cases (invitation_at r v db.invitations)) [
    | inr (s, found) ↦ (
      db,
      rw (unshared, invite) (rw (found, invite)),
      record {
        at = λ q w. unfold status in ground (arith);
        consistent = h;
        references = record { accounts = refl; resources = refl };
      },
    )
    | inl missing ↦ (
      invited,
      rw (unshared, invite) (rw (missing, invite) (rw known)),
      record {
        at = λ q w. unfold status invitation_at in ground (arith);
        consistent = record {
          distinct = (missing, h.distinct);
          disjoint = λ q w e. unfold invitation_at in ground (arith, h.disjoint q w);
          open_only = λ q w e. unfold invitation_at in ground (arith, h.open_only q w);
        };
        references = record { accounts = refl; resources = refl };
      },
    )
  ]
]
  where
    invited : Db
    invited = record db {
      invitations = record { resource_id = r; viewer_id = v; status = pending } ∷ db.invitations;
    }
