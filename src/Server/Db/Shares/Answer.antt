-- ===== src/Server/Db/Shares/Answer.antt =====
-- What the share operations of crates/devsite-server/src/db.rs leave of every recipient's standing.
use devsite.Prelude.{
  ◌≡◌, refl, sym, ap, ◌∙◌, Bool, true, false, not, ◌&&◌, Option, some, none, List, [], ◌∷◌, ◌==◌,
  contains, if◌then◌else◌, arith, Bool-cases, All, any-append, inl, inr,
}
use devsite.Proto.Capability.{AccountId, ResourceId}
use devsite.Server.Db.Rows.{Db, ShareStatus, pending, accepted, declined}
use devsite.Server.Db.Shares.Rows.{
  same, share_at, invitation_at, has_pending, drop_pending, viewers_of, invited_of, or_pending,
  is_some, invitation_at-drop_pending, has_pending-eq, drop_pending-Distinct, contains-viewers_of,
  contains-invited_of,
}
use devsite.Server.Db.Shares.{
  remove_unwanted, references, invite_each, recipients, set_shares, insert_share, accept_share,
}
use devsite.Server.Db.Shares.Status.{
  status, IsConsistent, SameReferences, invite-status, status-remove_unwanted,
  remove_unwanted-IsConsistent, remove_unwanted-SameReferences,
}

-- Every named account and the resource exist.
abbrev pub AllKnown : ResourceId → List AccountId → Db → Type 0
AllKnown r vs db = All (λ v. references r v db ≡ true) vs

pub references-eq :
    (r : ResourceId) (v : AccountId) (a b : Db)
    → SameReferences a b
    → references r v a ≡ references r v b
references-eq r v a b s = rw (s.accounts, s.resources)

AllKnown-eq :
    (r : ResourceId) (vs : List AccountId) (a b : Db)
    → SameReferences a b
    → AllKnown r vs b
    → AllKnown r vs a
AllKnown-eq r [] a b s h = h
AllKnown-eq r (v ∷ vs) a b s h = (references-eq r v a b s ∙ h.0, AllKnown-eq r vs a b s h.1)

-- Several invitations.
pub record AllInvited (r : ResourceId) (vs : List AccountId) (db db' : Db) : Type 0 where
  pub at :
      (q : ResourceId) (w : AccountId)
      → status db' q w
        ≡ (if r == q && contains vs w then or_pending (status db q w) else status db q w)
  pub consistent : IsConsistent db'
  pub references : SameReferences db' db

invite_each-status :
    (r : ResourceId) (vs : List AccountId) (db : Db)
    → AllKnown r vs db
    → IsConsistent db
    → (db' : Db) × (invite_each r vs db ≡ some db') × AllInvited r vs db db'
unfolding invite_each contains
invite_each-status r [] db known h = (
  db,
  refl,
  record {
    at = λ q w. ground arith;
    consistent = h;
    references = record { accounts = refl; resources = refl };
  },
)
invite_each-status r (v ∷ vs) db known h =
    let (db1, first, i) = invite-status r v db known.0 h in
    let (db2, rest, is) =
      invite_each-status r vs db1 (AllKnown-eq r vs db1 db i.references known.1) i.consistent in
    (
      db2,
      rw (first, invite_each) rest,
      record {
        at = λ q w. is.at q w ∙ ground (arith, i.at q w);
        consistent = is.consistent;
        references = record {
          accounts = is.references.accounts ∙ i.references.accounts;
          resources = is.references.resources ∙ i.references.resources;
        };
      },
    )

status-recipients :
    (r : ResourceId) (w : AccountId) (db : Db)
    → contains (recipients r db) w ≡ is_some (status db r w)
unfolding status contains
status-recipients r w db =
    any-append (λ x. x == w) (viewers_of r db.shares) (invited_of r db.invitations)
    ∙ ground (arith, contains-viewers_of r w db.shares, contains-invited_of r w db.invitations)

-- What an operation makes of every recipient's standing, and that the tables stay consistent.
pub record Becomes (after : ResourceId → AccountId → Option ShareStatus → Option ShareStatus)
    (db db' : Db) : Type 0 where
  pub at : (q : ResourceId) (w : AccountId) → status db' q w ≡ after q w (status db q w)
  pub consistent : IsConsistent db'

-- Exactly the named viewers stand with the resource; who stood there keeps the standing.
abbrev pub set_to :
    ResourceId → List AccountId → ResourceId → AccountId → Option ShareStatus → Option ShareStatus
set_to r viewers q w o = if r == q then (if contains viewers w then or_pending o else none) else o

-- Where the named accounts and the resource exist, setting the recipients succeeds. It leaves exactly
-- the named viewers with the resource, of whom those who stood there keep their standing and the
-- others are pending; the standings of all other resources are as before.
pub set_shares-Becomes :
    (r : ResourceId) (viewers : List AccountId) (db : Db)
    → AllKnown r viewers db
    → IsConsistent db
    → (db' : Db) × (set_shares r viewers db ≡ some db') × Becomes (set_to r viewers) db db'
unfolding set_shares
set_shares-Becomes r viewers db known h =
    let kept = remove_unwanted r viewers (recipients r db) db in
    let (db', e, i) =
      invite_each-status r viewers kept
        (AllKnown-eq r viewers kept db
          (remove_unwanted-SameReferences r viewers (recipients r db) db) known)
        (remove_unwanted-IsConsistent r viewers (recipients r db) db h) in
    (
      db',
      e,
      record {
        at = λ q w.
            i.at q w ∙ standing q w (status-remove_unwanted r viewers (recipients r db) db q w);
        consistent = i.consistent;
      },
    )
  where
    standing :
        (q : ResourceId) (w : AccountId) {o : Option ShareStatus}
        → o ≡ (
            if r == q && contains (recipients r db) w && not (contains viewers w)
            then none
            else status db q w)
        → (if r == q && contains viewers w then or_pending o else o)
          ≡ set_to r viewers q w (status db q w)
    standing q w {o} e = elim (Bool-cases (r == q)) [
      | inl this ↦
          let here : r ≡ q = ground arith in
          ground (arith, status-recipients r w db, ap (λ x. status db x w) here)
      | inr other ↦ ground arith
    ]

-- `accept_share`: what was pending is accepted.
abbrev pub accept : Option ShareStatus → Option ShareStatus
accept (some pending) = some accepted
accept o = o

abbrev pub accepted_by :
    AccountId → ResourceId → ResourceId → AccountId → Option ShareStatus → Option ShareStatus
accepted_by v r q w o = if same r v q w then accept o else o

-- `decline_share`: what was pending or accepted is declined.
abbrev pub decline : Option ShareStatus → Option ShareStatus
decline none = none
decline (some _) = some declined

abbrev pub declined_by :
    AccountId → ResourceId → ResourceId → AccountId → Option ShareStatus → Option ShareStatus
declined_by v r q w o = if same r v q w then decline o else o

abbrev pub is_pending_status : Option ShareStatus → Bool
is_pending_status (some pending) = true
is_pending_status _ = false

pub has_pending-status :
    (r : ResourceId) (v : AccountId) (db : Db)
    → IsConsistent db
    → has_pending r v db.invitations ≡ is_pending_status (status db r v)
unfolding status
has_pending-status r v db h =
    has_pending-eq r v db.invitations h.distinct ∙ ground (arith, h.disjoint r v)

-- The rows after an accepted invitation.
abbrev accepting : AccountId → ResourceId → Db → Db
accepting v r db = record db {
  invitations = drop_pending r v db.invitations;
  shares = record { resource_id = r; viewer_id = v } ∷ db.shares;
}

accept_share-accepting :
    (v : AccountId) (r : ResourceId) (db : Db)
    → references r v db ≡ true
    → IsConsistent db
    → has_pending r v db.invitations ≡ true
    → accept_share v r db ≡ some (accepting v r db, true)
unfolding accept_share insert_share
accept_share-accepting v r db known h waiting =
    let unshared : share_at r v db.shares ≡ false =
      ground (arith, h.disjoint r v, has_pending-eq r v db.invitations h.distinct) in
    rw (waiting, accept_share) (rw (unshared, insert_share) (rw known))

-- Where the keys agree, so does what stands there.
pub invitation_at-same :
    (r : ResourceId) (v : AccountId) (q : ResourceId) (w : AccountId) (db : Db)
    → same r v q w ≡ true
    → invitation_at q w db.invitations ≡ invitation_at r v db.invitations
invitation_at-same r v q w db e =
    let er : q ≡ r = ground arith in let ev : w ≡ v = ground arith in rw (er, ev)

pub share_at-same :
    (r : ResourceId) (v : AccountId) (q : ResourceId) (w : AccountId) (db : Db)
    → same r v q w ≡ true
    → share_at q w db.shares ≡ share_at r v db.shares
share_at-same r v q w db e =
    let er : q ≡ r = ground arith in let ev : w ≡ v = ground arith in rw (er, ev)

waiting-status :
    (r : ResourceId) (v : AccountId) (db : Db)
    → IsConsistent db
    → has_pending r v db.invitations ≡ true
    → (invitation_at r v db.invitations ≡ some pending) × (share_at r v db.shares ≡ false)
waiting-status r v db h waiting =
    let e = has_pending-eq r v db.invitations h.distinct in
    (ground arith, ground (arith, h.disjoint r v))

accepting-Becomes :
    (v : AccountId) (r : ResourceId) (db : Db)
    → IsConsistent db
    → has_pending r v db.invitations ≡ true
    → Becomes (accepted_by v r) db (accepting v r db)
unfolding status share_at
accepting-Becomes v r db h waiting =
    let (invited, unshared) = waiting-status r v db h waiting in
    record {
      at = λ q w. ground (
        arith,
        invitation_at-same r v q w db,
        share_at-same r v q w db,
        invitation_at-drop_pending r v q w db.invitations h.distinct,
      );
      consistent = record {
        distinct = drop_pending-Distinct r v db.invitations h.distinct;
        disjoint = λ q w e. ground (
          arith,
          invitation_at-same r v q w db,
          invitation_at-drop_pending r v q w db.invitations h.distinct,
          h.disjoint q w,
        );
        open_only = λ q w e.
            ground (
              arith,
              invitation_at-drop_pending r v q w db.invitations h.distinct,
              h.open_only q w,
            );
      };
    }

-- Accepting turns the viewer's own pending invitation into a grant and changes no other standing;
-- it reports whether there was one.
pub accept_share-Becomes :
    (v : AccountId) (r : ResourceId) (db : Db)
    → references r v db ≡ true
    → IsConsistent db
    → (db' : Db) × (accept_share v r db ≡ some (db', is_pending_status (status db r v)))
      × Becomes (accepted_by v r) db db'
accept_share-Becomes v r db known h = elim (Bool-cases (has_pending r v db.invitations)) [
  | inl waiting ↦ (
    accepting v r db,
    rw (sym (has_pending-status r v db h))
        (rw (accept_share-accepting v r db known h waiting) (rw waiting)),
    accepting-Becomes v r db h waiting,
  )
  | inr idle ↦ (
    db,
    rw (sym (has_pending-status r v db h)) (unfold accept_share in rw (idle, accept_share)),
    record { at = λ q w. idle_at q w idle; consistent = h },
  )
]
  where
    idle_at :
        (q : ResourceId) (w : AccountId)
        → has_pending r v db.invitations ≡ false
        → status db q w ≡ accepted_by v r q w (status db q w)
    idle_at q w idle = elim (Bool-cases (same r v q w)) [
      | inl this ↦
          let er : q ≡ r = ground arith in
          let ev : w ≡ v = ground arith in
          let none_pending : is_pending_status (status db r v) ≡ false =
            sym (has_pending-status r v db h) ∙ idle in
          let here : status db q w ≡ status db r v = rw (er, ev) in ground arith
      | inr other ↦ ground arith
    ]
