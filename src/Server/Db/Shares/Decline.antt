-- ===== src/Server/Db/Shares/Decline.antt =====
-- Declined shares, and links whose destination changed: crates/devsite-server/src/db.rs.
use devsite.Prelude.{
  ◌≡◌, sym, ◌∙◌, Bool, true, false, Option, some, none, ◌∷◌, ◌==◌, if◌then◌else◌, arith, Bool-cases,
  inl, inr,
}
use devsite.Proto.Capability.{AccountId, ResourceId}
use devsite.Server.Db.Rows.{Db, ShareStatus, pending, accepted, declined}
use devsite.Server.Db.Shares.Rows.{
  share_at, invitation_at, has_pending, drop_share, mark_declined, viewers_of, share_at-drop_share,
  invitation_at-mark_declined, mark_declined-Distinct, share_at-drop_shares_of,
  invitation_at-pend_each, pend_each-Distinct, contains-viewers_of,
}
use devsite.Server.Db.Shares.{references, upsert_declined, decline_share, reset_approvals}
use devsite.Server.Db.Shares.Status.{status, IsConsistent}
use devsite.Server.Db.Shares.Answer.{
  Becomes, declined_by, invitation_at-same, share_at-same, has_pending-status,
}

abbrev declining : AccountId → ResourceId → Db → Db
declining v r db = record db {
  shares = drop_share r v db.shares;
  invitations = mark_declined r v db.invitations;
}

declining-Becomes :
    (v : AccountId) (r : ResourceId) (db : Db)
    → IsConsistent db
    → share_at r v db.shares ≡ false
    → Becomes (declined_by v r) db (declining v r db)
unfolding status
declining-Becomes v r db h unshared = record {
  at = λ q w. ground (
    arith,
    invitation_at-same r v q w db,
    share_at-same r v q w db,
    share_at-drop_share r v q w db.shares,
    invitation_at-mark_declined r v q w db.invitations,
    h.open_only q w,
  );
  consistent = record {
    distinct = mark_declined-Distinct r v db.invitations h.distinct;
    disjoint = λ q w e. ground (
      arith,
      share_at-drop_share r v q w db.shares,
      invitation_at-mark_declined r v q w db.invitations,
      h.disjoint q w,
    );
    open_only = λ q w e.
        ground (arith, invitation_at-mark_declined r v q w db.invitations, h.open_only q w);
  };
}

-- The rows after an accepted share is declined.
abbrev withdrawn : AccountId → ResourceId → Db → Db
withdrawn v r db = record (declining v r db) {
  invitations =
      record { resource_id = r; viewer_id = v; status = declined }
      ∷ mark_declined r v db.invitations;
}

decline_share-withdrawn :
    (v : AccountId) (r : ResourceId) (db : Db)
    → references r v db ≡ true
    → IsConsistent db
    → share_at r v db.shares ≡ true
    → decline_share v r db ≡ some (withdrawn v r db, true)
unfolding decline_share upsert_declined
decline_share-withdrawn v r db known h shared =
    let gone : invitation_at r v (mark_declined r v db.invitations) ≡ none =
      ground (arith, h.disjoint r v, invitation_at-mark_declined r v r v db.invitations) in
    rw (shared, decline_share) (rw (gone, upsert_declined) (rw known))

withdrawn-Becomes :
    (v : AccountId) (r : ResourceId) (db : Db)
    → IsConsistent db
    → share_at r v db.shares ≡ true
    → Becomes (declined_by v r) db (withdrawn v r db)
unfolding status invitation_at
withdrawn-Becomes v r db h shared = record {
  at = λ q w. ground (
    arith,
    share_at-same r v q w db,
    share_at-drop_share r v q w db.shares,
    invitation_at-mark_declined r v q w db.invitations,
  );
  consistent = record {
    distinct = (
      ground (arith, h.disjoint r v, invitation_at-mark_declined r v r v db.invitations),
      mark_declined-Distinct r v db.invitations h.distinct,
    );
    disjoint = λ q w e. ground (
      arith,
      share_at-drop_share r v q w db.shares,
      invitation_at-mark_declined r v q w db.invitations,
      h.disjoint q w,
    );
    open_only = λ q w e.
        ground (arith, invitation_at-mark_declined r v q w db.invitations, h.open_only q w);
  };
}

-- Whether there is something to decline.
abbrev pub is_open : Option ShareStatus → Bool
is_open (some pending) = true
is_open (some accepted) = true
is_open _ = false

-- Declining turns the viewer's own pending or accepted share into a declined one and changes no
-- other standing; it reports whether there was one.
pub decline_share-Becomes :
    (v : AccountId) (r : ResourceId) (db : Db)
    → references r v db ≡ true
    → IsConsistent db
    → (db' : Db) × (decline_share v r db ≡ some (db', is_open (status db r v)))
      × Becomes (declined_by v r) db db'
decline_share-Becomes v r db known h = elim (Bool-cases (share_at r v db.shares)) [
  | inl shared ↦
      let open_now : status db r v ≡ some accepted = unfold status in rw shared in
      (
        withdrawn v r db,
        rw open_now (decline_share-withdrawn v r db known h shared),
        withdrawn-Becomes v r db h shared,
      )
  | inr unshared ↦
      let same_answer : has_pending r v db.invitations ≡ is_open (status db r v) =
        has_pending-status r v db h
        ∙ unfold status in rw (unshared, status) (ground (arith, h.open_only r v)) in
      (
        declining v r db,
        rw (sym same_answer) (unfold decline_share in rw (unshared, decline_share)),
        declining-Becomes v r db h unshared,
      )
]

abbrev pub reset : Option ShareStatus → Option ShareStatus
reset (some accepted) = some pending
reset o = o

abbrev pub reset_for : ResourceId → ResourceId → AccountId → Option ShareStatus → Option ShareStatus
reset_for r q w o = if r == q then reset o else o

-- A changed destination makes every accepted share of the resource pending again, and changes no
-- other standing.
pub reset_approvals-Becomes :
    (r : ResourceId) (db : Db) → IsConsistent db → Becomes (reset_for r) db (reset_approvals r db)
unfolding status reset_approvals
reset_approvals-Becomes r db h =
    let vs = viewers_of r db.shares in
    record {
      at = λ q w. elim (Bool-cases (r == q)) [
        | inl this ↦
            let er : q ≡ r = ground arith in
            rw er (
              ground (
                arith,
                share_at-drop_shares_of r r w db.shares,
                invitation_at-pend_each r vs r w db.invitations,
                contains-viewers_of r w db.shares,
                h.disjoint r w,
                h.open_only r w,
              ))
        | inr other ↦ ground (
          arith,
          share_at-drop_shares_of r q w db.shares,
          invitation_at-pend_each r vs q w db.invitations,
        )
      ];
      consistent = record {
        distinct = pend_each-Distinct r vs db.invitations h.distinct;
        disjoint = λ q w e. ground (
          arith,
          share_at-drop_shares_of r q w db.shares,
          invitation_at-pend_each r vs q w db.invitations,
          h.disjoint q w,
        );
        open_only = λ q w e.
            ground (arith, invitation_at-pend_each r vs q w db.invitations, h.open_only q w);
      };
    }
