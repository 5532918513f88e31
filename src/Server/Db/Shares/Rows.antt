-- ===== src/Server/Db/Shares/Rows.antt =====
-- crates/devsite-server/src/db.rs: the statements on `shares` and `share_invitations`, one for each
-- WHERE clause, and what each leaves at a resource and a viewer.
use devsite.Prelude.{
  ◌≡◌, refl, Bool, true, false, ◌&&◌, ◌||◌, Option, some, none, List, [], ◌∷◌, ◌==◌, if◌then◌else◌,
  arith, contains, ◌∙◌, Option-cases, inl, inr,
}
use devsite.Proto.Capability.{AccountId, ResourceId}
use devsite.Server.Db.Rows.{ShareRow, InvitationRow, ShareStatus, pending, declined}

-- `resource_id = ?1 AND viewer_id = ?2`.
abbrev pub same : ResourceId → AccountId → ResourceId → AccountId → Bool
same r v resource viewer = r == resource && v == viewer

abbrev pub is_pending : ShareStatus → Bool
is_pending pending = true
is_pending _ = false

unfoldable pub share_at : ResourceId → AccountId → List ShareRow → Bool
share_at resource viewer [] = false
share_at resource viewer (s ∷ ss) =
    same s.resource_id s.viewer_id resource viewer || share_at resource viewer ss

unfoldable pub invitation_at : ResourceId → AccountId → List InvitationRow → Option ShareStatus
invitation_at resource viewer [] = none
invitation_at resource viewer (i ∷ is) =
    if same i.resource_id i.viewer_id resource viewer
    then some i.status
    else invitation_at resource viewer is

-- Whether a row matches `status = 'pending'` too.
unfoldable pub has_pending : ResourceId → AccountId → List InvitationRow → Bool
has_pending resource viewer [] = false
has_pending resource viewer (i ∷ is) =
    same i.resource_id i.viewer_id resource viewer && is_pending i.status
    || has_pending resource viewer is

unfoldable pub drop_share : ResourceId → AccountId → List ShareRow → List ShareRow
drop_share resource viewer [] = []
drop_share resource viewer (s ∷ ss) =
    let rest = drop_share resource viewer ss in
    if same s.resource_id s.viewer_id resource viewer then rest else s ∷ rest

unfoldable pub drop_invitation : ResourceId → AccountId → List InvitationRow → List InvitationRow
drop_invitation resource viewer [] = []
drop_invitation resource viewer (i ∷ is) =
    let rest = drop_invitation resource viewer is in
    if same i.resource_id i.viewer_id resource viewer then rest else i ∷ rest

-- `DELETE … AND status = 'pending'`.
unfoldable pub drop_pending : ResourceId → AccountId → List InvitationRow → List InvitationRow
drop_pending resource viewer [] = []
drop_pending resource viewer (i ∷ is) =
    let rest = drop_pending resource viewer is in
    if same i.resource_id i.viewer_id resource viewer && is_pending i.status then rest else i ∷ rest

-- `UPDATE … SET status = 'declined' WHERE … AND status = 'pending'`.
unfoldable pub mark_declined : ResourceId → AccountId → List InvitationRow → List InvitationRow
mark_declined resource viewer [] = []
mark_declined resource viewer (i ∷ is) =
    let rest = mark_declined resource viewer is in
    if same i.resource_id i.viewer_id resource viewer && is_pending i.status
    then record i { status = declined } ∷ rest
    else i ∷ rest

-- `SELECT viewer_id … WHERE resource_id = ?1`.
unfoldable pub viewers_of : ResourceId → List ShareRow → List AccountId
viewers_of resource [] = []
viewers_of resource (s ∷ ss) =
    let rest = viewers_of resource ss in
    if s.resource_id == resource then s.viewer_id ∷ rest else rest

unfoldable pub invited_of : ResourceId → List InvitationRow → List AccountId
invited_of resource [] = []
invited_of resource (i ∷ is) =
    let rest = invited_of resource is in
    if i.resource_id == resource then i.viewer_id ∷ rest else rest

-- Each invitation's key stands once: the table's primary key.
abbrev pub Distinct : List InvitationRow → Type 0
Distinct [] = Unit
Distinct (i ∷ is) = (invitation_at i.resource_id i.viewer_id is ≡ none) × Distinct is

pub share_at-drop_share :
    (r : ResourceId) (v : AccountId) (q : ResourceId) (w : AccountId) (ss : List ShareRow)
    → share_at q w (drop_share r v ss) ≡ (if same r v q w then false else share_at q w ss)
unfolding share_at drop_share
share_at-drop_share r v q w [] = ground arith
share_at-drop_share r v q w (s ∷ ss) = ground (arith, share_at-drop_share r v q w ss)

pub invitation_at-drop_invitation :
    (r : ResourceId) (v : AccountId) (q : ResourceId) (w : AccountId) (is : List InvitationRow)
    → invitation_at q w (drop_invitation r v is)
      ≡ (if same r v q w then none else invitation_at q w is)
unfolding invitation_at drop_invitation
invitation_at-drop_invitation r v q w [] = ground arith
invitation_at-drop_invitation r v q w (i ∷ is) =
    ground (arith, invitation_at-drop_invitation r v q w is)

-- A status, with the pending one turned into another.
abbrev pub unless_pending : Option ShareStatus → Option ShareStatus → Option ShareStatus
unless_pending other (some pending) = other
unless_pending other o = o

pub invitation_at-drop_pending :
    (r : ResourceId) (v : AccountId) (q : ResourceId) (w : AccountId) (is : List InvitationRow)
    → Distinct is
    → invitation_at q w (drop_pending r v is)
      ≡ (if same r v q w then unless_pending none (invitation_at q w is) else invitation_at q w is)
unfolding invitation_at drop_pending
invitation_at-drop_pending r v q w [] h = ground arith
invitation_at-drop_pending r v q w (i ∷ is) h =
    ground (arith, invitation_at-drop_pending r v q w is h.1, h.0)

pub invitation_at-mark_declined :
    (r : ResourceId) (v : AccountId) (q : ResourceId) (w : AccountId) (is : List InvitationRow)
    → invitation_at q w (mark_declined r v is) ≡ (
        if same r v q w
        then unless_pending (some declined) (invitation_at q w is)
        else invitation_at q w is)
unfolding invitation_at mark_declined
invitation_at-mark_declined r v q w [] = ground arith
invitation_at-mark_declined r v q w (i ∷ is) =
    ground (arith, invitation_at-mark_declined r v q w is)

pub has_pending-eq :
    (r : ResourceId) (v : AccountId) (is : List InvitationRow)
    → Distinct is
    → has_pending r v is ≡ elim (invitation_at r v is) [ none ↦ false | some s ↦ is_pending s ]
unfolding has_pending invitation_at
has_pending-eq r v [] h = refl
has_pending-eq r v (i ∷ is) h = ground (arith, has_pending-eq r v is h.1, h.0)

pub drop_invitation-Distinct :
    (r : ResourceId) (v : AccountId) (is : List InvitationRow)
    → Distinct is
    → Distinct (drop_invitation r v is)
unfolding drop_invitation
drop_invitation-Distinct r v [] h = h
drop_invitation-Distinct r v (i ∷ is) h = ground (
  arith,
  drop_invitation-Distinct r v is h.1,
  invitation_at-drop_invitation r v i.resource_id i.viewer_id is,
  h.0,
)

pub drop_pending-Distinct :
    (r : ResourceId) (v : AccountId) (is : List InvitationRow)
    → Distinct is
    → Distinct (drop_pending r v is)
unfolding drop_pending
drop_pending-Distinct r v [] h = h
drop_pending-Distinct r v (i ∷ is) h = ground (
  arith,
  drop_pending-Distinct r v is h.1,
  invitation_at-drop_pending r v i.resource_id i.viewer_id is h.1,
  h.0,
)

pub mark_declined-Distinct :
    (r : ResourceId) (v : AccountId) (is : List InvitationRow)
    → Distinct is
    → Distinct (mark_declined r v is)
unfolding mark_declined
mark_declined-Distinct r v [] h = h
mark_declined-Distinct r v (i ∷ is) h = ground (
  arith,
  mark_declined-Distinct r v is h.1,
  invitation_at-mark_declined r v i.resource_id i.viewer_id is,
  h.0,
)

-- `DELETE FROM shares WHERE resource_id = ?1`, and the cascade from a deleted resource.
unfoldable pub drop_shares_of : ResourceId → List ShareRow → List ShareRow
drop_shares_of resource [] = []
drop_shares_of resource (s ∷ ss) =
    let rest = drop_shares_of resource ss in if s.resource_id == resource then rest else s ∷ rest

unfoldable pub drop_invitations_of : ResourceId → List InvitationRow → List InvitationRow
drop_invitations_of resource [] = []
drop_invitations_of resource (i ∷ is) =
    let rest = drop_invitations_of resource is in
    if i.resource_id == resource then rest else i ∷ rest

-- `INSERT OR IGNORE INTO share_invitations … SELECT resource_id, viewer_id, 'pending'`.
unfoldable pub pend_each : ResourceId → List AccountId → List InvitationRow → List InvitationRow
pend_each resource [] is = is
pend_each resource (v ∷ vs) is = pend_each resource vs (elim (invitation_at resource v is) [
  | some _ ↦ is
  | none ↦ record { resource_id = resource; viewer_id = v; status = pending } ∷ is
])

pub share_at-drop_shares_of :
    (r q : ResourceId) (w : AccountId) (ss : List ShareRow)
    → share_at q w (drop_shares_of r ss) ≡ (if r == q then false else share_at q w ss)
unfolding share_at drop_shares_of
share_at-drop_shares_of r q w [] = ground arith
share_at-drop_shares_of r q w (s ∷ ss) = ground (arith, share_at-drop_shares_of r q w ss)

pub invitation_at-drop_invitations_of :
    (r q : ResourceId) (w : AccountId) (is : List InvitationRow)
    → invitation_at q w (drop_invitations_of r is) ≡ (if r == q then none else invitation_at q w is)
unfolding invitation_at drop_invitations_of
invitation_at-drop_invitations_of r q w [] = ground arith
invitation_at-drop_invitations_of r q w (i ∷ is) =
    ground (arith, invitation_at-drop_invitations_of r q w is)

pub drop_invitations_of-Distinct :
    (r : ResourceId) (is : List InvitationRow) → Distinct is → Distinct (drop_invitations_of r is)
unfolding drop_invitations_of
drop_invitations_of-Distinct r [] h = h
drop_invitations_of-Distinct r (i ∷ is) h = ground (
  arith,
  drop_invitations_of-Distinct r is h.1,
  invitation_at-drop_invitations_of r i.resource_id i.viewer_id is,
  h.0,
)

-- An invitation that is missing counts as a pending one.
abbrev pub or_pending : Option ShareStatus → Option ShareStatus
or_pending none = some pending
or_pending (some s) = some s

pub invitation_at-pend_each :
    (r : ResourceId) (vs : List AccountId) (q : ResourceId) (w : AccountId)
    (is : List InvitationRow)
    → invitation_at q w (pend_each r vs is) ≡ (
        if r == q && contains vs w then or_pending (invitation_at q w is) else invitation_at q w is)
unfolding invitation_at pend_each contains
invitation_at-pend_each r [] q w is = ground arith
invitation_at-pend_each r (v ∷ vs) q w is = invitation_at-pend_each r vs q w _ ∙ ground arith

pub pend_each-Distinct :
    (r : ResourceId) (vs : List AccountId) (is : List InvitationRow)
    → Distinct is
    → Distinct (pend_each r vs is)
unfolding pend_each
pend_each-Distinct r [] is h = h
pend_each-Distinct r (v ∷ vs) is h = elim (Option-cases (invitation_at r v is)) [
  | inl missing ↦ rw (missing, pend_each) (pend_each-Distinct r vs _ (missing, h))
  | inr (s, found) ↦ rw (found, pend_each) (pend_each-Distinct r vs is h)
]

pub contains-viewers_of :
    (r : ResourceId) (w : AccountId) (ss : List ShareRow)
    → contains (viewers_of r ss) w ≡ share_at r w ss
unfolding contains viewers_of share_at
contains-viewers_of r w [] = refl
contains-viewers_of r w (s ∷ ss) = ground (arith, contains-viewers_of r w ss)

abbrev pub is_some : Option ShareStatus → Bool
is_some none = false
is_some (some _) = true

pub contains-invited_of :
    (r : ResourceId) (w : AccountId) (is : List InvitationRow)
    → contains (invited_of r is) w ≡ is_some (invitation_at r w is)
unfolding contains invited_of invitation_at
contains-invited_of r w [] = refl
contains-invited_of r w (i ∷ is) = ground (arith, contains-invited_of r w is)
