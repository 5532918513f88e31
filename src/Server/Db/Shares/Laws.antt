-- ===== src/Server/Db/Shares/Laws.antt =====
-- A sequence of sharing operations of crates/devsite-server/src/db.rs, and what it leaves of a
-- recipient's standing.
use devsite.Prelude.{
  ◌≡◌, refl, sym, ◌∙◌, ap, Bool, true, false, Option, some, none, List, [], ◌∷◌, ◌==◌, contains,
  if◌then◌else◌, arith, All, not,
}
use devsite.Proto.Capability.{AccountId, ResourceId}
use devsite.Server.Db.Rows.{Db, ShareStatus, accepted, declined}
use devsite.Server.Db.Shares.Rows.{same}
use devsite.Server.Db.Shares.{references, set_shares, accept_share, decline_share, reset_approvals}
use devsite.Server.Db.Shares.Status.{status, IsConsistent}
use devsite.Server.Db.Shares.Answer.{
  AllKnown, Becomes, set_to, set_shares-Becomes, accepted_by, accept_share-Becomes, declined_by,
}
use devsite.Server.Db.Shares.Decline.{decline_share-Becomes, reset_for, reset_approvals-Becomes}

pub data ShareOp : Type 0 where
  sharing : ResourceId → List AccountId → ShareOp
  accepting declining : AccountId → ResourceId → ShareOp
  relinking : ResourceId → ShareOp

-- The tables after one operation; `none` is a failed statement.
unfoldable pub apply : ShareOp → Db → Option Db
apply (sharing r vs) db = set_shares r vs db
apply (accepting v r) db = elim (accept_share v r db) [ none ↦ none | some (db', _) ↦ some db' ]
apply (declining v r) db = elim (decline_share v r db) [ none ↦ none | some (db', _) ↦ some db' ]
apply (relinking r) db = some (reset_approvals r db)

-- The accounts and the resource an operation names exist.
unfoldable pub Known : ShareOp → Db → Type 0
Known (sharing r vs) db = AllKnown r vs db
Known (accepting v r) db = references r v db ≡ true
Known (declining v r) db = references r v db ≡ true
Known (relinking r) db = true ≡ true

-- The same operation on one recipient's standing alone.
unfoldable pub effect : ShareOp → ResourceId → AccountId → Option ShareStatus → Option ShareStatus
effect (sharing r vs) q w o = set_to r vs q w o
effect (accepting v r) q w o = accepted_by v r q w o
effect (declining v r) q w o = declined_by v r q w o
effect (relinking r) q w o = reset_for r q w o

unfoldable pub effects :
    List ShareOp → ResourceId → AccountId → Option ShareStatus → Option ShareStatus
effects [] q w o = o
effects (op ∷ ops) q w o = effects ops q w (effect op q w o)

-- Operations one after the other, each on what the one before left.
pub data Runs : List ShareOp → Db → Db → Type 0 where
  done : {db : Db} → Runs [] db db
  next :
      {op : ShareOp} {ops : List ShareOp} {db db1 db' : Db}
      → Known op db
      → apply op db ≡ some db1
      → Runs ops db1 db'
      → Runs (op ∷ ops) db db'

-- Every operation whose accounts and resource exist succeeds on consistent tables.
pub apply-Becomes :
    (op : ShareOp) (db : Db)
    → Known op db
    → IsConsistent db
    → (db' : Db) × (apply op db ≡ some db') × Becomes (effect op) db db'
unfolding apply Known effect
apply-Becomes (sharing r vs) db known h = set_shares-Becomes r vs db known h
apply-Becomes (accepting v r) db known h =
    let (db', e, b) = accept_share-Becomes v r db known h in (db', rw (e, apply), b)
apply-Becomes (declining v r) db known h =
    let (db', e, b) = decline_share-Becomes v r db known h in (db', rw (e, apply), b)
apply-Becomes (relinking r) db known h =
    (reset_approvals r db, refl, reset_approvals-Becomes r db h)

apply-at :
    (op : ShareOp) (db db' : Db)
    → Known op db
    → IsConsistent db
    → apply op db ≡ some db'
    → Becomes (effect op) db db'
apply-at op db db' known h e =
    let (db1, e1, b) = apply-Becomes op db known h in
    let same_db : db1 ≡ db' = grind arith in rw (sym same_db) b

-- Operations on consistent tables leave them consistent, and leave every recipient of every
-- resource with the standing that the same operations give when read on that standing alone.
pub Runs-effects :
    {ops : List ShareOp} {db db' : Db}
    → Runs ops db db'
    → IsConsistent db
    → Becomes (effects ops) db db'
unfolding effects
Runs-effects done h = record { at = λ q w. refl; consistent = h }
Runs-effects (next {op} {ops} {db} {db1} {db'} known e rest) h =
    let b = apply-at op db db1 known h e in
    let bs = Runs-effects rest b.consistent in
    record { at = λ q w. bs.at q w ∙ ap (effects ops q w) (b.at q w); consistent = bs.consistent }

-- The operation is not the viewer's own acceptance of the resource.
unfoldable pub not_accepting : AccountId → ResourceId → ShareOp → Bool
not_accepting v r (accepting w q) = not (same q w r v)
not_accepting v r _ = true

abbrev pub is_accepted : Option ShareStatus → Bool
is_accepted (some accepted) = true
is_accepted _ = false

effect-not_accepting :
    (op : ShareOp) (r : ResourceId) (v : AccountId) (o : Option ShareStatus)
    → not_accepting v r op ≡ true
    → is_accepted o ≡ false
    → is_accepted (effect op r v o) ≡ false
unfolding effect not_accepting
effect-not_accepting (sharing q vs) r v o own h = ground arith
effect-not_accepting (accepting w q) r v o own h = ground arith
effect-not_accepting (declining w q) r v o own h = ground arith
effect-not_accepting (relinking q) r v o own h = ground arith

effects-not_accepting :
    (ops : List ShareOp) (r : ResourceId) (v : AccountId) (o : Option ShareStatus)
    → All (λ op. not_accepting v r op ≡ true) ops
    → is_accepted o ≡ false
    → is_accepted (effects ops r v o) ≡ false
unfolding effects
effects-not_accepting [] r v o own h = h
effects-not_accepting (op ∷ ops) r v o own h =
    effects-not_accepting ops r v (effect op r v o) own.1 (effect-not_accepting op r v o own.0 h)

-- Consent: whatever the owner and the other accounts do, an account that has not accepted a
-- resource is not among those it is shared with unless that account accepts it itself.
pub accepted_by_consent :
    {ops : List ShareOp} {db db' : Db} (r : ResourceId) (v : AccountId)
    → Runs ops db db'
    → IsConsistent db
    → All (λ op. not_accepting v r op ≡ true) ops
    → is_accepted (status db r v) ≡ false
    → is_accepted (status db' r v) ≡ false
accepted_by_consent {ops} {db} {db'} r v runs h own before =
    let b = Runs-effects runs h in
    ap is_accepted (b.at r v) ∙ effects-not_accepting ops r v (status db r v) own before

-- The operation does not take the recipient off the resource's list.
unfoldable pub keeps_listed : AccountId → ResourceId → ShareOp → Bool
keeps_listed v r (sharing q vs) = if q == r then contains vs v else true
keeps_listed v r _ = true

effect-declined :
    (op : ShareOp) (r : ResourceId) (v : AccountId)
    → keeps_listed v r op ≡ true
    → effect op r v (some declined) ≡ some declined
unfolding effect keeps_listed
effect-declined (sharing q vs) r v l = ground arith
effect-declined (accepting w q) r v l = ground arith
effect-declined (declining w q) r v l = ground arith
effect-declined (relinking q) r v l = ground arith

effects-declined :
    (ops : List ShareOp) (r : ResourceId) (v : AccountId)
    → All (λ op. keeps_listed v r op ≡ true) ops
    → effects ops r v (some declined) ≡ some declined
unfolding effects
effects-declined [] r v listed = refl
effects-declined (op ∷ ops) r v listed =
    ap (effects ops r v) (effect-declined op r v listed.0) ∙ effects-declined ops r v listed.1

-- A declined share stays declined: neither a new list that still names the recipient, nor a later
-- acceptance, nor a changed destination asks the recipient again.
pub declined_stays :
    {ops : List ShareOp} {db db' : Db} (r : ResourceId) (v : AccountId)
    → Runs ops db db'
    → IsConsistent db
    → All (λ op. keeps_listed v r op ≡ true) ops
    → status db r v ≡ some declined
    → status db' r v ≡ some declined
declined_stays {ops} {db} {db'} r v runs h listed before =
    let b = Runs-effects runs h in
    b.at r v ∙ ap (effects ops r v) before ∙ effects-declined ops r v listed
