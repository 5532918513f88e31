-- ===== src/Tests/Sharing.antt =====
-- The sharing operations of crates/devsite-server/src/db.rs at concrete inputs.
use devsite.Prelude.{◌⊎◌, list_eq}
use devsite.Server.Db.Resources.{create_resource, named, is_named, url_eq}
use devsite.Server.Db.Resources.Relink.{create_resource-existing}
use devsite.Prelude.{◌≡◌, refl, true, false, some, none, List, [], ◌∷◌, text, arith, All, contains}
use devsite.Proto.Capability.{AccountId, ResourceId}
use devsite.Server.Policy.{shared}
use devsite.Server.Db.Rows.{
  Db, AccountRow, Resource, link, pending, accepted, declined, empty_db, has_resource, has_account,
}
use devsite.Server.Db.Shares.{references, set_shares, reset_approvals}
use devsite.Server.Db.Shares.Rows.{share_at, invitation_at}
use devsite.Server.Db.Shares.Status.{status, IsConsistent}
use devsite.Server.Db.Shares.Answer.{AllKnown, Becomes, set_to, set_shares-Becomes}
use devsite.Server.Db.Shares.Decline.{reset_for}
use devsite.Server.Db.Shares.Laws.{
  ShareOp, sharing, relinking, apply, Known, effects, Runs, done, next, Runs-effects, is_accepted,
  not_accepting, keeps_listed, accepted_by_consent, declined_stays,
}

abbrev account : AccountId → AccountRow
account id = record { id = id; external_sub = text "sub"; handle = none; created_at = 1 }

abbrev docs : Resource
docs = record {
  id = 7;
  owner_id = 3;
  name = text "docs";
  kind = link;
  visibility = shared;
  url = none;
  folder = none;
  created_at = 1;
}

-- Account 4 has accepted link 7, account 5 is invited to it, and account 6 has declined it.
abbrev db : Db
db = record empty_db {
  accounts = account 3 ∷ account 4 ∷ account 5 ∷ account 6 ∷ [];
  resources = docs ∷ [];
  shares = record { resource_id = 7; viewer_id = 4 } ∷ [];
  invitations =
      record { resource_id = 7; viewer_id = 5; status = pending }
      ∷ record { resource_id = 7; viewer_id = 6; status = declined }
      ∷ [];
}

db-disjoint :
    (r : ResourceId) (v : AccountId)
    → share_at r v db.shares ≡ true
    → invitation_at r v db.invitations ≡ none
unfolding share_at invitation_at
db-disjoint r v e = ground arith

db-open_only :
    (r : ResourceId) (v : AccountId) → invitation_at r v db.invitations ≡ some accepted → ⊥
unfolding invitation_at
db-open_only r v e = ground arith

db-IsConsistent : IsConsistent db
unfolding invitation_at
db-IsConsistent = record {
  distinct = (refl, (refl, tt));
  disjoint = db-disjoint;
  open_only = db-open_only;
}

known_4_6 : AllKnown 7 (4 ∷ 6 ∷ []) db
unfolding has_resource has_account
known_4_6 = (refl, (refl, tt))

set_shares-Becomes_example :
    (db' : Db) × (set_shares 7 (4 ∷ 6 ∷ []) db ≡ some db') × Becomes (set_to 7 (4 ∷ 6 ∷ [])) db db'
set_shares-Becomes_example = set_shares-Becomes 7 (4 ∷ 6 ∷ []) db known_4_6 db-IsConsistent

known_5 : references 7 5 db ≡ true
unfolding has_resource has_account
known_5 = refl

-- The owner names accounts 4 and 6, and then changes the link.
abbrev ops : List ShareOp
ops = sharing 7 (4 ∷ 6 ∷ []) ∷ relinking 7 ∷ []

abbrev listed : Db
listed = (set_shares-Becomes 7 (4 ∷ 6 ∷ []) db known_4_6 db-IsConsistent).0

ops-Runs : Runs ops db (reset_approvals 7 listed)
unfolding Known apply
ops-Runs =
    next known_4_6 (set_shares-Becomes 7 (4 ∷ 6 ∷ []) db known_4_6 db-IsConsistent).1
      (next refl refl done)

Runs-effects_example : Becomes (effects ops) db (reset_approvals 7 listed)
Runs-effects_example = Runs-effects ops-Runs db-IsConsistent

status_6 : status db 7 6 ≡ some declined
unfolding status share_at invitation_at
status_6 = refl

ops-kept : All (λ op. keeps_listed 6 7 op ≡ true) ops
unfolding keeps_listed contains
ops-kept = (refl, (refl, tt))

declined_stays_example : status (reset_approvals 7 listed) 7 6 ≡ some declined
declined_stays_example = declined_stays 7 6 ops-Runs db-IsConsistent ops-kept status_6

ops-not_accepting : All (λ op. not_accepting 5 7 op ≡ true) ops
unfolding not_accepting
ops-not_accepting = (refl, (refl, tt))

status_5 : is_accepted (status db 7 5) ≡ false
unfolding status share_at invitation_at
status_5 = refl

accepted_by_consent_example : is_accepted (status (reset_approvals 7 listed) 7 5) ≡ false
accepted_by_consent_example =
    accepted_by_consent 7 5 ops-Runs db-IsConsistent ops-not_accepting status_5

docs_is_named : named 3 (text "docs") link db.resources ≡ some docs
unfolding named is_named list_eq
docs_is_named = refl

create_resource-existing_example :
    (db' : Db) × (create_resource 8 3
        (text "docs")
        link
        shared
        (some (text "https://b.example"))
        none
        2
        db
      ≡ some (db', 7))
    × (((url_eq none (some (text "https://b.example")) ≡ true) × Becomes (λ q w o. o) db db')
        ⊎ ((url_eq none (some (text "https://b.example")) ≡ false) × Becomes (reset_for 7) db db'))
create_resource-existing_example =
    create_resource-existing 8 3 (text "docs") link shared (some (text "https://b.example")) none 2
      db docs docs_is_named db-IsConsistent
