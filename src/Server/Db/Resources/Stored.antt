-- ===== src/Server/Db/Resources/Stored.antt =====
-- A resource that is created or changed, and who is invited to resources that are not shared:
-- `create_resource` of crates/devsite-server/src/db.rs.
use mathlib.Core.Path.{subst}
use devsite.Prelude.{
  ℕ, ◌≡◌, refl, sym, ◌∙◌, ap, true, false, not, Bool, ◌&&◌, Option, some, none, List, [], ◌∷◌, ◌++◌,
  ◌==◌, Text, find, arith, Option-cases, inl, inr, if◌then◌else◌,
}
use devsite.Proto.Capability.{AccountId, ResourceId}
use devsite.Server.Policy.{Visibility}
use devsite.Server.Db.Rows.{Db, Resource, ResourceKind, ShareStatus, has_resource, has_account}
use devsite.Server.Db.Shares.{reset_approvals}
use devsite.Server.Db.Shares.Status.{status, IsConsistent}
use devsite.Server.Db.Shares.Decline.{reset_for}
use devsite.Server.Db.Resources.{is_shared, named, create_resource, update_resource, url_eq}
use devsite.Server.Db.Resources.Relink.{updated, create_resource-updated, create_resource-existing}

-- The resource is there and is shared.
abbrev pub shared_row : Option Resource → Bool
shared_row none = false
shared_row (some r) = is_shared r.visibility

unfoldable pub shared_now : ResourceId → List Resource → Bool
shared_now id rows = shared_row (find (λ r. r.id == id) rows)

-- Nobody is invited to, or has accepted, a resource that is not shared.
unfoldable pub NoStray : Db → Type 0
NoStray db =
    (q : ResourceId) (w : AccountId) → shared_now q db.resources ≡ false → status db q w ≡ none

shared_now-update_resource :
    (id : ResourceId) (v : Visibility) (url folder : Option Text) (rows : List Resource)
    (q : ResourceId)
    → (id == q) ≡ false
    → shared_now q (update_resource id v url folder rows) ≡ shared_now q rows
unfolding shared_now update_resource
shared_now-update_resource id v url folder [] q e = refl
shared_now-update_resource id v url folder (r ∷ rows) q e =
    ground (arith, shared_now-update_resource id v url folder rows q e)

shared_now-updated_row :
    (id : ResourceId) (v : Visibility) (url folder : Option Text) (rows : List Resource)
    → has_resource id rows ≡ true
    → shared_now id (update_resource id v url folder rows) ≡ is_shared v
unfolding shared_now update_resource has_resource
shared_now-updated_row id v url folder [] e = cc
shared_now-updated_row id v url folder (r ∷ rows) e =
    ground (arith, shared_now-updated_row id v url folder rows)

has_resource-update_resource :
    (id : ResourceId) (v : Visibility) (url folder : Option Text) (rows : List Resource)
    (q : ResourceId)
    → has_resource q (update_resource id v url folder rows) ≡ has_resource q rows
unfolding has_resource update_resource
has_resource-update_resource id v url folder [] q = refl
has_resource-update_resource id v url folder (r ∷ rows) q =
    ground (arith, has_resource-update_resource id v url folder rows q)

named-has_resource :
    (owner : AccountId) (name : Text) (kind : ResourceKind) (rows : List Resource) (r : Resource)
    → named owner name kind rows ≡ some r
    → has_resource r.id rows ≡ true
unfolding named has_resource
named-has_resource owner name kind [] r e = cc
named-has_resource owner name kind (x ∷ rows) r e =
    ground (arith, named-has_resource owner name kind rows r)

shared_now-append :
    (rows : List Resource) (r : Resource) (q : ResourceId)
    → (r.id == q) ≡ false
    → shared_now q (rows ++ (r ∷ [])) ≡ shared_now q rows
unfolding shared_now
shared_now-append [] r q e = ground arith
shared_now-append (x ∷ rows) r q e = ground (arith, shared_now-append rows r q e)

shared_now-appended :
    (rows : List Resource) (r : Resource)
    → has_resource r.id rows ≡ false
    → shared_now r.id (rows ++ (r ∷ [])) ≡ is_shared r.visibility
unfolding shared_now has_resource
shared_now-appended [] r e = ground arith
shared_now-appended (x ∷ rows) r e = ground (arith, shared_now-appended rows r)

has_resource-appended :
    (rows : List Resource) (r : Resource) → has_resource r.id (rows ++ (r ∷ [])) ≡ true
unfolding has_resource
has_resource-appended [] r = ground arith
has_resource-appended (x ∷ rows) r = ground (arith, has_resource-appended rows r)

-- The tables between the two statements: the named resource has the visibility asked for, and only
-- it may have recipients that it should not have.
pub record Stored (id : ResourceId) (visibility : Visibility) (db db' : Db) : Type 0 where
  pub consistent : IsConsistent db'
  pub others :
      (q : ResourceId) (w : AccountId)
      → (id == q) ≡ false
      → shared_now q db'.resources ≡ false
      → status db' q w ≡ none
  pub visible : shared_now id db'.resources ≡ is_shared visibility
  pub there : has_resource id db'.resources ≡ true
  pub accounts : db'.accounts ≡ db.accounts

updated_resources :
    (test : Bool) (id : ResourceId) (v : Visibility) (url folder : Option Text) (db : Db)
    → let d =
        if test
        then updated id v url folder db
        else reset_approvals id (updated id v url folder db) in
      (d.resources ≡ update_resource id v url folder db.resources) × (d.accounts ≡ db.accounts)
unfolding reset_approvals
updated_resources true id v url folder db = (refl, refl)
updated_resources false id v url folder db = (refl, refl)

-- Tables with the rows updated and the standings of other resources as before.
update-Stored :
    (id : ResourceId) (v : Visibility) (url folder : Option Text) (db d : Db)
    → has_resource id db.resources ≡ true
    → NoStray db
    → d.resources ≡ update_resource id v url folder db.resources
    → d.accounts ≡ db.accounts
    → IsConsistent d
    → ((q : ResourceId) (w : AccountId) → (id == q) ≡ false → status d q w ≡ status db q w)
    → Stored id v db d
unfolding NoStray
update-Stored id v url folder db d here stray rows accounts consistent same = record {
  consistent = consistent;
  others = λ q w e f.
      same q w e
      ∙ stray q w (
          sym (shared_now-update_resource id v url folder db.resources q e)
          ∙ ap (shared_now q) (sym rows)
          ∙ f);
  visible = ap (shared_now id) rows ∙ shared_now-updated_row id v url folder db.resources here;
  there =
      ap (has_resource id) rows
      ∙ has_resource-update_resource id v url folder db.resources id
      ∙ here;
  accounts = accounts;
}

pair-injective :
    {a b : Db} {m n : ResourceId}
    → ◌≡◌ {A = Option (Db × ResourceId)} (some (a, m)) (some (b, n))
    → (a ≡ b) × (m ≡ n)
pair-injective e = (ground arith, ground arith)

reset_for_other :
    (id q : ResourceId) (w : AccountId) (o : Option ShareStatus)
    → (id == q) ≡ false
    → reset_for id q w o ≡ o
reset_for_other id q w o e = rw e refl

existing-Stored :
    (id : ResourceId) (owner : AccountId) (name : Text) (kind : ResourceKind) (v : Visibility)
    (url folder : Option Text) (now : ℕ) (db : Db) (r : Resource) (db' : Db) (stored : ResourceId)
    → named owner name kind db.resources ≡ some r
    → IsConsistent db
    → NoStray db
    → create_resource id owner name kind v url folder now db ≡ some (db', stored)
    → Stored stored v db db'
existing-Stored id owner name kind v url folder now db r db' stored found h stray e =
    let computed = create_resource-updated id owner name kind v url folder now db r found in
    let (d, made, how) =
      create_resource-existing id owner name kind v url folder now db r found h in
    let (same_db, same_id) = pair-injective (sym made ∙ e) in
    let (as_updated, _) = pair-injective (sym computed ∙ made) in
    let (rows, accounts) = updated_resources (url_eq r.url url) r.id v url folder db in
    let d_Stored : Stored r.id v db d =
      update-Stored r.id v url folder db d (named-has_resource owner name kind db.resources r found)
        stray (ap (λ x. x.resources) (sym as_updated) ∙ rows)
        (ap (λ x. x.accounts) (sym as_updated) ∙ accounts)
        (elim how [ inl (_, b) ↦ b.consistent | inr (_, b) ↦ b.consistent ])
        (λ q w other. elim how [
          | inl (_, b) ↦ b.at q w
          | inr (_, b) ↦ b.at q w ∙ reset_for_other r.id q w (status db q w) other
        ]) in
    subst (λ x. Stored x v db db') same_id (subst (Stored r.id v db) same_db d_Stored)

abbrev fresh_row :
    ResourceId
    → AccountId
    → Text
    → ResourceKind
    → Visibility
    → Option Text
    → Option Text
    → ℕ
    → Resource
fresh_row id owner name kind v url folder now = record {
  id = id;
  owner_id = owner;
  name = name;
  kind = kind;
  visibility = v;
  url = url;
  folder = folder;
  created_at = now;
}

abbrev with_row : Resource → Db → Db
with_row r db = record db { resources = db.resources ++ (r ∷ []) }

-- The insertion, whose references must hold.
abbrev guarded : Bool → Bool → Db × ResourceId → Option (Db × ResourceId)
guarded known taken r = if known && not taken then some r else none

guarded-eq-some :
    (known taken : Bool) (db : Db) (id : ResourceId) (db' : Db) (stored : ResourceId)
    → guarded known taken (db, id) ≡ some (db', stored)
    → (taken ≡ false) × (db ≡ db') × (id ≡ stored)
guarded-eq-some true false db id db' stored e = (refl, (pair-injective e).0, (pair-injective e).1)
guarded-eq-some true true db id db' stored e = cc
guarded-eq-some false taken db id db' stored e = cc

create_resource-inserted :
    (id : ResourceId) (owner : AccountId) (name : Text) (kind : ResourceKind) (v : Visibility)
    (url folder : Option Text) (now : ℕ) (db : Db) (db' : Db) (stored : ResourceId)
    → named owner name kind db.resources ≡ none
    → create_resource id owner name kind v url folder now db ≡ some (db', stored)
    → (has_resource id db.resources ≡ false)
      × (with_row (fresh_row id owner name kind v url folder now) db ≡ db')
      × (id ≡ stored)
unfolding create_resource
create_resource-inserted id owner name kind v url folder now db db' stored absent e =
    let f : guarded (has_account owner db.accounts) (has_resource id db.resources)
          (with_row (fresh_row id owner name kind v url folder now) db, id)
        ≡ some (db', stored) =
      rw (absent, create_resource) at e in
    guarded-eq-some _ _ _ _ _ _ f

inserted-Stored :
    (id : ResourceId) (r : Resource) (db : Db)
    → r.id ≡ id
    → has_resource r.id db.resources ≡ false
    → IsConsistent db
    → NoStray db
    → Stored r.id r.visibility db (with_row r db)
unfolding NoStray status
inserted-Stored id r db same new h stray = record {
  consistent = record { distinct = h.distinct; disjoint = h.disjoint; open_only = h.open_only };
  others = λ q w e f. stray q w (sym (shared_now-append db.resources r q e) ∙ f);
  visible = shared_now-appended db.resources r new;
  there = has_resource-appended db.resources r;
  accounts = refl;
}

pub create_resource-Stored :
    (id : ResourceId) (owner : AccountId) (name : Text) (kind : ResourceKind) (v : Visibility)
    (url folder : Option Text) (now : ℕ) (db db' : Db) (stored : ResourceId)
    → IsConsistent db
    → NoStray db
    → create_resource id owner name kind v url folder now db ≡ some (db', stored)
    → Stored stored v db db'
create_resource-Stored id owner name kind v url folder now db db' stored h stray e =
    elim (Option-cases (named owner name kind db.resources)) [
      | inr (r, found) ↦
          existing-Stored id owner name kind v url folder now db r db' stored found h stray e
      | inl absent ↦
          let (new, same_db, same_id) =
            create_resource-inserted id owner name kind v url folder now db db' stored absent e in
          subst (λ x. Stored x v db db') same_id
            (subst (Stored id v db) same_db (
              inserted-Stored id (fresh_row id owner name kind v url folder now) db refl new h
                stray))
    ]
