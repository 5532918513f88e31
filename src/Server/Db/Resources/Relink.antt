-- ===== src/Server/Db/Resources/Relink.antt =====
-- Creation of a resource that has the owner, name and kind of another: `create_resource` of
-- crates/devsite-server/src/db.rs updates it.
use devsite.Prelude.{
  ℕ, ◌≡◌, ◌⊎◌, refl, true, false, Option, some, Text, Bool-cases, inl, inr, if◌then◌else◌,
}
use devsite.Proto.Capability.{AccountId, ResourceId}
use devsite.Server.Policy.{Visibility}
use devsite.Server.Db.Rows.{Db, Resource, ResourceKind}
use devsite.Server.Db.Shares.{reset_approvals}
use devsite.Server.Db.Shares.Status.{status, IsConsistent}
use devsite.Server.Db.Shares.Answer.{Becomes}
use devsite.Server.Db.Shares.Decline.{reset_for, reset_approvals-Becomes}
use devsite.Server.Db.Resources.{named, create_resource, update_resource, url_eq}

-- The tables with the row updated.
abbrev pub updated : ResourceId → Visibility → Option Text → Option Text → Db → Db
updated id visibility url folder db = record db {
  resources = update_resource id visibility url folder db.resources;
}

pub create_resource-updated :
    (id : ResourceId) (owner : AccountId) (name : Text) (kind : ResourceKind)
    (visibility : Visibility) (url folder : Option Text) (now : ℕ) (db : Db) (r : Resource)
    → named owner name kind db.resources ≡ some r
    → create_resource id owner name kind visibility url folder now db
      ≡ some (
        if url_eq r.url url
            then updated r.id visibility url folder db
            else reset_approvals r.id (updated r.id visibility url folder db),
        r.id,
      )
unfolding create_resource
create_resource-updated id owner name kind visibility url folder now db r found =
    rw (found, create_resource)

relinked :
    (id : ResourceId) (visibility : Visibility) (url folder : Option Text) (db : Db)
    → IsConsistent db
    → Becomes (reset_for id) db (reset_approvals id (updated id visibility url folder db))
unfolding status
relinked id visibility url folder db h =
    let b =
      reset_approvals-Becomes id (updated id visibility url folder db)
        (record { distinct = h.distinct; disjoint = h.disjoint; open_only = h.open_only }) in
    record { at = λ q w. b.at q w; consistent = b.consistent }

-- Creating a resource under a name that its owner already uses for one of that kind succeeds and
-- keeps that one's id. With the same destination every recipient's standing is kept; with another
-- one, whoever had accepted is asked again.
pub create_resource-existing :
    (id : ResourceId) (owner : AccountId) (name : Text) (kind : ResourceKind)
    (visibility : Visibility) (url folder : Option Text) (now : ℕ) (db : Db) (r : Resource)
    → named owner name kind db.resources ≡ some r
    → IsConsistent db
    → (db' : Db) × (create_resource id owner name kind visibility url folder now db
        ≡ some (db', r.id))
      × (((url_eq r.url url ≡ true) × Becomes (λ q w o. o) db db')
          ⊎ ((url_eq r.url url ≡ false) × Becomes (reset_for r.id) db db'))
unfolding status
create_resource-existing id owner name kind visibility url folder now db r found h =
    let computed =
      create_resource-updated id owner name kind visibility url folder now db r found in
    elim (Bool-cases (url_eq r.url url)) [
      | inl same ↦ (
        updated r.id visibility url folder db,
        rw same at computed,
        inl (
          same,
          record {
            at = λ q w. refl;
            consistent = record {
              distinct = h.distinct;
              disjoint = h.disjoint;
              open_only = h.open_only;
            };
          },
        ),
      )
      | inr changed ↦ (
        reset_approvals r.id (updated r.id visibility url folder db),
        rw changed at computed,
        inr (changed, relinked r.id visibility url folder db h),
      )
    ]
