-- ===== src/Server/Api/Plan/Laws.antt =====
-- A plan that says that nothing changes: crates/devsite-server/src/api.rs.
use devsite.Prelude.{
  ◌≡◌, refl, ap, true, Bool, Option, some, none, List, [], ◌∷◌, ◌++◌, map, all, arith, Text,
  list_eq_sound, Bool-cases, inl, inr,
}
use devsite.Server.Policy.{Visibility, as_str}
use devsite.Server.Env.{Env}
use devsite.Server.Db.Rows.{Db, Resource, ResourceKind}
use devsite.Server.Db.Resources.{url_eq}
use devsite.Server.Db.Listings.{ShareRecipient, share_recipients}
use devsite.Server.Api.Plan.{
  PlanField, noop, ResourcePlanChange, RecipientPlanChange, change_of, names, existing_changes,
  invited, addition, operation_of, existing_recipients, build_resource_plan, visibility_field,
  url_field, folder_field,
}

url_eq_sound : (a b : Option Text) → url_eq a b ≡ true → a ≡ b
url_eq_sound none none e = refl
url_eq_sound none (some b) e = cc
url_eq_sound (some a) none e = cc
url_eq_sound (some a) (some b) e = ap some (list_eq_sound a b e)

change_of_nil :
    (field : PlanField) (from to : Option Text) → change_of field from to ≡ [] → from ≡ to
unfolding change_of
change_of_nil field from to e = elim (Bool-cases (url_eq from to)) [
  | inl same ↦ url_eq_sound from to same
  | inr differs ↦ absurd (ground arith)
]

append-eq-nil : {A : Type 0} (xs ys : List A) → xs ++ ys ≡ [] → (xs ≡ []) × (ys ≡ [])
append-eq-nil [] ys e = (refl, e)
append-eq-nil (x ∷ xs) ys e = cc

map-eq-nil : {A B : Type 0} (f : A → B) (xs : List A) → map f xs ≡ [] → xs ≡ []
map-eq-nil f [] e = refl
map-eq-nil f (x ∷ xs) e = cc

operation_of_noop :
    (r : Resource) (changes : List ResourcePlanChange) (recipients : List RecipientPlanChange)
    → operation_of (some r) changes recipients ≡ noop
    → (changes ≡ []) × (recipients ≡ [])
unfolding operation_of
operation_of_noop r [] [] e = (refl, refl)
operation_of_noop r (c ∷ cs) recipients e = cc
operation_of_noop r [] (c ∷ cs) e = cc

existing_changes_nil :
    (desired : List Text) (changed : Bool) (rs : List ShareRecipient)
    → existing_changes desired changed rs ≡ []
    → all (λ q. names desired q.handle) rs ≡ true
unfolding existing_changes
existing_changes_nil desired changed [] e = refl
existing_changes_nil desired changed (r ∷ rs) e =
    ground (arith, existing_changes_nil desired changed rs)

invited_nil :
    (existing : List ShareRecipient) (hs : List Text)
    → invited existing hs ≡ []
    → all (names (map (λ q. q.handle) existing)) hs ≡ true
unfolding invited
invited_nil existing [] e = refl
invited_nil existing (h ∷ hs) e = ground (arith, invited_nil existing hs)

-- Where the plan for a resource that is there says `noop`, the resource has the visibility, the URL
-- and the folder asked for, every recipient that it has was named again, and every name is that of
-- a recipient.
pub build_resource_plan-noop :
    (env : Env) (db : Db) (r : Resource) (name : Text) (kind : ResourceKind) (v : Visibility)
    (url folder : Option Text) (desired : List Text)
    → (build_resource_plan env db (some r) name kind v url folder desired).operation ≡ noop
    → (some (as_str r.visibility) ≡ some (as_str v))
      × (r.url ≡ url)
      × (r.folder ≡ folder)
      × (all (λ q. names desired q.handle) (share_recipients r.id db) ≡ true)
      × (all (names (map (λ q. q.handle) (share_recipients r.id db))) desired ≡ true)
unfolding build_resource_plan existing_recipients
build_resource_plan-noop env db r name kind v url folder desired e =
    let there = share_recipients r.id db in
    let (changes, recipients) = operation_of_noop r _ _ e in
    let (seen, rest) =
      append-eq-nil (change_of visibility_field (some (as_str r.visibility)) (some (as_str v))) _
        changes in
    let (linked, filed) = append-eq-nil (change_of url_field r.url url) _ rest in
    let (kept, added) = append-eq-nil (existing_changes desired _ there) _ recipients in
    (
      change_of_nil visibility_field (some (as_str r.visibility)) (some (as_str v)) seen,
      change_of_nil url_field r.url url linked,
      change_of_nil folder_field r.folder folder filed,
      existing_changes_nil desired _ there kept,
      invited_nil there desired (map-eq-nil addition _ added),
    )
