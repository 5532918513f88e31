-- ===== src/Server/Db/Listings/Laws.antt =====
-- Who reaches a service by the list of crates/devsite-server/src/db.rs, and by the policy of
-- crates/devsite-server/src/policy.rs.
use devsite.Prelude.{
  ◌≡◌, refl, ◌∙◌, ap, true, false, Bool, ◌||◌, Option, some, List, [], ◌∷◌, ◌==◌, any, find, filter,
  map, contains, arith, All, Bool-cases, inl, inr, Text,
}
use devsite.Proto.Capability.{AccountId}
use devsite.Server.Policy.{Visibility, public, private, shared, can_view}
use devsite.Server.Db.Rows.{Db, Resource}
use devsite.Server.Db.Shares.{shared_with}
use devsite.Server.Db.Shares.Rows.{share_at, viewers_of, contains-viewers_of}
use devsite.Server.Db.Shares.Status.{status}
use devsite.Server.Db.Resources.{is_service, is_shared}
use devsite.Server.Db.Resources.Stored.{shared_row, shared_now, NoStray}
use devsite.Server.Db.Resources.Authorized.{DistinctIds}
use devsite.Server.Db.Listings.{
  insert_by, order_by, is_accessible, accessible_services, name_before, shown_owner,
}

module _ {ℓ κ} {A : Type ℓ} (P : A → Type κ) (before : A → A → Bool) where
  insert_by-All : (x : A) (xs : List A) → P x → All P xs → All P (insert_by before x xs)
  unfolding insert_by
  insert_by-All x [] p h = (p, tt)
  insert_by-All x (y ∷ ys) p h = elim (Bool-cases (before x y)) [
    | inl first ↦ rw first (p, h)
    | inr later ↦ rw later (h.0, insert_by-All x ys p h.1)
  ]

  -- Sorting keeps what holds of every row.
  pub order_by-All : (xs : List A) → All P xs → All P (order_by before xs)
  unfolding order_by
  order_by-All [] h = h
  order_by-All (x ∷ xs) h = insert_by-All x (order_by before xs) h.0 (order_by-All xs h.1)

-- A service that the viewer may see.
abbrev pub Reachable : AccountId → Db → Resource → Type 0
Reachable viewer db r =
    (is_service r.kind ≡ true)
    × (can_view (some viewer) r.owner_id r.visibility (shared_with r.id db) ≡ true)

-- The list that a row stands in finds it by its identifier.
abbrev FoundIn : List Resource → Resource → Type 0
FoundIn rows r = find (λ x. x.id == r.id) rows ≡ some r

FoundIn-cons :
    (x : Resource) (rows rest : List Resource)
    → any (λ q. q.id == x.id) rest ≡ false
    → All (FoundIn rows) rest
    → All (FoundIn (x ∷ rows)) rest
FoundIn-cons x rows [] e h = tt
FoundIn-cons x rows (r ∷ rest) e h =
    (ground (arith, h.0), FoundIn-cons x rows rest (ground arith) h.1)

found_each : (rows : List Resource) → DistinctIds rows → All (FoundIn rows) rows
unfolding DistinctIds
found_each [] d = tt
found_each (r ∷ rows) d = (ground arith, FoundIn-cons r rows rows d.0 (found_each rows d.1))

-- An owner, or a recipient of a resource that has recipients only where it is shared, may see it.
viewable :
    (viewer owner : AccountId) (v : Visibility) (vs : List AccountId)
    → (owner == viewer || contains vs viewer) ≡ true
    → (is_shared v ≡ false → contains vs viewer ≡ false)
    → can_view (some viewer) owner v vs ≡ true
unfolding can_view
viewable viewer owner public vs e h = refl
viewable viewer owner private vs e h = let empty = h refl in ground arith
viewable viewer owner shared vs e h = ground arith

unshared :
    (viewer : AccountId) (db : Db) (r : Resource)
    → NoStray db
    → FoundIn db.resources r
    → is_shared r.visibility ≡ false
    → share_at r.id viewer db.shares ≡ false
unfolding NoStray status shared_now
unshared viewer db r stray found hidden =
    let none_here = stray r.id viewer (ap shared_row found ∙ hidden) in ground arith

accessible_row :
    (viewer : AccountId) (db : Db) (r : Resource)
    → NoStray db
    → FoundIn db.resources r
    → is_accessible viewer db r ≡ true
    → Reachable viewer db r
unfolding is_accessible shared_with
accessible_row viewer db r stray found e =
    let here = contains-viewers_of r.id viewer db.shares in
    (
      ground arith,
      viewable viewer r.owner_id r.visibility (viewers_of r.id db.shares) (ground arith)
          (λ hidden. here ∙ unshared viewer db r stray found hidden),
    )

rows_Reachable :
    (viewer : AccountId) (db : Db) (rows : List Resource)
    → NoStray db
    → All (FoundIn db.resources) rows
    → All (Reachable viewer db) (filter (is_accessible viewer db) rows)
rows_Reachable viewer db [] stray h = tt
rows_Reachable viewer db (r ∷ rows) stray h = elim (Bool-cases (is_accessible viewer db r)) [
  | inl kept ↦
      rw kept (accessible_row viewer db r stray h.0 kept, rows_Reachable viewer db rows stray h.1)
  | inr dropped ↦ rw dropped (rows_Reachable viewer db rows stray h.1)
]

All-map_fst :
    (viewer : AccountId) (db : Db) (f : Resource → Option Text) (rows : List Resource)
    → All (Reachable viewer db) rows
    → All (λ (p : Resource × Option Text). Reachable viewer db p.0) (map (λ r. (r, f r)) rows)
All-map_fst viewer db f [] h = tt
All-map_fst viewer db f (r ∷ rows) h = (h.0, All-map_fst viewer db f rows h.1)

-- Every service that the list gives an account is one that the policy shows it, as long as no
-- resource that is not shared has a recipient. (The list itself does not look at the visibility.)
pub accessible_services-Reachable :
    (viewer : AccountId) (db : Db)
    → DistinctIds db.resources
    → NoStray db
    → All (λ (p : Resource × Option Text). Reachable viewer db p.0) (accessible_services viewer db)
unfolding accessible_services
accessible_services-Reachable viewer db distinct stray =
    All-map_fst viewer db (λ r. shown_owner viewer r db)
      (order_by (name_before db) (filter (is_accessible viewer db) db.resources))
      (order_by-All (Reachable viewer db) (name_before db)
        (filter (is_accessible viewer db) db.resources)
        (rows_Reachable viewer db db.resources stray (found_each db.resources distinct)))
