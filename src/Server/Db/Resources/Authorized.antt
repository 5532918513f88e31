-- ===== src/Server/Db/Resources/Authorized.antt =====
-- What a daemon is told by `service_authorizations` of crates/devsite-server/src/db.rs, and what
-- `can_view` of crates/devsite-server/src/policy.rs decides.
use devsite.Prelude.{
  ◌≡◌, ◌≢◌, refl, sym, ◌∙◌, Bool, true, false, ◌&&◌, some, List, [], ◌∷◌, ◌==◌, any, find,
  any-append, arith, Bool-cases, inl, inr,
}
use devsite.Proto.Capability.{AccountId, ResourceId}
use devsite.Server.Policy.{public, can_view}
use devsite.Server.Db.Rows.{Db, Resource, ShareRow, resource}
use devsite.Server.Db.Shares.{shared_with}
use devsite.Server.Db.Shares.Rows.{share_at, contains-viewers_of}
use devsite.Server.Db.Resources.{
  is_service, is_shared, owner_pairs, viewer_pairs, recipient_pairs, service_authorizations,
}

-- `id` is the primary key of the rows.
unfoldable pub DistinctIds : List Resource → Type 0
DistinctIds [] = true ≡ true
DistinctIds (r ∷ rows) = (any (λ q. q.id == r.id) rows ≡ false) × DistinctIds rows

abbrev pub pair_is : AccountId → ResourceId → AccountId × ResourceId → Bool
pair_is v id p = p.0 == v && p.1 == id

-- The pair is in the list.
unfoldable pub authorizes : List (AccountId × ResourceId) → AccountId → ResourceId → Bool
authorizes pairs v id = any (pair_is v id) pairs

any-viewer_pairs :
    (q : ResourceId) (ss : List ShareRow) (v : AccountId) (id : ResourceId)
    → any (pair_is v id) (viewer_pairs q ss) ≡ (q == id && share_at q v ss)
unfolding viewer_pairs share_at
any-viewer_pairs q [] v id = ground arith
any-viewer_pairs q (s ∷ ss) v id = ground (arith, any-viewer_pairs q ss v id)

any-owner_pairs-absent :
    (owner : AccountId) (rows : List Resource) (v : AccountId) (id : ResourceId)
    → any (λ q. q.id == id) rows ≡ false
    → any (pair_is v id) (owner_pairs owner rows) ≡ false
unfolding owner_pairs
any-owner_pairs-absent owner [] v id e = refl
any-owner_pairs-absent owner (r ∷ rows) v id e =
    ground (arith, any-owner_pairs-absent owner rows v id)

any-recipient_pairs-absent :
    (owner : AccountId) (ss : List ShareRow) (rows : List Resource) (v : AccountId)
    (id : ResourceId)
    → any (λ q. q.id == id) rows ≡ false
    → any (pair_is v id) (recipient_pairs owner ss rows) ≡ false
unfolding recipient_pairs
any-recipient_pairs-absent owner ss [] v id e = refl
any-recipient_pairs-absent owner ss (r ∷ rows) v id e = ground (
  arith,
  any-recipient_pairs-absent owner ss rows v id,
  any-append (pair_is v id) (viewer_pairs r.id ss) (recipient_pairs owner ss rows),
  any-viewer_pairs r.id ss v id,
)

any-owner_pairs :
    (owner : AccountId) (rows : List Resource) (r : Resource) (v : AccountId) (id : ResourceId)
    → DistinctIds rows
    → find (λ q. q.id == id) rows ≡ some r
    → any (pair_is v id) (owner_pairs owner rows)
      ≡ (r.owner_id == owner && is_service r.kind && r.owner_id == v)
unfolding owner_pairs DistinctIds
any-owner_pairs owner [] r v id d e = cc
any-owner_pairs owner (q ∷ rows) r v id d e = elim (Bool-cases (q.id == id)) [
  | inl this ↦
      let same : q ≡ r = ground arith in
      let here : q.id ≡ id = ground arith in
      let later = any-owner_pairs-absent owner rows v id (rw (sym here) d.0) in
      rw (sym same) (ground arith)
  | inr other ↦ ground (arith, any-owner_pairs owner rows r v id d.1)
]

any-recipient_pairs :
    (owner : AccountId) (ss : List ShareRow) (rows : List Resource) (r : Resource) (v : AccountId)
    (id : ResourceId)
    → DistinctIds rows
    → find (λ q. q.id == id) rows ≡ some r
    → any (pair_is v id) (recipient_pairs owner ss rows)
      ≡ (r.owner_id == owner && is_service r.kind && is_shared r.visibility && share_at id v ss)
unfolding recipient_pairs DistinctIds
any-recipient_pairs owner ss [] r v id d e = cc
any-recipient_pairs owner ss (q ∷ rows) r v id d e = elim (Bool-cases (q.id == id)) [
  | inl this ↦
      let same : q ≡ r = ground arith in
      let here : id ≡ q.id = ground arith in
      rw (sym same) (
        rw here (
          ground (
            arith,
            any-recipient_pairs-absent owner ss rows v q.id d.0,
            any-append (pair_is v q.id) (viewer_pairs q.id ss) (recipient_pairs owner ss rows),
            any-viewer_pairs q.id ss v q.id,
          )))
  | inr other ↦ ground (
    arith,
    any-recipient_pairs owner ss rows r v id d.1,
    any-append (pair_is v id) (viewer_pairs q.id ss) (recipient_pairs owner ss rows),
    any-viewer_pairs q.id ss v id,
  )
]

-- For a stored service that is not public, the list its owner's daemon asks for holds an account
-- exactly when that account, signed in, may see the service under the accepted shares.
pub service_authorizations-can_view :
    (db : Db) (id : ResourceId) (r : Resource) (v : AccountId)
    → DistinctIds db.resources
    → resource db id ≡ some r
    → is_service r.kind ≡ true
    → r.visibility ≢ public
    → authorizes (service_authorizations r.owner_id db) v id
      ≡ can_view (some v) r.owner_id r.visibility (shared_with id db)
unfolding resource authorizes service_authorizations can_view shared_with
service_authorizations-can_view db id r v d e k private_or_shared =
    any-append (pair_is v id) (owner_pairs r.owner_id db.resources)
      (recipient_pairs r.owner_id db.shares db.resources)
    ∙ ground (
      arith,
      any-owner_pairs r.owner_id db.resources r v id d e,
      any-recipient_pairs r.owner_id db.shares db.resources r v id d e,
      contains-viewers_of id v db.shares,
    )
