-- ===== src/Server/Db/Accounts/Laws.antt =====
-- An external identity is one account: crates/devsite-server/src/db.rs.
use devsite.Prelude.{
  ℕ, ◌≡◌, ◌⊎◌, refl, sym, Bool, true, false, ◌&&◌, some, none, List, [], ◌∷◌, ◌==◌, Text, list_eq,
  list_eq_iff, if◌then◌else◌, arith, All, Bool-cases, Option-cases, inl, inr,
}
use devsite.Proto.Capability.{AccountId}
use devsite.Server.Db.Rows.{Db, AccountRow, IdentityRow, has_account}
use devsite.Server.Db.Accounts.{
  Account, is_identity, account_of, account_by_identity, legacy_identity_shadow, upsert_account,
}

-- Every identity stands for an account that exists.
abbrev pub Referenced : Db → Type 0
Referenced db = All (λ i. has_account i.account_id db.accounts ≡ true) db.identities

abbrev pub same_identity : Text → Text → Text → Text → Bool
same_identity n s p t = list_eq n p && list_eq s t

-- A new account is not that of any identity that was there.
account_of-new :
    (a : AccountRow) (rows : List AccountRow) (is : List IdentityRow) (p t : Text)
    → All (λ i. has_account i.account_id rows ≡ true) is
    → has_account a.id rows ≡ false
    → account_of is (a ∷ rows) p t ≡ account_of is rows p t
unfolding account_of
account_of-new a rows [] p t h fresh = refl
account_of-new a rows (i ∷ is) p t h fresh =
    let other : (a.id == i.account_id) ≡ false = elim (Bool-cases (a.id == i.account_id)) [
      | inl e ↦
          let same : a.id ≡ i.account_id = ground arith in
          let there : has_account a.id rows ≡ true = rw same h.0 in absurd (ground arith)
      | inr n ↦ n
    ] in
    rw (other, account_of-new a rows is p t h.1 fresh) refl

-- How an identity that succeeds is resolved: as it stands, or as a new account.
upsert_account-cases :
    (digest : Text → Text → Text) (id : AccountId) (n s : Text) (now : ℕ) (db db' : Db)
    (a : Account)
    → upsert_account digest id n s now db ≡ some (db', a)
    → ((account_by_identity n s db ≡ some a) × (db' ≡ db))
      ⊎ ((has_account id db.accounts ≡ false)
          × (a ≡ record { id = id; handle = none })
          × (db' ≡ record db {
            accounts =
                record {
                  id = id;
                  external_sub = legacy_identity_shadow digest n s;
                  handle = none;
                  created_at = now;
                }
                ∷ db.accounts;
            identities = record { namespace = n; subject = s; account_id = id } ∷ db.identities;
          }))
unfolding upsert_account
upsert_account-cases digest id n s now db db' a e =
    elim (Option-cases (account_by_identity n s db)) [
      | inr (b, found) ↦ inl (ground arith, ground arith)
      | inl missing ↦ inr (ground arith, ground arith, ground arith)
    ]

identity-eq : (n s p t : Text) → same_identity n s p t ≡ true → (n ≡ p) × (s ≡ t)
identity-eq n s p t e = ((list_eq_iff n p).0 (ground arith), (list_eq_iff s t).0 (ground arith))

-- The tables with a new account for an identity.
abbrev opened : AccountRow → Text → Text → Db → Db
opened r n s db = record db {
  accounts = r ∷ db.accounts;
  identities = record { namespace = n; subject = s; account_id = r.id } ∷ db.identities;
}

account_by_identity-opened :
    (r : AccountRow) (n s p t : Text) (db : Db)
    → Referenced db
    → has_account r.id db.accounts ≡ false
    → account_by_identity p t (opened r n s db) ≡ (
        if same_identity n s p t
        then some (record { id = r.id; handle = r.handle })
        else account_by_identity p t db)
unfolding account_by_identity account_of is_identity
account_by_identity-opened r n s p t db refs fresh =
    let kept = account_of-new r db.accounts db.identities p t refs fresh in ground arith

account_by_identity-known :
    (n s p t : Text) (db : Db) (a : Account)
    → account_by_identity n s db ≡ some a
    → account_by_identity p t db
      ≡ (if same_identity n s p t then some a else account_by_identity p t db)
account_by_identity-known n s p t db a found = elim (Bool-cases (same_identity n s p t)) [
  | inl this ↦
      let (ns, st) = identity-eq n s p t this in
      let here : account_by_identity p t db ≡ some a = rw (sym ns, sym st) found in rw this here
  | inr other ↦ rw other refl
]

-- After an identity has been resolved it stands for the account that was returned, whether it was
-- known before or not, and every other pair of namespace and subject stands for what it stood for.
pub account_by_identity-upsert_account :
    (digest : Text → Text → Text) (id : AccountId) (n s : Text) (now : ℕ) (db db' : Db)
    (a : Account) (p t : Text)
    → Referenced db
    → upsert_account digest id n s now db ≡ some (db', a)
    → account_by_identity p t db'
      ≡ (if same_identity n s p t then some a else account_by_identity p t db)
account_by_identity-upsert_account digest id n s now db db' a p t refs e =
    elim (upsert_account-cases digest id n s now db db' a e) [
      | inl (found, same) ↦ rw same (account_by_identity-known n s p t db a found)
      | inr (fresh, new, same) ↦
          rw (same, new)
            (account_by_identity-opened
              (record {
                id = id;
                external_sub = legacy_identity_shadow digest n s;
                handle = none;
                created_at = now;
              })
              n s p t db refs fresh)
    ]
