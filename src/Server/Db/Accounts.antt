-- ===== src/Server/Db/Accounts.antt =====
-- crates/devsite-server/src/db.rs: accounts, the external identities they stand for, and profiles.
pub mod Laws
use devsite.Prelude.{
  ℕ, Bool, true, false, not, ◌&&◌, ◌||◌, Option, some, none, List, [], ◌∷◌, ◌++◌, map, ◌==◌, Text,
  text, find, filter, length, list_eq, strip_prefix, if◌then◌else◌, any, leb,
}
use devsite.Proto.Capability.{AccountId}
use devsite.Proto.Id.{ascii_lower}
use devsite.Server.Db.Rows.{
  Db, AccountRow, IdentityRow, ProfileRow, SessionRow, has_account, account_by_id,
}

pub record Account : Type 0 where
  pub id : AccountId
  pub handle : Option Text

unfoldable pub is_identity : Text → Text → IdentityRow → Bool
unfolding list_eq
is_identity namespace subject i = list_eq i.namespace namespace && list_eq i.subject subject

abbrev pub as_account : Option AccountRow → Option Account
as_account none = none
as_account (some r) = some (record { id = r.id; handle = r.handle })

-- The join of an identity with its account.
unfoldable pub account_of : List IdentityRow → List AccountRow → Text → Text → Option Account
account_of [] rows namespace subject = none
account_of (i ∷ is) rows namespace subject =
    let rest = account_of is rows namespace subject in
    if is_identity namespace subject i
    then as_account (find (λ r. r.id == i.account_id) rows)
    else rest

unfoldable pub account_by_identity : Text → Text → Db → Option Account
account_by_identity namespace subject db = account_of db.identities db.accounts namespace subject

-- `digest` is the hexadecimal SHA-256 of the namespace, a zero byte and the subject.
unfoldable pub legacy_identity_shadow : (Text → Text → Text) → Text → Text → Text
unfolding list_eq
legacy_identity_shadow digest namespace subject =
    if list_eq namespace (text "https://shoo.dev")
    then subject
    else if list_eq namespace (text "local")
    then text "local:" ++ subject
    else text "identity:" ++ digest namespace subject

abbrev pub is_bounded : Text → Bool
is_bounded t = not (length t == 0) && leb (length t) 2048

-- Texts are their UTF-8 bytes. `id` is the generated identifier; `none` is a refused identity or a
-- failed statement.
unfoldable pub upsert_account :
    (Text → Text → Text) → AccountId → Text → Text → ℕ → Db → Option (Db × Account)
unfolding list_eq
upsert_account digest id namespace subject now db =
    if is_bounded namespace && is_bounded subject
    then (elim (account_by_identity namespace subject db) [
      | some account ↦ some (db, account)
      | none ↦
          let shadow = legacy_identity_shadow digest namespace subject in
          if has_account id db.accounts
            || any (λ r. list_eq r.external_sub shadow) db.accounts
            || any (is_identity namespace subject) db.identities
          then none
          else some (
            record db {
              accounts =
                  record { id = id; external_sub = shadow; handle = none; created_at = now }
                  ∷ db.accounts;
              identities =
                  record { namespace = namespace; subject = subject; account_id = id }
                  ∷ db.identities;
            },
            record { id = id; handle = none },
          )
    ])
    else none

-- `COLLATE NOCASE` compares ASCII letters without their case.
unfoldable pub same_handle : Text → Option Text → Bool
unfolding list_eq
same_handle handle none = false
same_handle handle (some h) = list_eq (map ascii_lower h) (map ascii_lower handle)

unfoldable pub account_by_handle : Text → Db → Option Account
account_by_handle handle db = elim (find (λ r. same_handle handle r.handle) db.accounts) [
  | none ↦ none
  | some r ↦ some (record { id = r.id; handle = some handle })
]

unfoldable pub has_handle : Text → AccountRow → Bool
unfolding list_eq
has_handle handle r = elim r.handle [ none ↦ false | some h ↦ list_eq h handle ]

unfoldable pub put_handle : AccountId → Text → List AccountRow → List AccountRow
put_handle account handle rows =
    map (λ r. if r.id == account then record r { handle = some handle } else r) rows

abbrev pub blank_profile : AccountId → ProfileRow
blank_profile account = record { account_id = account; custom_css = none; private_only = false }

abbrev pub has_profile : AccountId → List ProfileRow → Bool
has_profile account rows = any (λ p. p.account_id == account) rows

-- The unique column `handle`; the profile is inserted unless it is there.
unfoldable pub set_handle : AccountId → Text → Db → Option Db
set_handle account handle db =
    if has_account account db.accounts
      && not (any (λ r. not (r.id == account) && has_handle handle r) db.accounts)
    then some (record db {
      accounts = put_handle account handle db.accounts;
      profiles =
          if has_profile account db.profiles
          then db.profiles
          else blank_profile account ∷ db.profiles;
    })
    else none

unfoldable pub profile_private_only : AccountId → Db → Bool
profile_private_only account db = elim (find (λ p. p.account_id == account) db.profiles) [
  | none ↦ false
  | some p ↦ p.private_only
]

-- `INSERT … ON CONFLICT(account_id) DO UPDATE`: the row is inserted or changed by `f`.
unfoldable pub upsert_profile : AccountId → (ProfileRow → ProfileRow) → Db → Option Db
upsert_profile account f db =
    if has_profile account db.profiles
    then some
        (record db { profiles = map (λ p. if p.account_id == account then f p else p) db.profiles })
    else if has_account account db.accounts
    then some (record db { profiles = f (blank_profile account) ∷ db.profiles })
    else none

unfoldable pub set_profile_private_only : AccountId → Bool → Db → Option Db
unfolding upsert_profile
set_profile_private_only account private_only db =
    upsert_profile account (λ p. record p { private_only = private_only }) db

unfoldable pub set_custom_css : AccountId → Option Text → Db → Option Db
unfolding upsert_profile
set_custom_css account css db = upsert_profile account (λ p. record p { custom_css = css }) db

-- `.filter(|css| !css.trim().is_empty())`, where `is_whitespace` is that of Unicode.
abbrev pub unless_blank : (ℕ → Bool) → Option Text → Option Text
unless_blank is_whitespace none = none
unless_blank is_whitespace (some css) =
    if any (λ c. not (is_whitespace c)) css then some css else none

unfoldable pub custom_css : (ℕ → Bool) → AccountId → Db → Option Text
custom_css is_whitespace account db = elim (find (λ p. p.account_id == account) db.profiles) [
  | none ↦ none
  | some p ↦ unless_blank is_whitespace p.custom_css
]

-- The primary key `token_hash`.
unfoldable pub create_session : ℕ → AccountId → ℕ → Db → Option Db
create_session token_hash account expires_at db =
    if has_account account db.accounts && not (any (λ s. s.token_hash == token_hash) db.sessions)
    then some (record db {
      sessions =
          record { token_hash = token_hash; account_id = account; expires_at = expires_at }
          ∷ db.sessions;
    })
    else none
