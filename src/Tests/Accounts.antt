-- ===== src/Tests/Accounts.antt =====
-- Accounts in crates/devsite-server/src/db.rs at concrete inputs.
use devsite.Prelude.{ℕ, Bool, ok, ◌==◌}
use devsite.Server.Auth.{
  validate_handle, check_handle, trim_start_matches, trim_end_matches, is_reserved,
}
use devsite.Server.Auth.Laws.{IsHandle, validate_handle-IsHandle}
use devsite.Prelude.{◌≡◌, refl, some, none, [], ◌∷◌, ◌++◌, Text, text, list_eq, if◌then◌else◌}
use devsite.Server.Db.Rows.{Db, empty_db, has_account}
use devsite.Server.Db.Accounts.{
  Account, is_identity, account_of, account_by_identity, legacy_identity_shadow, upsert_account,
}
use devsite.Server.Db.Accounts.Laws.{Referenced, same_identity, account_by_identity-upsert_account}

abbrev digest : Text → Text → Text
digest n s = n ++ s

-- Account 3 signed in at one provider.
abbrev db : Db
db = record empty_db {
  accounts =
      record { id = 3; external_sub = text "alice"; handle = some (text "alice"); created_at = 1 }
      ∷ [];
  identities =
      record { namespace = text "https://shoo.dev"; subject = text "alice"; account_id = 3 } ∷ [];
}

db-Referenced : Referenced db
unfolding has_account
db-Referenced = (refl, tt)

-- The same subject at another provider is somebody else.
abbrev after : Db
after = record db {
  accounts =
      record { id = 4; external_sub = text "local:alice"; handle = none; created_at = 9 }
      ∷ db.accounts;
  identities =
      record { namespace = text "local"; subject = text "alice"; account_id = 4 } ∷ db.identities;
}

abbrev created : Account
created = record { id = 4; handle = none }

is_created : upsert_account digest 4 (text "local") (text "alice") 9 db ≡ some (after, created)
unfolding upsert_account account_by_identity account_of is_identity legacy_identity_shadow
    has_account list_eq
is_created = refl

account_by_identity-upsert_account_example :
    account_by_identity (text "https://shoo.dev") (text "alice") after ≡ (
      if same_identity (text "local") (text "alice") (text "https://shoo.dev") (text "alice")
      then some created
      else account_by_identity (text "https://shoo.dev") (text "alice") db)
account_by_identity-upsert_account_example =
    account_by_identity-upsert_account digest 4 (text "local") (text "alice") 9 db after created
      (text "https://shoo.dev") (text "alice") db-Referenced is_created

abbrev is_space : ℕ → Bool
is_space c = c == 32

alice : validate_handle is_space (text " @Alice") ≡ ok (text "alice")
unfolding validate_handle check_handle trim_start_matches trim_end_matches is_reserved list_eq
alice = refl

validate_handle-IsHandle_example : IsHandle (text "alice")
validate_handle-IsHandle_example =
    validate_handle-IsHandle is_space (text " @Alice") (text "alice") alice
