-- ===== src/Server/Api.antt =====
-- crates/devsite-server/src/api.rs: the state that the handlers share, who a request is from, and
-- how often. A handler passes the state on in every case, so that what an earlier statement did
-- stays done after a later refusal. `Clock` holds the times that the successive calls of `now_secs`
-- return.
pub mod Checks
pub mod Plan
pub mod Resources
pub mod Profile
pub mod Machines
pub mod Grants
pub mod Steps
pub mod Outcomes
pub mod Identity
pub mod Tunnels
use devsite.Prelude.{
  ℕ, ◌+◌, Bool, true, false, Option, some, none, List, [], ◌∷◌, Result, ok, err, ◌==◌, Text, text,
  find, list_eq, strip_prefix, if◌then◌else◌, contains, map,
}
use devsite.Prelude.Words.{add_u64}
use devsite.Prelude.Texts.{split, split_once}
use devsite.Proto.Crypto.{KeyBytes}
use devsite.Proto.Capability.{AccountId}
use devsite.Server.Env.{Env, trim}
use devsite.Server.RateLimits.{RateClass, RateEntry, check}
use devsite.Server.Db.Rows.{Db, AccountRow}
use devsite.Server.Db.Tickets.{session_account}
use devsite.Server.Db.Machines.{MachineAuthentication, machine_authentication}

-- An answer other than success, by its status; `unavailable` is 503.
pub data ApiError : Type 0 where
  invalid_request unauthorized forbidden too_many_requests not_found conflict internal unavailable :
      ApiError

-- A message on `profile_changes`.
pub record ProfileChange : Type 0 where
  pub revision : ℕ
  pub accounts : List AccountId

-- What handlers change; `profile_changes` are the messages sent, the newest first.
pub record AppState : Type 0 where
  pub db : Db
  pub rate_limits : List RateEntry
  pub profile_revision : ℕ
  pub profile_changes : List ProfileChange

-- The two headers that handlers read, where they are there and are ASCII.
pub record Headers : Type 0 where
  pub authorization : Option Text
  pub cookie : Option Text

pub record Clock : Type 0 where
  pub identified_at : ℕ
  pub rated_at : ℕ
  pub now : ℕ

module _ {ℓ} where
  abbrev pub Handler : Type ℓ → Type ℓ
  Handler A = AppState → AppState × Result ApiError A

  abbrev pub return : {A : Type ℓ} → A → Handler A
  return a s = (s, ok a)

  abbrev pub lift : {A : Type ℓ} → Result ApiError A → Handler A
  lift r s = (s, r)

  -- A read of the tables.
  abbrev pub query : {A : Type ℓ} → (Db → A) → Handler A
  query f s = (s, ok (f s.db))

  -- A statement, whose failure is an internal error.
  unfoldable pub statement : {A : Type ℓ} → (Db → Option (Db × A)) → Handler A
  statement f s = elim (f s.db) [
    | none ↦ (s, err internal)
    | some (db, a) ↦ (record s { db = db }, ok a)
  ]

  -- A statement that may have an effect and yet fail.
  abbrev pub attempt : {A : Type ℓ} → (Db → Db × Result ApiError A) → Handler A
  attempt f s = let (db, r) = f s.db in (record s { db = db }, r)

-- A statement with nothing to return.
abbrev pub with_unit : Option Db → Option (Db × Unit {0})
with_unit none = none
with_unit (some db) = some (db, tt)

-- What a statement reports, as an answer.
abbrev pub inserted : Db × Bool → Db × Result ApiError (Unit {0})
inserted (db, true) = (db, ok tt)
inserted (db, false) = (db, err internal)

abbrev pub found_or {ℓ} : {A : Type ℓ} → ApiError → Db × Option A → Db × Result ApiError A
found_or e (db, none) = (db, err e)
found_or e (db, some a) = (db, ok a)

abbrev pub require : Bool → ApiError → Handler (Unit {0})
require test e s = (s, if test then ok tt else err e)

module _ {ℓ κ} {A : Type ℓ} {B : Type κ} where
  -- What comes after an outcome.
  unfoldable pub continue :
      (A → Handler B) → AppState × Result ApiError A → AppState × Result ApiError B
  continue next (s, ok a) = next a s
  continue next (s, err e) = (s, err e)

  infixl 5 ◌>>=◌
  unfoldable pub ◌>>=◌ : Handler A → (A → Handler B) → Handler B
  unfolding continue
  (m >>= next) s = continue next (m s)

module _ {κ} {B : Type κ} where
  infixl 5 ◌>>◌
  abbrev pub ◌>>◌ : Handler (Unit {0}) → Handler B → Handler B
  m >> next = m >>= (λ _. next)

module _ {ℓ} {A : Type ℓ} where
  -- `.ok_or_else(…)?`.
  abbrev pub or_fail : Option A → ApiError → Handler A
  or_fail none e s = (s, err e)
  or_fail (some a) e s = (s, ok a)

-- The members of the `HashSet`, each once.
unfoldable pub collect : List AccountId → List AccountId
collect [] = []
collect (a ∷ more) = let rest = collect more in if contains rest a then rest else a ∷ rest

unfoldable pub notify_profiles : List AccountId → AppState → AppState
unfolding collect
notify_profiles accounts s = elim (collect accounts) [
  | [] ↦ s
  | a ∷ more ↦ record s {
    profile_revision = add_u64 s.profile_revision 1;
    profile_changes =
        record { revision = add_u64 s.profile_revision 1; accounts = a ∷ more } ∷ s.profile_changes;
  }
]

abbrev pub notify : List AccountId → Handler (Unit {0})
notify accounts s = (notify_profiles accounts s, ok tt)

unfoldable pub bearer_token : Headers → Option Text
bearer_token headers = elim headers.authorization [
  | none ↦ none
  | some value ↦ strip_prefix (text "Bearer ") value
]

-- The pairs that `filter_map` keeps, and the first of them that is named `devsite_session`.
unfoldable pub session_value : (ℕ → Bool) → List Text → Option Text
unfolding split_once list_eq trim
session_value is_whitespace [] = none
session_value is_whitespace (part ∷ parts) =
    let rest = session_value is_whitespace parts in
    elim (split_once b'=' (trim is_whitespace part)) [
      | none ↦ rest
      | some (name, value) ↦ if list_eq name (text "devsite_session") then some value else rest
    ]

unfoldable pub account_id : Option AccountRow → Option AccountId
account_id none = none
account_id (some a) = some a.id

module _ (env : Env) where
  unfoldable pub cookie_token : Headers → Option Text
  unfolding session_value split
  cookie_token headers = elim headers.cookie [
    | none ↦ none
    | some value ↦ session_value env.unicode.is_whitespace (split b';' value)
  ]

  -- A machine's account, or else that of a session.
  unfoldable pub machine_or_session :
      Option MachineAuthentication → Option AccountRow → Option AccountId
  unfolding account_id
  machine_or_session none account = account_id account
  machine_or_session (some machine) account = some machine.account.id

  -- The account of a bearer token, or of a cookie where there is none.
  unfoldable pub account_by : Clock → Option Text → Option Text → Handler (Option AccountId)
  unfolding account_id machine_or_session
  account_by clock (some token) cookie = do
    machine ← statement (machine_authentication (env.hash_token token) clock.identified_at)
    account ← query (session_account (env.hash_token token) clock.identified_at)
    return (machine_or_session machine account)
  account_by clock none none = return none
  account_by clock none (some token) =
      query (λ db. account_id (session_account (env.hash_token token) clock.identified_at db))

  unfoldable pub current_account : Clock → Headers → Handler (Option AccountId)
  unfolding account_by
  current_account clock headers = account_by clock (bearer_token headers) (cookie_token headers)

  unfoldable pub require_account : Clock → Headers → Handler AccountId
  require_account clock headers = do
    account ← current_account clock headers
    or_fail account unauthorized

  unfoldable pub require_browser_account : Clock → Headers → Handler AccountId
  unfolding account_id
  require_browser_account clock headers = do
    token ← or_fail (cookie_token headers) unauthorized
    account ← query (session_account (env.hash_token token) clock.identified_at)
    or_fail (account_id account) unauthorized

  unfoldable pub require_machine : Clock → Headers → Handler MachineAuthentication
  require_machine clock headers = do
    token ← or_fail (bearer_token headers) unauthorized
    machine ← statement (machine_authentication (env.hash_token token) clock.identified_at)
    or_fail machine unauthorized

unfoldable pub check_rate : Clock → AccountId → RateClass → Handler (Unit {0})
check_rate clock account class s =
    let (windows, allowed) = check s.rate_limits account class clock.rated_at in
    (record s { rate_limits = windows }, if allowed then ok tt else err too_many_requests)
