-- ===== src/Server/Api/Profile.antt =====
-- crates/devsite-server/src/api.rs: sign-in, handles, profile settings and themes, and the profile
-- page as data. Rendering it is not modelled; a kind and a visibility stand for their names.
pub mod Laws
use devsite.Prelude.{
  ℕ, ◌+◌, Bool, true, false, not, ◌&&◌, ◌||◌, Option, some, none, List, [], ◌∷◌, ◌++◌, map, Result,
  ok, err, ◌==◌, ltb, Text, text, filter, find, list_eq, map_err, length, if◌then◌else◌,
}
use devsite.Proto.Capability.{AccountId}
use devsite.Proto.Id.{ascii_lower}
use devsite.Server.Auth.{validate_handle, trim_start_matches, utf8_len}
use devsite.Server.Env.{Env, resource_id_text}
use devsite.Server.Policy.{Visibility, can_view}
use devsite.Server.RateLimits.{session, mutation}
use devsite.Server.Theme.{Declaration, parse, to_css}
use devsite.Server.Theme.Values.{Json}
use devsite.Server.Theme.Names.{folders, open_folders, folder_order}
use devsite.Server.Db.Rows.{Db, Resource, ResourceKind, AccountRow, account_by_id}
use devsite.Server.Db.Accounts as Table
use devsite.Server.Db.Accounts.{
  Account, account_by_handle, profile_private_only, custom_css, upsert_account,
}
use devsite.Server.Db.Tickets.{delete_session, purge_expired_sessions}
use devsite.Server.Db.Shares.{shared_with}
use devsite.Server.Db.Listings.{resources_owned_by, resources_shared_with, handle_of}
use devsite.Server.Api.{
  Headers, Clock, Handler, ApiError, invalid_request, unauthorized, not_found, internal, ◌>>=◌,
  ◌>>◌, return, lift, query, statement, with_unit, require, or_fail, notify, cookie_token,
  current_account, require_account, require_browser_account, check_rate,
}

abbrev pub session_lifetime_secs : ℕ
session_lifetime_secs = 604800

abbrev pub max_theme_bytes : ℕ
max_theme_bytes = 16384

pub record ExternalIdentity : Type 0 where
  pub namespace : Text
  pub subject : Text

pub record ProfileEntry : Type 0 where
  pub resource : Resource
  pub owner_handle : Option Text

pub record ProfileResponse : Type 0 where
  pub handle : Text
  pub entries : List ProfileEntry
  pub shared_with_me : List ProfileEntry
  pub theme : List Declaration

abbrev pub is_viewer : Option AccountId → AccountId → Bool
is_viewer none account = false
is_viewer (some v) account = v == account

-- `can_view` of a stored resource.
unfoldable pub shows : Option AccountId → Db → Resource → Bool
shows viewer db r = can_view viewer r.owner_id r.visibility (shared_with r.id db)

unfoldable pub own_entries : Option AccountId → AccountId → Db → List ProfileEntry
unfolding shows
own_entries viewer owner db =
    map (λ r. record { resource = r; owner_handle = none })
      (filter (shows viewer db) (resources_owned_by owner db))

-- What others share with the owner, on the owner's own profile alone.
unfoldable pub shared_entries : Option AccountId → AccountId → Db → List ProfileEntry
unfolding shows
shared_entries viewer owner db =
    if is_viewer viewer owner
    then map (λ r. record { resource = r; owner_handle = handle_of r.owner_id db })
        (filter (shows viewer db) (resources_shared_with owner db))
    else []

abbrev or_empty : {E : Type 0} → Result E (List Declaration) → List Declaration
or_empty (ok ds) = ds
or_empty (err e) = []

abbrev blank_unless : Option Text → Text
blank_unless none = []
blank_unless (some t) = t

abbrev pub unless_empty : Text → Option Text
unless_empty [] = none
unless_empty (c ∷ cs) = some (c ∷ cs)

-- The handle is free, or the account's own.
unfoldable pub is_free : AccountId → Option Account → Bool
is_free id none = true
is_free id (some existing) = existing.id == id

module _ (env : Env) (json : Json) where
  unfoldable pub theme_of : Option Text → List Declaration
  theme_of none = []
  theme_of (some css) = or_empty (parse env.unicode.is_whitespace env.unicode.is_control json css)

  unfoldable pub profile_snapshot : Clock → Headers → Text → Handler ProfileResponse
  unfolding trim_start_matches
  profile_snapshot clock headers text = do
    viewer ← current_account env clock headers
    found ← query (account_by_handle (map ascii_lower (trim_start_matches (λ c. c == b'@') text)))
    owner ← or_fail found not_found
    private_only ← query (profile_private_only owner.id)
    require (not private_only || is_viewer viewer owner.id) not_found
    query (λ db. record {
      handle = map ascii_lower (trim_start_matches (λ c. c == b'@') text);
      entries = own_entries viewer owner.id db;
      shared_with_me = shared_entries viewer owner.id db;
      theme = theme_of (custom_css env.unicode.is_whitespace owner.id db);
    })

  unfoldable pub read_theme : Clock → Headers → Handler (Text × List Declaration)
  read_theme clock headers = do
    account ← require_account env clock headers
    css ← query (custom_css env.unicode.is_whitespace account)
    return (blank_unless css, theme_of (some (blank_unless css)))

  unfoldable pub write_theme : Clock → Headers → Text → Handler (Text × List Declaration)
  unfolding to_css
  write_theme clock headers css = do
    account ← require_account env clock headers
    check_rate clock account mutation
    require (not (ltb max_theme_bytes (utf8_len css))) invalid_request
    declarations ←
        lift (
          map_err (parse env.unicode.is_whitespace env.unicode.is_control json css) invalid_request)
    statement
        (λ db. with_unit (Table.set_custom_css account (unless_empty (to_css declarations)) db))
    notify (account ∷ [])
    return (to_css declarations, declarations)

module _ (env : Env) where
  unfoldable pub me : Clock → Headers → Handler (Option AccountRow)
  me clock headers = do
    account ← current_account env clock headers
    elim account [
      | none ↦ return none
      | some id ↦ do
        found ← query (λ db. account_by_id db id)
        row ← or_fail found unauthorized
        return (some row)
    ]

  unfoldable pub claim_handle : Clock → Headers → Text → Handler Text
  claim_handle clock headers body = do
    id ← require_account env clock headers
    check_rate clock id mutation
    handle ← lift (map_err (validate_handle env.unicode.is_whitespace body) invalid_request)
    taken ← query (account_by_handle handle)
    require (is_free id taken) invalid_request
    statement (λ db. with_unit (Table.set_handle id handle db))
    notify (id ∷ [])
    return handle

  unfoldable pub profile_settings : Clock → Headers → Handler Bool
  profile_settings clock headers = do
    account ← require_browser_account env clock headers
    query (profile_private_only account)

  unfoldable pub set_profile_settings : Clock → Headers → Bool → Handler Bool
  set_profile_settings clock headers private_only = do
    account ← require_browser_account env clock headers
    check_rate clock account mutation
    statement (λ db. with_unit (Table.set_profile_private_only account private_only db))
    notify (account ∷ [])
    return private_only

  -- `token` and `id` are generated; the digest is that of `legacy_identity_shadow`.
  unfoldable pub establish_browser_session :
      (Text → Text → Text) → Clock → ExternalIdentity → Text → AccountId → Handler Account
  establish_browser_session digest clock identity token id = do
    account ← statement (upsert_account digest id identity.namespace identity.subject clock.now)
    check_rate clock account.id session
    statement (λ db. with_unit (
        Table.create_session (env.hash_token token) account.id (clock.now + session_lifetime_secs)
          db))
    statement (λ db. with_unit (some (purge_expired_sessions clock.now db)))
    return account

  unfoldable pub sign_out : Headers → Handler (Unit {0})
  sign_out headers = elim (cookie_token env headers) [
    | none ↦ return tt
    | some token ↦ statement (λ db. with_unit (some ((delete_session (env.hash_token token) db).0)))
  ]
