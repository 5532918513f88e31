-- ===== src/Server/Api/Checks.antt =====
-- crates/devsite-server/src/api.rs: what a request's fields are checked for.
pub mod Laws
use devsite.Prelude.{
  ℕ, ◌+◌, Bool, true, false, not, ◌&&◌, ◌||◌, Option, some, none, List, [], ◌∷◌, ◌++◌, Result, ok,
  err, ◌>>=◌, ◌>>◌, ensure, ok_or, map_err, ◌==◌, ltb, leb, Text, text, length, list_eq, all, any,
  contains, if◌then◌else◌,
}
use devsite.Prelude.Texts.{starts_with_text}
use devsite.Proto.Capability.{AccountId}
use devsite.Server.Auth.{is_allowed, utf8_len, validate_handle}
use devsite.Server.Env.{Env, Url, trim}
use devsite.Server.Policy.{Visibility, public, private, shared}
use devsite.Server.Db.Rows.{Db, ResourceKind, link, service}
use devsite.Server.Db.Accounts.{Account, account_by_handle}
use devsite.Server.Api.{ApiError, invalid_request}

abbrev pub max_resources : ℕ
max_resources = 100

abbrev pub max_shares : ℕ
max_shares = 25

abbrev pub max_resource_name : ℕ
max_resource_name = 80

abbrev pub max_public_url : ℕ
max_public_url = 2048

abbrev pub max_folder_name : ℕ
max_folder_name = 40

abbrev pub max_machine_name : ℕ
max_machine_name = 60

abbrev pub is_blank : Text → Bool
is_blank t = length t == 0

unfoldable pub escape_char : ℕ → Text
escape_char c =
    if c == b'&'
    then text "&amp;"
    else if c == b'<'
    then text "&lt;"
    else if c == b'>'
    then text "&gt;"
    else if c == b'"'
    then text "&quot;"
    else if c == b'\''
    then text "&#39;"
    else c ∷ []

unfoldable pub escape_html : Text → Text
unfolding escape_char
escape_html [] = []
escape_html (c ∷ cs) = escape_char c ++ escape_html cs

unfoldable pub validate_resource_visibility : ResourceKind → Visibility → Result ApiError (Unit {0})
validate_resource_visibility service public = err invalid_request
validate_resource_visibility service private = ok tt
validate_resource_visibility service shared = ok tt
validate_resource_visibility link visibility = ok tt

unfoldable pub valid_grant_request_id : Text → Bool
unfolding starts_with_text
valid_grant_request_id value =
    starts_with_text (text "agr_") value
    && (leb 12 (utf8_len value) && leb (utf8_len value) 100)
    && all is_allowed value

-- `matches!(parsed.scheme(), "http" | "https")`.
unfoldable pub is_web : Text → Bool
unfolding list_eq
is_web scheme = list_eq scheme (text "http") || list_eq scheme (text "https")

abbrev pub has_text : Option Text → Bool
has_text none = false
has_text (some _) = true

module _ (env : Env) where
  -- A name: not blank, not padded, not too long, and without control characters.
  unfoldable pub validate_name : ℕ → Text → Result ApiError Text
  unfolding list_eq trim
  validate_name longest name = do
    ensure (list_eq (trim env.unicode.is_whitespace name) name && not (is_blank name))
        invalid_request
    ensure (not (ltb longest (length name))) invalid_request
    ensure (not (any env.unicode.is_control name)) invalid_request
    ok name

  unfoldable pub validate_resource_name : Text → Result ApiError Text
  unfolding validate_name
  validate_resource_name name = validate_name max_resource_name name

  unfoldable pub validate_machine_name : Text → Result ApiError Text
  unfolding validate_name
  validate_machine_name name = validate_name max_machine_name name

  unfoldable pub validate_public_url : Text → Result ApiError Text
  unfolding is_web
  validate_public_url value = do
    ensure (not (ltb max_public_url (utf8_len value))) invalid_request
    parsed ← ok_or (env.url_parse value) invalid_request
    ensure (is_web parsed.scheme && has_text parsed.host_str) invalid_request
    ensure (is_blank parsed.username && not (has_text parsed.password)) invalid_request
    ok parsed.serialized

  -- A folder after `trim`, which is none where it is blank.
  unfoldable pub check_folder : Text → Result ApiError (Option Text)
  check_folder folder = if is_blank folder then ok none else do
    ensure (not (ltb max_folder_name (length folder))) invalid_request
    ensure (not (any env.unicode.is_control folder)) invalid_request
    ok (some folder)

  unfoldable pub validate_folder : Option Text → Result ApiError (Option Text)
  unfolding check_folder trim
  validate_folder none = ok none
  validate_folder (some folder) = check_folder (trim env.unicode.is_whitespace folder)

  -- One handle of a share list, with the accounts already named in the order of the list.
  unfoldable pub resolve_share :
      Db → AccountId → Text → List AccountId → Result ApiError (List AccountId)
  resolve_share db owner text viewers = do
    handle ← map_err (validate_handle env.unicode.is_whitespace text) invalid_request
    viewer ← ok_or (account_by_handle handle db) invalid_request
    ensure (not (viewer.id == owner)) invalid_request
    ok (if contains viewers viewer.id then viewers else viewers ++ (viewer.id ∷ []))

  unfoldable pub resolve_each :
      Db → AccountId → List Text → List AccountId → Result ApiError (List AccountId)
  unfolding resolve_share
  resolve_each db owner [] viewers = ok viewers
  resolve_each db owner (t ∷ ts) viewers = do
    more ← resolve_share db owner t viewers
    resolve_each db owner ts more

  unfoldable pub resolve_share_accounts :
      Db → AccountId → List Text → Result ApiError (List AccountId)
  unfolding resolve_each
  resolve_share_accounts db owner handles = do
    ensure (not (ltb max_shares (length handles))) invalid_request
    resolve_each db owner handles []

-- What `some` holds passes a check.
unfoldable pub checked_url :
    (Text → Result ApiError Text) → Option Text → Result ApiError (Option Text)
checked_url check none = err invalid_request
checked_url check (some url) = elim (check url) [ ok t ↦ ok (some t) | err e ↦ err e ]

abbrev pub no_url : Option Text → Result ApiError (Option Text)
no_url none = ok none
no_url (some _) = err invalid_request

module _ (env : Env) where
  -- A link needs a URL, and a service must not carry one.
  unfoldable pub resource_url : ResourceKind → Option Text → Result ApiError (Option Text)
  unfolding checked_url
  resource_url link url = checked_url (validate_public_url env) url
  resource_url service url = no_url url
