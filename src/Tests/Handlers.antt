-- ===== src/Tests/Handlers.antt =====
-- Resources, profiles and themes of crates/devsite-server/src in a small world.
use devsite.Prelude.{
  Result, Bool-cases, inl, inr, ◌≢◌, ◌≡◌, ◌≤◌, refl, true, false, Option, some, none, List, [], ◌∷◌,
  ok, Text, text, strip_prefix, list_eq, contains, All, map, all, ◌==◌,
}
use devsite.Prelude.Words.{be_bytes, from_be}
use devsite.Prelude.Texts.{split, split_once}
use devsite.Proto.Capability.{AccountId, ResourceId}
use devsite.Proto.Id.{to_string, from_str}
use devsite.Server.Auth.{
  trim_start_matches, trim_end_matches, validate_handle, check_handle, is_reserved,
}
use devsite.Server.Env.{trim, resource_id_text}
use devsite.Server.Policy.{as_str, shared, private}
use devsite.Server.Policy as Policy
use devsite.Server.RateLimits.{
  check, limit, class_index, window_of, fresh_entries, put_window, current_window, discard,
}
use devsite.Server.Db.Rows.{
  Resource, accepted, pending, service, account_by_id, has_resource, has_account,
}
use devsite.Server.Db.Shares.{
  shared_with, reset_approvals, invite_each, remove_unwanted, remove_recipient, set_shares, invite,
}
use devsite.Server.Db.Shares.Rows.{
  viewers_of, share_at, invitation_at, drop_shares_of, invited_of, drop_share, pend_each,
  drop_invitation,
}
use devsite.Server.Db.Shares.Status.{status}
use devsite.Server.Db.Accounts.{same_handle, account_by_handle}
use devsite.Server.Db.Machines.{machine_authentication, touch, bound_credential}
use devsite.Server.Db.Resources.{
  is_shared, is_named, resource_count, named, resource_named, update_resource,
}
use devsite.Server.Db.Resources as Table
use devsite.Server.Db.Resources.Authorized.{DistinctIds}
use devsite.Server.Db.Resources.Stored.{NoStray, shared_now}
use devsite.Server.Db.Listings.{
  accessible_services, share_recipients, insert_by, resources_owned_by, order_by, handle_of,
  invited_recipients, with_recipient, text_leb, accepted_recipients,
}
use devsite.Server.Db.Listings.Laws.{Reachable, accessible_services-Reachable}
use devsite.Server.Db.Tickets.{session_account}
use devsite.Server.Api.{
  AppState, ApiError, ◌>>=◌, continue, bearer_token, check_rate, cookie_token, session_value,
  account_id, current_account, statement, require_account, collect, notify_profiles,
  machine_or_session, account_by,
}
use devsite.Server.Api.Checks.{
  resolve_share_accounts, resolve_each, resolve_share, max_shares, validate_resource_name,
  validate_folder, validate_resource_visibility, resource_url, check_folder, validate_public_url,
  validate_name, is_web, checked_url,
}
use devsite.Server.Api.Checks.Laws.{AreRecipients, resolve_share_accounts-AreRecipients}
use devsite.Server.Api.Plan.{
  build_resource_plan, noop, create, visibility_field, recipient_added, recipients_invited, names,
  existing_recipients, existing_changes, handles_where, effect_of, operation_of, change_of, invited,
}
use devsite.Server.Api.Plan.Laws.{build_resource_plan-noop}
use devsite.Server.Api.Profile.{ProfileResponse}
use devsite.Server.Theme.{Declaration, parse}
use devsite.Server.Theme.Values.{Json, canonicalize}
use devsite.Server.Theme.Laws.{IsTheme, parse-IsTheme}
use devsite.Server.Api.Resources.{
  CreateResourceRequest, CreateResourceResponse, create_resource, prepare_fields, prepare_resource,
  parse_kind, prepare_plan, store_resource, handles_of, is_same, owned,
}
use devsite.Server.Api.Resources.Shared.{IsTidy, Names, create_resource-IsTidy}
use devsite.Server.Api.Resources.{set_resource_shares}
use devsite.Server.Api.Resources.Reset.{SetBy, set_resource_shares-IsTidy}
use devsite.Server.Env.{parse_resource_id}
use devsite.Server.Db.Rows.{Db, resource}
use devsite.Samples.{sum}
use devsite.Samples.World.{env, clock, state, db, web, browser}

abbrev two_letters : Json
two_letters = record { from_str = λ t. some (t ∷ []); to_string = λ t. t }

resolved : resolve_share_accounts env db 3 (text "bob" ∷ []) ≡ ok (4 ∷ [])
unfolding resolve_share_accounts resolve_each resolve_share validate_handle check_handle is_reserved
    account_by_handle same_handle contains trim trim_start_matches trim_end_matches list_eq
resolved = refl

resolve_share_accounts-AreRecipients_example : AreRecipients db 3 (4 ∷ []) × (1 ≤ max_shares)
resolve_share_accounts-AreRecipients_example =
    resolve_share_accounts-AreRecipients env db 3 (text "bob" ∷ []) (4 ∷ []) resolved

abbrev theme : Text
theme = text "--pico-primary: #fff; --pico-primary : red"

abbrev declared : List Declaration
declared = record { property = text "--pico-primary"; value = text "red" } ∷ []

theme_parsed :
    parse env.unicode.is_whitespace env.unicode.is_control two_letters theme ≡ ok declared
unfolding parse canonicalize
theme_parsed = refl

parse-IsTheme_example :
    IsTheme env.unicode.is_whitespace env.unicode.is_control two_letters declared
parse-IsTheme_example =
    parse-IsTheme env.unicode.is_whitespace env.unicode.is_control two_letters theme declared
      theme_parsed

unchanged :
    (build_resource_plan env db
      (some web)
      (text "web")
      service
      shared
      none
      none
      (text "bob" ∷ [])).operation
    ≡ noop
unfolding build_resource_plan as_str share_recipients order_by account_by_id insert_by
unchanged = refl

build_resource_plan-noop_example :
    (some (as_str shared) ≡ some (as_str shared))
    × (web.url ≡ none)
    × (web.folder ≡ none)
    × (all (λ q. names (text "bob" ∷ []) q.handle) (share_recipients 7 db) ≡ true)
    × (all (names (map (λ q. q.handle) (share_recipients 7 db))) (text "bob" ∷ []) ≡ true)
build_resource_plan-noop_example =
    build_resource_plan-noop env db web (text "web") service shared none none (text "bob" ∷ [])
      unchanged

-- The viewer's browser reads the profile of the owner of the service.
abbrev seen : ProfileResponse
seen = record {
  handle = text "alice";
  entries = record { resource = web; owner_handle = none } ∷ [];
  shared_with_me = [];
  theme = [];
}

web_only :
    (q : ResourceId) (w : AccountId) → shared_now q db.resources ≡ false → status db q w ≡ none
unfolding shared_now status share_at invitation_at
web_only q w e = elim (Bool-cases (7 == q)) [
  | inl here ↦ (let bad : true ≡ false = rw here at e in cc)
  | inr other ↦ rw other refl
]

db-NoStray : NoStray db
unfolding NoStray
db-NoStray = web_only

distinct : DistinctIds db.resources
unfolding DistinctIds
distinct = (refl, refl)

accessible_services-Reachable_example :
    All (λ (p : Resource × Option Text). Reachable 4 db p.0) (accessible_services 4 db)
accessible_services-Reachable_example = accessible_services-Reachable 4 db distinct db-NoStray

db-disjoint :
    (r : ResourceId) (v : AccountId)
    → share_at r v db.shares ≡ true
    → invitation_at r v db.invitations ≡ none
unfolding share_at invitation_at
db-disjoint r v e = refl

db-open_only : (r : ResourceId) (v : AccountId) → invitation_at r v db.invitations ≢ some accepted
unfolding invitation_at
db-open_only r v e = cc

db-IsTidy : IsTidy env db
db-IsTidy = record {
  consistent = record { distinct = tt; disjoint = db-disjoint; open_only = db-open_only };
  stray = db-NoStray;
}

abbrev wanted : CreateResourceRequest
wanted = record {
  name = text "api";
  kind = text "service";
  visibility = text "shared";
  url = none;
  folder = none;
  share_with = text "alice" ∷ [];
}

abbrev created : AppState × Result ApiError CreateResourceResponse
created = create_resource env clock browser wanted 9 state

abbrev made : CreateResourceResponse
made = record {
  resource_id = resource_id_text env 9;
  plan = record {
    operation = create;
    target = record {
      resource_id = some (resource_id_text env 9);
      kind = service;
      name = text "api";
    };
    changes = record { field = visibility_field; from = none; to = some (text "shared") } ∷ [];
    recipient_changes =
        record { handle = text "alice"; from = none; to = some pending; reason = recipient_added }
        ∷ [];
    effects = record { code = recipients_invited; handles = text "alice" ∷ [] } ∷ [];
  };
}

resource_created : create_resource env clock browser wanted 9 state ≡ (created.0, ok made)
unfolding create_resource ◌>>=◌ require_account current_account bearer_token cookie_token
    session_account account_by_id check_rate check limit current_window window_of discard
    prepare_resource prepare_fields validate_resource_name parse_kind Policy.parse
    validate_resource_visibility resource_url validate_folder resource_named named is_named
    resource_count prepare_plan resolve_share_accounts validate_handle account_by_handle same_handle
    handles_of contains handle_of store_resource statement has_account has_resource set_shares
    invite_each invite share_at remove_unwanted viewers_of invited_of invitation_at notify_profiles
    build_resource_plan resources_owned_by order_by as_str list_eq strip_prefix split split_once
    be_bytes to_string check_folder checked_url is_web resolve_each resolve_share validate_name
    validate_public_url change_of effect_of existing_changes existing_recipients handles_where
    invited names operation_of is_same account_by account_id collect continue machine_or_session
    session_value check_handle is_reserved trim_end_matches trim_start_matches accepted_recipients
    insert_by invited_recipients share_recipients text_leb with_recipient bound_credential
    machine_authentication touch update_resource drop_invitation drop_share drop_shares_of pend_each
    remove_recipient reset_approvals shared_with resource_id_text trim class_index fresh_entries
    put_window Table.create_resource
resource_created = refl

create_resource-IsTidy_example :
    IsTidy env created.0.db
    × ((stored : ResourceId) × (made.resource_id ≡ resource_id_text env stored)
        × Names env (text "alice" ∷ []) db created.0.db stored)
create_resource-IsTidy_example =
    create_resource-IsTidy env clock browser wanted 9 state created.0 made resource_created
      db-IsTidy

-- The owner of the service empties its share list.
abbrev owner_db : Db
owner_db = record db {
  sessions = record { token_hash = sum (text "b"); account_id = 3; expires_at = 900 } ∷ [];
}

abbrev unshared : AppState × Result ApiError (Unit {0})
unshared =
    set_resource_shares env clock browser (text "res_bbbbbbbbbbbbbbbaaaaaaab") []
      (record state { db = owner_db })

shares_set :
    set_resource_shares env clock browser
      (text "res_bbbbbbbbbbbbbbbaaaaaaab")
      []
      (record state { db = owner_db })
    ≡ (unshared.0, ok tt)
unfolding set_resource_shares ◌>>=◌ require_account current_account bearer_token cookie_token
    session_account account_by_id check_rate check limit current_window window_of discard
    parse_resource_id from_str strip_prefix owned contains list_eq split split_once from_be
    resolve_each resolve_share resolve_share_accounts account_by account_id collect continue
    machine_or_session notify_profiles session_value statement check_handle is_reserved
    trim_end_matches trim_start_matches validate_handle account_by_handle same_handle
    bound_credential machine_authentication touch has_account has_resource resource drop_invitation
    drop_share invitation_at invited_of share_at viewers_of invite invite_each remove_recipient
    remove_unwanted set_shares shared_with trim class_index fresh_entries put_window
shares_set = refl

owner_db-IsTidy : IsTidy env owner_db
unfolding NoStray status
owner_db-IsTidy = record {
  consistent = record { distinct = tt; disjoint = db-disjoint; open_only = db-open_only };
  stray = web_only;
}

set_resource_shares-IsTidy_example :
    IsTidy env unshared.0.db
    × SetBy env clock browser
        (text "res_bbbbbbbbbbbbbbbaaaaaaab")
        []
        (record state { db = owner_db })
        unshared.0
set_resource_shares-IsTidy_example =
    set_resource_shares-IsTidy env clock browser (text "res_bbbbbbbbbbbbbbbaaaaaaab") []
      (record state { db = owner_db }) unshared.0 (ok tt) shares_set owner_db-IsTidy
