-- ===== src/Server/Api/Resources.antt =====
-- crates/devsite-server/src/api.rs: the handlers that change resources and who they are shared with.
pub mod Prepared
pub mod Shared
pub mod Reset
use devsite.Prelude.{
  ℕ, Bool, true, false, not, ◌&&◌, ◌||◌, Option, some, none, List, [], ◌∷◌, ◌++◌, Result, ok, err,
  ◌==◌, ltb, leb, Text, text, list_eq, find, map_err, if◌then◌else◌, length,
}
use devsite.Proto.Capability.{AccountId, ResourceId}
use devsite.Server.Env.{Env, parse_resource_id, resource_id_text}
use devsite.Server.Policy.{Visibility, parse, shared}
use devsite.Server.RateLimits.{mutation}
use devsite.Server.Db.Rows.{Db, Resource, ResourceKind, link, service, resource}
use devsite.Server.Db.Shares.{set_shares, shared_with, accept_share, decline_share}
use devsite.Server.Db.Resources as Table
use devsite.Server.Db.Resources.{
  is_shared, kind_eq, resource_named, resource_count, is_some_resource,
}
use devsite.Server.Db.Listings.{resources_owned_by, handle_of}
use devsite.Server.Api.{
  Headers, Clock, Handler, ApiError, invalid_request, not_found, internal, ◌>>=◌, ◌>>◌, return,
  lift, query, statement, with_unit, require, or_fail, notify, require_account,
  require_browser_account, check_rate,
}
use devsite.Server.Api.Checks.{
  max_resources, validate_resource_name, validate_resource_visibility, resource_url,
  validate_folder, resolve_share_accounts,
}
use devsite.Server.Api.Plan.{ResourcePlan, build_resource_plan}

pub record CreateResourceRequest : Type 0 where
  pub name : Text
  pub kind : Text
  pub visibility : Text
  pub url : Option Text
  pub folder : Option Text
  pub share_with : List Text

pub record CreateResourceResponse : Type 0 where
  pub resource_id : Text
  pub plan : ResourcePlan

pub record Fields : Type 0 where
  pub name : Text
  pub kind : ResourceKind
  pub visibility : Visibility
  pub url : Option Text
  pub folder : Option Text

pub record PreparedResource : Type 0 where
  pub fields : Fields
  pub viewers : List AccountId
  pub plan : ResourcePlan

unfoldable pub parse_kind : Text → Option ResourceKind
unfolding list_eq
parse_kind t =
    if list_eq t (text "link")
    then some link
    else if list_eq t (text "service")
    then some service
    else none

abbrev pub is_nonempty : List Text → Bool
is_nonempty [] = false
is_nonempty (t ∷ ts) = true

-- `resource.name == name && resource.kind == kind`.
unfoldable pub is_same : Text → ResourceKind → Resource → Bool
unfolding list_eq
is_same name kind r = list_eq r.name name && kind_eq r.kind kind

-- The handles of the viewers; `none` where one has none.
unfoldable pub handles_of : Db → List AccountId → Option (List Text)
handles_of db [] = some []
handles_of db (v ∷ vs) = elim (handle_of v db) [
  | none ↦ none
  | some h ↦ elim (handles_of db vs) [ none ↦ none | some hs ↦ some (h ∷ hs) ]
]

-- `.filter(|resource| resource.owner_id == owner)`.
unfoldable pub owned : AccountId → Option Resource → Option Resource
owned owner none = none
owned owner (some r) = if r.owner_id == owner then some r else none

-- The statements of `create_resource`: the resource, then its share list.
unfoldable pub store_resource : ResourceId → AccountId → ℕ → PreparedResource → Handler ResourceId
store_resource id owner now p = do
  stored ← statement (
      Table.create_resource id owner p.fields.name p.fields.kind p.fields.visibility p.fields.url
        p.fields.folder now)
  statement (λ db. with_unit (set_shares stored p.viewers db))
  return stored

abbrev pub with_id : Text → ResourcePlan → ResourcePlan
with_id id plan = record plan { target = record plan.target { resource_id = some id } }

module _ (env : Env) where
  -- The fields that do not need the tables.
  unfoldable pub prepare_fields : CreateResourceRequest → Handler Fields
  prepare_fields body = do
    name ← lift (validate_resource_name env body.name)
    kind ← or_fail (parse_kind body.kind) invalid_request
    visibility ← or_fail (parse body.visibility) invalid_request
    lift (validate_resource_visibility kind visibility)
    require (is_shared visibility || not (is_nonempty body.share_with)) invalid_request
    url ← lift (resource_url env kind body.url)
    folder ← lift (validate_folder env body.folder)
    return
        (record { name = name; kind = kind; visibility = visibility; url = url; folder = folder })

  -- Every share target is resolved before anything is planned or made.
  unfoldable pub prepare_plan :
      AccountId → List Text → Fields → Option Resource → Handler (List AccountId × ResourcePlan)
  prepare_plan owner share_with f existing = do
    resolved ← query (λ db. resolve_share_accounts env db owner share_with)
    viewers ← lift resolved
    handles ← query (λ db. handles_of db viewers)
    desired ← or_fail handles invalid_request
    query (λ db. (
      viewers,
      build_resource_plan env db existing f.name f.kind f.visibility f.url f.folder desired,
    ))

  unfoldable pub prepare_resource : AccountId → CreateResourceRequest → Handler PreparedResource
  prepare_resource owner body = do
    f ← prepare_fields body
    existing ← query (λ db. find (is_same f.name f.kind) (resources_owned_by owner db))
    room ←
        query (λ db.
          resource_named owner f.name f.kind db || ltb (resource_count owner db) max_resources)
    require room invalid_request
    planned ← prepare_plan owner body.share_with f existing
    return (record { fields = f; viewers = planned.0; plan = planned.1 })

  unfoldable pub plan_resource : Clock → Headers → CreateResourceRequest → Handler ResourcePlan
  plan_resource clock headers body = do
    owner ← require_account env clock headers
    check_rate clock owner mutation
    prepared ← prepare_resource owner body
    return prepared.plan

  -- `id` is the identifier generated for a new resource.
  unfoldable pub create_resource :
      Clock → Headers → CreateResourceRequest → ResourceId → Handler CreateResourceResponse
  create_resource clock headers body id = do
    owner ← require_account env clock headers
    check_rate clock owner mutation
    prepared ← prepare_resource owner body
    stored ← store_resource id owner clock.now prepared
    viewers ← query (shared_with stored)
    notify (owner ∷ viewers)
    return (record {
      resource_id = resource_id_text env stored;
      plan = with_id (resource_id_text env stored) prepared.plan;
    })

  unfoldable pub delete_resource : Clock → Headers → Text → Handler (Unit {0})
  delete_resource clock headers id = do
    owner ← require_account env clock headers
    check_rate clock owner mutation
    resource_id ← or_fail (parse_resource_id env id) not_found
    viewers ← query (shared_with resource_id)
    deleted ← statement (λ db. some (Table.delete_resource owner resource_id db))
    require deleted not_found
    notify (owner ∷ viewers)

  unfoldable pub set_resource_shares : Clock → Headers → Text → List Text → Handler (Unit {0})
  set_resource_shares clock headers id share_with = do
    owner ← require_account env clock headers
    check_rate clock owner mutation
    resource_id ← or_fail (parse_resource_id env id) not_found
    found ← query (λ db. owned owner (resource db resource_id))
    r ← or_fail found not_found
    require (is_shared r.visibility || not (is_nonempty share_with)) invalid_request
    old_viewers ← query (shared_with resource_id)
    resolved ← query (λ db. resolve_share_accounts env db owner share_with)
    viewers ← lift resolved
    statement (λ db. with_unit (set_shares resource_id viewers db))
    new_viewers ← query (shared_with resource_id)
    notify (owner ∷ (old_viewers ++ new_viewers))

  unfoldable pub update_share_invitation : Clock → Headers → Text → Bool → Handler AccountId
  update_share_invitation clock headers id accept = do
    viewer ← require_browser_account env clock headers
    check_rate clock viewer mutation
    resource_id ← or_fail (parse_resource_id env id) not_found
    changed ←
        statement
          (if accept then accept_share viewer resource_id else decline_share viewer resource_id)
    require changed not_found
    found ← query (λ db. resource db resource_id)
    r ← or_fail found not_found
    notify (viewer ∷ r.owner_id ∷ [])
    return viewer
