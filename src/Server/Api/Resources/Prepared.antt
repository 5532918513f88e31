-- ===== src/Server/Api/Resources/Prepared.antt =====
-- What a request to make a resource is prepared into: crates/devsite-server/src/api.rs.
use mathlib.Core.Path.{subst}
use devsite.Prelude.{◌≡◌, sym, ◌∙◌, ap, true, not, ◌||◌, Option, List, ok, Text, find, ltb}
use devsite.Proto.Capability.{AccountId}
use devsite.Server.Env.{Env}
use devsite.Server.Db.Rows.{Db, Resource}
use devsite.Server.Db.Resources.{is_shared, resource_named, resource_count}
use devsite.Server.Db.Listings.{resources_owned_by}
use devsite.Server.Api.{AppState, invalid_request}
use devsite.Server.Api.Steps.{
  >>=-eq-ok, query-eq-ok, lift-eq-ok, or_fail-eq-ok, require-eq-ok, outcome-injective,
}
use devsite.Server.Api.Checks.{
  max_resources, resolve_share_accounts, validate_resource_name, validate_resource_visibility,
  validate_folder, resource_url,
}
use devsite.Server.Api.Plan.{ResourcePlan}
use devsite.Server.Policy.{parse}
use devsite.Server.Api.Resources.{
  CreateResourceRequest, PreparedResource, Fields, is_nonempty, is_same, prepare_fields,
  prepare_plan, prepare_resource, handles_of, parse_kind,
}

module _ (env : Env) where
  -- A request that was prepared, for an owner.
  pub record Prepares (owner : AccountId) (share_with : List Text) (db : Db) (p : PreparedResource)
      : Type 0 where
    pub resolved : resolve_share_accounts env db owner share_with ≡ ok p.viewers
    pub allowed : (is_shared p.fields.visibility || not (is_nonempty share_with)) ≡ true

  prepare_fields-eq-ok :
      (body : CreateResourceRequest) (s : AppState) {t : AppState} {f : Fields}
      → prepare_fields env body s ≡ (t, ok f)
      → (t ≡ s) × ((is_shared f.visibility || not (is_nonempty body.share_with)) ≡ true)
  unfolding prepare_fields
  prepare_fields-eq-ok body s {t} {f} e =
      let (name, _, e1) = lift-eq-ok (validate_resource_name env body.name) _ s e in
      let (kind, _, e2) = or_fail-eq-ok (parse_kind body.kind) invalid_request _ s e1 in
      let (visibility, _, e3) = or_fail-eq-ok (parse body.visibility) invalid_request _ s e2 in
      let (_, _, e4) = lift-eq-ok (validate_resource_visibility kind visibility) _ s e3 in
      let (open_to, e5) =
        require-eq-ok (is_shared visibility || not (is_nonempty body.share_with)) invalid_request _
          s e4 in
      let (url, _, e6) = lift-eq-ok (resource_url env kind body.url) _ s e5 in
      let (folder, _, e7) = lift-eq-ok (validate_folder env body.folder) _ s e6 in
      let (same, fields) = outcome-injective e7 in
      (
        sym same,
        ap (λ x. is_shared x.visibility || not (is_nonempty body.share_with)) (sym fields)
            ∙ open_to,
      )

  prepare_plan-eq-ok :
      (owner : AccountId) (share_with : List Text) (f : Fields) (existing : Option Resource)
      (s : AppState) {t : AppState} {p : List AccountId × ResourcePlan}
      → prepare_plan env owner share_with f existing s ≡ (t, ok p)
      → (t ≡ s) × (resolve_share_accounts env s.db owner share_with ≡ ok (p.0))
  unfolding prepare_plan
  prepare_plan-eq-ok owner share_with f existing s {t} {p} e =
      let (viewers, resolved, e1) =
        lift-eq-ok (resolve_share_accounts env s.db owner share_with) _ s
          (query-eq-ok (λ db. resolve_share_accounts env db owner share_with) _ s e) in
      let (desired, _, e2) =
        or_fail-eq-ok (handles_of s.db viewers) invalid_request _ s
          (query-eq-ok (λ db. handles_of db viewers) _ s e1) in
      let (same, planned) = outcome-injective e2 in
      (sym same, resolved ∙ ap (λ x. ok (x.0)) planned)

  pub prepare_resource-Prepares :
      (owner : AccountId) (body : CreateResourceRequest) (s : AppState) {t : AppState}
      (p : PreparedResource)
      → prepare_resource env owner body s ≡ (t, ok p)
      → (t ≡ s) × Prepares owner body.share_with s.db p
  unfolding prepare_resource
  prepare_resource-Prepares owner body s {t} p e =
      let (f, u, fields, e1) = >>=-eq-ok (prepare_fields env body) _ s e in
      let (same_u, allowed) = prepare_fields-eq-ok body s fields in
      let e2 =
        query-eq-ok (λ db. find (is_same f.name f.kind) (resources_owned_by owner db)) _ u e1 in
      let (_, e3) =
        require-eq-ok
          (resource_named owner f.name f.kind u.db || ltb (resource_count owner u.db) max_resources)
          invalid_request _ u
          (query-eq-ok
            (λ db.
              resource_named owner f.name f.kind db || ltb (resource_count owner db) max_resources)
            _ u e2) in
      let (planned, w, resolving, e4) =
        >>=-eq-ok
          (prepare_plan env owner body.share_with f
            (find (is_same f.name f.kind) (resources_owned_by owner u.db)))
          _ u e3 in
      let (same_w, resolved) = prepare_plan-eq-ok owner body.share_with f _ u resolving in
      let (same_t, prepared) = outcome-injective e4 in
      (
        sym same_t ∙ same_w ∙ same_u,
        subst (Prepares owner body.share_with s.db) prepared (record {
          resolved =
              ap (λ x. resolve_share_accounts env x.db owner body.share_with) (sym same_u)
              ∙ resolved;
          allowed = allowed;
        }),
      )
