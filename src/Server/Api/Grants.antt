-- ===== src/Server/Api/Grants.antt =====
-- crates/devsite-server/src/api.rs: service grants. A requester signs what it asks for, a machine
-- that may issue grants signs what it gives, and its owner approves a plan of it beforehand.
pub mod Validated
pub mod Laws
use devsite.Prelude.{
  ℕ, ◌+◌, Bool, true, false, not, ◌&&◌, ◌||◌, Option, some, none, List, [], ◌∷◌, Result, ok, err,
  ◌==◌, ltb, leb, Text, text, length, list_eq, find, filter, map_err, if◌then◌else◌,
}
use devsite.Prelude.Texts.{contains_text}
use devsite.Prelude.Words.{be_bytes, saturating_add}
use devsite.Proto.Crypto.{KeyBytes}
use devsite.Proto.Capability.{ResourceId}
use devsite.Proto.Message.{service_grant_request_message, service_grant_issue_message}
use devsite.Proto.AccessPlan.{ServiceGrantPlanClaims}
use devsite.Server.Env.{Env, trim, parse_endpoint_id, parse_resource_id}
use devsite.Server.Issuer.{Issuer, issue_access_plan, verify_access_plan}
use devsite.Server.RateLimits.{capability}
use devsite.Server.Db.Rows.{Db, Resource}
use devsite.Server.Db.Machines.{MachineAuthentication}
use devsite.Server.Db.Tickets.{active_broker_grant_count, create_broker_tunnel_session}
use devsite.Server.Db.Listings as Listings
use devsite.Server.Api.{
  Headers, Clock, Handler, ApiError, invalid_request, forbidden, not_found, internal,
  too_many_requests, ◌>>=◌, ◌>>◌, return, lift, query, attempt, require, or_fail, require_machine,
  check_rate,
}
use devsite.Server.Api.Checks.{max_resource_name, valid_grant_request_id, is_blank}
use devsite.Server.Api.Machines.{has_scope, verify_endpoint_signature}
use devsite.Server.Api.Tunnels.{tunnel_session_prefix, prefixed_token}

abbrev pub service_grant_request_lifetime_secs : ℕ
service_grant_request_lifetime_secs = 600

abbrev pub service_grant_max_lifetime_secs : ℕ
service_grant_max_lifetime_secs = 900

abbrev pub max_active_broker_grants : ℕ
max_active_broker_grants = 32

pub record ServiceGrantRequestEnvelope : Type 0 where
  pub schema_version : ℕ
  pub request_id : Text
  pub service : Text
  pub requester_endpoint_id : Text
  pub expires_at : ℕ
  pub proof : Text

pub record ServiceGrantIssueRequest : Type 0 where
  pub request : ServiceGrantRequestEnvelope
  pub resource_id : Text
  pub expires_at : ℕ
  pub broker_proof : Text
  pub approved_plan : Option Text

-- A service with the handle of its owner, unless it is the account's own.
abbrev pub Service : Type 0
Service = Resource × Option Text

abbrev pub handle_contains : (Text → Text) → Text → Option Text → Bool
handle_contains lower needle none = false
handle_contains lower needle (some handle) = contains_text needle (lower handle)

-- `a == b` of the derived `PartialEq`.
unfoldable pub same_claims : ServiceGrantPlanClaims → ServiceGrantPlanClaims → Bool
unfolding list_eq
same_claims a b =
    a.schema_version == b.schema_version
    && (list_eq a.issuer_credential_id b.issuer_credential_id
        && (list_eq a.request_id b.request_id
            && (list_eq a.service b.service
                && (list_eq a.resource_id b.resource_id
                    && (list_eq a.requester_endpoint_id b.requester_endpoint_id
                        && (a.request_expires_at == b.request_expires_at
                            && a.grant_expires_at == b.grant_expires_at))))))

abbrev pub within : ℕ → ℕ → ℕ → Bool
within now lifetime expires_at =
    not (leb expires_at now) && not (ltb (saturating_add now lifetime) expires_at)

-- A broker session that was made, already there, or failed.
abbrev pub granted : Db × Option Bool → Db × Result ApiError (Unit {0})
granted (db, none) = (db, err internal)
granted (db, some false) = (db, err invalid_request)
granted (db, some true) = (db, ok tt)

unfoldable pub require_service_grant_scope : MachineAuthentication → Handler (Unit {0})
require_service_grant_scope machine = require (has_scope machine.scopes) forbidden

unfoldable pub claims_of : MachineAuthentication → ServiceGrantIssueRequest → ServiceGrantPlanClaims
claims_of machine body = record {
  schema_version = body.request.schema_version;
  issuer_credential_id = machine.credential_id;
  request_id = body.request.request_id;
  service = body.request.service;
  resource_id = body.resource_id;
  requester_endpoint_id = body.request.requester_endpoint_id;
  request_expires_at = body.request.expires_at;
  grant_expires_at = body.expires_at;
}

module _ (env : Env) where
  -- The name, or the owner's handle, contains the keyword without regard to case.
  unfoldable pub is_match : Text → Service → Bool
  unfolding contains_text
  is_match needle (r, owner) =
      contains_text needle (env.case.to_lowercase r.name)
      || handle_contains env.case.to_lowercase needle owner

  -- Texts are their UTF-8 bytes in a message, and an endpoint its 32 bytes.
  unfoldable pub verify_request : KeyBytes → ServiceGrantRequestEnvelope → Handler (Unit {0})
  verify_request requester request = verify_endpoint_signature env requester request.proof (
      service_grant_request_message request.request_id request.service (be_bytes 32 requester)
        request.expires_at)

  unfoldable pub verify_issue : KeyBytes → KeyBytes → ServiceGrantIssueRequest → Handler (Unit {0})
  verify_issue broker requester body = verify_endpoint_signature env broker body.broker_proof (
      service_grant_issue_message body.request.request_id body.resource_id (be_bytes 32 requester)
        body.expires_at)

  -- The checks of the form of a request and of its lifetimes.
  unfoldable pub check_request : ℕ → ServiceGrantIssueRequest → Handler (Unit {0})
  unfolding trim list_eq
  check_request now body = do
    require (body.request.schema_version == 1) invalid_request
    require (valid_grant_request_id body.request.request_id) invalid_request
    require
        (list_eq (trim env.unicode.is_whitespace body.request.service) body.request.service
          && not (is_blank body.request.service)
          && not (ltb max_resource_name (length body.request.service)))
        invalid_request
    require (within now service_grant_request_lifetime_secs body.request.expires_at) invalid_request
    require (within now service_grant_max_lifetime_secs body.expires_at) invalid_request

  -- `accessible_services`, then the one with the identifier that the keyword matches.
  unfoldable pub find_service : MachineAuthentication → ServiceGrantIssueRequest → Handler Service
  find_service machine body = do
    id ← or_fail (parse_resource_id env body.resource_id) not_found
    found ← query (λ db.
        find (λ p. p.0.id == id && is_match (env.case.to_lowercase body.request.service) p)
          (Listings.accessible_services machine.account.id db))
    or_fail found not_found

  unfoldable pub validate_service_grant :
      MachineAuthentication → ServiceGrantIssueRequest → ℕ → Handler Service
  validate_service_grant machine body now = do
    check_request now body
    requester ← or_fail (parse_endpoint_id env body.request.requester_endpoint_id) invalid_request
    verify_request requester body.request
    service ← find_service machine body
    broker ← or_fail (parse_endpoint_id env machine.endpoint_id) internal
    verify_issue broker requester body
    return service

  unfoldable pub plan_service_grant :
      Issuer → Clock → Headers → ServiceGrantIssueRequest → Handler (Service × Text)
  plan_service_grant issuer clock headers body = do
    machine ← require_machine env clock headers
    require_service_grant_scope machine
    service ← validate_service_grant machine body clock.now
    approved_plan ← lift (map_err (issue_access_plan env issuer (claims_of machine body)) internal)
    return (service, approved_plan)

  -- The approved plan is of these claims.
  unfoldable pub check_approval :
      Issuer → MachineAuthentication → ServiceGrantIssueRequest → Handler (Unit {0})
  check_approval issuer machine body = do
    token ← or_fail body.approved_plan invalid_request
    approved ← lift (map_err (verify_access_plan env issuer token) invalid_request)
    require (same_claims approved (claims_of machine body)) invalid_request

  -- `generated` is the random part of the session's token.
  unfoldable pub issue_service_grant :
      Issuer → Clock → Headers → ServiceGrantIssueRequest → Text → Handler (Service × Text)
  issue_service_grant issuer clock headers body generated = do
    machine ← require_machine env clock headers
    require_service_grant_scope machine
    check_rate clock machine.account.id capability
    service ← validate_service_grant machine body clock.now
    check_approval issuer machine body
    active ← query (active_broker_grant_count machine.credential_id clock.now)
    require (ltb active max_active_broker_grants) too_many_requests
    attempt (λ db. granted (
        create_broker_tunnel_session
          (env.hash_token (prefixed_token tunnel_session_prefix generated)) machine.account.id
          service.0.id body.request.requester_endpoint_id machine.credential_id
          body.request.request_id clock.now body.expires_at db))
    return (service, prefixed_token tunnel_session_prefix generated)

  -- The services that a keyword finds.
  unfoldable pub accessible_services : Clock → Headers → Text → Handler (List Service)
  unfolding trim
  accessible_services clock headers keyword = do
    machine ← require_machine env clock headers
    require_service_grant_scope machine
    require
        (not (is_blank (trim env.unicode.is_whitespace keyword))
          && not (ltb max_resource_name (length (trim env.unicode.is_whitespace keyword))))
        invalid_request
    query (λ db.
        filter (is_match (env.case.to_lowercase (trim env.unicode.is_whitespace keyword)))
          (Listings.accessible_services machine.account.id db))
