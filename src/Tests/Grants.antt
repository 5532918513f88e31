-- ===== src/Tests/Grants.antt =====
-- Machines, approval tokens and service grants of crates/devsite-server/src in a small world.
use devsite.Prelude.{
  Result, err, ◌<◌, ◌≡◌, refl, true, some, [], ◌∷◌, ◌++◌, ok, Text, text, strip_prefix, list_eq,
}
use devsite.Prelude.Words.{be_bytes, from_be}
use devsite.Prelude.Texts.{starts_with_text, contains_text}
use devsite.Proto.Message.{
  machine_endpoint_proof_message, service_grant_request_message, service_grant_issue_message,
  push_field,
}
use devsite.Proto.AccessPlan.{ServiceGrantPlanClaims, ServiceGrantPlanError, to_token}
use devsite.Proto.AccessPlan as AccessPlan
use devsite.Proto.Id.{from_str}
use devsite.Server.Auth.{trim_start_matches, trim_end_matches}
use devsite.Server.Env.{parse_resource_id, trim, parse_endpoint_id}
use devsite.Server.Issuer.{verifying_key, issue_access_plan, verify_access_plan, verifying_key}
use devsite.Server.RateLimits.{
  check, limit, class_index, window_of, fresh_entries, put_window, current_window, discard,
}
use devsite.Server.Db.Rows.{Db, account_by_id, has_resource, has_account}
use devsite.Server.Db.Shares.Rows.{share_at}
use devsite.Server.Db.Machines.{
  MachineAuthentication, daemon_endpoint, machine_authentication, touch, bound_credential,
}
use devsite.Server.Db.Machines as Machines
use devsite.Server.Db.Listings.{
  accessible_services, insert_by, order_by, handle_of, text_leb, is_accessible,
}
use devsite.Server.Db.Tickets.{
  has_credential, has_request, create_broker_tunnel_session, active_broker_grant_count,
  purge_tunnels,
}
use devsite.Server.Api.{
  AppState, ◌>>=◌, continue, bearer_token, check_rate, require_machine, statement,
}
use devsite.Server.Api.Checks.{valid_grant_request_id}
use devsite.Server.Api.Machines.{
  has_scope, register_daemon, verify_endpoint_signature, verify_endpoint_proof,
}
use devsite.Server.Api.Machines.Proofs.{Registered, register_daemon-ProvesEndpoint}
use devsite.Server.Api.Grants.{
  ServiceGrantIssueRequest, Service, issue_service_grant, require_service_grant_scope,
  validate_service_grant, check_request, verify_request, verify_issue, find_service, check_approval,
  is_match, same_claims, claims_of, max_active_broker_grants,
}
use devsite.Server.Api.Grants.Validated.{Valid}
use devsite.Server.Api.Grants.Laws.{grant_row, issue_service_grant-Valid}
use devsite.Samples.{sum, sealed}
use devsite.Samples.World.{
  env, relay, issuer, clock, state, db, web, bearer, letters_of, forty_three,
}

abbrev asked : ServiceGrantPlanClaims
asked = record {
  schema_version = 1;
  issuer_credential_id = text "m1";
  request_id = text "agr_0123456789";
  service = text "web";
  resource_id = text "res_bbbbbbbbbbbbbbbaaaaaaab";
  requester_endpoint_id = letters_of 6;
  request_expires_at = 200;
  grant_expires_at = 300;
}

abbrev ok_text : Result ServiceGrantPlanError Text → Text
ok_text (ok t) = t
ok_text (err e) = []

abbrev plan_token : Result ServiceGrantPlanError Text
plan_token = issue_access_plan env issuer asked

plan_issued : issue_access_plan env issuer asked ≡ ok (ok_text plan_token)
unfolding issue_access_plan AccessPlan.sign to_token
plan_issued = refl

-- The machine with the token m registers the daemon of its account.
abbrev proof : Text
proof = sealed 2 (machine_endpoint_proof_message (be_bytes 32 2))

abbrev registered : AppState
registered = (register_daemon env (λ k. some relay) clock (bearer (text "m")) proof state).0

daemon_registered :
    register_daemon env (λ k. some relay) clock (bearer (text "m")) proof state
    ≡ (registered, ok relay)
unfolding register_daemon ◌>>=◌ require_machine bearer_token strip_prefix statement
    machine_authentication bound_credential account_by_id check_rate check limit current_window
    window_of discard verify_endpoint_proof parse_endpoint_id verify_endpoint_signature be_bytes
    machine_endpoint_proof_message continue trim_end_matches trim_start_matches
    Machines.register_daemon touch has_account trim class_index fresh_entries put_window list_eq
daemon_registered = refl

register_daemon-ProvesEndpoint_example :
    Registered env clock (bearer (text "m")) proof db registered.db
register_daemon-ProvesEndpoint_example =
    register_daemon-ProvesEndpoint env clock (bearer (text "m")) proof (λ k. some relay) state
      registered (ok relay) daemon_registered

-- The machine with the token m grants a tunnel to the endpoint with key 6.
abbrev grant : ServiceGrantIssueRequest
grant = record {
  request = record {
    schema_version = 1;
    request_id = text "agr_0123456789";
    service = text "web";
    requester_endpoint_id = letters_of 6;
    expires_at = 200;
    proof =
        sealed 6
          (service_grant_request_message (text "agr_0123456789") (text "web") (be_bytes 32 6) 200);
  };
  resource_id = text "res_bbbbbbbbbbbbbbbaaaaaaab";
  expires_at = 300;
  broker_proof = sealed 2 (
      service_grant_issue_message (text "agr_0123456789") (text "res_bbbbbbbbbbbbbbbaaaaaaab")
        (be_bytes 32 6) 300);
  approved_plan = some (ok_text plan_token);
}

abbrev web_service : Service
web_service = (web, some (text "alice"))

abbrev grant_token : Text
grant_token = text "dss_" ++ forty_three

abbrev granting : AppState
granting = record state { db = record db { tunnel_sessions = [] } }

abbrev grants : AppState
grants = (issue_service_grant env issuer clock (bearer (text "m")) grant forty_three granting).0

service_granted :
    issue_service_grant env issuer clock (bearer (text "m")) grant forty_three granting
    ≡ (grants, ok (web_service, grant_token))
unfolding issue_service_grant require_service_grant_scope validate_service_grant check_request
    verify_request verify_issue find_service check_approval is_match same_claims claims_of ◌>>=◌
    require_machine bearer_token strip_prefix statement machine_authentication bound_credential
    account_by_id has_scope check_rate check limit current_window window_of discard
    valid_grant_request_id parse_endpoint_id list_eq contains_text starts_with_text be_bytes from_be
    AccessPlan.from_token AccessPlan.verify from_str push_field service_grant_issue_message
    service_grant_request_message verify_endpoint_signature continue trim_end_matches
    trim_start_matches accessible_services handle_of insert_by is_accessible order_by text_leb touch
    has_account has_resource share_at active_broker_grant_count create_broker_tunnel_session
    has_request has_credential purge_tunnels verifying_key parse_resource_id trim verify_access_plan
    class_index fresh_entries put_window to_token issue_access_plan AccessPlan.sign
service_granted = refl

issue_service_grant-Valid_example :
    (machine : MachineAuthentication) × (after : Db) × (credential plan : Text) × (bearer_token
        (bearer (text "m"))
      ≡ some credential)
    × (machine_authentication (sum credential) 100 granting.db ≡ some (after, some machine))
    × (has_scope machine.scopes ≡ true)
    × Valid env machine grant 100 after web_service
    × (grant.approved_plan ≡ some plan)
    × (verify_access_plan env issuer plan ≡ ok (claims_of machine grant))
    × (active_broker_grant_count machine.credential_id 100 after < max_active_broker_grants)
    × (grants.db.tunnel_sessions
        ≡ grant_row env machine grant web_service grant_token
          ∷ purge_tunnels 100 after.tunnel_sessions)
issue_service_grant-Valid_example =
    issue_service_grant-Valid env issuer clock (bearer (text "m")) grant forty_three granting grants
      web_service grant_token service_granted
