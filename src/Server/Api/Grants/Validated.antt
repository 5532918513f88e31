-- ===== src/Server/Api/Grants/Validated.antt =====
-- A service grant that passes the checks of crates/devsite-server/src/api.rs, except the approval.
use mathlib.Core.Path.{subst}
use devsite.Prelude.{
  ℕ, ◌≡◌, ◌≤◌, ◌<◌, ◌+◌, sym, ◌∙◌, ap, ◌&&◌, Option, some, none, ok, arith, ◌==◌, find,
}
use devsite.Prelude.Words.{be_bytes}
use devsite.Proto.Crypto.{KeyBytes}
use devsite.Proto.Capability.{ResourceId}
use devsite.Proto.Message.{service_grant_request_message, service_grant_issue_message}
use devsite.Server.Env.{Env, parse_endpoint_id, parse_resource_id}
use devsite.Server.Db.Rows.{Db}
use devsite.Server.Db.Machines.{MachineAuthentication}
use devsite.Server.Db.Listings as Listings
use devsite.Server.Api.{AppState, invalid_request, not_found, internal, or_fail}
use devsite.Server.Api.Steps.{
  >>=-eq-ok, or_fail-eq-ok, query-eq-ok, require-eq-ok, outcome-injective,
}
use devsite.Server.Api.Machines.Proofs.{Proves, verify_endpoint_signature-Proves, require_last}
use devsite.Server.Api.Grants.{
  ServiceGrantIssueRequest, Service, within, is_match, check_request, verify_request, verify_issue,
  find_service, validate_service_grant, service_grant_max_lifetime_secs,
  service_grant_request_lifetime_secs,
}

module _ (env : Env) where
  -- The requester signed the request, and the machine's endpoint signed the grant of it.
  pub record Signed (machine : MachineAuthentication) (body : ServiceGrantIssueRequest)
      : Type 0 where
    pub requester : KeyBytes
    pub broker : KeyBytes
    pub requested_by : parse_endpoint_id env body.request.requester_endpoint_id ≡ some requester
    pub issued_by : parse_endpoint_id env machine.endpoint_id ≡ some broker
    pub request : Proves env requester body.request.proof (
        service_grant_request_message body.request.request_id body.request.service
          (be_bytes 32 requester)
          body.request.expires_at)
    pub issue : Proves env broker body.broker_proof (
        service_grant_issue_message body.request.request_id body.resource_id
          (be_bytes 32 requester)
          body.expires_at)

  -- The service is among those that the machine's account reaches.
  pub record Finds (machine : MachineAuthentication) (body : ServiceGrantIssueRequest) (db : Db)
      (service : Service) : Type 0 where
    pub id : ResourceId
    pub named : parse_resource_id env body.resource_id ≡ some id
    pub found :
        find
          (λ p. p.0.id == id && is_match env (env.case.to_lowercase body.request.service) p)
          (Listings.accessible_services machine.account.id db)
        ≡ some service

  check_request-eq-ok :
      (now : ℕ) (body : ServiceGrantIssueRequest) (s : AppState) {t : AppState} {u : Unit {0}}
      → check_request env now body s ≡ (t, ok u)
      → (t ≡ s)
        × (now < body.expires_at)
        × (body.expires_at ≤ now + service_grant_max_lifetime_secs)
  unfolding check_request
  check_request-eq-ok now body s e =
      let (_, e1) = require-eq-ok (body.request.schema_version == 1) invalid_request _ s e in
      let (_, e2) = require-eq-ok _ invalid_request _ s e1 in
      let (_, e3) = require-eq-ok _ invalid_request _ s e2 in
      let (_, e4) =
        require-eq-ok (within now service_grant_request_lifetime_secs body.request.expires_at)
          invalid_request _ s e3 in
      let (same, bounded) =
        require_last (within now service_grant_max_lifetime_secs body.expires_at) s e4 in
      (same, ground arith, ground arith)

  find_service-Finds :
      (machine : MachineAuthentication) (body : ServiceGrantIssueRequest) (s : AppState)
      {t : AppState} {service : Service}
      → find_service env machine body s ≡ (t, ok service)
      → (t ≡ s) × Finds machine body s.db service
  unfolding find_service
  find_service-Finds machine body s {t} {service} e =
      let (id, named, e1) =
        or_fail-eq-ok (parse_resource_id env body.resource_id) not_found _ s e in
      let (same, found) =
        last
          (find (λ p. p.0.id == id && is_match env (env.case.to_lowercase body.request.service) p)
            (Listings.accessible_services machine.account.id s.db))
          (query-eq-ok _ _ s e1) in
      (same, record { id = id; named = named; found = found })
    where
      last :
          (o : Option Service)
          → or_fail o not_found s ≡ (t, ok service)
          → (t ≡ s) × (o ≡ some service)
      last none e = cc
      last (some x) e = (sym (outcome-injective e).0, ap some (outcome-injective e).1)

  -- What the validation of a grant has found.
  pub record Valid (machine : MachineAuthentication) (body : ServiceGrantIssueRequest) (now : ℕ)
      (db : Db) (service : Service) : Type 0 where
    pub signed : Signed machine body
    pub finds : Finds machine body db service
    pub begins : now < body.expires_at
    pub ends : body.expires_at ≤ now + service_grant_max_lifetime_secs

  pub validate_service_grant-Valid :
      (machine : MachineAuthentication) (body : ServiceGrantIssueRequest) (now : ℕ) (s : AppState)
      {t : AppState} {service : Service}
      → validate_service_grant env machine body now s ≡ (t, ok service)
      → (t ≡ s) × Valid machine body now s.db service
  unfolding validate_service_grant verify_request verify_issue
  validate_service_grant-Valid machine body now s {t} {service} e =
      let (_, s1, checked, e1) = >>=-eq-ok (check_request env now body) _ s e in
      let (same1, begins, ends) = check_request-eq-ok now body s checked in
      let (requester, requested_by, e2) =
        or_fail-eq-ok (parse_endpoint_id env body.request.requester_endpoint_id) invalid_request _
          s1 e1 in
      let (_, s2, asked, e3) = >>=-eq-ok (verify_request env requester body.request) _ s1 e2 in
      let (same2, request) =
        verify_endpoint_signature-Proves env requester body.request.proof _ s1 asked in
      let (found, s3, finding, e4) = >>=-eq-ok (find_service env machine body) _ s2 e3 in
      let (same3, finds) = find_service-Finds machine body s2 finding in
      let (broker, issued_by, e5) =
        or_fail-eq-ok (parse_endpoint_id env machine.endpoint_id) internal _ s3 e4 in
      let (_, s4, given, e6) = >>=-eq-ok (verify_issue env broker requester body) _ s3 e5 in
      let (same4, issue) =
        verify_endpoint_signature-Proves env broker body.broker_proof _ s3 given in
      let (same5, answer) = outcome-injective e6 in
      (
        sym same5 ∙ same4 ∙ same3 ∙ same2 ∙ same1,
        record {
          signed = record {
            requester = requester;
            broker = broker;
            requested_by = requested_by;
            issued_by = issued_by;
            request = request;
            issue = issue;
          };
          finds =
              subst (Finds machine body s.db) answer
                (subst (λ x. Finds machine body x.db found) (same2 ∙ same1) finds);
          begins = begins;
          ends = ends;
        },
      )
