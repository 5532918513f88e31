-- ===== src/Server/Api/Grants/Laws.antt =====
-- What a service grant rests on: crates/devsite-server/src/api.rs.
use mathlib.Core.Path.{subst}
use devsite.Prelude.{
  ℕ, ◌≡◌, ◌<◌, sym, ◌∙◌, ap, true, false, Bool, Option, some, none, ◌∷◌, ok, arith, Text, ltb,
  list_eq_sound, map_err, map_err-eq-ok,
}
use devsite.Proto.AccessPlan.{ServiceGrantPlanClaims}
use devsite.Server.Env.{Env}
use devsite.Server.Issuer.{Issuer, verify_access_plan}
use devsite.Server.RateLimits.{capability}
use devsite.Server.Db.Rows.{Db, TunnelRow}
use devsite.Server.Db.Machines.{MachineAuthentication, machine_authentication}
use devsite.Server.Db.Tickets.{
  active_broker_grant_count, create_broker_tunnel_session, purge_tunnels,
}
use devsite.Server.Db.Tickets.Laws.{opened, create_broker_tunnel_session-opened}
use devsite.Server.Api.{
  AppState, Headers, Clock, ◌>>=◌, ◌>>◌, invalid_request, forbidden, too_many_requests,
  bearer_token, require_machine, require, query, attempt, return,
}
use devsite.Server.Api.Steps.{
  >>=-eq-ok, or_fail-eq-ok, query-eq-ok, lift-eq-ok, require-eq-ok, attempt-eq-ok, check_rate-eq-ok,
  counted, outcome-injective,
}
use devsite.Server.Api.Identity.{require_machine-eq-ok}
use devsite.Server.Api.Machines.{has_scope}
use devsite.Server.Api.Machines.Proofs.{require_last}
use devsite.Server.Api.Tunnels.{tunnel_session_prefix, prefixed_token}
use devsite.Server.Api.Grants.{
  ServiceGrantIssueRequest, Service, same_claims, granted, claims_of, validate_service_grant,
  check_approval, issue_service_grant, require_service_grant_scope, max_active_broker_grants,
}
use devsite.Server.Api.Grants.Validated.{Valid, validate_service_grant-Valid}

same_claims_sound : (a b : ServiceGrantPlanClaims) → same_claims a b ≡ true → a ≡ b
unfolding same_claims
same_claims_sound a b e =
    let version : a.schema_version ≡ b.schema_version = ground arith in
    let asked : a.request_expires_at ≡ b.request_expires_at = ground arith in
    let given : a.grant_expires_at ≡ b.grant_expires_at = ground arith in
    let issuer = list_eq_sound a.issuer_credential_id b.issuer_credential_id (ground arith) in
    let request = list_eq_sound a.request_id b.request_id (ground arith) in
    let service = list_eq_sound a.service b.service (ground arith) in
    let resource = list_eq_sound a.resource_id b.resource_id (ground arith) in
    let requester = list_eq_sound a.requester_endpoint_id b.requester_endpoint_id (ground arith) in
    λ i. record {
      schema_version = version i;
      issuer_credential_id = issuer i;
      request_id = request i;
      service = service i;
      resource_id = resource i;
      requester_endpoint_id = requester i;
      request_expires_at = asked i;
      grant_expires_at = given i;
    }

granted-eq-ok :
    (r : Db × Option Bool) {db : Db} {u : Unit {0}} → granted r ≡ (db, ok u) → r ≡ (db, some true)
granted-eq-ok (d, none) e = cc
granted-eq-ok (d, some false) e = cc
granted-eq-ok (d, some true) e = ground arith

module _ (env : Env) where
  check_approval-eq-ok :
      (issuer : Issuer) (machine : MachineAuthentication) (body : ServiceGrantIssueRequest)
      (s : AppState) {t : AppState} {u : Unit {0}}
      → check_approval env issuer machine body s ≡ (t, ok u)
      → (t ≡ s)
        × ((token : Text) × (body.approved_plan ≡ some token)
            × (verify_access_plan env issuer token ≡ ok (claims_of machine body)))
  unfolding check_approval
  check_approval-eq-ok issuer machine body s e =
      let (token, brought, e1) = or_fail-eq-ok body.approved_plan invalid_request _ s e in
      let (approved, verified, e2) =
        lift-eq-ok (map_err (verify_access_plan env issuer token) invalid_request) _ s e1 in
      let (same, equal) = require_last (same_claims approved (claims_of machine body)) s e2 in
      (
        same,
        (
          token,
          brought,
          map_err-eq-ok _ invalid_request verified
              ∙ ap ok (same_claims_sound approved (claims_of machine body) equal),
        ),
      )

  -- The session that a grant opens.
  abbrev pub grant_row :
      MachineAuthentication → ServiceGrantIssueRequest → Service → Text → TunnelRow
  grant_row machine body service token =
      opened (env.hash_token token) machine.account.id service.0.id
        body.request.requester_endpoint_id machine.credential_id body.request.request_id
        body.expires_at

  -- The last steps: the session is made where there is room for it.
  opens_session :
      (machine : MachineAuthentication) (body : ServiceGrantIssueRequest) (service : Service)
      (now : ℕ) (token : Text) (s : AppState) {t : AppState} {answer : Service × Text}
      → (query (active_broker_grant_count machine.credential_id now) >>= (λ active.
            require (ltb active max_active_broker_grants) too_many_requests
            >> (attempt (λ db. granted (
                  create_broker_tunnel_session
                    (env.hash_token token)
                    machine.account.id
                    service.0.id
                    body.request.requester_endpoint_id
                    machine.credential_id
                    body.request.request_id
                    now
                    body.expires_at
                    db))
                >> return (service, token))))
          s
        ≡ (t, ok answer)
      → (active_broker_grant_count machine.credential_id now s.db < max_active_broker_grants)
        × (t.db.tunnel_sessions
            ≡ grant_row machine body service token ∷ purge_tunnels now s.db.tunnel_sessions)
        × ((service, token) ≡ answer)
  opens_session machine body service now token s e =
      let (room, e1) =
        require-eq-ok
          (ltb (active_broker_grant_count machine.credential_id now s.db) max_active_broker_grants)
          too_many_requests _ s
          (query-eq-ok (active_broker_grant_count machine.credential_id now) _ s e) in
      let (_, db, made, e2) =
        attempt-eq-ok
          (λ db. granted (
            create_broker_tunnel_session (env.hash_token token) machine.account.id service.0.id
              body.request.requester_endpoint_id machine.credential_id body.request.request_id now
              body.expires_at db))
          _ s e1 in
      let (state, answered) = outcome-injective e2 in
      (
        ground arith,
        ap (λ a. a.db.tunnel_sessions) (sym state)
            ∙ create_broker_tunnel_session-opened (env.hash_token token) machine.account.id
                service.0.id body.request.requester_endpoint_id machine.credential_id
                body.request.request_id now body.expires_at s.db db (granted-eq-ok _ made),
        answered,
      )

  -- A service grant is issued only to a machine that bears its credential and has the scope, for a
  -- request that the requester's endpoint signed and a grant that the machine's endpoint signed,
  -- of a service that the machine's account reaches, for at most 15 minutes, after exactly this
  -- grant was approved by a token that the server signed, and while the machine has fewer than 32
  -- grants open. It opens one session, bound to the requester's endpoint and to the request.
  pub issue_service_grant-Valid :
      (issuer : Issuer) (clock : Clock) (headers : Headers) (body : ServiceGrantIssueRequest)
      (generated : Text) (s t : AppState) (service : Service) (token : Text)
      → issue_service_grant env issuer clock headers body generated s ≡ (t, ok (service, token))
      → (machine : MachineAuthentication) × (db : Db) × (credential plan : Text) × (bearer_token
            headers
          ≡ some credential)
        × (machine_authentication (env.hash_token credential) clock.identified_at s.db
            ≡ some (db, some machine))
        × (has_scope machine.scopes ≡ true)
        × Valid env machine body clock.now db service
        × (body.approved_plan ≡ some plan)
        × (verify_access_plan env issuer plan ≡ ok (claims_of machine body))
        × (active_broker_grant_count machine.credential_id clock.now db < max_active_broker_grants)
        × (t.db.tunnel_sessions
            ≡ grant_row machine body service token ∷ purge_tunnels clock.now db.tunnel_sessions)
  unfolding issue_service_grant require_service_grant_scope
  issue_service_grant-Valid issuer clock headers body generated s t service token e =
      let (machine, s1, identified, e1) = >>=-eq-ok (require_machine env clock headers) _ s e in
      let (credential, sent, known) = require_machine-eq-ok env clock headers s identified in
      let (scoped, e2) = require-eq-ok (has_scope machine.scopes) forbidden _ s1 e1 in
      let (_, e3) = check_rate-eq-ok clock machine.account.id capability _ s1 e2 in
      let s2 = counted clock machine.account.id capability s1 in
      let (found, s3, validated, e4) =
        >>=-eq-ok (validate_service_grant env machine body clock.now) _ s2 e3 in
      let (same3, valid) = validate_service_grant-Valid env machine body clock.now s2 validated in
      let (_, s4, approving, e5) = >>=-eq-ok (check_approval env issuer machine body) _ s3 e4 in
      let (same4, (plan, brought, approved)) =
        check_approval-eq-ok issuer machine body s3 approving in
      let (room, opens, answer) =
        opens_session machine body found clock.now (prefixed_token tunnel_session_prefix generated)
          s4 e5 in
      let same : s4.db ≡ s1.db = ap (λ a. a.db) (same4 ∙ same3) in
      let served : found ≡ service = ap (λ p. p.0) answer in
      let named : prefixed_token tunnel_session_prefix generated ≡ token = ap (λ p. p.1) answer in
      (
        machine,
        s1.db,
        credential,
        plan,
        sent,
        known,
        scoped,
        subst (Valid env machine body clock.now s1.db) served valid,
        brought,
        approved,
        subst
            (λ d.
              active_broker_grant_count machine.credential_id clock.now d
              < max_active_broker_grants)
            same room,
        opens ∙ (λ i.
            grant_row machine body (served i) (named i)
            ∷ purge_tunnels clock.now ((same i).tunnel_sessions)),
      )
