-- ===== src/Server/Api/Machines.antt =====
-- crates/devsite-server/src/api.rs: machines, the daemon that one of them registers, and the proofs
-- that endpoints give of their keys. Generated tokens and identifiers are arguments.
pub mod Proofs
use devsite.Prelude.{
  ℕ, Bool, true, false, not, ◌&&◌, ◌||◌, Option, some, none, List, [], ◌∷◌, Result, ok, err, ◌==◌,
  ltb, leb, Text, text, length, list_eq, any, if◌then◌else◌, Bytes,
}
use devsite.Prelude.Words.{be_bytes}
use devsite.Proto.Crypto.{KeyBytes}
use devsite.Proto.Capability.{AccountId, ResourceId}
use devsite.Proto.Message.{machine_endpoint_proof_message}
use devsite.Server.Env.{Env, parse_endpoint_id}
use devsite.Server.Relay.{RelayAccess}
use devsite.Server.RateLimits.{mutation, credential}
use devsite.Server.Db.Rows.{Db}
use devsite.Server.Db.Machines as Table
use devsite.Server.Db.Machines.{
  MachineAuthentication, machine_enrollment, active_machine_credential_count, daemon_endpoint,
}
use devsite.Server.Db.Resources.{service_authorizations}
use devsite.Server.Db.Listings.{order_by, text_leb}
use devsite.Server.Api.{
  Headers, Clock, Handler, ApiError, invalid_request, unauthorized, not_found, internal, ◌>>=◌,
  ◌>>◌, return, lift, query, statement, with_unit, require, or_fail, bearer_token, require_machine,
  require_browser_account, check_rate,
}
use devsite.Server.Api.Checks.{validate_machine_name}
use devsite.Server.Api.Tunnels.{valid_prefixed_token}

abbrev pub max_machine_credentials : ℕ
max_machine_credentials = 10

abbrev pub service_grant_scope : Text
service_grant_scope = text "service_grants:issue"

-- `Vec::dedup`: of equal neighbours the first stays.
unfoldable pub dedup : List Text → List Text
unfolding list_eq
dedup [] = []
dedup (t ∷ []) = t ∷ []
dedup (t ∷ u ∷ ts) = let rest = dedup (u ∷ ts) in if list_eq t u then rest else t ∷ rest

unfoldable pub has_scope : List Text → Bool
unfolding list_eq
has_scope scopes = any (λ scope. list_eq scope service_grant_scope) scopes

unfoldable pub has_other_scope : List Text → Bool
unfolding list_eq
has_other_scope scopes = any (λ scope. not (list_eq scope service_grant_scope)) scopes

abbrev pub is_registered : Option Text → Text → Bool
is_registered none endpoint = false
is_registered (some e) endpoint = list_eq e endpoint

pub record DaemonInfo : Type 0 where
  pub credential_endpoint_id : Text
  pub registration_matches_credential : Bool
  pub registered_endpoint_id : Option Text

pub record EnrolledMachine : Type 0 where
  pub machine_credential : Text
  pub endpoint_id : Text

pub record CreatedCredential : Type 0 where
  pub id : Text
  pub name : Text
  pub created_at : ℕ
  pub scopes : List Text
  pub ticket : Text

module _ (env : Env) where
  unfoldable pub verify_endpoint_signature : KeyBytes → Text → Bytes → Handler (Unit {0})
  verify_endpoint_signature endpoint proof message = do
    signature ← or_fail (env.base64url.decode proof) invalid_request
    require (length signature == 64) invalid_request
    require (env.is_key endpoint) invalid_request
    require (env.ed.verify endpoint message signature) invalid_request

  unfoldable pub verify_endpoint_proof : Text → Text → Handler (Unit {0})
  verify_endpoint_proof endpoint_id proof = do
    endpoint ← or_fail (parse_endpoint_id env endpoint_id) invalid_request
    verify_endpoint_signature endpoint proof (machine_endpoint_proof_message (be_bytes 32 endpoint))

  unfoldable pub register_daemon :
      (KeyBytes → Option RelayAccess) → Clock → Headers → Text → Handler RelayAccess
  register_daemon relay_access clock headers proof = do
    machine ← require_machine env clock headers
    check_rate clock machine.account.id mutation
    verify_endpoint_proof machine.endpoint_id proof
    statement (λ db. with_unit (Table.register_daemon machine.account.id machine.endpoint_id db))
    endpoint_key ← or_fail (parse_endpoint_id env machine.endpoint_id) internal
    or_fail (relay_access endpoint_key) internal

  unfoldable pub daemon_info : Clock → Headers → Handler DaemonInfo
  unfolding list_eq
  daemon_info clock headers = do
    machine ← require_machine env clock headers
    registered ← query (daemon_endpoint machine.account.id)
    return (record {
      credential_endpoint_id = machine.endpoint_id;
      registration_matches_credential = is_registered registered machine.endpoint_id;
      registered_endpoint_id = registered;
    })

  -- The pairs of `service_authorizations`, which the daemon reads back from their texts.
  unfoldable pub daemon_authorizations : Clock → Headers → Handler (List (AccountId × ResourceId))
  daemon_authorizations clock headers = do
    machine ← require_machine env clock headers
    query (service_authorizations machine.account.id)

  -- `token` is the generated credential.
  unfoldable pub enroll_machine : Clock → Headers → Text → Text → Text → Handler EnrolledMachine
  enroll_machine clock headers endpoint_id proof token = do
    ticket ← or_fail (bearer_token headers) unauthorized
    require (valid_prefixed_token ticket (text "dmt_")) unauthorized
    verify_endpoint_proof endpoint_id proof
    enrollment ← query (machine_enrollment (env.hash_token ticket))
    found ← or_fail enrollment unauthorized
    check_rate clock (found.1) credential
    enrolled ← statement (
        Table.enroll_machine (found.0) (found.1) (env.hash_token ticket) (env.hash_token token)
          endpoint_id clock.now)
    require enrolled unauthorized
    return (record { machine_credential = token; endpoint_id = endpoint_id })

  unfoldable pub create_machine_credential :
      Clock → Headers → Text → List Text → Text → Text → Handler CreatedCredential
  unfolding text_leb
  create_machine_credential clock headers body_name body_scopes ticket id = do
    account ← require_browser_account env clock headers
    check_rate clock account credential
    name ← lift (validate_machine_name env body_name)
    require (not (has_other_scope (dedup (order_by text_leb body_scopes)))) invalid_request
    active ← query (active_machine_credential_count account)
    require (ltb active max_machine_credentials) invalid_request
    statement (λ db. with_unit (
        Table.create_machine_credential id account name (env.hash_token ticket)
          (dedup (order_by text_leb body_scopes)) clock.now db))
    return (record {
      id = id;
      name = name;
      created_at = clock.now;
      scopes = dedup (order_by text_leb body_scopes);
      ticket = ticket;
    })

  unfoldable pub revoke_machine_credential : Clock → Headers → Text → Handler (Unit {0})
  revoke_machine_credential clock headers id = do
    account ← require_browser_account env clock headers
    check_rate clock account credential
    revoked ← statement (λ db. some (Table.revoke_machine_credential account id db))
    require revoked not_found
