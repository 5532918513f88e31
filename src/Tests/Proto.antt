-- ===== src/Tests/Proto.antt =====
-- crates/devsite-proto/src at concrete inputs.
use devsite.Prelude.{
  ◌≡◌, ◌≢◌, refl, ◌↔◌, [], ◌∷◌, ◌++◌, ok, err, Text, text, Bytes, arith, list_eq, strip_prefix,
}
use devsite.Prelude.Words.{le_bytes}
use devsite.Samples.{
  toy_ed25519, plain, claims_codec, wire_codec, plan_codec, grant_codec, toy_base32, ascii_case,
  sealed, claims_to, request_to, grant_to, join,
}
use devsite.Proto.Capability.{
  CapabilityClaims, SignedCapability, CapabilityError, tcp_connect, verify_for, check_context,
  expired, wrong_audience,
}
use devsite.Proto.Capability.Laws.{Attests, FitsContext, verify_for-eq-ok_iff}
use devsite.Proto.Wire.{Request, connect, encode, decode, read_frame}
use devsite.Proto.Wire.Laws.{decode-read_frame-encode}
use devsite.Proto.Message.{
  service_grant_request_message, service_grant_issue_message, machine_endpoint_proof_message,
}
use devsite.Proto.Message.Laws.{
  SameStatement, service_grant_request_message-injective, messages_separated,
}
use devsite.Proto.Id.{to_string, from_str, account_prefix}
use devsite.Proto.Id.Laws.{from_str-to_string}
use devsite.Proto.AccessPlan.{
  ServiceGrantPlanClaims, SignedServiceGrantPlan, plan_prefix, unverified_claims, from_token,
  to_token,
}
use devsite.Proto.Capability
use devsite.Proto.AccessPlan

-- A grant of resource 7 to account 3 at client key 21, for the daemon with key 11.
abbrev pub claims : CapabilityClaims
claims = record {
  issuer = text "dev.site";
  viewer = 3;
  resource = 7;
  audience = 11;
  client_key = 21;
  permission = tcp_connect;
  issued_at = 1000;
  expires_at = 1180;
  nonce = 99;
}

abbrev pub token : SignedCapability
token = record { claims = claims_to claims; signature = sealed 5 (claims_to claims) }

signed : Capability.sign toy_ed25519 claims_codec claims 5 ≡ ok token
unfolding Capability.sign
signed = refl

-- That check refuses: the capability has expired.
expired_token : verify_for toy_ed25519 claims_codec token 5 11 21 1200 ≡ err expired
unfolding verify_for Capability.verify list_eq
expired_token = refl

verify_for-eq-ok_iff_example :
    (verify_for toy_ed25519 claims_codec token 5 11 21 1100 ≡ ok claims)
    ↔ (Attests toy_ed25519 claims_codec 5 token claims × FitsContext 11 21 1100 claims)
verify_for-eq-ok_iff_example =
    verify_for-eq-ok_iff toy_ed25519 claims_codec token 5 11 21 1100 claims

accepted_token : verify_for toy_ed25519 claims_codec token 5 11 21 1100 ≡ ok claims
unfolding verify_for Capability.verify list_eq
accepted_token = refl

abbrev pub request : Request
request = connect (record { capability = token })

-- The payload has 80 bytes.
abbrev pub request_frame : Bytes
request_frame = 80 ∷ 0 ∷ 0 ∷ 0 ∷ request_to request

framed : encode wire_codec request ≡ ok request_frame
unfolding encode le_bytes
framed = refl

decode-read_frame-encode_example :
    (payload : Bytes) × (read_frame (request_frame ++ (1 ∷ 2 ∷ [])) ≡ ok (payload, 1 ∷ 2 ∷ []))
    × (decode wire_codec payload ≡ ok request)
decode-read_frame-encode_example =
    decode-read_frame-encode wire_codec request request_frame (1 ∷ 2 ∷ []) framed

service_grant_request_message-injective_example :
    SameStatement (text "r1") (text "r1") (text "web") (text "web") (4 ∷ []) (4 ∷ []) 50 50
service_grant_request_message-injective_example =
    service_grant_request_message-injective (text "r1") (text "r1") (text "web") (text "web")
      (4 ∷ []) (4 ∷ []) 50 50 (omega arith) (omega arith) (omega arith) (omega arith) (omega arith)
      (omega arith) (omega arith) (omega arith) refl

messages_separated_example :
    (service_grant_request_message (text "r1") (text "web") (4 ∷ []) 50
      ≢ service_grant_issue_message (text "r1") (text "web") (4 ∷ []) 50)
    × (service_grant_request_message (text "r1") (text "web") (4 ∷ []) 50
        ≢ machine_endpoint_proof_message (4 ∷ []))
    × (service_grant_issue_message (text "r1") (text "web") (4 ∷ []) 50
        ≢ machine_endpoint_proof_message (4 ∷ []))
messages_separated_example =
    messages_separated (text "r1") (text "web") (4 ∷ []) (text "r1") (text "web") (4 ∷ []) (4 ∷ [])
      50 50

abbrev id : Bytes
id = 1 ∷ 2 ∷ 3 ∷ 4 ∷ 5 ∷ 6 ∷ 7 ∷ 8 ∷ 1 ∷ 2 ∷ 3 ∷ 4 ∷ 5 ∷ 6 ∷ 7 ∷ 8 ∷ []

from_str-to_string_example :
    from_str toy_base32 ascii_case account_prefix
      (to_string toy_base32 ascii_case account_prefix id)
    ≡ ok id
from_str-to_string_example = from_str-to_string toy_base32 ascii_case account_prefix id refl

abbrev grant : ServiceGrantPlanClaims
grant = record {
  schema_version = 1;
  issuer_credential_id = text "m1";
  request_id = text "r1";
  service = text "web";
  resource_id = text "res_a";
  requester_endpoint_id = text "ab";
  request_expires_at = 900;
  grant_expires_at = 950;
}

abbrev plan : SignedServiceGrantPlan
plan = record {
  claims = plan_prefix ++ grant_to grant;
  signature = sealed 5 (plan_prefix ++ grant_to grant);
}

abbrev plan_token : Text
plan_token = text "dsp_" ++ join plan.claims plan.signature

planned : AccessPlan.sign toy_ed25519 grant_codec grant 5 ≡ ok plan
unfolding AccessPlan.sign
planned = refl

tokened : to_token plan_codec plain plan ≡ ok plan_token
unfolding to_token
tokened = refl

verified_plan : AccessPlan.verify toy_ed25519 grant_codec plan 5 ≡ ok grant
unfolding AccessPlan.verify list_eq strip_prefix
verified_plan = refl
