-- ===== src/Server/Env.antt =====
-- What crates/devsite-server takes from other crates: signatures, encodings, hashes, the classes of
-- Unicode characters and the parser of URLs. Each is a parameter, with the laws that the proofs use.
use devsite.Prelude.{ℕ, ◌≡◌, Bool, true, false, Option, some, none, All, Text, ok, err}
use devsite.Prelude.Words.{be_bytes, from_be}
use devsite.Proto.Crypto.{KeyBytes, Ed25519, Postcard, Encoding}
use devsite.Proto.Capability.{CapabilityClaims, SignedCapability, ResourceId}
use devsite.Proto.AccessPlan.{ServiceGrantPlanClaims, SignedServiceGrantPlan}
use devsite.Proto.Id.{Base32, CaseMap, to_string, from_str, resource_prefix}
use devsite.Server.Auth.{is_ascii_alphanumeric, trim_start_matches, trim_end_matches}

-- `char::is_whitespace` and `char::is_control`.
pub record Unicode : Type 0 where
  pub is_whitespace : ℕ → Bool
  pub is_control : ℕ → Bool
  pub alphanumeric_is_no_whitespace :
      (c : ℕ) → is_ascii_alphanumeric c ≡ true → is_whitespace c ≡ false

-- `HEXLOWER.encode`, and `HEXLOWER_PERMISSIVE.decode` to 32 bytes.
pub record Hex : Type 0 where
  pub encode : KeyBytes → Text
  pub decode : Text → Option KeyBytes
  pub decode-encode : (key : KeyBytes) → decode (encode key) ≡ some key
  pub encode_alphanumeric :
      (key : KeyBytes) → All (λ c. is_ascii_alphanumeric c ≡ true) (encode key)

-- `url::Url`.
pub record Url : Type 0 where
  pub scheme : Text
  pub host_str : Option Text
  pub username : Text
  pub password : Option Text
  pub serialized : Text

-- `is_key` is `VerifyingKey::from_bytes`.
pub record Env : Type 0 where
  pub ed : Ed25519
  pub is_key : KeyBytes → Bool
  pub claims_codec : Postcard CapabilityClaims
  pub capability_codec : Postcard SignedCapability
  pub grant_codec : Postcard ServiceGrantPlanClaims
  pub plan_codec : Postcard SignedServiceGrantPlan
  pub base64url : Encoding
  pub base32 : Base32
  pub case : CaseMap
  pub hex : Hex
  pub unicode : Unicode
  pub hash_token : Text → ℕ
  pub url_parse : Text → Option Url

-- `str::trim`.
unfoldable pub trim : (ℕ → Bool) → Text → Text
unfolding trim_start_matches trim_end_matches
trim is_whitespace t = trim_end_matches is_whitespace (trim_start_matches is_whitespace t)

-- An identifier is the number that its 16 bytes spell.
module _ (env : Env) where
  unfoldable pub resource_id_text : ResourceId → Text
  resource_id_text id = to_string env.base32 env.case resource_prefix (be_bytes 16 id)

  unfoldable pub parse_resource_id : Text → Option ResourceId
  parse_resource_id t = elim (from_str env.base32 env.case resource_prefix t) [
    | ok raw ↦ some (from_be 0 raw)
    | err _ ↦ none
  ]

  -- `parse_endpoint_id`.
  unfoldable pub parse_endpoint_id : Text → Option KeyBytes
  parse_endpoint_id t = env.hex.decode (trim env.unicode.is_whitespace t)
