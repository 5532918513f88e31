-- ===== src/Samples/World.antt =====
-- A small control plane, in which the handlers of crates/devsite-server can be run: the parameters,
-- an owner and a viewer, and a service that one shares with the other.
use devsite.Prelude.{
  ℕ, zero, suc, ◌≡◌, refl, ap, true, false, Option, some, none, [], ◌∷◌, ◌++◌, length, All, arith,
  Text, text, Bytes, take, drop, ◌==◌, ltb, take-length_append, drop-length_append,
}
use devsite.Proto.Crypto.{Postcard}
use devsite.Proto.Capability.{SignedCapability}
use devsite.Server.Auth.{is_ascii_alphanumeric}
use devsite.Server.Env.{Env, Hex, Unicode}
use devsite.Server.Issuer.{Issuer}
use devsite.Server.Relay.{RelayAccess}
use devsite.Server.Policy.{shared}
use devsite.Server.Db.Rows.{Db, AccountRow, Resource, service, empty_db}
use devsite.Server.Api.{AppState, Clock, Headers}
use devsite.Samples.{
  toy_ed25519, plain, claims_codec, plan_codec, grant_codec, toy_base32, ascii_case, join, decoded,
  sum,
}

-- A key is as many letters a.
abbrev pub letters_of : ℕ → Text
letters_of zero = []
letters_of (suc k) = b'a' ∷ letters_of k

pub length-letters_of : (k : ℕ) → length (letters_of k) ≡ k
length-letters_of zero = refl
length-letters_of (suc k) = ap suc (length-letters_of k)

pub letters_alphanumeric : (k : ℕ) → All (λ c. is_ascii_alphanumeric c ≡ true) (letters_of k)
letters_alphanumeric zero = tt
letters_alphanumeric (suc k) = (refl, letters_alphanumeric k)

abbrev pub toy_hex : Hex
toy_hex = record {
  encode = λ k. letters_of k;
  decode = λ t. some (length t);
  decode-encode = λ k. ap some (length-letters_of k);
  encode_alphanumeric = λ k. letters_alphanumeric k;
}

pub alphanumeric_is_no_space : (c : ℕ) → is_ascii_alphanumeric c ≡ true → (c == b' ') ≡ false
alphanumeric_is_no_space c e = ground arith

abbrev pub toy_unicode : Unicode
toy_unicode = record {
  is_whitespace = λ c. c == b' ';
  is_control = λ c. ltb c 32;
  alphanumeric_is_no_whitespace = λ c e. alphanumeric_is_no_space c e;
}

abbrev signed_from : Bytes → Option SignedCapability
signed_from [] = none
signed_from (n ∷ rest) = some (record { claims = take n rest; signature = drop n rest })

pub signed_from-join : (p : SignedCapability) → signed_from (join p.claims p.signature) ≡ some p
signed_from-join p = rw (take-length_append, drop-length_append) refl

abbrev pub signed_codec : Postcard SignedCapability
signed_codec = record {
  to_allocvec = λ p. some (join p.claims p.signature);
  from_bytes = λ bs. signed_from bs;
  from_bytes-to_allocvec = decoded (λ p. join p.claims p.signature) signed_from signed_from-join;
}

abbrev pub env : Env
env = record {
  ed = toy_ed25519;
  is_key = λ k. true;
  claims_codec = claims_codec;
  capability_codec = signed_codec;
  grant_codec = grant_codec;
  plan_codec = plan_codec;
  base64url = plain;
  base32 = toy_base32;
  case = ascii_case;
  hex = toy_hex;
  unicode = toy_unicode;
  hash_token = λ t. sum t;
  url_parse = λ t. some (record {
    scheme = text "https";
    host_str = some t;
    username = [];
    password = none;
    serialized = t;
  });
}

abbrev pub issuer : Issuer
issuer = record { issuer_name = text "dev"; key = 11 }

abbrev pub forty_three : Text
forty_three = text "0123456789012345678901234567890123456789012"

abbrev pub session_token : Text
session_token = text "dss_" ++ forty_three

abbrev pub account : ℕ → Text → AccountRow
account id handle = record { id = id; external_sub = handle; handle = some handle; created_at = 1 }

abbrev pub web : Resource
web = record {
  id = 7;
  owner_id = 3;
  name = text "web";
  kind = service;
  visibility = shared;
  url = none;
  folder = none;
  created_at = 1;
}

-- Account 3 owns service 7 and runs its daemon with key 3; account 4 has accepted the service, is
-- signed in with the cookie `b`, has a machine with the token `m`, and has a tunnel open from key 2.
abbrev pub db : Db
db = record empty_db {
  accounts = account 3 (text "alice") ∷ account 4 (text "bob") ∷ [];
  resources = web ∷ [];
  shares = record { resource_id = 7; viewer_id = 4 } ∷ [];
  sessions = record { token_hash = sum (text "b"); account_id = 4; expires_at = 900 } ∷ [];
  daemons = record { account_id = 3; endpoint_id = letters_of 3 } ∷ [];
  machine_credentials =
      record {
        id = text "m1";
        account_id = 4;
        name = text "laptop";
        token_hash = sum (text "m");
        created_at = 1;
        last_used_at = some 95;
        endpoint_id = some (letters_of 2);
        enrolled_at = some 2;
        scopes = text "service_grants:issue" ∷ [];
      }
      ∷ [];
  tunnel_sessions =
      record {
        token_hash = sum session_token;
        viewer_id = 4;
        resource_id = 7;
        client_endpoint_id = letters_of 2;
        expires_at = 900;
        issuer_credential_id = none;
        grant_request_id = none;
      }
      ∷ [];
}

abbrev pub state : AppState
state = record { db = db; rate_limits = []; profile_revision = 0; profile_changes = [] }

abbrev pub clock : Clock
clock = record { identified_at = 100; rated_at = 100; now = 100 }

abbrev pub bearer : Text → Headers
bearer token = record { authorization = some (text "Bearer " ++ token); cookie = none }

abbrev pub browser : Headers
browser = record { authorization = none; cookie = some (text "devsite_session=b") }

abbrev pub relay : RelayAccess
relay = record { relay_token = none; relay_urls = [] }
