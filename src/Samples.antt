-- ===== src/Samples.antt =====
-- Concrete instances of the parameters, small enough to evaluate, which show that the laws asked of
-- them can hold: a toy signature scheme, and toy codecs for the messages of crates/devsite-proto.
pub mod World
use devsite.Prelude.{
  ℕ, zero, suc, ◌+◌, ◌≡◌, refl, ap, ◌∙◌, sym, Option, some, none, [], ◌∷◌, ◌++◌, map, length, take,
  drop, Bytes, Text, list_eq, list_eq_refl, arith, take-length_append, drop-length_append, All,
  ◌==◌, if◌then◌else◌, inl,
}
use devsite.Proto.Crypto.{Ed25519, Postcard, Encoding}
use devsite.Proto.Capability.{CapabilityClaims, Permission, tcp_connect}
use devsite.Proto.Wire.{
  Request, connect, Response, connected, error, denied, bad_request, upstream_unavailable,
}
use devsite.Proto.AccessPlan.{ServiceGrantPlanClaims, SignedServiceGrantPlan}
use devsite.Proto.Id.{Base32, CaseMap, InAlphabet, ascii_lower, ascii_upper}

abbrev repeat : ℕ → ℕ → Bytes
repeat zero x = []
repeat (suc n) x = x ∷ repeat n x

abbrev pub sum : Bytes → ℕ
sum [] = 0
sum (b ∷ bs) = b + sum bs

abbrev pub sealed : ℕ → Bytes → Bytes
sealed key m = repeat 64 (key + sum m)

-- A key is its own public key, and a signature repeats the sum of the key and the message.
abbrev pub toy_ed25519 : Ed25519
toy_ed25519 = record {
  verifying_key = λ k. k;
  sign = λ k m. sealed k m;
  verify = λ k m s. list_eq s (sealed k m);
  length-sign = λ k m. refl;
  verify-sign = λ k m. list_eq_refl (sealed k m);
}

abbrev pub plain : Encoding
plain = record { encode = λ bs. bs; decode = λ t. some t; decode-encode = λ bs. refl }

-- The law of a codec, from its two functions.
pub decoded :
    {T : Type 0} (to : T → Bytes) (from : Bytes → Option T)
    → ((t : T) → from (to t) ≡ some t)
    → (t : T) (bs : Bytes) → some (to t) ≡ some bs
    → from bs ≡ some t
decoded to from h t bs e = let same : to t ≡ bs = ground arith in rw (sym same) (h t)

abbrev pub claims_to : CapabilityClaims → Bytes
claims_to c =
    c.viewer ∷ c.resource ∷ c.audience ∷ c.client_key ∷ c.issued_at ∷ c.expires_at ∷ c.nonce
    ∷ c.issuer

abbrev claims_from : Bytes → Option CapabilityClaims
claims_from (v ∷ r ∷ a ∷ k ∷ i ∷ e ∷ n ∷ issuer) = some (record {
  issuer = issuer;
  viewer = v;
  resource = r;
  audience = a;
  client_key = k;
  permission = tcp_connect;
  issued_at = i;
  expires_at = e;
  nonce = n;
})
claims_from _ = none

tcp_connect-eq : (p : Permission) → tcp_connect ≡ p
tcp_connect-eq tcp_connect = refl

pub claims_from-claims_to : (c : CapabilityClaims) → claims_from (claims_to c) ≡ some c
claims_from-claims_to c = ap (λ p. some (record c { permission = p })) (tcp_connect-eq c.permission)

abbrev pub claims_codec : Postcard CapabilityClaims
claims_codec = record {
  to_allocvec = λ c. some (claims_to c);
  from_bytes = λ bs. claims_from bs;
  from_bytes-to_allocvec = decoded claims_to claims_from claims_from-claims_to;
}

-- Two byte strings in one.
abbrev pub join : Bytes → Bytes → Bytes
join a b = length a ∷ (a ++ b)

abbrev pub request_to : Request → Bytes
request_to (connect r) = join r.capability.claims r.capability.signature

abbrev request_from : Bytes → Option Request
request_from [] = none
request_from (n ∷ rest) =
    some
      (connect (record { capability = record { claims = take n rest; signature = drop n rest } }))

pub request_from-request_to : (r : Request) → request_from (request_to r) ≡ some r
request_from-request_to (connect r) = rw (take-length_append, drop-length_append) refl

abbrev pub wire_codec : Postcard Request
wire_codec = record {
  to_allocvec = λ r. some (request_to r);
  from_bytes = λ bs. request_from bs;
  from_bytes-to_allocvec = decoded request_to request_from request_from-request_to;
}

abbrev plan_from : Bytes → Option SignedServiceGrantPlan
plan_from [] = none
plan_from (n ∷ rest) = some (record { claims = take n rest; signature = drop n rest })

pub plan_from-join : (p : SignedServiceGrantPlan) → plan_from (join p.claims p.signature) ≡ some p
plan_from-join p = rw (take-length_append, drop-length_append) refl

abbrev pub plan_codec : Postcard SignedServiceGrantPlan
plan_codec = record {
  to_allocvec = λ p. some (join p.claims p.signature);
  from_bytes = λ bs. plan_from bs;
  from_bytes-to_allocvec = decoded (λ p. join p.claims p.signature) plan_from plan_from-join;
}

abbrev pub grant_to : ServiceGrantPlanClaims → Bytes
grant_to c =
    c.schema_version
    ∷ c.request_expires_at
    ∷ c.grant_expires_at
    ∷ join c.issuer_credential_id
        (join c.request_id (join c.service (join c.resource_id c.requester_endpoint_id)))

-- The two byte strings again.
abbrev split : Bytes → Bytes × Bytes
split [] = ([], [])
split (n ∷ rest) = (take n rest, drop n rest)

split-join : (a b : Bytes) → split (join a b) ≡ (a, b)
split-join a b = rw (take-length_append, drop-length_append) refl

abbrev grant_from : Bytes → Option ServiceGrantPlanClaims
grant_from (v ∷ r ∷ g ∷ rest) =
    let a = split rest in
    let b = split a.1 in
    let c = split b.1 in
    let d = split c.1 in
    some (record {
      schema_version = v;
      issuer_credential_id = a.0;
      request_id = b.0;
      service = c.0;
      resource_id = d.0;
      requester_endpoint_id = d.1;
      request_expires_at = r;
      grant_expires_at = g;
    })
grant_from _ = none

pub grant_from-grant_to : (c : ServiceGrantPlanClaims) → grant_from (grant_to c) ≡ some c
grant_from-grant_to c = simp (take-length_append, drop-length_append)

abbrev pub grant_codec : Postcard ServiceGrantPlanClaims
grant_codec = record {
  to_allocvec = λ c. some (grant_to c);
  from_bytes = λ bs. grant_from bs;
  from_bytes-to_allocvec = decoded grant_to grant_from grant_from-grant_to;
}

-- A byte is as many letters A, and then a B.
abbrev letters : Bytes → Text
letters [] = []
letters (b ∷ bs) = repeat b b'A' ++ (b'B' ∷ letters bs)

abbrev unletters : ℕ → Text → Bytes
unletters n [] = []
unletters n (c ∷ cs) = if c == b'A' then unletters (suc n) cs else n ∷ unletters 0 cs

unletters-repeat :
    (b n : ℕ) (t : Text) → unletters n (repeat b b'A' ++ (b'B' ∷ t)) ≡ (n + b) ∷ unletters 0 t
unletters-repeat zero n t = ap (λ k. k ∷ unletters 0 t) (omega arith)
unletters-repeat (suc b) n t =
    unletters-repeat b (suc n) t ∙ ap (λ k. k ∷ unletters 0 t) (omega arith)

pub unletters-letters : (bs : Bytes) → unletters 0 (letters bs) ≡ bs
unletters-letters [] = refl
unletters-letters (b ∷ bs) =
    let first : 0 + b ≡ b = omega arith in
    unletters-repeat b 0 (letters bs) ∙ rw (first, unletters-letters bs)

repeat-InAlphabet :
    (b : ℕ) (t : Text) → All InAlphabet t → All InAlphabet (repeat b b'A' ++ (b'B' ∷ t))
repeat-InAlphabet zero t h = (inl (omega arith, omega arith), h)
repeat-InAlphabet (suc b) t h = (inl (omega arith, omega arith), repeat-InAlphabet b t h)

pub letters-InAlphabet : (bs : Bytes) → All InAlphabet (letters bs)
letters-InAlphabet [] = tt
letters-InAlphabet (b ∷ bs) = repeat-InAlphabet b (letters bs) (letters-InAlphabet bs)

abbrev pub toy_base32 : Base32
toy_base32 = record {
  encoding = record {
    encode = λ bs. letters bs;
    decode = λ t. some (unletters 0 t);
    decode-encode = λ bs. ap (λ x. some x) (unletters-letters bs);
  };
  encode-InAlphabet = λ bs. letters-InAlphabet bs;
}

abbrev pub ascii_case : CaseMap
ascii_case = record {
  to_lowercase = λ t. map ascii_lower t;
  to_uppercase = λ t. map ascii_upper t;
  to_lowercase_ascii = λ t h. refl;
  to_uppercase_ascii = λ t h. refl;
}

abbrev pub response_to : Response → Bytes
response_to connected = 0 ∷ []
response_to (error denied m) = 1 ∷ m
response_to (error bad_request m) = 2 ∷ m
response_to (error upstream_unavailable m) = 3 ∷ m

abbrev code_from : ℕ → Bytes → Response
code_from c m =
    if c == 0
    then connected
    else if c == 1
    then error denied m
    else if c == 2
    then error bad_request m
    else error upstream_unavailable m

abbrev response_from : Bytes → Option Response
response_from [] = none
response_from (c ∷ m) = some (code_from c m)

pub response_from-response_to : (r : Response) → response_from (response_to r) ≡ some r
response_from-response_to connected = refl
response_from-response_to (error denied m) = refl
response_from-response_to (error bad_request m) = refl
response_from-response_to (error upstream_unavailable m) = refl

abbrev pub response_codec : Postcard Response
response_codec = record {
  to_allocvec = λ r. some (response_to r);
  from_bytes = λ bs. response_from bs;
  from_bytes-to_allocvec = decoded response_to response_from response_from-response_to;
}
