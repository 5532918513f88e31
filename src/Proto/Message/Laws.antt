-- ===== src/Proto/Message/Laws.antt =====
-- Signed statements are unambiguous: crates/devsite-proto/src/lib.rs.
use devsite.Prelude.{
  ℕ, zero, suc, [], ◌∷◌, ◌<◌, ◌≡◌, ◌≢◌, refl, sym, ap, ◌∙◌, ◌++◌, ◌%◌, arith, Bytes, length,
  append-eq,
}
use mathlib.Core.List.{append_assoc}
use devsite.Prelude.Words.{be_bytes, u64_mod, length-be_bytes, be_bytes-injective}
use devsite.Proto.Message.{
  request_prefix, issue_prefix, push_field, service_grant_request_message,
  service_grant_issue_message, machine_endpoint_proof_message,
}

abbrev pub Fits : Bytes → Type 0
Fits field = length field < u64_mod

field_length-eq :
    (f g : Bytes)
    → Fits f
    → Fits g
    → be_bytes 8 (length f % u64_mod) ≡ be_bytes 8 (length g % u64_mod)
    → length f ≡ length g
field_length-eq f g h k e =
    let same = be_bytes-injective _ _ (omega arith) (omega arith) e in omega arith

-- A length-prefixed field can be read off in only one way.
push_field-eq :
    (f g : Bytes) {r s : Bytes}
    → Fits f
    → Fits g
    → push_field f ++ r ≡ push_field g ++ s
    → (f ≡ g) × (r ≡ s)
unfolding push_field
push_field-eq f g {r} {s} h k e =
    let bf = be_bytes 8 (length f % u64_mod) in
    let bg = be_bytes 8 (length g % u64_mod) in
    let (heads, tails) =
      append-eq bf bg {us = f ++ r} {vs = g ++ s}
        (length-be_bytes 8 (length f % u64_mod) ∙ sym (length-be_bytes 8 (length g % u64_mod)))
        (sym (append_assoc bf f r) ∙ e ∙ append_assoc bg g s) in
    append-eq f g (field_length-eq f g h k heads) tails

-- What follows the domain prefix of both grant statements.
abbrev body : Bytes → Bytes → Bytes → ℕ → Bytes
body id name endpoint expires_at =
    push_field id ++ (push_field name ++ (push_field endpoint ++ be_bytes 8 expires_at))

pub record SameStatement (i j s t x y : Bytes) (m n : ℕ) : Type 0 where
  pub ids : i ≡ j
  pub names : s ≡ t
  pub endpoints : x ≡ y
  pub expiries : m ≡ n

body-eq :
    (i j s t x y : Bytes) (m n : ℕ)
    → Fits i
    → Fits j
    → Fits s
    → Fits t
    → Fits x
    → Fits y
    → m < u64_mod
    → n < u64_mod
    → body i s x m ≡ body j t y n
    → SameStatement i j s t x y m n
body-eq i j s t x y m n fi fj fs ft fx fy fm fn e =
    let (ids, e1) = push_field-eq i j fi fj e in
    let (names, e2) = push_field-eq s t fs ft e1 in
    let (endpoints, e3) = push_field-eq x y fx fy e2 in
    record {
      ids = ids;
      names = names;
      endpoints = endpoints;
      expiries = be_bytes-injective m n fm fn e3;
    }

-- A request statement can be signed for only one request id, service, endpoint and expiry: two
-- such statements with the same bytes agree in all four, if lengths and times are words of 64 bits.
pub service_grant_request_message-injective :
    (i j s t x y : Bytes) (m n : ℕ)
    → Fits i
    → Fits j
    → Fits s
    → Fits t
    → Fits x
    → Fits y
    → m < u64_mod
    → n < u64_mod
    → service_grant_request_message i s x m ≡ service_grant_request_message j t y n
    → SameStatement i j s t x y m n
unfolding service_grant_request_message
service_grant_request_message-injective i j s t x y m n fi fj fs ft fx fy fm fn e =
    body-eq i j s t x y m n fi fj fs ft fx fy fm fn
      (append-eq request_prefix request_prefix refl e).1

-- The broker's issue statement likewise.
pub service_grant_issue_message-injective :
    (i j s t x y : Bytes) (m n : ℕ)
    → Fits i
    → Fits j
    → Fits s
    → Fits t
    → Fits x
    → Fits y
    → m < u64_mod
    → n < u64_mod
    → service_grant_issue_message i s x m ≡ service_grant_issue_message j t y n
    → SameStatement i j s t x y m n
unfolding service_grant_issue_message
service_grant_issue_message-injective i j s t x y m n fi fj fs ft fx fy fm fn e =
    body-eq i j s t x y m n fi fj fs ft fx fy fm fn (append-eq issue_prefix issue_prefix refl e).1

-- The byte at a position, which tells two statements apart.
abbrev nth : ℕ → Bytes → ℕ
nth n [] = 0
nth zero (x ∷ xs) = x
nth (suc n) (x ∷ xs) = nth n xs

-- No signature over one kind of statement serves for another: a request, an issue and a machine
-- proof never have the same bytes.
pub messages_separated :
    (i s x j r y z : Bytes) (m n : ℕ)
    → (service_grant_request_message i s x m ≢ service_grant_issue_message j r y n)
      × (service_grant_request_message i s x m ≢ machine_endpoint_proof_message z)
      × (service_grant_issue_message j r y n ≢ machine_endpoint_proof_message z)
unfolding service_grant_request_message service_grant_issue_message machine_endpoint_proof_message
messages_separated i s x j r y z m n = (
  λ e. absurd (omega (arith, ap (nth 23) e)),
  λ e. absurd (omega (arith, ap (nth 9) e)),
  λ e. absurd (omega (arith, ap (nth 9) e)),
)
