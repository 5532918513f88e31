-- ===== src/Proto/Id/Laws.antt =====
-- Identifiers as text: crates/devsite-proto/src/id.rs.
use devsite.Prelude.{
  ℕ, ◌≤◌, ◌≡◌, refl, ap, ◌∙◌, sym, [], ◌∷◌, ◌++◌, map, ok, err, arith, All, length, Bytes, Text,
  text, strip_prefix, strip_prefix-append,
}
use mathlib.Core.List.{append_assoc}
use devsite.Proto.Id.{
  Base32, CaseMap, InAlphabet, ascii_lower, ascii_upper, to_string, from_str, bad_prefix,
  account_prefix, resource_prefix,
}

InAlphabet-ascii : (t : Text) → All InAlphabet t → All (λ c. c ≤ 127) t
InAlphabet-ascii [] h = tt
InAlphabet-ascii (c ∷ t) h = (omega arith, InAlphabet-ascii t h.1)

lower-ascii : (t : Text) → All InAlphabet t → All (λ c. c ≤ 127) (map ascii_lower t)
lower-ascii [] h = tt
lower-ascii (c ∷ t) h = (ground arith, lower-ascii t h.1)

upper-lower_char : (c : ℕ) → InAlphabet c → ascii_upper (ascii_lower c) ≡ c
upper-lower_char c h = ground arith

upper-lower : (t : Text) → All InAlphabet t → map ascii_upper (map ascii_lower t) ≡ t
upper-lower [] h = refl
upper-lower (c ∷ t) h = rw (upper-lower_char c h.0, upper-lower t h.1)

module _ (base32 : Base32) (case : CaseMap) where
  uppercase-lowercase :
      (bs : Bytes) → case.to_uppercase (case.to_lowercase (base32.encode bs)) ≡ base32.encode bs
  uppercase-lowercase bs =
      let letters = base32.encode-InAlphabet bs in
      ap case.to_uppercase (case.to_lowercase_ascii _ (InAlphabet-ascii _ letters))
      ∙ case.to_uppercase_ascii _ (lower-ascii _ letters)
      ∙ upper-lower _ letters

  -- The text of an identifier of 16 bytes parses back to it, for either kind of identifier.
  pub from_str-to_string :
      (prefix : Text) (id : Bytes)
      → length id ≡ 16
      → from_str base32 case prefix (to_string base32 case prefix id) ≡ ok id
  unfolding from_str to_string
  from_str-to_string prefix id sized =
      rw (sym (append_assoc prefix (text "_") (case.to_lowercase (base32.encode id)))) (
        rw (strip_prefix-append (prefix ++ text "_") (case.to_lowercase (base32.encode id)))
          (rw (uppercase-lowercase id) (rw (base32.decode-encode id) (ground arith))))

  -- The text of an account identifier is refused as a resource identifier for its prefix, and the
  -- other way round: one namespace never stands for the other.
  pub namespaces_separated :
      (id : Bytes)
      → (from_str base32 case resource_prefix (to_string base32 case account_prefix id)
          ≡ err (bad_prefix resource_prefix))
        × (from_str base32 case account_prefix (to_string base32 case resource_prefix id)
            ≡ err (bad_prefix account_prefix))
  unfolding from_str to_string strip_prefix
  namespaces_separated id = (refl, refl)
