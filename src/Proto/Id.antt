-- ===== src/Proto/Id.antt =====
-- crates/devsite-proto/src/id.rs: the text form of an opaque identifier of 16 bytes. `AccountId`
-- and `ResourceId` are one macro at two prefixes. Base32 and the case mapping of Unicode strings
-- are parameters.
pub mod Laws
use devsite.Prelude.{
  ℕ, ◌+◌, ◌-◌, ◌≤◌, ◌≡◌, ◌⊎◌, List, [], ◌∷◌, ◌++◌, map, Result, ok, err, Option, ◌>>=◌, ◌>>◌,
  ensure, ok_or, leb, ◌==◌, ◌&&◌, length, All, Bytes, Text, text, strip_prefix, if◌then◌else◌,
}
use devsite.Proto.Crypto.{Encoding}

pub data IdParseError : Type 0 where
  bad_prefix : Text → IdParseError
  bad_encoding bad_length : IdParseError

abbrev pub account_prefix : Text
account_prefix = text "acct"

abbrev pub resource_prefix : Text
resource_prefix = text "res"

-- What `to_lowercase` and `to_uppercase` do to one ASCII character.
abbrev pub ascii_lower : ℕ → ℕ
ascii_lower c = if leb b'A' c && leb c b'Z' then c + 32 else c

abbrev pub ascii_upper : ℕ → ℕ
ascii_upper c = if leb b'a' c && leb c b'z' then c - 32 else c

-- `str::to_lowercase` and `str::to_uppercase`, of which ASCII texts alone matter here.
pub record CaseMap : Type 0 where
  pub to_lowercase : Text → Text
  pub to_uppercase : Text → Text
  pub to_lowercase_ascii : (t : Text) → All (λ c. c ≤ 127) t → to_lowercase t ≡ map ascii_lower t
  pub to_uppercase_ascii : (t : Text) → All (λ c. c ≤ 127) t → to_uppercase t ≡ map ascii_upper t

-- The alphabet of base32: capital letters and the digits 2 to 7.
abbrev pub InAlphabet : ℕ → Type 0
InAlphabet c = ((b'A' ≤ c) × (c ≤ b'Z')) ⊎ ((b'2' ≤ c) × (c ≤ b'7'))

-- `BASE32_NOPAD`.
pub record Base32 : Type 0 where
  pub encoding : Encoding
  pub open encoding use *
  pub encode-InAlphabet : (bs : Bytes) → All InAlphabet (encoding.encode bs)

module _ (base32 : Base32) (case : CaseMap) (prefix : Text) where
  -- `Display`, for a value of 16 bytes.
  unfoldable pub to_string : Bytes → Text
  to_string id = prefix ++ (text "_" ++ case.to_lowercase (base32.encode id))

  unfoldable pub from_str : Text → Result IdParseError Bytes
  from_str s = do
    body ← ok_or (strip_prefix (prefix ++ text "_") s) (bad_prefix prefix)
    raw ← ok_or (base32.decode (case.to_uppercase body)) bad_encoding
    ensure (length raw == 16) bad_length
    ok raw
