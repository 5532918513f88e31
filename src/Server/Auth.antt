-- ===== src/Server/Auth.antt =====
-- crates/devsite-server/src/auth.rs: handles. A text is its code points here; `is_whitespace` is that
-- of Unicode, a parameter.
pub mod Laws
use devsite.Prelude.{
  ℕ, ◌+◌, Bool, true, false, not, ◌&&◌, ◌||◌, List, [], ◌∷◌, map, Text, text, Result, ok, err,
  ◌>>=◌, ◌>>◌, ensure, ltb, leb, ◌==◌, all, any, list_eq, if◌then◌else◌,
}
use devsite.Proto.Id.{ascii_lower}

-- The bytes of a character in UTF-8, which `len` counts.
abbrev pub utf8_width : ℕ → ℕ
utf8_width c = if ltb c 128 then 1 else if ltb c 2048 then 2 else if ltb c 65536 then 3 else 4

abbrev pub utf8_len : Text → ℕ
utf8_len [] = 0
utf8_len (c ∷ cs) = utf8_width c + utf8_len cs

unfoldable pub trim_start_matches : (ℕ → Bool) → Text → Text
trim_start_matches p [] = []
trim_start_matches p (c ∷ cs) = let rest = trim_start_matches p cs in if p c then rest else c ∷ cs

abbrev keep_end : (ℕ → Bool) → ℕ → Text → Text
keep_end p c [] = if p c then [] else c ∷ []
keep_end p c (d ∷ ds) = c ∷ d ∷ ds

unfoldable pub trim_end_matches : (ℕ → Bool) → Text → Text
trim_end_matches p [] = []
trim_end_matches p (c ∷ cs) = keep_end p c (trim_end_matches p cs)

abbrev pub is_ascii_alphanumeric : ℕ → Bool
is_ascii_alphanumeric c =
    (leb b'0' c && leb c b'9') || (leb b'A' c && leb c b'Z') || (leb b'a' c && leb c b'z')

abbrev pub is_allowed : ℕ → Bool
is_allowed c = is_ascii_alphanumeric c || c == b'-' || c == b'_'

abbrev pub starts_with : ℕ → Text → Bool
starts_with c [] = false
starts_with c (d ∷ ds) = d == c

abbrev pub reserved : List Text
reserved = text "admin" ∷ text "devsite" ∷ text "security" ∷ text "support" ∷ []

unfoldable pub is_reserved : Text → Bool
unfolding list_eq
is_reserved handle = any (λ r. list_eq r handle) reserved

pub data HandleError : Type 0 where
  bad_length bad_character bad_start is_taken : HandleError

-- The checks on a trimmed handle.
unfoldable pub check_handle : Text → Result HandleError Text
unfolding is_reserved
check_handle handle = do
  ensure (not (ltb (utf8_len handle) 2 || ltb 32 (utf8_len handle))) bad_length
  ensure (all is_allowed handle) bad_character
  ensure (not (starts_with b'-' handle || starts_with b'_' handle)) bad_start
  ensure (not (is_reserved (map ascii_lower handle))) is_taken
  ok (map ascii_lower handle)

-- `handle.trim().trim_start_matches('@')`.
abbrev pub trimmed : (ℕ → Bool) → Text → Text
trimmed is_whitespace handle =
    trim_start_matches (λ c. c == b'@')
      (trim_end_matches is_whitespace (trim_start_matches is_whitespace handle))

unfoldable pub validate_handle : (ℕ → Bool) → Text → Result HandleError Text
unfolding check_handle
validate_handle is_whitespace handle = check_handle (trimmed is_whitespace handle)
