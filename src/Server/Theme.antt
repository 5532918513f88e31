-- ===== src/Server/Theme.antt =====
-- crates/devsite-server/src/theme.rs: a profile's theme, a list of declarations with values of a few
-- kinds. A text is its code points; serde_json's reading and writing of texts is a parameter. What
-- the properties are described as, in listings and error messages, is left out.
pub mod Names
pub mod Values
pub mod Laws
use devsite.Prelude.{
  ℕ, ◌+◌, Bool, true, false, not, ◌&&◌, ◌||◌, Option, some, none, List, [], ◌∷◌, ◌++◌, map, Result,
  ok, err, ◌>>=◌, ◌>>◌, ensure, ok_or, ◌==◌, ltb, Text, text, find, any, list_eq, contains,
  if◌then◌else◌,
}
use devsite.Prelude.Texts.{split_once}
use devsite.Proto.Id.{ascii_lower}
use devsite.Server.Auth.{utf8_len, starts_with}
use devsite.Server.Env.{trim}
use Names.{Kind, properties}
use Values.{Json, canonicalize, is_blank}

abbrev pub max_input : ℕ
max_input = 4096

pub record Declaration : Type 0 where
  pub property : Text
  pub value : Text

pub data ThemeError : Type 0 where
  too_long unclosed bad_character important missing_colon no_value unknown_property bad_value :
      ThemeError

-- Where a scan of the source stands; a comment remembers its last character.
pub data Scan : Type 0 where
  plain quoted escaped opening : Scan
  comment : ℕ → Scan

-- Inside a quoted text.
unfoldable pub in_quotes : ℕ → Scan
in_quotes c = if c == b'\\' then escaped else if c == b'"' then plain else quoted

-- One character of `strip_comments`: what is put out, and where the scan stands then.
unfoldable pub strip_step : Scan → ℕ → Text → Text × Scan
unfolding in_quotes
strip_step quoted c rest = (c ∷ [], in_quotes c)
strip_step escaped c rest = (c ∷ [], quoted)
strip_step opening c rest = ([], comment 0)
strip_step (comment previous) c rest =
    if previous == b'*' && c == b'/' then (text " ", plain) else ([], comment c)
strip_step plain c rest =
    if c == b'"'
    then (c ∷ [], quoted)
    else if c == b'/' && starts_with b'*' rest
    then ([], opening)
    else (c ∷ [], plain)

abbrev pub prepend : Text → Option Text → Option Text
prepend out none = none
prepend out (some rest) = some (out ++ rest)

-- `none` is a comment or a quoted text that is not closed.
unfoldable pub strip_from : Scan → Text → Option Text
unfolding strip_step
strip_from plain [] = some []
strip_from quoted [] = none
strip_from escaped [] = none
strip_from opening [] = none
strip_from (comment previous) [] = none
strip_from scan (c ∷ cs) =
    let (out, next) = strip_step scan c cs in prepend out (strip_from next cs)

unfoldable pub strip_comments : Text → Option Text
unfolding strip_from
strip_comments input = strip_from plain input

-- Where a scan that knows no comments stands after a character.
unfoldable pub quote_step : Scan → ℕ → Scan
unfolding in_quotes
quote_step quoted c = in_quotes c
quote_step escaped c = quoted
quote_step _ c = if c == b'"' then quoted else plain

abbrev pub is_plain : Scan → Bool
is_plain quoted = false
is_plain escaped = false
is_plain _ = true

abbrev onto_chunk : ℕ → List Text → List Text
onto_chunk c [] = (c ∷ []) ∷ []
onto_chunk c (chunk ∷ chunks) = (c ∷ chunk) ∷ chunks

unfoldable pub split_from : Scan → Text → List Text
unfolding quote_step
split_from scan [] = [] ∷ []
split_from scan (c ∷ cs) =
    let rest = split_from (quote_step scan c) cs in
    if is_plain scan && c == b';' then [] ∷ rest else onto_chunk c rest

unfoldable pub split_declarations : Text → List Text
unfolding split_from
split_declarations input = split_from plain input

unfoldable pub outside_from : (ℕ → Bool) → Scan → Text → Bool
unfolding quote_step
outside_from p scan [] = false
outside_from p scan (c ∷ cs) =
    let rest = outside_from p (quote_step scan c) cs in
    (is_plain scan && not (c == b'"') && p c) || rest

-- `find_outside_quotes(…).is_some()`.
unfoldable pub find_outside_quotes : Text → (ℕ → Bool) → Bool
unfolding outside_from
find_outside_quotes input p = outside_from p plain input

abbrev pub is_structural : ℕ → Bool
is_structural c = contains (text "{}@<>'\\") c

abbrev pub is_bang : ℕ → Bool
is_bang c = c == b'!'

-- `PROPERTIES.iter().find(…)`.
unfoldable pub kind_of : Text → List (Text × Kind) → Option Kind
unfolding list_eq
kind_of name [] = none
kind_of name ((known, kind) ∷ more) =
    let rest = kind_of name more in if list_eq known name then some kind else rest

-- The last value of a property wins, at the place of the first.
unfoldable pub put_declaration : Text → Text → List Declaration → List Declaration
unfolding list_eq
put_declaration property value [] = record { property = property; value = value } ∷ []
put_declaration property value (d ∷ ds) =
    let rest = put_declaration property value ds in
    if list_eq d.property property then (record d { value = value }) ∷ ds else d ∷ rest

module _ (is_whitespace : ℕ → Bool) (is_control : ℕ → Bool) (json : Json) where
  -- A chunk that is not blank.
  unfoldable pub parse_declaration : Text → List Declaration → Result ThemeError (List Declaration)
  unfolding find_outside_quotes kind_of put_declaration split_once trim contains
  parse_declaration chunk declarations = do
    ensure (not (find_outside_quotes chunk is_structural)) bad_character
    ensure (not (find_outside_quotes chunk is_bang)) important
    parts ← ok_or (split_once b':' chunk) missing_colon
    ensure (not (is_blank (trim is_whitespace (parts.1)))) no_value
    kind ←
        ok_or (kind_of (map ascii_lower (trim is_whitespace (parts.0))) properties) unknown_property
    value ←
        ok_or (canonicalize is_whitespace is_control json kind (trim is_whitespace (parts.1)))
          bad_value
    ok (put_declaration (map ascii_lower (trim is_whitespace (parts.0))) value declarations)

  unfoldable pub parse_chunk : Text → List Declaration → Result ThemeError (List Declaration)
  unfolding parse_declaration trim
  parse_chunk chunk declarations =
      if is_blank (trim is_whitespace chunk)
      then ok declarations
      else parse_declaration (trim is_whitespace chunk) declarations

  unfoldable pub parse_chunks : List Text → List Declaration → Result ThemeError (List Declaration)
  unfolding parse_chunk
  parse_chunks [] declarations = ok declarations
  parse_chunks (chunk ∷ chunks) declarations = do
    more ← parse_chunk chunk declarations
    parse_chunks chunks more

  unfoldable pub parse : Text → Result ThemeError (List Declaration)
  unfolding strip_comments split_declarations parse_chunks
  parse input = do
    ensure (not (ltb max_input (utf8_len input))) too_long
    source ← ok_or (strip_comments input) unclosed
    parse_chunks (split_declarations source) []

unfoldable pub to_css : List Declaration → Text
to_css [] = []
to_css (d ∷ ds) = d.property ++ (text ": " ++ (d.value ++ (text ";\n" ++ to_css ds)))
