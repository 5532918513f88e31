-- ===== src/Server/Theme/Values.antt =====
-- crates/devsite-server/src/theme.rs: the grammars of the values, and their canonical forms.
use devsite.Prelude.{
  ℕ, ◌+◌, ◌-◌, Bool, true, false, not, ◌&&◌, ◌||◌, Option, some, none, List, [], ◌∷◌, ◌++◌, map,
  ◌==◌, ltb, leb, Text, text, length, take, drop, filter, all, any, list_eq, strip_prefix,
  if◌then◌else◌,
}
use devsite.Prelude.Texts.{split_once}
use devsite.Proto.Id.{ascii_lower}
use devsite.Server.Auth.{utf8_len}
use devsite.Server.Env.{trim}
use devsite.Server.Theme.Names.{
  Kind, color, length_value, number, folder_names, keyword, named_colors,
}

abbrev pub max_value : ℕ
max_value = 128

abbrev pub max_folder_name : ℕ
max_folder_name = 40

abbrev pub max_layout_folders : ℕ
max_layout_folders = 64

abbrev pub max_layout_value : ℕ
max_layout_value = 3072

-- `serde_json::from_str` of a list of texts, and `to_string` of a text.
pub record Json : Type 0 where
  pub from_str : Text → Option (List Text)
  pub to_string : Text → Text

abbrev pub is_blank : Text → Bool
is_blank t = length t == 0

abbrev pub is_digit : ℕ → Bool
is_digit c = leb b'0' c && leb c b'9'

abbrev pub is_hexdigit : ℕ → Bool
is_hexdigit c = is_digit c || (leb b'a' c && leb c b'f') || (leb b'A' c && leb c b'F')

abbrev onto_part : ℕ → List Text → List Text
onto_part c [] = (c ∷ []) ∷ []
onto_part c (part ∷ parts) = (c ∷ part) ∷ parts

-- The parts between the characters that pass a test.
unfoldable pub split_where : (ℕ → Bool) → Text → List Text
split_where p [] = [] ∷ []
split_where p (c ∷ cs) = let rest = split_where p cs in if p c then [] ∷ rest else onto_part c rest

abbrev pub nonempty_parts : (ℕ → Bool) → Text → List Text
nonempty_parts p t = filter (λ part. not (is_blank part)) (split_where p t)

unfoldable pub join : Text → List Text → Text
join sep [] = []
join sep (t ∷ []) = t
join sep (t ∷ u ∷ ts) = t ++ (sep ++ join sep (u ∷ ts))

unfoldable pub normalize_whitespace : (ℕ → Bool) → Text → Text
unfolding split_where join
normalize_whitespace is_whitespace t = join (text " ") (nonempty_parts is_whitespace t)

abbrev onto_text : ℕ → Option Text → Option Text
onto_text c none = none
onto_text c (some t) = some (c ∷ t)

-- `str::strip_suffix`.
unfoldable pub strip_suffix : Text → Text → Option Text
unfolding list_eq
strip_suffix suffix [] = if list_eq suffix [] then some [] else none
strip_suffix suffix (c ∷ cs) =
    let rest = strip_suffix suffix cs in
    if list_eq (c ∷ cs) suffix then some [] else onto_text c rest

unfoldable pub is_one_of : List Text → Text → Bool
unfolding list_eq
is_one_of ts t = any (λ u. list_eq u t) ts

unfoldable pub is_number : Text → Bool
unfolding list_eq
is_number t =
    not (is_blank t)
    && (all (λ c. is_digit c || c == b'.') t
        && (leb (length (filter (λ c. c == b'.') t)) 1
            && (not (list_eq t (text ".")) && leb (utf8_len t) 8)))

abbrev pub units : List Text
units =
    text "px"
    ∷ text "rem"
    ∷ text "em"
    ∷ text "ch"
    ∷ text "ex"
    ∷ text "vw"
    ∷ text "vh"
    ∷ text "vmin"
    ∷ text "vmax"
    ∷ text "%"
    ∷ []

abbrev is_measure : Option Text → Bool
is_measure none = false
is_measure (some t) = not (is_blank t) && is_number t

unfoldable pub is_length : Text → Bool
unfolding list_eq strip_suffix is_number
is_length t = list_eq t (text "0") || any (λ unit. is_measure (strip_suffix unit t)) units

abbrev is_argument : ℕ → Bool
is_argument c =
    is_digit c
    || c == b' '
    || c == b'.'
    || c == b','
    || c == b'%'
    || c == b'/'
    || c == b'+'
    || c == b'-'

abbrev is_separator : ℕ → Bool
is_separator c = c == b',' || c == b' ' || c == b'/'

abbrev pub color_functions : List Text
color_functions = text "rgb" ∷ text "rgba" ∷ text "hsl" ∷ text "hsla" ∷ text "oklch" ∷ []

unfoldable pub is_hex_color : Text → Bool
is_hex_color t =
    (utf8_len t == 3 || utf8_len t == 4 || utf8_len t == 6 || utf8_len t == 8) && all is_hexdigit t

module _ (is_whitespace : ℕ → Bool) where
  unfoldable pub are_arguments : Option Text → Bool
  unfolding trim split_where
  are_arguments none = false
  are_arguments (some args) =
      not (is_blank (trim is_whitespace args))
      && (all is_argument args && leb (length (nonempty_parts is_separator args)) 4)

  -- A function, or else a name: `binary_search` in the sorted list of names.
  unfoldable pub is_function_or_name : Text → Option (Text × Text) → Bool
  unfolding is_one_of are_arguments strip_suffix
  is_function_or_name t none = is_one_of named_colors t
  is_function_or_name t (some (function, rest)) =
      is_one_of color_functions function && are_arguments (strip_suffix (text ")") rest)

  unfoldable pub is_flat_color : Text → Bool
  unfolding list_eq is_function_or_name is_hex_color strip_prefix split_once
  is_flat_color t =
      if list_eq t (text "transparent") || list_eq t (text "currentcolor")
      then true
      else elim (strip_prefix (text "#") t) [
        | some hex ↦ is_hex_color hex
        | none ↦ is_function_or_name t (split_once b'(' t)
      ]

  -- The depth of parentheses, a `u8`, and the place of the comma outside them; `none` is an early
  -- return.
  unfoldable pub scan_pair : ℕ → ℕ → Option ℕ → Text → Option (ℕ × Option ℕ)
  scan_pair index depth separator [] = some (depth, separator)
  scan_pair index depth separator (c ∷ cs) = elim (pair_step index depth separator c) [
    | none ↦ none
    | some (depth', separator') ↦ scan_pair (index + 1) depth' separator' cs
  ]
    where
      pair_step : ℕ → ℕ → Option ℕ → ℕ → Option (ℕ × Option ℕ)
      pair_step index depth separator c =
          if c == b'('
          then (if depth == 255 then none else some (depth + 1, separator))
          else if c == b')'
          then (if depth == 0 then none else some (depth - 1, separator))
          else if c == b',' && depth == 0
          then (elim separator [ none ↦ some (depth, some index) | some _ ↦ none ])
          else some (depth, separator)

  unfoldable pub cut_pair : Text → Option (ℕ × Option ℕ) → Option (Text × Text)
  unfolding trim
  cut_pair args none = none
  cut_pair args (some (depth, none)) = none
  cut_pair args (some (depth, some separator)) =
      let light = trim is_whitespace (take separator args) in
      let dark = trim is_whitespace (drop (separator + 1) args) in
      if depth == 0 && not (is_blank light) && not (is_blank dark) then some (light, dark) else none

  unfoldable pub split_color_pair : Text → Option (Text × Text)
  unfolding scan_pair cut_pair
  split_color_pair args = cut_pair args (scan_pair 0 0 none args)

  unfoldable pub is_color_pair : Option (Text × Text) → Bool
  unfolding is_flat_color
  is_color_pair none = false
  is_color_pair (some (light, dark)) = is_flat_color light && is_flat_color dark

  -- `strip_prefix("light-dark(")` and then `strip_suffix(')')`.
  unfoldable pub pair_arguments : Text → Option Text
  unfolding strip_prefix strip_suffix
  pair_arguments t = elim (strip_prefix (text "light-dark(") t) [
    | none ↦ none
    | some rest ↦ strip_suffix (text ")") rest
  ]

  unfoldable pub is_color : Text → Bool
  unfolding pair_arguments is_color_pair split_color_pair is_flat_color
  is_color t = elim (pair_arguments (map ascii_lower t)) [
    | some args ↦ is_color_pair (split_color_pair args)
    | none ↦ is_flat_color (map ascii_lower t)
  ]

  module _ (is_control : ℕ → Bool) where
    unfoldable pub is_folder_name : Text → Bool
    unfolding trim list_eq
    is_folder_name name =
        not (is_blank name)
        && (list_eq (trim is_whitespace name) name
            && (leb (length name) max_folder_name && not (any is_control name)))

    -- Every name is good and stands in the list once.
    unfoldable pub are_folder_names : List Text → Bool
    unfolding is_folder_name is_one_of
    are_folder_names [] = true
    are_folder_names (name ∷ names) =
        is_folder_name name && (not (is_one_of names name) && are_folder_names names)

    module _ (json : Json) where
      unfoldable pub print_folder_names : Option (List Text) → Option Text
      unfolding are_folder_names join
      print_folder_names none = none
      print_folder_names (some names) =
          if not (length names == 0)
            && leb (length names) max_layout_folders
            && are_folder_names names
          then some (join (text ", ") (map json.to_string names))
          else none

      unfoldable pub parse_folder_names : Text → Option Text
      unfolding print_folder_names
      parse_folder_names value =
          print_folder_names (json.from_str (text "[" ++ (value ++ text "]")))

      abbrev kept : Bool → Text → Option Text
      kept test value = if test then some value else none

      unfoldable pub canonical : Kind → Text → Option Text
      unfolding is_color is_length is_number is_one_of
      canonical color value = kept (is_color value) value
      canonical length_value value = kept (is_length value) value
      canonical number value = kept (is_number value) value
      canonical (keyword allowed) value =
          kept (is_one_of allowed (map ascii_lower value)) (map ascii_lower value)
      canonical folder_names value = none

      -- A value that is not a list of folder names, after its white space is made one space.
      unfoldable pub canonicalize_plain : Kind → Text → Option Text
      unfolding canonical normalize_whitespace
      canonicalize_plain kind raw =
          if ltb max_value (utf8_len (normalize_whitespace is_whitespace raw))
          then none
          else canonical kind (normalize_whitespace is_whitespace raw)

      unfoldable pub canonicalize : Kind → Text → Option Text
      unfolding canonicalize_plain parse_folder_names
      canonicalize folder_names raw =
          if ltb max_layout_value (utf8_len raw) then none else parse_folder_names raw
      canonicalize kind raw = canonicalize_plain kind raw
