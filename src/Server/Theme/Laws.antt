-- ===== src/Server/Theme/Laws.antt =====
-- What a theme that parses holds: crates/devsite-server/src/theme.rs.
use mathlib.Core.Path.{subst}
use devsite.Prelude.{
  ℕ, ◌≡◌, refl, sym, ◌∙◌, ap, false, not, Bool, ◌||◌, some, List, [], ◌∷◌, map, ok, arith, Text,
  list_eq, list_eq_sound, any, ensure, ok_or, ok_or-eq-ok, ok-injective, >>=-eq-ok, Bool-cases, inl,
  inr, ltb,
}
use devsite.Prelude.Texts.{split_once}
use devsite.Proto.Id.{ascii_lower}
use devsite.Server.Auth.{utf8_len}
use devsite.Server.Env.{trim}
use devsite.Server.Theme.Names.{Kind, properties}
use devsite.Server.Theme.Values.{Json, canonicalize, is_blank}
use devsite.Server.Theme.{
  Declaration, too_long, unclosed, bad_character, important, missing_colon, no_value,
  unknown_property, bad_value, is_structural, is_bang, find_outside_quotes, strip_comments,
  split_declarations, kind_of, put_declaration, parse_declaration, parse_chunk, parse_chunks, parse,
  max_input,
}

-- A declaration of the property stands in the list.
unfoldable pub declares : Text → List Declaration → Bool
unfolding list_eq
declares property ds = any (λ d. list_eq d.property property) ds

list_eq_comm : (xs ys : List ℕ) → list_eq xs ys ≡ list_eq ys xs
unfolding list_eq
list_eq_comm [] [] = refl
list_eq_comm [] (y ∷ ys) = refl
list_eq_comm (x ∷ xs) [] = refl
list_eq_comm (x ∷ xs) (y ∷ ys) = ground (arith, list_eq_comm xs ys)

module _ (is_whitespace is_control : ℕ → Bool) (json : Json) where
  -- The property may be set, and the value is the canonical form of one of its kind.
  pub record IsAllowed (property value : Text) : Type 0 where
    pub kind : Kind
    pub raw : Text
    pub known : kind_of property properties ≡ some kind
    pub canonical : canonicalize is_whitespace is_control json kind raw ≡ some value

  -- Every declaration is allowed, and no property is declared twice.
  abbrev pub IsTheme : List Declaration → Type 0
  IsTheme [] = Unit
  IsTheme (d ∷ ds) = IsAllowed d.property d.value × (declares d.property ds ≡ false) × IsTheme ds

  declares-put_declaration :
      (property value other : Text) (ds : List Declaration)
      → list_eq property other ≡ false
      → declares other (put_declaration property value ds) ≡ declares other ds
  unfolding declares put_declaration
  declares-put_declaration property value other [] h = ground arith
  declares-put_declaration property value other (d ∷ ds) h =
      elim (Bool-cases (list_eq d.property property)) [
        | inl this ↦ rw this refl
        | inr differs ↦ rw differs (
            ap (λ b. list_eq d.property other || b)
              (declares-put_declaration property value other ds h))
      ]

  put_declaration-IsTheme :
      (property value : Text) (ds : List Declaration)
      → IsAllowed property value
      → IsTheme ds
      → IsTheme (put_declaration property value ds)
  unfolding put_declaration
  put_declaration-IsTheme property value [] a h = (a, unfold declares in refl, tt)
  put_declaration-IsTheme property value (d ∷ ds) a h =
      elim (Bool-cases (list_eq d.property property)) [
        | inl this ↦
            let same = list_eq_sound d.property property this in
            rw this (subst (λ x. IsAllowed x value) (sym same) a, h.1, h.2)
        | inr other ↦ rw other (
          h.0,
          declares-put_declaration property value d.property ds
                (list_eq_comm property d.property ∙ other)
              ∙ h.1,
          put_declaration-IsTheme property value ds a h.2,
        )
      ]

  parse_declaration-IsTheme :
      (chunk : Text) (ds es : List Declaration)
      → IsTheme ds
      → parse_declaration is_whitespace is_control json chunk ds ≡ ok es
      → IsTheme es
  unfolding parse_declaration
  parse_declaration-IsTheme chunk ds es h e =
      let (_, _, e1) =
        >>=-eq-ok (ensure (not (find_outside_quotes chunk is_structural)) bad_character) _ e in
      let (_, _, e2) =
        >>=-eq-ok (ensure (not (find_outside_quotes chunk is_bang)) important) _ e1 in
      let (parts, _, e3) = >>=-eq-ok (ok_or (split_once b':' chunk) missing_colon) _ e2 in
      let (_, _, e4) =
        >>=-eq-ok (ensure (not (is_blank (trim is_whitespace (parts.1)))) no_value) _ e3 in
      let property = map ascii_lower (trim is_whitespace (parts.0)) in
      let raw = trim is_whitespace (parts.1) in
      let (kind, known, e5) =
        >>=-eq-ok (ok_or (kind_of property properties) unknown_property) _ e4 in
      let (value, canonical, e6) =
        >>=-eq-ok (ok_or (canonicalize is_whitespace is_control json kind raw) bad_value) _ e5 in
      subst IsTheme (ok-injective e6) (
        put_declaration-IsTheme property value ds
          (record {
            kind = kind;
            raw = raw;
            known = ok_or-eq-ok _ _ known;
            canonical = ok_or-eq-ok _ _ canonical;
          })
          h)

  parse_chunk-IsTheme :
      (chunk : Text) (ds es : List Declaration)
      → IsTheme ds
      → parse_chunk is_whitespace is_control json chunk ds ≡ ok es
      → IsTheme es
  unfolding parse_chunk
  parse_chunk-IsTheme chunk ds es h e = elim (Bool-cases (is_blank (trim is_whitespace chunk))) [
    | inl blank ↦ subst IsTheme (ok-injective (rw (blank, parse_chunk) at e)) h
    | inr full ↦
        parse_declaration-IsTheme (trim is_whitespace chunk) ds es h (rw (full, parse_chunk) at e)
  ]

  parse_chunks-IsTheme :
      (chunks : List Text) (ds es : List Declaration)
      → IsTheme ds
      → parse_chunks is_whitespace is_control json chunks ds ≡ ok es
      → IsTheme es
  unfolding parse_chunks
  parse_chunks-IsTheme [] ds es h e = subst IsTheme (ok-injective e) h
  parse_chunks-IsTheme (chunk ∷ chunks) ds es h e =
      let (more, first, e1) = >>=-eq-ok (parse_chunk is_whitespace is_control json chunk ds) _ e in
      parse_chunks-IsTheme chunks more es (parse_chunk-IsTheme chunk ds more h first) e1

  -- A theme that parses sets only properties on the list, each at most once, and each to the
  -- canonical form of a value of its kind.
  pub parse-IsTheme :
      (input : Text) (ds : List Declaration)
      → parse is_whitespace is_control json input ≡ ok ds
      → IsTheme ds
  unfolding parse
  parse-IsTheme input ds e =
      let (_, _, e1) = >>=-eq-ok (ensure (not (ltb max_input (utf8_len input))) too_long) _ e in
      let (source, _, e2) = >>=-eq-ok (ok_or (strip_comments input) unclosed) _ e1 in
      parse_chunks-IsTheme (split_declarations source) [] ds tt e2
