-- ===== src/Server/Auth/Laws.antt =====
-- What a validated handle looks like: crates/devsite-server/src/auth.rs.
use devsite.Prelude.{
  ℕ, ◌≤◌, ◌≡◌, refl, sym, ◌∙◌, Bool, true, false, not, ◌&&◌, ◌||◌, [], ◌∷◌, map, Text, ok, ensure,
  ensure-eq-ok, ok-injective, >>=-eq-ok, ltb, leb, ◌==◌, all, length, arith,
}
use devsite.Proto.Id.{ascii_lower}
use devsite.Server.Auth.{
  utf8_len, is_allowed, starts_with, is_reserved, check_handle, validate_handle, trimmed,
  bad_length, bad_character, bad_start, is_taken,
}

-- Small letters, digits, hyphens and underscores.
abbrev pub is_handle_char : ℕ → Bool
is_handle_char c =
    (leb b'0' c && leb c b'9') || (leb b'a' c && leb c b'z') || c == b'-' || c == b'_'

pub record IsHandle (h : Text) : Type 0 where
  pub chars : all is_handle_char h ≡ true
  pub long_enough : 2 ≤ length h
  pub short_enough : length h ≤ 32
  pub start : (starts_with b'-' h || starts_with b'_' h) ≡ false
  pub free : is_reserved h ≡ false

utf8_len-length : (t : Text) → all is_allowed t ≡ true → utf8_len t ≡ length (map ascii_lower t)
utf8_len-length [] h = refl
utf8_len-length (c ∷ cs) h = ground (arith, utf8_len-length cs)

lower_char : (c : ℕ) → is_allowed c ≡ true → is_handle_char (ascii_lower c) ≡ true
lower_char c h = ground arith

lower_chars : (t : Text) → all is_allowed t ≡ true → all is_handle_char (map ascii_lower t) ≡ true
lower_chars [] h = refl
lower_chars (c ∷ cs) h =
    let rest = lower_chars cs (ground arith) in
    let first = lower_char c (ground arith) in rw (first, rest) refl

lower_start :
    (t : Text)
    → (starts_with b'-' (map ascii_lower t) || starts_with b'_' (map ascii_lower t))
      ≡ (starts_with b'-' t || starts_with b'_' t)
lower_start [] = refl
lower_start (c ∷ cs) = ground arith

abbrev is_sized : Text → Bool
is_sized t = not (ltb (utf8_len t) 2 || ltb 32 (utf8_len t))

abbrev is_started : Text → Bool
is_started t = not (starts_with b'-' t || starts_with b'_' t)

is_sized-bounds : (t : Text) → is_sized t ≡ true → (2 ≤ utf8_len t) × (utf8_len t ≤ 32)
is_sized-bounds t h = (ground arith, ground arith)

not-true : (b : Bool) → not b ≡ true → b ≡ false
not-true true h = cc
not-true false h = refl

check_handle-passed :
    (t h : Text)
    → check_handle t ≡ ok h
    → (h ≡ map ascii_lower t)
      × (all is_allowed t ≡ true)
      × (2 ≤ utf8_len t)
      × (utf8_len t ≤ 32)
      × ((starts_with b'-' t || starts_with b'_' t) ≡ false)
      × (is_reserved (map ascii_lower t) ≡ false)
unfolding check_handle
check_handle-passed t h e =
    let (u, sized, e1) = >>=-eq-ok (ensure (is_sized t) bad_length) _ e in
    let (v, chars, e2) = >>=-eq-ok (ensure (all is_allowed t) bad_character) _ e1 in
    let (w, start, e3) = >>=-eq-ok (ensure (is_started t) bad_start) _ e2 in
    let (x, free, e4) = >>=-eq-ok (ensure (not (is_reserved (map ascii_lower t))) is_taken) _ e3 in
    let sizes = is_sized-bounds t (ensure-eq-ok _ bad_length sized) in
    (
      sym (ok-injective e4),
      ensure-eq-ok _ bad_character chars,
      sizes.0,
      sizes.1,
      not-true _ (ensure-eq-ok _ bad_start start),
      not-true _ (ensure-eq-ok _ is_taken free),
    )

check_handle-IsHandle : (t h : Text) → check_handle t ≡ ok h → IsHandle h
check_handle-IsHandle t h e =
    let (same, chars, long, short, start, free) = check_handle-passed t h e in
    let sized = utf8_len-length t chars in
    rw same (record {
      chars = lower_chars t chars;
      long_enough = omega arith;
      short_enough = omega arith;
      start = lower_start t ∙ start;
      free = free;
    })

-- Whatever text is offered, a handle that is accepted has 2 to 32 characters, all of them small
-- letters, digits, hyphens or underscores, begins with a letter or digit, and is not reserved.
pub validate_handle-IsHandle :
    (is_whitespace : ℕ → Bool) (t h : Text) → validate_handle is_whitespace t ≡ ok h → IsHandle h
unfolding validate_handle
validate_handle-IsHandle is_whitespace t h e = check_handle-IsHandle (trimmed is_whitespace t) h e
