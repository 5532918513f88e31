-- ===== src/Prelude/Lists.antt =====
-- Lists measured by native numbers, filters by Boolean tests, membership as a test, and texts as
-- lists of code points.
use Prim.Native.Char.{code}
use Prim.Native.String.{String}
use Prim.Native.Nat.{ℕ, zero, suc, ◌+◌, ◌≤◌}
use mathlib.Core.Path.{◌≡◌, refl, ap}
use mathlib.Core.Logic.{◌↔◌}
use mathlib.Core.Bool.{Bool, true, false, ◌&&◌, ◌||◌}
use mathlib.Core.Option.{Option, none, some}
use mathlib.Core.List.{List, [], ◌∷◌, ◌++◌}
use native.Mathlib.Omega.{arith}
use devsite.Prelude.Tests.{◌==◌, if◌then◌else◌}

module _ {ℓ} {A : Type ℓ} where
  abbrev pub length : List A → ℕ
  length [] = 0
  length (x ∷ xs) = suc (length xs)

  abbrev pub take : ℕ → List A → List A
  take zero xs = []
  take (suc n) [] = []
  take (suc n) (x ∷ xs) = x ∷ take n xs

  abbrev pub drop : ℕ → List A → List A
  drop zero xs = xs
  drop (suc n) [] = []
  drop (suc n) (x ∷ xs) = drop n xs

  -- `retain`, `filter`.
  abbrev pub filter : (A → Bool) → List A → List A
  filter p [] = []
  filter p (x ∷ xs) = let rest = filter p xs in if p x then x ∷ rest else rest

  abbrev pub any : (A → Bool) → List A → Bool
  any p [] = false
  any p (x ∷ xs) = p x || any p xs

  abbrev pub all : (A → Bool) → List A → Bool
  all p [] = true
  all p (x ∷ xs) = p x && all p xs

  -- The first element that passes the test.
  abbrev pub find : (A → Bool) → List A → Option A
  find p [] = none
  find p (x ∷ xs) = let rest = find p xs in if p x then some x else rest

  pub length-append : (xs ys : List A) → length (xs ++ ys) ≡ length xs + length ys
  length-append [] ys = omega arith
  length-append (x ∷ xs) ys = omega (arith, length-append xs ys)

  pub length-filter-le : (p : A → Bool) (xs : List A) → length (filter p xs) ≤ length xs
  length-filter-le p [] = omega arith
  length-filter-le p (x ∷ xs) = ground (arith, length-filter-le p xs)

  pub take-length_append : (xs ys : List A) → take (length xs) (xs ++ ys) ≡ xs
  take-length_append [] ys = refl
  take-length_append (x ∷ xs) ys = ap (◌∷◌ x) (take-length_append xs ys)

  pub drop-length_append : (xs ys : List A) → drop (length xs) (xs ++ ys) ≡ ys
  drop-length_append [] ys = refl
  drop-length_append (x ∷ xs) ys = drop-length_append xs ys

module _ {ℓ} {A : Type ℓ} where
  pub any-filter : (p q : A → Bool) (xs : List A) → any p (filter q xs) ≡ any (λ x. p x && q x) xs
  any-filter p q [] = refl
  any-filter p q (x ∷ xs) = ground (arith, any-filter p q xs)

  pub any-append : (p : A → Bool) (xs ys : List A) → any p (xs ++ ys) ≡ (any p xs || any p ys)
  any-append p [] ys = refl
  any-append p (x ∷ xs) ys = ground (arith, any-append p xs ys)

  pub find-any : (p : A → Bool) (xs : List A) {x : A} → find p xs ≡ some x → p x ≡ true
  find-any p [] e = cc
  find-any p (y ∷ xs) {x} e = ground (arith, find-any p xs {x = x})

module _ {ℓ κ} {A : Type ℓ} where
  abbrev pub All : (A → Type κ) → List A → Type κ
  All P [] = Unit
  All P (x ∷ xs) = P x × All P xs

  pub All-filter : (P : A → Type κ) (p : A → Bool) (xs : List A) → All P xs → All P (filter p xs)
  All-filter P p [] h = h
  All-filter P p (x ∷ xs) h = ground (arith, All-filter P p xs h.1)

  pub All-append : (P : A → Type κ) (xs ys : List A) → All P xs → All P ys → All P (xs ++ ys)
  All-append P [] ys h k = k
  All-append P (x ∷ xs) ys h k = (h.0, All-append P xs ys h.1 k)

-- A text is the list of its code points.
abbrev pub Text : Type 0
Text = List ℕ

abbrev pub Bytes : Type 0
Bytes = List ℕ

abbrev pub text : String → Text
text String.[] = []
text (String.◌∷◌ c s) = code c ∷ text s

unfoldable pub contains : List ℕ → ℕ → Bool
contains xs a = any (λ x. x == a) xs

unfoldable pub list_eq : List ℕ → List ℕ → Bool
list_eq [] [] = true
list_eq (x ∷ xs) (y ∷ ys) = x == y && list_eq xs ys
list_eq _ _ = false

pub list_eq_refl : (xs : List ℕ) → list_eq xs xs ≡ true
unfolding list_eq
list_eq_refl [] = refl
list_eq_refl (x ∷ xs) = ground (arith, list_eq_refl xs)

pub list_eq_sound : (xs ys : List ℕ) → list_eq xs ys ≡ true → xs ≡ ys
unfolding list_eq
list_eq_sound [] [] e = refl
list_eq_sound (x ∷ xs) (y ∷ ys) e = ground (arith, list_eq_sound xs ys)
list_eq_sound [] (y ∷ ys) e = cc
list_eq_sound (x ∷ xs) [] e = cc

pub list_eq_iff : (xs ys : List ℕ) → (list_eq xs ys ≡ true) ↔ (xs ≡ ys)
list_eq_iff xs ys = (list_eq_sound xs ys, λ e. rw e (list_eq_refl ys))

module _ {ℓ} {A : Type ℓ} where
  -- Two splits at the same length are one.
  pub append-eq :
      (xs ys : List A) {us vs : List A}
      → length xs ≡ length ys
      → xs ++ us ≡ ys ++ vs
      → (xs ≡ ys) × (us ≡ vs)
  append-eq [] [] n e = (refl, e)
  append-eq (x ∷ xs) (y ∷ ys) {us} {vs} n e = ground (arith, append-eq xs ys {us = us} {vs = vs})
  append-eq [] (y ∷ ys) n e = absurd (omega arith)
  append-eq (x ∷ xs) [] n e = absurd (omega arith)

-- `str::strip_prefix`.
unfoldable pub strip_prefix : List ℕ → List ℕ → Option (List ℕ)
strip_prefix [] t = some t
strip_prefix (p ∷ ps) [] = none
strip_prefix (p ∷ ps) (c ∷ t) = if p == c then strip_prefix ps t else none

pub strip_prefix-append : (p t : List ℕ) → strip_prefix p (p ++ t) ≡ some t
unfolding strip_prefix
strip_prefix-append [] t = refl
strip_prefix-append (c ∷ p) t = ground (arith, strip_prefix-append p t)

pub strip_prefix-eq-some : (p t r : List ℕ) → strip_prefix p t ≡ some r → t ≡ p ++ r
unfolding strip_prefix
strip_prefix-eq-some [] t r e = ground arith
strip_prefix-eq-some (c ∷ p) [] r e = cc
strip_prefix-eq-some (c ∷ p) (d ∷ t) r e = ground (arith, strip_prefix-eq-some p t r)
