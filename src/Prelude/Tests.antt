-- ===== src/Prelude/Tests.antt =====
-- Boolean tests on the native numbers, the conditional, results and case splits.
use Prim.Native.Nat.{ℕ, compare, Ordering}
use mathlib.Core.Path.{◌≡◌, refl}
use mathlib.Core.Logic.{◌↔◌, ◌⊎◌, inl, inr}
use mathlib.Core.Bool.{Bool, true, false}
use mathlib.Core.Option.{Option, none, some}
use native.Mathlib.Omega.{arith}

abbrev pub ltb : ℕ → ℕ → Bool
ltb a b = elim (compare a b) [ Ordering.lt ↦ true | _ ↦ false ]

abbrev pub leb : ℕ → ℕ → Bool
leb a b = elim (compare a b) [ Ordering.gt ↦ false | _ ↦ true ]

infix 50 ◌==◌
abbrev pub ◌==◌ : ℕ → ℕ → Bool
a == b = elim (compare a b) [ Ordering.eq ↦ true | _ ↦ false ]

infix 1 if◌then◌else◌
abbrev pub if◌then◌else◌ {ℓ} : {A : Type ℓ} → Bool → A → A → A
if true then x else y = x
if false then x else y = y

pub ==_iff : (a b : ℕ) → ((a == b) ≡ true) ↔ (a ≡ b)
==_iff a b = ground arith

pub ==_refl : (a : ℕ) → (a == a) ≡ true
==_refl a = ground arith

-- To split on a computed value and keep the equation.
pub Bool-cases : (b : Bool) → (b ≡ true) ⊎ (b ≡ false)
Bool-cases true = inl refl
Bool-cases false = inr refl

pub Option-cases {ℓ} : {A : Type ℓ} (o : Option A) → (o ≡ none) ⊎ ((a : A) × (o ≡ some a))
Option-cases none = inl refl
Option-cases (some a) = inr (a, refl)

-- `Result<A, E>`.
pub data Result {ℓ κ} (E : Type ℓ) (A : Type κ) : Type (ℓ ⊔ κ) where
  ok : A → Result E A
  err : E → Result E A

-- `if !test { return Err(failure) }`.
abbrev pub ensure {ℓ} : {E : Type ℓ} → Bool → E → Result E (Unit {0})
ensure test failure = if test then ok tt else err failure

-- `?` after a result, whose value goes on or is dropped.
infixl 5 ◌>>=◌ ◌>>◌
abbrev pub ◌>>=◌ {ℓ κ μ} :
    {E : Type ℓ} {A : Type κ} {B : Type μ} → Result E A → (A → Result E B) → Result E B
err failure >>= next = err failure
ok value >>= next = next value

abbrev pub ◌>>◌ {ℓ κ} : {E : Type ℓ} {B : Type κ} → Result E (Unit {0}) → Result E B → Result E B
step >> next = step >>= (λ _. next)

-- `.ok_or(e)`.
abbrev pub ok_or {ℓ κ} : {E : Type ℓ} {A : Type κ} → Option A → E → Result E A
ok_or none e = err e
ok_or (some a) e = ok a

-- `.map_err(|_| e)`.
abbrev pub map_err {ℓ κ μ} : {E : Type ℓ} {F : Type μ} {A : Type κ} → Result E A → F → Result F A
map_err (ok a) f = ok a
map_err (err e) f = err f

pub Result-cases {ℓ κ} :
    {E : Type ℓ} {A : Type κ} (r : Result E A) → ((a : A) × (r ≡ ok a)) ⊎ ((e : E) × (r ≡ err e))
Result-cases (ok a) = inl (a, refl)
Result-cases (err e) = inr (e, refl)

-- A bind that succeeds has a first step that succeeds, and goes on with its value.
pub >>=-eq-ok {ℓ κ μ} :
    {E : Type ℓ} {A : Type κ} {B : Type μ} (step : Result E A) (next : A → Result E B) {b : B}
    → (step >>= next) ≡ ok b
    → (a : A) × (step ≡ ok a) × (next a ≡ ok b)
>>=-eq-ok (err failure) next e = cc
>>=-eq-ok (ok value) next e = (value, refl, e)

pub ok_or-eq-ok {ℓ κ} :
    {E : Type ℓ} {A : Type κ} (o : Option A) (e : E) {a : A} → ok_or o e ≡ ok a → o ≡ some a
ok_or-eq-ok none e h = cc
ok_or-eq-ok (some a) e h = cc

pub ok-injective {ℓ κ} :
    {E : Type ℓ} {A : Type κ} {a b : A} → ◌≡◌ {A = Result E A} (ok a) (ok b) → a ≡ b
ok-injective e = cc

-- A test that is passed held.
pub ensure-eq-ok {ℓ} :
    {E : Type ℓ} (test : Bool) (failure : E) {u : Unit {0}}
    → ensure test failure ≡ ok u
    → test ≡ true
ensure-eq-ok true failure h = refl
ensure-eq-ok false failure h = cc

pub map_err-eq-ok {ℓ κ μ} :
    {E : Type ℓ} {F : Type μ} {A : Type κ} (r : Result E A) (f : F) {a : A}
    → map_err r f ≡ ok a
    → r ≡ ok a
map_err-eq-ok (ok b) f h = cc
map_err-eq-ok (err e) f h = cc
