-- ===== src/Server/Api/Steps.antt =====
-- What the success of a handler of crates/devsite-server/src/api.rs says of its steps.
use devsite.Prelude.{
  ◌≡◌, refl, Result, ok, err, Option, some, none, List, arith, ap, Bool, true, false, if◌then◌else◌,
  ok-injective,
}
use devsite.Proto.Capability.{AccountId}
use devsite.Server.Db.Rows.{Db}
use devsite.Server.RateLimits.{RateClass, check}
use devsite.Server.Api.{
  AppState, ApiError, inserted, found_or, lift, attempt, require, ◌>>◌, Handler, Clock, continue,
  ◌>>=◌, statement, query, or_fail, notify, notify_profiles, check_rate, internal,
  too_many_requests,
}

module _ {ℓ κ} {A : Type ℓ} {B : Type κ} where
  -- A sequence that succeeds has a first step that succeeds, and goes on from where it ends.
  pub >>=-eq-ok :
      (m : Handler A) (next : A → Handler B) (s : AppState) {t : AppState} {b : B}
      → (m >>= next) s ≡ (t, ok b)
      → (a : A) × (u : AppState) × (m s ≡ (u, ok a)) × (next a u ≡ (t, ok b))
  unfolding ◌>>=◌ continue
  >>=-eq-ok m next s {t} {b} e = split (m s) refl e
    where
      split :
          (r : AppState × Result ApiError A)
          → m s ≡ r
          → continue next r ≡ (t, ok b)
          → (a : A) × (u : AppState) × (m s ≡ (u, ok a)) × (next a u ≡ (t, ok b))
      split (u, ok a) f e = (a, u, f, e)
      split (u, err x) f e = cc

  pub >>=-ok :
      (m : Handler A) (next : A → Handler B) (s : AppState) {u : AppState} {a : A}
      → m s ≡ (u, ok a)
      → (m >>= next) s ≡ next a u
  unfolding ◌>>=◌ continue
  >>=-ok m next s e = ap (continue next) e

module _ {ℓ κ} {A : Type ℓ} {B : Type κ} where
  pub or_fail-eq-ok :
      (o : Option A) (e : ApiError) (next : A → Handler B) (s : AppState) {t : AppState} {b : B}
      → (or_fail o e >>= next) s ≡ (t, ok b)
      → (a : A) × (o ≡ some a) × (next a s ≡ (t, ok b))
  unfolding ◌>>=◌ continue
  or_fail-eq-ok none e next s h = cc
  or_fail-eq-ok (some a) e next s h = (a, refl, h)

  pub query-eq-ok :
      (f : Db → A) (next : A → Handler B) (s : AppState) {t : AppState} {b : B}
      → (query f >>= next) s ≡ (t, ok b)
      → next (f s.db) s ≡ (t, ok b)
  unfolding ◌>>=◌ continue
  query-eq-ok f next s h = h

  pub lift-eq-ok :
      (r : Result ApiError A) (next : A → Handler B) (s : AppState) {t : AppState} {b : B}
      → (lift r >>= next) s ≡ (t, ok b)
      → (a : A) × (r ≡ ok a) × (next a s ≡ (t, ok b))
  unfolding ◌>>=◌ continue
  lift-eq-ok (err e) next s h = cc
  lift-eq-ok (ok a) next s h = (a, refl, h)

  -- A statement that succeeds has changed the tables alone.
  pub attempt-eq-ok :
      (f : Db → Db × Result ApiError A) (next : A → Handler B) (s : AppState) {t : AppState} {b : B}
      → (attempt f >>= next) s ≡ (t, ok b)
      → (a : A) × (db : Db) × (f s.db ≡ (db, ok a)) × (next a (record s { db = db }) ≡ (t, ok b))
  unfolding ◌>>=◌ continue
  attempt-eq-ok f next s {t} {b} h = split (f s.db) refl h
    where
      split :
          (r : Db × Result ApiError A)
          → f s.db ≡ r
          → continue next (record s { db = r.0 }, r.1) ≡ (t, ok b)
          → (a : A) × (db : Db) × (f s.db ≡ (db, ok a))
            × (next a (record s { db = db }) ≡ (t, ok b))
      split (db, ok a) g h = (a, db, g, h)
      split (db, err e) g h = cc

module _ {κ} {B : Type κ} where
  pub require-eq-ok :
      (test : Bool) (e : ApiError) (next : Handler B) (s : AppState) {t : AppState} {b : B}
      → (require test e >> next) s ≡ (t, ok b)
      → (test ≡ true) × (next s ≡ (t, ok b))
  unfolding ◌>>=◌ continue
  require-eq-ok false e next s h = cc
  require-eq-ok true e next s h = (refl, h)

-- A request that is counted and allowed leaves the tables as they are.
abbrev pub counted : Clock → AccountId → RateClass → AppState → AppState
counted clock account class s = record s {
  rate_limits = (check s.rate_limits account class clock.rated_at).0;
}

module _ {κ} {B : Type κ} where
  pub check_rate-eq-ok :
      (clock : Clock) (account : AccountId) (class : RateClass) (next : Handler B) (s : AppState)
      {t : AppState} {b : B}
      → (check_rate clock account class >> next) s ≡ (t, ok b)
      → ((check s.rate_limits account class clock.rated_at).1 ≡ true)
        × (next (counted clock account class s) ≡ (t, ok b))
  unfolding ◌>>=◌ continue check_rate
  check_rate-eq-ok clock account class next s {t} {b} h =
      split ((check s.rate_limits account class clock.rated_at).1) refl h
    where
      split :
          (allowed : Bool)
          → (check s.rate_limits account class clock.rated_at).1 ≡ allowed
          → continue {0, κ}
              (λ _. next)
              (counted clock account class s, if allowed then ok tt else err too_many_requests)
            ≡ (t, ok b)
          → ((check s.rate_limits account class clock.rated_at).1 ≡ true)
            × (next (counted clock account class s) ≡ (t, ok b))
      split true g h = (g, h)
      split false g h = cc

pub inserted-eq-ok :
    (r : Db × Bool) {db : Db} {u : Unit {0}} → inserted r ≡ (db, ok u) → r ≡ (db, true)
inserted-eq-ok (d, true) e = ground arith
inserted-eq-ok (d, false) e = cc

pub found_or-eq-ok {ℓ} :
    {A : Type ℓ} (x : ApiError) (r : Db × Option A) {db : Db} {a : A}
    → found_or x r ≡ (db, ok a)
    → r ≡ (db, some a)
found_or-eq-ok x (d, none) e = cc
found_or-eq-ok x (d, some b) e = ground arith

module _ {ℓ κ} {A : Type ℓ} {B : Type κ} where
  pub statement-eq-ok :
      (f : Db → Option (Db × A)) (next : A → Handler B) (s : AppState) {t : AppState} {b : B}
      → (statement f >>= next) s ≡ (t, ok b)
      → (a : A) × (db : Db) × (f s.db ≡ some (db, a)) × (next a (record s { db = db }) ≡ (t, ok b))
  unfolding ◌>>=◌ continue statement
  statement-eq-ok f next s {t} {b} h = split (f s.db) refl h
    where
      split :
          (r : Option (Db × A))
          → f s.db ≡ r
          → continue next
              (elim r [ none ↦ (s, err internal) | some (db, a) ↦ (record s { db = db }, ok a) ])
            ≡ (t, ok b)
          → (a : A) × (db : Db) × (f s.db ≡ some (db, a))
            × (next a (record s { db = db }) ≡ (t, ok b))
      split none g h = cc
      split (some (db, a)) g h = (a, db, g, h)

pub outcome-injective {ℓ} :
    {A : Type ℓ} {s t : AppState} {a b : A}
    → ◌≡◌ {A = AppState × Result ApiError A} (s, ok a) (t, ok b)
    → (s ≡ t) × (a ≡ b)
outcome-injective e = (ap (λ p. p.0) e, ok-injective (ap (λ p. p.1) e))

module _ {κ} {B : Type κ} where
  pub notify-eq-ok :
      (accounts : List AccountId) (next : Handler B) (s : AppState) {t : AppState} {b : B}
      → (notify accounts >> next) s ≡ (t, ok b)
      → next (notify_profiles accounts s) ≡ (t, ok b)
  unfolding ◌>>=◌ continue
  notify-eq-ok accounts next s h = h
