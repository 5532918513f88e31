-- ===== src/Server/Api/Outcomes.antt =====
-- A property of an outcome, from the outcomes of the steps that a handler of
-- crates/devsite-server/src/api.rs is made of: the steps may fail, and what then holds is part of it.
use devsite.Prelude.{
  ◌≡◌, refl, Result, ok, err, Option, some, none, Bool, true, false, if◌then◌else◌,
}
use devsite.Proto.Capability.{AccountId}
use devsite.Server.Db.Rows.{Db}
use devsite.Server.RateLimits.{RateClass, check}
use devsite.Server.Api.{
  AppState, ApiError, Handler, Clock, ◌>>=◌, ◌>>◌, continue, lift, query, statement, require,
  or_fail, check_rate, internal, too_many_requests,
}
use devsite.Server.Api.Steps.{counted}

module _ {ℓ κ ι} {A : Type ℓ} {B : Type κ} (Q : AppState × Result ApiError B → Type ι) where
  pub >>=-either :
      (m : Handler A) (next : A → Handler B) (s : AppState)
      → ((u : AppState) (e : ApiError) → m s ≡ (u, err e) → Q (u, err e))
      → ((u : AppState) (a : A) → m s ≡ (u, ok a) → Q (next a u))
      → Q ((m >>= next) s)
  unfolding ◌>>=◌ continue
  >>=-either m next s bad good = split (m s) refl
    where
      split : (r : AppState × Result ApiError A) → m s ≡ r → Q (continue next r)
      split (u, err e) f = bad u e f
      split (u, ok a) f = good u a f

  pub or_fail-either :
      (o : Option A) (e : ApiError) (next : A → Handler B) (s : AppState)
      → Q (s, err e)
      → ((a : A) → o ≡ some a → Q (next a s))
      → Q ((or_fail o e >>= next) s)
  unfolding ◌>>=◌ continue
  or_fail-either none e next s bad good = bad
  or_fail-either (some a) e next s bad good = good a refl

  pub lift-either :
      (r : Result ApiError A) (next : A → Handler B) (s : AppState)
      → ((e : ApiError) → Q (s, err e))
      → ((a : A) → r ≡ ok a → Q (next a s))
      → Q ((lift r >>= next) s)
  unfolding ◌>>=◌ continue
  lift-either (err e) next s bad good = bad e
  lift-either (ok a) next s bad good = good a refl

  pub query-either :
      (f : Db → A) (next : A → Handler B) (s : AppState)
      → Q (next (f s.db) s)
      → Q ((query f >>= next) s)
  unfolding ◌>>=◌ continue
  query-either f next s h = h

  pub statement-either :
      (f : Db → Option (Db × A)) (next : A → Handler B) (s : AppState)
      → Q (s, err internal)
      → ((a : A) (db : Db) → f s.db ≡ some (db, a) → Q (next a (record s { db = db })))
      → Q ((statement f >>= next) s)
  unfolding ◌>>=◌ continue statement
  statement-either f next s bad good = split (f s.db) refl
    where
      split :
          (r : Option (Db × A))
          → f s.db ≡ r
          → Q (
              continue next
                (elim r [ none ↦ (s, err internal) | some (db, a) ↦ (record s { db = db }, ok a) ]))
      split none g = bad
      split (some (db, a)) g = good a db g

module _ {κ ι} {B : Type κ} (Q : AppState × Result ApiError B → Type ι) where
  -- The last step of a handler.
  pub or_fail_last_either :
      (o : Option B) (e : ApiError) (s : AppState)
      → Q (s, err e)
      → ((b : B) → o ≡ some b → Q (s, ok b))
      → Q (or_fail o e s)
  or_fail_last_either none e s bad good = bad
  or_fail_last_either (some b) e s bad good = good b refl

  pub require-either :
      (test : Bool) (e : ApiError) (next : Handler B) (s : AppState)
      → Q (s, err e)
      → (test ≡ true → Q (next s))
      → Q ((require test e >> next) s)
  unfolding ◌>>=◌ continue
  require-either false e next s bad good = bad
  require-either true e next s bad good = good refl

  pub check_rate-either :
      (clock : Clock) (account : AccountId) (class : RateClass) (next : Handler B) (s : AppState)
      → Q (counted clock account class s, err too_many_requests)
      → Q (next (counted clock account class s))
      → Q ((check_rate clock account class >> next) s)
  unfolding ◌>>=◌ continue check_rate
  check_rate-either clock account class next s bad good =
      split ((check s.rate_limits account class clock.rated_at).1)
    where
      split :
          (allowed : Bool)
          → Q (
              continue {0, κ}
                (λ _. next)
                (counted clock account class s, if allowed then ok tt else err too_many_requests))
      split true = good
      split false = bad
