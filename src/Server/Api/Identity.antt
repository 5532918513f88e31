-- ===== src/Server/Api/Identity.antt =====
-- Who a request is from, and what finding out changes: crates/devsite-server/src/api.rs.
use mathlib.Core.Path.{subst}
use devsite.Prelude.{ℕ, ◌≡◌, refl, sym, ◌∙◌, ap, Option, some, none, Result, ok, err, arith, Text}
use devsite.Proto.Capability.{AccountId}
use devsite.Server.Env.{Env}
use devsite.Server.Db.Rows.{Db}
use devsite.Server.Db.Tickets.{session_account}
use devsite.Server.Db.Machines.{MachineAuthentication, machine_authentication}
use devsite.Server.Api.Outcomes.{
  >>=-either, or_fail-either, or_fail_last_either, query-either, statement-either,
}
use devsite.Server.Api.{
  AppState, ApiError, Headers, Clock, or_fail, unauthorized, bearer_token, cookie_token, account_id,
  account_by, current_account, require_account, require_browser_account, require_machine,
}
use devsite.Server.Api.Steps.{
  >>=-eq-ok, or_fail-eq-ok, query-eq-ok, statement-eq-ok, outcome-injective,
}

-- Only machine credentials may differ.
pub record SameTables (a b : Db) : Type 0 where
  pub accounts : a.accounts ≡ b.accounts
  pub resources : a.resources ≡ b.resources
  pub shares : a.shares ≡ b.shares
  pub invitations : a.invitations ≡ b.invitations
  pub daemons : a.daemons ≡ b.daemons

pub machine_authentication-SameTables :
    (h now : ℕ) (db db' : Db) (m : Option MachineAuthentication)
    → machine_authentication h now db ≡ some (db', m)
    → SameTables db db'
unfolding machine_authentication
machine_authentication-SameTables h now db db' m e = record {
  accounts = ground arith;
  resources = ground arith;
  shares = ground arith;
  invitations = ground arith;
  daemons = ground arith;
}

pub unchanged : (a : Db) {b : Db} → a ≡ b → SameTables a b
unchanged a e = record {
  accounts = ap (λ d. d.accounts) e;
  resources = ap (λ d. d.resources) e;
  shares = ap (λ d. d.shares) e;
  invitations = ap (λ d. d.invitations) e;
  daemons = ap (λ d. d.daemons) e;
}

or_fail-last :
    (o : Option AccountId) (s : AppState) {t : AppState} {a : AccountId}
    → or_fail o unauthorized s ≡ (t, ok a)
    → t ≡ s
or_fail-last none s e = cc
or_fail-last (some b) s e = ground arith

machine_last :
    (m : Option MachineAuthentication) (db : Db) (s : AppState) {t : AppState}
    {machine : MachineAuthentication}
    → or_fail m unauthorized (record s { db = db }) ≡ (t, ok machine)
    → (db ≡ t.db) × (m ≡ some machine)
machine_last none db s e = cc
machine_last (some x) db s e =
    let (state, same) = outcome-injective e in (ap (λ a. a.db) state, ap some same)

module _ (env : Env) where
  pub require_browser_account-eq-ok :
      (clock : Clock) (headers : Headers) (s : AppState) {t : AppState} {account : AccountId}
      → require_browser_account env clock headers s ≡ (t, ok account)
      → t ≡ s
  unfolding require_browser_account
  require_browser_account-eq-ok clock headers s {t} {account} e =
      let (token, sent, e1) = or_fail-eq-ok (cookie_token env headers) unauthorized _ s e in
      or_fail-last (account_id (session_account (env.hash_token token) clock.identified_at s.db)) s
        (query-eq-ok (session_account (env.hash_token token) clock.identified_at) _ s e1)

  account_by-SameTables :
      (clock : Clock) (bearer cookie : Option Text) (s : AppState) {t : AppState}
      {a : Option AccountId}
      → account_by env clock bearer cookie s ≡ (t, ok a)
      → SameTables s.db t.db
  unfolding account_by
  account_by-SameTables clock (some token) cookie s e =
      let (m, db, found, e1) =
        statement-eq-ok (machine_authentication (env.hash_token token) clock.identified_at) _ s e in
      let e2 =
        query-eq-ok (session_account (env.hash_token token) clock.identified_at) _
          (record s { db = db }) e1 in
      subst (SameTables s.db) (ap (λ p. p.0.db) e2) (
        machine_authentication-SameTables (env.hash_token token) clock.identified_at s.db db m
          found)
  account_by-SameTables clock none none s e = unchanged s.db (ap (λ p. p.0.db) e)
  account_by-SameTables clock none (some token) s e = unchanged s.db (ap (λ p. p.0.db) e)

  current_account-SameTables :
      (clock : Clock) (headers : Headers) (s : AppState) {t : AppState} {a : Option AccountId}
      → current_account env clock headers s ≡ (t, ok a)
      → SameTables s.db t.db
  unfolding current_account
  current_account-SameTables clock headers s e =
      account_by-SameTables clock (bearer_token headers) (cookie_token env headers) s e

  -- Identifying a request changes no table but the machine credentials.
  pub require_account-SameTables :
      (clock : Clock) (headers : Headers) (s : AppState) {t : AppState} {account : AccountId}
      → require_account env clock headers s ≡ (t, ok account)
      → SameTables s.db t.db
  unfolding require_account
  require_account-SameTables clock headers s {t} {account} e =
      let (a, u, found, e1) = >>=-eq-ok (current_account env clock headers) _ s e in
      let same = or_fail-last a u e1 in
      subst (SameTables s.db) (ap (λ x. x.db) (sym same))
        (current_account-SameTables clock headers s found)

  -- A machine is identified by the credential whose token it bears.
  pub require_machine-eq-ok :
      (clock : Clock) (headers : Headers) (s : AppState) {t : AppState}
      {machine : MachineAuthentication}
      → require_machine env clock headers s ≡ (t, ok machine)
      → (token : Text) × (bearer_token headers ≡ some token)
        × (machine_authentication (env.hash_token token) clock.identified_at s.db
            ≡ some (t.db, some machine))
  unfolding require_machine
  require_machine-eq-ok clock headers s {t} {machine} e =
      let (token, sent, e1) = or_fail-eq-ok (bearer_token headers) unauthorized _ s e in
      let (m, db, found, e2) =
        statement-eq-ok (machine_authentication (env.hash_token token) clock.identified_at) _ s
          e1 in
      let (same_db, same_m) = machine_last m db s e2 in
      (token, sent, found ∙ λ i. some (same_db i, same_m i))

-- An outcome that is an error comes with the tables as they were, but for machine credentials.
abbrev pub Refuses {ℓ} : {B : Type ℓ} → Db → AppState × Result ApiError B → Type 0
Refuses db (t, ok b) = Unit
Refuses db (t, err e) = SameTables db t.db

pub Refuses_of_err {ℓ} :
    {B : Type ℓ} (db : Db) (o : AppState × Result ApiError B) (u : AppState) (e : ApiError)
    → Refuses db o
    → o ≡ (u, err e)
    → SameTables db u.db
Refuses_of_err db o u e h f = subst (Refuses db) f h

module _ (env : Env) where
  account_by-Refuses :
      (clock : Clock) (bearer cookie : Option Text) (s : AppState)
      → Refuses s.db (account_by env clock bearer cookie s)
  unfolding account_by
  account_by-Refuses clock (some token) cookie s =
      statement-either (Refuses s.db)
        (machine_authentication (env.hash_token token) clock.identified_at) _ s
        (unchanged s.db refl)
        (λ m db e.
          query-either (Refuses s.db) (session_account (env.hash_token token) clock.identified_at) _
            (record s { db = db }) tt)
  account_by-Refuses clock none none s = tt
  account_by-Refuses clock none (some token) s = tt

  pub current_account-Refuses :
      (clock : Clock) (headers : Headers) (s : AppState)
      → Refuses s.db (current_account env clock headers s)
  unfolding current_account
  current_account-Refuses clock headers s =
      account_by-Refuses clock (bearer_token headers) (cookie_token env headers) s

  -- Whoever is not signed in changes no table but the machine credentials.
  pub require_account-Refuses :
      (clock : Clock) (headers : Headers) (s : AppState)
      → Refuses s.db (require_account env clock headers s)
  unfolding require_account
  require_account-Refuses clock headers s =
      >>=-either (Refuses s.db) (current_account env clock headers) _ s
        (λ u e f. Refuses_of_err s.db _ u e (current_account-Refuses clock headers s) f)
        (λ u a f.
          or_fail_last_either (Refuses s.db) a unauthorized u
            (current_account-SameTables env clock headers s f) (λ b g. tt))

  pub require_machine-Refuses :
      (clock : Clock) (headers : Headers) (s : AppState)
      → Refuses s.db (require_machine env clock headers s)
  unfolding require_machine
  require_machine-Refuses clock headers s =
      or_fail-either (Refuses s.db) (bearer_token headers) unauthorized _ s (unchanged s.db refl)
        (λ token sent.
          statement-either (Refuses s.db)
            (machine_authentication (env.hash_token token) clock.identified_at) _ s
            (unchanged s.db refl)
            (λ m db e.
              or_fail_last_either (Refuses s.db) m unauthorized (record s { db = db })
                (machine_authentication-SameTables (env.hash_token token) clock.identified_at s.db
                  db m e)
                (λ b g. tt)))
