-- ===== src/Server/Api/Machines/Proofs.antt =====
-- What a machine has proved when it registers a daemon or enrolls: crates/devsite-server/src/api.rs.
use mathlib.Core.Path.{subst}
use devsite.Prelude.{
  ◌⊎◌, inl, inr, Result, err, ◌≡◌, refl, sym, ◌∙◌, ap, true, false, Bool, Option, some, none, ok,
  arith, Text, Bytes, length, ◌==◌, ==_iff,
}
use devsite.Prelude.Words.{be_bytes}
use devsite.Proto.Crypto.{KeyBytes}
use devsite.Proto.Capability.{AccountId}
use devsite.Proto.Message.{machine_endpoint_proof_message}
use devsite.Server.Env.{Env, parse_endpoint_id}
use devsite.Server.Relay.{RelayAccess}
use devsite.Server.RateLimits.{mutation}
use devsite.Server.Db.Rows.{Db}
use devsite.Server.Db.Machines as Table
use devsite.Server.Db.Machines.{
  MachineAuthentication, machine_authentication, machine_enrollment, daemon_endpoint,
}
use devsite.Server.Api.{
  AppState, ApiError, Headers, Clock, Handler, ◌>>◌, invalid_request, internal, bearer_token,
  require_machine, with_unit, require,
}
use devsite.Server.Api.Steps.{or_fail-eq-ok, require-eq-ok, counted, outcome-injective}
use devsite.Server.Api.Outcomes.{
  >>=-either, or_fail-either, or_fail_last_either, require-either, check_rate-either,
  statement-either,
}
use devsite.Server.Api.Identity.{
  Refuses_of_err, require_machine-Refuses, require_machine-eq-ok, machine_authentication-SameTables,
}
use devsite.Server.Api.Machines.{verify_endpoint_signature, verify_endpoint_proof, register_daemon}

pub require_last :
    (test : Bool) (s : AppState) {t : AppState} {u : Unit {0}}
    → require test invalid_request s ≡ (t, ok u)
    → (t ≡ s) × (test ≡ true)
require_last false s e = cc
require_last true s e = (sym (outcome-injective e).0, refl)

module _ (env : Env) where
  -- The holder of the endpoint's key has signed the message.
  pub record Proves (endpoint : KeyBytes) (proof : Text) (message : Bytes) : Type 0 where
    pub signature : Bytes
    pub decoded : env.base64url.decode proof ≡ some signature
    pub sized : length signature ≡ 64
    pub signed : env.ed.verify endpoint message signature ≡ true

  pub verify_endpoint_signature-Proves :
      (endpoint : KeyBytes) (proof : Text) (message : Bytes) (s : AppState) {t : AppState}
      {u : Unit {0}}
      → verify_endpoint_signature env endpoint proof message s ≡ (t, ok u)
      → (t ≡ s) × Proves endpoint proof message
  unfolding verify_endpoint_signature
  verify_endpoint_signature-Proves endpoint proof message s e =
      let (signature, decoded, e1) =
        or_fail-eq-ok (env.base64url.decode proof) invalid_request _ s e in
      let (sized, e2) = require-eq-ok (length signature == 64) invalid_request _ s e1 in
      let (_, e3) = require-eq-ok (env.is_key endpoint) invalid_request _ s e2 in
      let (same, signed) = require_last (env.ed.verify endpoint message signature) s e3 in
      (
        same,
        record {
          signature = signature;
          decoded = decoded;
          sized = (==_iff (length signature) 64).0 sized;
          signed = signed;
        },
      )

  -- The endpoint's key has signed the proof of a machine.
  pub record ProvesEndpoint (endpoint_id proof : Text) : Type 0 where
    pub endpoint : KeyBytes
    pub parsed : parse_endpoint_id env endpoint_id ≡ some endpoint
    pub proved : Proves endpoint proof (machine_endpoint_proof_message (be_bytes 32 endpoint))

  verify_endpoint_proof-ProvesEndpoint :
      (endpoint_id proof : Text) (s : AppState) {t : AppState} {u : Unit {0}}
      → verify_endpoint_proof env endpoint_id proof s ≡ (t, ok u)
      → (t ≡ s) × ProvesEndpoint endpoint_id proof
  unfolding verify_endpoint_proof
  verify_endpoint_proof-ProvesEndpoint endpoint_id proof s e =
      let (endpoint, parsed, e1) =
        or_fail-eq-ok (parse_endpoint_id env endpoint_id) invalid_request _ s e in
      let (same, proved) = verify_endpoint_signature-Proves endpoint proof _ s e1 in
      (same, record { endpoint = endpoint; parsed = parsed; proved = proved })

  same_state :
      (s u : AppState) (r : Result ApiError (Unit {0})) (o : AppState × Result ApiError (Unit {0}))
      → o.0 ≡ s
      → o ≡ (u, r)
      → u ≡ s
  same_state s u r o h f = ap (λ p. p.0) (sym f) ∙ h

  -- The check of a proof changes nothing, whatever it finds.
  verify_endpoint_proof_state :
      (endpoint_id proof : Text) (s : AppState)
      → (verify_endpoint_proof env endpoint_id proof s).0 ≡ s
  unfolding verify_endpoint_proof verify_endpoint_signature
  verify_endpoint_proof_state endpoint_id proof s =
      let Q = λ (o : AppState × Result ApiError (Unit {0})). o.0 ≡ s in
      or_fail-either Q (parse_endpoint_id env endpoint_id) invalid_request _ s refl (λ endpoint _.
        or_fail-either Q (env.base64url.decode proof) invalid_request _ s refl (λ signature _.
          require-either Q (length signature == 64) invalid_request _ s refl
            (λ _. require-either Q (env.is_key endpoint) invalid_request _ s refl (λ _. refl))))

  after_proof {ℓ} :
      {B : Type ℓ} (Q : AppState × Result ApiError B → Type 0) (endpoint_id proof : Text)
      (next : Handler B) (s : AppState)
      → ((e : ApiError) → Q (s, err e))
      → (ProvesEndpoint endpoint_id proof → Q (next s))
      → Q ((verify_endpoint_proof env endpoint_id proof >> next) s)
  after_proof Q endpoint_id proof next s bad good =
      >>=-either Q (verify_endpoint_proof env endpoint_id proof) (λ _. next) s
        (λ u e f.
          subst (λ x. Q (x, err e))
            (sym (same_state s u (err e) _ (verify_endpoint_proof_state endpoint_id proof s) f))
            (bad e))
        (λ u a f.
          let (same, proved) = verify_endpoint_proof-ProvesEndpoint endpoint_id proof s f in
          subst (λ x. Q (next x)) (sym same) (good proved))

registered_endpoint :
    (account : AccountId) (endpoint : Text) (db : Db) {db' : Db}
    → Table.register_daemon account endpoint db ≡ some db'
    → daemon_endpoint account db' ≡ some endpoint
unfolding Table.register_daemon daemon_endpoint
registered_endpoint account endpoint db e = ground arith

with_unit-some : (o : Option Db) {db : Db} {u : Unit {0}} → with_unit o ≡ some (db, u) → o ≡ some db
with_unit-some none e = cc
with_unit-some (some d) e = ground arith

module _ (env : Env) (clock : Clock) (headers : Headers) (proof : Text) where
  -- The tables hold what a machine has registered that bears its credential, at the endpoint that it
  -- enrolled with, whose key has signed the proof. The rest of the tables is as the credential's
  -- check left it.
  pub record Registered (before after : Db) : Type 0 where
    pub token : Text
    pub machine : MachineAuthentication
    pub known : Db
    pub sent : bearer_token headers ≡ some token
    pub found :
        machine_authentication (env.hash_token token) clock.identified_at before
        ≡ some (known, some machine)
    pub proves : ProvesEndpoint env machine.endpoint_id proof
    pub stored : Table.register_daemon machine.account.id machine.endpoint_id known ≡ some after
    pub reached : daemon_endpoint machine.account.id after ≡ some machine.endpoint_id

  -- What an answer says of the registrations.
  abbrev pub Registers : Db → AppState × Result ApiError RelayAccess → Type 0
  Registers before (t, ok relay) = Registered before t.db
  Registers before (t, err e) = (t.db.daemons ≡ before.daemons) ⊎ Registered before t.db

  register_daemon-Registers :
      (relay_access : KeyBytes → Option RelayAccess) (s : AppState)
      → Registers s.db (register_daemon env relay_access clock headers proof s)
  unfolding register_daemon
  register_daemon-Registers relay_access s =
      let Q = Registers s.db in
      >>=-either Q (require_machine env clock headers) _ s
        (λ u e f.
          inl (
            sym
              (Refuses_of_err s.db _ u e (require_machine-Refuses env clock headers s) f).daemons))
        (λ u machine f.
          let (token, sent, found) = require_machine-eq-ok env clock headers s f in
          let same : u.db.daemons ≡ s.db.daemons =
            sym
              (machine_authentication-SameTables (env.hash_token token) clock.identified_at s.db
                u.db (some machine) found).daemons in
          let v = counted clock machine.account.id mutation u in
          check_rate-either Q clock machine.account.id mutation _ u (inl same) (
            after_proof env Q machine.endpoint_id proof _ v (λ e. inl same)
              (λ proves.
                statement-either Q
                  (λ d. with_unit (Table.register_daemon machine.account.id machine.endpoint_id d))
                  _ v (inl same)
                  (λ _ db made.
                    let w = record v { db = db } in
                    let stored = with_unit-some _ made in
                    let done : Registered s.db db = record {
                      token = token;
                      machine = machine;
                      known = u.db;
                      sent = sent;
                      found = found;
                      proves = proves;
                      stored = stored;
                      reached =
                          registered_endpoint machine.account.id machine.endpoint_id u.db stored;
                    } in
                    or_fail-either Q (parse_endpoint_id env machine.endpoint_id) internal _ w
                      (inr done)
                      (λ key _.
                        or_fail_last_either Q (relay_access key) internal w (inr done)
                          (λ _ _. done))))))

  -- Whatever the answer to a request to register a daemon is, either no registration has changed,
  -- or the request bore the credential of an enrolled machine and a proof signed with the key of
  -- that machine's endpoint, and the account of that machine, and no other account, has been
  -- registered at that endpoint. Where the answer is not an error, it has been registered.
  pub register_daemon-ProvesEndpoint :
      (relay_access : KeyBytes → Option RelayAccess) (s t : AppState)
      (answer : Result ApiError RelayAccess)
      → register_daemon env relay_access clock headers proof s ≡ (t, answer)
      → Registers s.db (t, answer)
  register_daemon-ProvesEndpoint relay_access s t answer e =
      subst (Registers s.db) e (register_daemon-Registers relay_access s)
