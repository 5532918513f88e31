-- ===== src/Server/Db/Machines.antt =====
-- crates/devsite-server/src/db.rs: machine credentials and the daemon that an account registers. A
-- row without an endpoint is an enrollment ticket; enrollment binds it and changes its token.
pub mod Laws
use devsite.Prelude.{
  ℕ, Bool, true, false, not, ◌&&◌, ◌||◌, ◌-◌, Option, some, none, List, [], ◌∷◌, ◌==◌, Text, find,
  filter, length, list_eq, if◌then◌else◌, any, ltb,
}
use devsite.Proto.Capability.{AccountId}
use devsite.Server.Db.Rows.{
  Db, MachineRow, AccountRow, DaemonRow, TunnelRow, has_account, account_by_id,
}
use devsite.Server.Db.Tickets.{request_is, has_credential}

abbrev pub is_bound : MachineRow → Bool
is_bound m = elim m.endpoint_id [ none ↦ false | some _ ↦ true ]

-- The unique columns: the primary key, the token and the endpoint.
unfoldable pub create_machine_credential :
    Text → AccountId → Text → ℕ → List Text → ℕ → Db → Option Db
create_machine_credential id account name token_hash scopes now db =
    if has_account account db.accounts
      && not (has_credential id db.machine_credentials)
      && not (any (λ m. m.token_hash == token_hash) db.machine_credentials)
    then some (record db { machine_credentials = created ∷ db.machine_credentials })
    else none
  where
    created : MachineRow
    created = record {
      id = id;
      account_id = account;
      name = name;
      token_hash = token_hash;
      created_at = now;
      last_used_at = none;
      endpoint_id = none;
      enrolled_at = none;
      scopes = scopes;
    }

pub record MachineAuthentication : Type 0 where
  pub account : AccountRow
  pub credential_id : Text
  pub endpoint_id : Text
  pub scopes : List Text

-- `last_used_at IS NULL OR last_used_at < ?3`.
abbrev pub is_stale : ℕ → Option ℕ → Bool
is_stale now none = true
is_stale now (some used) = ltb used (now - 3600)

unfoldable pub touch : ℕ → ℕ → List MachineRow → List MachineRow
touch token_hash now [] = []
touch token_hash now (m ∷ ms) =
    let rest = touch token_hash now ms in
    if m.token_hash == token_hash && is_stale now m.last_used_at
    then (record m { last_used_at = some now }) ∷ rest
    else m ∷ rest

-- `WHERE token_hash = ?1 AND endpoint_id IS NOT NULL`.
unfoldable pub bound_credential : ℕ → List MachineRow → Option MachineRow
bound_credential token_hash ms = find (λ m. m.token_hash == token_hash && is_bound m) ms

-- The outer `none` is the error that a credential refers to a missing account, which the schema's
-- reference rules out.
unfoldable pub machine_authentication : ℕ → ℕ → Db → Option (Db × Option MachineAuthentication)
machine_authentication token_hash now db =
    elim (bound_credential token_hash db.machine_credentials) [
      | none ↦ some (db, none)
      | some m ↦ elim m.endpoint_id [
        | none ↦ some (db, none)
        | some endpoint ↦ elim (account_by_id db m.account_id) [
          | none ↦ none
          | some account ↦ some (
            record db { machine_credentials = touch token_hash now db.machine_credentials },
            some (record {
              account = account;
              credential_id = m.id;
              endpoint_id = endpoint;
              scopes = m.scopes;
            }),
          )
        ]
      ]
    ]

-- `WHERE token_hash = ?1 AND endpoint_id IS NULL`.
unfoldable pub open_ticket : ℕ → List MachineRow → Option MachineRow
open_ticket token_hash ms = find (λ m. m.token_hash == token_hash && not (is_bound m)) ms

unfoldable pub machine_enrollment : ℕ → Db → Option (Text × AccountId)
machine_enrollment token_hash db = elim (open_ticket token_hash db.machine_credentials) [
  | none ↦ none
  | some m ↦ some (m.id, m.account_id)
]

-- `WHERE id = ?4 AND account_id = ?5 AND token_hash = ?6 AND endpoint_id IS NULL`.
unfoldable pub is_ticket : Text → AccountId → ℕ → MachineRow → Bool
unfolding list_eq
is_ticket id account token_hash m =
    list_eq m.id id && m.account_id == account && m.token_hash == token_hash && not (is_bound m)

unfoldable pub bind_ticket : Text → AccountId → ℕ → ℕ → Text → ℕ → List MachineRow → List MachineRow
bind_ticket id account old new endpoint now [] = []
bind_ticket id account old new endpoint now (m ∷ ms) =
    let rest = bind_ticket id account old new endpoint now ms in
    if is_ticket id account old m
    then (record m {
      token_hash = new;
      endpoint_id = some endpoint;
      enrolled_at = some now;
      last_used_at = some now;
    })
      ∷ rest
    else m ∷ rest

-- Another row has the new token or the endpoint, which a unique index forbids.
unfoldable pub clashes : Text → AccountId → ℕ → ℕ → Text → List MachineRow → Bool
unfolding list_eq
clashes id account old new endpoint ms =
    any
      (λ m.
        not (is_ticket id account old m)
        && (m.token_hash == new || request_is endpoint m.endpoint_id))
      ms

unfoldable pub enroll_machine : Text → AccountId → ℕ → ℕ → Text → ℕ → Db → Option (Db × Bool)
enroll_machine id account old new endpoint now db =
    if any (is_ticket id account old) db.machine_credentials
    then (if clashes id account old new endpoint db.machine_credentials
        then none
        else some (
          record db {
            machine_credentials =
                bind_ticket id account old new endpoint now db.machine_credentials;
          },
          true,
        ))
    else some (db, false)

unfoldable pub active_machine_credential_count : AccountId → Db → ℕ
active_machine_credential_count account db =
    length (filter (λ m. m.account_id == account) db.machine_credentials)

-- `id = ?1 AND account_id = ?2`.
unfoldable pub is_own : AccountId → Text → MachineRow → Bool
unfolding list_eq
is_own account id m = list_eq m.id id && m.account_id == account

abbrev pub is_endpoint : Option Text → Text → Bool
is_endpoint none e = false
is_endpoint (some f) e = list_eq e f

-- `SELECT endpoint_id FROM machine_credentials WHERE id = ?2 AND account_id = ?1`.
unfoldable pub own_endpoint : AccountId → Text → List MachineRow → Option Text
own_endpoint account id ms = elim (find (is_own account id) ms) [
  | none ↦ none
  | some m ↦ m.endpoint_id
]

-- Both `DELETE`s, and the cascade to the tunnel sessions that the credential issued.
unfoldable pub revoke_machine_credential : AccountId → Text → Db → Db × Bool
revoke_machine_credential account id db =
    let endpoint = own_endpoint account id db.machine_credentials in
    let found = any (is_own account id) db.machine_credentials in
    (
      record db {
        daemons =
            filter (λ d. not (d.account_id == account && is_endpoint endpoint d.endpoint_id))
              db.daemons;
        machine_credentials = filter (λ m. not (is_own account id m)) db.machine_credentials;
        tunnel_sessions =
            if found
            then filter (λ t. not (request_is id t.issuer_credential_id)) db.tunnel_sessions
            else db.tunnel_sessions;
      },
      found,
    )

-- `ON CONFLICT(account_id) DO UPDATE SET endpoint_id = excluded.endpoint_id`.
unfoldable pub register_daemon : AccountId → Text → Db → Option Db
register_daemon account endpoint db =
    if has_account account db.accounts
    then some (record db {
      daemons =
          record { account_id = account; endpoint_id = endpoint }
          ∷ filter (λ d. not (d.account_id == account)) db.daemons;
    })
    else none

unfoldable pub daemon_endpoint : AccountId → Db → Option Text
daemon_endpoint account db = elim (find (λ d. d.account_id == account) db.daemons) [
  | none ↦ none
  | some d ↦ some d.endpoint_id
]
