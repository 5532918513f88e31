-- ===== src/Server/Db/Machines/Laws.antt =====
-- Enrollment and revocation: crates/devsite-server/src/db.rs.
use devsite.Prelude.{
  ℕ, ◌≡◌, refl, sym, true, false, some, none, List, [], ◌∷◌, ◌==◌, Text, any, list_eq_sound, arith,
  Bool-cases, inl, inr,
}
use devsite.Proto.Capability.{AccountId}
use devsite.Server.Db.Rows.{Db, MachineRow}
use devsite.Server.Db.Machines.{
  is_ticket, bind_ticket, clashes, enroll_machine, open_ticket, machine_enrollment,
  bound_credential,
}

-- The unique column `token_hash`.
unfoldable pub DistinctTokens : List MachineRow → Type 0
DistinctTokens [] = true ≡ true
DistinctTokens (m ∷ ms) = (any (λ n. n.token_hash == m.token_hash) ms ≡ false) × DistinctTokens ms

-- A row without the token is left as it is.
bind_ticket-absent :
    (id : Text) (a : AccountId) (old new : ℕ) (e : Text) (now : ℕ) (ms : List MachineRow)
    → any (λ n. n.token_hash == old) ms ≡ false
    → bind_ticket id a old new e now ms ≡ ms
unfolding bind_ticket is_ticket
bind_ticket-absent id a old new e now [] h = refl
bind_ticket-absent id a old new e now (m ∷ ms) h =
    ground (arith, bind_ticket-absent id a old new e now ms)

open_ticket-absent :
    (old : ℕ) (ms : List MachineRow)
    → any (λ n. n.token_hash == old) ms ≡ false
    → open_ticket old ms ≡ none
unfolding open_ticket
open_ticket-absent old [] h = refl
open_ticket-absent old (m ∷ ms) h = ground (arith, open_ticket-absent old ms)

bound_credential-absent :
    (old : ℕ) (ms : List MachineRow)
    → any (λ n. n.token_hash == old) ms ≡ false
    → bound_credential old ms ≡ none
unfolding bound_credential
bound_credential-absent old [] h = refl
bound_credential-absent old (m ∷ ms) h = ground (arith, bound_credential-absent old ms)

-- The row that a ticket stands in has the ticket's token.
any-is_ticket :
    (id : Text) (a : AccountId) (old : ℕ) (ms : List MachineRow)
    → any (is_ticket id a old) ms ≡ true
    → any (λ n. n.token_hash == old) ms ≡ true
unfolding is_ticket
any-is_ticket id a old [] h = cc
any-is_ticket id a old (m ∷ ms) h = ground (arith, any-is_ticket id a old ms)

ticket_token :
    (id : Text) (a : AccountId) (old : ℕ) (m : MachineRow)
    → is_ticket id a old m ≡ true
    → m.token_hash ≡ old
unfolding is_ticket
ticket_token id a old m h = ground arith

open_ticket-bind_ticket :
    (id : Text) (a : AccountId) (old new : ℕ) (e : Text) (now : ℕ) (ms : List MachineRow)
    → DistinctTokens ms
    → any (is_ticket id a old) ms ≡ true
    → open_ticket old (bind_ticket id a old new e now ms) ≡ none
unfolding open_ticket bind_ticket DistinctTokens
open_ticket-bind_ticket id a old new e now [] d h = cc
open_ticket-bind_ticket id a old new e now (m ∷ ms) d h = elim (Bool-cases (is_ticket id a old m)) [
  | inl hit ↦
      let token : old ≡ m.token_hash = sym (ticket_token id a old m hit) in
      let alone : any (λ n. n.token_hash == old) ms ≡ false = rw token d.0 in
      rw hit (
        rw (bind_ticket-absent id a old new e now ms alone)
          (ground (arith, open_ticket-absent old ms alone)))
  | inr miss ↦
      let later : any (is_ticket id a old) ms ≡ true = ground arith in
      let elsewhere : any (λ n. n.token_hash == old) ms ≡ true = any-is_ticket id a old ms later in
      let other : (m.token_hash == old) ≡ false = elim (Bool-cases (m.token_hash == old)) [
        | inl e ↦
            let here : m.token_hash ≡ old = ground arith in
            let both : any (λ n. n.token_hash == old) ms ≡ false = rw (sym here) d.0 in
            absurd (ground arith)
        | inr n ↦ n
      ] in
      rw miss (ground (arith, open_ticket-bind_ticket id a old new e now ms d.1))
]

-- The credential that an enrollment leaves: the ticket's, bound to the endpoint.
pub record Enrolled (id : Text) (a : AccountId) (new : ℕ) (e : Text) (ms : List MachineRow)
    : Type 0 where
  pub credential : MachineRow
  pub found : bound_credential new ms ≡ some credential
  pub same_id : credential.id ≡ id
  pub owner : credential.account_id ≡ a
  pub bound : credential.endpoint_id ≡ some e

bind_ticket-Enrolled :
    (id : Text) (a : AccountId) (old new : ℕ) (e : Text) (now : ℕ) (ms : List MachineRow)
    → clashes id a old new e ms ≡ false
    → any (is_ticket id a old) ms ≡ true
    → Enrolled id a new e (bind_ticket id a old new e now ms)
unfolding bound_credential bind_ticket clashes
bind_ticket-Enrolled id a old new e now [] c h = cc
bind_ticket-Enrolled id a old new e now (m ∷ ms) c h = elim (Bool-cases (is_ticket id a old m)) [
  | inl hit ↦ record {
    credential = record m {
      token_hash = new;
      endpoint_id = some e;
      enrolled_at = some now;
      last_used_at = some now;
    };
    found = rw hit (ground arith);
    same_id = unfold is_ticket in list_eq_sound m.id id (ground arith);
    owner = unfold is_ticket in ground arith;
    bound = refl;
  }
  | inr miss ↦
      let rest = bind_ticket-Enrolled id a old new e now ms (ground arith) (ground arith) in
      record {
        credential = rest.credential;
        found = rw miss (ground (arith, rest.found));
        same_id = rest.same_id;
        owner = rest.owner;
        bound = rest.bound;
      }
]

enroll_machine-bound :
    (id : Text) (a : AccountId) (old new : ℕ) (e : Text) (now : ℕ) (db db' : Db)
    → enroll_machine id a old new e now db ≡ some (db', true)
    → (any (is_ticket id a old) db.machine_credentials ≡ true)
      × (clashes id a old new e db.machine_credentials ≡ false)
      × (db'.machine_credentials ≡ bind_ticket id a old new e now db.machine_credentials)
unfolding enroll_machine
enroll_machine-bound id a old new e now db db' enrolled = ground arith

machine_enrollment-none :
    (old : ℕ) (db : Db)
    → open_ticket old db.machine_credentials ≡ none
    → machine_enrollment old db ≡ none
unfolding machine_enrollment
machine_enrollment-none old db h = rw (h, machine_enrollment)

-- A successful enrollment uses the ticket up and binds its credential: where tokens are unique, the
-- old token enrolls nothing any more, and the new token finds the credential of the same id and
-- account with the enrolled endpoint.
pub enroll_machine-once :
    (id : Text) (a : AccountId) (old new : ℕ) (e : Text) (now : ℕ) (db db' : Db)
    → DistinctTokens db.machine_credentials
    → enroll_machine id a old new e now db ≡ some (db', true)
    → (machine_enrollment old db' ≡ none) × Enrolled id a new e db'.machine_credentials
enroll_machine-once id a old new e now db db' d enrolled =
    let (ticket, free, rows) = enroll_machine-bound id a old new e now db db' enrolled in
    (
      machine_enrollment-none old db'
          (rw rows (open_ticket-bind_ticket id a old new e now db.machine_credentials d ticket)),
      rw rows (bind_ticket-Enrolled id a old new e now db.machine_credentials free ticket),
    )
