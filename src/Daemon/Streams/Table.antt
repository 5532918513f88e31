-- ===== src/Daemon/Streams/Table.antt =====
-- The table of open streams: what `cancel_where` leaves, and that ids stay distinct.
use devsite.Prelude.{
  ℕ, ◌+◌, ◌%◌, ◌<◌, ◌≡◌, refl, sym, ◌∙◌, Bool, true, false, ◌&&◌, ◌||◌, Option, some, none, List,
  [], ◌∷◌, arith, contains, All, ◌==◌, if◌then◌else◌, Option-cases, inl, inr, Bool-cases,
  Result-cases, Bytes,
}
use devsite.Prelude.Map.{
  lookup, insert, remove, lookup-remove, Distinct, remove-Distinct, insert-Distinct,
}
use mathlib.Core.Path.{subst}
use devsite.Prelude.Words.{u64_mod}
use devsite.Daemon.Verify.{Authorized, SocketAddr}
use devsite.Daemon.Streams.{
  ActiveStream, Daemon, denied_ids, cancel_each, cancel_where, open_stream, finish, configure,
  receive_against, decide_against,
}
use devsite.Proto.Crypto.{KeyBytes, Ed25519, Postcard}
use devsite.Proto.Capability.{CapabilityClaims, ResourceId}
use devsite.Proto.Wire.{Request, connect, read_frame, decode}
use devsite.Daemon.Config.{HostedService, services_eq}

-- What a test leaves of an entry.
abbrev pub spare : (ActiveStream → Bool) → Option ActiveStream → Option ActiveStream
spare test none = none
spare test (some s) = if test s then none else some s

abbrev hits : (ActiveStream → Bool) → Option ActiveStream → Bool
hits test none = false
hits test (some s) = test s

abbrev is_some : Option ActiveStream → Bool
is_some none = false
is_some (some _) = true

-- One round of the loop.
abbrev drop_one : ℕ → Daemon → Daemon
drop_one id d = elim (lookup id d.active) [
  | none ↦ d
  | some _ ↦ record d { active = remove id d.active; cancelled = id ∷ d.cancelled }
]

lookup-drop_one :
    (id j : ℕ) (d : Daemon)
    → lookup j (drop_one id d).active ≡ (if id == j then none else lookup j d.active)
lookup-drop_one id j d = ground (arith, lookup-remove id j d.active)

lookup-cancel_each :
    (ids : List ℕ) (j : ℕ) (d : Daemon)
    → lookup j (cancel_each ids d).active ≡ (if contains ids j then none else lookup j d.active)
unfolding cancel_each contains
lookup-cancel_each [] j d = refl
lookup-cancel_each (id ∷ ids) j d =
    lookup-cancel_each ids j (drop_one id d) ∙ ground (arith, lookup-drop_one id j d)

cancelled-cancel_each :
    (ids : List ℕ) (j : ℕ) (d : Daemon)
    → contains (cancel_each ids d).cancelled j
      ≡ (contains d.cancelled j || contains ids j && is_some (lookup j d.active))
unfolding cancel_each contains
cancelled-cancel_each [] j d = ground arith
cancelled-cancel_each (id ∷ ids) j d =
    cancelled-cancel_each ids j (drop_one id d) ∙ ground (arith, lookup-remove id j d.active)

contains-denied_ids :
    (test : ActiveStream → Bool) (j : ℕ) (m : List (ℕ × ActiveStream))
    → Distinct m
    → contains (denied_ids test m) j ≡ hits test (lookup j m)
unfolding contains denied_ids lookup
contains-denied_ids test j [] h = refl
contains-denied_ids test j ((id, s) ∷ m) h = ground (arith, contains-denied_ids test j m h.1, h.0)

pub cancel_where-lookup :
    (test : ActiveStream → Bool) (d : Daemon) (j : ℕ)
    → Distinct d.active
    → lookup j (cancel_where test d).0.active ≡ spare test (lookup j d.active)
unfolding cancel_where
cancel_where-lookup test d j h =
    lookup-cancel_each (denied_ids test d.active) j d
    ∙ ground (arith, contains-denied_ids test j d.active h)

pub cancel_where-cancelled :
    (test : ActiveStream → Bool) (d : Daemon) (j : ℕ)
    → Distinct d.active
    → contains (cancel_where test d).0.cancelled j
      ≡ (contains d.cancelled j || hits test (lookup j d.active))
unfolding cancel_where
cancel_where-cancelled test d j h =
    cancelled-cancel_each (denied_ids test d.active) j d
    ∙ ground (arith, contains-denied_ids test j d.active h)

-- Stream ids are distinct and below the next one.
pub record WellFormed (d : Daemon) : Type 0 where
  pub distinct : Distinct d.active
  pub below : All (λ e. e.0 < d.next_stream_id) d.active

remove-All {ℓ} :
    (P : ℕ × ActiveStream → Type ℓ) (id : ℕ) (m : List (ℕ × ActiveStream))
    → All P m
    → All P (remove id m)
unfolding remove
remove-All P id [] h = h
remove-All P id ((j, s) ∷ m) h = ground (arith, remove-All P id m h.1)

-- What holds of the table through removals holds after `cancel_each`.
pub cancel_each-keeps {ℓ} :
    (P : List (ℕ × ActiveStream) → Type ℓ)
    → ((id : ℕ) (m : List (ℕ × ActiveStream)) → P m → P (remove id m))
    → (ids : List ℕ) (d : Daemon) → P d.active
    → P (cancel_each ids d).active
unfolding cancel_each
cancel_each-keeps P keep [] d h = h
cancel_each-keeps P keep (id ∷ ids) d h =
    cancel_each-keeps P keep ids (drop_one id d) (elim (Option-cases (lookup id d.active)) [
      | inl missing ↦ rw (missing, drop_one) h
      | inr (s, found) ↦ rw (found, drop_one) (keep id d.active h)
    ])

config-cancel_each : (ids : List ℕ) (d : Daemon) → (cancel_each ids d).config ≡ d.config
unfolding cancel_each
config-cancel_each [] d = refl
config-cancel_each (id ∷ ids) d = config-cancel_each ids (drop_one id d) ∙ ground arith

pub config-cancel_where :
    (test : ActiveStream → Bool) (d : Daemon) → (cancel_where test d).0.config ≡ d.config
unfolding cancel_where
config-cancel_where test d = config-cancel_each (denied_ids test d.active) d

next_stream_id-cancel_each :
    (ids : List ℕ) (d : Daemon) → (cancel_each ids d).next_stream_id ≡ d.next_stream_id
unfolding cancel_each
next_stream_id-cancel_each [] d = refl
next_stream_id-cancel_each (id ∷ ids) d =
    next_stream_id-cancel_each ids (drop_one id d) ∙ ground arith

pub cancel_where-WellFormed :
    (test : ActiveStream → Bool) (d : Daemon) → WellFormed d → WellFormed (cancel_where test d).0
unfolding cancel_where
cancel_where-WellFormed test d w =
    let ids = denied_ids test d.active in
    record {
      distinct = cancel_each-keeps Distinct remove-Distinct ids d w.distinct;
      below = rw (next_stream_id-cancel_each ids d) (
          cancel_each-keeps (All (λ e. e.0 < d.next_stream_id))
            (λ id m. remove-All (λ e. e.0 < d.next_stream_id) id m) ids d w.below);
    }

pub finish-WellFormed : (id : ℕ) (d : Daemon) → WellFormed d → WellFormed (finish id d)
unfolding finish
finish-WellFormed id d w = record {
  distinct = remove-Distinct id d.active w.distinct;
  below = remove-All (λ e. e.0 < d.next_stream_id) id d.active w.below;
}

All-below : (n : ℕ) (m : List (ℕ × ActiveStream)) → All (λ e. e.0 < n) m → All (λ e. e.0 < n + 1) m
All-below n [] h = h
All-below n (e ∷ m) h = (omega arith, All-below n m h.1)

pub open_stream-WellFormed :
    (a : Authorized) (reachable : Bool) (d : Daemon)
    → d.next_stream_id + 1 < u64_mod
    → WellFormed d
    → WellFormed (open_stream a reachable d).0
unfolding open_stream insert
open_stream-WellFormed a false d room w = w
open_stream-WellFormed a true d room w =
    let n = d.next_stream_id in
    let opened : ActiveStream = record { viewer = a.claims.viewer; resource = a.claims.resource } in
    let next : (n + 1) % u64_mod ≡ n + 1 = omega arith in
    record {
      distinct = insert-Distinct n opened d.active w.distinct;
      below =
          subst (λ k. All (λ e. e.0 < k) (insert n opened d.active)) (sym next)
            (omega arith, remove-All (λ e. e.0 < n + 1) n d.active (All-below n d.active w.below));
    }

pub configure-cases {ℓ} :
    (P : Daemon → Type ℓ) (resources : List HostedService) (d : Daemon)
    → P d
    → P (record d { config = record d.config { resources = resources } })
    → P (configure resources d).0
unfolding configure
configure-cases P resources d same changed =
    elim (Bool-cases (services_eq d.config.resources resources)) [
      | inl e ↦ rw (e, configure) same
      | inr e ↦ rw (e, configure) changed
    ]

-- Every entry of the table keeps what it has through a cancellation.
pub cancel_where-All {ℓ} :
    (P : ℕ × ActiveStream → Type ℓ) (test : ActiveStream → Bool) (d : Daemon)
    → All P d.active
    → All P (cancel_where test d).0.active
unfolding cancel_where
cancel_where-All P test d h =
    cancel_each-keeps (All P) (λ id m. remove-All P id m) (denied_ids test d.active) d h

pub finish-All {ℓ} :
    (P : ℕ × ActiveStream → Type ℓ) (id : ℕ) (d : Daemon)
    → All P d.active
    → All P (finish id d).active
unfolding finish
finish-All P id d h = remove-All P id d.active h

pub open_stream-All {ℓ} :
    (P : ℕ × ActiveStream → Type ℓ) (a : Authorized) (reachable : Bool) (d : Daemon)
    → All P d.active
    → ((id : ℕ) → P (id, record { viewer = a.claims.viewer; resource = a.claims.resource }))
    → All P (open_stream a reachable d).0.active
unfolding open_stream insert
open_stream-All P a false d h p = h
open_stream-All P a true d h p = (p d.next_stream_id, remove-All P d.next_stream_id d.active h)

module _ (ed : Ed25519) (claims_codec : Postcard CapabilityClaims) (wire : Postcard Request) where
  -- Reading and authorizing a request leaves the table alone.
  pub receive_against-table :
      (served : List (ResourceId × SocketAddr)) (stream : Bytes) (peer : KeyBytes) (now : ℕ)
      (d : Daemon)
      → ((receive_against ed claims_codec wire served stream peer now d).0.active ≡ d.active)
        × ((receive_against ed claims_codec wire served stream peer now d).0.next_stream_id
            ≡ d.next_stream_id)
  unfolding receive_against decide_against
  receive_against-table served stream peer now d = elim (Result-cases (read_frame stream)) [
    | inl ((payload, rest), read) ↦ elim (Result-cases (decode wire payload)) [
      | inl (request, decoded) ↦
          rw (read, receive_against)
            (rw (decoded, receive_against) (decide-table request peer now d))
      | inr (x, bad) ↦ rw (read, receive_against) (rw (bad, receive_against) (refl, refl))
    ]
    | inr (x, ended) ↦ rw (ended, receive_against) (refl, refl)
  ]
    where
      decide-table :
          (request : Request) (peer : KeyBytes) (now : ℕ) (d : Daemon)
          → ((decide_against ed claims_codec wire served request peer now d).0.active ≡ d.active)
            × ((decide_against ed claims_codec wire served request peer now d).0.next_stream_id
                ≡ d.next_stream_id)
      decide-table (connect r) peer now d = (refl, refl)
