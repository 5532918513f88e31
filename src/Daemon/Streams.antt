-- ===== src/Daemon/Streams.antt =====
-- crates/devsite-daemon/src/lib.rs: the streams that a daemon has open. A stream's handler runs in
-- phases with awaits between them, and other tasks run in between: `receive_against` reads one
-- request and authorizes it against the services that were read before, `open_stream` reports the upstream connection and registers the stream, `finish`
-- takes it off the table. Sending on a stream's `cancel` channel is an entry in `cancelled`.
pub mod Table
pub mod Laws
pub mod Step
use devsite.Prelude.{
  ℕ, ◌+◌, ◌%◌, Bool, true, false, not, Option, some, none, List, [], ◌∷◌, ◌++◌, map, Result, ok,
  err, Text, Bytes, text, length, any, ◌==◌, ◌&&◌, if◌then◌else◌,
}
use devsite.Prelude.Map.{lookup, insert, remove}
use devsite.Prelude.Words.{u64_mod}
use devsite.Proto.Crypto.{KeyBytes, Ed25519, Postcard}
use devsite.Proto.Capability.{AccountId, ResourceId, CapabilityClaims}
use devsite.Proto.Wire.{
  Request, connect, Response, connected, error, denied, bad_request, upstream_unavailable,
  ReadError, codec, read_frame, decode,
}
use devsite.Daemon.Verify.{SocketAddr, Authorized, ReplayGuard, new_guard, authorize}
use devsite.Daemon.Config.{HostedService, DaemonConfig, targets, services_eq}

pub record ActiveStream : Type 0 where
  pub viewer : AccountId
  pub resource : ResourceId

pub record Daemon : Type 0 where
  pub endpoint_key : KeyBytes
  pub config : DaemonConfig
  pub control_plane_key : KeyBytes
  pub replay : ReplayGuard
  pub active : List (ℕ × ActiveStream)
  pub next_stream_id : ℕ
  pub cancelled : List ℕ

-- The state with which `bind_builder` ends.
unfoldable pub bind : KeyBytes → DaemonConfig → KeyBytes → Daemon
bind endpoint_key config control_plane_key = record {
  endpoint_key = endpoint_key;
  config = config;
  control_plane_key = control_plane_key;
  replay = new_guard;
  active = [];
  next_stream_id = 1;
  cancelled = [];
}

-- The ids of the streams that the test denies.
unfoldable pub denied_ids : (ActiveStream → Bool) → List (ℕ × ActiveStream) → List ℕ
denied_ids test [] = []
denied_ids test ((id, stream) ∷ m) =
    let rest = denied_ids test m in if test stream then id ∷ rest else rest

-- The loop of `cancel_where`.
unfoldable pub cancel_each : List ℕ → Daemon → Daemon
cancel_each [] d = d
cancel_each (id ∷ ids) d = cancel_each ids (elim (lookup id d.active) [
  | none ↦ d
  | some _ ↦ record d { active = remove id d.active; cancelled = id ∷ d.cancelled }
])

unfoldable pub cancel_where : (ActiveStream → Bool) → Daemon → Daemon × ℕ
cancel_where test d = let ids = denied_ids test d.active in (cancel_each ids d, length ids)

abbrev pub serves : List HostedService → ResourceId → Bool
serves resources id = any (λ r. r.resource_id == id) resources

-- Under the lock of the configuration.
unfoldable pub configure : List HostedService → Daemon → Daemon × Bool
configure resources d =
    if services_eq d.config.resources resources
    then (d, false)
    else (record d { config = record d.config { resources = resources } }, true)

-- Under the lock of the open streams, after that of the configuration was released.
unfoldable pub drop_unserved : List HostedService → Daemon → Daemon
drop_unserved resources d = (cancel_where (λ stream. not (serves resources stream.resource)) d).0

-- Both, when nothing runs in between.
unfoldable pub replace_resources : List HostedService → Daemon → Daemon × Bool
unfolding configure drop_unserved
replace_resources resources d =
    let (configured, changed) = configure resources d in
    if changed then (drop_unserved resources configured, true) else (configured, false)

abbrev pub permits : List (AccountId × ResourceId) → ActiveStream → Bool
permits allowed stream = any (λ pair. pair.0 == stream.viewer && pair.1 == stream.resource) allowed

unfoldable pub replace_authorizations : List (AccountId × ResourceId) → Daemon → Daemon × ℕ
replace_authorizations allowed d = cancel_where (λ stream. not (permits allowed stream)) d

unfoldable pub revoke_all_active : Daemon → Daemon × ℕ
revoke_all_active d = cancel_where (λ _. true) d

-- How the first phase of `handle_stream` ends.
pub data Received : Type 0 where
  failed : ReadError → Received
  respond : Response → Received
  accepted : Authorized → Received

module _ (ed : Ed25519) (claims_codec : Postcard CapabilityClaims) (wire : Postcard Request) where
  -- The request, once it is decoded and `served` has been read from the configuration, under the
  -- lock of the replay guard.
  unfoldable pub decide_against :
      List (ResourceId × SocketAddr) → Request → KeyBytes → ℕ → Daemon → Daemon × Received
  decide_against served (connect request) peer now d =
      let (replay, outcome) =
        authorize ed claims_codec request.capability d.control_plane_key d.endpoint_key peer served
          d.replay now in
      (
        record d { replay = replay },
        elim outcome [
          | ok authorized ↦ accepted authorized
          | err _ ↦ respond (error denied (text "denied"))
        ],
      )

  unfoldable pub receive_against :
      List (ResourceId × SocketAddr) → Bytes → KeyBytes → ℕ → Daemon → Daemon × Received
  receive_against served stream peer now d = elim (read_frame stream) [
    | err e ↦ (d, failed e)
    | ok (payload, _) ↦ elim (decode wire payload) [
      | err _ ↦ (d, respond (error bad_request (text "malformed request")))
      | ok request ↦ decide_against served request peer now d
    ]
  ]

  -- Both, when nothing runs between the locks.
  unfoldable pub decide : Request → KeyBytes → ℕ → Daemon → Daemon × Received
  unfolding decide_against
  decide request peer now d = decide_against (targets d.config) request peer now d

  unfoldable pub receive : Bytes → KeyBytes → ℕ → Daemon → Daemon × Received
  unfolding receive_against
  receive stream peer now d = receive_against (targets d.config) stream peer now d

-- The second phase, after the attempt to reach the local service.
unfoldable pub open_stream : Authorized → Bool → Daemon → Daemon × Response
open_stream a false d =
    (d, error upstream_unavailable (text "local service did not accept a connection"))
open_stream a true d = (
  record d {
    active =
        insert d.next_stream_id (record { viewer = a.claims.viewer; resource = a.claims.resource })
          d.active;
    next_stream_id = (d.next_stream_id + 1) % u64_mod;
  },
  connected,
)

-- The end of `handle_stream`.
unfoldable pub finish : ℕ → Daemon → Daemon
finish id d = record d { active = remove id d.active }
