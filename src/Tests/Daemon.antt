-- ===== src/Tests/Daemon.antt =====
-- crates/devsite-daemon/src at concrete inputs.
use devsite.Prelude.{
  ℕ, ◌≡◌, ◌≢◌, refl, ◌↔◌, ◌⊎◌, true, false, some, none, List, [], ◌∷◌, ok, err, text, Bytes, arith,
  list_eq,
}
use devsite.Prelude.Map.{lookup, insert, remove, retain, Distinct}
use devsite.Prelude.Words.{from_le}
use devsite.Samples.{toy_ed25519, claims_codec, wire_codec, sealed, claims_to}
use devsite.Proto.Capability.{SignedCapability, CapabilityClaims, verify, verify_for, check_context}
use devsite.Proto.Wire.{ConnectRequest, connect, decode, read_frame, read_exact, frame_len}
use devsite.Daemon.Verify.{
  SocketAddr, Authorized, ReplayGuard, capability, replayed, new_guard, prune, authorize, resolve,
  redeem, admit,
}
use devsite.Daemon.Verify.Laws.{Justified, authorize-eq-ok_iff, authorize_denied}
use devsite.Daemon.Verify.Replay.{Incoming, answer, guard_after, redeem_once, replay_at_expiry}
use devsite.Daemon.Config.{HostedService, DaemonConfig, shared, targets}
use devsite.Daemon.Streams.{
  ActiveStream, Daemon, permits, serves, replace_resources, replace_authorizations, accepted,
  decide, decide_against, receive, receive_against,
}
use devsite.Daemon.Streams.Laws.{
  lookup-replace_authorizations, lookup-replace_resources, receive-accepted,
}
use devsite.Daemon.Streams.Step.{World, admits, here, next, Inv, Reach-Inv}
use devsite.Tests.Proto.{claims, token, request_frame}

abbrev addr : SocketAddr
addr = record { ip = 2130706433; port = 8080 }

abbrev served : List (ℕ × SocketAddr)
served = (7, addr) ∷ []

abbrev granted : Authorized
granted = record { claims = claims; target = addr }

abbrev other_claims : CapabilityClaims
other_claims = record claims { nonce = 100 }

abbrev other_token : SignedCapability
other_token = record {
  claims = claims_to other_claims;
  signature = sealed 5 (claims_to other_claims);
}

abbrev first : Incoming
first = record { token = token; peer = 21; targets = served; now = 1100 }

abbrev other : Incoming
other = record first { token = other_token; now = 1110 }

abbrev late : Incoming
late = record first { now = 1180 }

authorize-eq-ok_iff_example :
    ((authorize toy_ed25519 claims_codec token 5 11 21 served new_guard 1100).1 ≡ ok granted)
    ↔ Justified toy_ed25519 claims_codec 5 11 21 served token new_guard 1100 granted
authorize-eq-ok_iff_example =
    authorize-eq-ok_iff toy_ed25519 claims_codec 5 11 21 served token new_guard 1100 granted

is_authorized : (answer toy_ed25519 claims_codec 5 11 new_guard first).1 ≡ ok granted
unfolding authorize resolve redeem admit lookup retain verify_for verify check_context list_eq
is_authorized = refl

-- A second use of the token is a replay.
abbrev used : ReplayGuard
used = record { seen = (99, 1180) ∷ (1, 1000) ∷ [] }

is_replayed : (authorize toy_ed25519 claims_codec token 5 11 21 served used 1100).1 ≡ err replayed
unfolding authorize resolve redeem admit lookup retain verify_for verify check_context list_eq
is_replayed = refl

authorize_denied_example :
    ((authorize toy_ed25519 claims_codec token 5 11 21 served used 1100).0 ≡ used)
    ⊎ ((replayed ≡ replayed)
        × ((authorize toy_ed25519 claims_codec token 5 11 21 served used 1100).0.seen
            ≡ prune 1100 used))
authorize_denied_example =
    authorize_denied toy_ed25519 claims_codec 5 11 21 served token used 1100 replayed is_replayed

abbrev other_granted : Authorized
other_granted = record { claims = other_claims; target = addr }

other_authorized :
    (answer toy_ed25519 claims_codec 5 11
      (guard_after toy_ed25519 claims_codec 5 11
        (answer toy_ed25519 claims_codec 5 11 new_guard first).0
        (first ∷ []))
      other).1
    ≡ ok other_granted
unfolding guard_after authorize resolve redeem admit insert remove lookup retain verify_for verify
    check_context list_eq
other_authorized = refl

redeem_once_example : other_claims.nonce ≢ claims.nonce
redeem_once_example =
    redeem_once toy_ed25519 claims_codec 5 11 new_guard first granted (first ∷ []) other
      other_granted is_authorized (omega arith, tt) (omega arith) other_authorized

late_authorized : (answer toy_ed25519 claims_codec 5 11 new_guard late).1 ≡ ok granted
unfolding authorize resolve redeem admit lookup retain verify_for verify check_context list_eq
late_authorized = refl

replay_at_expiry_example :
    (answer toy_ed25519 claims_codec 5 11
      (answer toy_ed25519 claims_codec 5 11 new_guard late).0
      late).1
    ≡ ok granted
replay_at_expiry_example =
    replay_at_expiry toy_ed25519 claims_codec 5 11 new_guard late granted late_authorized refl

abbrev web : HostedService
web = record { resource_id = 7; name = text "web"; target = addr; visibility = shared }

abbrev config : DaemonConfig
config = record {
  server_url = none;
  machine_credential = none;
  control_plane_key = none;
  resources = web ∷ [];
}

abbrev stream_of_3 : ActiveStream
stream_of_3 = record { viewer = 3; resource = 7 }

abbrev stream_of_4 : ActiveStream
stream_of_4 = record { viewer = 4; resource = 7 }

-- Two open streams, of accounts 3 and 4.
abbrev busy : Daemon
busy = record {
  endpoint_key = 11;
  config = config;
  control_plane_key = 5;
  replay = new_guard;
  active = (2, stream_of_4) ∷ (1, stream_of_3) ∷ [];
  next_stream_id = 3;
  cancelled = [];
}

busy-Distinct : Distinct busy.active
unfolding lookup
busy-Distinct = (refl, (refl, tt))

lookup-replace_authorizations_example :
    (lookup 1 (replace_authorizations ((3, 7) ∷ []) busy).0.active ≡ some stream_of_3)
    ↔ ((lookup 1 busy.active ≡ some stream_of_3) × (permits ((3, 7) ∷ []) stream_of_3 ≡ true))
lookup-replace_authorizations_example =
    lookup-replace_authorizations ((3, 7) ∷ []) busy 1 stream_of_3 busy-Distinct

stream_2 : lookup 2 busy.active ≡ some stream_of_4
unfolding lookup
stream_2 = refl

lookup-replace_resources_example :
    (((replace_resources [] busy).1 ≡ true)
      × ((replace_resources [] busy).0.config.resources ≡ [])
      × ((lookup 1 (replace_resources [] busy).0.active ≡ some stream_of_3)
          ↔ ((lookup 1 busy.active ≡ some stream_of_3) × (serves [] 7 ≡ true))))
    ⊎ (((replace_resources [] busy).1 ≡ false)
        × ((replace_resources [] busy).0 ≡ busy)
        × (busy.config.resources ≡ []))
lookup-replace_resources_example = lookup-replace_resources [] busy 1 stream_of_3 busy-Distinct

abbrev idle : Daemon
idle = record busy { active = []; next_stream_id = 1 }

is_received :
    (receive toy_ed25519 claims_codec wire_codec request_frame 21 1100 idle).1 ≡ accepted granted
unfolding receive receive_against decide decide_against read_frame read_exact frame_len from_le
    decode targets authorize resolve redeem admit insert remove lookup retain verify_for verify
    check_context list_eq
is_received = refl

is_received_against :
    (receive_against toy_ed25519 claims_codec wire_codec
      (targets idle.config)
      request_frame
      21
      1100
      idle).1
    ≡ accepted granted
unfolding receive_against decide_against read_frame read_exact frame_len from_le decode targets
    authorize resolve redeem admit insert remove lookup retain verify_for verify check_context
    list_eq
is_received_against = refl

receive-accepted_example :
    (payload : Bytes) × (rest : Bytes) × (request : ConnectRequest) × (read_frame request_frame
      ≡ ok (payload, rest))
    × (decode wire_codec payload ≡ ok (connect request))
    × Justified toy_ed25519 claims_codec 5 11 21
        (targets config)
        request.capability
        new_guard
        1100
        granted
receive-accepted_example =
    receive-accepted toy_ed25519 claims_codec wire_codec request_frame 21 1100 idle granted
      is_received

is_denied :
    (authorize toy_ed25519 claims_codec token 5 11 22 (targets config) new_guard 1100).1
    ≡ err capability
unfolding authorize resolve verify_for verify check_context list_eq
is_denied = refl

abbrev start : World
start = record { daemon = idle; pending = []; granted = [] }

abbrev waiting_world : World
waiting_world = record {
  daemon =
      (receive_against toy_ed25519 claims_codec wire_codec (targets idle.config) request_frame 21
        1100 idle).0;
  pending = granted ∷ [];
  granted = (3, 7) ∷ [];
}

start-Inv : Inv start
start-Inv = record { table = record { distinct = tt; below = tt }; traced = tt; waiting = tt }

Reach-Inv_example : Inv waiting_world
Reach-Inv_example =
    Reach-Inv toy_ed25519 claims_codec wire_codec
      (next here (admits (targets idle.config) request_frame 21 1100 granted is_received_against))
      start-Inv
