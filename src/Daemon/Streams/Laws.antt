-- ===== src/Daemon/Streams/Laws.antt =====
-- Revocation and the answers to a peer: crates/devsite-daemon/src/lib.rs.
use devsite.Prelude.{
  ℕ, ◌≡◌, refl, ◌↔◌, ◌⊎◌, ap, true, false, not, some, none, List, arith, contains, text, Bytes, ok,
  err, Bool-cases, inl, inr, Result-cases,
}
use devsite.Prelude.Map.{lookup, Distinct}
use devsite.Proto.Crypto.{KeyBytes, Ed25519, Postcard}
use devsite.Proto.Capability.{AccountId, ResourceId, CapabilityClaims}
use devsite.Proto.Wire.{Request, connect, error, denied, read_frame, decode, ConnectRequest}
use devsite.Daemon.Verify.{Authorized, Denied, authorize}
use devsite.Daemon.Verify.Laws.{Justified, authorize-eq-ok_iff}
use devsite.Daemon.Config.{HostedService, targets, services_eq, services_eq-eq}
use devsite.Daemon.Streams.{
  ActiveStream, Daemon, cancel_where, serves, permits, replace_resources, configure, drop_unserved,
  receive_against, decide_against, replace_authorizations, revoke_all_active, accepted, respond,
  decide, receive,
}
use devsite.Daemon.Streams.Table.{cancel_where-lookup, cancel_where-cancelled, config-cancel_where}

-- After a new authorization snapshot the open streams are exactly those open streams whose viewer
-- and resource are in the snapshot, under their ids.
pub lookup-replace_authorizations :
    (allowed : List (AccountId × ResourceId)) (d : Daemon) (id : ℕ) (s : ActiveStream)
    → Distinct d.active
    → (lookup id (replace_authorizations allowed d).0.active ≡ some s)
      ↔ ((lookup id d.active ≡ some s) × (permits allowed s ≡ true))
unfolding replace_authorizations
lookup-replace_authorizations allowed d id s h =
    let left = cancel_where-lookup (λ stream. not (permits allowed stream)) d id h in ground arith

-- A new authorization snapshot cancels every open stream that it does not cover.
pub replace_authorizations-cancelled :
    (allowed : List (AccountId × ResourceId)) (d : Daemon) (id : ℕ) (s : ActiveStream)
    → Distinct d.active
    → lookup id d.active ≡ some s
    → permits allowed s ≡ false
    → contains (replace_authorizations allowed d).0.cancelled id ≡ true
unfolding replace_authorizations
replace_authorizations-cancelled allowed d id s h found gone =
    let sent = cancel_where-cancelled (λ stream. not (permits allowed stream)) d id h in
    ground arith

-- When the authorization lease goes stale no stream stays open, and one that was open was sent a
-- cancel.
pub lookup-revoke_all_active :
    (d : Daemon) (id : ℕ) (s : ActiveStream)
    → Distinct d.active
    → lookup id d.active ≡ some s
    → (lookup id (revoke_all_active d).0.active ≡ none)
      × (contains (revoke_all_active d).0.cancelled id ≡ true)
unfolding revoke_all_active
lookup-revoke_all_active d id s h found =
    let left = cancel_where-lookup (λ _. true) d id h in
    let sent = cancel_where-cancelled (λ _. true) d id h in (ground arith, ground arith)

reloaded :
    (resources : List HostedService) (d : Daemon)
    → services_eq d.config.resources resources ≡ false
    → replace_resources resources d ≡ (
      (cancel_where
          (λ stream. not (serves resources stream.resource))
          (record d { config = record d.config { resources = resources } })).0,
      true,
    )
unfolding replace_resources configure drop_unserved
reloaded resources d e = rw e

-- A reload of the resources that reports a change leaves open exactly the open streams of resources
-- that are still served, and the daemon resolves by the new list. One that reports none has
-- changed nothing, and the list was the configured one.
pub lookup-replace_resources :
    (resources : List HostedService) (d : Daemon) (id : ℕ) (s : ActiveStream)
    → Distinct d.active
    → (((replace_resources resources d).1 ≡ true)
        × ((replace_resources resources d).0.config.resources ≡ resources)
        × ((lookup id (replace_resources resources d).0.active ≡ some s)
            ↔ ((lookup id d.active ≡ some s) × (serves resources s.resource ≡ true))))
      ⊎ (((replace_resources resources d).1 ≡ false)
          × ((replace_resources resources d).0 ≡ d)
          × (d.config.resources ≡ resources))
lookup-replace_resources resources d id s h =
    elim (Bool-cases (services_eq d.config.resources resources)) [
      | inl same ↦ inr (
        unfold replace_resources configure in rw same,
        unfold replace_resources configure in rw same,
        services_eq-eq _ _ same,
      )
      | inr changed ↦
          let test = λ (stream : ActiveStream). not (serves resources stream.resource) in
          let d' : Daemon = record d { config = record d.config { resources = resources } } in
          let left = cancel_where-lookup test d' id h in
          let kept = config-cancel_where test d' in
          rw (reloaded resources d changed) (inl (refl, ap (λ c. c.resources) kept, ground arith))
    ]

module _ (ed : Ed25519) (claims_codec : Postcard CapabilityClaims) (wire : Postcard Request) where
  decide-accepted :
      (request : ConnectRequest) (peer : KeyBytes) (now : ℕ) (d : Daemon) (a : Authorized)
      → (decide ed claims_codec wire (connect request) peer now d).1 ≡ accepted a
      → Justified ed claims_codec d.control_plane_key d.endpoint_key peer
          (targets d.config)
          request.capability
          d.replay
          now
          a
  unfolding decide decide_against
  decide-accepted request peer now d a e =
      (authorize-eq-ok_iff ed claims_codec d.control_plane_key d.endpoint_key peer
          (targets d.config) request.capability d.replay now a).0
        (ground arith)

  receive-decoded :
      (stream payload rest : Bytes) (request : Request) (peer : KeyBytes) (now : ℕ) (d : Daemon)
      → read_frame stream ≡ ok (payload, rest)
      → decode wire payload ≡ ok request
      → receive ed claims_codec wire stream peer now d
        ≡ decide ed claims_codec wire request peer now d
  unfolding receive receive_against decide
  receive-decoded stream payload rest request peer now d read decoded =
      rw (read, receive_against) (rw (decoded, receive_against) refl)

  -- A frame that is taken up was read and decoded.
  receive-frame :
      (stream : Bytes) (peer : KeyBytes) (now : ℕ) (d : Daemon) (a : Authorized)
      → (receive ed claims_codec wire stream peer now d).1 ≡ accepted a
      → (payload : Bytes) × (rest : Bytes) × (request : Request) × (read_frame stream
          ≡ ok (payload, rest))
        × (decode wire payload ≡ ok request)
  unfolding receive receive_against decide
  receive-frame stream peer now d a e = elim (Result-cases (read_frame stream)) [
    | inl ((payload, rest), read) ↦ elim (Result-cases (decode wire payload)) [
      | inl (request, decoded) ↦ (payload, rest, request, read, decoded)
      | inr (x, bad) ↦ absurd (ground arith)
    ]
    | inr (x, ended) ↦ absurd (ground arith)
  ]

  -- The daemon takes up a stream only when its first frame decodes to a connect request whose
  -- capability is justified for this daemon, the authenticated peer, the configured resources and
  -- the nonces seen so far.
  pub receive-accepted :
      (stream : Bytes) (peer : KeyBytes) (now : ℕ) (d : Daemon) (a : Authorized)
      → (receive ed claims_codec wire stream peer now d).1 ≡ accepted a
      → (payload : Bytes) × (rest : Bytes) × (request : ConnectRequest) × (read_frame stream
          ≡ ok (payload, rest))
        × (decode wire payload ≡ ok (connect request))
        × Justified ed claims_codec d.control_plane_key d.endpoint_key peer
            (targets d.config)
            request.capability
            d.replay
            now
            a
  receive-accepted stream peer now d a e =
      let (payload, rest, request, read, decoded) = receive-frame stream peer now d a e in
      go payload rest request read decoded
    where
      go :
          (payload rest : Bytes) (request : Request)
          → read_frame stream ≡ ok (payload, rest)
          → decode wire payload ≡ ok request
          → (payload : Bytes) × (rest : Bytes) × (request : ConnectRequest) × (read_frame stream
              ≡ ok (payload, rest))
            × (decode wire payload ≡ ok (connect request))
            × Justified ed claims_codec d.control_plane_key d.endpoint_key peer
                (targets d.config)
                request.capability
                d.replay
                now
                a
      go payload rest (connect request) read decoded = (
        payload,
        rest,
        request,
        read,
        decoded,
        decide-accepted request peer now d a (
            rw (receive-decoded stream payload rest (connect request) peer now d read decoded) at
              e),
      )

  -- A peer whose request is denied is told the same thing whatever the reason was.
  pub decide_denied :
      (request : ConnectRequest) (peer : KeyBytes) (now : ℕ) (d : Daemon) (reason : Denied)
      → (authorize ed claims_codec request.capability d.control_plane_key d.endpoint_key peer
          (targets d.config)
          d.replay
          now).1
        ≡ err reason
      → (decide ed claims_codec wire (connect request) peer now d).1
        ≡ respond (error denied (text "denied"))
  unfolding decide decide_against
  decide_denied request peer now d reason e = ground arith
