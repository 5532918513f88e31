-- ===== src/Daemon/Streams/Step.antt =====
-- The daemon's tasks as interleaved steps: crates/devsite-daemon/src/lib.rs. Between the phases of
-- one stream the other streams, the configuration reload and the authorization refresh may run.
use devsite.Prelude.{
  ℕ, ◌+◌, ◌<◌, ◌≡◌, Bool, true, List, [], ◌∷◌, ◌++◌, arith, All, Bytes, All-append,
}
use devsite.Prelude.Words.{u64_mod}
use devsite.Proto.Crypto.{KeyBytes, Ed25519, Postcard}
use devsite.Proto.Capability.{AccountId, ResourceId, CapabilityClaims}
use devsite.Proto.Wire.{Request}
use devsite.Daemon.Verify.{Authorized, SocketAddr}
use devsite.Daemon.Config.{HostedService}
use devsite.Daemon.Streams.{
  ActiveStream, Daemon, permits, configure, drop_unserved, replace_authorizations,
  revoke_all_active, accepted, receive_against, open_stream, finish,
}
use devsite.Daemon.Streams.Table.{
  WellFormed, receive_against-table, open_stream-WellFormed, open_stream-All, finish-WellFormed,
  finish-All, configure-cases, cancel_where-WellFormed, cancel_where-All,
}

-- A daemon, the requests that are authorized and wait for the local service, and the grants of
-- every request that was ever authorized.
pub record World : Type 0 where
  pub daemon : Daemon
  pub pending : List Authorized
  pub granted : List (AccountId × ResourceId)

abbrev grant_of : Authorized → AccountId × ResourceId
grant_of a = (a.claims.viewer, a.claims.resource)

abbrev stream_of : Authorized → ActiveStream
stream_of a = record { viewer = a.claims.viewer; resource = a.claims.resource }

module _ (ed : Ed25519) (claims_codec : Postcard CapabilityClaims) (wire : Postcard Request) where
  pub data Step (w : World) : World → Type 0 where
    -- A request is authorized against the services that the daemon had when it was read, and waits
    -- for the local service.
    admits :
        (served : List (ResourceId × SocketAddr)) (stream : Bytes) (peer : KeyBytes) (now : ℕ)
        (a : Authorized)
        → (receive_against ed claims_codec wire served stream peer now w.daemon).1 ≡ accepted a
        → Step w (record {
          daemon = (receive_against ed claims_codec wire served stream peer now w.daemon).0;
          pending = a ∷ w.pending;
          granted = grant_of a ∷ w.granted;
        })
    -- Any other end of the first phase.
    refuses :
        (served : List (ResourceId × SocketAddr)) (stream : Bytes) (peer : KeyBytes) (now : ℕ)
        → Step w (record w {
          daemon = (receive_against ed claims_codec wire served stream peer now w.daemon).0;
        })
    -- One of the waiting requests learns whether the local service answers. Fewer than 2^64 streams
    -- are ever opened.
    opens :
        (before after : List Authorized) (a : Authorized) (reachable : Bool)
        → w.pending ≡ before ++ (a ∷ after)
        → w.daemon.next_stream_id + 1 < u64_mod
        → Step w
            (record w { daemon = (open_stream a reachable w.daemon).0; pending = before ++ after })
    finishes : (id : ℕ) → Step w (record w { daemon = finish id w.daemon })
    -- The two halves of `replace_resources`, each under its lock.
    configures :
        (resources : List HostedService)
        → Step w (record w { daemon = (configure resources w.daemon).0 })
    drops :
        (resources : List HostedService)
        → Step w (record w { daemon = drop_unserved resources w.daemon })
    refreshes :
        (allowed : List (AccountId × ResourceId))
        → Step w (record w { daemon = (replace_authorizations allowed w.daemon).0 })
    lapses : Step w (record w { daemon = (revoke_all_active w.daemon).0 })

  pub data Reach (w : World) : World → Type 0 where
    here : Reach w w
    next : {u v : World} → Reach w u → Step u v → Reach w v

-- Every open stream and every waiting request goes back to a grant, and stream ids are distinct.
pub record Inv (w : World) : Type 0 where
  pub table : WellFormed w.daemon
  pub traced : All (λ e. permits w.granted e.1 ≡ true) w.daemon.active
  pub waiting : All (λ a. permits w.granted (stream_of a) ≡ true) w.pending

permits-cons :
    (g : AccountId × ResourceId) (gs : List (AccountId × ResourceId)) (s : ActiveStream)
    → permits gs s ≡ true
    → permits (g ∷ gs) s ≡ true
permits-cons g gs s h = ground arith

permits_self :
    (a : Authorized) (gs : List (AccountId × ResourceId))
    → permits (grant_of a ∷ gs) (stream_of a) ≡ true
permits_self a gs = ground arith

All-map {ℓ} :
    {A : Type ℓ} {P Q : A → Type 0} → ((x : A) → P x → Q x) → (xs : List A) → All P xs → All Q xs
All-map f [] h = h
All-map f (x ∷ xs) h = (f x h.0, All-map f xs h.1)

All-before {ℓ} :
    {A : Type ℓ} (P : A → Type 0) (xs ys : List A) → All P (xs ++ ys) → All P xs × All P ys
All-before P [] ys h = (tt, h)
All-before P (x ∷ xs) ys h = let (l, r) = All-before P xs ys h.1 in ((h.0, l), r)

module _ (ed : Ed25519) (claims_codec : Postcard CapabilityClaims) (wire : Postcard Request) where
  -- The table after the first phase of a stream is the table before it.
  received-WellFormed :
      (served : List (ResourceId × SocketAddr)) (stream : Bytes) (peer : KeyBytes) (now : ℕ)
      (d : Daemon)
      → WellFormed d
      → WellFormed (receive_against ed claims_codec wire served stream peer now d).0
  received-WellFormed served stream peer now d w =
      let (same, bound) = receive_against-table ed claims_codec wire served stream peer now d in
      record { distinct = rw same w.distinct; below = rw (same, bound) w.below }

  Step-Inv : {w v : World} → Step ed claims_codec wire w v → Inv w → Inv v
  Step-Inv {w} (admits served stream peer now a e) i =
      let (same, bound) =
        receive_against-table ed claims_codec wire served stream peer now w.daemon in
      record {
        table = received-WellFormed served stream peer now w.daemon i.table;
        traced =
            rw same
              (All-map (λ e. permits-cons (grant_of a) w.granted e.1) w.daemon.active i.traced);
        waiting = (
          permits_self a w.granted,
          All-map (λ b. permits-cons (grant_of a) w.granted (stream_of b)) w.pending i.waiting,
        );
      }
  Step-Inv {w} (refuses served stream peer now) i =
      let (same, bound) =
        receive_against-table ed claims_codec wire served stream peer now w.daemon in
      record {
        table = received-WellFormed served stream peer now w.daemon i.table;
        traced = rw same i.traced;
        waiting = i.waiting;
      }
  Step-Inv {w} (opens before after a reachable e room) i =
      let P = λ (b : Authorized). permits w.granted (stream_of b) ≡ true in
      let (l, r) = All-before P before (a ∷ after) (rw e at i.waiting) in
      record {
        table = open_stream-WellFormed a reachable w.daemon room i.table;
        traced =
            open_stream-All (λ e. permits w.granted e.1 ≡ true) a reachable w.daemon i.traced
              (λ id. r.0);
        waiting = All-append P before after l r.1;
      }
  Step-Inv {w} (finishes id) i = record {
    table = finish-WellFormed id w.daemon i.table;
    traced = finish-All (λ e. permits w.granted e.1 ≡ true) id w.daemon i.traced;
    waiting = i.waiting;
  }
  Step-Inv {w} (configures resources) i = record {
    table =
        configure-cases WellFormed resources w.daemon i.table
          (record { distinct = i.table.distinct; below = i.table.below });
    traced =
        configure-cases (λ d. All (λ e. permits w.granted e.1 ≡ true) d.active) resources w.daemon
          i.traced i.traced;
    waiting = i.waiting;
  }
  Step-Inv {w} (drops resources) i = record {
    table = unfold drop_unserved in cancel_where-WellFormed _ w.daemon i.table;
    traced = unfold drop_unserved in cancel_where-All _ _ w.daemon i.traced;
    waiting = i.waiting;
  }
  Step-Inv {w} (refreshes allowed) i = record {
    table = unfold replace_authorizations in cancel_where-WellFormed _ w.daemon i.table;
    traced = unfold replace_authorizations in cancel_where-All _ _ w.daemon i.traced;
    waiting = i.waiting;
  }
  Step-Inv {w} lapses i = record {
    table = unfold revoke_all_active in cancel_where-WellFormed _ w.daemon i.table;
    traced = unfold revoke_all_active in cancel_where-All _ _ w.daemon i.traced;
    waiting = i.waiting;
  }

  -- Whatever the order of requests, upstream answers, reloads and refreshes, and from any world in
  -- which it holds: stream ids stay distinct and below the next one, and every open stream and
  -- waiting request belongs to a viewer and resource that an authorized request was granted.
  pub Reach-Inv : {w v : World} → Reach ed claims_codec wire w v → Inv w → Inv v
  Reach-Inv here i = i
  Reach-Inv (next r s) i = Step-Inv s (Reach-Inv r i)
