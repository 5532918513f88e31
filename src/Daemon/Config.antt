-- ===== src/Daemon/Config.antt =====
-- crates/devsite-daemon/src/config.rs: the resources that a daemon serves. Files, locks and JSON are
-- not modelled.
use devsite.Prelude.{
  ℕ, ◌≡◌, refl, Bool, true, false, ◌&&◌, Option, some, none, List, [], ◌∷◌, Text, list_eq, ◌==◌,
  arith, list_eq_iff, ap, ◌∙◌, if◌then◌else◌,
}
use devsite.Prelude.Map.{lookup, insert, lookup-insert}
use devsite.Prelude.{Result, ◌>>=◌, ◌>>◌, ensure, ok_or, length, Bytes}
use devsite.Proto.Crypto.{KeyBytes, Encoding}
use devsite.Proto.Capability.{ResourceId}
use devsite.Daemon.Verify.{SocketAddr}

pub data Visibility : Type 0 where
  public private shared : Visibility

pub record HostedService : Type 0 where
  pub resource_id : ResourceId
  pub name : Text
  pub target : SocketAddr
  pub visibility : Visibility

pub record DaemonConfig : Type 0 where
  pub server_url : Option Text
  pub machine_credential : Option Text
  pub control_plane_key : Option Text
  pub resources : List HostedService

pub data KeyError : Type 0 where
  not_pinned bad_hex bad_size bad_key : KeyError

-- `from_bytes` is `VerifyingKey::from_bytes`, which refuses what is no point of the curve.
unfoldable pub verifying_key :
    Encoding → (Bytes → Option KeyBytes) → DaemonConfig → Result KeyError KeyBytes
verifying_key hexlower_permissive from_bytes config = do
  hex ← ok_or config.control_plane_key not_pinned
  raw ← ok_or (hexlower_permissive.decode hex) bad_hex
  ensure (length raw == 32) bad_size
  ok_or (from_bytes raw) bad_key

-- `iter().map(…).collect()` into a map: a later entry replaces an earlier one of the same key.
collect_targets : List (ℕ × SocketAddr) → List HostedService → List (ℕ × SocketAddr)
collect_targets m [] = m
collect_targets m (r ∷ rs) = collect_targets (insert r.resource_id r.target m) rs

unfoldable pub targets : DaemonConfig → List (ResourceId × SocketAddr)
unfolding collect_targets
targets config = collect_targets [] config.resources

abbrev visibility_eq : Visibility → Visibility → Bool
visibility_eq public public = true
visibility_eq private private = true
visibility_eq shared shared = true
visibility_eq _ _ = false

-- `==` of two services, and of two lists of them.
unfoldable pub service_eq : HostedService → HostedService → Bool
service_eq a b =
    a.resource_id == b.resource_id
    && list_eq a.name b.name
    && a.target.ip == b.target.ip
    && a.target.port == b.target.port
    && visibility_eq a.visibility b.visibility

unfoldable pub services_eq : List HostedService → List HostedService → Bool
unfolding service_eq
services_eq [] [] = true
services_eq (a ∷ as') (b ∷ bs) = service_eq a b && services_eq as' bs
services_eq _ _ = false

service_eq-eq : (a b : HostedService) → service_eq a b ≡ true → a ≡ b
unfolding service_eq
service_eq-eq a b e = ground (arith, list_eq_iff a.name b.name)

pub services_eq-eq : (xs ys : List HostedService) → services_eq xs ys ≡ true → xs ≡ ys
unfolding services_eq
services_eq-eq [] [] e = refl
services_eq-eq (x ∷ xs) (y ∷ ys) e = ground (arith, service_eq-eq x y, services_eq-eq xs ys)
services_eq-eq [] (y ∷ ys) e = cc
services_eq-eq (x ∷ xs) [] e = cc

-- The last service configured with an id, which is the one that the target map keeps.
abbrev pub last_target : ℕ → List HostedService → Option SocketAddr → Option SocketAddr
last_target id [] found = found
last_target id (r ∷ rs) found =
    last_target id rs (if r.resource_id == id then some r.target else found)

lookup-collect_targets :
    (id : ℕ) (m : List (ℕ × SocketAddr)) (rs : List HostedService)
    → lookup id (collect_targets m rs) ≡ last_target id rs (lookup id m)
unfolding collect_targets
lookup-collect_targets id m [] = refl
lookup-collect_targets id m (r ∷ rs) =
    lookup-collect_targets id (insert r.resource_id r.target m) rs
    ∙ ap (last_target id rs) (lookup-insert r.resource_id id r.target m)

-- A capability's resource is resolved to the target of the last service configured with that id,
-- and to nothing where no service has it.
pub lookup-targets :
    (config : DaemonConfig) (id : ResourceId)
    → lookup id (targets config) ≡ last_target id config.resources none
unfolding targets lookup
lookup-targets config id = lookup-collect_targets id [] config.resources
