-- ===== src/Server/Policy.antt =====
-- crates/devsite-server/src/policy.rs: who may see what.
use devsite.Prelude.{
  ◌≡◌, refl, ◌↔◌, Bool, true, false, ◌||◌, Option, some, none, List, ◌==◌, arith, Text, text,
  list_eq, if◌then◌else◌, contains, ==_refl,
}
use native.Mathlib.Decide.{ℕ_discrete}
use devsite.Proto.Capability.{AccountId}

pub data Visibility : Type 0 where
  public private shared : Visibility

unfoldable pub as_str : Visibility → Text
as_str public = text "public"
as_str private = text "private"
as_str shared = text "shared"

unfoldable pub parse : Text → Option Visibility
unfolding list_eq
parse t =
    if list_eq t (text "public")
    then some public
    else if list_eq t (text "private")
    then some private
    else if list_eq t (text "shared")
    then some shared
    else none

-- `viewer == Some(owner)`.
abbrev pub is_owner : Option AccountId → AccountId → Bool
is_owner none owner = false
is_owner (some v) owner = v == owner

abbrev pub is_named : Option AccountId → List AccountId → Bool
is_named none shared_with = false
is_named (some v) shared_with = contains shared_with v

unfoldable pub can_view : Option AccountId → AccountId → Visibility → List AccountId → Bool
can_view viewer owner public shared_with = true
can_view viewer owner private shared_with = is_owner viewer owner
can_view viewer owner shared shared_with = is_owner viewer owner || is_named viewer shared_with

-- Who may see a resource, as rules.
pub data MayView (owner : AccountId) (shared_with : List AccountId)
    : Option AccountId → Visibility → Type 0 where
  everyone : {viewer : Option AccountId} → MayView owner shared_with viewer public
  the_owner :
      {viewer : Option AccountId} {v : Visibility}
      → viewer ≡ some owner
      → MayView owner shared_with viewer v
  a_recipient :
      {viewer : Option AccountId} (account : AccountId)
      → viewer ≡ some account
      → contains shared_with account ≡ true
      → MayView owner shared_with viewer shared

can_view_sound :
    (viewer : Option AccountId) (owner : AccountId) (v : Visibility) (shared_with : List AccountId)
    → can_view viewer owner v shared_with ≡ true
    → MayView owner shared_with viewer v
unfolding can_view
can_view_sound viewer owner public shared_with e = everyone
can_view_sound none owner private shared_with e = cc
can_view_sound (some a) owner private shared_with e = the_owner (ground arith)
can_view_sound none owner shared shared_with e = cc
can_view_sound (some a) owner shared shared_with e = elim (ℕ_discrete a owner) [
  | yes same ↦ the_owner (ground arith)
  | no other ↦ a_recipient a refl (ground arith)
]

can_view_complete :
    (viewer : Option AccountId) (owner : AccountId) (v : Visibility) (shared_with : List AccountId)
    → MayView owner shared_with viewer v
    → can_view viewer owner v shared_with ≡ true
unfolding can_view
can_view_complete viewer owner v shared_with everyone = refl
can_view_complete viewer owner public shared_with (the_owner e) = refl
can_view_complete viewer owner private shared_with (the_owner e) = rw e (==_refl owner)
can_view_complete viewer owner shared shared_with (the_owner e) = rw e (ground arith)
can_view_complete viewer owner v shared_with (a_recipient account e named) = rw e (ground arith)

-- A resource is visible exactly when it is public, or the viewer is signed in as its owner, or it
-- is shared and the viewer is signed in as an account that it is shared with.
pub can_view_iff :
    (viewer : Option AccountId) (owner : AccountId) (v : Visibility) (shared_with : List AccountId)
    → (can_view viewer owner v shared_with ≡ true) ↔ MayView owner shared_with viewer v
can_view_iff viewer owner v shared_with =
    (can_view_sound viewer owner v shared_with, can_view_complete viewer owner v shared_with)

-- Visibility as stored text parses back.
pub parse-as_str : (v : Visibility) → parse (as_str v) ≡ some v
unfolding parse as_str
parse-as_str public = refl
parse-as_str private = refl
parse-as_str shared = refl
