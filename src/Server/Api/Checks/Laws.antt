-- ===== src/Server/Api/Checks/Laws.antt =====
-- What the checks of crates/devsite-server/src/api.rs let through.
use mathlib.Core.Path.{subst}
use devsite.Prelude.{
  ℕ, ◌≡◌, ◌≢◌, ◌≤◌, ◌+◌, refl, sym, true, false, not, Bool, some, none, List, [], ◌∷◌, ◌++◌, ok,
  Text, length, length-append, contains, any, arith, >>=-eq-ok, ensure, ok_or, map_err, ok_or-eq-ok,
  ok-injective, Bool-cases, inl, inr, ensure-eq-ok, ltb, ◌||◌, all, find, ◌==◌, if◌then◌else◌,
}
use devsite.Proto.Capability.{AccountId}
use devsite.Server.Auth.{validate_handle}
use devsite.Server.Env.{Env}
use devsite.Server.Db.Rows.{Db, AccountRow, has_account}
use devsite.Server.Db.Accounts.{Account, account_by_handle, same_handle}
use devsite.Server.Api.{invalid_request}
use devsite.Server.Api.Checks.{
  escape_char, escape_html, resolve_share, resolve_each, resolve_share_accounts, max_shares,
}

-- No character that opens or closes a tag or ends a quoted attribute.
abbrev pub is_inert : ℕ → Bool
is_inert c = not (c == b'<' || c == b'>' || c == b'"' || c == b'\'')

all-append :
    (p : ℕ → Bool) (xs ys : Text) → all p xs ≡ true → all p ys ≡ true → all p (xs ++ ys) ≡ true
all-append p [] ys h k = k
all-append p (x ∷ xs) ys h k = ground (arith, all-append p xs ys)

escape_char_inert : (c : ℕ) → all is_inert (escape_char c) ≡ true
unfolding escape_char
escape_char_inert c = ground arith

-- Escaped text holds no character that opens a tag, closes one or ends a quoted attribute.
pub escape_html_inert : (t : Text) → all is_inert (escape_html t) ≡ true
unfolding escape_html
escape_html_inert [] = refl
escape_html_inert (c ∷ cs) =
    all-append is_inert (escape_char c) (escape_html cs) (escape_char_inert c)
      (escape_html_inert cs)

-- Accounts that stand in a list once each, exist, and are others than the owner.
abbrev pub AreRecipients : Db → AccountId → List AccountId → Type 0
AreRecipients db owner [] = Unit
AreRecipients db owner (v ∷ vs) =
    (v ≢ owner)
    × (has_account v db.accounts ≡ true)
    × (contains vs v ≡ false)
    × AreRecipients db owner vs

contains-snoc :
    (vs : List AccountId) (v w : AccountId)
    → contains (vs ++ (v ∷ [])) w ≡ (contains vs w || v == w)
unfolding contains
contains-snoc [] v w = ground arith
contains-snoc (u ∷ vs) v w = ground (arith, contains-snoc vs v w)

AreRecipients-snoc :
    (db : Db) (owner : AccountId) (vs : List AccountId) (v : AccountId)
    → AreRecipients db owner vs
    → v ≢ owner
    → has_account v db.accounts ≡ true
    → contains vs v ≡ false
    → AreRecipients db owner (vs ++ (v ∷ []))
unfolding contains
AreRecipients-snoc db owner [] v h other here new = (other, here, refl, tt)
AreRecipients-snoc db owner (u ∷ vs) v h other here new = (
  h.0,
  h.1,
  ground (arith, contains-snoc vs v u, h.2),
  AreRecipients-snoc db owner vs v h.3 other here (ground arith),
)

add_AreRecipients :
    (db : Db) (owner : AccountId) (vs ws : List AccountId) (v : AccountId)
    → AreRecipients db owner vs
    → v ≢ owner
    → has_account v db.accounts ≡ true
    → (if contains vs v then vs else vs ++ (v ∷ [])) ≡ ws
    → AreRecipients db owner ws × (length ws ≤ length vs + 1)
add_AreRecipients db owner vs ws v h other here e = elim (Bool-cases (contains vs v)) [
  | inl old ↦
      let same : vs ≡ ws = rw old at e in
      (subst (AreRecipients db owner) same h, rw (sym same) (omega arith))
  | inr new ↦
      let same : vs ++ (v ∷ []) ≡ ws = rw new at e in
      (
        subst (AreRecipients db owner) same (AreRecipients-snoc db owner vs v h other here new),
        rw (sym same) (omega (arith, length-append vs (v ∷ []))),
      )
]

account_by_handle-has_account :
    (handle : Text) (db : Db) (a : Account)
    → account_by_handle handle db ≡ some a
    → has_account a.id db.accounts ≡ true
unfolding account_by_handle has_account
account_by_handle-has_account handle db a e = found db.accounts e
  where
    found :
        (rows : List AccountRow)
        → elim (find (λ r. same_handle handle r.handle) rows) [
          | none ↦ none
          | some r ↦ some (record { id = r.id; handle = some handle })
        ]
          ≡ some a
        → any (λ r. r.id == a.id) rows ≡ true
    found [] e = cc
    found (r ∷ rows) e = ground (arith, found rows)

module _ (env : Env) where
  resolve_share-AreRecipients :
      (db : Db) (owner : AccountId) (t : Text) (vs ws : List AccountId)
      → AreRecipients db owner vs
      → resolve_share env db owner t vs ≡ ok ws
      → AreRecipients db owner ws × (length ws ≤ length vs + 1)
  unfolding resolve_share
  resolve_share-AreRecipients db owner t vs ws h e =
      let (handle, _, e1) =
        >>=-eq-ok (map_err (validate_handle env.unicode.is_whitespace t) invalid_request) _ e in
      let (viewer, found, e2) =
        >>=-eq-ok (ok_or (account_by_handle handle db) invalid_request) _ e1 in
      let (_, tested, e3) = >>=-eq-ok (ensure (not (viewer.id == owner)) invalid_request) _ e2 in
      let here = account_by_handle-has_account handle db viewer (ok_or-eq-ok _ _ found) in
      let other = ensure-eq-ok (not (viewer.id == owner)) invalid_request tested in
      add_AreRecipients db owner vs ws viewer.id h (ground arith) here (ok-injective e3)

  resolve_each-AreRecipients :
      (db : Db) (owner : AccountId) (ts : List Text) (vs ws : List AccountId)
      → AreRecipients db owner vs
      → resolve_each env db owner ts vs ≡ ok ws
      → AreRecipients db owner ws × (length ws ≤ length vs + length ts)
  unfolding resolve_each
  resolve_each-AreRecipients db owner [] vs ws h e =
      let same = ok-injective e in
      (subst (AreRecipients db owner) same h, rw (sym same) (omega arith))
  resolve_each-AreRecipients db owner (t ∷ ts) vs ws h e =
      let (us, first, e1) = >>=-eq-ok (resolve_share env db owner t vs) _ e in
      let (k, m) = resolve_share-AreRecipients db owner t vs us h first in
      let (l, n) = resolve_each-AreRecipients db owner ts us ws k e1 in (l, omega (arith, m, n))

  -- A share list resolves to at most 25 different accounts, none of them the owner and all of them
  -- there.
  pub resolve_share_accounts-AreRecipients :
      (db : Db) (owner : AccountId) (handles : List Text) (viewers : List AccountId)
      → resolve_share_accounts env db owner handles ≡ ok viewers
      → AreRecipients db owner viewers × (length viewers ≤ max_shares)
  unfolding resolve_share_accounts
  resolve_share_accounts-AreRecipients db owner handles viewers e =
      let (_, few, e1) =
        >>=-eq-ok (ensure (not (ltb max_shares (length handles))) invalid_request) _ e in
      let bound = ensure-eq-ok (not (ltb max_shares (length handles))) invalid_request few in
      let (l, n) = resolve_each-AreRecipients db owner handles [] viewers tt e1 in (l, ground arith)
