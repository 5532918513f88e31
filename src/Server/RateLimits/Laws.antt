-- ===== src/Server/RateLimits/Laws.antt =====
-- What the rate limits allow: crates/devsite-server/src/api.rs.
use devsite.Prelude.{
  ℕ, ◌+◌, ◌≤◌, ◌≡◌, refl, ◌∙◌, ap, inl, inr, Bool, true, false, ◌&&◌, Option, some, none, List, [],
  ◌∷◌, ltb, leb, ◌==◌, if◌then◌else◌, arith, All, Bool-cases,
}
use devsite.Proto.Capability.{AccountId}
use devsite.Server.RateLimits.{
  RateClass, limit, RateWindow, RateEntry, class_eq, class_index, in_window, window_of,
  fresh_entries, put_window, discard, current_window, check,
}

-- One entry to a key.
abbrev pub Distinct : List RateEntry → Type 0
Distinct [] = Unit
Distinct (e ∷ es) = (window_of e.account e.class es ≡ none) × Distinct es

window_of-put_window :
    (a b : AccountId) (c d : RateClass) (w : RateWindow) (es : List RateEntry)
    → window_of b d (put_window a c w es)
      ≡ (if a == b && class_eq c d then some w else window_of b d es)
unfolding window_of put_window
window_of-put_window a b c d w [] = ground arith
window_of-put_window a b c d w (e ∷ es) = ground (arith, window_of-put_window a b c d w es)

put_window-Distinct :
    (a : AccountId) (c : RateClass) (w : RateWindow) (es : List RateEntry)
    → Distinct es
    → Distinct (put_window a c w es)
unfolding put_window window_of
put_window-Distinct a c w [] h = (refl, tt)
put_window-Distinct a c w (e ∷ es) h =
    ground (
      arith,
      put_window-Distinct a c w es h.1,
      window_of-put_window a e.account c e.class w es,
      h.0,
    )

-- A window that is not over is kept, and none comes up behind one that is dropped.
window_of-fresh_entries :
    (now : ℕ) (a : AccountId) (c : RateClass) (es : List RateEntry)
    → Distinct es
    → window_of a c (fresh_entries now es) ≡ elim (window_of a c es) [
      | none ↦ none
      | some w ↦ (if in_window now w then some w else none)
    ]
unfolding window_of fresh_entries
window_of-fresh_entries now a c [] h = refl
window_of-fresh_entries now a c (e ∷ es) h =
    ground (arith, window_of-fresh_entries now a c es h.1, h.0)

fresh_entries-Distinct :
    (now : ℕ) (es : List RateEntry) → Distinct es → Distinct (fresh_entries now es)
unfolding fresh_entries
fresh_entries-Distinct now [] h = h
fresh_entries-Distinct now (e ∷ es) h = ground (
  arith,
  fresh_entries-Distinct now es h.1,
  window_of-fresh_entries now e.account e.class es h.1,
  h.0,
)

pub discard-Distinct : (now : ℕ) (es : List RateEntry) → Distinct es → Distinct (discard now es)
unfolding discard
discard-Distinct now es h = ground (arith, fresh_entries-Distinct now es h)

-- Dropping entries is invisible to the window that a check counts in.
current_window-discard :
    (now : ℕ) (a : AccountId) (c : RateClass) (es : List RateEntry)
    → Distinct es
    → current_window now (window_of a c (discard now es)) ≡ current_window now (window_of a c es)
unfolding discard current_window
current_window-discard now a c es h = ground (arith, window_of-fresh_entries now a c es h)

-- The window that a request at this time falls in, whatever has been discarded.
abbrev pub counted_in : List RateEntry → AccountId → RateClass → ℕ → RateWindow
counted_in es a c now = current_window now (window_of a c es)

-- What `check` does, in terms of the window that the request is counted in.
abbrev verdict : List RateEntry → AccountId → RateClass → RateWindow → List RateEntry × Bool
verdict kept a c w =
    if leb (limit c) w.requests
    then (put_window a c w kept, false)
    else (put_window a c (record w { requests = w.requests + 1 }) kept, true)

check-verdict :
    (es : List RateEntry) (a : AccountId) (c : RateClass) (now : ℕ)
    → Distinct es
    → check es a c now ≡ verdict (discard now es) a c (counted_in es a c now)
unfolding check
check-verdict es a c now h = ap (verdict (discard now es) a c) (current_window-discard now a c es h)

-- The window after one more request.
abbrev pub counted : RateClass → RateWindow → RateWindow
counted c w = if ltb w.requests (limit c) then record w { requests = w.requests + 1 } else w

verdict-allowed :
    (kept : List RateEntry) (a : AccountId) (c : RateClass) (w : RateWindow)
    → (verdict kept a c w).1 ≡ ltb w.requests (limit c)
verdict-allowed kept a c w = ground arith

verdict-entries :
    (kept : List RateEntry) (a : AccountId) (c : RateClass) (w : RateWindow)
    → (verdict kept a c w).0 ≡ put_window a c (counted c w) kept
verdict-entries kept a c w = ground arith

pub check-Distinct :
    (es : List RateEntry) (a : AccountId) (c : RateClass) (now : ℕ)
    → Distinct es
    → Distinct (check es a c now).0
check-Distinct es a c now h = rw (check-verdict es a c now h) (
    rw (verdict-entries (discard now es) a c (counted_in es a c now)) (
      put_window-Distinct a c (counted c (counted_in es a c now)) (discard now es)
        (discard-Distinct now es h)))

window_of-check :
    (es : List RateEntry) (a b : AccountId) (c d : RateClass) (now : ℕ)
    → Distinct es
    → window_of b d (check es a c now).0 ≡ (
        if a == b && class_eq c d
        then some (counted c (counted_in es a c now))
        else window_of b d (discard now es))
window_of-check es a b c d now h =
    ap (λ r. window_of b d r.0) (check-verdict es a c now h)
    ∙ ap (window_of b d) (verdict-entries (discard now es) a c (counted_in es a c now))
    ∙ window_of-put_window a b c d (counted c (counted_in es a c now)) (discard now es)

check-window_of :
    (es : List RateEntry) (a : AccountId) (c : RateClass) (now : ℕ)
    → Distinct es
    → ((check es a c now).1 ≡ ltb (counted_in es a c now).requests (limit c))
      × (window_of a c (check es a c now).0 ≡ some (counted c (counted_in es a c now)))
check-window_of es a c now h = (
  ap (λ r. r.1) (check-verdict es a c now h)
      ∙ verdict-allowed (discard now es) a c (counted_in es a c now),
  window_of-check es a a c c now h ∙ ground arith,
)

-- Counting in a window does not end it.
current_window-counted :
    (now : ℕ) (c d : RateClass) (o : Option RateWindow)
    → current_window now (some (counted c (current_window now o)))
      ≡ counted c (current_window now o)
unfolding current_window
current_window-counted now c d o = ground arith

-- A request is allowed exactly when fewer than the class's limit were counted in its window; it is
-- then counted in that window, and a refused one is not. The windows of other accounts and classes
-- are the same at that time, however many entries are discarded.
pub check_lem :
    (es : List RateEntry) (a b : AccountId) (c d : RateClass) (now : ℕ)
    → Distinct es
    → ((check es a c now).1 ≡ ltb (counted_in es a c now).requests (limit c))
      × (counted_in (check es a c now).0 b d now ≡ (
          if a == b && class_eq c d
          then counted c (counted_in es a c now)
          else counted_in es b d now))
check_lem es a b c d now h = (
  (check-window_of es a c now h).0,
  elim (Bool-cases (a == b && class_eq c d)) [
    | inl own ↦
        ap (current_window now) (window_of-check es a b c d now h ∙ rw own)
        ∙ current_window-counted now c d (window_of a c es)
        ∙ rw own
    | inr other ↦
        ap (current_window now) (window_of-check es a b c d now h ∙ rw other)
        ∙ current_window-discard now b d es h
        ∙ rw other
  ],
)

-- A request to be checked: who, of what class, and when.
pub record Attempt : Type 0 where
  pub account : AccountId
  pub class : RateClass
  pub now : ℕ

abbrev pub concerns : AccountId → RateClass → Attempt → Bool
concerns a c r = r.account == a && class_eq r.class c

-- How many of the attempts for a key are allowed, in a sequence over all accounts.
unfoldable pub allowed : AccountId → RateClass → List RateEntry → List Attempt → ℕ
allowed a c es [] = 0
allowed a c es (r ∷ rs) =
    let (es', passed) = check es r.account r.class r.now in
    let later = allowed a c es' rs in if concerns a c r && passed then later + 1 else later

-- A window that is not over survives a check of another key at that time.
window_of-check_kept :
    (es : List RateEntry) (r : Attempt) (a : AccountId) (c : RateClass) (w : RateWindow)
    → Distinct es
    → concerns a c r ≡ false
    → window_of a c es ≡ some w
    → in_window r.now w ≡ true
    → window_of a c (check es r.account r.class r.now).0 ≡ some w
unfolding discard
window_of-check_kept es r a c w h other found live =
    window_of-check es r.account a r.class c r.now h
    ∙ ground (arith, window_of-fresh_entries r.now a c es h)

class_index-injective : (c d : RateClass) → class_index c ≡ class_index d → c ≡ d
unfolding class_index
class_index-injective c d e = ground arith

-- A check of the key itself, in a window that is not over.
check_own :
    (es : List RateEntry) (a b : AccountId) (c d : RateClass) (now : ℕ) (w : RateWindow)
    → a ≡ b
    → c ≡ d
    → Distinct es
    → window_of b d es ≡ some w
    → in_window now w ≡ true
    → ((check es a c now).1 ≡ ltb w.requests (limit d))
      × (window_of b d (check es a c now).0 ≡ some (counted d w))
unfolding current_window
check_own es a b c d now w ea ec h found live =
    let same : counted_in es b d now ≡ w = rw (found, current_window) (rw live) in
    let (passed, after) = check-window_of es b d now h in
    rw (ea, ec)
      (passed ∙ ap (λ v. ltb v.requests (limit d)) same, after ∙ ap (λ v. some (counted d v)) same)

counted-le-limit :
    (c : RateClass) (w : RateWindow) → w.requests ≤ limit c → (counted c w).requests ≤ limit c
counted-le-limit c w h = ground arith

counted-live :
    (c : RateClass) (w : RateWindow) (rs : List Attempt)
    → All (λ r. in_window r.now w ≡ true) rs
    → All (λ r. in_window r.now (counted c w) ≡ true) rs
counted-live c w [] h = h
counted-live c w (r ∷ rs) h = (ground (arith, h.0), counted-live c w rs h.1)

-- While one window of an account and class lasts, the attempts that are allowed, with those already
-- counted, never exceed the class's limit, whatever is checked in between.
pub allowed-le-limit :
    (a : AccountId) (c : RateClass) (es : List RateEntry) (rs : List Attempt) (w : RateWindow)
    → Distinct es
    → window_of a c es ≡ some w
    → w.requests ≤ limit c
    → All (λ r. in_window r.now w ≡ true) rs
    → allowed a c es rs + w.requests ≤ limit c
unfolding allowed
allowed-le-limit a c es [] w h found room live = omega arith
allowed-le-limit a c es (r ∷ rs) w h found room live =
    let es' = (check es r.account r.class r.now).0 in
    let h' = check-Distinct es r.account r.class r.now h in
    elim (Bool-cases (concerns a c r)) [
      | inl own ↦
          let ea : r.account ≡ a = ground arith in
          let ec : r.class ≡ c = class_index-injective r.class c (ground arith) in
          let (passed, after) = check_own es r.account a r.class c r.now w ea ec h found live.0 in
          let rest =
            allowed-le-limit a c es' rs (counted c w) h' after (counted-le-limit c w room)
              (counted-live c w rs live.1) in
          ground arith
      | inr other ↦
          let rest =
            allowed-le-limit a c es' rs w h' (window_of-check_kept es r a c w h other found live.0)
              room live.1 in
          ground arith
    ]
