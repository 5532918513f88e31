-- ===== src/Server/RateLimits.antt =====
-- crates/devsite-server/src/api.rs: fixed-window rate limits per account and class.
pub mod Laws
use devsite.Prelude.{
  ℕ, ◌+◌, ◌*◌, ◌-◌, Bool, true, false, ◌&&◌, Option, some, none, List, [], ◌∷◌, ltb, leb, ◌==◌,
  length, if◌then◌else◌,
}
use devsite.Proto.Capability.{AccountId}

pub data RateClass : Type 0 where
  session mutation credential capability : RateClass

unfoldable pub limit : RateClass → ℕ
limit session = 12
limit mutation = 120
limit credential = 20
limit capability = 300

pub record RateWindow : Type 0 where
  pub started_at : ℕ
  pub requests : ℕ

abbrev pub window_secs : ℕ
window_secs = 60

-- The windows, keyed by account and class.
pub record RateEntry : Type 0 where
  pub account : AccountId
  pub class : RateClass
  pub window : RateWindow

-- The discriminant that the derived `PartialEq` compares.
unfoldable pub class_index : RateClass → ℕ
class_index session = 0
class_index mutation = 1
class_index credential = 2
class_index capability = 3

abbrev pub class_eq : RateClass → RateClass → Bool
class_eq c d = class_index c == class_index d

abbrev pub has_key : AccountId → RateClass → RateEntry → Bool
has_key account class e = e.account == account && class_eq e.class class

-- `now.saturating_sub(started_at) < WINDOW_SECS`.
abbrev pub in_window : ℕ → RateWindow → Bool
in_window now w = ltb (now - w.started_at) window_secs

unfoldable pub window_of : AccountId → RateClass → List RateEntry → Option RateWindow
window_of account class [] = none
window_of account class (e ∷ es) =
    if has_key account class e then some e.window else window_of account class es

-- The retained entries.
unfoldable pub fresh_entries : ℕ → List RateEntry → List RateEntry
fresh_entries now [] = []
fresh_entries now (e ∷ es) =
    let rest = fresh_entries now es in if in_window now e.window then e ∷ rest else rest

-- Write an entry back through the `&mut` that `entry` returned.
unfoldable pub put_window : AccountId → RateClass → RateWindow → List RateEntry → List RateEntry
put_window account class w [] = record { account = account; class = class; window = w } ∷ []
put_window account class w (e ∷ es) =
    let rest = put_window account class w es in
    if has_key account class e then record e { window = w } ∷ es else e ∷ rest

unfoldable pub discard : ℕ → List RateEntry → List RateEntry
discard now windows = if ltb 4096 (length windows) then fresh_entries now windows else windows

-- `or_insert`, and the reset of a window that is over.
unfoldable pub current_window : ℕ → Option RateWindow → RateWindow
current_window now none = record { started_at = now; requests = 0 }
current_window now (some w) =
    if in_window now w then w else record { started_at = now; requests = 0 }

unfoldable pub check : List RateEntry → AccountId → RateClass → ℕ → List RateEntry × Bool
check windows account class now =
    let kept = discard now windows in
    let w = current_window now (window_of account class kept) in
    if leb (limit class) w.requests
    then (put_window account class w kept, false)
    else (put_window account class (record w { requests = w.requests + 1 }) kept, true)
