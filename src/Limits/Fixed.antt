-- ===== src/Limits/Fixed.antt =====
-- daemon/src/core/rate-limiter.ts: a counter per key, with a moment at which it starts anew.
pub mod Quota
use kithkit.Base.{
  ℕ, ◌+◌, ◌-◌, String, Bool, true, false, List, [], ◌∷◌, Option, none, some, filter, leb, ltb, not,
  if◌then◌else◌,
}
use kithkit.Base.Dict
use kithkit.Base.Dict.{Dict}

pub record WindowEntry : Type 0 where
  pub count : ℕ
  pub reset_at : ℕ

-- `cleaning` says whether `cleanupTimer` is set.
pub record RateLimiter : Type 0 where
  pub windows : Dict WindowEntry
  pub max_requests : ℕ
  pub window_ms : ℕ
  pub cleaning : Bool

unfoldable pub new : ℕ → ℕ → RateLimiter
new max_requests window_ms = record {
  windows = [];
  max_requests = max_requests;
  window_ms = window_ms;
  cleaning = false;
}

-- An entry whose window still runs.
abbrev pub live : ℕ → Option WindowEntry → Option WindowEntry
live now none = none
live now (some e) = if leb e.reset_at now then none else some e

-- The entry that a request leaves, and whether it is allowed: a new window, or one more in the
-- window that runs.
next_entry : RateLimiter → ℕ → Option WindowEntry → WindowEntry
next_entry l now none = record { count = 1; reset_at = now + l.window_ms }
next_entry l now (some e) = record e { count = e.count + 1 }

verdict : RateLimiter → Option WindowEntry → Bool
verdict l none = true
verdict l (some e) = leb (e.count + 1) l.max_requests

unfoldable pub check : RateLimiter → String → ℕ → RateLimiter × Bool
unfolding next_entry verdict
check l key now =
    let entry = live now (Dict.get key l.windows) in
    (record l { windows = Dict.set key (next_entry l now entry) l.windows }, verdict l entry)

unfoldable pub remaining : RateLimiter → String → ℕ → ℕ
remaining l key now = elim (live now (Dict.get key l.windows)) [
  | none ↦ l.max_requests
  | some e ↦ l.max_requests - e.count
]

-- One round of the cleanup timer.
unfoldable pub cleanup : RateLimiter → ℕ → RateLimiter
cleanup l now = record l { windows = filter (λ e. ltb now e.1.reset_at) l.windows }

pub start_cleanup : RateLimiter → RateLimiter
start_cleanup l = record l { cleaning = true }

pub reload : RateLimiter → ℕ → ℕ → RateLimiter
reload l max_requests window_ms = record l { max_requests = max_requests; window_ms = window_ms }

pub stop : RateLimiter → RateLimiter
stop l = record l { cleaning = false; windows = [] }

-- What happens to a limiter between two configurations: requests and rounds of the timer.
pub data Event : Type 0 where
  request : String → ℕ → Event
  sweep : ℕ → Event

unfoldable pub after : RateLimiter → Event → RateLimiter
after l (request key now) = (check l key now).0
after l (sweep now) = cleanup l now

unfoldable pub run : RateLimiter → List Event → RateLimiter
run l [] = l
run l (e ∷ es) = run (after l e) es

-- The answers to the requests, in order.
unfoldable pub answers : RateLimiter → List Event → List Bool
unfolding after
answers l [] = []
answers l (request key now ∷ es) = (check l key now).1 ∷ answers (check l key now).0 es
answers l (sweep now ∷ es) = answers (cleanup l now) es
