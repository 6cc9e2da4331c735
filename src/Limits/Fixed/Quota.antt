-- ===== src/Limits/Fixed/Quota.antt =====
-- How many requests of one key are allowed.
use kithkit.Base.{
  ℕ, ◌+◌, ◌-◌, ◌<◌, min, String, true, false, List, [], ◌∷◌, none, some, leb, ltb, if◌then◌else◌,
  str_eq, eq_iff, eq_refl, inl, inr, ◌&&◌, Bool-cases, ◌∙◌, ◌≡◌, ◌↔◌, refl, arith, All,
}
use kithkit.Base.Dict
use kithkit.Base.Dict.{get-set, Dict, Distinct, set-Distinct, filter-Distinct, get-filter}
use kithkit.Limits.Fixed.{
  new, RateLimiter, live, check, remaining, cleanup, Event, request, sweep, after, run,
}

-- `remaining` foretells `check`, if the limit is not 0.
pub check-remaining_iff :
    (l : RateLimiter) (key : String) (now : ℕ)
    → 0 < l.max_requests
    → ((check l key now).1 ≡ true) ↔ (0 < remaining l key now)
unfolding check remaining
check-remaining_iff l key now h = (λ e. ground arith, λ e. ground arith)

-- With the limit 0 the first request of each window still passes, though `remaining` says 0.
pub zero_limit_passes :
    (l : RateLimiter) (key : String) (now : ℕ)
    → l.max_requests ≡ 0
    → live now (Dict.get key l.windows) ≡ none
    → ((check l key now).1 ≡ true) × (remaining l key now ≡ 0)
unfolding check remaining
zero_limit_passes l key now h e = (ground arith, ground arith)

abbrev pub time : Event → ℕ
time (request key now) = now
time (sweep now) = now

-- The requests of a key, and those of them that are allowed.
unfoldable pub requests : String → List Event → ℕ
requests k [] = 0
requests k (request key now ∷ es) = if str_eq key k then requests k es + 1 else requests k es
requests k (sweep now ∷ es) = requests k es

unfoldable pub allowed : String → RateLimiter → List Event → ℕ
unfolding after
allowed k l [] = 0
allowed k l (request key now ∷ es) =
    let rest = allowed k (check l key now).0 es in
    if str_eq key k && (check l key now).1 then rest + 1 else rest
allowed k l (sweep now ∷ es) = allowed k (cleanup l now) es

check-Distinct :
    (l : RateLimiter) (key : String) (now : ℕ)
    → Distinct l.windows
    → Distinct (check l key now).0.windows
unfolding check
check-Distinct l key now d = set-Distinct key _ l.windows d

check-max :
    (l : RateLimiter) (key : String) (now : ℕ) → (check l key now).0.max_requests ≡ l.max_requests
unfolding check
check-max l key now = refl

-- What is left of a key's quota in its running window.
abbrev Runs : String → ℕ → ℕ → RateLimiter → Type 0
Runs k c r l =
    (Dict.get k l.windows ≡ some (record { count = c; reset_at = r })) × Distinct l.windows

check-Runs_other :
    (l : RateLimiter) (key k : String) (now c r : ℕ)
    → str_eq key k ≡ false
    → Runs k c r l
    → Runs k c r (check l key now).0
unfolding check
check-Runs_other l key k now c r h (e, d) =
    (get-set key k _ l.windows ∙ rw h e, set-Distinct key _ l.windows d)

check-Runs_self :
    (l : RateLimiter) (k : String) (now c r : ℕ)
    → Runs k c r l
    → now < r
    → Runs k (c + 1) r (check l k now).0 × ((check l k now).1 ≡ leb (c + 1) l.max_requests)
unfolding check
check-Runs_self l k now c r (e, d) h =
    let running : live now (Dict.get k l.windows) ≡ some (record { count = c; reset_at = r }) =
      rw e (ground arith) in
    (
      (get-set k k _ l.windows ∙ rw (eq_refl k, running) refl, set-Distinct k _ l.windows d),
      rw running refl,
    )

cleanup-Runs :
    (l : RateLimiter) (k : String) (now c r : ℕ)
    → Runs k c r l
    → now < r
    → Runs k c r (cleanup l now)
unfolding cleanup
cleanup-Runs l k now c r (e, d) h = (
  get-filter (λ w. ltb now w.reset_at) k l.windows d ∙ rw e (ground arith),
  filter-Distinct (λ w. ltb now w.reset_at) l.windows d,
)

-- In a running window of `k` that has counted `c` requests, exactly as many more are allowed as are
-- left of the limit, whatever requests of other keys and rounds of the timer come between.
allowed-Runs :
    (l : RateLimiter) (k : String) (c r : ℕ) (es : List Event)
    → Runs k c r l
    → All (λ e. time e < r) es
    → allowed k l es ≡ min (requests k es) (l.max_requests - c)
unfolding allowed requests check cleanup
allowed-Runs l k c r [] s h = omega arith
allowed-Runs l k c r (sweep now ∷ es) s h =
    allowed-Runs (cleanup l now) k c r es (cleanup-Runs l k now c r s h.0) h.1
allowed-Runs l k c r (request key now ∷ es) s h = elim (Bool-cases (str_eq key k)) [
  | inl hit ↦ rw ((eq_iff key k).0 hit) (
      let (runs, verdict) = check-Runs_self l k now c r s h.0 in
      ground (
        arith,
        eq_refl k,
        verdict,
        check-max l k now,
        allowed-Runs (check l k now).0 k (c + 1) r es runs h.1,
      ))
  | inr miss ↦
      rw miss
        (allowed-Runs (check l key now).0 k c r es (check-Runs_other l key k now c r miss s) h.1)
]

-- A limiter as it is after some requests and rounds of the timer.
abbrev pub reached : ℕ → ℕ → List Event → RateLimiter
reached max_requests window_ms history = run (new max_requests window_ms) history

run-Distinct :
    (l : RateLimiter) (es : List Event) → Distinct l.windows → Distinct (run l es).windows
unfolding run after cleanup
run-Distinct l [] d = d
run-Distinct l (request key now ∷ es) d =
    run-Distinct (check l key now).0 es (check-Distinct l key now d)
run-Distinct l (sweep now ∷ es) d =
    run-Distinct (cleanup l now) es (filter-Distinct (λ w. ltb now w.reset_at) l.windows d)

run-settings :
    (l : RateLimiter) (es : List Event)
    → ((run l es).max_requests ≡ l.max_requests) × ((run l es).window_ms ≡ l.window_ms)
unfolding run after cleanup check
run-settings l [] = (refl, refl)
run-settings l (request key now ∷ es) = run-settings (check l key now).0 es
run-settings l (sweep now ∷ es) = run-settings (cleanup l now) es

-- The request that opens a window.
open-Runs :
    (l : RateLimiter) (k : String) (now w : ℕ)
    → l.window_ms ≡ w
    → Distinct l.windows
    → live now (Dict.get k l.windows) ≡ none
    → Runs k 1 (now + w) (check l k now).0 × ((check l k now).1 ≡ true)
unfolding check
open-Runs l k now w same_window d e = (
  (get-set k k _ l.windows ∙ rw (eq_refl k, e) (ground arith), set-Distinct k _ l.windows d),
  rw e refl,
)

-- After any history, of the requests of a key that come while one window runs, the first included,
-- exactly as many are allowed as the limit says, or all if they are fewer; provided that the limit
-- is not 0. Requests of other keys and rounds of the cleanup timer make no difference.
pub allowed_in_window :
    (max_requests window_ms : ℕ) (history : List Event) (k : String) (now : ℕ) (es : List Event)
    → 0 < max_requests
    → live now (Dict.get k (reached max_requests window_ms history).windows) ≡ none
    → All (λ e. time e < now + window_ms) es
    → allowed k (reached max_requests window_ms history) (request k now ∷ es)
      ≡ min (requests k (request k now ∷ es)) max_requests
unfolding allowed requests new
allowed_in_window m w history k now es p idle h =
    let l = reached m w history in
    let (same_max, same_window) = run-settings (new m w) history in
    let (runs, passes) = open-Runs l k now w same_window (run-Distinct (new m w) history tt) idle in
    ground (
      arith,
      eq_refl k,
      passes,
      check-max l k now,
      allowed-Runs (check l k now).0 k 1 (now + w) es runs h,
    )
