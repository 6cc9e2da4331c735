-- ===== src/Limits/Sliding.antt =====
-- daemon/src/api/rate-limit.ts: the moments of the recent requests of each route.
pub mod Quota
use kithkit.Base.{
  ℕ, ◌+◌, ◌-◌, ◌/◌, String, Bool, true, false, List, [], ◌∷◌, ◌++◌, Option, none, some, filter,
  length, leb, ltb, if◌then◌else◌,
}
use kithkit.Base.Dict
use kithkit.Base.Dict.{Dict}

-- What `createRateLimiter` is given.
pub record Limiter : Type 0 where
  pub key : String
  pub max : ℕ
  pub window_ms : ℕ

-- The Map `windows`, which all limiters share.
abbrev pub Windows : Type 0
Windows = Dict (List ℕ)

-- Allowed, or refused with the seconds of the `Retry-After` header; `none` is `NaN`.
pub data Verdict : Type 0 where
  allowed : Verdict
  blocked : Option ℕ → Verdict

abbrev pub is_allowed : Verdict → Bool
is_allowed allowed = true
is_allowed (blocked r) = false

abbrev pub timestamps : Option (List ℕ) → List ℕ
timestamps none = []
timestamps (some ts) = ts

-- `now - t < windowMs`, also where `t` is later than `now`.
abbrev pub recent : ℕ → ℕ → ℕ → Bool
recent window_ms now t = ltb now (t + window_ms)

-- `Math.ceil((timestamps[0]! + windowMs - now) / 1000)`
retry_after : Limiter → ℕ → List ℕ → Option ℕ
retry_after l now [] = none
retry_after l now (t ∷ ts) = some ((t + l.window_ms - now + 999) / 1000)

-- The entry that a request leaves, by the timestamps that are still in the window.
admit : Limiter → ℕ → List ℕ → List ℕ × Verdict
unfolding retry_after
admit l now ts =
    if leb l.max (length ts)
    then (ts, blocked (retry_after l now ts))
    else (ts ++ now ∷ [], allowed)

slide : Limiter → ℕ → Option (List ℕ) → List ℕ
slide l now entry = filter (recent l.window_ms now) (timestamps entry)

unfoldable pub limit : Limiter → Windows → ℕ → Windows × Verdict
unfolding admit slide
limit l windows now =
    let (ts, verdict) = admit l now (slide l now (Dict.get l.key windows)) in
    (Dict.set l.key ts windows, verdict)

unfoldable pub reset_all_limiters : Windows → Windows
reset_all_limiters windows = []
