-- ===== src/Access.antt =====
-- daemon/src/core/access-control.ts: the tier of a sender, and the requests that its tier allows in a
-- minute. Tiers are strings, since extensions bring their own. The answer of the contacts table is an
-- argument; it is absent where the query throws.
pub mod Senders
mod Samples
use kithkit.Base.{
  ℕ, ◌+◌, ◌-◌, ◌*◌, String, Bool, true, false, not, List, [], ◌∷◌, ◌++◌, Option, none, some, filter,
  any, length, str_eq, ltb, if◌then◌else◌,
}
use kithkit.Base.Dict
use kithkit.Base.Dict.{Dict}

-- `tier_limits` maps a tier to its `maxPerMinute`.
pub record State : Type 0 where
  pub safe_senders : List String
  pub blocked_senders : List String
  pub tier_limits : Dict ℕ
  pub custom_classifiers : List (String → Option String)
  pub request_log : Dict (List ℕ)

abbrev pub window_ms : ℕ
window_ms = 60000

abbrev pub default_limits : Dict ℕ
default_limits = ("safe", 100) ∷ ("unknown", 5) ∷ ("blocked", 0) ∷ []

-- `{ ...defaults, ...limits }`
unfoldable pub spread : Dict ℕ → Dict ℕ → Dict ℕ
spread defaults [] = defaults
spread defaults ((tier, n) ∷ limits) = spread (Dict.set tier n defaults) limits

unfoldable pub configure_access_control :
    State → List String → List String → Option (Dict ℕ) → State
configure_access_control s safe blocked limits = record s {
  safe_senders = safe;
  blocked_senders = blocked;
  tier_limits = elim limits [ none ↦ s.tier_limits | some l ↦ spread default_limits l ];
}

unfoldable pub register_tier : State → (String → Option String) → State
register_tier s classifier = record s {
  custom_classifiers = s.custom_classifiers ++ classifier ∷ [];
}

-- A row of `contacts`: its tags, and whether its role is `owner`.
pub record Contact : Type 0 where
  pub tags : List String
  pub is_owner : Bool

abbrev pub includes : String → List String → Bool
includes x xs = any (λ y. str_eq y x) xs

unfoldable pub check_contacts_tier : Option Contact → Option String
check_contacts_tier none = none
check_contacts_tier (some row) =
    if row.is_owner
    then some "safe"
    else if includes "tier:blocked" row.tags
    then some "blocked"
    else if includes "tier:safe" row.tags
    then some "safe"
    else none

-- The first classifier that has an answer.
unfoldable pub classify_custom : List (String → Option String) → String → Option String
classify_custom [] sender = none
classify_custom (f ∷ fs) sender =
    let rest = classify_custom fs sender in elim (f sender) [ none ↦ rest | some tier ↦ some tier ]

abbrev pub or_else : Option String → String → String
or_else none tier = tier
or_else (some tier) other = tier

unfoldable pub classify_sender : State → Option Contact → String → String
classify_sender s contact sender = or_else (classify_custom s.custom_classifiers sender) (
    if includes sender s.blocked_senders
    then "blocked"
    else if includes sender s.safe_senders
    then "safe"
    else or_else (check_contacts_tier contact) "unknown")

abbrev pub set_add : String → List String → List String
set_add x xs = if includes x xs then xs else xs ++ x ∷ []

abbrev pub set_delete : String → List String → List String
set_delete x xs = filter (λ y. not (str_eq y x)) xs

unfoldable pub add_safe_sender : State → String → State
add_safe_sender s sender = record s {
  safe_senders = set_add sender s.safe_senders;
  blocked_senders = set_delete sender s.blocked_senders;
}

unfoldable pub block_sender : State → String → State
block_sender s sender = record s {
  blocked_senders = set_add sender s.blocked_senders;
  safe_senders = set_delete sender s.safe_senders;
}

-- `_tierLimits[tier] ?? DEFAULT_LIMITS.unknown`
unfoldable pub limit_of : State → String → ℕ
limit_of s tier = elim (Dict.get tier s.tier_limits) [ none ↦ 5 | some n ↦ n ]

pub record RateLimitResult : Type 0 where
  pub allowed : Bool
  pub tier : String
  pub remaining : ℕ
  pub reset_ms : ℕ

abbrev pub logged : Option (List ℕ) → List ℕ
logged none = []
logged (some ts) = ts

-- The requests after `now - WINDOW_MS`.
unfoldable pub in_window : State → String → ℕ → List ℕ
in_window s sender now =
    filter (λ t. ltb now (t + window_ms)) (logged (Dict.get sender s.request_log))

abbrev pub until_reset : ℕ → List ℕ → ℕ
until_reset now [] = 0
until_reset now (t ∷ ts) = t + window_ms - now

-- By the requests in the window and the limit of the tier.
unfoldable pub rate : State → String → ℕ → String → List ℕ → ℕ → State × RateLimitResult
rate s sender now tier ts max_per_minute =
    if ltb (length ts) max_per_minute
    then (
      record s { request_log = Dict.set sender (ts ++ now ∷ []) s.request_log },
      record {
        allowed = true;
        tier = tier;
        remaining = max_per_minute - length ts - 1;
        reset_ms = until_reset now (ts ++ now ∷ []);
      },
    )
    else (s, record { allowed = false; tier = tier; remaining = 0; reset_ms = until_reset now ts })

unfoldable pub check_rate_limit : State → Option Contact → String → ℕ → State × RateLimitResult
unfolding rate in_window limit_of classify_sender
check_rate_limit s contact sender now =
    let tier = classify_sender s contact sender in
    rate s sender now tier (in_window s sender now) (limit_of s tier)
