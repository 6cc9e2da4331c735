-- ===== src/Limits/Samples.antt =====
-- The theorems about the rate limiters at small inputs.
use kithkit.Base.{
  ◌+◌, ◌*◌, ◌≤◌, min, String, List, [], ◌∷◌, filter, length, ◌≡◌, ◌≢◌, refl, arith, eq_iff,
}
use kithkit.Base.Dict
use kithkit.Limits.Fixed
use kithkit.Limits.Fixed.{new, check, remaining, cleanup, after, run, request, sweep}
use kithkit.Limits.Fixed.Quota.{allowed as allowed_of, requests, reached, allowed_in_window}
use kithkit.Limits.Sliding.{Limiter, limit, recent, allowed}
use kithkit.Limits.Sliding.Quota.{
  Event, own, other, granted, stored, granted_in_window, retry_after_suffices,
}

abbrev later : List Fixed.Event
later = request "10.0.0.7" 40 ∷ sweep 41 ∷ request "10.0.0.9" 42 ∷ request "10.0.0.7" 43 ∷ []

abbrev earlier : List Fixed.Event
earlier = request "10.0.0.7" 1 ∷ sweep 20 ∷ []

allowed_in_window_example :
    allowed_of "10.0.0.7" (reached 2 10 earlier) (request "10.0.0.7" 39 ∷ later)
    ≡ min (requests "10.0.0.7" (request "10.0.0.7" 39 ∷ later)) 2
unfolding new run after check cleanup Dict.get Dict.set
allowed_in_window_example =
    allowed_in_window 2 10 earlier "10.0.0.7" 39 later (omega arith) refl (omega arith)

abbrev spawn : Limiter
spawn = record { key = "spawn"; max = 1; window_ms = 60000 }

abbrev escalate : Limiter
escalate = record { key = "escalate"; max = 20; window_ms = 60000 }

escalate_ne_spawn : ◌≢◌ {A = String} "escalate" "spawn"
escalate_ne_spawn = ground (arith, eq_iff "escalate" "spawn")

abbrev calls : List (Event spawn)
calls = own 10 ∷ other escalate escalate_ne_spawn 11 ∷ own 12 ∷ own 70000 ∷ []

granted_in_window_example : length (filter (recent 60000 70001) (granted spawn [] calls)) ≤ 1
unfolding Dict.get
granted_in_window_example = granted_in_window spawn [] 0 70001 calls refl (omega arith)

-- A route that was used at 10 and is asked again at 1010 is told to wait 59 seconds.
retry_after_suffices_example :
    (limit spawn (limit spawn (("spawn", 10 ∷ []) ∷ []) 1010).0 (1010 + 1000 * 59)).1 ≡ allowed
unfolding limit stored Dict.get
retry_after_suffices_example =
    retry_after_suffices spawn (("spawn", 10 ∷ []) ∷ []) 1010 59 (omega arith) refl
