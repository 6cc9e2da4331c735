-- ===== src/Network/Registration.antt =====
-- daemon/src/extensions/comms/network/retry.ts: registration with the relays at start-up, tried again
-- with a growing delay.
use kithkit.Base.{
  ℕ, zero, suc, ◌+◌, ◌*◌, ◌≤◌, min, Bool, true, List, [], ◌∷◌, ◌++◌, Option, none, some, All, ltb,
  leb, ◌≡◌, refl, ◌<◌, subst, inl, inr, Bool-cases, lt→ltb, arith, if◌then◌else◌,
}

-- What the loop meets at each attempt: whether the signal is aborted before it, and whether the
-- registration succeeds.
pub record World : Type 0 where
  pub aborted : ℕ → Bool
  pub registers : ℕ → Bool

-- `sleeps` may end early, when the signal is aborted.
pub data Action : Type 0 where
  calls succeeds records_retrying : Action
  sleeps : (delay : ℕ) → Action

pub data Ending : Type 0 where
  cancelled registered gave_up : Ending

abbrev pub max_retries : ℕ
max_retries = 10

abbrev pub initial_delay_ms : ℕ
initial_delay_ms = 5000

abbrev pub max_delay_ms : ℕ
max_delay_ms = 300000

abbrev prepend : List Action → Option (List Action × Ending) → Option (List Action × Ending)
prepend actions none = none
prepend actions (some (rest, ending)) = some (actions ++ rest, ending)

-- One attempt, with what the rest of the loop would do.
unfoldable pub round : World → ℕ → ℕ → Option (List Action × Ending) → Option (List Action × Ending)
round w attempt delay rest =
    if w.aborted attempt
    then some ([], cancelled)
    else if w.registers attempt
    then some (calls ∷ succeeds ∷ [], registered)
    else if leb max_retries (attempt + 1)
    then some (calls ∷ [], gave_up)
    else prepend (calls ∷ records_retrying ∷ sleeps delay ∷ []) rest

-- The loop, for at most `fuel` rounds: `none` where it goes on.
unfoldable pub retry_loop : World → (fuel attempt delay : ℕ) → Option (List Action × Ending)
unfolding round
retry_loop w zero attempt delay = none
retry_loop w (suc fuel) attempt delay =
    let rest = retry_loop w fuel (attempt + 1) (min (delay * 2) max_delay_ms) in
    if ltb attempt max_retries then round w attempt delay rest else some ([], gave_up)

unfoldable pub run_registration_retry_loop : World → ℕ → Option (List Action × Ending)
unfolding retry_loop
run_registration_retry_loop w fuel = retry_loop w fuel 0 initial_delay_ms

unfoldable pub calls_in : List Action → ℕ
calls_in [] = 0
calls_in (calls ∷ l) = suc (calls_in l)
calls_in (succeeds ∷ l) = calls_in l
calls_in (records_retrying ∷ l) = calls_in l
calls_in (sleeps d ∷ l) = calls_in l

abbrev pub IsShort : Action → Type 0
IsShort (sleeps d) = d ≤ max_delay_ms
IsShort calls = Unit
IsShort succeeds = Unit
IsShort records_retrying = Unit

-- Why the loop may end so after its calls, the first of them at `attempt`.
abbrev pub Fits : World → (attempt calls : ℕ) → Ending → Type 0
Fits w attempt n cancelled = w.aborted (attempt + n) ≡ true
Fits w attempt n registered = (last : ℕ) × ((attempt + n ≡ suc last) × (w.registers last ≡ true))
Fits w attempt n gave_up = attempt + n ≡ max_retries

abbrev pub EndsWell : World → ℕ → List Action → Ending → Type 0
EndsWell w attempt actions ending =
    (attempt + calls_in actions ≤ max_retries)
    × (All IsShort actions × Fits w attempt (calls_in actions) ending)

Fits-suc :
    (w : World) (attempt n : ℕ) (ending : Ending)
    → Fits w (attempt + 1) n ending
    → Fits w attempt (suc n) ending
Fits-suc w attempt n cancelled h = subst (λ k. w.aborted k ≡ true) (omega arith) h
Fits-suc w attempt n registered (last, (e, h)) = (last, (omega (arith, e), h))
Fits-suc w attempt n gave_up h = omega (arith, h)

abbrev Ends : World → ℕ → Option (List Action × Ending) → Type 0
Ends w attempt none = ◌≡◌ {A = ℕ} 1 0
Ends w attempt (some (actions, ending)) = EndsWell w attempt actions ending

prepend-Ends :
    (w : World) (attempt delay : ℕ) (rest : Option (List Action × Ending))
    → delay ≤ max_delay_ms
    → Ends w (attempt + 1) rest
    → Ends w attempt (prepend (calls ∷ records_retrying ∷ sleeps delay ∷ []) rest)
unfolding calls_in
prepend-Ends w attempt delay none d h = h
prepend-Ends w attempt delay (some (actions, ending)) d (h, (short, why)) =
    (omega (arith, h), ((tt, (tt, (d, short))), Fits-suc w attempt (calls_in actions) ending why))

round-Ends :
    (w : World) (attempt delay : ℕ) (rest : Option (List Action × Ending))
    → attempt < max_retries
    → delay ≤ max_delay_ms
    → (attempt + 1 < max_retries → Ends w (attempt + 1) rest)
    → Ends w attempt (round w attempt delay rest)
unfolding round calls_in
round-Ends w attempt delay rest f d h = elim (Bool-cases (w.aborted attempt)) [
  | inl a ↦ rw (a) (omega (arith, f), (tt, subst (λ k. w.aborted k ≡ true) (omega arith) a))
  | inr a ↦ elim (Bool-cases (w.registers attempt)) [
    | inl r ↦ rw (a, r) (omega (arith, f), ((tt, (tt, tt)), (attempt, (omega arith, r))))
    | inr r ↦ elim (Bool-cases (leb max_retries (attempt + 1))) [
      | inl m ↦ rw (a, r, m) (omega (arith, f), ((tt, tt), ground (arith, f, m)))
      | inr m ↦ rw (a, r, m) (prepend-Ends w attempt delay rest d (h (ground (arith, m))))
    ]
  ]
]

retry_loop-Ends :
    (w : World) (fuel attempt delay : ℕ)
    → max_retries ≤ attempt + fuel
    → attempt < max_retries
    → delay ≤ max_delay_ms
    → Ends w attempt (retry_loop w fuel attempt delay)
unfolding retry_loop
retry_loop-Ends w zero attempt delay h f d = omega (arith, f, h)
retry_loop-Ends w (suc fuel) attempt delay h f d =
    let next = min (delay * 2) max_delay_ms in
    rw (lt→ltb attempt max_retries f) (
      round-Ends w attempt delay (retry_loop w fuel (attempt + 1) next) f d
        (λ g. retry_loop-Ends w fuel (attempt + 1) next (omega (arith, h)) g (omega arith)))

result_of :
    (w : World) (o : Option (List Action × Ending))
    → Ends w 0 o
    → (actions : List Action) × ((ending : Ending) × ((o ≡ some (actions, ending))
          × EndsWell w 0 actions ending))
result_of w none h = ([], (gave_up, ground (arith, h)))
result_of w (some (actions, ending)) h = (actions, (ending, (refl, h)))

-- Whatever the relays answer and whenever the signal is aborted, the loop ends within ten rounds. It
-- registers at most ten times and never sleeps for more than five minutes, and it ends because the
-- signal was aborted after its last call, because its last call succeeded, or after ten calls.
pub ten_rounds_suffice :
    (w : World)
    → (actions : List Action) × ((ending : Ending) × ((run_registration_retry_loop w 10
            ≡ some (actions, ending))
          × EndsWell w 0 actions ending))
unfolding run_registration_retry_loop
ten_rounds_suffice w =
    result_of w (retry_loop w 10 0 initial_delay_ms)
      (retry_loop-Ends w 10 0 initial_delay_ms (omega arith) (omega arith) (omega arith))
