-- ===== src/Watchdog/Context/Once.antt =====
-- daemon/src/automation/tasks/context-watchdog.ts: how often comms is sent a warning.
use kithkit.Base.{
  ℕ, ◌+◌, String, Bool, true, false, ◌&&◌, ◌||◌, List, [], ◌∷◌, ◌++◌, Option, none, some, ◌==◌, ◌≡◌,
  inl, inr, refl, arith, eq_refl, Bool-cases, if◌then◌else◌,
}
use kithkit.Watchdog.Context.{
  ContextData, Tracking, Look, Attempt, has_fired, session_of, is_session, enter, process_tiers,
  with_fired, look_at, read_context_file, monitor_comms, comms_tiers, or_zero,
}

-- All injections that a run of ticks makes.
unfoldable pub attempts : Tracking → List Look → List Attempt
unfolding monitor_comms
attempts s [] = []
attempts s (v ∷ vs) = let (t, made) = monitor_comms v s in made ++ attempts t vs

-- How many injections of a tier come after one that returned true. `told` says that one has been.
abbrev pub repeats : ℕ → (told : Bool) → List Attempt → ℕ
repeats tier told [] = 0
repeats tier told ((t, ok) ∷ more) =
    (if t == tier && told then 1 else 0) + repeats tier (told || (t == tier && ok)) more

-- The tick reads no file or one of the session.
abbrev pub IsFrom : String → Option ContextData → Type 0
IsFrom id none = Unit
IsFrom id (some d) = session_of d ≡ id

abbrev pub IsOf : String → Look → Type 0
IsOf id v = IsFrom id (read_context_file v.now v.file)

abbrev pub AllOf : String → List Look → Type 0
AllOf id [] = Unit
AllOf id (v ∷ vs) = IsOf id v × AllOf id vs

abbrev told_after : ℕ → Bool → List Attempt → Bool
told_after tier told [] = told
told_after tier told ((t, ok) ∷ more) = told_after tier (told || (t == tier && ok)) more

repeats-append :
    (tier : ℕ) (told : Bool) (made more : List Attempt)
    → repeats tier told (made ++ more)
      ≡ repeats tier told made + repeats tier (told_after tier told made) more
repeats-append tier told [] more = omega arith
repeats-append tier told ((t, ok) ∷ made) more =
    ground (arith, repeats-append tier (told || (t == tier && ok)) made more)

-- An injection that has returned true is remembered.
abbrev Knows : ℕ → Bool → List ℕ → Type 0
Knows tier told fired = told ≡ true → has_fired tier fired ≡ true

abbrev Remembers : ℕ → Bool → String → Tracking → Type 0
Remembers tier told id s =
    told ≡ true → (is_session id s.session_id && has_fired tier s.fired_tiers) ≡ true

Knows-more :
    (t tier : ℕ) (told : Bool) (fired : List ℕ)
    → Knows tier told fired
    → Knows tier (told || (t == tier && true)) (t ∷ fired)
Knows-more t tier told fired k h = ground (arith, k, h)

Knows-same :
    (t tier : ℕ) (told : Bool) (fired : List ℕ)
    → Knows tier told fired
    → Knows tier (told || (t == tier && false)) fired
Knows-same t tier told fired k h = ground (arith, k, h)

process_tiers-repeats :
    (injected : ℕ → Bool) (used tier : ℕ) (told : Bool) (tiers fired : List ℕ)
    → Knows tier told fired
    → let p = process_tiers injected used tiers fired in
      (repeats tier told p.1 ≡ 0) × Knows tier (told_after tier told p.1) p.0
unfolding process_tiers
process_tiers-repeats injected used tier told [] fired k = (refl, k)
process_tiers-repeats injected used tier told (t ∷ tiers) fired k = ground (
  arith,
  k,
  process_tiers-repeats injected used tier (told || (t == tier && true)) tiers (t ∷ fired)
      (Knows-more t tier told fired k),
  process_tiers-repeats injected used tier (told || (t == tier && false)) tiers fired
      (Knows-same t tier told fired k),
  process_tiers-repeats injected used tier told tiers fired k,
)

enter-repeats :
    (injected : ℕ → Bool) (used tier : ℕ) (told : Bool) (tiers : List ℕ) (id : String)
    (s : Tracking)
    → Remembers tier told id s
    → let t = enter id s in
      let p = with_fired t (process_tiers injected used tiers t.fired_tiers) in
      (repeats tier told p.1 ≡ 0) × Remembers tier (told_after tier told p.1) id p.0
enter-repeats injected used tier told tiers id s k =
    elim (Bool-cases (is_session id s.session_id)) [
      | inl e ↦
          rw (e, e) (process_tiers-repeats injected used tier told tiers s.fired_tiers (rw e at k))
      | inr e ↦
          rw (e, eq_refl id)
            (process_tiers-repeats injected used tier told tiers [] (λ h. ground (arith, k h, e)))
    ]

look_at-repeats :
    (tiers : List ℕ) (tier : ℕ) (told : Bool) (id : String) (v : Look) (s : Tracking)
    (o : Option ContextData)
    → IsFrom id o
    → Remembers tier told id s
    → let p = look_at tiers v s o in
      (repeats tier told p.1 ≡ 0) × Remembers tier (told_after tier told p.1) id p.0
look_at-repeats tiers tier told id v s none h k = (refl, k)
look_at-repeats tiers tier told id v s (some d) h k = rw (h) (
    enter-repeats v.injected (or_zero d.used_percentage) tier told tiers id
      (record s { file_miss_count = 0 }) k)

run-repeats :
    (tier : ℕ) (told : Bool) (id : String) (s : Tracking) (vs : List Look)
    → AllOf id vs
    → Remembers tier told id s
    → repeats tier told (attempts s vs) ≡ 0
unfolding attempts monitor_comms
run-repeats tier told id s [] h k = refl
run-repeats tier told id s (v ∷ vs) h k =
    let p = monitor_comms v s in
    let (none_here, known) =
      look_at-repeats comms_tiers tier told id v s (read_context_file v.now v.file) h.0 k in
    omega (
      arith,
      repeats-append tier told p.1 (attempts p.0 vs),
      none_here,
      run-repeats tier (told_after tier told p.1) id p.0 vs h.1 known,
    )

-- While one session of comms lasts, a daemon that runs on injects no warning of a tier into it
-- again once an injection of that tier has returned true, however often the watchdog looks and
-- whatever the injections return.
pub warned_once :
    (tier : ℕ) (id : String) (s : Tracking) (vs : List Look)
    → AllOf id vs
    → repeats tier false (attempts s vs) ≡ 0
warned_once tier id s vs h = run-repeats tier false id s vs h (λ e. cc)
