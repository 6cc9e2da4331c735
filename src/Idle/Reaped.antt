-- ===== src/Idle/Reaped.antt =====
-- daemon/src/automation/tasks/orchestrator-idle.ts: the bound on the nudges of check 3b.
use kithkit.Base.{
  ℕ, ◌+◌, ◌≤◌, suc, length, ◌||◌, Bool, true, false, List, [], ◌∷◌, none, some, ltb, ltb→lt, ◌≡◌,
  ◌⊎◌, inl, inr, refl, arith, Bool-cases,
}
use kithkit.Tasks.Status.{pending}
use kithkit.Tasks.Row.{Task}
use kithkit.Idle.{
  State, Look, Outcome, nudged, killed, has_status, shut_down, max_held, count_tick, after_message,
  resume, time_out,
}

-- A tick has asked the orchestrator to shut down, or killed it.
abbrev pub is_reap : Outcome → Bool
is_reap nudged = true
is_reap killed = true
is_reap _ = false

-- Whether one of a run of ticks does so, each of which finds the orchestrator idle for too long.
unfoldable pub is_reaped : List Look → State → Bool
unfolding time_out
is_reaped [] s = false
is_reaped (v ∷ vs) s = let p = time_out v s in is_reap p.1 || is_reaped vs p.0

-- The tasks are frozen at an instant, and so many ticks have seen it.
abbrev IsSeen : List Task → ℕ → ℕ → State → Type 0
IsSeen ts m n s =
    (s.tasks ≡ ts)
    × ((s.last_in_progress_updated_at ≡ some m) × (n ≤ s.in_progress_no_progress_ticks))

shut_down-reaps : (v : Look) (s : State) → is_reap (shut_down v s).1 ≡ true
unfolding shut_down
shut_down-reaps v s = ground arith

after_message-IsSeen :
    (v : Look) (ts : List Task) (m n : ℕ) (s : State)
    → IsSeen ts m n s
    → IsSeen ts m n (after_message v s)
after_message-IsSeen v ts m n s h = ground (arith, h)

-- A tick that has counted reaps, or it wakes the orchestrator.
resume-IsSeen :
    (v : Look) (ts : List Task) (m n : ℕ) (s : State)
    → IsSeen ts m n s
    → (is_reap (resume v s).1 ≡ true) ⊎ ((n ≤ 2) × IsSeen ts m n (resume v s).0)
unfolding resume
resume-IsSeen v ts m n s h = elim (Bool-cases (ltb s.in_progress_no_progress_ticks 3)) [
  | inl e ↦ inr (
      rw (e) (
        omega (arith, h.1.1, ltb→lt s.in_progress_no_progress_ticks 3 e),
        after_message-IsSeen v ts m n s h,
      ))
  | inr e ↦ inl (
      rw (e) (
        shut_down-reaps v
          (record s { last_in_progress_updated_at = none; in_progress_no_progress_ticks = 0 })))
]

count_tick-IsSeen :
    (ts : List Task) (m n : ℕ) (s : State) → IsSeen ts m n s → IsSeen ts m (suc n) (count_tick m s)
unfolding count_tick
count_tick-IsSeen ts m n s h = ground (arith, h)

count_tick-first :
    (ts : List Task) (m : ℕ) (s : State) → s.tasks ≡ ts → IsSeen ts m 0 (count_tick m s)
unfolding count_tick
count_tick-first ts m s h = ground (arith, h)

time_out-resume :
    (v : Look) (ts : List Task) (m : ℕ) (s : State)
    → s.tasks ≡ ts
    → has_status pending ts ≡ false
    → max_held ts ≡ some m
    → time_out v s ≡ resume v (count_tick m s)
unfolding time_out
time_out-resume v ts m s h p k = simp (h, p, k)

or_true : (x y : Bool) → (x ≡ true) ⊎ (y ≡ true) → (x || y) ≡ true
or_true true y h = refl
or_true false y (inl e) = cc
or_true false y (inr e) = e

reaps_after :
    (ts : List Task) (m n : ℕ) (s : State) (vs : List Look)
    → has_status pending ts ≡ false
    → max_held ts ≡ some m
    → IsSeen ts m n s
    → n ≤ 2
    → 3 ≤ n + length vs
    → is_reaped vs s ≡ true
unfolding is_reaped
reaps_after ts m n s [] p k h few enough = ground (arith, few, enough)
reaps_after ts m n s (v ∷ vs) p k h few enough =
    let u = count_tick m s in
    let seen = count_tick-IsSeen ts m n s h in
    let out = time_out-resume v ts m s h.0 p k in
    rw (out) (elim (resume-IsSeen v ts m (suc n) u seen) [
      | inl e ↦ ground (arith, e)
      | inr (less, next) ↦
          ground (
            arith,
            reaps_after ts m (suc n) (resume v u).0 vs p k next less (omega (arith, enough)),
          )
    ])

-- While the tasks that an idle orchestrator holds stay as they are and none is pending, at most four
-- ticks that find it idle for too long ask it to shut down or kill it, whatever the injections
-- give.
pub four_ticks_reap :
    (s : State) (m : ℕ) (vs : List Look)
    → has_status pending s.tasks ≡ false
    → max_held s.tasks ≡ some m
    → 4 ≤ length vs
    → is_reaped vs s ≡ true
unfolding is_reaped
four_ticks_reap s m [] p k h = ground (arith, h)
four_ticks_reap s m (v ∷ vs) p k h =
    let u = count_tick m s in
    rw (time_out-resume v s.tasks m s refl p k) (
      or_true (is_reap (resume v u).1) (is_reaped vs (resume v u).0)
        (elim (resume-IsSeen v s.tasks m 0 u (count_tick-first s.tasks m s refl)) [
          | inl e ↦ inl e
          | inr (_, next) ↦
              inr (
                reaps_after s.tasks m 0 (resume v u).0 vs p k next (omega arith) (omega (arith, h)))
        ]))
