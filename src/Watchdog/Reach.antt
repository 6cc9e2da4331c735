-- ===== src/Watchdog/Reach.antt =====
-- Which tasks a tick of the wedge detector of
-- daemon/src/automation/tasks/context-watchdog.ts changes.
use kithkit.Base.{
  subst, ◌+◌, ℕ, Bool, true, false, List, [], ◌∷◌, map, Option, ◌≡◌, refl, ap, arith, ltb, leb, sym,
  Bool-cases, inl, inr,
}
use kithkit.Tasks.Row.{Task}
use kithkit.Watchdog.{
  signalled, State, Outcome, not_alive, healthy, deferred, capped, restarted,
  restart_wedged_orchestrator, count_restart, exhaust, bound, act, decide,
  monitor_orchestrator_wedge,
}
use kithkit.Watchdog.Frozen.{is_frozen, reset, give_up}
use kithkit.Watchdog.Signals.{
  Sight, reset_tasks, fail_tasks, cutoff, signal_i, signal_ii, signal_iii, frozen_since,
}
use kithkit.Watchdog.Frozen.Exact.{IsKeyed, if_frozen, update_in-frozen}

-- What a tick does to a task that is frozen.
abbrev pub touched : Outcome → ℕ → Task → Task
touched restarted now t = reset now t
touched capped now t = give_up now t
touched not_alive now t = t
touched healthy now t = t
touched deferred now t = t

abbrev Touches : Sight → State → State × Outcome → Type 0
Touches v s p = p.0.tasks ≡ map (if_frozen (cutoff v) (touched p.1 v.now)) s.tasks

map-same : (c : ℕ) (ts : List Task) → ts ≡ map (if_frozen c (λ t. t)) ts
map-same c [] = refl
map-same c (t ∷ ts) = elim (Bool-cases (is_frozen c t)) [
  | inl e ↦ rw (e) (ap (λ l. t ∷ l) (map-same c ts))
  | inr e ↦ rw (e) (ap (λ l. t ∷ l) (map-same c ts))
]

restart-Touches :
    (v : Sight) (s : State)
    → v.fails reset_tasks ≡ false
    → IsKeyed s.tasks
    → Touches v s (restart_wedged_orchestrator v s, restarted)
unfolding restart_wedged_orchestrator
restart-Touches v s r k = rw (r) (update_in-frozen (cutoff v) (reset v.now) s.tasks k)

bound-Touches :
    (v : Sight) (s : State)
    → v.fails reset_tasks ≡ false
    → v.fails fail_tasks ≡ false
    → IsKeyed s.tasks
    → Touches v s (bound v s)
unfolding bound exhaust
bound-Touches v s r f k = elim (Bool-cases (leb 3 s.wedge_restart_count)) [
  | inl e ↦ rw (e, f) (update_in-frozen (cutoff v) (give_up v.now) s.tasks k)
  | inr e ↦ rw (e) (restart-Touches v s r k)
]

count_restart-tasks : (m : Option ℕ) (s : State) → (count_restart m s).tasks ≡ s.tasks
unfolding count_restart
count_restart-tasks m s = ground arith

act-Touches :
    (v : Sight) (i : Bool) (s : State)
    → v.fails reset_tasks ≡ false
    → v.fails fail_tasks ≡ false
    → IsKeyed s.tasks
    → Touches v s (act v i s)
unfolding act
act-Touches v true s r f k =
    let u = count_restart (frozen_since v s.tasks) s in
    let e = count_restart-tasks (frozen_since v s.tasks) s in
    subst (λ ts. (bound v u).0.tasks ≡ map (if_frozen (cutoff v) (touched (bound v u).1 v.now)) ts)
      e (bound-Touches v u r f (subst IsKeyed (sym e) k))
act-Touches v false s r f k = restart-Touches v s r k

decide-Touches :
    (v : Sight) (i ii iii : Bool) (s : State)
    → v.fails reset_tasks ≡ false
    → v.fails fail_tasks ≡ false
    → IsKeyed s.tasks
    → Touches v s (decide v i ii iii s)
unfolding decide
decide-Touches v i ii true s r f k = act-Touches v i s r f k
decide-Touches v false false false s r f k = map-same (cutoff v) s.tasks
decide-Touches v true ii false s r f k =
    elim (Bool-cases (ltb (s.consecutive_wedge_signals + 1) 2)) [
      | inl e ↦ rw (e) (map-same (cutoff v) s.tasks)
      | inr e ↦ rw (e) (act-Touches v true (signalled s) r f k)
    ]
decide-Touches v false true false s r f k =
    elim (Bool-cases (ltb (s.consecutive_wedge_signals + 1) 2)) [
      | inl e ↦ rw (e) (map-same (cutoff v) s.tasks)
      | inr e ↦ rw (e) (act-Touches v false (signalled s) r f k)
    ]

-- On a table of tasks with distinct ids, and where its statements do not fail, a tick changes exactly
-- the orchestrator tasks that are assigned or in progress and were last updated before the cutoff: a
-- tick that restarts the orchestrator makes them pending and unassigned, one that reaches the cap
-- makes them failed, and any other tick changes no task.
pub tick-frozen :
    (v : Sight) (s : State)
    → v.fails reset_tasks ≡ false
    → v.fails fail_tasks ≡ false
    → IsKeyed s.tasks
    → let (u, outcome) = monitor_orchestrator_wedge v s in
      u.tasks ≡ map (if_frozen (cutoff v) (touched outcome v.now)) s.tasks
unfolding monitor_orchestrator_wedge
tick-frozen v s r f k = elim (Bool-cases v.alive) [
  | inl e ↦ rw (e) (
      decide-Touches v (signal_i v s.tasks s.jobs) (signal_ii v s.agent s.tasks s.jobs)
        (signal_iii v) s r f k)
  | inr e ↦ rw (e) (map-same (cutoff v) s.tasks)
]
