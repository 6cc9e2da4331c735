-- ===== src/Watchdog/Loop.antt =====
-- The bound on the restarts of daemon/src/automation/tasks/context-watchdog.ts (GATE 3), beside the
-- task routes.
use kithkit.Base.{ℕ, ◌≤◌, true, false, List, [], ◌∷◌, none, some, ◌≡◌, ◌≢◌, arith, sym, subst}
use kithkit.TaskQueue.Rows.{create}
use kithkit.Watchdog.{State, capped, monitor_orchestrator_wedge}
use kithkit.Watchdog.Frozen.{reset}
use kithkit.Watchdog.Signals.{Sight, reset_tasks}
use kithkit.Watchdog.Frozen.Exact.{has_id}
use kithkit.Watchdog.Daemon.{
  buries, sweeps, Event, ticks, asks, creates, lives, Surroundings, happen, run, time, IsTimely,
  IsResetting, Resets,
}
use kithkit.Idle.Sweeps.{sweep_zombie, sweep_orphan, cleanup_zombie_tasks, cleanup_orphaned_tasks}
use kithkit.Watchdog.Kept.{
  asks-IsPassed, asks-AllKeyed, add_created-All, create-pending, creates-IsPassed,
  changed-IsUnbound, zombie-Stamped, orphan-Stamped,
}
use kithkit.Watchdog.Unbound.{IsPassed, IsUnbound, IsUnbound-later, tick-IsFree}
use kithkit.Watchdog.Passed.{AllKeyed}

happen-IsUnbound :
    (e : Surroundings) (clock : ℕ) (s : State) (x : Event)
    → Resets x
    → IsUnbound (time clock x) s
    → IsUnbound (time clock x) (happen e s x)
unfolding happen cleanup_zombie_tasks cleanup_orphaned_tasks
happen-IsUnbound e clock s (ticks v) r h = (tick-IsFree v s r h).0
happen-IsUnbound e clock s (asks n r) _ h = record {
  few = h.few;
  passed = asks-IsPassed e r n s.last_wedge_ip_max_updated_at s.tasks h.passed;
  keyed = asks-AllKeyed e r n s.tasks h.keyed;
}
happen-IsUnbound e clock s (creates id b ts) _ h = record {
  few = h.few;
  passed = creates-IsPassed e id b ts s.last_wedge_ip_max_updated_at s.tasks h.passed;
  keyed =
      add_created-All (λ t. has_id t ≡ true) (create e.clean e.safe id b ts) s.tasks
        (λ row k. ground (arith, (create-pending e id b ts row k).0)) h.keyed;
}
happen-IsUnbound e clock s (lives jobs agent) _ h = record {
  few = h.few;
  passed = h.passed;
  keyed = h.keyed;
}
happen-IsUnbound e clock s (buries workers now) _ h =
    changed-IsUnbound (sweep_zombie workers now) now s (zombie-Stamped workers now) h
happen-IsUnbound e clock s (sweeps workers none now) _ h = record {
  few = h.few;
  passed = h.passed;
  keyed = h.keyed;
}
happen-IsUnbound e clock s (sweeps workers (some started) now) _ h =
    changed-IsUnbound (sweep_orphan workers started now) now s (orphan-Stamped workers started now)
      h

-- The instant of the last event.
abbrev pub end_time : ℕ → List Event → ℕ
end_time clock [] = clock
end_time clock (x ∷ xs) = end_time (time clock x) xs

run-IsUnbound :
    (e : Surroundings) (clock : ℕ) (s : State) (xs : List Event)
    → IsTimely clock xs
    → IsResetting xs
    → IsUnbound clock s
    → IsUnbound (end_time clock xs) (run e s xs)
unfolding run
run-IsUnbound e clock s [] o r h = h
run-IsUnbound e clock s (x ∷ xs) o r h =
    run-IsUnbound e (time clock x) (happen e s x) xs o.1 r.1
      (happen-IsUnbound e clock s x r.0 (IsUnbound-later clock (time clock x) s o.0 h))

-- The cap on the restarts is never reached. Let no restart be counted at first, let each task have
-- an external id, and let ticks of the watchdog, requests at both sets of routes, creations of
-- tasks, changes of the jobs and the sweeps of the idle monitor come in the order of their
-- instants, the statements that make frozen tasks pending failing in no tick. Then no tick after
-- them comes to the cap, so no task fails by it.
pub cap_unreached :
    (e : Surroundings) (clock : ℕ) (s : State) (xs : List Event) (v : Sight)
    → s.wedge_restart_count ≡ 0
    → s.last_wedge_ip_max_updated_at ≡ none
    → AllKeyed s.tasks
    → IsTimely clock xs
    → IsResetting xs
    → end_time clock xs ≤ v.now
    → v.fails reset_tasks ≡ false
    → (monitor_orchestrator_wedge v (run e s xs)).1 ≢ capped
cap_unreached e clock s xs v zero_count no_stamp keyed o r late reset =
    let start : IsUnbound clock s = record {
      few = omega (arith, zero_count);
      passed = subst (λ l. IsPassed l clock s.tasks) (sym no_stamp) tt;
      keyed = keyed;
    } in
    (tick-IsFree v (run e s xs) reset (
      IsUnbound-later (end_time clock xs) v.now (run e s xs) late
        (run-IsUnbound e clock s xs o r start))).1
