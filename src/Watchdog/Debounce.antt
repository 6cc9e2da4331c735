-- ===== src/Watchdog/Debounce.antt =====
-- daemon/src/automation/tasks/context-watchdog.ts: how soon a restart can follow another.
use kithkit.Base.{Bool, true, false, ◌≡◌, ◌≢◌, refl, arith, ◌∙◌}
use kithkit.Watchdog.{
  State, Outcome, restarted, restart_wedged_orchestrator, count_restart, bound, act, signalled,
  decide, monitor_orchestrator_wedge,
}
use kithkit.Watchdog.Signals.{Sight, signal_i, signal_ii, signal_iii, frozen_since}

-- A restart leaves no counted signal.
abbrev Clears : State × Outcome → Type 0
Clears p = p.1 ≡ restarted → p.0.consecutive_wedge_signals ≡ 0

bound-Clears : (v : Sight) (s : State) → Clears (bound v s)
unfolding bound restart_wedged_orchestrator
bound-Clears v s h = ground (arith, h)

act-Clears : (v : Sight) (i : Bool) (s : State) → Clears (act v i s)
unfolding act restart_wedged_orchestrator
act-Clears v true s = bound-Clears v (count_restart (frozen_since v s.tasks) s)
act-Clears v false s = λ _. refl

decide-Clears : (v : Sight) (i ii iii : Bool) (s : State) → Clears (decide v i ii iii s)
unfolding decide
decide-Clears v i ii true s = act-Clears v i s
decide-Clears v false false false s = λ h. ground (arith, h)
decide-Clears v true ii false s = ground (arith, act-Clears v true (signalled s))
decide-Clears v false true false s = ground (arith, act-Clears v false (signalled s))

monitor-Clears : (v : Sight) (s : State) → Clears (monitor_orchestrator_wedge v s)
unfolding monitor_orchestrator_wedge
monitor-Clears v s = ground (
  arith,
  decide-Clears v (signal_i v s.tasks s.jobs) (signal_ii v s.agent s.tasks s.jobs) (signal_iii v) s,
)

decide-waits :
    (v : Sight) (i ii : Bool) (s : State)
    → s.consecutive_wedge_signals ≡ 0
    → (decide v i ii false s).1 ≢ restarted
unfolding decide
decide-waits v false false s h e = ground (arith, e)
decide-waits v true ii s h e = ground (arith, h, e)
decide-waits v false true s h e = ground (arith, h, e)

-- After a tick that restarts the orchestrator, the next tick does not restart it again unless the pane
-- shows the wedge, whatever has become of the tables in between.
pub restart_waits :
    (v w : Sight) (s u : State)
    → (monitor_orchestrator_wedge v s).1 ≡ restarted
    → u.consecutive_wedge_signals ≡ (monitor_orchestrator_wedge v s).0.consecutive_wedge_signals
    → signal_iii w ≡ false
    → (monitor_orchestrator_wedge w u).1 ≢ restarted
unfolding monitor_orchestrator_wedge
restart_waits v w s u h k p e =
    decide-waits w (signal_i w u.tasks u.jobs) (signal_ii w u.agent u.tasks u.jobs) u
      (k ∙ monitor-Clears v s h) (ground (arith, e, p))
