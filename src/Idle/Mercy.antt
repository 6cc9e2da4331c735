-- ===== src/Idle/Mercy.antt =====
-- daemon/src/automation/tasks/orchestrator-idle.ts: when the idle monitor kills the session of the
-- orchestrator.
use kithkit.Base.{
  ℕ, String, ◌+◌, ◌*◌, Bool, true, false, not, ◌&&◌, List, [], ◌∷◌, Option, none, some, ltb, ◌≡◌,
  ◌↔◌, ◌≤◌, ◌⊎◌, refl, sym, ◌∙◌, ltb→le, arith,
}
use kithkit.Tasks.Status.{awaiting_approval, same}
use kithkit.Tasks.Row.{Task, is_todo}
use kithkit.Agents.Job.{JobStatus}
use kithkit.Idle.{
  State, Look, Outcome, force_killed, killed, has_active, has_status, after_nudge, run, sweep,
  started,
}
use kithkit.Idle.Sweeps.{cleanup_orphaned_tasks, sweep_orphan}

abbrev pub kills : Outcome → Bool
kills force_killed = true
kills killed = true
kills _ = false

-- No job is queued or running, and no task waits for an approval.
abbrev pub IsWithoutWork : State → Type 0
IsWithoutWork s = (has_active s.jobs ≡ false) × (has_status awaiting_approval s.tasks ≡ false)

after_nudge-kills :
    (v : Look) (at : ℕ) (s : State)
    → kills (after_nudge v at s).1 ≡ true
    → IsWithoutWork s × ((v.alive ≡ true) × (ltb v.now (at + 60000) ≡ false))
unfolding after_nudge
after_nudge-kills v at s h = ground (arith, h)

sweep_orphan-awaiting :
    (workers : Option String → Option (List JobStatus)) (started now : ℕ) (t : Task)
    → (not (is_todo (sweep_orphan workers started now t).kind)
        && same (sweep_orphan workers started now t).status awaiting_approval)
      ≡ (not (is_todo t.kind) && same t.status awaiting_approval)
sweep_orphan-awaiting workers started now t = ground arith

-- The sweep neither makes nor ends a wait for an approval.
orphans-awaiting :
    (workers : Option String → Option (List JobStatus)) (started : Option ℕ) (now : ℕ)
    (ts : List Task)
    → has_status awaiting_approval (cleanup_orphaned_tasks workers started now ts)
      ≡ has_status awaiting_approval ts
unfolding cleanup_orphaned_tasks
orphans-awaiting workers none now ts = refl
orphans-awaiting workers (some at) now [] = refl
orphans-awaiting workers (some at) now (t ∷ ts) =
    rw (sweep_orphan-awaiting workers at now t, orphans-awaiting workers (some at) now ts)

sweep-IsWithoutWork : (v : Look) (s : State) → IsWithoutWork (sweep v s) ↔ IsWithoutWork s
sweep-IsWithoutWork v s =
    let e = orphans-awaiting v.workers (started s.agent) v.now s.tasks in
    ((λ h. (h.0, sym e ∙ h.1)), (λ h. (h.0, e ∙ h.1)))

-- A nudge to shut down is a minute old, or Claude is at its prompt.
abbrev pub IsDue : Look → State → Type 0
IsDue v s =
    ((at : ℕ) × ((s.shutdown_nudged_at ≡ some at) × (at + 60 * 1000 ≤ v.now)))
    ⊎ (v.processing ≡ false)

-- Once a nudge to shut down has been sent, a tick kills the session exactly if it is alive, a minute
-- has passed, no job is queued or running and no task waits for an approval, whether or not Claude
-- is working again.
pub force_killed_iff :
    (v : Look) (s : State) (at : ℕ)
    → s.shutdown_nudged_at ≡ some at
    → ((run v s).1 ≡ force_killed)
      ↔ ((v.alive ≡ true) × ((at + 60 * 1000 ≤ v.now) × IsWithoutWork s))
unfolding run after_nudge
force_killed_iff v s at z =
    let swept = sweep-IsWithoutWork v s in
    (
      (λ h.
          let (idle, (alive, late)) = after_nudge-kills v at (sweep v s) (ground (arith, h, z)) in
          (alive, (ltb→le v.now (at + 60000) late, swept.0 idle))),
      (λ h. ground (arith, z, h.0, h.1.0, swept.1 h.1.1)),
    )
