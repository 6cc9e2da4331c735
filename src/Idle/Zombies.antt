-- ===== src/Idle/Zombies.antt =====
-- daemon/src/automation/tasks/orchestrator-idle.ts: what becomes of the tasks of a dead orchestrator.
use kithkit.Base.{
  ℕ, String, Bool, true, false, List, [], ◌∷◌, Option, none, some, All, if◌then◌else◌, ◌≡◌, ◌⊎◌,
  sym, subst, arith, Option-cases,
}
use kithkit.Tasks.Status.{assigned, failed}
use kithkit.Tasks.Row.{Task}
use kithkit.Agents.Job.{JobStatus}
use kithkit.Idle.{State, Look, Outcome, after_nudge, while_dead, while_alive, run, sweep, started}
use kithkit.Idle.Sweeps.{
  is_zombie, has_id, has_recoverable_worker, sweep_zombie, sweep_orphan, cleanup_zombie_tasks,
  cleanup_orphaned_tasks,
}

abbrev pub AllNamed : List Task → Type 0
AllNamed ts = All (λ t. has_id t ≡ true) ts

abbrev has_error : Task → Bool
has_error t = elim t.error [ none ↦ false | some why ↦ true ]

-- What a sweep makes of a row: one that the orchestrator does not hold stays; one that it holds is
-- assigned if a worker of it is not known to be dead, else it has failed at the instant, with an error.
abbrev pub IsLaid : (Option String → Option (List JobStatus)) → ℕ → (t u : Task) → Type 0
IsLaid workers now t u =
    ((is_zombie t ≡ false) × (u ≡ t))
    ⊎ (((is_zombie t ≡ true)
          × ((has_recoverable_worker (workers t.external_id) ≡ true) × (u.status ≡ assigned)))
        ⊎ ((is_zombie t ≡ true)
            × ((has_recoverable_worker (workers t.external_id) ≡ false)
                × ((u.status ≡ failed) × ((u.completed_at ≡ some now) × (has_error u ≡ true))))))

-- Row by row, in two tables of the same length.
abbrev pub Each : (Task → Task → Type 0) → List Task → List Task → Type 0
Each R [] [] = Unit
Each R (t ∷ ts) (u ∷ us) = R t u × Each R ts us
Each R [] (u ∷ us) = ⊥
Each R (t ∷ ts) [] = ⊥

-- The two sweeps of a row.
swept-IsLaid :
    (workers : Option String → Option (List JobStatus)) (at now : ℕ) (t : Task)
    → has_id t ≡ true
    → IsLaid workers now t (sweep_zombie workers now (sweep_orphan workers at now t))
swept-IsLaid workers at now t h = ground (arith, h)

zombie-IsLaid :
    (workers : Option String → Option (List JobStatus)) (now : ℕ) (t : Task)
    → has_id t ≡ true
    → IsLaid workers now t (sweep_zombie workers now t)
zombie-IsLaid workers now t h = ground (arith, h)

sweeps-IsLaid :
    (workers : Option String → Option (List JobStatus)) (at : Option ℕ) (now : ℕ) (ts : List Task)
    → AllNamed ts
    → Each
        (IsLaid workers now)
        ts
        (cleanup_zombie_tasks workers now (cleanup_orphaned_tasks workers at now ts))
unfolding cleanup_zombie_tasks cleanup_orphaned_tasks
sweeps-IsLaid workers none now [] h = tt
sweeps-IsLaid workers none now (t ∷ ts) h =
    (zombie-IsLaid workers now t h.0, sweeps-IsLaid workers none now ts h.1)
sweeps-IsLaid workers (some at) now [] h = tt
sweeps-IsLaid workers (some at) now (t ∷ ts) h =
    (swept-IsLaid workers at now t h.0, sweeps-IsLaid workers (some at) now ts h.1)

while_dead-tasks :
    (v : Look) (s : State) → (while_dead v s).0.tasks ≡ cleanup_zombie_tasks v.workers v.now s.tasks
unfolding while_dead
while_dead-tasks v s = ground (arith, Option-cases v.session)

attend-dead :
    (P : List Task → Type 0) (v : Look) (u : State) (nudge : Option ℕ) (alive : Bool)
    → alive ≡ false
    → P (while_dead v u).0.tasks
    → ((at : ℕ) → P (after_nudge v at u).0.tasks)
    → P
        (elim nudge as (λ _. State × Outcome) [
          | some at ↦ after_nudge v at u
          | none ↦ if alive then while_alive v u else while_dead v u
        ]).0.tasks
attend-dead P v u none true d h k = cc
attend-dead P v u none false d h k = h
attend-dead P v u (some at) alive d h k = k at

-- In a table whose tasks all have external ids, a tick that finds the session dead leaves each row that
-- is no orchestrator task in progress or assigned as it is. Each that is becomes assigned if one of
-- its workers is neither failed nor timed out (or they cannot be read), and else it has failed, with
-- an error and at the instant of the tick.
pub dead_leaves_none :
    (v : Look) (s : State)
    → v.alive ≡ false
    → AllNamed s.tasks
    → Each (IsLaid v.workers v.now) s.tasks (run v s).0.tasks
unfolding run after_nudge
dead_leaves_none v s d h =
    let laid = sweeps-IsLaid v.workers (started s.agent) v.now s.tasks h in
    let P = Each (IsLaid v.workers v.now) s.tasks in
    attend-dead P v (sweep v s) s.shutdown_nudged_at v.alive d
      (subst P (sym (while_dead-tasks v (sweep v s))) laid) (λ at. rw (d) laid)
