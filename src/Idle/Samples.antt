-- ===== src/Idle/Samples.antt =====
-- Small tables and ticks of the idle monitor, and the theorems at them.
use kithkit.Base.{
  ℕ, ◌+◌, ◌*◌, ◌≤◌, Bool, true, false, List, [], ◌∷◌, none, some, ◌≡◌, ◌↔◌, refl, arith,
}
use kithkit.Tasks.Status.{in_progress}
use kithkit.Tasks.Row.{Task}
use kithkit.TaskQueue.Rows.{CreateBody, new_task}
use kithkit.Agents.Job
use kithkit.Idle.{State, Look, force_killed, run, max_held}
use kithkit.Idle.Mercy.{IsWithoutWork, force_killed_iff}
use kithkit.Idle.Zombies.{IsLaid, Each, dead_leaves_none}
use kithkit.Idle.Reaped.{is_reaped, four_ticks_reap}

abbrev wish : CreateBody
wish = record {
  title = none;
  description = none;
  priority = none;
  source = none;
  work_notes = none;
  timeout_seconds = none;
  complexity = none;
  canonical_task_external_id = none;
  requesting_peer = none;
}

abbrev held : Task
held = record (new_task (λ s. s) "t1" wish "port the parser" 1) {
  status = in_progress;
  assigned_to = some "orchestrator";
}

abbrev asked_to_leave : State
asked_to_leave = record {
  just_spawned_at = none;
  shutdown_nudged_at = some 100000;
  pending_active_nudged_at = none;
  last_in_progress_updated_at = none;
  in_progress_no_progress_ticks = 0;
  tasks = [];
  jobs = [];
  agent = none;
}

abbrev look : ℕ → (alive processing : Bool) → Look
look now alive processing = record {
  now = now;
  alive = alive;
  processing = processing;
  injected = true;
  session = some "orch";
  context_file = none;
  idle_timeout_minutes = none;
  workers = λ t. some (Job.timeout ∷ []);
}

-- Claude works again, and the session is killed all the same.
killed_at_work : (run (look 160000 true true) asked_to_leave).1 ≡ force_killed
unfolding run
killed_at_work = refl

force_killed_iff_example :
    ((run (look 150000 true true) asked_to_leave).1 ≡ force_killed)
    ↔ ((true ≡ true) × ((100000 + 60 * 1000 ≤ 150000) × IsWithoutWork asked_to_leave))
force_killed_iff_example = force_killed_iff (look 150000 true true) asked_to_leave 100000 refl

abbrev with_held : State
with_held = record asked_to_leave { shutdown_nudged_at = none; tasks = held ∷ [] }

dead_leaves_none_example :
    Each
      (IsLaid (λ id. some (Job.timeout ∷ [])) 900)
      (held ∷ [])
      (run (look 900 false false) with_held).0.tasks
dead_leaves_none_example = dead_leaves_none (look 900 false false) with_held refl (refl, tt)

abbrev looks : List Look
looks =
    look 700000 true false
    ∷ look 1400000 true false
    ∷ look 2100000 true false
    ∷ look 2800000 true false
    ∷ []

four_ticks_reap_example : is_reaped looks with_held ≡ true
unfolding max_held
four_ticks_reap_example = four_ticks_reap with_held 1 looks refl refl (omega arith)
