-- ===== src/TaskQueue/Moves.antt =====
-- How a request at the routes of daemon/src/api/task-queue.ts changes the status of a task.
use kithkit.Base.{
  ℕ, String, true, false, List, Option, none, some, ◌≡◌, ◌⊎◌, inl, inr, refl, arith, Option-cases,
}
use kithkit.Base.Js.{Field}
use kithkit.Tasks.Checked.{ok}
use kithkit.Tasks.Status.{TaskStatus, includes, parse_status, normalize_status_alias}
use kithkit.Tasks.Row.{Task}
use kithkit.TaskQueue.{
  Env, Request, submits, approves, rejects, retries, cancels, updates, posts, handle, step,
}
use kithkit.TaskQueue.Status.{valid_statuses, valid_transitions, permits}
use kithkit.TaskQueue.Routes.{retry, cancel, submit_plan, approve_plan, reject_plan, post_activity}
use kithkit.TaskQueue.Update.{Body, aim, target, write_status, write_assignee, write_texts, put_row}
use kithkit.TaskQueue.Cases.{update_cases}

-- A status that the routes know.
abbrev pub IsKnown : TaskStatus → Type 0
IsKnown s = includes valid_statuses s ≡ true

-- The status stays or takes a transition of the table, to a status that the routes know.
abbrev pub TableMove : TaskStatus → TaskStatus → Type 0
TableMove s u = ((u ≡ s) ⊎ (permits s u ≡ true)) × IsKnown u

aim-permits :
    (allowed : Option (List TaskStatus)) (n new : TaskStatus)
    → aim allowed n ≡ ok (some new)
    → (elim allowed [ none ↦ false | some l ↦ includes l new ]) ≡ true
aim-permits none n new h = cc
aim-permits (some l) n new h = ground (arith, h)

permits-IsKnown : (s u : TaskStatus) → permits s u ≡ true → IsKnown u
unfolding permits valid_transitions
permits-IsKnown s u h = ground (arith, h)

-- A new status has passed the table.
target-permits :
    (t : Task) (f : Field) (new : TaskStatus)
    → target t f ≡ ok (some new)
    → permits t.status new ≡ true
unfolding target permits
target-permits t none new h = cc
target-permits t (some v) new h =
    elim (Option-cases (parse_status valid_statuses (normalize_status_alias v))) [
      | inl e ↦ ground (arith, h, e)
      | inr (n, e) ↦ aim-permits (valid_transitions t.status) n new (ground (arith, h, e))
    ]

put_row-TableMove :
    (note_time : String) (t : Task) (b : Body) (ts : ℕ) (new : Option TaskStatus)
    → IsKnown t.status
    → target t b.status ≡ ok new
    → TableMove t.status (put_row note_time t b ts new t).status
unfolding write_texts write_assignee write_status
put_row-TableMove note_time t b ts none k h = ground (arith, k)
put_row-TableMove note_time t b ts (some new) k h =
    ground (arith, k, target-permits t b.status new h, permits-IsKnown t.status new)

-- A request leaves the status of a task, or changes it by a transition of the table, from each of the
-- seven statuses that the routes know.
pub step-TableMove :
    (e : Env) (t : Task) (r : Request) → IsKnown t.status → TableMove t.status (step e t r).status
unfolding step handle submit_plan approve_plan reject_plan retry cancel post_activity permits
    valid_transitions
step-TableMove e t (submits f ts) k = ground (arith, k)
step-TableMove e t (approves ts) k = ground (arith, k)
step-TableMove e t (rejects f ts) k = ground (arith, k)
step-TableMove e t (retries ts) k = ground (arith, k)
step-TableMove e t (cancels ws ts) k = ground (arith, k)
step-TableMove e t (posts b ts) k = ground (arith, k)
step-TableMove e t (updates b ts) k = ground (
  arith,
  k,
  update_cases e.safe_record e.retro e.note_time (λ u. TableMove t.status u.status) t b ts
      (inl refl, k) (λ new c. put_row-TableMove e.note_time t b ts new k c.aimed),
)
