-- ===== src/Watchdog/Stamped.antt =====
-- A request at the routes of daemon/src/api/unified-tasks.ts or daemon/src/api/task-queue.ts that
-- changes a row sets `updated_at`.
use kithkit.Base.{ℕ, String, Option, none, some, ◌≡◌, ◌⊎◌, inl, inr, refl, arith}
use kithkit.Tasks.Status.{TaskStatus}
use kithkit.Tasks.Row.{Task}
use kithkit.Tasks.Requests
use kithkit.Tasks.Plan
use kithkit.Tasks.Ending
use kithkit.Tasks.Writes
use kithkit.Tasks.Update.Cases as NewerCases
use kithkit.TaskQueue
use kithkit.TaskQueue.Routes
use kithkit.TaskQueue.Update as Older
use kithkit.TaskQueue.Cases as OlderCases
use kithkit.TaskQueue.Both.{AnyRequest, newer, older, any_step}
use kithkit.Watchdog.Daemon.{newer_time, older_time, request_time}

abbrev pub Stamped : ℕ → Task → Task → Type 0
Stamped ts t u = (u ≡ t) ⊎ ((u.updated_at ≡ ts) × (u.external_id ≡ t.external_id))

newer_row :
    (t : Task) (b : Writes.Body) (ts : ℕ) (new : Option TaskStatus) (title : Option String)
    → Stamped ts t (NewerCases.put_row t b ts new title t)
unfolding Writes.write_texts Writes.write_extras Writes.write_assignee Writes.write_status
newer_row t b ts none title = inr (ground arith)
newer_row t b ts (some new) title = inr (ground arith)

newer-Stamped :
    (e : Requests.Env) (t : Task) (r : Requests.Request)
    → Stamped (newer_time r) t (Requests.step e t r)
unfolding Requests.step Requests.handle Plan.submit_plan Plan.approve_plan Plan.reject_plan
    Ending.retry Ending.cancel
newer-Stamped e t (Requests.submits f ts) = ground arith
newer-Stamped e t (Requests.approves ts) = ground arith
newer-Stamped e t (Requests.rejects f ts) = ground arith
newer-Stamped e t (Requests.retries f ts) = ground arith
newer-Stamped e t (Requests.cancels ws ts) = ground arith
newer-Stamped e t (Requests.updates b ts) =
    NewerCases.update_cases (Stamped ts t) e.trim e.safe_record e.retro t b ts (inl refl)
      λ new title _ _ _ _. newer_row t b ts new title

older_row :
    (note_time : String) (t : Task) (b : Older.Body) (ts : ℕ) (new : Option TaskStatus)
    → Stamped ts t (Older.put_row note_time t b ts new t)
unfolding Older.write_texts Older.write_assignee Older.write_status
older_row note_time t b ts none = inr (ground arith)
older_row note_time t b ts (some new) = inr (ground arith)

older-Stamped :
    (e : TaskQueue.Env) (t : Task) (r : TaskQueue.Request)
    → Stamped (older_time r) t (TaskQueue.step e t r)
unfolding TaskQueue.step TaskQueue.handle Routes.submit_plan Routes.approve_plan Routes.reject_plan
    Routes.retry Routes.cancel Routes.post_activity
older-Stamped e t (TaskQueue.submits f ts) = ground arith
older-Stamped e t (TaskQueue.approves ts) = ground arith
older-Stamped e t (TaskQueue.rejects f ts) = ground arith
older-Stamped e t (TaskQueue.retries ts) = ground arith
older-Stamped e t (TaskQueue.cancels ws ts) = ground arith
older-Stamped e t (TaskQueue.posts b ts) = ground arith
older-Stamped e t (TaskQueue.updates b ts) = ground (
  arith,
  OlderCases.update_cases e.safe_record e.retro e.note_time (Stamped ts t) t b ts (inl refl)
      λ new _. older_row e.note_time t b ts new,
)

-- The row stays, or it keeps its external id and has the instant of the request in `updated_at`.
pub any_step-Stamped :
    (e_newer : Requests.Env) (e_older : TaskQueue.Env) (t : Task) (r : AnyRequest)
    → Stamped (request_time r) t (any_step e_newer e_older t r)
unfolding any_step
any_step-Stamped e_newer e_older t (newer r) = newer-Stamped e_newer t r
any_step-Stamped e_newer e_older t (older r) = older-Stamped e_older t r
