-- ===== src/TaskQueue/Drift.antt =====
-- The drift rules of daemon/src/api/task-queue.ts: which tasks have an assignee.
use kithkit.Base.{ℕ, String, false, List, [], ◌∷◌, Option, ◌≡◌, arith}
use kithkit.Tasks.Status.{TaskStatus}
use kithkit.Tasks.Row.{Task}
use kithkit.TaskQueue.{
  Env, Request, submits, approves, rejects, retries, cancels, updates, posts, handle, step, run,
}
use kithkit.TaskQueue.Status.{is_drift}
use kithkit.TaskQueue.Routes.{retry, cancel, submit_plan, approve_plan, reject_plan, post_activity}
use kithkit.TaskQueue.Update.{
  Body, or_status, target_assignee, write_status, write_assignee, write_texts, put_row,
}
use kithkit.TaskQueue.Cases.{update_cases}

-- The row fits the rules: a pending task has no assignee, an assigned one has one with a name.
abbrev pub IsAligned : Task → Type 0
IsAligned t = is_drift t.status t.assigned_to ≡ false

-- What the route checks is what it writes.
put_row-assignee :
    (note_time : String) (t : Task) (b : Body) (ts : ℕ) (new : Option TaskStatus)
    → ((put_row note_time t b ts new t).status ≡ or_status new t.status)
      × ((put_row note_time t b ts new t).assigned_to ≡ target_assignee t new b.assignee)
unfolding write_texts write_assignee write_status
put_row-assignee note_time t b ts new = ground arith

step-IsAligned : (e : Env) (t : Task) (r : Request) → IsAligned t → IsAligned (step e t r)
unfolding step handle submit_plan approve_plan reject_plan retry cancel post_activity is_drift
step-IsAligned e t (submits f ts) h = ground (arith, h)
step-IsAligned e t (approves ts) h = ground (arith, h)
step-IsAligned e t (rejects f ts) h = ground (arith, h)
step-IsAligned e t (retries ts) h = ground (arith, h)
step-IsAligned e t (cancels ws ts) h = ground (arith, h)
step-IsAligned e t (posts b ts) h = ground (arith, h)
step-IsAligned e t (updates b ts) h = ground (
  arith,
  h,
  update_cases e.safe_record e.retro e.note_time IsAligned t b ts h
      (λ new c. ground (arith, c.fits, put_row-assignee e.note_time t b ts new)),
)

-- Whatever requests arrive at these routes, one after the other, a task that is pending has no
-- assignee and a task that is assigned has one whose name is not empty, if that holds at first.
pub run-IsAligned : (e : Env) (t : Task) (rs : List Request) → IsAligned t → IsAligned (run e t rs)
unfolding run
run-IsAligned e t [] h = h
run-IsAligned e t (r ∷ rs) h = run-IsAligned e (step e t r) rs (step-IsAligned e t r h)
