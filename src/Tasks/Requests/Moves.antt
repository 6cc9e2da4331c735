-- ===== src/Tasks/Requests/Moves.antt =====
-- How a request changes the status of a task, compared with the state machine's transitions.
use kithkit.Base.{ℕ, String, true, Option, none, some, ◌≡◌, ◌⊎◌, inl, refl, arith}
use kithkit.Base.Js.{JsValue}
use kithkit.Tasks.Checked.{ok}
use kithkit.Tasks.Status.{
  TaskStatus, planning, awaiting_approval, in_progress, blocked, cancelled, validate_transition,
}
use kithkit.Tasks.Row.{orchestrator, Task}
use kithkit.Tasks.Plan.{submit_plan, approve_plan, reject_plan}
use kithkit.Tasks.Ending.{retry, cancel}
use kithkit.Tasks.Update.{target}
use kithkit.Tasks.Writes.{Body, write_status, write_assignee, write_extras, write_texts}
use kithkit.Tasks.Update.Cases.{put_row, update_cases}
use kithkit.Tasks.Requests.{
  Env, Request, submits, approves, rejects, retries, cancels, updates, handle, step,
}

-- The transitions of the state machine, and the two moves outside it that routes make: a plan that
-- is submitted in the middle of the work, and a cancellation of work that has begun.
abbrev pub Move : TaskStatus → TaskStatus → Type 0
Move s s' =
    (s' ≡ s)
    ⊎ (validate_transition s s' ≡ true)
    ⊎ ((s ≡ in_progress) × (s' ≡ awaiting_approval))
    ⊎ (((s ≡ planning) ⊎ (s ≡ awaiting_approval) ⊎ (s ≡ in_progress) ⊎ (s ≡ blocked))
        × (s' ≡ cancelled))

target-permitted :
    (t : Task) (f : Option JsValue) (new : TaskStatus)
    → t.kind ≡ orchestrator
    → target t f ≡ ok (some new)
    → validate_transition t.status new ≡ true
unfolding target
target-permitted t none new k e = ground arith
target-permitted t (some v) new k e = ground arith

write_status-Move :
    (t : Task) (b : Body) (ts : ℕ) (new : Option TaskStatus) (title : Option String)
    → t.kind ≡ orchestrator
    → target t b.status ≡ ok new
    → Move t.status (put_row t b ts new title t).status
unfolding write_texts write_extras write_assignee write_status
write_status-Move t b ts none title k e = ground arith
write_status-Move t b ts (some new) title k e = ground (arith, target-permitted t b.status new k e)

-- Whatever the request, the status of an orchestrator task stays, takes a transition of the state
-- machine, goes from `in_progress` to `awaiting_approval`, or goes from `planning`,
-- `awaiting_approval`, `in_progress` or `blocked` to `cancelled`.
pub step-Move :
    (e : Env) (t : Task) (r : Request) → t.kind ≡ orchestrator → Move t.status (step e t r).status
unfolding step handle submit_plan approve_plan reject_plan retry cancel validate_transition
step-Move e t (submits f ts) k = ground arith
step-Move e t (approves ts) k = ground arith
step-Move e t (rejects f ts) k = ground arith
step-Move e t (retries f ts) k = ground arith
step-Move e t (cancels ws ts) k = ground arith
step-Move e t (updates b ts) k =
    update_cases (λ u. Move t.status u.status) e.trim e.safe_record e.retro t b ts (inl refl)
      λ new title _ aimed _ _. write_status-Move t b ts new title k aimed
