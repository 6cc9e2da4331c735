-- ===== src/Tasks/Requests/Stamps.antt =====
-- The timestamps of a row follow its status, whatever requests arrive.
use kithkit.Base.{
  ℕ, String, Bool, true, List, [], ◌∷◌, Option, none, some, ◌≡◌, ◌≢◌, arith, if◌then◌else◌,
}
use kithkit.Base.Js.{Field}
use kithkit.Tasks.Status.{
  TaskStatus, assigned, in_progress, is_terminal, get_transition_side_effects,
}
use kithkit.Tasks.Row.{Task, written}
use kithkit.Tasks.Plan.{submit_plan, approve_plan, reject_plan}
use kithkit.Tasks.Ending.{retry, cancel}
use kithkit.Tasks.Writes.{
  Body, write_status, write_assignee, write_extras, write_texts, clears_assignee,
}
use kithkit.Tasks.Update.Cases.{put_row, update_cases}
use kithkit.Tasks.Requests.{
  Env, Request, submits, approves, rejects, retries, cancels, updates, handle, step, run,
}

pub record IsStamped (t : Task) : Type 0 where
  pub ended : is_terminal t.status ≡ true → t.completed_at ≢ none
  pub begun : t.status ≡ in_progress → t.started_at ≢ none
  pub taken : t.status ≡ assigned → t.assigned_at ≢ none

submit_plan-IsStamped :
    (safe : String → Bool) (t : Task) (plan : Field) (ts : ℕ)
    → IsStamped t
    → IsStamped (written (submit_plan safe t plan ts) t)
unfolding submit_plan
submit_plan-IsStamped safe t plan ts v = ground arith

approve_plan-IsStamped :
    (t : Task) (ts : ℕ) → IsStamped t → IsStamped (written (approve_plan t ts) t)
unfolding approve_plan
approve_plan-IsStamped t ts v = ground arith

retry-IsStamped :
    (t : Task) (f : Field) (ts : ℕ) → IsStamped t → IsStamped (written (retry t f ts) t)
unfolding retry
retry-IsStamped t f ts v = ground arith

cancel-IsStamped :
    (t : Task) (ws : List String) (ts : ℕ) → IsStamped t → IsStamped (written (cancel t ws ts) t)
unfolding cancel
cancel-IsStamped t ws ts v = ground arith

reject_plan-IsStamped :
    (trim : String → String) (safe : String → Bool) (t : Task) (f : Field) (ts : ℕ)
    → IsStamped t
    → IsStamped (written (reject_plan trim safe t f ts) t)
unfolding reject_plan
reject_plan-IsStamped trim safe t f ts v = ground arith

write_status-IsStamped :
    (t : Task) (new : Option TaskStatus) (ts : ℕ)
    → IsStamped t
    → IsStamped (write_status t new ts t)
unfolding write_status get_transition_side_effects
write_status-IsStamped t none ts v = v
write_status-IsStamped t (some new) ts v = ground arith

write_assignee-IsStamped :
    (t : Task) (f : Field) (ts : ℕ) (row : Task)
    → IsStamped row
    → IsStamped (write_assignee t f ts row)
unfolding write_assignee
write_assignee-IsStamped t none ts row v = v
write_assignee-IsStamped t (some x) ts row v = ground arith

put_row-IsStamped :
    (t : Task) (b : Body) (ts : ℕ) (new : Option TaskStatus) (title : Option String)
    → IsStamped t
    → IsStamped (put_row t b ts new title t)
unfolding write_texts write_extras
put_row-IsStamped t b ts new title v =
    let w =
      write_assignee-IsStamped t (if clears_assignee new then none else b.assigned_to) ts
        (write_status t new ts t) (write_status-IsStamped t new ts v) in
    record { ended = w.ended; begun = w.begun; taken = w.taken }

step-IsStamped : (e : Env) (t : Task) (r : Request) → IsStamped t → IsStamped (step e t r)
unfolding step handle
step-IsStamped e t (submits f ts) v = submit_plan-IsStamped e.safe_text t f ts v
step-IsStamped e t (approves ts) v = approve_plan-IsStamped t ts v
step-IsStamped e t (rejects f ts) v = reject_plan-IsStamped e.trim e.safe_text t f ts v
step-IsStamped e t (retries f ts) v = retry-IsStamped t f ts v
step-IsStamped e t (cancels ws ts) v = cancel-IsStamped t ws ts v
step-IsStamped e t (updates b ts) v =
    update_cases IsStamped e.trim e.safe_record e.retro t b ts v
      (λ new title _ _ _ _. put_row-IsStamped t b ts new title v)

-- Whatever requests arrive, one after the other, a row whose timestamps fit its status keeps them
-- fitting: a completed, failed, abandoned or cancelled task has `completed_at`, a task in progress
-- has `started_at`, an assigned one has `assigned_at`.
pub run-IsStamped : (e : Env) (t : Task) (rs : List Request) → IsStamped t → IsStamped (run e t rs)
unfolding run
run-IsStamped e t [] v = v
run-IsStamped e t (r ∷ rs) v = run-IsStamped e (step e t r) rs (step-IsStamped e t r v)
