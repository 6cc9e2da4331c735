-- ===== src/Tasks/Requests/Review.antt =====
-- A plan that waits for approval.
use kithkit.Base.{ℕ, String, Option, none, some, ◌≡◌, refl, arith, ◌&&◌}
use kithkit.Base.Js.{Field, given}
use kithkit.Tasks.Checked.{ok, deny_if}
use kithkit.Tasks.Status.{TaskStatus, awaiting_approval}
use kithkit.Tasks.Row.{Task, PlanStatus, submitted, approved, is_submitted}
use kithkit.Tasks.Plan.{submit_plan, approve_plan, reject_plan}
use kithkit.Tasks.Ending.{retry, cancel}
use kithkit.Tasks.Writes.{Body, write_status, write_assignee, write_extras, write_texts}
use kithkit.Tasks.Update.Cases.{put_row, update_cases}
use kithkit.Tasks.Requests.{
  Env, Request, submits, approves, rejects, retries, cancels, updates, handle, step,
}

-- A row whose plan is under review.
abbrev pub IsUnderReview : Task → Type 0
IsUnderReview t = (t.status ≡ awaiting_approval) × (t.plan_status ≡ some submitted)

-- The plan is as it was, and it has become approved by approve-plan only.
abbrev pub Reviewed : Task → Request → Task → Type 0
Reviewed t r u = (u.plan ≡ t.plan) × (u.plan_status ≡ some approved → (ts : ℕ) × (r ≡ approves ts))

no_plan :
    (f : Field) (p : Option PlanStatus)
    → p ≡ some submitted
    → deny_if (given f && is_submitted p) 409 ≡ ok tt
    → f ≡ none
no_plan none p h e = refl
no_plan (some v) p h e = ground arith

put_row-Reviewed :
    (t : Task) (r : Request) (b : Body) (ts : ℕ) (new : Option TaskStatus) (title : Option String)
    → t.plan_status ≡ some submitted
    → b.plan ≡ none
    → Reviewed t r (put_row t b ts new title t)
unfolding write_texts write_extras write_assignee write_status
put_row-Reviewed t r b ts new title h p = (ground arith, ground arith)

-- While a plan is under review no request changes its text, and only approve-plan approves it.
pub review_keeps_plan :
    (e : Env) (t : Task) (r : Request) → IsUnderReview t → Reviewed t r (step e t r)
unfolding step handle submit_plan approve_plan reject_plan retry cancel
review_keeps_plan e t (submits p ts) h = (ground arith, ground arith)
review_keeps_plan e t (approves ts) h = (ground arith, λ _. (ts, refl))
review_keeps_plan e t (rejects p ts) h = (ground arith, ground arith)
review_keeps_plan e t (retries p ts) h = (ground arith, ground arith)
review_keeps_plan e t (cancels ws ts) h = (ground arith, ground arith)
review_keeps_plan e t (updates b ts) h =
    update_cases (Reviewed t (updates b ts)) e.trim e.safe_record e.retro t b ts
      (refl, ground arith)
      λ new title _ _ _ unplanned.
        put_row-Reviewed t (updates b ts) b ts new title h.1
          (no_plan b.plan t.plan_status h.1 unplanned)
