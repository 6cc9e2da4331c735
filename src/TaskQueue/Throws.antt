-- ===== src/TaskQueue/Throws.antt =====
-- daemon/src/api/task-queue.ts: PUT on a task whose status the older routes do not know.
use kithkit.Base.{String, Bool, false, none, some, ◌≡◌, arith, ℕ}
use kithkit.Base.Js.{JsValue}
use kithkit.Tasks.Checked.{ok, fail}
use kithkit.Tasks.Status.{TaskStatus, includes, parse_status, normalize_status_alias}
use kithkit.Tasks.Row.{Task, orchestrator, refused}
use kithkit.TaskQueue.{Env, updates, handle}
use kithkit.TaskQueue.Status.{valid_statuses, valid_transitions}
use kithkit.TaskQueue.Update.{Body, guards, target, checks, update}

guards-ok :
    (t : Task) (b : Body)
    → includes valid_statuses t.status ≡ false
    → b.acknowledged_at ≡ none
    → guards t b ≡ ok tt
unfolding guards valid_transitions
guards-ok t b u a = ground (arith, u, a)

valid_transitions-none :
    (s : TaskStatus) → includes valid_statuses s ≡ false → valid_transitions s ≡ none
unfolding valid_transitions
valid_transitions-none s u = ground (arith, u)

target-throws :
    (t : Task) (b : Body) (v : JsValue) (new : TaskStatus)
    → includes valid_statuses t.status ≡ false
    → b.status ≡ some v
    → parse_status valid_statuses (normalize_status_alias v) ≡ some new
    → target t b.status ≡ fail 500
unfolding target
target-throws t b v new u s p = ground (arith, s, p, valid_transitions-none t.status u)

checks-throws :
    (safe : Task → Body → Bool) (retro : Bool) (note_time : String) (t : Task) (b : Body)
    → guards t b ≡ ok tt
    → target t b.status ≡ fail 500
    → checks safe retro note_time t b ≡ fail 500
unfolding checks
checks-throws safe retro note_time t b g h = simp (g, h)

-- On a task whose status is none of the seven that the older routes know, a PUT that names one of the
-- seven (or an alias of one) and has no `acknowledged_at` is answered with 500.
pub unlisted_status_throws :
    (e : Env) (t : Task) (b : Body) (v : JsValue) (new : TaskStatus) (ts : ℕ)
    → t.kind ≡ orchestrator
    → includes valid_statuses t.status ≡ false
    → b.status ≡ some v
    → b.acknowledged_at ≡ none
    → parse_status valid_statuses (normalize_status_alias v) ≡ some new
    → handle e t (updates b ts) ≡ refused 500
unfolding handle update
unlisted_status_throws e t b v new ts o u s a p = simp (
  o,
  checks-throws e.safe_record e.retro e.note_time t b (guards-ok t b u a)
      (target-throws t b v new u s p),
)
