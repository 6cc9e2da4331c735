-- ===== src/Tasks/Requests/Gaps.antt =====
-- Where the routes and the state machine differ.
use kithkit.Base.{ℕ, true, false, none, some, ◌≡◌, refl, arith}
use kithkit.Base.Js.{Field, JsValue, text}
use kithkit.Tasks.Checked.{ok, fail}
use kithkit.Tasks.Status.{
  TaskStatus, valid_statuses, failed, pending, completed, parse_status, normalize_status_alias,
  validate_raw_transition, validate_transition, get_transition_side_effects,
}
use kithkit.Tasks.Row.{Task, orchestrator, refused}
use kithkit.Tasks.Ending.{retry}
use kithkit.Tasks.Update.{guards, target}
use kithkit.Tasks.Writes.{Body, write_status, write_assignee, write_extras, write_texts}
use kithkit.Tasks.Update.Cases.{put_row, status_body, guards_refuse, status_accepted}
use kithkit.Tasks.Requests.{Env, retries, updates, handle, step}

module _ (t : Task) (v : JsValue) (h : t.status ≡ failed) (k : t.kind ≡ orchestrator) where
  failed-guards : validate_raw_transition failed v ≡ true → guards t (status_body v) ≡ ok tt
  unfolding guards
  failed-guards e = ground arith

  failed-guards_refuse :
      validate_raw_transition failed v ≡ false → guards t (status_body v) ≡ fail 409
  unfolding guards
  failed-guards_refuse e = ground arith

  failed-target :
      {new : TaskStatus}
      → parse_status valid_statuses (normalize_status_alias v) ≡ some new
      → validate_transition failed new ≡ true
      → target t (some v) ≡ ok (some new)
  unfolding target
  failed-target e p = ground arith

module _ (e : Env) (t : Task) (ts : ℕ) (h : t.status ≡ failed) (k : t.kind ≡ orchestrator)
    (safe : (b : Body) → e.safe_record t b ≡ true) where
  failed-update :
      (v : JsValue) {new : TaskStatus}
      → validate_raw_transition failed v ≡ true
      → parse_status valid_statuses (normalize_status_alias v) ≡ some new
      → validate_transition failed new ≡ true
      → step e t (updates (status_body v) ts) ≡ put_row t (status_body v) ts (some new) none t
  unfolding step handle
  failed-update v p q r =
      status_accepted e.trim e.safe_record e.retro t v ts (failed-guards t v h k p)
        (failed-target t v h k q r) (safe (status_body v))

-- A failed orchestrator task takes `completed` as its new status, and refuses `done`, though the
-- route otherwise reads `done` as `completed`.
pub done_refused :
    (e : Env) (t : Task) (ts : ℕ)
    → t.status ≡ failed
    → t.kind ≡ orchestrator
    → ((b : Body) → e.safe_record t b ≡ true)
    → ((step e t (updates (status_body (text "completed")) ts)).status ≡ completed)
      × (handle e t (updates (status_body (text "done")) ts) ≡ refused 409)
unfolding handle step guards target write_status write_assignee write_texts write_extras
    normalize_status_alias parse_status validate_raw_transition validate_transition
    get_transition_side_effects
done_refused e t ts h k safe = (
  rw (failed-update e t ts h k safe (text "completed") {new = completed} refl refl refl) refl,
  guards_refuse e.trim e.safe_record e.retro t (status_body (text "done")) ts
      (failed-guards_refuse t (text "done") h k refl),
)

-- Retry clears `completed_at` of a failed task; a PUT of the status `pending`, which the state
-- machine permits just so, leaves it standing on the pending task.
pub pending_keeps_completed_at :
    (e : Env) (t : Task) (reason : Field) (ts : ℕ)
    → t.status ≡ failed
    → t.kind ≡ orchestrator
    → ((b : Body) → e.safe_record t b ≡ true)
    → let put_back = step e t (updates (status_body (text "pending")) ts) in
      let retried = step e t (retries reason ts) in
      (put_back.status ≡ pending)
      × (put_back.completed_at ≡ t.completed_at)
      × (retried.status ≡ pending)
      × (retried.completed_at ≡ none)
unfolding handle step retry write_status write_assignee write_texts write_extras
    normalize_status_alias parse_status validate_raw_transition validate_transition
    get_transition_side_effects
pending_keeps_completed_at e t reason ts h k safe =
    let put_back = failed-update e t ts h k safe (text "pending") {new = pending} refl refl refl in
    (rw put_back refl, rw put_back (ground arith), ground arith, ground arith)
