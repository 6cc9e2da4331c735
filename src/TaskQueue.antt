-- ===== src/TaskQueue.antt =====
-- daemon/src/api/task-queue.ts: the older routes on the tasks of kind `orchestrator`, as one step
-- function on a row.
pub mod Status
pub mod Routes
pub mod Update
pub mod Cases
pub mod Drift
pub mod Moves
pub mod Both
pub mod Rows
pub mod Created
pub mod Throws
mod Samples
use kithkit.Base.{ℕ, String, Bool, List, [], ◌∷◌, if◌then◌else◌}
use kithkit.Base.Js.{Field}
use kithkit.Tasks.Row.{Task, is_todo, Answer, refused, written}
use kithkit.TaskQueue.Routes.{
  retry, cancel, submit_plan, approve_plan, reject_plan, ActivityBody, post_activity,
}
use kithkit.TaskQueue.Update.{Body, update}

pub data Request : Type 0 where
  submits rejects : Field → ℕ → Request
  approves retries : ℕ → Request
  cancels : List String → ℕ → Request
  updates : Body → ℕ → Request
  posts : ActivityBody → ℕ → Request

-- What the routes take from elsewhere: JavaScript's `trim`, the credential guard's verdicts, the
-- configuration's `retro.enabled`, and the present instant as a text.
pub record Env : Type 0 where
  pub trim : String → String
  pub safe_text : String → Bool
  pub safe_record : Task → Body → Bool
  pub retro : Bool
  pub note_time : String

abbrev pub route : Env → Task → Request → Answer
route e t (submits plan ts) = submit_plan e.safe_text t plan ts
route e t (approves ts) = approve_plan t ts
route e t (rejects reason ts) = reject_plan e.trim e.safe_text t reason ts
route e t (retries ts) = retry t ts
route e t (cancels workers ts) = cancel t workers ts
route e t (updates b ts) = update e.safe_record e.retro e.note_time t b ts
route e t (posts b ts) = post_activity e.safe_text b ts

-- `getTask` finds no task of the kind `todo`.
unfoldable pub handle : Env → Task → Request → Answer
unfolding submit_plan approve_plan reject_plan retry cancel update post_activity
handle e t r = if is_todo t.kind then refused 404 else route e t r

-- One request on the row, with nothing between its read and its write.
unfoldable pub step : Env → Task → Request → Task
unfolding handle
step e t r = written (handle e t r) t

unfoldable pub run : Env → Task → List Request → Task
unfolding step
run e t [] = t
run e t (r ∷ rs) = run e (step e t r) rs
