-- ===== src/Tasks/Requests.antt =====
-- The lifecycle requests of daemon/src/api/unified-tasks.ts as one step function on a row.
pub mod Stamps
pub mod Moves
pub mod Final
pub mod Review
pub mod Gaps
use kithkit.Base.{ℕ, String, Bool, List, [], ◌∷◌}
use kithkit.Base.Js.{Field}
use kithkit.Tasks.Row.{Task, Answer, written}
use kithkit.Tasks.Plan.{submit_plan, approve_plan, reject_plan}
use kithkit.Tasks.Ending.{retry, cancel}
use kithkit.Tasks.Update.{update}
use kithkit.Tasks.Writes.{Body}

pub data Request : Type 0 where
  submits rejects retries : Field → ℕ → Request
  approves : ℕ → Request
  cancels : List String → ℕ → Request
  updates : Body → ℕ → Request

-- What the routes take from elsewhere: JavaScript's `trim`, the credential guard's verdicts, and
-- the configuration's `retro.enabled`.
pub record Env : Type 0 where
  pub trim : String → String
  pub safe_text : String → Bool
  pub safe_record : Task → Body → Bool
  pub retro : Bool

unfoldable pub handle : Env → Task → Request → Answer
handle e t (submits plan ts) = submit_plan e.safe_text t plan ts
handle e t (approves ts) = approve_plan t ts
handle e t (rejects reason ts) = reject_plan e.trim e.safe_text t reason ts
handle e t (retries reason ts) = retry t reason ts
handle e t (cancels workers ts) = cancel t workers ts
handle e t (updates b ts) = update e.trim e.safe_record e.retro t b ts

-- One request on the row, with nothing between its read and its write.
unfoldable pub step : Env → Task → Request → Task
unfolding handle
step e t r = written (handle e t r) t

unfoldable pub run : Env → Task → List Request → Task
run e t [] = t
run e t (r ∷ rs) = run e (step e t r) rs
