-- ===== src/Watchdog/Frozen.antt =====
-- daemon/src/automation/tasks/context-watchdog.ts: its queries and updates of the table `tasks`.
-- Instants are compared in place of their texts, which have one format.
pub mod Exact
use kithkit.Base.{
  ℕ, String, Bool, true, false, not, ◌&&◌, ◌||◌, List, [], ◌∷◌, map, Option, none, some, any,
  filter, str_eq, ltb, if◌then◌else◌,
}
use kithkit.Tasks.Status.{TaskStatus, pending, assigned, in_progress, failed, same}
use kithkit.Tasks.Row.{Task, is_todo}

-- `status IN ('in_progress', 'assigned')`
abbrev pub is_live : TaskStatus → Bool
is_live s = same s in_progress || same s assigned

unfoldable pub is_frozen : (cutoff : ℕ) → Task → Bool
is_frozen cutoff t = not (is_todo t.kind) && is_live t.status && ltb t.updated_at cutoff

abbrev pub later : ℕ → Option ℕ → ℕ
later n none = n
later n (some m) = if ltb n m then m else n

-- `MAX(updated_at)` of the orchestrator tasks with a status, `none` where there are none.
unfoldable pub max_updated_at : TaskStatus → List Task → Option ℕ
max_updated_at s [] = none
max_updated_at s (t ∷ ts) =
    let rest = max_updated_at s ts in
    if not (is_todo t.kind) && same t.status s then some (later t.updated_at rest) else rest

abbrev pub is_id : String → Option String → Bool
is_id x none = false
is_id x (some y) = str_eq x y

-- `external_id IN (…)`, where NULL is in no list.
abbrev pub is_in : List (Option String) → Option String → Bool
is_in ids none = false
is_in ids (some x) = any (is_id x) ids

unfoldable pub frozen_ids : ℕ → List Task → List (Option String)
unfolding is_frozen
frozen_ids cutoff tasks = map (λ t. t.external_id) (filter (is_frozen cutoff) tasks)

-- `UPDATE tasks SET … WHERE external_id IN (…) AND status IN ('in_progress', 'assigned')`
unfoldable pub update_in : List (Option String) → (Task → Task) → List Task → List Task
update_in ids change [] = []
update_in ids change (t ∷ ts) =
    (if is_in ids t.external_id && is_live t.status then change t else t) ∷ update_in ids change ts

abbrev pub reset : ℕ → Task → Task
reset now t = record t { status = pending; assigned_to = none; error = none; updated_at = now }

abbrev pub give_up : ℕ → Task → Task
give_up now t = record t {
  status = failed;
  error = some "wedge_restart_cap_exceeded";
  completed_at = some now;
  updated_at = now;
}
