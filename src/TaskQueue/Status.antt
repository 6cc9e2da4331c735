-- ===== src/TaskQueue/Status.antt =====
-- daemon/src/api/task-queue.ts: the statuses that its routes know, seven of those of the state
-- machine, and the transitions between them.
use kithkit.Base.{Bool, false, ◌&&◌, ◌||◌, List, [], ◌∷◌, Option, none, some}
use kithkit.Base.Js.{is_empty}
use Prim.Native.String.{String}
use kithkit.Tasks.Status.{
  TaskStatus, proposed, pending, assigned, planning, awaiting_approval, in_progress, blocked,
  completed, failed, abandoned, cancelled, same, includes,
}

abbrev pub valid_statuses : List TaskStatus
valid_statuses =
    pending ∷ assigned ∷ in_progress ∷ awaiting_approval ∷ completed ∷ failed ∷ cancelled ∷ []

abbrev pub terminal_statuses : List TaskStatus
terminal_statuses = completed ∷ failed ∷ cancelled ∷ []

abbrev pub is_terminal : TaskStatus → Bool
is_terminal s = includes terminal_statuses s

-- `none` where the table has no entry.
unfoldable pub valid_transitions : TaskStatus → Option (List TaskStatus)
valid_transitions pending = some (assigned ∷ failed ∷ cancelled ∷ [])
valid_transitions assigned = some (in_progress ∷ failed ∷ pending ∷ cancelled ∷ [])
valid_transitions in_progress = some (completed ∷ failed ∷ cancelled ∷ awaiting_approval ∷ [])
valid_transitions awaiting_approval = some (in_progress ∷ cancelled ∷ [])
valid_transitions completed = some []
valid_transitions failed = some (pending ∷ completed ∷ cancelled ∷ [])
valid_transitions cancelled = some []
valid_transitions proposed = none
valid_transitions planning = none
valid_transitions blocked = none
valid_transitions abandoned = none

-- Whether the table permits a transition.
unfoldable pub permits : TaskStatus → TaskStatus → Bool
unfolding valid_transitions
permits from to = elim (valid_transitions from) [
  | none ↦ false
  | some allowed ↦ includes allowed to
]

-- Whether `validateStatusAssignee` finds an error.
unfoldable pub is_drift : TaskStatus → Option String → Bool
is_drift status none = same status assigned
is_drift status (some assignee) = same status pending || same status assigned && is_empty assignee
