-- ===== src/Tasks/Status.antt =====
-- daemon/src/core/task-state-machine.ts: statuses, permitted transitions, timestamp side effects.
-- A status is a constructor, and `status_text` is the string that the source writes for it.
-- Instants are numbers; the ISO strings of the source are their renderings.
pub mod Graph
use kithkit.Base.{
  ℕ, String, Bool, true, false, ◌&&◌, ◌||◌, List, [], ◌∷◌, Option, none, some, any, str_eq, ◌==◌,
  if◌then◌else◌,
}
use kithkit.Base.Js.{JsValue, text, thing, lowers_to}

pub data TaskStatus : Type 0 where
  proposed pending assigned planning awaiting_approval in_progress blocked : TaskStatus
  completed failed abandoned cancelled : TaskStatus

abbrev pub status_text : TaskStatus → String
status_text proposed = "proposed"
status_text pending = "pending"
status_text assigned = "assigned"
status_text planning = "planning"
status_text awaiting_approval = "awaiting_approval"
status_text in_progress = "in_progress"
status_text blocked = "blocked"
status_text completed = "completed"
status_text failed = "failed"
status_text abandoned = "abandoned"
status_text cancelled = "cancelled"

-- The place of a status among `VALID_STATUSES`.
abbrev pub place : TaskStatus → ℕ
place proposed = 0
place pending = 1
place assigned = 2
place planning = 3
place awaiting_approval = 4
place in_progress = 5
place blocked = 6
place completed = 7
place failed = 8
place abandoned = 9
place cancelled = 10

-- `a === b` on statuses.
abbrev pub same : TaskStatus → TaskStatus → Bool
same a b = place a == place b

abbrev pub valid_statuses : List TaskStatus
valid_statuses =
    proposed ∷ pending ∷ assigned ∷ planning ∷ awaiting_approval ∷ in_progress ∷ blocked ∷ completed
    ∷ failed ∷ abandoned ∷ cancelled ∷ []

abbrev pub terminal_statuses : List TaskStatus
terminal_statuses = completed ∷ failed ∷ abandoned ∷ cancelled ∷ []

abbrev pub includes : List TaskStatus → TaskStatus → Bool
includes xs s = any (λ t. same t s) xs

abbrev pub is_terminal : TaskStatus → Bool
is_terminal s = includes terminal_statuses s

-- The first status of the list that the text names.
abbrev pub find_status : String → List TaskStatus → Option TaskStatus
find_status s [] = none
find_status s (t ∷ ts) = if str_eq (status_text t) s then some t else find_status s ts

-- The status that an arbitrary value is, if the list includes it.
unfoldable pub parse_status : List TaskStatus → JsValue → Option TaskStatus
parse_status xs (text s) = find_status s xs
parse_status xs _ = none

-- `STATUS_ALIASES` is a plain object, so the two all-lowercase names that it inherits from
-- `Object.prototype` are found too, and what they give is no string.
unfoldable pub normalize_status_alias : JsValue → JsValue
unfolding lowers_to
normalize_status_alias (text raw) =
    if lowers_to raw "done"
    then text "completed"
    else if lowers_to raw "wip"
    then text "in_progress"
    else if lowers_to raw "constructor" || lowers_to raw "__proto__"
    then thing
    else text raw
normalize_status_alias raw = raw

unfoldable pub allowed_transitions : TaskStatus → List TaskStatus
allowed_transitions proposed = pending ∷ cancelled ∷ []
allowed_transitions pending = assigned ∷ cancelled ∷ []
allowed_transitions assigned = planning ∷ in_progress ∷ cancelled ∷ []
allowed_transitions planning = awaiting_approval ∷ in_progress ∷ []
allowed_transitions awaiting_approval = in_progress ∷ planning ∷ abandoned ∷ []
allowed_transitions in_progress = blocked ∷ completed ∷ failed ∷ abandoned ∷ []
allowed_transitions blocked = in_progress ∷ failed ∷ abandoned ∷ []
allowed_transitions failed = pending ∷ completed ∷ cancelled ∷ []
allowed_transitions completed = []
allowed_transitions abandoned = []
allowed_transitions cancelled = []

unfoldable pub validate_transition : TaskStatus → TaskStatus → Bool
unfolding allowed_transitions
validate_transition from to = includes (allowed_transitions from) to

-- The same test on a value that has not been checked to be a status.
unfoldable pub validate_raw_transition : TaskStatus → JsValue → Bool
unfolding allowed_transitions parse_status
validate_raw_transition from to = elim (parse_status (allowed_transitions from) to) [
  | none ↦ false
  | some _ ↦ true
]

pub record TransitionSideEffects : Type 0 where
  pub assigned_at : Option ℕ
  pub started_at : Option ℕ
  pub completed_at : Option ℕ
  pub plan_submitted_at : Option ℕ
  pub plan_approved_at : Option ℕ

abbrev stamp : Bool → ℕ → Option ℕ
stamp true now = some now
stamp false now = none

abbrev is_null : Option ℕ → Bool
is_null none = true
is_null (some _) = false

-- `current.completed_at` is passed in the source and never read.
unfoldable pub get_transition_side_effects :
    (from to : TaskStatus) (assigned_at started_at : Option ℕ) (now : ℕ) → TransitionSideEffects
get_transition_side_effects from to assigned_at started_at now = record {
  assigned_at = stamp (same to assigned && is_null assigned_at) now;
  started_at = stamp (same to in_progress && is_null started_at) now;
  completed_at =
      stamp (same to completed || same to failed || same to abandoned || same to cancelled) now;
  plan_submitted_at = stamp (same from planning && same to awaiting_approval) now;
  plan_approved_at = stamp (same from awaiting_approval && same to in_progress) now;
}
