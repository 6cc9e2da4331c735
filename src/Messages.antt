-- ===== src/Messages.antt =====
-- daemon/src/agents/message-router.ts: messages between agents, in the table `messages`, and what a
-- result message does to the orchestrator's tasks.
-- A text is cut by characters, where JavaScript cuts by UTF-16 units.
pub mod Reads
pub mod Dedup
pub mod Dropped
pub mod Completion
mod Samples
use Prim.Native.String.{◌++◌ as ◌<>◌}
use kithkit.Base.{
  ℕ, zero, suc, ◌+◌, ◌-◌, ◌/◌, String, Bool, true, false, not, ◌&&◌, ◌||◌, List, [], ◌∷◌, ◌++◌,
  Option, none, some, filter, any, length, str_eq, leb, ltb, ◌==◌, if◌then◌else◌,
}
use package.text.Mathlib.Text.{starts_with}
use kithkit.Base.Dict
use kithkit.Base.Dict.{Dict}
use kithkit.Base.Sort
use kithkit.Base.Js.{Field, JsValue, text, bool, codes, is_empty}

-- Of the metadata, what the router reads.
pub record Metadata : Type 0 where
  pub task_id : Field
  pub completion : Field

-- A row of `messages`. `created_at` counts milliseconds, where the table's default has seconds.
pub record Message : Type 0 where
  pub id : ℕ
  pub from_agent : String
  pub to_agent : String
  pub kind : String
  pub body : String
  pub metadata : Option Metadata
  pub processed_at : Option ℕ
  pub read_at : Option ℕ
  pub notified_at : Option ℕ
  pub injected_at : Option ℕ
  pub created_at : ℕ

pub record SendMessageRequest : Type 0 where
  pub from_agent : String
  pub to_agent : String
  pub kind : String
  pub body : String
  pub metadata : Option Metadata
  pub direct : Bool

-- A row of `orchestrator_tasks`.
pub record OrchestratorTask : Type 0 where
  pub status : String
  pub requesting_peer : Option String
  pub result : Option String
  pub completed_at : Option ℕ
  pub updated_at : ℕ

-- What the router does beside its tables.
pub data Effect : Type 0 where
  notifies : Effect
  relays : (peer body : String) → Effect
  injects : (session body : String) → Effect

-- `messages` has the newest row first. `workers` and `activity` are the task ids of the rows of
-- `orchestrator_task_workers` and `orchestrator_task_activity`.
pub record State : Type 0 where
  pub messages : List Message
  pub next_id : ℕ
  pub recent : Dict (ℕ × ℕ)
  pub tasks : Dict OrchestratorTask
  pub workers : List String
  pub activity : List String

-- `inject` is the tmux injector: in production it always answers false. `notify` is the warning of
-- a failed `notifyNewMessage`, `none` where it does not fail. `router` says whether there is an A2A
-- router.
pub record Env : Type 0 where
  pub inject : String → String → Bool
  pub notify : Option String
  pub router : Bool

abbrev pub valid_message_types : List String
valid_message_types =
    "text" ∷ "task" ∷ "result" ∷ "error" ∷ "status" ∷ "coordination" ∷ "pr-review" ∷ []

abbrev pub worker_allowed_types : List String
worker_allowed_types = "result" ∷ "error" ∷ []

abbrev pub includes : List String → String → Bool
includes l x = any (λ y. str_eq y x) l

abbrev pub dedup_window_ms : ℕ
dedup_window_ms = 5000

-- `s.slice(0, n)`
unfoldable pub prefix : ℕ → String → String
prefix n String.[] = ""
prefix zero (String.◌∷◌ c s) = ""
prefix (suc n) (String.◌∷◌ c s) = String.◌∷◌ c (prefix n s)

unfoldable pub deduplication_key : SendMessageRequest → String
unfolding prefix
deduplication_key req =
    req.from_agent <> ":" <> req.to_agent <> ":" <> req.kind <> ":" <> prefix 200 req.body

unfoldable pub cleanup_stale_dedup : ℕ → Dict (ℕ × ℕ) → Dict (ℕ × ℕ)
cleanup_stale_dedup now recent = filter (λ e. not (ltb (e.1.1 + dedup_window_ms) now)) recent

abbrev is_hex : ℕ → Bool
is_hex c = leb b'0' c && leb c b'9' || leb b'a' c && leb c b'f'

-- `/^[0-9a-f]{n}-/`
unfoldable pub hex_then_dash : ℕ → List ℕ → Bool
hex_then_dash n [] = false
hex_then_dash zero (c ∷ cs) = c == b'-'
hex_then_dash (suc n) (c ∷ cs) = is_hex c && hex_then_dash n cs

unfoldable pub is_worker_agent : String → Bool
unfolding hex_then_dash codes
is_worker_agent agent = starts_with agent "worker-" || hex_then_dash 8 (codes agent)

abbrev pub is_persistent_agent : String → Bool
is_persistent_agent agent = str_eq agent "comms" || str_eq agent "orchestrator"

-- An error is thrown before anything is stored; else the id, whether it counts as delivered, and
-- the warning.
pub data Outcome : Type 0 where
  invalid_type worker_restricted : Outcome
  sent : ℕ → (delivered : Bool) → (warning : Option String) → Outcome

abbrev pub new_message : SendMessageRequest → ℕ → ℕ → Message
new_message req id now = record {
  id = id;
  from_agent = req.from_agent;
  to_agent = req.to_agent;
  kind = req.kind;
  body = req.body;
  metadata = req.metadata;
  processed_at = none;
  read_at = none;
  notified_at = none;
  injected_at = none;
  created_at = now;
}

unfoldable pub store : State → SendMessageRequest → ℕ → State
store s req now = record s {
  messages = new_message req s.next_id now ∷ s.messages;
  next_id = s.next_id + 1;
  recent = Dict.set (deduplication_key req) (s.next_id, now) s.recent;
}

abbrev pub text_of : Field → Option String
text_of (some (text s)) = if is_empty s then none else some s
text_of _ = none

abbrev pub task_id_of : Option Metadata → Option String
task_id_of none = none
task_id_of (some m) = text_of m.task_id

abbrev pub is_true : Field → Bool
is_true (some (bool b)) = b
is_true (some (text s)) = str_eq s "true"
is_true _ = false

abbrev pub is_completion : Option Metadata → Bool
is_completion none = false
is_completion (some m) = is_true m.completion

abbrev pub is_active : OrchestratorTask → Bool
is_active t = includes ("assigned" ∷ "in_progress" ∷ "pending" ∷ []) t.status

-- At least one worker or activity row.
abbrev pub has_work : State → String → Bool
has_work s id = includes s.workers id || includes s.activity id

abbrev pub complete_task : String → ℕ → OrchestratorTask → OrchestratorTask
complete_task body now t = record t {
  status = "completed";
  result = some (prefix 5000 body);
  completed_at = some now;
  updated_at = now;
}

abbrev pub relay_of : Bool → Option String → String → List Effect
relay_of router none body = []
relay_of router (some peer) body =
    if not (is_empty peer) && not (is_empty body) && router then relays peer body ∷ [] else []

unfoldable pub stamp : (Message → Message) → List Message → List Message
stamp f [] = []
stamp f (m ∷ ms) = f m ∷ stamp f ms

abbrev pub fresh_id : Option (ℕ × ℕ) → ℕ → Option ℕ
fresh_id none now = none
fresh_id (some (id, at)) now = if ltb now (at + dedup_window_ms) then some id else none

abbrev pub mark_injected : ℕ → ℕ → Message → Message
mark_injected id now m =
    if m.id == id
    then record m {
      processed_at = some now;
      read_at = some now;
      notified_at = some now;
      injected_at = some now;
    }
    else m

abbrev pub queued : ℕ → Option String → List Effect × Outcome
queued id none = (notifies ∷ [], sent id false none)
queued id (some warning) = ([], sent id false (some warning))

module _ (env : Env) where
  -- For a result message of the orchestrator with the id of a task.
  unfoldable pub complete_by_id :
      State → SendMessageRequest → String → ℕ → Option OrchestratorTask → State × List Effect
  complete_by_id s req id now none = (s, [])
  complete_by_id s req id now (some t) =
      if is_active t && is_completion req.metadata && has_work s id
      then (
        record s { tasks = Dict.modify id (complete_task req.body now) s.tasks },
        relay_of env.router t.requesting_peer req.body,
      )
      else (s, [])

  abbrev pub complete_named : State → SendMessageRequest → ℕ → Option String → State × List Effect
  complete_named s req now none = (s, [])
  complete_named s req now (some id) = complete_by_id s req id now (Dict.get id s.tasks)

  unfoldable pub auto_complete : State → SendMessageRequest → ℕ → State × List Effect
  unfolding complete_by_id
  auto_complete s req now =
      if str_eq req.from_agent "orchestrator" && str_eq req.kind "result"
      then complete_named s req now (task_id_of req.metadata)
      else (s, [])

  -- To a persistent agent a direct message is injected at once; any other waits for the scheduler's
  -- delivery. Workers pull.
  unfoldable pub route : State → SendMessageRequest → ℕ → ℕ → State × (List Effect × Outcome)
  unfolding stamp
  route s req id now =
      if not (is_persistent_agent req.to_agent)
      then (s, ([], sent id true none))
      else if req.direct && env.inject req.to_agent req.body
      then (
        record s { messages = stamp (mark_injected id now) s.messages },
        (injects req.to_agent req.body ∷ [], sent id true none),
      )
      else (s, queued id env.notify)

  unfoldable pub send_new : State → SendMessageRequest → ℕ → State × (List Effect × Outcome)
  unfolding store auto_complete route
  send_new s req now =
      let stored = store s req now in
      let (completed, relayed) = auto_complete stored req now in
      let (routed, (effects, outcome)) = route completed req s.next_id now in
      (routed, (relayed ++ effects, outcome))

  abbrev pub send_or_drop :
      State → SendMessageRequest → ℕ → Option ℕ → State × (List Effect × Outcome)
  send_or_drop s req now none = send_new s req now
  send_or_drop s req now (some id) = (s, ([], sent id true none))

  unfoldable pub send_message : State → SendMessageRequest → ℕ → State × (List Effect × Outcome)
  unfolding send_new cleanup_stale_dedup
  send_message s req now =
      if not (includes valid_message_types req.kind)
      then (s, ([], invalid_type))
      else if is_worker_agent req.from_agent && not (includes worker_allowed_types req.kind)
      then (s, ([], worker_restricted))
      else (let cleaned = record s { recent = cleanup_stale_dedup now s.recent } in
          send_or_drop cleaned req now
            (fresh_id (Dict.get (deduplication_key req) cleaned.recent) now))
