-- ===== src/Watchdog/Signals.antt =====
-- daemon/src/automation/tasks/context-watchdog.ts: the three signals that the orchestrator is wedged.
use kithkit.Base.{
  ℕ, ◌*◌, ◌-◌, String, Bool, true, false, not, ◌&&◌, ◌||◌, List, [], ◌∷◌, map, Option, none, some,
  any, ltb, leb, if◌then◌else◌,
}
use kithkit.Base.Js.{codes, lower, strip_prefix}
use kithkit.Tasks.Status.{TaskStatus, pending, assigned, in_progress, same}
use kithkit.Tasks.Row.{Task, is_todo}
use kithkit.Agents.Job.{JobStatus, JobRecord, queued, running, completed, failed, timeout}
use kithkit.Watchdog.Frozen.{max_updated_at}

-- The statements of a tick that can throw.
pub data Query : Type 0 where
  live_tasks completions running_for_tasks agent_row running_for_agent open_tasks : Query
  capture_pane reset_tasks fail_tasks : Query

-- The columns of the row of the orchestrator in `agents` that the watchdog reads.
pub record Activity : Type 0 where
  pub started_at : Option ℕ
  pub last_activity : Option ℕ

-- What a tick finds outside the tables. `wedge_timeout_minutes` and `synthesis_grace_minutes` are the
-- numbers of the configuration, where it has them. `session` is what the spawn gives.
pub record Sight : Type 0 where
  pub now : ℕ
  pub alive : Bool
  pub wedge_timeout_minutes : Option ℕ
  pub synthesis_grace_minutes : Option ℕ
  pub pane : Option String
  pub session : Option String
  pub fails : Query → Bool

abbrev or_default : ℕ → Option ℕ → ℕ
or_default d none = d
or_default d (some n) = n

abbrev pub default_wedge_timeout_minutes : ℕ
default_wedge_timeout_minutes = 15

abbrev pub default_synthesis_grace_minutes : ℕ
default_synthesis_grace_minutes = 15

-- An instant before 1970 counts as 0, which no instant precedes.
unfoldable pub cutoff : Sight → ℕ
cutoff v = v.now - or_default default_wedge_timeout_minutes v.wedge_timeout_minutes * 60 * 1000

unfoldable pub grace_cutoff : Sight → ℕ
grace_cutoff v =
    v.now - or_default default_synthesis_grace_minutes v.synthesis_grace_minutes * 60 * 1000

abbrev pub is_stale : ℕ → Option ℕ → Bool
is_stale limit none = false
is_stale limit (some m) = ltb m limit

abbrev pub earlier : Option ℕ → Option ℕ → Option ℕ
earlier (some a) (some b) = if ltb a b then some a else some b
earlier none b = b
earlier a none = a

-- `ipMaxUpdated`, of the two maxima: the older one of those that are stale.
unfoldable pub ip_max_updated : ℕ → Option ℕ → Option ℕ → Option ℕ
ip_max_updated limit ip as_ =
    if is_stale limit ip && is_stale limit as_
    then earlier ip as_
    else if is_stale limit ip
    then ip
    else if is_stale limit as_
    then as_
    else none

abbrev is_running : JobStatus → Bool
is_running running = true
is_running queued = false
is_running completed = false
is_running failed = false
is_running timeout = false

abbrev is_completed : JobStatus → Bool
is_completed completed = true
is_completed queued = false
is_completed running = false
is_completed failed = false
is_completed timeout = false

abbrev pub has_running : List JobRecord → Bool
has_running jobs = any (λ j. is_running j.status) jobs

abbrev finished_since : ℕ → Option ℕ → Bool
finished_since limit none = false
finished_since limit (some at) = leb limit at

-- Whether the latest completion of a worker is not before the limit.
abbrev pub completed_since : ℕ → List JobRecord → Bool
completed_since limit jobs =
    any (λ j. is_completed j.status && finished_since limit j.finished_at) jobs

-- Signal (i) before its exemptions.
unfoldable pub frozen_since : Sight → List Task → Option ℕ
unfolding cutoff ip_max_updated max_updated_at
frozen_since v tasks =
    if v.fails live_tasks
    then none
    else ip_max_updated (cutoff v) (max_updated_at in_progress tasks)
        (max_updated_at assigned tasks)

abbrev is_given : Option ℕ → Bool
is_given none = false
is_given (some n) = true

unfoldable pub signal_i : Sight → List Task → List JobRecord → Bool
unfolding frozen_since grace_cutoff
signal_i v tasks jobs =
    is_given (frozen_since v tasks)
    && not (not (v.fails completions) && completed_since (grace_cutoff v) jobs)
    && not (not (v.fails running_for_tasks) && has_running jobs)

abbrev is_open : TaskStatus → Bool
is_open s = same s pending || same s assigned || same s in_progress

abbrev has_open : List Task → Bool
has_open tasks = any (λ t. not (is_todo t.kind) && is_open t.status) tasks

-- A failure to count the open tasks counts as work left undone.
abbrev ignores_work : Sight → List Task → List JobRecord → Bool
ignores_work v tasks jobs =
    if v.fails running_for_agent || has_running jobs
    then false
    else if v.fails open_tasks
    then true
    else has_open tasks

abbrev is_fresh : ℕ → Option ℕ → Bool
is_fresh limit none = false
is_fresh limit (some at) = leb limit at

abbrev is_inactive : ℕ → Option Activity → Bool
is_inactive limit none = false
is_inactive limit (some a) = is_stale limit a.last_activity && not (is_fresh limit a.started_at)

unfoldable pub signal_ii : Sight → Option Activity → List Task → List JobRecord → Bool
unfolding cutoff
signal_ii v agent tasks jobs =
    not (v.fails agent_row) && is_inactive (cutoff v) agent && ignores_work v tasks jobs

abbrev starts_with : List ℕ → List ℕ → Bool
starts_with word s = elim (strip_prefix word s) [ none ↦ false | some _ ↦ true ]

abbrev contains : List ℕ → List ℕ → Bool
contains word [] = starts_with word []
contains word (c ∷ s) = starts_with word (c ∷ s) || contains word s

-- The longer of the two feedback patterns contains the shorter one.
unfoldable pub is_pane_wedged : String → Bool
unfolding codes lower strip_prefix
is_pane_wedged s =
    contains (codes "how is claude doing") (map lower (codes s))
    || contains (codes "<invoke") (codes s)
    || contains (codes "<parameter") (codes s)

abbrev shows_wedge : Option String → Bool
shows_wedge none = false
shows_wedge (some s) = is_pane_wedged s

unfoldable pub signal_iii : Sight → Bool
unfolding is_pane_wedged
signal_iii v = not (v.fails capture_pane) && shows_wedge v.pane
