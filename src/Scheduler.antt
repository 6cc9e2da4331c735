-- ===== src/Scheduler.antt =====
-- daemon/src/automation/scheduler.ts: scheduled tasks, and the computations on one of them.
-- A task is an object that the map of tasks and the runs in flight share; Scheduler/Engine.antt has
-- the store of these objects.
pub mod Interval
pub mod Engine
mod Samples
use kithkit.Base.{
  ℕ, ◌+◌, ◌-◌, String, Bool, true, false, not, List, [], Option, none, some, leb, ltb,
  if◌then◌else◌,
}
use kithkit.Base.Js.{is_empty}
use kithkit.Scheduler.Interval.{parse_interval}

pub data Schedule : Type 0 where
  cron : String → Schedule
  interval : ℕ → Schedule

-- The fields of a task's `config` that the scheduler itself reads.
pub record TaskConfig : Type 0 where
  pub command : Option String
  pub args : Option (List String)
  pub idle_only : Option Bool
  pub idle_after_ms : Option ℕ
  pub requires_session : Option Bool

pub record TaskScheduleConfig : Type 0 where
  pub name : String
  pub enabled : Bool
  pub interval_text : Option String
  pub cron_text : Option String
  pub config : TaskConfig

pub record ScheduledTask : Type 0 where
  pub name : String
  pub enabled : Bool
  pub schedule : Schedule
  pub command : Option String
  pub args : List String
  pub config : TaskConfig
  pub idle_only : Bool
  pub idle_after_ms : ℕ
  pub next_run_at : Option ℕ
  pub last_run_at : Option ℕ
  pub running : Bool

-- The library for cron expressions: the occurrence after and the one before an instant, or `none`
-- where the expression does not parse.
pub record Cron : Type 0 where
  pub next : String → ℕ → Option ℕ
  pub prev : String → ℕ → Option ℕ

-- A text that is there and not empty.
abbrev pub given_text : Option String → Option String
given_text none = none
given_text (some s) = if is_empty s then none else some s

abbrev pub or_false : Option Bool → Bool
or_false none = false
or_false (some b) = b

abbrev pub or_default : ℕ → Option ℕ → ℕ
or_default n none = n
or_default n (some m) = m

abbrev pub or_nil : Option (List String) → List String
or_nil none = []
or_nil (some l) = l

abbrev interval_of : Option ℕ → Option Schedule
interval_of none = none
interval_of (some ms) = some (interval ms)

abbrev pick : Option String → Option String → Option Schedule
pick (some expression) i = some (cron expression)
pick none none = none
pick none (some text) = interval_of (parse_interval text)

-- `none` where `_parseTask` throws.
unfoldable pub schedule_of : TaskScheduleConfig → Option Schedule
schedule_of c = pick (given_text c.cron_text) (given_text c.interval_text)

abbrev pub fresh_task : TaskScheduleConfig → Schedule → ScheduledTask
fresh_task c schedule = record {
  name = c.name;
  enabled = c.enabled;
  schedule = schedule;
  command = c.config.command;
  args = or_nil c.config.args;
  config = c.config;
  idle_only = or_false c.config.idle_only;
  idle_after_ms = or_default 300000 c.config.idle_after_ms;
  next_run_at = none;
  last_run_at = none;
  running = false;
}

abbrev parsed : TaskScheduleConfig → Option Schedule → Option ScheduledTask
parsed c none = none
parsed c (some schedule) = some (fresh_task c schedule)

unfoldable pub parse_task : TaskScheduleConfig → Option ScheduledTask
unfolding schedule_of
parse_task c = parsed c (schedule_of c)

abbrev keep_text : Option String → Option String → Option String
keep_text none old = old
keep_text (some s) old = some s

abbrev keep_args : Option (List String) → List String → List String
keep_args none old = old
keep_args (some l) old = l

-- Neither the schedule nor the idle settings of a task that runs are replaced.
unfoldable pub update_task : TaskScheduleConfig → ScheduledTask → ScheduledTask
update_task c t = record t {
  enabled = c.enabled;
  command = keep_text (given_text c.config.command) t.command;
  args = keep_args c.config.args t.args;
  config = c.config;
}

-- `hasRunSince`, where it is injected; else the task's own `lastRunAt`.
abbrev pub has_run : Option (String → ℕ → Bool) → ScheduledTask → ℕ → Bool
has_run (some has_run_since) t since = has_run_since t.name since
has_run none t since = elim t.last_run_at [ none ↦ false | some l ↦ leb since l ]

abbrev pub catch_up_window_ms : ℕ
catch_up_window_ms = 7200000

module _ (crons : Cron) where
  abbrev pub next_of : Schedule → Option ℕ → ℕ → Option ℕ
  next_of (cron expression) last now = crons.next expression now
  next_of (interval ms) none now = some (now + ms)
  next_of (interval ms) (some last) now = some (last + ms)

  unfoldable pub calculate_next_run : ScheduledTask → ℕ → Option ℕ
  calculate_next_run t now = if t.enabled then next_of t.schedule t.last_run_at now else none

  abbrev pub missed : Schedule → ℕ → Option ℕ
  missed (cron expression) now = crons.prev expression now
  missed (interval ms) now = none

  -- Whether `_detectAndFireCatchUp` fires the task.
  unfoldable pub is_missed : Option (String → ℕ → Bool) → ScheduledTask → ℕ → Bool
  is_missed guard t now = elim (missed t.schedule now) [
    | none ↦ false
    | some prev ↦
        if leb now prev
        then false
        else if ltb catch_up_window_ms (now - prev)
        then false
        else not (has_run guard t prev)
  ]

-- `last_human` is what `getLastHumanActivity` gives: `none` where there is no tracker or no activity.
unfoldable pub is_idle : Option ℕ → ℕ → ℕ → Bool
is_idle none idle_after_ms now = true
is_idle (some last) idle_after_ms now = leb (last + idle_after_ms) now
