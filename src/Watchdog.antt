-- ===== src/Watchdog.antt =====
-- daemon/src/automation/tasks/context-watchdog.ts: the wedge detector, as one step on the tables and on
-- the variables of the module. One instant stands for all the times that a tick reads.
pub mod Frozen
pub mod Signals
pub mod Reach
pub mod Debounce
pub mod Daemon
pub mod Stamped
pub mod Passed
pub mod Context
pub mod Unbound
pub mod Kept
pub mod Loop
mod Samples
use kithkit.Base.{
  ℕ, ◌+◌, String, Bool, true, false, not, ◌&&◌, ◌||◌, List, [], ◌∷◌, Option, none, some, ltb, leb,
  ◌==◌, if◌then◌else◌,
}
use kithkit.Tasks.Row.{Task}
use kithkit.Agents.Job.{JobRecord}
use kithkit.Watchdog.Frozen.{frozen_ids, update_in, reset, give_up}
use kithkit.Watchdog.Signals.{
  Activity, Sight, reset_tasks, fail_tasks, cutoff, frozen_since, signal_i, signal_ii, signal_iii,
}

pub record State : Type 0 where
  pub last_wedge_ip_max_updated_at : Option ℕ
  pub wedge_restart_count : ℕ
  pub consecutive_wedge_signals : ℕ
  pub tasks : List Task
  pub jobs : List JobRecord
  pub agent : Option Activity

-- What a tick comes to.
pub data Outcome : Type 0 where
  not_alive healthy deferred capped restarted : Outcome

abbrev pub wedge_restart_cap : ℕ
wedge_restart_cap = 3

abbrev pub wedge_debounce_threshold : ℕ
wedge_debounce_threshold = 2

-- The row of a respawned orchestrator: inserted without `last_activity`, else both columns are set.
abbrev pub respawned : Option String → ℕ → Option Activity → Option Activity
respawned none now agent = agent
respawned (some session) now none = some (record { started_at = some now; last_activity = none })
respawned (some session) now (some a) =
    some (record { started_at = some now; last_activity = some now })

-- With the state after its caller has reset the count of signals.
unfoldable pub restart_wedged_orchestrator : Sight → State → State
unfolding cutoff frozen_ids update_in
restart_wedged_orchestrator v s = record s {
  tasks =
      if v.fails reset_tasks
      then s.tasks
      else update_in (frozen_ids (cutoff v) s.tasks) (reset v.now) s.tasks;
  agent = respawned v.session v.now s.agent;
  consecutive_wedge_signals = 0;
}

abbrev same_stamp : Option ℕ → Option ℕ → Bool
same_stamp none none = true
same_stamp (some a) (some b) = a == b
same_stamp _ _ = false

unfoldable pub count_restart : Option ℕ → State → State
count_restart stamp s =
    if same_stamp stamp s.last_wedge_ip_max_updated_at
    then record s { wedge_restart_count = s.wedge_restart_count + 1 }
    else record s { wedge_restart_count = 1; last_wedge_ip_max_updated_at = stamp }

-- The cap is reached: the frozen tasks fail and nothing is restarted.
unfoldable pub exhaust : Sight → State → State
unfolding cutoff frozen_ids update_in
exhaust v s = record s {
  tasks =
      if v.fails fail_tasks
      then s.tasks
      else update_in (frozen_ids (cutoff v) s.tasks) (give_up v.now) s.tasks;
  wedge_restart_count = 0;
  last_wedge_ip_max_updated_at = none;
}

unfoldable pub bound : Sight → State → State × Outcome
unfolding restart_wedged_orchestrator exhaust
bound v s =
    if leb wedge_restart_cap s.wedge_restart_count
    then (exhaust v s, capped)
    else (restart_wedged_orchestrator v s, restarted)

unfoldable pub act : Sight → (i : Bool) → State → State × Outcome
unfolding bound count_restart frozen_since restart_wedged_orchestrator
act v true s = bound v (count_restart (frozen_since v s.tasks) s)
act v false s = (restart_wedged_orchestrator v s, restarted)

abbrev pub signalled : State → State
signalled s = record s { consecutive_wedge_signals = s.consecutive_wedge_signals + 1 }

-- The signals (i) and (ii) wait for a second tick, signal (iii) does not.
unfoldable pub decide : Sight → (i ii iii : Bool) → State → State × Outcome
unfolding act
decide v i ii true s = act v i s
decide v false false false s = (record s { consecutive_wedge_signals = 0 }, healthy)
decide v i ii false s =
    if ltb (s.consecutive_wedge_signals + 1) wedge_debounce_threshold
    then (signalled s, deferred)
    else act v i (signalled s)

unfoldable pub monitor_orchestrator_wedge : Sight → State → State × Outcome
unfolding decide signal_i signal_ii signal_iii
monitor_orchestrator_wedge v s =
    if v.alive
    then decide v (signal_i v s.tasks s.jobs) (signal_ii v s.agent s.tasks s.jobs) (signal_iii v) s
    else (s, not_alive)
