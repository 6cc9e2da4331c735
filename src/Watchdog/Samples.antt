-- ===== src/Watchdog/Samples.antt =====
-- Small tables and ticks of the watchdog, and the theorems at them.
use kithkit.Base.{ℕ, Bool, true, false, List, [], ◌∷◌, map, none, some, ◌≡◌, ◌≢◌, refl, arith}
use kithkit.Tasks.Status.{in_progress, assigned}
use kithkit.Tasks.Row.{Task}
use kithkit.TaskQueue
use kithkit.TaskQueue.Both.{older}
use kithkit.TaskQueue.Rows.{CreateBody, new_task}
use kithkit.Watchdog.{State, deferred, capped, restarted, monitor_orchestrator_wedge}
use kithkit.Watchdog.Signals.{Sight, cutoff, is_pane_wedged, signal_iii}
use kithkit.Watchdog.Frozen.Exact.{if_frozen}
use kithkit.Watchdog.Reach.{touched, tick-frozen}
use kithkit.Watchdog.Debounce.{restart_waits}
use kithkit.Watchdog.Daemon.{Event, ticks, asks, buries, Surroundings, run}
use kithkit.Watchdog.Loop.{cap_unreached}
use kithkit.Watchdog.Context.{Tracking, Look, read_context_file}
use kithkit.Watchdog.Context.Once.{attempts, repeats, warned_once}

abbrev wish : CreateBody
wish = record {
  title = none;
  description = none;
  priority = none;
  source = none;
  work_notes = none;
  timeout_seconds = none;
  complexity = none;
  canonical_task_external_id = none;
  requesting_peer = none;
}

abbrev stuck : Task
stuck = record (new_task (λ s. s) "t1" wish "port the parser" 1) {
  status = in_progress;
  assigned_to = some "orchestrator";
}

abbrev recent : Task
recent = record (new_task (λ s. s) "t2" wish "test it" 1) {
  status = assigned;
  updated_at = 3000000;
}

-- The two tasks are in progress and assigned: the maxima are taken apart, so the first one counts.
abbrev start : State
start = record {
  last_wedge_ip_max_updated_at = none;
  wedge_restart_count = 0;
  consecutive_wedge_signals = 0;
  tasks = stuck ∷ recent ∷ [];
  jobs = [];
  agent = none;
}

abbrev sight : ℕ → Sight
sight now = record {
  now = now;
  alive = true;
  wedge_timeout_minutes = none;
  synthesis_grace_minutes = none;
  pane = none;
  session = some "orch";
  fails = λ q. false;
}

abbrev suspected : State
suspected = record start { consecutive_wedge_signals = 1 }

first_tick : monitor_orchestrator_wedge (sight 3100000) start ≡ (suspected, deferred)
unfolding monitor_orchestrator_wedge
first_tick = refl

second_tick : (monitor_orchestrator_wedge (sight 3300000) suspected).1 ≡ restarted
unfolding monitor_orchestrator_wedge
second_tick = refl

shown_as_text : is_pane_wedged "see <invoke name" ≡ true
unfolding is_pane_wedged
shown_as_text = refl

asked_for_feedback : is_pane_wedged "HOW is Claude doing this session?" ≡ true
unfolding is_pane_wedged
asked_for_feedback = refl

tick-frozen_example :
    let (u, outcome) = monitor_orchestrator_wedge (sight 3300000) suspected in
    u.tasks
    ≡ map (if_frozen (cutoff (sight 3300000)) (touched outcome 3300000)) (stuck ∷ recent ∷ [])
tick-frozen_example =
    tick-frozen (sight 3300000) suspected refl refl ((refl, refl), ((refl, refl), tt))

restart_waits_example : (monitor_orchestrator_wedge (sight 3400000) start).1 ≢ restarted
unfolding monitor_orchestrator_wedge signal_iii
restart_waits_example = restart_waits (sight 3300000) (sight 3400000) suspected start refl refl refl

abbrev around : Surroundings
around = record {
  newer_env = record {
    trim = λ s. s;
    safe_text = λ s. true;
    safe_record = λ t b. true;
    retro = false;
  };
  older_env = record {
    trim = λ s. s;
    safe_text = λ s. true;
    safe_record = λ t b. true;
    retro = false;
    note_time = "10:00";
  };
  clean = λ s. s;
  safe = λ b. true;
}

abbrev events : List Event
events =
    ticks (sight 3100000)
    ∷ ticks (sight 3300000)
    ∷ asks 0 (older (TaskQueue.cancels [] 3350000))
    ∷ ticks (sight 4500000)
    ∷ buries (λ t. none) 4600000
    ∷ []

cap_unreached_example :
    (monitor_orchestrator_wedge (sight 4700000) (run around start events)).1 ≢ capped
cap_unreached_example =
    cap_unreached around 3000000 start events (sight 4700000) refl refl (refl, (refl, tt))
      (omega arith, (omega arith, (omega arith, (omega arith, (omega arith, tt)))))
      (refl, (refl, (tt, (refl, (tt, tt))))) (omega arith) refl

abbrev look : ℕ → Bool → Look
look used answers = record {
  now = 100;
  file = some (record {
    mtime = 90;
    content = some (record {
      remaining_percentage = none;
      used_percentage = some used;
      session_id = some "s1";
    });
  });
  injected = λ tier. answers;
}

abbrev unknown : Tracking
unknown = record { fired_tiers = []; session_id = none; file_miss_count = 0 }

abbrev looks : List Look
looks = look 55 false ∷ look 55 true ∷ look 70 true ∷ look 71 true ∷ []

heard_in_order : attempts unknown looks ≡ (50, false) ∷ (50, true) ∷ (65, true) ∷ []
unfolding attempts
heard_in_order = refl

warned_once_example : repeats 50 false (attempts unknown looks) ≡ 0
unfolding read_context_file
warned_once_example = warned_once 50 "s1" unknown looks (refl, (refl, (refl, (refl, tt))))
