-- ===== src/Scheduler/Samples.antt =====
-- The theorems about the scheduler at small inputs, and runs of it.
use kithkit.Base.{ℕ, ◌+◌, ◌≤◌, true, false, List, [], ◌∷◌, none, some, ◌≡◌, ◌≢◌, refl, arith}
use kithkit.Base.Dict
use kithkit.Base.Heap
use kithkit.Base.Js.{codes}
use kithkit.Scheduler.{
  interval, ScheduledTask, TaskConfig, TaskScheduleConfig, Cron, parse_task, schedule_of,
  calculate_next_run, is_missed,
}
use kithkit.Scheduler.Interval.{parse_interval, parse_rest}
use kithkit.Scheduler.Engine.{
  empty, starts, ticks, completes, adds, run, step, tick, tick_each, run_task, complete, without,
  add_task, start, start_each, start_task, stop, stops, Event,
}
use kithkit.Scheduler.Engine.Spacing.{in_flight, interval_kept}
use kithkit.Scheduler.Engine.Apart.{IsApart}
use kithkit.Scheduler.Engine.Single.{IsSingle, run-IsSingle}

parse_interval_of_minutes : parse_interval "15m" ≡ some 900000
unfolding parse_interval parse_rest codes
parse_interval_of_minutes = refl

parse_interval_of_nonsense : parse_interval "m15" ≡ none
unfolding parse_interval parse_rest codes
parse_interval_of_nonsense = refl

abbrev crons : Cron
crons = record { next = λ expression now. none; prev = λ expression now. none }

abbrev plain : TaskConfig
plain = record {
  command = some "sh";
  args = none;
  idle_only = none;
  idle_after_ms = none;
  requires_session = none;
}

abbrev every_second : TaskScheduleConfig
every_second = record {
  name = "beat";
  enabled = true;
  interval_text = some "1s";
  cron_text = none;
  config = plain;
}

abbrev history : List Event
history = adds every_second 0 ∷ starts none none 100 ∷ ticks none none 1100 ∷ []

abbrev ended : List Event
ended = adds every_second 0 ∷ starts none none 100 ∷ ticks none none 1100 ∷ completes 0 1500 ∷ []

abbrev beat : ScheduledTask
beat = record {
  name = "beat";
  enabled = true;
  schedule = interval 1000;
  command = some "sh";
  args = [];
  config = plain;
  idle_only = false;
  idle_after_ms = 300000;
  next_run_at = some 2500;
  last_run_at = some 1500;
  running = false;
}

one_ne_zero : ◌≢◌ {A = ℕ} 1 0
one_ne_zero e = omega (arith, e)

interval_kept_example : 1500 + 1000 ≤ 2600
unfolding run step add_task parse_task schedule_of parse_interval parse_rest codes start start_each
    start_task calculate_next_run is_missed tick tick_each run_task complete without in_flight
    Dict.get Dict.set Dict.has Dict.delete Heap.read Heap.write
interval_kept_example =
    interval_kept 0 crons ended none none 2600 beat 1000 1500 refl refl refl one_ne_zero

empty-IsSingle : IsSingle empty
unfolding Heap.read in_flight
empty-IsSingle obj = refl

empty-IsApart : IsApart empty
empty-IsApart o = ground arith

-- A first run, a stop, a start with a run that is caught up on, and a tick while it goes on.
abbrev restarted : List Event
restarted =
    adds every_second 0
    ∷ starts none none 100
    ∷ ticks none none 1100
    ∷ completes 0 1500
    ∷ stops
    ∷ starts none none 9000
    ∷ ticks none none 9500
    ∷ []

caught_up : (run crons empty restarted).runs ≡ 0 ∷ []
unfolding run step add_task parse_task schedule_of parse_interval parse_rest codes start start_each
    start_task stop calculate_next_run is_missed tick tick_each run_task complete without Dict.get
    Dict.set Dict.has Dict.delete Heap.read Heap.write
caught_up = refl

run-IsSingle_example : IsSingle (run crons empty restarted)
unfolding run step add_task parse_task schedule_of parse_interval parse_rest codes start start_each
    start_task stop calculate_next_run is_missed tick tick_each run_task complete without Dict.get
    Dict.set Dict.has Dict.delete Heap.read Heap.write
run-IsSingle_example =
    run-IsSingle crons empty restarted (tt, (refl, (tt, (tt, (tt, (refl, (tt, tt)))))))
      empty-IsApart empty-IsSingle
