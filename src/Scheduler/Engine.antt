-- ===== src/Scheduler/Engine.antt =====
-- The operations of `Scheduler` in daemon/src/automation/scheduler.ts on its whole state. `runs` are
-- the objects of the executions in flight, one entry for each; what a handler does while it runs, and
-- how its result is stored, is not part of the state. The end of an execution is an event of its own.
pub mod Apart
pub mod Single
pub mod Spacing
use kithkit.Base.{
  ℕ, ◌+◌, ◌*◌, String, Bool, true, false, not, ◌&&◌, List, [], ◌∷◌, ◌++◌, Option, none, some,
  filter, any, length, str_eq, leb, ltb, ◌==◌, if◌then◌else◌, ◌≡◌,
}
use kithkit.Base.Dict
use kithkit.Base.Dict.{Dict}
use kithkit.Base.Heap
use kithkit.Scheduler.{
  ScheduledTask, TaskScheduleConfig, Cron, or_false, parse_task, update_task, calculate_next_run,
  is_missed, is_idle,
}

-- `handlers` are the names that have one.
pub record State : Type 0 where
  pub objects : List ScheduledTask
  pub tasks : Dict ℕ
  pub handlers : List String
  pub sleep_until : Dict ℕ
  pub started : Bool
  pub runs : List ℕ

abbrev pub empty : State
empty = record {
  objects = [];
  tasks = [];
  handlers = [];
  sleep_until = [];
  started = false;
  runs = [];
}

abbrev pub on_object : (ScheduledTask → ScheduledTask) → ℕ → State → State
on_object f obj s = record s { objects = Heap.write obj f s.objects }

abbrev pub set_running : Bool → ScheduledTask → ScheduledTask
set_running b t = record t { running = b }

-- Whether `_runTask` returns at once, since the task needs a session and there is none. `session` is
-- the answer of `sessionExists`, or `none` where no such callback is given.
abbrev pub lacks_session : Option Bool → ScheduledTask → Bool
lacks_session session t =
    or_false t.config.requires_session && elim session [ none ↦ false | some exists ↦ not exists ]

abbrev pub begin : Option Bool → State → ℕ → Option ScheduledTask → State
begin session s obj none = s
begin session s obj (some t) =
    if lacks_session session t
    then on_object (set_running false) obj s
    else record (on_object (set_running true) obj s) { runs = s.runs ++ obj ∷ [] }

-- `_runTask` up to where it waits for the execution.
unfoldable pub run_task : Option Bool → State → ℕ → State
run_task session s obj = begin session s obj (Heap.read obj s.objects)

-- One entry less of an object.
unfoldable pub without : ℕ → List ℕ → List ℕ
without obj [] = []
without obj (o ∷ os) = let rest = without obj os in if o == obj then os else o ∷ rest

abbrev pub alloc : String → ScheduledTask → State → State
alloc name t s = record s {
  objects = s.objects ++ t ∷ [];
  tasks = Dict.set name (length s.objects) s.tasks;
}

abbrev pub is_running : Option ScheduledTask → Bool
is_running none = false
is_running (some t) = t.running

-- The object that the map has for a name.
abbrev pub object_of : Option ℕ → List ScheduledTask → Option ScheduledTask
object_of none objects = none
object_of (some obj) objects = Heap.read obj objects

module _ (crons : Cron) where
  abbrev pub finish : ℕ → ScheduledTask → ScheduledTask
  finish now t = record t {
    last_run_at = some now;
    next_run_at = calculate_next_run crons (record t { last_run_at = some now }) now;
    running = false;
  }

  -- The rest of `_runTask`, after an execution that has succeeded, failed or thrown.
  unfoldable pub complete : State → ℕ → ℕ → State
  complete s obj now =
      if any (λ o. o == obj) s.runs
      then record (on_object (finish now) obj s) { runs = without obj s.runs }
      else s

  abbrev pub set_next : ℕ → ScheduledTask → ScheduledTask
  set_next now t = record t { next_run_at = calculate_next_run crons t now }

  -- A task that is added while the scheduler runs has its first run computed.
  abbrev pub placed : Bool → ℕ → ScheduledTask → ScheduledTask
  placed started now t = if t.enabled && started then set_next now t else t

  abbrev pub add_parsed : State → String → ℕ → Option ScheduledTask → State × Bool
  add_parsed s name now none = (s, false)
  add_parsed s name now (some t) = (alloc name (placed s.started now t) s, true)

  -- The second component says that nothing was thrown.
  unfoldable pub add_task : State → TaskScheduleConfig → ℕ → State × Bool
  add_task s c now =
      if Dict.has c.name s.tasks then (s, true) else add_parsed s c.name now (parse_task c)

  abbrev pub update_at : Option ℕ → TaskScheduleConfig → State → State
  update_at none c s = s
  update_at (some obj) c s = on_object (update_task c) obj s

  -- One configuration of `reload`.
  unfoldable pub reload_one : State → TaskScheduleConfig → ℕ → State × Bool
  reload_one s c now =
      if is_running (object_of (Dict.get c.name s.tasks) s.objects)
      then (update_at (Dict.get c.name s.tasks) c s, true)
      else add_parsed s c.name now (parse_task c)

  -- The loop ends at the first configuration that throws.
  unfoldable pub reload_each : List TaskScheduleConfig → State → ℕ → State × Bool
  unfolding reload_one
  reload_each [] s now = (s, true)
  reload_each (c ∷ cs) s now =
      let rest = reload_each cs (reload_one s c now).0 now in
      if (reload_one s c now).1 then rest else ((reload_one s c now).0, false)

  abbrev pub named : String → List TaskScheduleConfig → Bool
  named name cs = any (λ c. str_eq c.name name) cs

  unfoldable pub reload : State → List TaskScheduleConfig → ℕ → State × Bool
  unfolding reload_each
  reload s cs now = reload_each cs (record s { tasks = filter (λ e. named e.0 cs) s.tasks }) now

  -- `start` for one task of the map.
  unfoldable pub start_task : Option (String → ℕ → Bool) → Option Bool → State → ℕ → ℕ → State
  unfolding run_task
  start_task guard session s obj now = elim (Heap.read obj s.objects) [
    | none ↦ s
    | some t ↦
        if t.enabled
        then (let u = on_object (set_next now) obj s in
            if is_missed crons guard (set_next now t) now then run_task session u obj else u)
        else s
  ]

  unfoldable pub start_each : Option (String → ℕ → Bool) → Option Bool → Dict ℕ → State → ℕ → State
  unfolding start_task
  start_each guard session [] s now = s
  start_each guard session ((name, obj) ∷ tasks) s now =
      start_each guard session tasks (start_task guard session s obj now) now

  unfoldable pub start : Option (String → ℕ → Bool) → Option Bool → State → ℕ → State
  unfolding start_each
  start guard session s now =
      if s.started then s else start_each guard session s.tasks (record s { started = true }) now

unfoldable pub stop : State → State
stop s = record s { started = false }

unfoldable pub remove_task : State → String → State
remove_task s name = record s {
  tasks = Dict.delete name s.tasks;
  handlers = filter (λ h. not (str_eq h name)) s.handlers;
}

-- `none` where the call throws.
unfoldable pub trigger_task : Option Bool → State → String → Option State
unfolding run_task
trigger_task session s name = elim (Dict.get name s.tasks) [
  | none ↦ none
  | some obj ↦ some (run_task session s obj)
]

unfoldable pub register_handler : (has_callback : Bool) → State → String → Option State
register_handler has_callback s name = elim (object_of (Dict.get name s.tasks) s.objects) [
  | none ↦ none
  | some t ↦
      if or_false t.config.requires_session && not has_callback
      then none
      else some (record s { handlers = s.handlers ++ name ∷ [] })
]

unfoldable pub sleep_task : State → String → ℕ → ℕ → Option State
sleep_task s name hours now =
    if Dict.has name s.tasks
    then some (record s { sleep_until = Dict.set name (now + hours * 3600000) s.sleep_until })
    else none

unfoldable pub wake_task : State → String → Option State
wake_task s name =
    if Dict.has name s.tasks
    then some (record s { sleep_until = Dict.delete name s.sleep_until })
    else none

abbrev awake : State → String → ℕ → Option ℕ → State × Option ℕ
awake s name now none = (s, none)
awake s name now (some wake_at) =
    if leb wake_at now
    then (record s { sleep_until = Dict.delete name s.sleep_until }, none)
    else (s, some wake_at)

-- Also drops a sleep that is over.
unfoldable pub get_task_sleep : State → String → ℕ → State × Option ℕ
get_task_sleep s name now = awake s name now (Dict.get name s.sleep_until)

abbrev pub is_due : ScheduledTask → ℕ → Bool
is_due t now =
    t.enabled && not t.running && elim t.next_run_at [ none ↦ false | some n ↦ leb n now ]

abbrev pub is_awake : Option ℕ → ℕ → Bool
is_awake none now = true
is_awake (some wake_at) now = leb wake_at now

-- The tick for one task of the map; `last_human` as in `is_idle`.
abbrev pub tick_read : Option Bool → Option ℕ → State → ℕ → ℕ → Option ScheduledTask → State
tick_read session last_human s obj now none = s
tick_read session last_human s obj now (some t) =
    if is_due t now && is_awake (Dict.get t.name s.sleep_until) now
    then (let u = record s { sleep_until = Dict.delete t.name s.sleep_until } in
        if t.idle_only && not (is_idle last_human t.idle_after_ms now)
        then u
        else run_task session u obj)
    else s

unfoldable pub tick_each : Option Bool → Option ℕ → Dict ℕ → State → ℕ → State
unfolding run_task
tick_each session last_human [] s now = s
tick_each session last_human ((name, obj) ∷ tasks) s now =
    tick_each session last_human tasks
      (tick_read session last_human s obj now (Heap.read obj s.objects)) now

unfoldable pub tick : Option Bool → Option ℕ → State → ℕ → State
unfolding tick_each
tick session last_human s now = tick_each session last_human s.tasks s now

pub data Event : Type 0 where
  starts : Option (String → ℕ → Bool) → Option Bool → ℕ → Event
  ticks : Option Bool → Option ℕ → ℕ → Event
  triggers : Option Bool → String → Event
  completes : ℕ → ℕ → Event
  adds : TaskScheduleConfig → ℕ → Event
  reloads : List TaskScheduleConfig → ℕ → Event
  removes wakes : String → Event
  sleeps : String → ℕ → ℕ → Event
  asks_sleep : String → ℕ → Event
  registers : Bool → String → Event
  stops : Event

-- A call that throws leaves the state as it was.
abbrev pub or_same : State → Option State → State
or_same s none = s
or_same s (some u) = u

module _ (crons : Cron) where
  unfoldable pub step : State → Event → State
  step s (starts guard session now) = start crons guard session s now
  step s (ticks session last_human now) = tick session last_human s now
  step s (triggers session name) = or_same s (trigger_task session s name)
  step s (completes obj now) = complete crons s obj now
  step s (adds c now) = (add_task crons s c now).0
  step s (reloads cs now) = (reload crons s cs now).0
  step s (removes name) = remove_task s name
  step s (wakes name) = or_same s (wake_task s name)
  step s (sleeps name hours now) = or_same s (sleep_task s name hours now)
  step s (asks_sleep name now) = (get_task_sleep s name now).0
  step s (registers has_callback name) = or_same s (register_handler has_callback s name)
  step s stops = stop s

  unfoldable pub run : State → List Event → State
  run s [] = s
  run s (e ∷ es) = run (step s e) es
