-- ===== src/Scheduler/Engine/Single.antt =====
-- How many executions of a task are in flight at once.
use kithkit.Base.{
  ℕ, ◌-◌, ◌<◌, ◌≤◌, not, ◌||◌, String, Bool, true, false, List, [], ◌∷◌, Option, none, some, filter,
  any, length, ◌==◌, if◌then◌else◌, ◌≡◌, inl, inr, refl, arith, Bool-cases, Option-cases,
}
use kithkit.Base.Dict
use kithkit.Base.Dict.{Dict}
use kithkit.Base.Heap
use kithkit.Base.Heap.{read-write, read-append}
use kithkit.Scheduler.{ScheduledTask, TaskScheduleConfig, Cron, parse_task, update_task}
use kithkit.Scheduler.Engine.{
  State, start_task, start_each, set_next, on_object, set_running, run_task, without, finish,
  complete, placed, add_task, is_running, object_of, reload_one, reload_each, reload, start, stop,
  remove_task, trigger_task, register_handler, sleep_task, wake_task, tick_read, tick_each, tick,
  Event, starts, ticks, triggers, completes, adds, reloads, removes, wakes, sleeps, asks_sleep,
  get_task_sleep, registers, stops, step, run, add_parsed, update_at, named,
}
use kithkit.Scheduler.Engine.Apart.{uses, IsApart, step-IsApart}
use kithkit.Scheduler.Engine.Spacing.{in_flight, in_flight-append}

in_flight-without :
    (obj o : ℕ) (l : List ℕ)
    → in_flight obj (without o l) ≡ (if o == obj then in_flight obj l - 1 else in_flight obj l)
unfolding in_flight without
in_flight-without obj o [] = ground arith
in_flight-without obj o (p ∷ l) = ground (arith, in_flight-without obj o l)

any-in_flight : (obj : ℕ) (l : List ℕ) → any (λ o. o == obj) l ≡ true → 0 < in_flight obj l
unfolding in_flight
any-in_flight obj [] h = ground (arith, h)
any-in_flight obj (p ∷ l) h = ground (arith, h, any-in_flight obj l)

-- A task that runs has one execution in flight, one that does not has none.
abbrev pub Counts : Option ScheduledTask → ℕ → Type 0
Counts none n = n ≡ 0
Counts (some t) n = n ≡ (if t.running then 1 else 0)

abbrev pub IsSingle : State → Type 0
IsSingle s = (obj : ℕ) → Counts (Heap.read obj s.objects) (in_flight obj s.runs)

read-length {ℓ} : {A : Type ℓ} (l : List A) → Heap.read (length l) l ≡ none
unfolding Heap.read
read-length [] = refl
read-length (a ∷ l) = read-length l

run_task-IsSingle :
    (session : Option Bool) (s : State) (o : ℕ)
    → is_running (Heap.read o s.objects) ≡ false
    → IsSingle s
    → IsSingle (run_task session s o)
unfolding run_task
run_task-IsSingle session s o i v obj = ground (
  arith,
  i,
  v obj,
  read-write o obj (set_running true) s.objects,
  read-write o obj (set_running false) s.objects,
  in_flight-append obj o s.runs,
)

module _ (crons : Cron) where
  complete-IsSingle : (s : State) (o now : ℕ) → IsSingle s → IsSingle (complete crons s o now)
  unfolding complete
  complete-IsSingle s o now v obj = ground (
    arith,
    v obj,
    v o,
    any-in_flight o s.runs,
    read-write o obj (finish crons now) s.objects,
    in_flight-without obj o s.runs,
  )

  add_parsed-IsSingle :
      (s : State) (name : String) (now : ℕ) (c : TaskScheduleConfig) (o : Option ScheduledTask)
      → parse_task c ≡ o
      → IsSingle s
      → IsSingle (add_parsed crons s name now o).0
  unfolding parse_task
  add_parsed-IsSingle s name now c none e v obj = v obj
  add_parsed-IsSingle s name now c (some t) e v obj = ground (
    arith,
    e,
    v obj,
    v (length s.objects),
    read-length s.objects,
    read-append obj s.objects (placed crons s.started now t),
  )

  update_at-IsSingle :
      (s : State) (c : TaskScheduleConfig) (o : Option ℕ)
      → IsSingle s
      → IsSingle (update_at crons o c s)
  unfolding update_task
  update_at-IsSingle s c none v obj = v obj
  update_at-IsSingle s c (some o) v obj =
      ground (arith, v obj, read-write o obj (update_task c) s.objects)

  reload_one-IsSingle :
      (s : State) (c : TaskScheduleConfig) (now : ℕ)
      → IsSingle s
      → IsSingle (reload_one crons s c now).0
  unfolding reload_one
  reload_one-IsSingle s c now v obj = ground (
    arith,
    add_parsed-IsSingle s c.name now c (parse_task c) refl v obj,
    update_at-IsSingle s c (Dict.get c.name s.tasks) v obj,
  )

  reload_each-IsSingle :
      (cs : List TaskScheduleConfig) (s : State) (now : ℕ)
      → IsSingle s
      → IsSingle (reload_each crons cs s now).0
  unfolding reload_each
  reload_each-IsSingle [] s now v obj = v obj
  reload_each-IsSingle (c ∷ cs) s now v obj = ground (
    arith,
    reload_one-IsSingle s c now v obj,
    reload_each-IsSingle cs (reload_one crons s c now).0 now (reload_one-IsSingle s c now v) obj,
  )

tick_read-IsSingle :
    (session : Option Bool) (last_human : Option ℕ) (s : State) (o now : ℕ)
    (t : Option ScheduledTask)
    → Heap.read o s.objects ≡ t
    → IsSingle s
    → IsSingle (tick_read session last_human s o now t)
tick_read-IsSingle session last_human s o now none e v obj = v obj
tick_read-IsSingle session last_human s o now (some t) e v obj = elim (Bool-cases t.running) [
  | inl busy ↦ ground (arith, busy, v obj)
  | inr free ↦ ground (
    arith,
    v obj,
    run_task-IsSingle session (record s { sleep_until = Dict.delete t.name s.sleep_until }) o
        (ground (arith, e, free)) v obj,
  )
]

tick_each-IsSingle :
    (session : Option Bool) (last_human : Option ℕ) (tasks : Dict ℕ) (s : State) (now : ℕ)
    → IsSingle s
    → IsSingle (tick_each session last_human tasks s now)
unfolding tick_each
tick_each-IsSingle session last_human [] s now v = v
tick_each-IsSingle session last_human ((name, o) ∷ tasks) s now v =
    tick_each-IsSingle session last_human tasks
      (tick_read session last_human s o now (Heap.read o s.objects)) now
      (tick_read-IsSingle session last_human s o now (Heap.read o s.objects) refl v)

module _ (crons : Cron) where
  -- The object of a task that a start takes up, when it is not running.
  start_task-IsSingle :
      (guard : Option (String → ℕ → Bool)) (session : Option Bool) (s : State) (o now : ℕ)
      → is_running (Heap.read o s.objects) ≡ false
      → IsSingle s
      → IsSingle (start_task crons guard session s o now)
  unfolding start_task
  start_task-IsSingle guard session s o now i v =
      let u = on_object (set_next crons now) o s in
      let idle : is_running (Heap.read o u.objects) ≡ false =
        ground (arith, i, read-write o o (set_next crons now) s.objects) in
      let fine : IsSingle u =
        λ obj. ground (arith, v obj, read-write o obj (set_next crons now) s.objects) in
      λ obj. ground (arith, v obj, fine obj, run_task-IsSingle session u o idle fine obj)

  run_task-elsewhere :
      (session : Option Bool) (s : State) (o obj : ℕ)
      → (o == obj) ≡ false
      → Heap.read obj (run_task session s o).objects ≡ Heap.read obj s.objects
  unfolding run_task
  run_task-elsewhere session s o obj n = ground (
    arith,
    n,
    read-write o obj (set_running true) s.objects,
    read-write o obj (set_running false) s.objects,
  )

  start_task-elsewhere :
      (guard : Option (String → ℕ → Bool)) (session : Option Bool) (s : State) (o now obj : ℕ)
      → (o == obj) ≡ false
      → Heap.read obj (start_task crons guard session s o now).objects ≡ Heap.read obj s.objects
  unfolding start_task
  start_task-elsewhere guard session s o now obj n = ground (
    arith,
    n,
    read-write o obj (set_next crons now) s.objects,
    run_task-elsewhere session (on_object (set_next crons now) o s) o obj n,
  )

  abbrev AreIdle : Dict ℕ → State → Type 0
  AreIdle tasks s = (o : ℕ) → 0 < uses o tasks → is_running (Heap.read o s.objects) ≡ false

  start_each-IsSingle :
      (guard : Option (String → ℕ → Bool)) (session : Option Bool) (tasks : Dict ℕ) (s : State)
      (now : ℕ)
      → ((o : ℕ) → uses o tasks ≤ 1)
      → AreIdle tasks s
      → IsSingle s
      → IsSingle (start_each crons guard session tasks s now)
  unfolding start_each
  start_each-IsSingle guard session [] s now a i v = v
  start_each-IsSingle guard session ((name, obj) ∷ tasks) s now a i v =
      start_each-IsSingle guard session tasks (start_task crons guard session s obj now) now
        (λ o. ground (arith, a o))
        (λ o used. ground (arith, used, a o, i o, start_task-elsewhere guard session s obj now o))
        (start_task-IsSingle guard session s obj now (i obj (ground arith)) v)

-- Whether a task of the map runs.
abbrev pub has_running : Dict ℕ → List ScheduledTask → Bool
has_running [] objects = false
has_running ((name, o) ∷ tasks) objects =
    is_running (Heap.read o objects) || has_running tasks objects

has_running-uses :
    (tasks : Dict ℕ) (objects : List ScheduledTask) (o : ℕ)
    → has_running tasks objects ≡ false
    → 0 < uses o tasks
    → is_running (Heap.read o objects) ≡ false
has_running-uses [] objects o h used = ground (arith, used)
has_running-uses ((name, p) ∷ tasks) objects o h used =
    ground (arith, h, used, has_running-uses tasks objects o)

-- What an event relies on: no one triggers a task that runs, and when a stopped scheduler starts, no
-- task of its map runs.
abbrev pub IsCalm : State → Event → Type 0
IsCalm s (triggers session name) = is_running (object_of (Dict.get name s.tasks) s.objects) ≡ false
IsCalm s (starts guard session now) = (s.started || not (has_running s.tasks s.objects)) ≡ true
IsCalm s _ = Unit

module _ (crons : Cron) where
  step-IsSingle :
      (s : State) (e : Event) → IsCalm s e → IsApart s → IsSingle s → IsSingle (step crons s e)
  unfolding step start tick trigger_task reload stop remove_task wake_task sleep_task get_task_sleep
      register_handler add_task
  step-IsSingle s (starts guard session now) c a v = elim (Bool-cases s.started) [
    | inl on ↦ λ obj. ground (arith, on, v obj)
    | inr off ↦
        let started =
          start_each-IsSingle crons guard session s.tasks (record s { started = true }) now
            (λ o. ground (arith, a o))
            (λ o used. has_running-uses s.tasks s.objects o (ground (arith, c, off)) used) v in
        λ obj. ground (arith, off, started obj)
  ]
  step-IsSingle s (ticks session last_human now) c a v =
      tick_each-IsSingle session last_human s.tasks s now v
  step-IsSingle s (triggers session name) c a v = elim (Option-cases (Dict.get name s.tasks)) [
    | inl e ↦ rw (e, trigger_task) v
    | inr (o, e) ↦ rw (e, trigger_task) (run_task-IsSingle session s o (rw e at c) v)
  ]
  step-IsSingle s (completes o now) c a v = complete-IsSingle crons s o now v
  step-IsSingle s (adds conf now) c a v = λ obj.
      ground
        (arith, v obj, add_parsed-IsSingle crons s conf.name now conf (parse_task conf) refl v obj)
  step-IsSingle s (reloads cs now) c a v =
      reload_each-IsSingle crons cs (record s { tasks = filter (λ e. named crons e.0 cs) s.tasks })
        now v
  step-IsSingle s (removes name) c a v = v
  step-IsSingle s (wakes name) c a v = λ obj. ground (arith, v obj)
  step-IsSingle s (sleeps name hours now) c a v = λ obj. ground (arith, v obj)
  step-IsSingle s (asks_sleep name now) c a v = λ obj. ground (arith, v obj)
  step-IsSingle s (registers has_callback name) c a v = λ obj. ground (arith, v obj)
  step-IsSingle s stops c a v = v

  abbrev pub AreCalm : State → List Event → Type 0
  AreCalm s [] = Unit
  AreCalm s (e ∷ es) = IsCalm s e × AreCalm (step crons s e) es

  -- No task object has two executions at once, and its flag says whether it has one, if that holds
  -- at first and each name of the map has an object of its own, as long as no one triggers a running
  -- task by hand and no task of the map is running when a stopped scheduler starts: starts with the
  -- runs that they catch up on, ticks, reloads, removals, additions and the ends of runs keep it so.
  pub run-IsSingle :
      (s : State) (es : List Event)
      → AreCalm s es
      → IsApart s
      → IsSingle s
      → IsSingle (run crons s es)
  unfolding run
  run-IsSingle s [] c a v = v
  run-IsSingle s (e ∷ es) c a v =
      run-IsSingle (step crons s e) es c.1 (step-IsApart crons s e a) (step-IsSingle s e c.0 a v)
