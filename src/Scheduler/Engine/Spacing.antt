-- ===== src/Scheduler/Engine/Spacing.antt =====
-- When the tick starts a task again.
use kithkit.Base.{
  ℕ, ◌+◌, ◌≤◌, ◌<◌, String, Bool, true, false, List, [], ◌∷◌, ◌++◌, Option, none, some, filter,
  ◌==◌, if◌then◌else◌, ◌≡◌, ◌≢◌, inl, inr, refl, ◌∙◌, arith, Bool-cases, Option-cases,
}
use kithkit.Base.Dict
use kithkit.Base.Dict.{Dict}
use kithkit.Base.Heap
use kithkit.Base.Heap.{read-write, read-append}
use kithkit.Scheduler.{
  Schedule, cron, interval, ScheduledTask, TaskScheduleConfig, Cron, parse_task, update_task,
  calculate_next_run,
}
use kithkit.Scheduler.Engine.{
  State, empty, on_object, set_running, run_task, finish, complete, set_next, placed, add_task,
  reload_one, reload_each, reload, start_task, start_each, start, stop, remove_task, trigger_task,
  register_handler, sleep_task, wake_task, tick_read, tick_each, tick, Event, starts, ticks,
  triggers, completes, adds, reloads, removes, wakes, sleeps, asks_sleep, get_task_sleep, registers,
  stops, step, run, add_parsed, update_at, named,
}

-- How often an object is in flight.
unfoldable pub in_flight : ℕ → List ℕ → ℕ
in_flight obj [] = 0
in_flight obj (o ∷ os) = let rest = in_flight obj os in if o == obj then rest + 1 else rest

pub in_flight-append :
    (obj o : ℕ) (l : List ℕ)
    → in_flight obj (l ++ o ∷ []) ≡ (if o == obj then in_flight obj l + 1 else in_flight obj l)
unfolding in_flight
in_flight-append obj o [] = ground arith
in_flight-append obj o (p ∷ l) = ground (arith, in_flight-append obj o l)

abbrev Spaced : Schedule → Option ℕ → Option ℕ → Type 0
Spaced (cron e) last next = Unit
Spaced (interval ms) none next = Unit
Spaced (interval ms) (some l) none = Unit
Spaced (interval ms) (some l) (some n) = l + ms ≤ n

abbrev SpacedTask : Option ScheduledTask → Type 0
SpacedTask none = Unit
SpacedTask (some t) = Spaced t.schedule t.last_run_at t.next_run_at

module _ (obj : ℕ) where
  abbrev IsSpaced : State → Type 0
  IsSpaced s = SpacedTask (Heap.read obj s.objects)

  module _ (crons : Cron) where
    calculate_next_run-Spaced :
        (t : ScheduledTask) (now : ℕ)
        → Spaced t.schedule t.last_run_at (calculate_next_run crons t now)
    unfolding calculate_next_run
    calculate_next_run-Spaced t now = ground arith

    run_task-IsSpaced :
        (session : Option Bool) (s : State) (o : ℕ) → IsSpaced s → IsSpaced (run_task session s o)
    unfolding run_task
    run_task-IsSpaced session s o h = ground (
      arith,
      h,
      read-write o obj (set_running true) s.objects,
      read-write o obj (set_running false) s.objects,
    )

    complete-IsSpaced : (s : State) (o now : ℕ) → IsSpaced s → IsSpaced (complete crons s o now)
    unfolding complete
    complete-IsSpaced s o now h = elim (Option-cases (Heap.read obj s.objects)) [
      | inl e ↦ ground (arith, h, e, read-write o obj (finish crons now) s.objects)
      | inr (t, e) ↦ ground (
        arith,
        h,
        e,
        read-write o obj (finish crons now) s.objects,
        calculate_next_run-Spaced (record t { last_run_at = some now }) now,
      )
    ]

    set_next-IsSpaced :
        (s : State) (o now : ℕ) → IsSpaced s → IsSpaced (on_object (set_next crons now) o s)
    set_next-IsSpaced s o now h = elim (Option-cases (Heap.read obj s.objects)) [
      | inl e ↦ ground (arith, h, e, read-write o obj (set_next crons now) s.objects)
      | inr (t, e) ↦ ground (
        arith,
        h,
        e,
        read-write o obj (set_next crons now) s.objects,
        calculate_next_run-Spaced t now,
      )
    ]

    placed-SpacedTask :
        (b : Bool) (now : ℕ) (t : ScheduledTask)
        → t.last_run_at ≡ none
        → SpacedTask (some (placed crons b now t))
    placed-SpacedTask b now t e = ground (arith, e)

    parse_task-fresh :
        (c : TaskScheduleConfig) (t : ScheduledTask) → parse_task c ≡ some t → t.last_run_at ≡ none
    unfolding parse_task
    parse_task-fresh c t e = ground (arith, e)

    add_parsed-IsSpaced :
        (s : State) (name : String) (now : ℕ) (c : TaskScheduleConfig) (o : Option ScheduledTask)
        → parse_task c ≡ o
        → IsSpaced s
        → IsSpaced (add_parsed crons s name now o).0
    add_parsed-IsSpaced s name now c none e h = h
    add_parsed-IsSpaced s name now c (some t) e h = ground (
      arith,
      h,
      read-append obj s.objects (placed crons s.started now t),
      placed-SpacedTask s.started now t (parse_task-fresh c t e),
    )

    update_at-IsSpaced :
        (s : State) (c : TaskScheduleConfig) (o : Option ℕ)
        → IsSpaced s
        → IsSpaced (update_at crons o c s)
    unfolding update_task
    update_at-IsSpaced s c none h = h
    update_at-IsSpaced s c (some o) h =
        ground (arith, h, read-write o obj (update_task c) s.objects)

    add_task-IsSpaced :
        (s : State) (c : TaskScheduleConfig) (now : ℕ)
        → IsSpaced s
        → IsSpaced (add_task crons s c now).0
    unfolding add_task
    add_task-IsSpaced s c now h =
        ground (arith, h, add_parsed-IsSpaced s c.name now c (parse_task c) refl h)

    reload_one-IsSpaced :
        (s : State) (c : TaskScheduleConfig) (now : ℕ)
        → IsSpaced s
        → IsSpaced (reload_one crons s c now).0
    unfolding reload_one
    reload_one-IsSpaced s c now h = ground (
      arith,
      h,
      add_parsed-IsSpaced s c.name now c (parse_task c) refl h,
      update_at-IsSpaced s c (Dict.get c.name s.tasks) h,
    )

    reload_each-IsSpaced :
        (cs : List TaskScheduleConfig) (s : State) (now : ℕ)
        → IsSpaced s
        → IsSpaced (reload_each crons cs s now).0
    unfolding reload_each
    reload_each-IsSpaced [] s now h = h
    reload_each-IsSpaced (c ∷ cs) s now h = ground (
      arith,
      reload_one-IsSpaced s c now h,
      reload_each-IsSpaced cs (reload_one crons s c now).0 now,
    )

    start_task-IsSpaced :
        (guard : Option (String → ℕ → Bool)) (session : Option Bool) (s : State) (o now : ℕ)
        → IsSpaced s
        → IsSpaced (start_task crons guard session s o now)
    unfolding start_task
    start_task-IsSpaced guard session s o now h = ground (
      arith,
      h,
      set_next-IsSpaced s o now h,
      run_task-IsSpaced session (on_object (set_next crons now) o s) o,
    )

    start_each-IsSpaced :
        (guard : Option (String → ℕ → Bool)) (session : Option Bool) (tasks : Dict ℕ) (s : State)
        (now : ℕ)
        → IsSpaced s
        → IsSpaced (start_each crons guard session tasks s now)
    unfolding start_each
    start_each-IsSpaced guard session [] s now h = h
    start_each-IsSpaced guard session ((name, o) ∷ tasks) s now h =
        start_each-IsSpaced guard session tasks (start_task crons guard session s o now) now
          (start_task-IsSpaced guard session s o now h)

    tick_read-IsSpaced :
        (session : Option Bool) (last_human : Option ℕ) (s : State) (o now : ℕ)
        (t : Option ScheduledTask)
        → IsSpaced s
        → IsSpaced (tick_read session last_human s o now t)
    tick_read-IsSpaced session last_human s o now none h = h
    tick_read-IsSpaced session last_human s o now (some t) h = ground (
      arith,
      h,
      run_task-IsSpaced session (record s { sleep_until = Dict.delete t.name s.sleep_until }) o h,
    )

    tick_each-IsSpaced :
        (session : Option Bool) (last_human : Option ℕ) (tasks : Dict ℕ) (s : State) (now : ℕ)
        → IsSpaced s
        → IsSpaced (tick_each session last_human tasks s now)
    unfolding tick_each
    tick_each-IsSpaced session last_human [] s now h = h
    tick_each-IsSpaced session last_human ((name, o) ∷ tasks) s now h =
        tick_each-IsSpaced session last_human tasks
          (tick_read session last_human s o now (Heap.read o s.objects)) now
          (tick_read-IsSpaced session last_human s o now (Heap.read o s.objects) h)

    step-IsSpaced : (s : State) (e : Event) → IsSpaced s → IsSpaced (step crons s e)
    unfolding step start tick trigger_task reload stop remove_task wake_task sleep_task
        get_task_sleep register_handler
    step-IsSpaced s (starts guard session now) h =
        ground
          (arith, h, start_each-IsSpaced guard session s.tasks (record s { started = true }) now h)
    step-IsSpaced s (ticks session last_human now) h =
        tick_each-IsSpaced session last_human s.tasks s now h
    step-IsSpaced s (triggers session name) h = elim (Option-cases (Dict.get name s.tasks)) [
      | inl e ↦ rw (e, trigger_task) h
      | inr (o, e) ↦ rw (e, trigger_task) (run_task-IsSpaced session s o h)
    ]
    step-IsSpaced s (completes o now) h = complete-IsSpaced s o now h
    step-IsSpaced s (adds c now) h = add_task-IsSpaced s c now h
    step-IsSpaced s (reloads cs now) h =
        reload_each-IsSpaced cs (record s { tasks = filter (λ e. named crons e.0 cs) s.tasks }) now
          h
    step-IsSpaced s (removes name) h = h
    step-IsSpaced s (wakes name) h = ground (arith, h)
    step-IsSpaced s (sleeps name hours now) h = ground (arith, h)
    step-IsSpaced s (asks_sleep name now) h = ground (arith, h)
    step-IsSpaced s (registers has_callback name) h = ground (arith, h)
    step-IsSpaced s stops h = h

    run-IsSpaced : (s : State) (es : List Event) → IsSpaced s → IsSpaced (run crons s es)
    unfolding run
    run-IsSpaced s [] h = h
    run-IsSpaced s (e ∷ es) h = run-IsSpaced (step crons s e) es (step-IsSpaced s e h)

  -- The next run, where there is one, lies ahead.
  abbrev Early : ℕ → Option ℕ → Type 0
  Early now none = Unit
  Early now (some n) = now < n

  abbrev IsEarly : ℕ → State → Type 0
  IsEarly now s = elim (Heap.read obj s.objects) [ none ↦ Unit | some t ↦ Early now t.next_run_at ]

  -- A run of another object, or none at all.
  run_task-IsEarly :
      (session : Option Bool) (s : State) (o now : ℕ)
      → (o == obj) ≡ false
      → IsEarly now s
      → IsEarly now (run_task session s o)
        × (in_flight obj (run_task session s o).runs ≡ in_flight obj s.runs)
  unfolding run_task
  run_task-IsEarly session s o now n h = ground (
    arith,
    n,
    h,
    read-write o obj (set_running true) s.objects,
    read-write o obj (set_running false) s.objects,
    in_flight-append obj o s.runs,
  )

  tick_read-IsEarly :
      (session : Option Bool) (last_human : Option ℕ) (s : State) (o now : ℕ)
      (t : Option ScheduledTask)
      → Heap.read o s.objects ≡ t
      → IsEarly now s
      → IsEarly now (tick_read session last_human s o now t)
        × (in_flight obj (tick_read session last_human s o now t).runs ≡ in_flight obj s.runs)
  tick_read-IsEarly session last_human s o now none e h = (h, refl)
  tick_read-IsEarly session last_human s o now (some t) e h = elim (Bool-cases (o == obj)) [
    | inl same ↦ ground (arith, same, e, h)
    | inr n ↦ ground (
      arith,
      h,
      run_task-IsEarly session (record s { sleep_until = Dict.delete t.name s.sleep_until }) o now n
          h,
    )
  ]

  tick_each-IsEarly :
      (session : Option Bool) (last_human : Option ℕ) (tasks : Dict ℕ) (s : State) (now : ℕ)
      → IsEarly now s
      → in_flight obj (tick_each session last_human tasks s now).runs ≡ in_flight obj s.runs
  unfolding tick_each
  tick_each-IsEarly session last_human [] s now h = refl
  tick_each-IsEarly session last_human ((name, o) ∷ tasks) s now h =
      let (still, same) =
        tick_read-IsEarly session last_human s o now (Heap.read o s.objects) refl h in
      tick_each-IsEarly session last_human tasks
        (tick_read session last_human s o now (Heap.read o s.objects)) now still
      ∙ same

  -- A task with an interval that the tick starts has last ended at least its interval ago, if it has
  -- run before: in every state that starts, stops, ticks, triggers, ends of runs, additions, removals,
  -- reloads and sleeps lead to.
  pub interval_kept :
      (crons : Cron) (es : List Event) (session : Option Bool) (last_human : Option ℕ) (now : ℕ)
      (t : ScheduledTask) (ms last : ℕ)
      → Heap.read obj (run crons empty es).objects ≡ some t
      → t.schedule ≡ interval ms
      → t.last_run_at ≡ some last
      → in_flight obj (tick session last_human (run crons empty es) now).runs
        ≢ in_flight obj (run crons empty es).runs
      → last + ms ≤ now
  unfolding tick
  interval_kept crons es session last_human now t ms last e i l fired =
      let s = run crons empty es in
      let h = run-IsSpaced crons empty es (unfold Heap.read in tt) in
      ground (arith, e, i, l, h, fired, tick_each-IsEarly session last_human s.tasks s now)
