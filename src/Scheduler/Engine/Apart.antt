-- ===== src/Scheduler/Engine/Apart.antt =====
-- The task objects of the scheduler's map in daemon/src/automation/scheduler.ts.
use kithkit.Base.{
  ℕ, ◌+◌, ◌≤◌, String, Bool, true, false, List, [], ◌∷◌, Option, none, some, filter, length,
  length-append, ◌==◌, ltb, if◌then◌else◌, ◌≡◌, refl, arith, inl, inr, Option-cases,
}
use kithkit.Base.Dict
use kithkit.Base.Dict.{Dict}
use kithkit.Base.Heap
use kithkit.Base.Heap.{length-write}
use kithkit.Scheduler.{ScheduledTask, TaskScheduleConfig, Cron, parse_task, update_task}
use kithkit.Scheduler.Engine.{
  State, set_running, run_task, complete, finish, set_next, placed, add_parsed, add_task, update_at,
  reload_one, reload_each, reload, start_task, start_each, start, stop, remove_task, trigger_task,
  register_handler, sleep_task, wake_task, get_task_sleep, tick_read, tick_each, tick, Event,
  starts, ticks, triggers, completes, adds, reloads, removes, wakes, sleeps, asks_sleep, registers,
  stops, step, named,
}

-- How many names have an object.
abbrev pub uses : ℕ → Dict ℕ → ℕ
uses o [] = 0
uses o ((name, p) ∷ m) = (if p == o then 1 else 0) + uses o m

-- No two names share an object, and each one's object exists.
abbrev pub IsApart : State → Type 0
IsApart s = (o : ℕ) → uses o s.tasks ≤ (if ltb o (length s.objects) then 1 else 0)

uses-set :
    (o : ℕ) (k : String) (v : ℕ) (m : Dict ℕ)
    → uses o (Dict.set k v m) ≤ uses o m + (if v == o then 1 else 0)
unfolding Dict.set
uses-set o k v [] = ground arith
uses-set o k v ((name, p) ∷ m) = ground (arith, uses-set o k v m)

uses-delete : (o : ℕ) (k : String) (m : Dict ℕ) → uses o (Dict.delete k m) ≤ uses o m
unfolding Dict.delete
uses-delete o k [] = ground arith
uses-delete o k ((name, p) ∷ m) = ground (arith, uses-delete o k m)

uses-filter : (o : ℕ) (p : String × ℕ → Bool) (m : Dict ℕ) → uses o (filter p m) ≤ uses o m
uses-filter o p [] = ground arith
uses-filter o p ((name, q) ∷ m) = ground (arith, uses-filter o p m)

-- The same map, and as many objects.
abbrev Keeps : State → State → Type 0
Keeps s u = (u.tasks ≡ s.tasks) × (length u.objects ≡ length s.objects)

run_task-Keeps : (session : Option Bool) (s : State) (o : ℕ) → Keeps s (run_task session s o)
unfolding run_task
run_task-Keeps session s o = ground (
  arith,
  length-write o (set_running true) s.objects,
  length-write o (set_running false) s.objects,
)

tick_read-Keeps :
    (session : Option Bool) (last_human : Option ℕ) (s : State) (o now : ℕ)
    (t : Option ScheduledTask)
    → Keeps s (tick_read session last_human s o now t)
tick_read-Keeps session last_human s o now none = (refl, refl)
tick_read-Keeps session last_human s o now (some t) =
    ground (
      arith,
      run_task-Keeps session (record s { sleep_until = Dict.delete t.name s.sleep_until }) o,
    )

tick_each-Keeps :
    (session : Option Bool) (last_human : Option ℕ) (tasks : Dict ℕ) (s : State) (now : ℕ)
    → Keeps s (tick_each session last_human tasks s now)
unfolding tick_each
tick_each-Keeps session last_human [] s now = (refl, refl)
tick_each-Keeps session last_human ((name, o) ∷ tasks) s now = ground (
  arith,
  tick_read-Keeps session last_human s o now (Heap.read o s.objects),
  tick_each-Keeps session last_human tasks
      (tick_read session last_human s o now (Heap.read o s.objects)) now,
)

module _ (crons : Cron) where
  start_task-Keeps :
      (guard : Option (String → ℕ → Bool)) (session : Option Bool) (s : State) (o now : ℕ)
      → Keeps s (start_task crons guard session s o now)
  unfolding start_task
  start_task-Keeps guard session s o now = ground (
    arith,
    length-write o (set_next crons now) s.objects,
    run_task-Keeps session (record s { objects = Heap.write o (set_next crons now) s.objects }) o,
  )

  start_each-Keeps :
      (guard : Option (String → ℕ → Bool)) (session : Option Bool) (tasks : Dict ℕ) (s : State)
      (now : ℕ)
      → Keeps s (start_each crons guard session tasks s now)
  unfolding start_each
  start_each-Keeps guard session [] s now = (refl, refl)
  start_each-Keeps guard session ((name, o) ∷ tasks) s now = ground (
    arith,
    start_task-Keeps guard session s o now,
    start_each-Keeps guard session tasks (start_task crons guard session s o now) now,
  )

  add_parsed-IsApart :
      (s : State) (name : String) (now : ℕ) (t : Option ScheduledTask)
      → IsApart s
      → IsApart (add_parsed crons s name now t).0
  add_parsed-IsApart s name now none a o = a o
  add_parsed-IsApart s name now (some t) a o = ground (
    arith,
    a o,
    uses-set o name (length s.objects) s.tasks,
    length-append s.objects (placed crons s.started now t ∷ []),
  )

  update_at-Keeps :
      (obj : Option ℕ) (c : TaskScheduleConfig) (s : State) → Keeps s (update_at crons obj c s)
  update_at-Keeps none c s = (refl, refl)
  update_at-Keeps (some obj) c s = (refl, length-write obj (update_task c) s.objects)

  reload_one-IsApart :
      (s : State) (c : TaskScheduleConfig) (now : ℕ)
      → IsApart s
      → IsApart (reload_one crons s c now).0
  unfolding reload_one
  reload_one-IsApart s c now a o = ground (
    arith,
    a o,
    add_parsed-IsApart s c.name now (parse_task c) a o,
    update_at-Keeps (Dict.get c.name s.tasks) c s,
  )

  reload_each-IsApart :
      (cs : List TaskScheduleConfig) (s : State) (now : ℕ)
      → IsApart s
      → IsApart (reload_each crons cs s now).0
  unfolding reload_each
  reload_each-IsApart [] s now a o = a o
  reload_each-IsApart (c ∷ cs) s now a o = ground (
    arith,
    reload_one-IsApart s c now a o,
    reload_each-IsApart cs (reload_one crons s c now).0 now (reload_one-IsApart s c now a) o,
  )

  pub step-IsApart : (s : State) (e : Event) → IsApart s → IsApart (step crons s e)
  unfolding step start tick trigger_task reload stop remove_task wake_task sleep_task get_task_sleep
      register_handler add_task complete
  step-IsApart s (starts guard session now) a o =
      ground (arith, a o, start_each-Keeps guard session s.tasks (record s { started = true }) now)
  step-IsApart s (ticks session last_human now) a o =
      ground (arith, a o, tick_each-Keeps session last_human s.tasks s now)
  step-IsApart s (triggers session name) a o = elim (Option-cases (Dict.get name s.tasks)) [
    | inl e ↦ rw (e, trigger_task) (a o)
    | inr (obj, e) ↦ rw (e, trigger_task) (ground (arith, a o, run_task-Keeps session s obj))
  ]
  step-IsApart s (completes obj now) a o =
      ground (arith, a o, length-write obj (finish crons now) s.objects)
  step-IsApart s (adds conf now) a o =
      ground (arith, a o, add_parsed-IsApart s conf.name now (parse_task conf) a o)
  step-IsApart s (reloads cs now) a o =
      reload_each-IsApart cs (record s { tasks = filter (λ e. named crons e.0 cs) s.tasks }) now
        (λ p. ground (arith, a p, uses-filter p (λ e. named crons e.0 cs) s.tasks)) o
  step-IsApart s (removes name) a o = ground (arith, a o, uses-delete o name s.tasks)
  step-IsApart s (wakes name) a o = ground (arith, a o)
  step-IsApart s (sleeps name hours now) a o = ground (arith, a o)
  step-IsApart s (asks_sleep name now) a o = ground (arith, a o)
  step-IsApart s (registers has_callback name) a o = ground (arith, a o)
  step-IsApart s stops a o = a o
