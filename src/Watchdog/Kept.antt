-- ===== src/Watchdog/Kept.antt =====
-- What keeps the table of tasks past the stamp of the watchdog's latest restart: requests at the task
-- routes, creations of tasks and the sweeps of the idle monitor.
use kithkit.Base.{
  map, ℕ, zero, suc, ◌<◌, String, true, List, [], ◌∷◌, Option, none, some, All, ◌≡◌, refl, arith,
  inl, inr, sym, subst,
}
use kithkit.Tasks.Checked.{ok, fail, Checked}
use kithkit.Tasks.Row.{Task}
use kithkit.TaskQueue.Both.{AnyRequest, any_step}
use kithkit.TaskQueue.Rows.{CreateBody, create, task_to_orchestrator_response}
use kithkit.Watchdog.{State}
use kithkit.Watchdog.Frozen.Exact.{has_id}
use kithkit.Watchdog.Daemon.{add_created, Surroundings, with_task, request_time}
use kithkit.Agents.Job.{JobStatus}
use kithkit.Idle.Sweeps.{sweep_zombie, sweep_orphan}
use kithkit.Watchdog.Stamped.{Stamped, any_step-Stamped}
use kithkit.Watchdog.Unbound.{IsPassed, IsUnbound}
use kithkit.TaskQueue.Created.{created_reads_back}
use kithkit.Tasks.Status.{pending}
use kithkit.Watchdog.Passed.{is_after, AllKeyed}

Stamped-after :
    (l now : ℕ) (t u : Task) → l < now → Stamped now t u → is_after l t ≡ true → is_after l u ≡ true
Stamped-after l now t u h (inl e) k = subst (λ w. is_after l w ≡ true) (sym e) k
Stamped-after l now t u h (inr e) k = ground (arith, h, e.0)

Stamped-keyed : (now : ℕ) (t u : Task) → Stamped now t u → has_id t ≡ true → has_id u ≡ true
Stamped-keyed now t u (inl e) k = subst (λ w. has_id w ≡ true) (sym e) k
Stamped-keyed now t u (inr e) k = ground (arith, k, e.1)

with_task-All {κ} :
    (P : Task → Type κ) (change : Task → Task) (n : ℕ) (ts : List Task)
    → ((t : Task) → P t → P (change t))
    → All P ts
    → All P (with_task change n ts)
with_task-All P change n [] f h = tt
with_task-All P change zero (t ∷ ts) f h = (f t h.0, h.1)
with_task-All P change (suc n) (t ∷ ts) f h = (h.0, with_task-All P change n ts f h.1)

pub asks-IsPassed :
    (e : Surroundings) (r : AnyRequest) (n : ℕ) (last : Option ℕ) (ts : List Task)
    → IsPassed last (request_time r) ts
    → IsPassed last (request_time r) (with_task (λ t. any_step e.newer_env e.older_env t r) n ts)
asks-IsPassed e r n none ts h = tt
asks-IsPassed e r n (some l) ts h = (
  h.0,
  with_task-All (λ t. is_after l t ≡ true) (λ t. any_step e.newer_env e.older_env t r) n ts
      (λ t k.
        Stamped-after l (request_time r) t (any_step e.newer_env e.older_env t r) h.0
          (any_step-Stamped e.newer_env e.older_env t r) k)
      h.1,
)

pub asks-AllKeyed :
    (e : Surroundings) (r : AnyRequest) (n : ℕ) (ts : List Task)
    → AllKeyed ts
    → AllKeyed (with_task (λ t. any_step e.newer_env e.older_env t r) n ts)
asks-AllKeyed e r n ts h =
    with_task-All (λ t. has_id t ≡ true) (λ t. any_step e.newer_env e.older_env t r) n ts
      (λ t.
        Stamped-keyed (request_time r) t (any_step e.newer_env e.older_env t r)
          (any_step-Stamped e.newer_env e.older_env t r))
      h

pub create-pending :
    (e : Surroundings) (id : String) (b : CreateBody) (ts : ℕ) (row : Task)
    → create e.clean e.safe id b ts ≡ ok row
    → (row.external_id ≡ some id) × (row.status ≡ pending)
unfolding task_to_orchestrator_response
create-pending e id b ts row h =
    let back = created_reads_back e.clean e.safe id b ts row h in (back.0, back.1.1.0)

pub add_created-All {κ} :
    (P : Task → Type κ) (c : Checked Task) (ts : List Task)
    → ((row : Task) → c ≡ ok row → P row)
    → All P ts
    → All P (add_created c ts)
add_created-All P (ok row) ts f h = (f row refl, h)
add_created-All P (fail code) ts f h = h

pub creates-IsPassed :
    (e : Surroundings) (id : String) (b : CreateBody) (at : ℕ) (last : Option ℕ) (ts : List Task)
    → IsPassed last at ts
    → IsPassed last at (add_created (create e.clean e.safe id b at) ts)
creates-IsPassed e id b at none ts h = tt
creates-IsPassed e id b at (some l) ts h = (
  h.0,
  add_created-All (λ t. is_after l t ≡ true) (create e.clean e.safe id b at) ts
      (λ row k. ground (arith, (create-pending e id b at row k).1)) h.1,
)

-- A change of each task that stamps what it changes.
changes-IsPassed :
    (change : Task → Task) (now : ℕ) (last : Option ℕ) (ts : List Task)
    → ((t : Task) → Stamped now t (change t))
    → IsPassed last now ts
    → IsPassed last now (map change ts)
changes-IsPassed change now none ts f h = tt
changes-IsPassed change now (some l) [] f h = h
changes-IsPassed change now (some l) (t ∷ ts) f h =
    let rest = changes-IsPassed change now (some l) ts f (h.0, h.1.1) in
    (h.0, (Stamped-after l now t (change t) h.0 (f t) h.1.0, rest.1))

changes-AllKeyed :
    (change : Task → Task) (now : ℕ) (ts : List Task)
    → ((t : Task) → Stamped now t (change t))
    → AllKeyed ts
    → AllKeyed (map change ts)
changes-AllKeyed change now [] f h = tt
changes-AllKeyed change now (t ∷ ts) f h =
    (Stamped-keyed now t (change t) (f t) h.0, changes-AllKeyed change now ts f h.1)

pub zombie-Stamped :
    (workers : Option String → Option (List JobStatus)) (now : ℕ) (t : Task)
    → Stamped now t (sweep_zombie workers now t)
zombie-Stamped workers now t = ground arith

pub orphan-Stamped :
    (workers : Option String → Option (List JobStatus)) (started now : ℕ) (t : Task)
    → Stamped now t (sweep_orphan workers started now t)
orphan-Stamped workers started now t = ground arith

pub changed-IsUnbound :
    (change : Task → Task) (now : ℕ) (s : State)
    → ((t : Task) → Stamped now t (change t))
    → IsUnbound now s
    → IsUnbound now (record s { tasks = map change s.tasks })
changed-IsUnbound change now s f h = record {
  few = h.few;
  passed = changes-IsPassed change now s.last_wedge_ip_max_updated_at s.tasks f h.passed;
  keyed = changes-AllKeyed change now s.tasks f h.keyed;
}
