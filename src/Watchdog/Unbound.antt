-- ===== src/Watchdog/Unbound.antt =====
-- The bound on the restarts of daemon/src/automation/tasks/context-watchdog.ts (GATE 3), beside the
-- task routes.
use kithkit.Base.{
  ℕ, ◌+◌, ◌≤◌, ◌<◌, String, Bool, true, false, List, Option, none, some, ltb, leb, ◌==◌,
  if◌then◌else◌, ◌≡◌, ◌≢◌, refl, arith, Bool-cases, Option-cases, inl, inr, sym, subst,
}
use kithkit.Tasks.Row.{Task}
use kithkit.Watchdog.{
  State, Outcome, deferred, capped, restarted, restart_wedged_orchestrator, count_restart, bound,
  act, signalled, decide, monitor_orchestrator_wedge,
}
use kithkit.Watchdog.Frozen.{update_in, frozen_ids, reset}
use kithkit.Watchdog.Signals.{
  Sight, reset_tasks, cutoff, frozen_since, signal_i, signal_ii, signal_iii,
}
use kithkit.Watchdog.Passed.{
  AllAfter, AllKeyed, frozen_since-after, frozen_since-lt, reset-after, reset-keeps-after,
  reset-AllKeyed,
}

-- Every live task was updated after the stamp of the latest counted restart.
abbrev pub IsPassed : Option ℕ → ℕ → List Task → Type 0
IsPassed none clock ts = Unit
IsPassed (some l) clock ts = (l < clock) × AllAfter l ts

pub record IsUnbound (clock : ℕ) (s : State) : Type 0 where
  pub few : s.wedge_restart_count ≤ 1
  pub passed : IsPassed s.last_wedge_ip_max_updated_at clock s.tasks
  pub keyed : AllKeyed s.tasks

-- What a tick gives, and that it does not reach the cap.
abbrev pub IsFree : ℕ → State × Outcome → Type 0
IsFree now p = IsUnbound now p.0 × (p.1 ≢ capped)

IsPassed-later :
    (last : Option ℕ) (clock now : ℕ) (ts : List Task)
    → clock ≤ now
    → IsPassed last clock ts
    → IsPassed last now ts
IsPassed-later none clock now ts h k = tt
IsPassed-later (some l) clock now ts h k = (omega (arith, h, k.0), k.1)

pub IsUnbound-later :
    (clock now : ℕ) (s : State) → clock ≤ now → IsUnbound clock s → IsUnbound now s
IsUnbound-later clock now s h k = record {
  few = k.few;
  passed = IsPassed-later s.last_wedge_ip_max_updated_at clock now s.tasks h k.passed;
  keyed = k.keyed;
}

IsPassed-reset :
    (last : Option ℕ) (now : ℕ) (ids : List (Option String)) (ts : List Task)
    → IsPassed last now ts
    → IsPassed last now (update_in ids (reset now) ts)
IsPassed-reset none now ids ts h = tt
IsPassed-reset (some l) now ids ts h = (h.0, reset-keeps-after l now ids ts h.1)

restart-IsUnbound :
    (v : Sight) (s : State)
    → v.fails reset_tasks ≡ false
    → IsUnbound v.now s
    → IsUnbound v.now (restart_wedged_orchestrator v s)
unfolding restart_wedged_orchestrator
restart-IsUnbound v s r h = rw (r) (record {
  few = h.few;
  passed =
      IsPassed-reset s.last_wedge_ip_max_updated_at v.now (frozen_ids (cutoff v) s.tasks) s.tasks
        h.passed;
  keyed = reset-AllKeyed v.now (frozen_ids (cutoff v) s.tasks) s.tasks h.keyed;
})

-- The stamp of a tick is a new one, so its restart counts as the first.
count_restart-first :
    (m : ℕ) (v : Sight) (s : State)
    → frozen_since v s.tasks ≡ some m
    → IsPassed s.last_wedge_ip_max_updated_at v.now s.tasks
    → ((count_restart (some m) s).wedge_restart_count ≡ 1)
      × ((count_restart (some m) s).last_wedge_ip_max_updated_at ≡ some m)
unfolding count_restart
count_restart-first m v s e h = elim (Option-cases s.last_wedge_ip_max_updated_at) [
  | inl z ↦ rw (z) (refl, refl)
  | inr (l, z) ↦
      let k = subst (λ o. IsPassed o v.now s.tasks) z h in
      rw (z, newer_stamp m l (frozen_since-after v l m s.tasks k.1 e)) (refl, refl)
]
  where
    newer_stamp : (a b : ℕ) → b < a → (a == b) ≡ false
    newer_stamp a b h = ground (arith, h)

cutoff-le : (v : Sight) → cutoff v ≤ v.now
unfolding cutoff
cutoff-le v = omega arith

restarted-IsUnbound :
    (v : Sight) (u : State) (m : ℕ)
    → v.fails reset_tasks ≡ false
    → u.wedge_restart_count ≤ 1
    → u.last_wedge_ip_max_updated_at ≡ some m
    → m < cutoff v
    → AllKeyed u.tasks
    → IsUnbound v.now (restart_wedged_orchestrator v u)
unfolding restart_wedged_orchestrator
restarted-IsUnbound v u m r few last old keyed =
    let ids = frozen_ids (cutoff v) u.tasks in
    rw (r) (record {
      few = few;
      passed =
          subst (λ o. IsPassed o v.now (update_in ids (reset v.now) u.tasks)) (sym last)
            (omega (arith, old, cutoff-le v), reset-after (cutoff v) m v.now u.tasks old keyed);
      keyed = reset-AllKeyed v.now ids u.tasks keyed;
    })

count_restart-tasks : (m : Option ℕ) (s : State) → (count_restart m s).tasks ≡ s.tasks
unfolding count_restart
count_restart-tasks m s = ground arith

-- A state whose count is below the cap.
bound-restarts :
    (v : Sight) (u : State)
    → u.wedge_restart_count ≤ 1
    → bound v u ≡ (restart_wedged_orchestrator v u, restarted)
unfolding bound
bound-restarts v u h = rw (below u.wedge_restart_count h)
  where
    below : (n : ℕ) → n ≤ 1 → leb 3 n ≡ false
    below n h = ground (arith, h)

counted-IsFree :
    (v : Sight) (s : State) (m : ℕ)
    → v.fails reset_tasks ≡ false
    → frozen_since v s.tasks ≡ some m
    → IsUnbound v.now s
    → IsFree v.now (bound v (count_restart (some m) s))
counted-IsFree v s m r e h =
    let u = count_restart (some m) s in
    let (count, last) = count_restart-first m v s e h.passed in
    let few : u.wedge_restart_count ≤ 1 = omega (arith, count) in
    let free =
      restarted-IsUnbound v u m r few last (frozen_since-lt v m s.tasks e)
        (subst AllKeyed (sym (count_restart-tasks (some m) s)) h.keyed) in
    subst (IsFree v.now) (sym (bound-restarts v u few)) (free, λ z. ground (arith, z))

act-IsFree :
    (v : Sight) (i : Bool) (s : State)
    → v.fails reset_tasks ≡ false
    → (i ≡ true → (m : ℕ) × (frozen_since v s.tasks ≡ some m))
    → IsUnbound v.now s
    → IsFree v.now (act v i s)
unfolding act
act-IsFree v false s r f h = (restart-IsUnbound v s r h, λ e. ground (arith, e))
act-IsFree v true s r f h =
    let (m, e) = f refl in
    subst (λ o. IsFree v.now (bound v (count_restart o s))) (sym e) (counted-IsFree v s m r e h)

signalled-IsUnbound : (now : ℕ) (s : State) → IsUnbound now s → IsUnbound now (signalled s)
signalled-IsUnbound now s h = record { few = h.few; passed = h.passed; keyed = h.keyed }

debounced :
    (v : Sight) (i : Bool) (s : State)
    → IsUnbound v.now s
    → IsFree v.now (act v i (signalled s))
    → IsFree v.now (
        if ltb (s.consecutive_wedge_signals + 1) 2
        then (signalled s, deferred)
        else act v i (signalled s))
debounced v i s h k = elim (Bool-cases (ltb (s.consecutive_wedge_signals + 1) 2)) [
  | inl e ↦ rw (e) (signalled-IsUnbound v.now s h, λ z. ground (arith, z))
  | inr e ↦ rw (e) k
]

decide-IsFree :
    (v : Sight) (i ii iii : Bool) (s : State)
    → v.fails reset_tasks ≡ false
    → (i ≡ true → (m : ℕ) × (frozen_since v s.tasks ≡ some m))
    → IsUnbound v.now s
    → IsFree v.now (decide v i ii iii s)
unfolding decide
decide-IsFree v i ii true s r f h = act-IsFree v i s r f h
decide-IsFree v false false false s r f h =
    (record { few = h.few; passed = h.passed; keyed = h.keyed }, λ z. ground (arith, z))
decide-IsFree v true ii false s r f h =
    debounced v true s h (act-IsFree v true (signalled s) r f (signalled-IsUnbound v.now s h))
decide-IsFree v false true false s r f h =
    debounced v false s h (act-IsFree v false (signalled s) r f (signalled-IsUnbound v.now s h))

signal_i-frozen :
    (v : Sight) (s : State)
    → signal_i v s.tasks s.jobs ≡ true
    → (m : ℕ) × (frozen_since v s.tasks ≡ some m)
unfolding signal_i
signal_i-frozen v s h = elim (Option-cases (frozen_since v s.tasks)) [
  | inl z ↦ ground (arith, h, z)
  | inr k ↦ k
]

pub tick-IsFree :
    (v : Sight) (s : State)
    → v.fails reset_tasks ≡ false
    → IsUnbound v.now s
    → IsFree v.now (monitor_orchestrator_wedge v s)
unfolding monitor_orchestrator_wedge
tick-IsFree v s r h = elim (Bool-cases v.alive) [
  | inl e ↦ rw (e) (
      decide-IsFree v (signal_i v s.tasks s.jobs) (signal_ii v s.agent s.tasks s.jobs)
        (signal_iii v) s r (signal_i-frozen v s) h)
  | inr e ↦ rw (e) (h, λ z. ground (arith, z))
]
