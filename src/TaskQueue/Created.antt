-- ===== src/TaskQueue/Created.antt =====
-- What daemon/src/api/task-queue.ts creates, as it is read back in the older shape.
use kithkit.Base.{
  subst, ℕ, Bool-cases, eq_iff, inl, inr, String, Bool, true, false, not, ◌||◌, Option, none, some,
  any, str_eq, ◌≡◌, refl, arith, if◌then◌else◌,
}
use kithkit.Base.Js.{Number, is_whole, above}
use kithkit.Tasks.Checked.{ok, ok_injective, deny_if-eq-ok}
use kithkit.Tasks.Status.{pending}
use kithkit.Tasks.Row.{Task}
use kithkit.Tasks.Plan.{plan_text}
use kithkit.TaskQueue.Update.{valid_complexity, complexity_to_int}
use kithkit.TaskQueue.Rows.{
  legacy_int_to_priority_text, priority_text_to_legacy_int, int_to_complexity, CreateBody, or_zero,
  number_of, is_below_zero, new_task, text_of, create, create_titled, task_to_orchestrator_response,
  OrchestratorTask,
}

-- A complexity that the routes know, else null.
abbrev pub known_complexity : Option String → Option String
known_complexity none = none
known_complexity (some s) = if any (λ w. str_eq s w) valid_complexity then some s else none

complexity_back : (c : Option String) → int_to_complexity (complexity_to_int c) ≡ known_complexity c
unfolding int_to_complexity complexity_to_int
complexity_back none = refl
complexity_back (some s) = elim (Bool-cases (str_eq s "S")) [
  | inl e ↦ rw ((eq_iff s "S").0 e)
  | inr e ↦ elim (Bool-cases (str_eq s "M")) [
    | inl f ↦ rw ((eq_iff s "M").0 f)
    | inr f ↦ elim (Bool-cases (str_eq s "L")) [
      | inl g ↦ rw ((eq_iff s "L").0 g)
      | inr g ↦ elim (Bool-cases (str_eq s "XL")) [
        | inl h ↦ rw ((eq_iff s "XL").0 h)
        | inr h ↦ rw (e, f, g, h)
      ]
    ]
  ]
]

-- The priority that the answer has: what the body has if that is 0 or 1, 2 for any other number that
-- is accepted, and 0 where the body has no number.
abbrev pub known_priority : Number → ℕ
known_priority n = if is_whole 0 n then 0 else if is_whole 1 n then 1 else 2

priority_back :
    (n : Number)
    → is_below_zero n ≡ false
    → priority_text_to_legacy_int (legacy_int_to_priority_text n) ≡ known_priority n
unfolding priority_text_to_legacy_int legacy_int_to_priority_text
priority_back n h = elim (Bool-cases (above 0 n)) [
  | inl a ↦
      let nonzero : is_whole 0 n ≡ false = ground (arith, a) in
      rw (a, nonzero) (elim (Bool-cases (is_whole 1 n)) [ inl o ↦ rw o refl | inr o ↦ rw o refl ])
  | inr a ↦ let none_above : is_whole 0 n ≡ true = ground (arith, a, h) in rw (a, none_above) refl
]

-- What the body says of a task is what the answer says of it.
abbrev pub Echoes : String → CreateBody → ℕ → OrchestratorTask → Type 0
Echoes external_id b ts r =
    (r.id ≡ some external_id)
    × ((plan_text b.title ≡ some r.title)
        × ((r.status ≡ pending)
            × ((r.assignee ≡ none)
                × ((r.priority ≡ known_priority (or_zero (number_of b.priority)))
                    × (r.complexity ≡ known_complexity (text_of b.complexity))))))

new_task-Echoes :
    (clean : String → String) (external_id : String) (b : CreateBody) (ts : ℕ) (title : String)
    → plan_text b.title ≡ some title
    → is_below_zero (or_zero (number_of b.priority)) ≡ false
    → Echoes external_id b ts
        (task_to_orchestrator_response (new_task clean external_id b title ts))
unfolding task_to_orchestrator_response
new_task-Echoes clean external_id b ts title p h = (
  refl,
  (
    p,
    (
      refl,
      (
        refl,
        (priority_back (or_zero (number_of b.priority)) h, complexity_back (text_of b.complexity)),
      ),
    ),
  ),
)

created_titled-Echoes :
    (clean : String → String) (safe : CreateBody → Bool) (external_id : String) (b : CreateBody)
    (ts : ℕ) (title : Option String) (row : Task)
    → plan_text b.title ≡ title
    → create_titled clean safe external_id b ts title ≡ ok row
    → Echoes external_id b ts (task_to_orchestrator_response row)
created_titled-Echoes clean safe external_id b ts none row p h = cc
created_titled-Echoes clean safe external_id b ts (some title) row p h =
    let (few, rest) =
      deny_if-eq-ok
        (is_below_zero (or_zero (number_of b.priority)) || above 2 (or_zero (number_of b.priority)))
        400 _ h in
    let (_, made) = deny_if-eq-ok (not (safe b)) 400 _ rest in
    subst (λ r. Echoes external_id b ts (task_to_orchestrator_response r)) (ok_injective made)
      (new_task-Echoes clean external_id b ts title p (ground (arith, few)))

-- A task that the older route has created is answered with its new id, with the title of the body, as
-- pending and without an assignee; with priority 0 if that of the body is 0 or no number, 1 if it is 1
-- and 2 if it is any other number that the route accepts, fractions included; and with the complexity
-- of the body if that is one of S, M, L and XL, else without one.
pub created_reads_back :
    (clean : String → String) (safe : CreateBody → Bool) (external_id : String) (b : CreateBody)
    (ts : ℕ) (row : Task)
    → create clean safe external_id b ts ≡ ok row
    → Echoes external_id b ts (task_to_orchestrator_response row)
unfolding create
created_reads_back clean safe external_id b ts row h =
    created_titled-Echoes clean safe external_id b ts (plan_text b.title) row refl h
