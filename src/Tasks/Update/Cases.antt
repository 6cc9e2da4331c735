-- ===== src/Tasks/Update/Cases.antt =====
-- PUT /api/tasks/:id taken apart: it refuses, or its guards held and the row is `put_row`.
use kithkit.Base.{
  ℕ, String, Bool, true, false, ◌&&◌, not, Option, none, some, refl, if◌then◌else◌, ◌≡◌,
}
use kithkit.Base.Js.{JsValue, given}
use kithkit.Tasks.Checked.{Checked, ok, fail, ◌>>=◌, deny_if, bind_cases}
use kithkit.Tasks.Status.{TaskStatus}
use kithkit.Tasks.Row.{Task, is_submitted, Answer, refused, written}
use kithkit.Tasks.Update.{
  guards, target, null_or_1_to_5, new_title, one_of, null_or_one_of, valid_priorities,
  valid_outcomes, valid_comms_outcomes, put, answer, update,
}
use kithkit.Tasks.Writes.{
  Body, write_status, write_assignee, write_texts, write_extras, clears_assignee,
}

-- The row that an accepted PUT leaves.
abbrev pub put_row : Task → Body → ℕ → Option TaskStatus → Option String → Task → Task
put_row t b ts new title row = write_extras t b (
    write_texts b title ts (
      write_assignee t (if clears_assignee new then none else b.assigned_to) ts
        (write_status t new ts row)))

-- A PUT is refused, or its guards held and the row is `put_row`.
module _ {ℓ} (P : Task → Type ℓ) (trim : String → String) (safe : Task → Body → Bool)
    (retro : Bool) where
  abbrev Holds : Task → Checked Answer → Type ℓ
  Holds t c = P (written (answer trim safe retro c) t)

  pub update_cases :
      (t : Task) (b : Body) (ts : ℕ)
      → P t
      → ((new : Option TaskStatus) (title : Option String)
          → guards t b ≡ ok tt
          → target t b.status ≡ ok new
          → new_title trim b.title ≡ ok title
          → deny_if (given b.plan && is_submitted t.plan_status) 409 ≡ ok tt
          → P (put_row t b ts new title t))
      → P (written (update trim safe retro t b ts) t)
  unfolding update put
  update_cases t b ts refusal acceptance =
      bind_cases (Holds t) (guards t b) _ (λ _. refusal)
        λ _ guarded.
          bind_cases (Holds t) (target t b.status) _ (λ _. refusal)
            λ new aimed.
              bind_cases (Holds t) (new_title trim b.title) _ (λ _. refusal)
                λ title titled.
                  bind_cases (Holds t) (one_of valid_priorities b.priority) _ (λ _. refusal)
                    λ _ _.
                      bind_cases (Holds t) (null_or_one_of valid_outcomes b.outcome) _
                        (λ _. refusal)
                        λ _ _.
                          bind_cases (Holds t)
                            (deny_if (given b.plan && is_submitted t.plan_status) 409) _
                            (λ _. refusal)
                            λ _ unplanned.
                              bind_cases (Holds t) (null_or_1_to_5 b.complexity) _ (λ _. refusal)
                                λ _ _.
                                  bind_cases (Holds t) (null_or_1_to_5 b.risk) _ (λ _. refusal)
                                    λ _ _.
                                      bind_cases (Holds t)
                                        (null_or_one_of valid_comms_outcomes b.comms_outcome) _
                                        (λ _. refusal)
                                        λ _ _.
                                          bind_cases (Holds t) (deny_if (not (safe t b)) 400) _
                                            (λ _. refusal)
                                            λ _ _.
                                              acceptance new title guarded aimed titled unplanned

-- A PUT that carries a status and nothing else.
abbrev pub status_body : JsValue → Body
status_body v = record {
  caller = none;
  status = some v;
  assigned_to = none;
  result = none;
  error = none;
  outcome = none;
  outcome_reason = none;
  plan = none;
  title = none;
  description = none;
  priority = none;
  due_date = none;
  snooze_until = none;
  category = none;
  comms_outcome = none;
  comms_corrections = none;
  acknowledged_at = none;
  work_notes = none;
  append_work_notes = false;
  note = "";
  tags = none;
  complexity = none;
  risk = none;
  estimated_minutes = none;
  actual_minutes = none;
  task_type = none;
  completion_status = none;
  estimation_method = none;
  workers_used = none;
  generate_retro = none;
  canonical_task_external_id = none;
}

module _ (trim : String → String) (safe : Task → Body → Bool) (retro : Bool) where
  pub guards_refuse :
      (t : Task) (b : Body) (ts : ℕ) {code : ℕ}
      → guards t b ≡ fail code
      → update trim safe retro t b ts ≡ refused code
  unfolding update put
  guards_refuse t b ts e = rw (e, ◌>>=◌) refl

  pub status_accepted :
      (t : Task) (v : JsValue) (ts : ℕ) {new : Option TaskStatus}
      → guards t (status_body v) ≡ ok tt
      → target t (some v) ≡ ok new
      → safe t (status_body v) ≡ true
      → written (update trim safe retro t (status_body v) ts) t
        ≡ put_row t (status_body v) ts new none t
  unfolding update put new_title one_of null_or_one_of null_or_1_to_5
  status_accepted t v ts e f s = rw (e, ◌>>=◌) (rw (f, ◌>>=◌) (rw s refl))
