-- ===== src/TaskQueue/Cases.antt =====
-- PUT /api/orchestrator/tasks/:id taken apart: it refuses, or what it checks holds and the row is
-- `put_row`.
use kithkit.Base.{ℕ, String, Bool, false, not, ◌&&◌, Option, ◌≡◌, refl, subst}
use kithkit.Base.Js.{given}
use kithkit.Tasks.Checked.{Checked, ok, fail, deny_if-eq-ok, >>=-eq-ok, ok_injective}
use kithkit.Tasks.Status.{TaskStatus}
use kithkit.Tasks.Row.{Task, is_submitted, written}
use kithkit.Tasks.Update.{valid_outcomes, valid_comms_outcomes, null_or_one_of}
use kithkit.TaskQueue.Status.{is_drift}
use kithkit.TaskQueue.Update.{
  Body, guards, target, or_status, target_assignee, valid_complexity, put_row, checks, answer,
  update,
}

-- What the handler has checked of a body with a new status.
pub record IsChecked (t : Task) (b : Body) (new : Option TaskStatus) : Type 0 where
  pub guarded : guards t b ≡ ok tt
  pub aimed : target t b.status ≡ ok new
  pub unplanned : (given b.plan && is_submitted t.plan_status) ≡ false
  pub fits : is_drift (or_status new t.status) (target_assignee t new b.assignee) ≡ false

module _ (safe : Task → Body → Bool) (retro : Bool) (note_time : String) where
  checks-IsChecked :
      (t : Task) (b : Body) (new : Option TaskStatus)
      → checks safe retro note_time t b ≡ ok new
      → IsChecked t b new
  unfolding checks
  checks-IsChecked t b new h =
      let (_, (guarded, h1)) = >>=-eq-ok (guards t b) _ h in
      let (new1, (aimed, h2)) = >>=-eq-ok (target t b.status) _ h1 in
      let (_, (_, h3)) = >>=-eq-ok (null_or_one_of valid_outcomes b.outcome) _ h2 in
      let (_, (_, h4)) = >>=-eq-ok (null_or_one_of valid_complexity b.complexity) _ h3 in
      let (_, (_, h5)) = >>=-eq-ok (null_or_one_of valid_comms_outcomes b.comms_outcome) _ h4 in
      let (unplanned, h6) = deny_if-eq-ok (given b.plan && is_submitted t.plan_status) 409 _ h5 in
      let (fits, h7) =
        deny_if-eq-ok (is_drift (or_status new1 t.status) (target_assignee t new1 b.assignee)) 400 _
          h6 in
      let (_, h8) = deny_if-eq-ok (not (safe t b)) 400 _ h7 in
      subst (IsChecked t b) (ok_injective h8)
        (record { guarded = guarded; aimed = aimed; unplanned = unplanned; fits = fits })

  pub update_cases {ℓ} :
      (P : Task → Type ℓ) (t : Task) (b : Body) (ts : ℕ)
      → P t
      → ((new : Option TaskStatus) → IsChecked t b new → P (put_row note_time t b ts new t))
      → P (written (update safe retro note_time t b ts) t)
  unfolding update
  update_cases P t b ts refusal acceptance =
      by_checks (checks safe retro note_time t b) (checks-IsChecked t b)
    where
      by_checks :
          (c : Checked (Option TaskStatus))
          → ((new : Option TaskStatus) → c ≡ ok new → IsChecked t b new)
          → P (written (answer safe retro note_time t b ts c) t)
      by_checks (fail code) h = refusal
      by_checks (ok new) h = acceptance new (h new refl)
