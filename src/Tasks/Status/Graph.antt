-- ===== src/Tasks/Status/Graph.antt =====
-- The transition table as a graph.
use mathlib.Core.Bool.{false≢true}
use kithkit.Base.{
  String, true, List, [], ◌∷◌, some, ◌≡◌, ◌≢◌, ◌↔◌, inl, inr, refl, arith, str_eq, eq_iff, eq_refl,
  Bool-cases, Option-cases, sym, ap, ◌∙◌,
}
use kithkit.Base.Js.{JsValue, text}
use kithkit.Tasks.Status.{
  TaskStatus, proposed, pending, assigned, planning, awaiting_approval, in_progress, blocked,
  completed, failed, abandoned, cancelled, status_text, same, includes, find_status, parse_status,
  allowed_transitions, validate_transition, validate_raw_transition,
}

pub data Leads (s : TaskStatus) : TaskStatus → Type 0 where
  here : Leads s s
  onward : {t u : TaskStatus} → Leads s t → validate_transition t u ≡ true → Leads s u

step_into : {s t u : TaskStatus} → validate_transition s t ≡ true → Leads t u → Leads s u
step_into e here = onward here e
step_into e (onward l f) = onward (step_into e l) f

Leads-completed : (s : TaskStatus) → allowed_transitions s ≢ [] → Leads s completed
unfolding validate_transition
Leads-completed in_progress h = step_into refl here
Leads-completed blocked h = step_into {t = in_progress} refl (step_into refl here)
Leads-completed failed h = step_into refl here
Leads-completed assigned h = step_into {t = in_progress} refl (step_into refl here)
Leads-completed planning h = step_into {t = in_progress} refl (step_into refl here)
Leads-completed awaiting_approval h = step_into {t = in_progress} refl (step_into refl here)
Leads-completed pending h =
    step_into {t = assigned} refl (step_into {t = in_progress} refl (step_into refl here))
Leads-completed proposed h =
    step_into {t = pending} refl
      (step_into {t = assigned} refl (step_into {t = in_progress} refl (step_into refl here)))
Leads-completed completed h = here
Leads-completed abandoned h = absurd (h refl)
Leads-completed cancelled h = absurd (h refl)

stuck : {s u : TaskStatus} → allowed_transitions s ≡ [] → Leads s u → u ≡ s
unfolding validate_transition
stuck e here = refl
stuck e (onward l f) = let same_start = stuck e l in absurd (false≢true (rw (same_start, e) at f))

-- The statuses from which a task can still be completed are all but `abandoned` and `cancelled`;
-- from a status with no way out nothing else is reached.
pub Leads-completed_iff : (s : TaskStatus) → Leads s completed ↔ ((s ≢ abandoned) × (s ≢ cancelled))
unfolding allowed_transitions
Leads-completed_iff abandoned = (λ l. absurd (cc (stuck refl l)), λ h. absurd (h.0 refl))
Leads-completed_iff cancelled = (λ l. absurd (cc (stuck refl l)), λ h. absurd (h.1 refl))
Leads-completed_iff completed = (λ l. ground arith, λ h. here)
Leads-completed_iff s = (λ l. ground arith, λ h. Leads-completed s (λ e. cc))

find_status_sound :
    (s : String) (xs : List TaskStatus) {t : TaskStatus}
    → find_status s xs ≡ some t
    → (s ≡ status_text t) × (includes xs t ≡ true)
find_status_sound s [] e = cc
find_status_sound s (x ∷ xs) {t} e = elim (Bool-cases (str_eq (status_text x) s)) [
  | inl hit ↦
      let same_status : x ≡ t = ground arith in
      (sym ((eq_iff (status_text x) s).0 hit) ∙ ap status_text same_status, ground arith)
  | inr miss ↦ let (named, listed) = find_status_sound s xs (rw miss at e) in (named, ground arith)
]

place_inj : (s t : TaskStatus) → same s t ≡ true → s ≡ t
place_inj s t h = ground arith

find_status_complete :
    (to : TaskStatus) (xs : List TaskStatus)
    → includes xs to ≡ true
    → (t : TaskStatus) × (find_status (status_text to) xs ≡ some t)
find_status_complete to [] e = cc
find_status_complete to (x ∷ xs) e = elim (Bool-cases (str_eq (status_text x) (status_text to))) [
  | inl hit ↦ (x, rw hit)
  | inr miss ↦ elim (Bool-cases (same x to)) [
    | inl same_status ↦ absurd (
        false≢true (rw (place_inj x to same_status, eq_refl (status_text to)) at (sym miss ∙ refl)))
    | inr other ↦ let (t, found) = find_status_complete to xs (rw other at e) in (t, rw miss found)
  ]
]

-- The test on a value that has not been checked holds of the texts of the permitted statuses, and
-- of nothing else.
pub validate_raw_iff :
    (from : TaskStatus) (v : JsValue)
    → (validate_raw_transition from v ≡ true)
      ↔ ((to : TaskStatus) × (v ≡ text (status_text to)) × (validate_transition from to ≡ true))
unfolding validate_raw_transition parse_status validate_transition
validate_raw_iff from (text s) = (
  λ h. elim (Option-cases (find_status s (allowed_transitions from))) [
    | inl e ↦ absurd (false≢true (rw (e, validate_raw_transition) at h))
    | inr (t, e) ↦
        let (named, listed) = find_status_sound s (allowed_transitions from) e in
        (t, ap text named, listed)
  ],
  λ (to, named, listed).
      let (t, found) = find_status_complete to (allowed_transitions from) listed in
      rw named (rw (found, validate_raw_transition) refl),
)
validate_raw_iff from _ = (λ h. cc, λ h. cc (h.1))
