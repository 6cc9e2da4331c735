-- ===== src/Approval/Gate/Denial.antt =====
-- Decisions are final, a promise is settled with true by a human alone, and the sweep closes all.
use kithkit.Base.{
  ℕ, String, Bool, true, false, ◌&&◌, List, [], ◌∷◌, ◌++◌, Option, none, some, str_eq, eq_iff,
  eq_refl, if◌then◌else◌, ◌≡◌, ◌⊎◌, inl, inr, refl, arith, any, length, ◌≤◌,
}
use kithkit.Base.Dict
use kithkit.Base.Dict.{Dict, get-set, get-delete}
use kithkit.Approval.Gate.{
  State, GateContext, Env, DecisionRow, timeout, decide, close_row, issue_card, approval_gate,
  give_up, resolve_gate, ok, already_resolved, verdict, undecided, sweep_rows,
  sweep_stale_approvals, restart, record_successful_send, Event, sends, gives_up, resolves, records,
  sweeps, restarts, step, run, init,
}
use kithkit.Approval.Gate.Fits.{outcomes, outcomes-append, get-decide, IsConsistent}

-- Once a decision has been taken, in a state where registry, table and promises fit together, a
-- second one is answered with a conflict, and neither it nor the gate's timer nor a failed delivery
-- changes anything.
pub first_decision_wins :
    (s : State) (id : String) (approve again : Bool) (who who' : String) (now later : ℕ)
    → IsConsistent s
    → (resolve_gate s id approve who now).1 ≡ ok
    → let decided = (resolve_gate s id approve who now).0 in
      (resolve_gate decided id again who' later ≡ (decided, already_resolved))
      × (give_up decided id later ≡ decided)
unfolding resolve_gate give_up
first_decision_wins s id approve again who who' now later v e =
    let d = get-decide id id (verdict approve) who now s.rows in
    let g = get-delete id id s.pending_gates in
    (ground (arith, v id, eq_refl id, d, g), ground (arith, v id, eq_refl id, d, g))

-- A promise waiting for the id was settled with true.
abbrev pub is_granted : String → State → Bool
is_granted id s = any (λ b. b) (outcomes id s.settled)

-- A human approved the id.
unfoldable pub is_approved_in : String → List Event → Bool
is_approved_in id [] = false
is_approved_in id (resolves j approve who now ∷ es) =
    let rest = is_approved_in id es in if approve && str_eq j id then true else rest
is_approved_in id (e ∷ es) = is_approved_in id es

any-append {ℓ} :
    {A : Type ℓ} (p : A → Bool) (l r : List A)
    → any p (l ++ r) ≡ (if any p l then true else any p r)
any-append p [] r = refl
any-append p (x ∷ l) r = ground (arith, any-append p l r)

granted_after :
    (id j : String) (b : Bool) (s : State)
    → any (λ b. b) (outcomes id (s.settled ++ (j, b) ∷ [])) ≡ true
    → (is_granted id s ≡ true) ⊎ ((b ≡ true) × (str_eq j id ≡ true))
granted_after id j b s e = ground (
  arith,
  e,
  outcomes-append id j b s.settled,
  any-append (λ b. b) (outcomes id s.settled) (if str_eq j id then b ∷ [] else []),
)

module _ (env : Env) where
  approval_gate-settled :
      (s : State) (ctx : GateContext) (id : String) (now : ℕ)
      → (approval_gate env s ctx id now).0.settled ≡ s.settled
  unfolding approval_gate issue_card
  approval_gate-settled s ctx id now = ground arith

  step-granted :
      (id : String) (s : State) (e : Event)
      → is_granted id (step env s e) ≡ true
      → (is_granted id s ≡ true) ⊎ (is_approved_in id (e ∷ []) ≡ true)
  unfolding step is_approved_in give_up resolve_gate sweep_stale_approvals record_successful_send
      restart
  step-granted id s (sends ctx j now) e = ground (arith, e, approval_gate-settled s ctx j now)
  step-granted id s (gives_up j now) e = ground (arith, e, granted_after id j false s)
  step-granted id s (resolves j approve who now) e = ground (arith, e, granted_after id j approve s)
  step-granted id s (records agent rs) e = inl e
  step-granted id s (sweeps now) e = inl e
  step-granted id s restarts e = inl e

  run-granted :
      (id : String) (s : State) (es : List Event)
      → is_granted id (run env s es) ≡ true
      → (is_granted id s ≡ true) ⊎ (is_approved_in id es ≡ true)
  unfolding run is_approved_in
  run-granted id s [] h = inl h
  run-granted id s (e ∷ es) h =
      ground (arith, run-granted id (step env s e) es h, step-granted id s e)

-- A gate's promise is settled with true only if a human approved its id: a timeout, a failed
-- delivery, a restart and a sweep never let a held message pass. This holds for every sequence of
-- events from the daemon's first start, with a registered delivery function or without.
pub granted_by_human :
    (env : Env) (delivery : Bool) (es : List Event) (id : String)
    → is_granted id (run env (init delivery) es) ≡ true
    → is_approved_in id es ≡ true
unfolding outcomes
granted_by_human env delivery es id h = elim (run-granted env id (init delivery) es h) [
  | inl e ↦ ground (arith, e)
  | inr e ↦ e
]

abbrev pub timed_out : ℕ → Option DecisionRow → Option DecisionRow
timed_out now none = none
timed_out now (some row) = some (close_row timeout "system" now row)

abbrev pub listed : String → List String → Bool
listed id ids = any (λ j. str_eq j id) ids

get-sweep_rows :
    (j : String) (now : ℕ) (ids : List String) (rows : Dict DecisionRow)
    → Dict.get j (sweep_rows ids now rows)
      ≡ (if listed j ids then timed_out now (Dict.get j rows) else Dict.get j rows)
unfolding sweep_rows
get-sweep_rows j now [] rows = refl
get-sweep_rows j now (id ∷ ids) rows = ground (
  arith,
  eq_iff id j,
  get-sweep_rows j now ids (decide id timeout "system" now rows),
  get-decide id j timeout "system" now rows,
)

open_listed :
    (j : String) (now : ℕ) (rows : Dict DecisionRow)
    → (listed j (undecided rows) ≡ true) ⊎ (timed_out now (Dict.get j rows) ≡ Dict.get j rows)
unfolding undecided Dict.get
open_listed j now [] = inr refl
open_listed j now ((id, row) ∷ rows) = ground (arith, eq_iff id j, open_listed j now rows)

length-undecided : (rows : Dict DecisionRow) → length (undecided rows) ≤ length rows
unfolding undecided
length-undecided [] = omega arith
length-undecided ((id, row) ∷ rows) = ground (arith, length-undecided rows)

-- The sweep at startup closes every row that a restart left open as timed out, keeps each decided
-- row as it was, adds no row, and reports no more rows than the table has.
pub sweep_closes_all :
    (s : State) (now : ℕ) (id : String)
    → let swept = sweep_stale_approvals (restart s) now in
      (Dict.get id swept.0.rows ≡ timed_out now (Dict.get id s.rows)) × (swept.1 ≤ length s.rows)
unfolding sweep_stale_approvals restart
sweep_closes_all s now id = (
  ground (arith, open_listed id now s.rows, get-sweep_rows id now (undecided s.rows) s.rows),
  length-undecided s.rows,
)
