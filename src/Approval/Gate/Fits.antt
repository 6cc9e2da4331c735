-- ===== src/Approval/Gate/Fits.antt =====
-- How the registry, the table and the settled promises of a gate fit together.
use kithkit.Base.{
  ℕ, String, Bool, true, false, List, [], ◌∷◌, ◌++◌, Option, none, some, str_eq, eq_iff,
  if◌then◌else◌, ◌≡◌, ◌≢◌, ◌⊎◌, inl, inr, refl, arith, Option-cases,
}
use kithkit.Base.Dict
use kithkit.Base.Dict.{Dict, get-set, get-delete}
use kithkit.Approval.Gate.{
  Decision, pending, approved, timeout, DecisionRow, PendingGate, State, GateContext,
  ApprovalPolicyConfig, Env, close_row, decide, pending_row, pending_gate, auto_row, issue_card,
  approval_gate, give_up, verdict, resolve_gate, undecided, sweep_rows, sweep_stale_approvals,
  restart, record_successful_send, evaluate_requirement, Requirement, pass, gate, Event, sends,
  gives_up, resolves, records, sweeps, restarts, step, run, IsTimely, AreTimely, init,
}

unfoldable pub outcomes : String → List (String × Bool) → List Bool
outcomes id [] = []
outcomes id ((j, b) ∷ l) = let rest = outcomes id l in if str_eq j id then b ∷ rest else rest

Requirement-cases : (r : Requirement) → (r ≡ pass) ⊎ (r ≡ gate)
Requirement-cases pass = inl refl
Requirement-cases gate = inr refl

pub outcomes-append :
    (id j : String) (b : Bool) (l : List (String × Bool))
    → outcomes id (l ++ (j, b) ∷ []) ≡ outcomes id l ++ (if str_eq j id then b ∷ [] else [])
unfolding outcomes
outcomes-append id j b [] = refl
outcomes-append id j b ((i, c) ∷ l) = ground (arith, outcomes-append id j b l)

abbrev closed : Decision → String → ℕ → Option DecisionRow → Option DecisionRow
closed d who now none = none
closed d who now (some row) = some (close_row d who now row)

pub get-decide :
    (id j : String) (d : Decision) (who : String) (now : ℕ) (rows : Dict DecisionRow)
    → Dict.get j (decide id d who now rows)
      ≡ (if str_eq id j then closed d who now (Dict.get j rows) else Dict.get j rows)
unfolding decide Dict.get
get-decide id j d who now [] = ground arith
get-decide id j d who now ((i, row) ∷ rows) =
    ground (arith, eq_iff id j, eq_iff i id, eq_iff i j, get-decide id j d who now rows)

-- A row that has been decided is not `pending`, and its gate's promise, if it waited, was settled
-- once, with true exactly if the decision is `approved`.
abbrev pub IsDecided : DecisionRow → List Bool → Type 0
IsDecided row outs =
    (row.decided_at ≢ none)
    × (row.decision ≢ pending)
    × ((outs ≡ [])
        ⊎ ((outs ≡ true ∷ []) × (row.decision ≡ approved))
        ⊎ ((outs ≡ false ∷ []) × (row.decision ≢ approved)))

abbrev pub IsOpen : DecisionRow → List Bool → Type 0
IsOpen row outs = (row.decided_at ≡ none) × (row.decision ≡ pending) × (outs ≡ [])

-- The entry of an id in the registry, its row, and what its promise was settled with. An open row
-- with no registered gate is what a restart leaves.
abbrev pub Fits : Option PendingGate → Option DecisionRow → List Bool → Type 0
Fits none none outs = outs ≡ []
Fits none (some row) outs = IsOpen row outs ⊎ IsDecided row outs
Fits (some g) none outs = ⊥
Fits (some g) (some row) outs = IsOpen row outs

abbrev pub IsConsistent : State → Type 0
IsConsistent s =
    (id : String) → Fits (Dict.get id s.pending_gates) (Dict.get id s.rows) (outcomes id s.settled)

give_up-IsConsistent :
    (s : State) (id : String) (now : ℕ) → IsConsistent s → IsConsistent (give_up s id now)
unfolding give_up
give_up-IsConsistent s id now v j = ground (
  arith,
  v id,
  v j,
  eq_iff id j,
  get-delete id j s.pending_gates,
  get-decide id j timeout "system" now s.rows,
  outcomes-append j id false s.settled,
)

resolve_gate-IsConsistent :
    (s : State) (id : String) (approve : Bool) (who : String) (now : ℕ)
    → IsConsistent s
    → IsConsistent (resolve_gate s id approve who now).0
unfolding resolve_gate
resolve_gate-IsConsistent s id approve who now v j = ground (
  arith,
  v id,
  v j,
  eq_iff id j,
  get-delete id j s.pending_gates,
  get-decide id j (verdict approve) who now s.rows,
  outcomes-append j id approve s.settled,
)

restart-IsConsistent : (s : State) → IsConsistent s → IsConsistent (restart s)
unfolding restart Dict.get
restart-IsConsistent s v j = ground (arith, v j)

module _ (env : Env) where
  issue_card-IsConsistent :
      (s : State) (policy : ApprovalPolicyConfig) (ctx : GateContext) (id : String) (now : ℕ)
      → Dict.get id s.rows ≡ none
      → IsConsistent s
      → IsConsistent (issue_card env s policy ctx id now).0
  unfolding issue_card
  issue_card-IsConsistent s policy ctx id now f v j = ground (
    arith,
    v id,
    v j,
    f,
    eq_iff id j,
    get-set id j (pending_row env policy ctx now) s.rows,
    get-set id j (pending_gate env policy ctx now) s.pending_gates,
    get-delete id j (Dict.set id (pending_gate env policy ctx now) s.pending_gates),
    get-decide id j timeout "system" now (Dict.set id (pending_row env policy ctx now) s.rows),
  )

  auto-IsConsistent :
      (s : State) (policy : ApprovalPolicyConfig) (ctx : GateContext) (id : String) (now : ℕ)
      → Dict.get id s.rows ≡ none
      → IsConsistent s
      → IsConsistent (record s { rows = Dict.set id (auto_row env policy ctx now) s.rows })
  unfolding auto_row
  auto-IsConsistent s policy ctx id now f v j =
      ground (arith, v j, f, eq_iff id j, get-set id j (auto_row env policy ctx now) s.rows)

  approval_gate-IsConsistent :
      (s : State) (ctx : GateContext) (id : String) (now : ℕ)
      → Dict.get id s.rows ≡ none
      → IsConsistent s
      → IsConsistent (approval_gate env s ctx id now).0
  unfolding approval_gate
  approval_gate-IsConsistent s ctx id now f v =
      elim (Option-cases (Dict.get ctx.channel env.policies)) [
        | inl e ↦ rw (e, approval_gate) v
        | inr (policy, e) ↦ elim (Requirement-cases (evaluate_requirement env s policy ctx)) [
          | inl p ↦
              rw (e, approval_gate)
                (rw (p, approval_gate) (auto-IsConsistent s policy ctx id now f v))
          | inr g ↦
              rw (e, approval_gate)
                (rw (g, approval_gate) (issue_card-IsConsistent s policy ctx id now f v))
        ]
      ]

get-nil {ℓ} : {V : Type ℓ} (k : String) (m : Dict V) → m ≡ [] → Dict.get k m ≡ none
unfolding Dict.get
get-nil k m e = rw e refl

sweep_rows-IsConsistent :
    (ids : List String) (now : ℕ) (s : State)
    → s.pending_gates ≡ []
    → IsConsistent s
    → IsConsistent (record s { rows = sweep_rows ids now s.rows })
unfolding sweep_rows
sweep_rows-IsConsistent [] now s p v = v
sweep_rows-IsConsistent (id ∷ ids) now s p v =
    sweep_rows-IsConsistent ids now (record s { rows = decide id timeout "system" now s.rows }) p
      (λ j.
        ground
          (arith, v j, get-nil j s.pending_gates p, get-decide id j timeout "system" now s.rows))

step-IsConsistent :
    (env : Env) (s : State) (e : Event)
    → IsTimely s e
    → IsConsistent s
    → IsConsistent (step env s e)
unfolding step sweep_stale_approvals record_successful_send
step-IsConsistent env s (sends ctx id now) t v = approval_gate-IsConsistent env s ctx id now t v
step-IsConsistent env s (gives_up id now) t v = give_up-IsConsistent s id now v
step-IsConsistent env s (resolves id approve who now) t v =
    resolve_gate-IsConsistent s id approve who now v
step-IsConsistent env s (records agent rs) t v = v
step-IsConsistent env s (sweeps now) t v = sweep_rows-IsConsistent (undecided s.rows) now s t v
step-IsConsistent env s restarts t v = restart-IsConsistent s v

run_from-IsConsistent :
    (env : Env) (s : State) (es : List Event)
    → AreTimely env s es
    → IsConsistent s
    → IsConsistent (run env s es)
unfolding run
run_from-IsConsistent env s [] t v = v
run_from-IsConsistent env s (e ∷ es) t v =
    run_from-IsConsistent env (step env s e) es t.1 (step-IsConsistent env s e t.0 v)

-- After any calls of the gate, timers, failed deliveries, decisions, restarts and sweeps, in any
-- order, registry, table and promises fit together for every id: a registered gate has an open row
-- and an unsettled promise; a decided row that had a waiting promise settled it once, with true
-- exactly if the decision is `approved`. The ids of the calls are new, and sweeps run at startup.
pub run-IsConsistent :
    (env : Env) (delivery : Bool) (es : List Event)
    → AreTimely env (init delivery) es
    → IsConsistent (run env (init delivery) es)
unfolding Dict.get outcomes
run-IsConsistent env delivery es t = run_from-IsConsistent env (init delivery) es t (λ id. refl)
