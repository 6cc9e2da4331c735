-- ===== src/Approval/Gate.antt =====
-- daemon/src/comms/approval-gate.ts. Each call of `approvalGate`, each firing of a gate's timer, each
-- failure to deliver a card, each decision and the sweep at startup is one step on `State`.
-- A gate's promise is settled when its id enters `settled`. The hashes, the preview and
-- `time_to_decide`, which the module only records, are left out.
pub mod Fits
pub mod Denial
pub mod Clearance
use kithkit.Base.{
  ℕ, ◌+◌, ◌*◌, String, Bool, true, false, not, ◌&&◌, List, [], ◌∷◌, ◌++◌, Option, none, some, any,
  length, str_eq, ◌≡◌, if◌then◌else◌,
}
use kithkit.Base.Dict
use kithkit.Base.Dict.{Dict}

pub data ApprovalPolicy : Type 0 where
  all first_time_recipient external_only never : ApprovalPolicy

pub record ApprovalPolicyConfig : Type 0 where
  pub require_approval_for : String
  pub timeout_minutes : Option ℕ

pub record GateContext : Type 0 where
  pub channel : String
  pub recipient : List String
  pub sender_agent : String

pub record PendingGate : Type 0 where
  pub context : GateContext
  pub policy : ApprovalPolicy
  pub created_at : ℕ
  pub expires_at : ℕ

pub data Decision : Type 0 where
  pending approved rejected timeout : Decision

-- A row of `approval_decisions`.
pub record DecisionRow : Type 0 where
  pub decision : Decision
  pub decider : String
  pub context : GateContext
  pub policy : ApprovalPolicy
  pub created_at : ℕ
  pub decided_at : Option ℕ

-- The tables are kept by their keys: an approval id is a fresh UUID, so it names one row, and
-- `agent_sent_recipients` has one row for an agent and a recipient.
pub record State : Type 0 where
  pub pending_gates : Dict PendingGate
  pub rows : Dict DecisionRow
  pub sent : List (String × String)
  pub delivery : Bool
  pub settled : List (String × Bool)

-- At the start of the daemon's first run.
abbrev pub init : Bool → State
init delivery = record {
  pending_gates = [];
  rows = [];
  sent = [];
  delivery = delivery;
  settled = [];
}

unfoldable pub normalize_approval_for : String → ApprovalPolicy
normalize_approval_for raw =
    if str_eq raw "all"
    then all
    else if str_eq raw "first_time_recipient"
    then first_time_recipient
    else if str_eq raw "external_only"
    then external_only
    else if str_eq raw "never"
    then never
    else all

-- `canonical` is JavaScript's `trim().toLowerCase()`, and `policies` the configuration's
-- `approval_policies`.
pub record Env : Type 0 where
  pub canonical : String → String
  pub policies : Dict ApprovalPolicyConfig

pub data Requirement : Type 0 where
  pass gate : Requirement

-- The immediate outcome of a call of `approvalGate`: it returns, or its promise waits.
pub data Reply : Type 0 where
  proceed abort waits : Reply

abbrev pub same_pair : String → String → String × String → Bool
same_pair a r p = str_eq p.0 a && str_eq p.1 r

abbrev pub is_open : DecisionRow → Bool
is_open row = elim row.decided_at [ none ↦ true | some _ ↦ false ]

abbrev pub close_row : Decision → String → ℕ → DecisionRow → DecisionRow
close_row decision decider now row =
    if is_open row
    then record row { decision = decision; decider = decider; decided_at = some now }
    else row

-- `UPDATE … WHERE approval_id = ? AND decided_at IS NULL`
unfoldable pub decide : String → Decision → String → ℕ → Dict DecisionRow → Dict DecisionRow
decide id decision decider now [] = []
decide id decision decider now ((j, row) ∷ rows) =
    (j, if str_eq j id then close_row decision decider now row else row)
    ∷ decide id decision decider now rows

module _ (env : Env) where
  unfoldable pub is_known_recipient : State → String → String → Bool
  is_known_recipient s agent recipient = any (same_pair agent (env.canonical recipient)) s.sent

  -- The loop of `recordSuccessfulSend`, with `INSERT OR IGNORE`.
  unfoldable pub remember : String → List (String × String) → List String → List (String × String)
  remember agent sent [] = sent
  remember agent sent (r ∷ rs) =
      let recipient = env.canonical r in
      remember agent
        (if any (same_pair agent recipient) sent then sent else sent ++ (agent, recipient) ∷ []) rs

  unfoldable pub record_successful_send : State → String → List String → State
  unfolding remember
  record_successful_send s agent recipients = record s { sent = remember agent s.sent recipients }

  unfoldable pub evaluate_requirement : State → ApprovalPolicyConfig → GateContext → Requirement
  unfolding is_known_recipient
  evaluate_requirement s policy ctx = elim (normalize_approval_for policy.require_approval_for) [
    | never ↦ pass
    | all ↦ gate
    | first_time_recipient ↦
        if any (λ r. not (is_known_recipient s ctx.sender_agent r)) ctx.recipient
        then gate
        else pass
    | external_only ↦ gate
  ]

  abbrev timeout_ms : Option ℕ → ℕ
  timeout_ms none = 10 * 60 * 1000
  timeout_ms (some minutes) = minutes * 60 * 1000

  pub pending_row : ApprovalPolicyConfig → GateContext → ℕ → DecisionRow
  pending_row policy ctx now = record {
    decision = pending;
    decider = "human";
    context = ctx;
    policy = normalize_approval_for policy.require_approval_for;
    created_at = now;
    decided_at = none;
  }

  pub auto_row : ApprovalPolicyConfig → GateContext → ℕ → DecisionRow
  auto_row policy ctx now = record {
    decision = approved;
    decider = "system";
    context = ctx;
    policy = normalize_approval_for policy.require_approval_for;
    created_at = now;
    decided_at = some now;
  }

  pub pending_gate : ApprovalPolicyConfig → GateContext → ℕ → PendingGate
  pending_gate policy ctx now = record {
    context = ctx;
    policy = normalize_approval_for policy.require_approval_for;
    created_at = now;
    expires_at = now + timeout_ms policy.timeout_minutes;
  }

  -- Without a registered delivery function the gate is entered, and closed as denied at once.
  unfoldable pub issue_card :
      State → ApprovalPolicyConfig → GateContext → String → ℕ → State × Reply
  unfolding pending_row pending_gate
  issue_card s policy ctx id now =
      let rows = Dict.set id (pending_row policy ctx now) s.rows in
      let gates = Dict.set id (pending_gate policy ctx now) s.pending_gates in
      if s.delivery then (record s { rows = rows; pending_gates = gates }, waits) else (
        record s {
          rows = decide id timeout "system" now rows;
          pending_gates = Dict.delete id gates;
        },
        abort,
      )

  -- `id` is the `randomUUID()` of the call.
  unfoldable pub approval_gate : State → GateContext → String → ℕ → State × Reply
  unfolding issue_card auto_row
  approval_gate s ctx id now = elim (Dict.get ctx.channel env.policies) [
    | none ↦ (s, proceed)
    | some policy ↦ elim (evaluate_requirement s policy ctx) [
      | pass ↦ (record s { rows = Dict.set id (auto_row policy ctx now) s.rows }, proceed)
      | gate ↦ issue_card s policy ctx id now
    ]
  ]

-- The timer of a gate fires, or the delivery of its card fails: nothing if the gate has been
-- resolved, which is when it has left the registry.
unfoldable pub give_up : State → String → ℕ → State
give_up s id now = elim (Dict.get id s.pending_gates) [
  | none ↦ s
  | some g ↦ record s {
    pending_gates = Dict.delete id s.pending_gates;
    rows = decide id timeout "system" now s.rows;
    settled = s.settled ++ (id, false) ∷ [];
  }
]

pub data ResolveResult : Type 0 where
  ok not_found already_resolved : ResolveResult

abbrev pub verdict : Bool → Decision
verdict true = approved
verdict false = rejected

abbrev pub unregistered : Option DecisionRow → ResolveResult
unregistered none = not_found
unregistered (some row) = elim row.decided_at [ none ↦ not_found | some _ ↦ already_resolved ]

-- `approve` says which of the two decisions the human took.
unfoldable pub resolve_gate : State → String → (approve : Bool) → String → ℕ → State × ResolveResult
resolve_gate s id approve decider now = elim (Dict.get id s.pending_gates) [
  | none ↦ (s, unregistered (Dict.get id s.rows))
  | some g ↦ (
    record s {
      rows = decide id (verdict approve) decider now s.rows;
      pending_gates = Dict.delete id s.pending_gates;
      settled = s.settled ++ (id, approve) ∷ [];
    },
    ok,
  )
]

unfoldable pub undecided : Dict DecisionRow → List String
undecided [] = []
undecided ((id, row) ∷ rows) = let rest = undecided rows in if is_open row then id ∷ rest else rest

unfoldable pub sweep_rows : List String → ℕ → Dict DecisionRow → Dict DecisionRow
sweep_rows [] now rows = rows
sweep_rows (id ∷ ids) now rows = sweep_rows ids now (decide id timeout "system" now rows)

unfoldable pub sweep_stale_approvals : State → ℕ → State × ℕ
sweep_stale_approvals s now =
    (record s { rows = sweep_rows (undecided s.rows) now s.rows }, length (undecided s.rows))

-- The process ends and starts again: the registry of waiting gates is lost, the tables stay.
unfoldable pub restart : State → State
restart s = record s { pending_gates = [] }

pub data Event : Type 0 where
  sends : GateContext → String → ℕ → Event
  gives_up : String → ℕ → Event
  resolves : String → (approve : Bool) → String → ℕ → Event
  records : String → List String → Event
  sweeps : ℕ → Event
  restarts : Event

-- What an event relies on: the id of a call is new to the table, and the sweep runs at startup, when
-- no gate is registered yet.
abbrev pub IsTimely : State → Event → Type 0
IsTimely s (sends ctx id now) = Dict.get id s.rows ≡ none
IsTimely s (sweeps now) = s.pending_gates ≡ []
IsTimely s _ = Unit

module _ (env : Env) where
  unfoldable pub step : State → Event → State
  step s (sends ctx id now) = (approval_gate env s ctx id now).0
  step s (gives_up id now) = give_up s id now
  step s (resolves id approve decider now) = (resolve_gate s id approve decider now).0
  step s (records agent recipients) = record_successful_send env s agent recipients
  step s (sweeps now) = (sweep_stale_approvals s now).0
  step s restarts = restart s

  unfoldable pub run : State → List Event → State
  run s [] = s
  run s (e ∷ es) = run (step s e) es

  abbrev pub AreTimely : State → List Event → Type 0
  AreTimely s [] = Unit
  AreTimely s (e ∷ es) = IsTimely s e × AreTimely (step s e) es
