-- ===== src/Approval/Gate/Clearance.antt =====
-- Which sends pass the gate at once.
use mathlib.Core.Bool.{false≢true}
use kithkit.Base.{
  ℕ, String, Bool, true, false, not, List, [], ◌∷◌, none, some, any, All, ◌≡◌, ◌≢◌, ◌⊎◌, ◌↔◌, inl,
  inr, refl, sym, subst, ◌∙◌, arith, Option-cases,
}
use kithkit.Base.Dict
use kithkit.Approval.Gate.{
  never, first_time_recipient, ApprovalPolicyConfig, State, GateContext, Env, proceed,
  normalize_approval_for, is_known_recipient, evaluate_requirement, Requirement, pass, gate,
  issue_card, approval_gate, give_up, resolve_gate, restart, sweep_stale_approvals, Event, sends,
  gives_up, resolves, records, sweeps, restarts, step, run, init,
}

module _ (env : Env) where
  -- A channel without a policy, the policy `never`, or `first_time_recipient` with every recipient
  -- among those that the agent has sent to.
  abbrev pub IsCleared : State → GateContext → Type 0
  IsCleared s ctx =
      (Dict.get ctx.channel env.policies ≡ none)
      ⊎ ((policy : ApprovalPolicyConfig) × (Dict.get ctx.channel env.policies ≡ some policy)
          × ((normalize_approval_for policy.require_approval_for ≡ never)
              ⊎ ((normalize_approval_for policy.require_approval_for ≡ first_time_recipient)
                  × All (λ r. is_known_recipient env s ctx.sender_agent r ≡ true) ctx.recipient)))

  Requirement-cases : (r : Requirement) → (r ≡ pass) ⊎ (r ≡ gate)
  Requirement-cases pass = inl refl
  Requirement-cases gate = inr refl

  unknown_iff :
      (known : String → Bool) (rs : List String)
      → (any (λ r. not (known r)) rs ≡ false) ↔ All (λ r. known r ≡ true) rs
  unknown_iff known [] = (λ _. tt, λ _. refl)
  unknown_iff known (r ∷ rs) =
      let (there, back) = unknown_iff known rs in (λ e. ground arith, λ e. ground arith)

  issue_card-waits :
      (s : State) (policy : ApprovalPolicyConfig) (ctx : GateContext) (id : String) (now : ℕ)
      → (issue_card env s policy ctx id now).1 ≢ proceed
  unfolding issue_card
  issue_card-waits s policy ctx id now = ground arith

  evaluate-pass :
      (s : State) (policy : ApprovalPolicyConfig) (ctx : GateContext)
      → (evaluate_requirement env s policy ctx ≡ pass) ↔ (
          (normalize_approval_for policy.require_approval_for ≡ never)
          ⊎ ((normalize_approval_for policy.require_approval_for ≡ first_time_recipient)
              × All (λ r. is_known_recipient env s ctx.sender_agent r ≡ true) ctx.recipient))
  unfolding evaluate_requirement
  evaluate-pass s policy ctx =
      let (there, back) = unknown_iff (is_known_recipient env s ctx.sender_agent) ctx.recipient in
      (λ e. ground arith, λ e. ground arith)

  module _ (s : State) (ctx : GateContext) (id : String) (now : ℕ) where
    reply_of_none :
        Dict.get ctx.channel env.policies ≡ none → (approval_gate env s ctx id now).1 ≡ proceed
    unfolding approval_gate
    reply_of_none e = rw (e, approval_gate) refl

    reply_of_pass :
        {policy : ApprovalPolicyConfig}
        → Dict.get ctx.channel env.policies ≡ some policy
        → evaluate_requirement env s policy ctx ≡ pass
        → (approval_gate env s ctx id now).1 ≡ proceed
    unfolding approval_gate
    reply_of_pass e p = rw (e, approval_gate) (rw (p, approval_gate) refl)

    reply_of_gate :
        {policy : ApprovalPolicyConfig}
        → Dict.get ctx.channel env.policies ≡ some policy
        → evaluate_requirement env s policy ctx ≡ gate
        → approval_gate env s ctx id now ≡ issue_card env s policy ctx id now
    unfolding approval_gate
    reply_of_gate e g = rw (e, approval_gate) (rw (g, approval_gate) refl)

    -- A call of the gate returns true at once exactly if the channel has no policy, or its policy
    -- is `never`, or it is `first_time_recipient` and every recipient is known for the sending
    -- agent.
    pub proceed_iff : ((approval_gate env s ctx id now).1 ≡ proceed) ↔ IsCleared s ctx
    proceed_iff = (
      λ h. elim (Option-cases (Dict.get ctx.channel env.policies)) [
        | inl e ↦ inl e
        | inr (policy, e) ↦ elim (Requirement-cases (evaluate_requirement env s policy ctx)) [
          | inl p ↦ inr (policy, e, (evaluate-pass s policy ctx).0 p)
          | inr g ↦ absurd (issue_card-waits s policy ctx id now (rw (reply_of_gate e g) at h))
        ]
      ],
      λ c. elim c [
        | inl e ↦ reply_of_none e
        | inr (policy, e, p) ↦ reply_of_pass e ((evaluate-pass s policy ctx).1 p)
      ],
    )

  -- Nothing but `recordSuccessfulSend` makes a recipient known.
  abbrev pub IsUnrecorded : List Event → Type 0
  IsUnrecorded [] = Unit
  IsUnrecorded (records agent recipients ∷ es) = ⊥
  IsUnrecorded (_ ∷ es) = IsUnrecorded es

  gate-sent :
      (s : State) (ctx : GateContext) (id : String) (now : ℕ)
      → (approval_gate env s ctx id now).0.sent ≡ s.sent
  unfolding approval_gate issue_card
  gate-sent s ctx id now = ground arith

  run-sent : (s : State) (es : List Event) → IsUnrecorded es → (run env s es).sent ≡ s.sent
  unfolding run step give_up resolve_gate restart sweep_stale_approvals
  run-sent s [] u = refl
  run-sent s (sends ctx id now ∷ es) u =
      run-sent (approval_gate env s ctx id now).0 es u ∙ gate-sent s ctx id now
  run-sent s (gives_up id now ∷ es) u = run-sent (give_up s id now) es u ∙ ground arith
  run-sent s (resolves id a who now ∷ es) u =
      run-sent (resolve_gate s id a who now).0 es u ∙ ground arith
  run-sent s (records agent rs ∷ es) u = absurd u
  run-sent s (sweeps now ∷ es) u = run-sent (sweep_stale_approvals s now).0 es u
  run-sent s (restarts ∷ es) u = run-sent (restart s) es u

  nobody_known :
      (s : State) (agent r : String) → s.sent ≡ [] → is_known_recipient env s agent r ≡ false
  unfolding is_known_recipient
  nobody_known s agent r e = rw e refl

  -- From the first start of the daemon on, and as long as `recordSuccessfulSend` is not called, a
  -- send to at least one recipient on a channel under `first_time_recipient` never proceeds at
  -- once, whatever was sent and approved before.
  pub first_time_always_held :
      (delivery : Bool) (es : List Event) (policy : ApprovalPolicyConfig) (ctx : GateContext)
      (r : String) (rs : List String) (id : String) (now : ℕ)
      → IsUnrecorded es
      → Dict.get ctx.channel env.policies ≡ some policy
      → normalize_approval_for policy.require_approval_for ≡ first_time_recipient
      → ctx.recipient ≡ r ∷ rs
      → (approval_gate env (run env (init delivery) es) ctx id now).1 ≢ proceed
  first_time_always_held delivery es policy ctx r rs id now u e p q h =
      let s = run env (init delivery) es in
      let unknown = nobody_known s ctx.sender_agent r (run-sent (init delivery) es u) in
      elim ((proceed_iff s ctx id now).0 h) [
        | inl none_set ↦ cc
        | inr (policy', e', inl free) ↦ ground arith
        | inr (policy', e', inr (_, known)) ↦ false≢true (
            sym unknown
            ∙ (subst (All (λ x. is_known_recipient env s ctx.sender_agent x ≡ true)) q known).0)
      ]
