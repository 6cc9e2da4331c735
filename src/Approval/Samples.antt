-- ===== src/Approval/Samples.antt =====
-- The theorems about the approval gate at small inputs: one channel needs an approval for everything,
-- one for recipients that are new.
use kithkit.Base.{true, false, List, [], ◌∷◌, none, some, ◌≡◌, ◌≢◌, ◌↔◌, arith, refl}
use kithkit.Base.Dict
use kithkit.Approval.Gate.{
  ApprovalPolicyConfig, GateContext, State, Env, Event, sends, resolves, sweeps, restarts, init,
  approval_gate, resolve_gate, restart, run, step, AreTimely, proceed, issue_card,
  evaluate_requirement, normalize_approval_for,
}
use kithkit.Approval.Router.{
  normal, headlines, register_adapter, ChannelAdapter, OutboundMessage, Completion, GateReply,
  denies, throws, allows, settle, actions, work, deliver, guarded, gate_context, persist, targets,
  get_verbosity,
}
use kithkit.Approval.Router
use kithkit.Approval.Router.Delivery.{fail_closed, is_sent}
use kithkit.Approval.Gate.Fits.{IsConsistent, run-IsConsistent, outcomes}
use kithkit.Approval.Gate.Clearance.{IsCleared, proceed_iff}
use kithkit.Approval.Gate.Denial.{is_approved_in, granted_by_human}

abbrev everything : ApprovalPolicyConfig
everything = record { require_approval_for = "all"; timeout_minutes = some 5 }

abbrev newcomers : ApprovalPolicyConfig
newcomers = record { require_approval_for = "first_time_recipient"; timeout_minutes = none }

abbrev env : Env
env = record { canonical = λ s. s; policies = ("mail", everything) ∷ ("telegram", newcomers) ∷ [] }

abbrev mail : GateContext
mail = record { channel = "mail"; recipient = "a@b.org" ∷ []; sender_agent = "comms" }

abbrev chat : GateContext
chat = record { channel = "telegram"; recipient = "42" ∷ []; sender_agent = "comms" }

abbrev approving : List Event
approving = sends mail "u1" 100 ∷ resolves "u1" true "dave" 150 ∷ []

abbrev busy : List Event
busy = sends mail "u1" 100 ∷ resolves "u1" false "dave" 150 ∷ restarts ∷ sweeps 900 ∷ []

busy-AreTimely : AreTimely env (init true) busy
unfolding step approval_gate issue_card evaluate_requirement normalize_approval_for Dict.get
    Dict.set Dict.delete resolve_gate restart
busy-AreTimely = (refl, (tt, (tt, (refl, tt))))

run-IsConsistent_example : IsConsistent (run env (init true) busy)
run-IsConsistent_example = run-IsConsistent env true busy busy-AreTimely

proceed_iff_example :
    ((approval_gate env (init true) mail "u1" 7).1 ≡ proceed) ↔ IsCleared env (init true) mail
proceed_iff_example = proceed_iff env (init true) mail "u1" 7

abbrev held : State
held = run env (init true) (sends mail "u1" 100 ∷ [])

held-IsConsistent : IsConsistent held
unfolding Dict.get
held-IsConsistent = run-IsConsistent env true (sends mail "u1" 100 ∷ []) (refl, tt)

granted_by_human_example : is_approved_in "u1" approving ≡ true
unfolding run step approval_gate issue_card evaluate_requirement normalize_approval_for Dict.get
    Dict.set resolve_gate outcomes
granted_by_human_example = granted_by_human env true approving "u1" refl

abbrev wired : Router.State
wired = record {
  adapters = ("mail", record { name = "mail"; format_message = λ t v. t }) ∷ [];
  verbosity_settings = [];
  outbound_gate = true;
}

abbrev hello : OutboundMessage
hello = record {
  text = "hello";
  recipients = some ("a@b.org" ∷ []);
  sender_agent = some "comms";
  chat_id = none;
}

abbrev answered : GateReply → Completion
answered g = record { channel = "mail"; gate = g; send = some true }

fail_closed_example :
    (is_sent "mail" (actions true wired hello (answered denies ∷ answered throws ∷ [])) ≡ false)
    × (Dict.get "mail" (settle true wired hello (answered denies ∷ answered throws ∷ []) [])
        ≢ some true)
fail_closed_example =
    fail_closed true wired hello "mail" (answered denies ∷ answered throws ∷ []) refl
      ((λ _. ground arith), ((λ _. ground arith), tt))

abbrev phone : Router.ChannelAdapter
phone = record { name = "telegram"; format_message = λ t v. t }

abbrev on_telegram : Router.State
on_telegram = record {
  adapters = ("telegram", phone) ∷ [];
  verbosity_settings = [];
  outbound_gate = true;
}

abbrev turned_down : Completion
turned_down = record { channel = "telegram"; gate = denies; send = none }
