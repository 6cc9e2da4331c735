-- ===== src/Messages/Samples.antt =====
-- daemon/src/agents/message-router.ts at concrete messages.
use kithkit.Base.{ℕ, true, false, List, [], ◌∷◌, none, some, ◌≡◌, refl, ◌⊎◌}
use kithkit.Base.Dict
use kithkit.Base.Js.{text, bool}
use kithkit.Messages.{
  SendMessageRequest, OrchestratorTask, State, Env, Metadata, sent, deduplication_key, prefix,
  send_message, complete_task, is_worker_agent, worker_restricted, hex_then_dash,
}
use kithkit.Messages.Dedup.{AreSpaced, times, run, fresh, sends, processes, Event, never_twice}
use kithkit.Messages.Completion.{completed_only_by_result, result_completes}

abbrev tmux_off : Env
tmux_off = record { inject = λ session body. false; notify = none; router = true }

abbrev report : SendMessageRequest
report = record {
  from_agent = "orchestrator";
  to_agent = "comms";
  kind = "result";
  body = "all done";
  metadata = some (record { task_id = some (text "t1"); completion = some (bool true) });
  direct = false;
}

abbrev task : OrchestratorTask
task = record {
  status = "in_progress";
  requesting_peer = some "r2";
  result = none;
  completed_at = none;
  updated_at = 10;
}

abbrev at_work : State
at_work = fresh 7 (("t1", task) ∷ []) ("t1" ∷ []) []

completed_only_by_result_example :
    (Dict.get "t1" (send_message tmux_off at_work report 50).0.tasks ≡ some task)
    ⊎ (kithkit.Messages.Completion.Ends at_work report "t1" task
        × (Dict.get "t1" (send_message tmux_off at_work report 50).0.tasks
            ≡ some (complete_task "all done" 50 task)))
completed_only_by_result_example =
    completed_only_by_result tmux_off "t1" at_work report 50 task (unfold Dict.get in refl)

abbrev history : List (ℕ × Event)
history =
    (1, sends tmux_off report)
    ∷ (300, sends tmux_off report)
    ∷ (5000, sends tmux_off report)
    ∷ (2, processes 7)
    ∷ []

never_twice_example :
    AreSpaced (times "orchestrator:comms:result:all done" (run at_work 50 history).messages)
never_twice_example =
    never_twice "orchestrator:comms:result:all done" 7 (("t1", task) ∷ []) ("t1" ∷ []) [] 50 history

abbrev first_report : SendMessageRequest
first_report = record report {
  body =
      "01234567890123456789012345678901234567890123456789012345678901234567890123456789012345678901234567890123456789012345678901234567890123456789012345678901234567890123456789012345678901234567890123456789 and A";
}

a_worker_may_not_chat :
    (send_message tmux_off at_work
      (record report { from_agent = "worker-1"; kind = "text" })
      50).1.1
    ≡ worker_restricted
unfolding send_message is_worker_agent
a_worker_may_not_chat = refl
