-- ===== src/Messages/Completion.antt =====
-- daemon/src/agents/message-router.ts: what a result message does to the orchestrator's tasks.
use kithkit.Base.{
  ℕ, String, true, ◌&&◌, Option, none, some, ◌≡◌, refl, ◌⊎◌, inl, if◌then◌else◌, arith, str_eq,
  eq_iff, eq_refl,
}
use kithkit.Base.Dict
use kithkit.Messages.{
  SendMessageRequest, OrchestratorTask, State, Env, cleanup_stale_dedup, deduplication_key,
  includes, valid_message_types, worker_allowed_types, store, complete_by_id, is_active, has_work,
  is_completion, complete_task, complete_named, auto_complete, task_id_of, route, fresh_id,
  send_new, send_or_drop, send_message,
}
use kithkit.Messages.Dedup.{get-cleanup-none}

-- What a message needs in order to end a task: it is a result of the orchestrator that names the task
-- and says that the task is complete, the task is not over, and somebody has worked on it.
abbrev pub Ends : State → SendMessageRequest → String → OrchestratorTask → Type 0
Ends s req id t =
    (req.from_agent ≡ "orchestrator")
    × ((req.kind ≡ "result")
        × ((task_id_of req.metadata ≡ some id)
            × ((is_completion req.metadata ≡ true)
                × ((is_active t ≡ true) × (has_work s id ≡ true)))))

module _ (env : Env) (id : String) where
  complete_by_id-tasks :
      (s : State) (req : SendMessageRequest) (j : String) (now : ℕ) (o : Option OrchestratorTask)
      → Dict.get id (complete_by_id env s req j now o).0.tasks ≡ elim o [
        | none ↦ Dict.get id s.tasks
        | some t ↦
            if is_active t && is_completion req.metadata && has_work s j && str_eq j id
            then Dict.changed (complete_task req.body now) (Dict.get id s.tasks)
            else Dict.get id s.tasks
      ]
  unfolding complete_by_id
  complete_by_id-tasks s req j now none = refl
  complete_by_id-tasks s req j now (some t) =
      ground (arith, Dict.get-modify j id (complete_task req.body now) s.tasks)

  complete_named-only :
      (s : State) (req : SendMessageRequest) (now : ℕ) (o : Option String) (t : OrchestratorTask)
      → task_id_of req.metadata ≡ o
      → req.from_agent ≡ "orchestrator"
      → req.kind ≡ "result"
      → Dict.get id s.tasks ≡ some t
      → (Dict.get id (complete_named env s req now o).0.tasks ≡ some t)
        ⊎ (Ends s req id t
            × (Dict.get id (complete_named env s req now o).0.tasks
                ≡ some (complete_task req.body now t)))
  complete_named-only s req now none t m f k e = inl e
  complete_named-only s req now (some j) t m f k e =
      ground (arith, m, f, k, e, eq_iff j id, complete_by_id-tasks s req j now (Dict.get j s.tasks))

  auto_complete-only :
      (s : State) (req : SendMessageRequest) (now : ℕ) (t : OrchestratorTask)
      → Dict.get id s.tasks ≡ some t
      → (Dict.get id (auto_complete env s req now).0.tasks ≡ some t)
        ⊎ (Ends s req id t
            × (Dict.get id (auto_complete env s req now).0.tasks
                ≡ some (complete_task req.body now t)))
  unfolding auto_complete
  auto_complete-only s req now t e = ground (
    arith,
    e,
    eq_iff req.from_agent "orchestrator",
    eq_iff req.kind "result",
    complete_named-only s req now (task_id_of req.metadata) t refl,
  )

  route-tasks :
      (s : State) (req : SendMessageRequest) (n now : ℕ) → (route env s req n now).0.tasks ≡ s.tasks
  unfolding route
  route-tasks s req n now = ground arith

  send_or_drop-only :
      (s : State) (req : SendMessageRequest) (now : ℕ) (t : OrchestratorTask) (o : Option ℕ)
      → Dict.get id s.tasks ≡ some t
      → (Dict.get id (send_or_drop env s req now o).0.tasks ≡ some t)
        ⊎ (Ends s req id t
            × (Dict.get id (send_or_drop env s req now o).0.tasks
                ≡ some (complete_task req.body now t)))
  unfolding send_new store
  send_or_drop-only s req now t (some n) e = inl e
  send_or_drop-only s req now t none e =
      let stored = store s req now in
      ground (
        arith,
        auto_complete-only stored req now t e,
        route-tasks (auto_complete env stored req now).0 req s.next_id now,
      )

  -- A message leaves a task as it is, or it completes it: then the message is a result of the
  -- orchestrator that names the task and says it is complete, the task was assigned, in progress or
  -- pending and had a worker or an activity, and of its row only the status, the result, and the times of
  -- completion and update change.
  pub completed_only_by_result :
      (s : State) (req : SendMessageRequest) (now : ℕ) (t : OrchestratorTask)
      → Dict.get id s.tasks ≡ some t
      → (Dict.get id (send_message env s req now).0.tasks ≡ some t)
        ⊎ (Ends s req id t
            × (Dict.get id (send_message env s req now).0.tasks
                ≡ some (complete_task req.body now t)))
  unfolding send_message
  completed_only_by_result s req now t e =
      let cleaned = record s { recent = cleanup_stale_dedup now s.recent } in
      ground (
        arith,
        e,
        send_or_drop-only cleaned req now t
            (fresh_id (Dict.get (deduplication_key req) cleaned.recent) now) e,
      )

  auto_complete-Ends :
      (s : State) (req : SendMessageRequest) (now : ℕ) (t : OrchestratorTask)
      → Dict.get id s.tasks ≡ some t
      → Ends s req id t
      → Dict.get id (auto_complete env s req now).0.tasks ≡ some (complete_task req.body now t)
  unfolding auto_complete
  auto_complete-Ends s req now t e h = ground (
    arith,
    e,
    h,
    eq_iff req.from_agent "orchestrator",
    eq_iff req.kind "result",
    eq_refl id,
    complete_by_id-tasks s req id now (some t),
  )

  sendable-result :
      (req : SendMessageRequest)
      → req.kind ≡ "result"
      → (includes valid_message_types req.kind ≡ true)
        × (includes worker_allowed_types req.kind ≡ true)
  sendable-result req e = rw (e) (refl, refl)

  -- A message that meets these conditions, and whose key is not remembered, completes the task.
  pub result_completes :
      (s : State) (req : SendMessageRequest) (now : ℕ) (t : OrchestratorTask)
      → Dict.get id s.tasks ≡ some t
      → Ends s req id t
      → Dict.get (deduplication_key req) s.recent ≡ none
      → Dict.get id (send_message env s req now).0.tasks ≡ some (complete_task req.body now t)
  unfolding send_message send_new store
  result_completes s req now t e h n =
      let cleaned = record s { recent = cleanup_stale_dedup now s.recent } in
      let stored = store cleaned req now in
      ground (
        arith,
        sendable-result req h.1.0,
        get-cleanup-none (deduplication_key req) now s.recent n,
        auto_complete-Ends stored req now t e h,
        route-tasks (auto_complete env stored req now).0 req s.next_id now,
      )
