-- ===== src/Messages/Dropped.antt =====
-- daemon/src/agents/message-router.ts: messages that are taken for a repetition.
use Prim.Native.String.{◌++◌ as ◌<>◌}
use kithkit.Base.{
  ℕ, ◌+◌, ◌≤◌, ◌<◌, String, Bool, true, false, not, ◌&&◌, [], ◌∷◌, none, some, ◌≡◌, ap, ◌∙◌, arith,
  eq_refl,
}
use kithkit.Base.Dict
use kithkit.Base.Dict.{Dict}
use kithkit.Messages.{
  SendMessageRequest, State, Env, prefix, deduplication_key, cleanup_stale_dedup, dedup_window_ms,
  includes, valid_message_types, worker_allowed_types, is_worker_agent, sent, store, auto_complete,
  send_new, send_message,
}
use kithkit.Messages.Dedup.{get-cleanup-none, auto_complete-messages, route-times}

get-cleanup-some :
    (key : String) (now id at : ℕ) (m : Dict (ℕ × ℕ))
    → Dict.get key m ≡ some (id, at)
    → now ≤ at + dedup_window_ms
    → Dict.get key (cleanup_stale_dedup now m) ≡ some (id, at)
unfolding cleanup_stale_dedup Dict.get
get-cleanup-some key now id at [] e h = ground (arith, e)
get-cleanup-some key now id at ((j, v) ∷ m) e h =
    ground (arith, e, h, get-cleanup-some key now id at m)

abbrev pub IsSendable : SendMessageRequest → Type 0
IsSendable req =
    (includes valid_message_types req.kind ≡ true)
    × ((is_worker_agent req.from_agent && not (includes worker_allowed_types req.kind)) ≡ false)

-- A sendable message with a new key is remembered.
send_message-recent :
    (env : Env) (s : State) (req : SendMessageRequest) (now : ℕ)
    → IsSendable req
    → Dict.get (deduplication_key req) s.recent ≡ none
    → Dict.get (deduplication_key req) (send_message env s req now).0.recent ≡ some (s.next_id, now)
unfolding send_message send_new store
send_message-recent env s req now v n =
    let cleaned = record s { recent = cleanup_stale_dedup now s.recent } in
    let stored = store cleaned req now in
    ground (
      arith,
      v,
      get-cleanup-none (deduplication_key req) now s.recent n,
      auto_complete-messages (deduplication_key req) env stored req now,
      route-times (deduplication_key req) env (auto_complete env stored req now).0 req s.next_id
          now,
      Dict.get-set (deduplication_key req) (deduplication_key req) (s.next_id, now) cleaned.recent,
      eq_refl (deduplication_key req),
    )

-- What is remembered is not stored again.
send_message-again :
    (env : Env) (s : State) (req : SendMessageRequest) (id at now : ℕ)
    → IsSendable req
    → Dict.get (deduplication_key req) s.recent ≡ some (id, at)
    → now < at + dedup_window_ms
    → ((send_message env s req now).0.messages ≡ s.messages)
      × ((send_message env s req now).1.1 ≡ sent id true none)
unfolding send_message
send_message-again env s req id at now v e h =
    ground (arith, v, h, get-cleanup-some (deduplication_key req) now id at s.recent e)

-- After a message whose key is new, a second one from the same sender to the same receiver with the
-- same type, whose body has the same first 200 characters and may go on differently, is not stored
-- for five seconds, and its sender is told that it was delivered, under the id of the first.
pub different_body_dropped :
    (env later : Env) (s : State) (req : SendMessageRequest) (now wait : ℕ) (body : String)
    (direct : Bool)
    → IsSendable req
    → Dict.get (deduplication_key req) s.recent ≡ none
    → prefix 200 body ≡ prefix 200 req.body
    → wait < dedup_window_ms
    → let first = (send_message env s req now).0 in
      let second = record req { body = body; direct = direct } in
      ((send_message later first second (now + wait)).0.messages ≡ first.messages)
      × ((send_message later first second (now + wait)).1.1 ≡ sent s.next_id true none)
unfolding deduplication_key prefix
different_body_dropped env later s req now wait body direct v n same w =
    let first = (send_message env s req now).0 in
    let second = record req { body = body; direct = direct } in
    send_message-again later first second s.next_id now (now + wait) v
      (ap
          (λ p.
            Dict.get (req.from_agent <> ":" <> req.to_agent <> ":" <> req.kind <> ":" <> p)
              first.recent)
          same
        ∙ send_message-recent env s req now v n)
      (omega (arith, w))
