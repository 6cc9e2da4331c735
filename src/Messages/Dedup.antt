-- ===== src/Messages/Dedup.antt =====
-- daemon/src/agents/message-router.ts: messages with the same key within five seconds.
use Prim.Native.String.{◌++◌ as ◌<>◌}
use kithkit.Base.{
  ℕ, ◌+◌, ◌≤◌, String, List, [], ◌∷◌, Option, none, some, ltb, ◌≡◌, refl, if◌then◌else◌, arith,
  str_eq, eq_iff,
}
use kithkit.Base.Dict
use kithkit.Base.Dict.{Dict}
use kithkit.Messages.{
  Message, SendMessageRequest, OrchestratorTask, State, Env, prefix, deduplication_key,
  cleanup_stale_dedup, dedup_window_ms, store, stamp, complete_by_id, complete_named, auto_complete,
  task_id_of, route, fresh_id, send_new, send_or_drop, send_message, new_message, mark_injected,
}
use kithkit.Messages.Reads.{mark_messages_read, mark_processed, processed, was_read}

-- The key under which a row was sent.
unfoldable pub row_key : Message → String
unfolding prefix
row_key m = m.from_agent <> ":" <> m.to_agent <> ":" <> m.kind <> ":" <> prefix 200 m.body

-- When the rows with a key were stored, the last first.
unfoldable pub times : String → List Message → List ℕ
unfolding row_key
times key [] = []
times key (m ∷ ms) =
    let rest = times key ms in if str_eq (row_key m) key then m.created_at ∷ rest else rest

abbrev pub After : ℕ → List ℕ → Type 0
After t [] = Unit
After t (u ∷ ts) = u + dedup_window_ms ≤ t

abbrev pub AreSpaced : List ℕ → Type 0
AreSpaced [] = Unit
AreSpaced (t ∷ ts) = After t ts × AreSpaced ts

-- What the process does to its messages. Each sending has the world of its moment.
pub data Event : Type 0 where
  sends : (env : Env) → SendMessageRequest → Event
  processes : (id : ℕ) → Event
  reads : (ids : List ℕ) → Event

unfoldable pub step : State → ℕ → Event → State
unfolding send_message mark_processed mark_messages_read
step s now (sends env req) = (send_message env s req now).0
step s now (processes id) = mark_processed s id now
step s now (reads ids) = mark_messages_read s ids now

-- Each event happens some time after the one before it.
unfoldable pub run : State → ℕ → List (ℕ × Event) → State
unfolding step
run s now [] = s
run s now ((wait, e) ∷ es) = run (step s (now + wait) e) (now + wait) es

-- A process that has just started remembers no message.
abbrev pub fresh : ℕ → Dict OrchestratorTask → List String → List String → State
fresh next_id tasks workers activity = record {
  messages = [];
  next_id = next_id;
  recent = [];
  tasks = tasks;
  workers = workers;
  activity = activity;
}

abbrev kept : ℕ → Option (ℕ × ℕ) → Option (ℕ × ℕ)
kept now none = none
kept now (some (id, at)) = if ltb (at + dedup_window_ms) now then none else some (id, at)

pub get-cleanup-none :
    (key : String) (now : ℕ) (m : Dict (ℕ × ℕ))
    → Dict.get key m ≡ none
    → Dict.get key (cleanup_stale_dedup now m) ≡ none
unfolding cleanup_stale_dedup Dict.get
get-cleanup-none key now [] e = refl
get-cleanup-none key now ((j, v) ∷ m) e = ground (arith, e, get-cleanup-none key now m)

get-cleanup :
    (key : String) (now : ℕ) (m : Dict (ℕ × ℕ))
    → Dict.Distinct m
    → Dict.get key (cleanup_stale_dedup now m) ≡ kept now (Dict.get key m)
unfolding cleanup_stale_dedup Dict.get
get-cleanup key now [] d = refl
get-cleanup key now ((j, v) ∷ m) d =
    ground (arith, d, eq_iff j key, get-cleanup key now m d.1, get-cleanup-none key now m)

cleanup-Distinct :
    (now : ℕ) (m : Dict (ℕ × ℕ)) → Dict.Distinct m → Dict.Distinct (cleanup_stale_dedup now m)
unfolding cleanup_stale_dedup
cleanup-Distinct now [] d = tt
cleanup-Distinct now ((j, v) ∷ m) d =
    ground (arith, d, get-cleanup-none j now m d.0, cleanup-Distinct now m d.1)

module _ (key : String) where
  times-stamp :
      (f : Message → Message) (ms : List Message)
      → ((m : Message) → (row_key (f m) ≡ row_key m) × ((f m).created_at ≡ m.created_at))
      → times key (stamp f ms) ≡ times key ms
  unfolding times stamp
  times-stamp f [] h = refl
  times-stamp f (m ∷ ms) h = ground (arith, h m, times-stamp f ms h)

  times-new :
      (req : SendMessageRequest) (id now : ℕ) (ms : List Message)
      → times key (new_message req id now ∷ ms)
        ≡ (if str_eq (deduplication_key req) key then now ∷ times key ms else times key ms)
  unfolding times row_key deduplication_key
  times-new req id now ms = refl

  -- The memory knows the last row of the key, unless that is long ago.
  abbrev IsCovered : ℕ → List ℕ → Option (ℕ × ℕ) → Type 0
  IsCovered now [] e = Unit
  IsCovered now (t ∷ ts) none = t + dedup_window_ms ≤ now
  IsCovered now (t ∷ ts) (some (id, at)) = at ≡ t

  abbrev IsKept : ℕ → State → Type 0
  IsKept now s =
      Dict.Distinct s.recent
      × (IsCovered now (times key s.messages) (Dict.get key s.recent)
          × AreSpaced (times key s.messages))

  later-IsCovered :
      (now wait : ℕ) (ts : List ℕ) (e : Option (ℕ × ℕ))
      → IsCovered now ts e
      → IsCovered (now + wait) ts e
  later-IsCovered now wait [] e h = tt
  later-IsCovered now wait (t ∷ ts) none h = omega (arith, h)
  later-IsCovered now wait (t ∷ ts) (some (id, at)) h = h

  kept-IsCovered :
      (now : ℕ) (ts : List ℕ) (e : Option (ℕ × ℕ))
      → IsCovered now ts e
      → IsCovered now ts (kept now e)
  kept-IsCovered now [] e h = tt
  kept-IsCovered now (t ∷ ts) none h = h
  kept-IsCovered now (t ∷ ts) (some (id, at)) h = ground (arith, h)

  fresh_id-After :
      (now : ℕ) (ts : List ℕ) (e : Option (ℕ × ℕ))
      → IsCovered now ts e
      → fresh_id e now ≡ none
      → After now ts
  fresh_id-After now [] e h n = tt
  fresh_id-After now (t ∷ ts) none h n = h
  fresh_id-After now (t ∷ ts) (some (id, at)) h n = ground (arith, h, n)

  -- Completing a task touches neither the messages nor the memory.
  pub auto_complete-messages :
      (env : Env) (s : State) (req : SendMessageRequest) (now : ℕ)
      → ((auto_complete env s req now).0.messages ≡ s.messages)
        × ((auto_complete env s req now).0.recent ≡ s.recent)
  unfolding auto_complete
  auto_complete-messages env s req now =
      ground (arith, complete_named-messages (task_id_of req.metadata))
    where
      complete_named-messages :
          (o : Option String)
          → ((complete_named env s req now o).0.messages ≡ s.messages)
            × ((complete_named env s req now o).0.recent ≡ s.recent)
      complete_named-messages none = (refl, refl)
      complete_named-messages (some id) = by_id (Dict.get id s.tasks)
        where
          by_id :
              (o : Option OrchestratorTask)
              → ((complete_by_id env s req id now o).0.messages ≡ s.messages)
                × ((complete_by_id env s req id now o).0.recent ≡ s.recent)
          by_id none = unfold complete_by_id in (refl, refl)
          by_id (some t) = unfold complete_by_id in ground arith

  pub route-times :
      (env : Env) (s : State) (req : SendMessageRequest) (id now : ℕ)
      → (times key (route env s req id now).0.messages ≡ times key s.messages)
        × ((route env s req id now).0.recent ≡ s.recent)
  unfolding route row_key
  route-times env s req id now =
      ground (arith, times-stamp (mark_injected id now) s.messages (λ m. ground arith))

  send_new-IsKept :
      (env : Env) (s : State) (req : SendMessageRequest) (now : ℕ)
      → IsKept now s
      → fresh_id (Dict.get (deduplication_key req) s.recent) now ≡ none
      → IsKept now (send_new env s req now).0
  unfolding send_new store
  send_new-IsKept env s req now h n =
      let stored = store s req now in
      ground (
        arith,
        h,
        n,
        auto_complete-messages env stored req now,
        route-times env (auto_complete env stored req now).0 req s.next_id now,
        times-new req s.next_id now s.messages,
        Dict.get-set (deduplication_key req) key (s.next_id, now) s.recent,
        Dict.set-Distinct (deduplication_key req) (s.next_id, now) s.recent h.0,
        eq_iff (deduplication_key req) key,
        fresh_id-After now (times key s.messages) (Dict.get key s.recent),
      )

  cleaned-IsKept :
      (s : State) (now : ℕ)
      → IsKept now s
      → IsKept now (record s { recent = cleanup_stale_dedup now s.recent })
  cleaned-IsKept s now h = ground (
    arith,
    h,
    cleanup-Distinct now s.recent h.0,
    get-cleanup key now s.recent h.0,
    kept-IsCovered now (times key s.messages) (Dict.get key s.recent) h.1.0,
  )

  send_or_drop-IsKept :
      (env : Env) (s : State) (req : SendMessageRequest) (now : ℕ) (o : Option ℕ)
      → IsKept now s
      → fresh_id (Dict.get (deduplication_key req) s.recent) now ≡ o
      → IsKept now (send_or_drop env s req now o).0
  send_or_drop-IsKept env s req now none h e = send_new-IsKept env s req now h e
  send_or_drop-IsKept env s req now (some id) h e = h

  send_message-IsKept :
      (env : Env) (s : State) (req : SendMessageRequest) (now : ℕ)
      → IsKept now s
      → IsKept now (send_message env s req now).0
  unfolding send_message
  send_message-IsKept env s req now h =
      let cleaned = record s { recent = cleanup_stale_dedup now s.recent } in
      ground (
        arith,
        h,
        send_or_drop-IsKept env cleaned req now
            (fresh_id (Dict.get (deduplication_key req) cleaned.recent) now)
            (cleaned-IsKept s now h) refl,
      )

  step-IsKept : (s : State) (now : ℕ) (e : Event) → IsKept now s → IsKept now (step s now e)
  unfolding step mark_processed mark_messages_read row_key
  step-IsKept s now (sends env req) h = send_message-IsKept env s req now h
  step-IsKept s now (processes id) h =
      ground (arith, h, times-stamp (processed id now) s.messages (λ m. ground arith))
  step-IsKept s now (reads ids) h =
      ground (arith, h, times-stamp (was_read ids now) s.messages (λ m. ground arith))

  later-IsKept : (s : State) (now wait : ℕ) → IsKept now s → IsKept (now + wait) s
  later-IsKept s now wait h =
      (h.0, (later-IsCovered now wait (times key s.messages) (Dict.get key s.recent) h.1.0, h.1.1))

  run-IsKept :
      (s : State) (now : ℕ) (es : List (ℕ × Event))
      → IsKept now s
      → AreSpaced (times key (run s now es).messages)
  unfolding run
  run-IsKept s now [] h = h.1.1
  run-IsKept s now ((wait, e) ∷ es) h =
      run-IsKept (step s (now + wait) e) (now + wait) es
        (step-IsKept s (now + wait) e (later-IsKept s now wait h))

  -- From the start of the process, whatever is sent, processed and read, in the order of time: between
  -- two rows with one key at least five seconds lie, so in particular between two rows with the same
  -- sender, receiver and type and the same first 200 characters.
  pub never_twice :
      (next_id : ℕ) (tasks : Dict OrchestratorTask) (workers activity : List String) (now : ℕ)
      (es : List (ℕ × Event))
      → AreSpaced (times key (run (fresh next_id tasks workers activity) now es).messages)
  unfolding times
  never_twice next_id tasks workers activity now es =
      run-IsKept (fresh next_id tasks workers activity) now es (tt, (tt, tt))
