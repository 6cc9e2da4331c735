-- ===== src/Network/Queue/Attempts.antt =====
-- .a2a-sdk/packages/sdk/src/retry.ts: how often a message is sent.
use kithkit.Base.{
  ℕ, ◌+◌, ◌≤◌, ◌<◌, String, Bool, true, false, ◌||◌, List, [], ◌∷◌, ◌++◌, Option, none, some,
  length, ltb, leb, ◌==◌, if◌then◌else◌, ◌≡◌, refl, inl, inr, arith, Bool-cases, Option-cases,
  eq_iff,
}
use kithkit.Base.Dict
use kithkit.Base.Dict.{Dict}
use kithkit.Base.Heap
use kithkit.Network.Queue.{
  Status, pending, sending, delivered, failed, expired, QueuedMessage, State, empty, max_age,
  is_sending, set_status, start_sending, without, now_of, stop, start, finish_process, Event,
  enqueues, visits, answers, starts, stops, finishes, new_message, enqueue, visit_object, visit,
  retry_later, answer_object, answer, step, run,
}

-- How often the send function was called for an object.
unfoldable pub calls_of : ℕ → List ℕ → ℕ
calls_of obj [] = 0
calls_of obj (o ∷ os) = let rest = calls_of obj os in if o == obj then rest + 1 else rest

calls_of-append :
    (obj o : ℕ) (l : List ℕ)
    → calls_of obj (l ++ o ∷ []) ≡ (if o == obj then calls_of obj l + 1 else calls_of obj l)
unfolding calls_of
calls_of-append obj o [] = ground arith
calls_of-append obj o (p ∷ l) = ground (arith, calls_of-append obj o l)

read-length : {A : Type 0} (l : List A) → Heap.read (length l) l ≡ none
unfolding Heap.read
read-length [] = refl
read-length (a ∷ l) = read-length l

module _ (delays : List ℕ) where
  -- A queued message waits for its turn with an attempt left, or is being sent.
  abbrev Queued : Status → ℕ → Type 0
  Queued pending n = n < length delays
  Queued sending n = n ≤ length delays
  Queued delivered n = ◌≡◌ {A = ℕ} 1 0
  Queued failed n = ◌≡◌ {A = ℕ} 1 0
  Queued expired n = ◌≡◌ {A = ℕ} 1 0

  abbrev QueuedAt : String → Option QueuedMessage → Type 0
  QueuedAt id none = ◌≡◌ {A = ℕ} 1 0
  QueuedAt id (some m) = (m.message_id ≡ id) × Queued m.status m.attempts

  abbrev Entry : List QueuedMessage → String → Option ℕ → Type 0
  Entry objects id none = Unit
  Entry objects id (some obj) = QueuedAt id (Heap.read obj objects)

  abbrev IsQueue : List QueuedMessage → Dict ℕ → Type 0
  IsQueue objects queue = (id : String) → Entry objects id (Dict.get id queue)

  write-IsQueue :
      (obj : ℕ) (f : QueuedMessage → QueuedMessage) (objects : List QueuedMessage) (queue : Dict ℕ)
      → IsQueue objects queue
      → ((id : String)
          → Dict.get id queue ≡ some obj
          → QueuedAt id (Heap.written f (Heap.read obj objects)))
      → IsQueue (Heap.write obj f objects) queue
  write-IsQueue obj f objects queue h g id = elim (Option-cases (Dict.get id queue)) [
    | inl e ↦ ground (arith, e)
    | inr (o, e) ↦ ground (arith, e, h id, g id, Heap.read-write obj o f objects)
  ]

  delete-IsQueue :
      (id : String) (objects : List QueuedMessage) (queue : Dict ℕ)
      → IsQueue objects queue
      → IsQueue objects (Dict.delete id queue)
  delete-IsQueue id objects queue h j = ground (arith, h j, Dict.get-delete id j queue)

  -- The object of an entry ends in a state that no entry may have, and its id is dropped.
  end-IsQueue :
      (obj : ℕ) (status : Status) (m : QueuedMessage) (objects : List QueuedMessage)
      (queue : Dict ℕ)
      → IsQueue objects queue
      → Heap.read obj objects ≡ some m
      → IsQueue (Heap.write obj (set_status status) objects) (Dict.delete m.message_id queue)
  end-IsQueue obj status m objects queue h e =
      write-IsQueue obj (set_status status) objects (Dict.delete m.message_id queue)
        (delete-IsQueue m.message_id objects queue h)
        (λ id k.
          ground (arith, h id, e, k, Dict.get-delete m.message_id id queue, eq_iff m.message_id id))

  append-IsQueue :
      (id : String) (m : QueuedMessage) (objects : List QueuedMessage) (queue : Dict ℕ)
      → IsQueue objects queue
      → QueuedAt id (some m)
      → IsQueue (objects ++ m ∷ []) (Dict.set id (length objects) queue)
  append-IsQueue id m objects queue h q j = elim (Option-cases (Dict.get j queue)) [
    | inl e ↦ ground (
      arith,
      q,
      e,
      Dict.get-set id j (length objects) queue,
      eq_iff id j,
      Heap.read-append (length objects) objects m,
    )
    | inr (o, e) ↦ ground (
      arith,
      q,
      e,
      h j,
      Dict.get-set id j (length objects) queue,
      eq_iff id j,
      Heap.read-append (length objects) objects m,
      Heap.read-append o objects m,
      read-length objects,
    )
  ]

  abbrev CountOf : ℕ → Option QueuedMessage → Type 0
  CountOf n none = n ≡ 0
  CountOf n (some m) = (n ≡ m.attempts) × (m.attempts ≤ length delays)

  module _ (obj : ℕ) where
    abbrev IsCounted : State → Type 0
    IsCounted s =
        IsQueue s.objects s.queue × CountOf (calls_of obj s.calls) (Heap.read obj s.objects)

    enqueue-IsCounted :
        (max_size : ℕ) (s : State) (id recipient : String) (now : ℕ)
        → 0 < length delays
        → IsCounted s
        → IsCounted (enqueue delays max_size s id recipient now).0
    unfolding enqueue
    enqueue-IsCounted max_size s id recipient now d h = ground (
      arith,
      d,
      h,
      Heap.read-append obj s.objects (new_message delays id recipient now),
      append-IsQueue id (new_message delays id recipient now) s.objects s.queue h.0,
      read-length s.objects,
    )

    visit_object-IsCounted :
        (s : State) (id : String) (now o : ℕ) (r : Option QueuedMessage)
        → Dict.get id s.queue ≡ some o
        → Heap.read o s.objects ≡ r
        → IsCounted s
        → IsCounted (visit_object s id now o r)
    visit_object-IsCounted s id now o none g e h = h
    visit_object-IsCounted s id now o (some m) g e h =
        elim (Bool-cases (ltb (m.created_at + max_age) now)) [
          | inl old ↦ ground (
            arith,
            old,
            e,
            h,
            end-IsQueue o expired m s.objects s.queue h.0,
            h.0 id,
            g,
            Heap.read-write o obj (set_status expired) s.objects,
          )
          | inr young ↦ elim (Bool-cases (ltb now m.next_retry_at || is_sending m.status)) [
            | inl wait ↦ ground (arith, young, wait, h)
            | inr ready ↦ ground (
              arith,
              young,
              ready,
              e,
              g,
              h,
              h.0 id,
              write-IsQueue o start_sending s.objects s.queue h.0
                  (λ j k. ground (arith, e, k, h.0 id, h.0 j, g, ready)),
              Heap.read-write o obj start_sending s.objects,
              calls_of-append obj o s.calls,
            )
          ]
        ]

    visit-IsCounted : (s : State) (id : String) (now : ℕ) → IsCounted s → IsCounted (visit s id now)
    unfolding visit
    visit-IsCounted s id now h = elim (Option-cases (Dict.get id s.queue)) [
      | inl e ↦ rw (e) h
      | inr (o, e) ↦ rw (e) (visit_object-IsCounted s id now o (Heap.read o s.objects) e refl h)
    ]

    answer_object-IsCounted :
        (s : State) (o now : ℕ) (success : Bool) (r : Option QueuedMessage)
        → Heap.read o s.objects ≡ r
        → IsCounted s
        → IsCounted (answer_object delays s o now success r)
    answer_object-IsCounted s o now success none e h = h
    answer_object-IsCounted s o now true (some m) e h = ground (
      arith,
      e,
      h,
      end-IsQueue o delivered m s.objects s.queue h.0,
      Heap.read-write o obj (set_status delivered) s.objects,
    )
    answer_object-IsCounted s o now false (some m) e h =
        elim (Bool-cases (leb (length delays) m.attempts)) [
          | inl last ↦ ground (
            arith,
            last,
            e,
            h,
            end-IsQueue o failed m s.objects s.queue h.0,
            Heap.read-write o obj (set_status failed) s.objects,
          )
          | inr left ↦ ground (
            arith,
            left,
            e,
            h,
            write-IsQueue o (retry_later delays now) s.objects s.queue h.0
                (λ j k. ground (arith, e, k, h.0 j, left)),
            Heap.read-write o obj (retry_later delays now) s.objects,
          )
        ]

    answer-IsCounted :
        (s : State) (o : ℕ) (success : Bool) → IsCounted s → IsCounted (answer delays s o success)
    unfolding answer
    answer-IsCounted s o success h = elim (Option-cases (now_of o s.waiting)) [
      | inl e ↦ rw (e) h
      | inr (now, e) ↦ rw (e) (
          answer_object-IsCounted (record s { waiting = without o s.waiting }) o now success
            (Heap.read o s.objects) refl h)
    ]

    step-IsCounted :
        (max_size : ℕ) (s : State) (e : Event)
        → 0 < length delays
        → IsCounted s
        → IsCounted (step delays max_size s e)
    unfolding step start stop finish_process
    step-IsCounted max_size s (enqueues id recipient now) d h =
        enqueue-IsCounted max_size s id recipient now d h
    step-IsCounted max_size s (visits id now) d h = visit-IsCounted s id now h
    step-IsCounted max_size s (answers o success) d h = answer-IsCounted s o success h
    step-IsCounted max_size s starts d h = h
    step-IsCounted max_size s stops d h = h
    step-IsCounted max_size s finishes d h = ground (arith, h)

    run-IsCounted :
        (max_size : ℕ) (s : State) (es : List Event)
        → 0 < length delays
        → IsCounted s
        → IsCounted (run delays max_size s es)
    unfolding run
    run-IsCounted max_size s [] d h = h
    run-IsCounted max_size s (e ∷ es) d h =
        run-IsCounted max_size (step delays max_size s e) es d (step-IsCounted max_size s e d h)

    empty-IsCounted : IsCounted empty
    unfolding Dict.get Heap.read calls_of
    empty-IsCounted = ((λ id. tt), refl)

    calls_of_le : (n : ℕ) (r : Option QueuedMessage) → CountOf n r → n ≤ length delays
    calls_of_le n none h = omega (arith, h)
    calls_of_le n (some m) h = omega (arith, h)

    -- A message that is queued once is handed to the send function at most as often as there are
    -- retry delays, of which there is at least one: whatever is queued, however the rounds of the timer and
    -- the answers of the send function interleave, and though a later round may start before an
    -- earlier one has ended.
    pub sent_at_most :
        (max_size : ℕ) (es : List Event)
        → 0 < length delays
        → calls_of obj (run delays max_size empty es).calls ≤ length delays
    sent_at_most max_size es d =
        let s = run delays max_size empty es in
        calls_of_le (calls_of obj s.calls) (Heap.read obj s.objects)
          (run-IsCounted max_size empty es d empty-IsCounted).1
