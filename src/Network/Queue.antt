-- ===== src/Network/Queue.antt =====
-- .a2a-sdk/packages/sdk/src/retry.ts: the class `RetryQueue` of failed deliveries.
-- The queued messages are objects of a store, and the map of message ids points into it: a delivery
-- that waits for its answer holds on to its object. `process` is asynchronous and the timer starts it
-- anew while an earlier one waits, so its loop is cut at the wait: `visit` is what it does at one
-- entry of the map, up to the call of the send function, and `answer` is what follows the call.
pub mod Attempts
use kithkit.Base.{
  ℕ, zero, suc, ◌+◌, String, Bool, true, false, not, ◌&&◌, ◌||◌, List, [], ◌∷◌, ◌++◌, Option, none,
  some, length, ltb, leb, ◌==◌, if◌then◌else◌,
}
use kithkit.Base.Dict
use kithkit.Base.Dict.{Dict}
use kithkit.Base.Heap

pub data Status : Type 0 where
  pending sending delivered failed expired : Status

-- `payload` and `groupId` are handed on as they are and are left out.
pub record QueuedMessage : Type 0 where
  pub message_id : String
  pub recipient : String
  pub status : Status
  pub attempts : ℕ
  pub created_at : ℕ
  pub next_retry_at : ℕ

-- `statuses` are the events that were emitted. `calls` are the objects that were handed to the send
-- function, `waiting` those of them that have no answer yet, each with the `now` of its `process`.
pub record State : Type 0 where
  pub objects : List QueuedMessage
  pub queue : Dict ℕ
  pub timer : Bool
  pub statuses : List (String × (Status × ℕ))
  pub calls : List ℕ
  pub waiting : List (ℕ × ℕ)

abbrev pub empty : State
empty = record { objects = []; queue = []; timer = false; statuses = []; calls = []; waiting = [] }

abbrev pub default_max_size : ℕ
default_max_size = 100

abbrev pub default_retry_delays : List ℕ
default_retry_delays = 10000 ∷ 30000 ∷ 90000 ∷ []

abbrev pub max_age : ℕ
max_age = 3600000

-- The delay at an index of the list. The code reads none beyond the end.
unfoldable pub delay_at : ℕ → List ℕ → ℕ
delay_at i [] = 0
delay_at zero (d ∷ ds) = d
delay_at (suc i) (d ∷ ds) = delay_at i ds

abbrev pub is_sending : Status → Bool
is_sending sending = true
is_sending pending = false
is_sending delivered = false
is_sending failed = false
is_sending expired = false

abbrev pub emit : String → Status → ℕ → State → State
emit id status attempts s = record s { statuses = s.statuses ++ (id, (status, attempts)) ∷ [] }

abbrev pub on_object : (QueuedMessage → QueuedMessage) → ℕ → State → State
on_object f obj s = record s { objects = Heap.write obj f s.objects }

abbrev pub drop : String → State → State
drop id s = record s { queue = Dict.delete id s.queue }

abbrev pub set_status : Status → QueuedMessage → QueuedMessage
set_status status m = record m { status = status }

abbrev pub start_sending : QueuedMessage → QueuedMessage
start_sending m = record m { status = sending; attempts = m.attempts + 1 }

-- The first entry of a waiting delivery, if there is one, and the others.
unfoldable pub without : ℕ → List (ℕ × ℕ) → List (ℕ × ℕ)
without obj [] = []
without obj ((o, now) ∷ l) = let rest = without obj l in if o == obj then l else (o, now) ∷ rest

unfoldable pub now_of : ℕ → List (ℕ × ℕ) → Option ℕ
now_of obj [] = none
now_of obj ((o, now) ∷ l) = let rest = now_of obj l in if o == obj then some now else rest

unfoldable pub stop : State → State
stop s = record s { timer = false }

unfoldable pub start : State → State
start s = record s { timer = true }

-- The end of `process`.
unfoldable pub finish_process : State → State
finish_process s = if length s.queue == 0 then record s { timer = false } else s

-- An entry of the map, with its object.
abbrev pub visit_object : State → String → ℕ → ℕ → Option QueuedMessage → State
visit_object s id now obj none = s
visit_object s id now obj (some m) =
    if ltb (m.created_at + max_age) now
    then drop id (emit id expired m.attempts (on_object (set_status expired) obj s))
    else if ltb now m.next_retry_at || is_sending m.status
    then s
    else record (emit id sending (m.attempts + 1) (on_object start_sending obj s)) {
      calls = s.calls ++ obj ∷ [];
      waiting = s.waiting ++ (obj, now) ∷ [];
    }

abbrev pub visit_entry : State → String → ℕ → Option ℕ → State
visit_entry s id now none = s
visit_entry s id now (some obj) = visit_object s id now obj (Heap.read obj s.objects)

unfoldable pub visit : State → String → ℕ → State
visit s id now = visit_entry s id now (Dict.get id s.queue)

pub data Event : Type 0 where
  enqueues : (id recipient : String) → (now : ℕ) → Event
  visits : (id : String) → (now : ℕ) → Event
  answers : (obj : ℕ) → (success : Bool) → Event
  starts stops finishes : Event

-- `delays` are the retry delays. The constructor takes the default where none are given.
module _ (delays : List ℕ) where
  abbrev pub new_message : String → String → ℕ → QueuedMessage
  new_message id recipient now = record {
    message_id = id;
    recipient = recipient;
    status = pending;
    attempts = 0;
    created_at = now;
    next_retry_at = now + delay_at 0 delays;
  }

  unfoldable pub enqueue : (max_size : ℕ) → State → String → String → ℕ → State × Bool
  unfolding delay_at
  enqueue max_size s id recipient now = if leb max_size (length s.queue) then (s, false) else (
    record (emit id pending 0 s) {
      objects = s.objects ++ new_message id recipient now ∷ [];
      queue = Dict.set id (length s.objects) s.queue;
      timer = true;
    },
    true,
  )

  abbrev pub retry_later : ℕ → QueuedMessage → QueuedMessage
  retry_later now m = record m {
    status = pending;
    next_retry_at = now + delay_at m.attempts delays;
  }

  abbrev pub answer_object : State → ℕ → ℕ → Bool → Option QueuedMessage → State
  answer_object s obj now success none = s
  answer_object s obj now true (some m) =
      drop m.message_id
        (emit m.message_id delivered m.attempts (on_object (set_status delivered) obj s))
  answer_object s obj now false (some m) =
      if leb (length delays) m.attempts
      then drop m.message_id
          (emit m.message_id failed m.attempts (on_object (set_status failed) obj s))
      else on_object (retry_later now) obj s

  abbrev pub answer_waiting : State → ℕ → Bool → Option ℕ → State
  answer_waiting s obj success none = s
  answer_waiting s obj success (some now) =
      answer_object (record s { waiting = without obj s.waiting }) obj now success
        (Heap.read obj s.objects)

  -- The send function's answer for an object that waits for one.
  unfoldable pub answer : State → ℕ → Bool → State
  unfolding without now_of delay_at
  answer s obj success = answer_waiting s obj success (now_of obj s.waiting)

  module _ (max_size : ℕ) where
    unfoldable pub step : State → Event → State
    unfolding enqueue visit answer start stop finish_process
    step s (enqueues id recipient now) = (enqueue max_size s id recipient now).0
    step s (visits id now) = visit s id now
    step s (answers obj success) = answer s obj success
    step s starts = start s
    step s stops = stop s
    step s finishes = finish_process s

    unfoldable pub run : State → List Event → State
    unfolding step
    run s [] = s
    run s (e ∷ es) = run (step s e) es
