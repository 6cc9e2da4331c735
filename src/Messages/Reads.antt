-- ===== src/Messages/Reads.antt =====
-- daemon/src/agents/message-router.ts: the reads of the table `messages`, and the marks on its rows.
use kithkit.Base.{
  ℕ, zero, suc, ◌-◌, ◌/◌, String, Bool, true, false, not, ◌&&◌, ◌||◌, List, [], ◌∷◌, ◌++◌, Option,
  none, some, filter, any, str_eq, leb, ltb, ◌==◌, if◌then◌else◌,
}
use kithkit.Base.Sort
use kithkit.Base.Js.{is_empty}
use kithkit.Messages.{Message, State, stamp}

abbrev is_set : Option ℕ → Bool
is_set none = false
is_set (some _) = true

unfoldable pub oldest_first : List Message → List Message
oldest_first [] = []
oldest_first (m ∷ ms) = oldest_first ms ++ m ∷ []

unfoldable pub pull_messages : State → String → List Message
unfolding oldest_first
pull_messages s agent =
    oldest_first (filter (λ m. str_eq m.to_agent agent && not (is_set m.processed_at)) s.messages)

unfoldable pub get_unread_messages : State → String → List Message
unfolding oldest_first
get_unread_messages s agent = oldest_first (
    filter (λ m. str_eq m.to_agent agent && not (is_set m.read_at) && is_set m.processed_at)
      s.messages)

abbrev pub of_kind : Option String → Message → Bool
of_kind none m = true
of_kind (some kind) m = is_empty kind || str_eq m.kind kind

unfoldable pub get_messages_since : State → String → ℕ → Option String → List Message
unfolding oldest_first
get_messages_since s agent since_id kind =
    oldest_first
      (filter (λ m. str_eq m.to_agent agent && ltb since_id m.id && of_kind kind m) s.messages)

abbrev pub processed : ℕ → ℕ → Message → Message
processed id now m = if m.id == id then record m { processed_at = some now } else m

unfoldable pub mark_processed : State → ℕ → ℕ → State
unfolding stamp
mark_processed s id now = record s { messages = stamp (processed id now) s.messages }

abbrev pub was_read : List ℕ → ℕ → Message → Message
was_read ids now m = if any (λ id. m.id == id) ids then record m { read_at = some now } else m

unfoldable pub mark_messages_read : State → List ℕ → ℕ → State
unfolding stamp
mark_messages_read s ids now = record s { messages = stamp (was_read ids now) s.messages }

-- `datetime` keeps the seconds of an instant.
abbrev since_then : Option ℕ → Message → Bool
since_then none m = true
since_then (some since) m = leb (since / 1000) (m.created_at / 1000)

-- The first `n`, or all where `n` is 0, as `if (opts?.limit)` takes a 0 for no limit.
unfoldable pub take : ℕ → List Message → List Message
take n [] = []
take n (m ∷ ms) = m ∷ (if n == 1 then [] else take (n - 1) ms)

unfoldable pub drop : ℕ → List Message → List Message
drop zero ms = ms
drop (suc n) [] = []
drop (suc n) (m ∷ ms) = drop n ms

abbrev created_before : Message → Message → Bool
created_before m n = leb m.created_at n.created_at

-- Of rows with the same `created_at`, which SQL leaves in any order, the first that was stored comes
-- first, or last where the order is descending. An option that is not given is `none`, or 0.
unfoldable pub get_messages :
    State
    → String
    → (since : Option ℕ) → (kind : Option String) → (desc : Bool) → (limit offset : ℕ)
    → List Message
unfolding oldest_first take drop Sort.sort
get_messages s agent since kind desc limit offset =
    let rows =
      filter
        (λ m.
          (str_eq m.to_agent agent || str_eq m.from_agent agent)
          && since_then since m
          && of_kind kind m)
        s.messages in
    take limit (
      drop offset (
        if desc
        then Sort.sort (λ m n. created_before n m) rows
        else Sort.sort created_before (oldest_first rows)))
