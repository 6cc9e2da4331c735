-- ===== src/Watchdog/Context.antt =====
-- daemon/src/automation/tasks/context-watchdog.ts: the warnings to comms about a full context.
-- Percentages are whole numbers, and a tier is known by its threshold.
pub mod Once
use kithkit.Base.{
  ℕ, ◌+◌, ◌*◌, String, Bool, true, false, not, ◌&&◌, List, [], ◌∷◌, Option, none, some, any, str_eq,
  ltb, leb, ◌==◌, if◌then◌else◌,
}

pub record ContextData : Type 0 where
  pub remaining_percentage : Option ℕ
  pub used_percentage : Option ℕ
  pub session_id : Option String

-- A file and when it was written; `content` is `none` where it holds no JSON, or `null`.
pub record ContextFile : Type 0 where
  pub mtime : ℕ
  pub content : Option ContextData

abbrev stale_seconds : ℕ
stale_seconds = 3600

unfoldable pub read_context_file : ℕ → Option ContextFile → Option ContextData
read_context_file now none = none
read_context_file now (some f) =
    if ltb (f.mtime + stale_seconds * 1000) now then none else f.content

abbrev pub comms_tiers : List ℕ
comms_tiers = 50 ∷ 65 ∷ []

-- What the module remembers of the session of comms.
pub record Tracking : Type 0 where
  pub fired_tiers : List ℕ
  pub session_id : Option String
  pub file_miss_count : ℕ

abbrev pub has_fired : ℕ → List ℕ → Bool
has_fired tier fired = any (λ t. t == tier) fired

-- What a tick finds: the time, the file, and what `injectText` returns for the message of a tier. The
-- text may have arrived though it returns false, where its delivery could not be verified.
pub record Look : Type 0 where
  pub now : ℕ
  pub file : Option ContextFile
  pub injected : ℕ → Bool

abbrev pub or_zero : Option ℕ → ℕ
or_zero none = 0
or_zero (some n) = n

abbrev pub session_of : ContextData → String
session_of d = elim d.session_id [ none ↦ "unknown" | some id ↦ id ]

abbrev pub is_session : String → Option String → Bool
is_session id none = false
is_session id (some s) = str_eq s id

abbrev pub enter : String → Tracking → Tracking
enter id s =
    if is_session id s.session_id then s else record s { fired_tiers = []; session_id = some id }

-- A tier whose message is injected, and what the injection returned.
abbrev pub Attempt : Type 0
Attempt = ℕ × Bool

-- The tiers that have fired, and the injections made.
unfoldable pub process_tiers : (ℕ → Bool) → ℕ → List ℕ → List ℕ → List ℕ × List Attempt
process_tiers injected used [] fired = (fired, [])
process_tiers injected used (tier ∷ tiers) fired =
    let fires = process_tiers injected used tiers (tier ∷ fired) in
    let passes = process_tiers injected used tiers fired in
    if leb tier used && not (has_fired tier fired)
    then (if injected tier
        then (fires.0, (tier, true) ∷ fires.1)
        else (passes.0, (tier, false) ∷ passes.1))
    else passes

abbrev pub with_fired : Tracking → List ℕ × List Attempt → Tracking × List Attempt
with_fired s p = (record s { fired_tiers = p.0 }, p.1)

abbrev pub look_at : List ℕ → Look → Tracking → Option ContextData → Tracking × List Attempt
look_at tiers v s none = (record s { file_miss_count = s.file_miss_count + 1 }, [])
look_at tiers v s (some d) =
    let t = enter (session_of d) (record s { file_miss_count = 0 }) in
    with_fired t (process_tiers v.injected (or_zero d.used_percentage) tiers t.fired_tiers)

-- The new state, and the injections made.
unfoldable pub monitor_comms : Look → Tracking → Tracking × List Attempt
unfolding read_context_file process_tiers
monitor_comms v s = look_at comms_tiers v s (read_context_file v.now v.file)
