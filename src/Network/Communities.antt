-- ===== src/Network/Communities.antt =====
-- .a2a-sdk/packages/sdk/src/community-manager.ts: which of its two relays a community uses, and the
-- parsing of a qualified name.
-- An event is the end of a call: calls overlap, and the code asks neither when a call began nor which
-- relay it went to.
pub mod Failover
pub mod Names
use kithkit.Base.{
  ℕ, zero, suc, ◌+◌, String, Bool, true, false, not, ◌&&◌, ◌||◌, List, [], ◌∷◌, ◌++◌, Option, none,
  some, ltb, leb, ◌==◌, if◌then◌else◌,
}
use kithkit.Base.Dict
use kithkit.Base.Dict.{Dict}

pub data Relay : Type 0 where
  primary failover : Relay

-- The relays' interfaces and the timer are left out, but for whether there is a failover relay.
pub record CommunityState : Type 0 where
  pub has_failover : Bool
  pub active_relay : Relay
  pub consecutive_failures : ℕ
  pub first_success_seen : Bool
  pub startup_failures : ℕ

abbrev pub new_community : Bool → CommunityState
new_community has_failover = record {
  has_failover = has_failover;
  active_relay = primary;
  consecutive_failures = 0;
  first_success_seen = false;
  startup_failures = 0;
}

-- How the call of a relay ends: with a response, or an error that is thrown.
pub data Outcome : Type 0 where
  responds : (ok : Bool) → (status : ℕ) → Outcome
  throws : Outcome

pub data Status : Type 0 where
  failed_over offline : Status

-- `getActiveRelayType` and `getActiveApi`.
abbrev pub uses_failover : CommunityState → Bool
uses_failover s = elim s.active_relay [ primary ↦ false | failover ↦ s.has_failover ]

abbrev pub is_primary : Relay → Bool
is_primary primary = true
is_primary failover = false

module _ (failover_threshold : ℕ) where
  unfoldable pub check_failover : CommunityState → CommunityState × List Status
  check_failover s =
      if ltb s.consecutive_failures failover_threshold
      then (s, [])
      else if is_primary s.active_relay && s.has_failover
      then (
        record s { active_relay = failover; consecutive_failures = 0; first_success_seen = true },
        failed_over ∷ [],
      )
      else (s, offline ∷ [])

  unfoldable pub track_failure : CommunityState → CommunityState × List Status
  unfolding check_failover
  track_failure s =
      if s.first_success_seen
      then check_failover (record s { consecutive_failures = s.consecutive_failures + 1 })
      else if leb failover_threshold (s.startup_failures + 1)
      then check_failover (record s {
        startup_failures = s.startup_failures + 1;
        first_success_seen = true;
        consecutive_failures = failover_threshold;
      })
      else (record s { startup_failures = s.startup_failures + 1 }, [])

  -- What `callApi` does at the end of the call.
  unfoldable pub end_call : CommunityState → Outcome → CommunityState × List Status
  unfolding track_failure
  end_call s (responds true status) =
      (record s { consecutive_failures = 0; first_success_seen = true }, [])
  end_call s (responds false status) =
      if status == 0 || leb 500 status then track_failure s else (s, [])
  end_call s throws = track_failure s

  unfoldable pub end_calls : CommunityState → List Outcome → CommunityState × List Status
  unfolding end_call
  end_calls s [] = (s, [])
  end_calls s (o ∷ os) =
      let (t, statuses) = end_call s o in let (u, more) = end_calls t os in (u, statuses ++ more)

-- A text is its list of code points.
pub record ParsedName : Type 0 where
  pub username : List ℕ
  pub hostname : Option (List ℕ)

abbrev at_sign : ℕ
at_sign = 64

-- What stands before and after the first `@`.
unfoldable pub split_at_sign : List ℕ → Option (List ℕ × List ℕ)
split_at_sign [] = none
split_at_sign (c ∷ cs) =
    let rest = split_at_sign cs in
    if c == at_sign
    then some ([], cs)
    else elim rest [ none ↦ none | some (before, after) ↦ some (c ∷ before, after) ]

abbrev parsed : List ℕ → Option (List ℕ × List ℕ) → ParsedName
parsed name none = record { username = name; hostname = none }
parsed name (some ([], after)) = record { username = name; hostname = none }
parsed name (some (c ∷ cs, [])) = record { username = name; hostname = none }
parsed name (some (c ∷ cs, d ∷ ds)) = record { username = c ∷ cs; hostname = some (d ∷ ds) }

unfoldable pub parse_qualified_name : List ℕ → ParsedName
unfolding split_at_sign
parse_qualified_name name = parsed name (split_at_sign name)
