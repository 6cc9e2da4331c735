-- ===== src/Network/Communities/Failover.antt =====
-- .a2a-sdk/packages/sdk/src/community-manager.ts: the failover against a plain count of failures.
use kithkit.Base.{
  ℕ, ◌+◌, ◌≤◌, Bool, true, false, ◌&&◌, ◌||◌, List, [], ◌∷◌, ◌++◌, ltb, leb, ◌==◌, if◌then◌else◌,
  ◌≡◌, refl, ap, ◌∙◌, arith, Bool-cases, inl, inr,
}
use kithkit.Network.Communities.{
  Relay, primary, failover, CommunityState, new_community, Outcome, responds, throws, Status,
  failed_over, offline, is_primary, check_failover, track_failure, end_call, end_calls,
}

-- What the documentation promises: a relay, and how many calls in a row have failed on account of the
-- relay.
pub record Streak : Type 0 where
  pub relay : Relay
  pub failures : ℕ

pub data Verdict : Type 0 where
  good bad neutral : Verdict

abbrev pub verdict : Outcome → Verdict
verdict (responds true status) = good
verdict (responds false status) = if status == 0 || leb 500 status then bad else neutral
verdict throws = bad

module _ (threshold : ℕ) (has_failover : Bool) where
  abbrev pub fail : Relay → (failures : ℕ) → Streak × List Status
  fail relay failures =
      if ltb failures threshold
      then (record { relay = relay; failures = failures }, [])
      else if is_primary relay && has_failover
      then (record { relay = failover; failures = 0 }, failed_over ∷ [])
      else (record { relay = relay; failures = failures }, offline ∷ [])

  unfoldable pub count_call : Streak → Verdict → Streak × List Status
  count_call s good = (record { relay = s.relay; failures = 0 }, [])
  count_call s neutral = (s, [])
  count_call s bad = fail s.relay (s.failures + 1)

  unfoldable pub count_calls : Streak → List Outcome → Streak × List Status
  unfolding count_call
  count_calls s [] = (s, [])
  count_calls s (o ∷ os) =
      let (t, statuses) = count_call s (verdict o) in
      let (u, more) = count_calls t os in (u, statuses ++ more)

  -- The streak of a community: during the grace of the start its failures are counted apart.
  abbrev pub streak : CommunityState → Streak
  streak s = record {
    relay = s.active_relay;
    failures = if s.first_success_seen then s.consecutive_failures else s.startup_failures;
  }

  abbrev IsFit : CommunityState → Type 0
  IsFit s =
      (s.has_failover ≡ has_failover)
      × (s.first_success_seen ≡ false → s.startup_failures + 1 ≤ threshold)

  track_failure-streak :
      (s : CommunityState)
      → 1 ≤ threshold
      → IsFit s
      → (streak (track_failure threshold s).0 ≡ (count_call (streak s) bad).0)
        × (((track_failure threshold s).1 ≡ (count_call (streak s) bad).1)
            × IsFit (track_failure threshold s).0)
  unfolding track_failure check_failover count_call
  track_failure-streak s t h = elim (Bool-cases s.first_success_seen) [
    | inl seen ↦ elim (Bool-cases (is_primary s.active_relay && s.has_failover)) [
      | inl p ↦ ground (arith, t, h, seen, p)
      | inr p ↦ ground (arith, t, h, seen, p)
    ]
    | inr grace ↦ elim (Bool-cases (is_primary s.active_relay && s.has_failover)) [
      | inl p ↦ ground (arith, t, h, grace, p, h.1 grace)
      | inr p ↦ ground (arith, t, h, grace, p, h.1 grace)
    ]
  ]

  end_call-streak :
      (s : CommunityState) (o : Outcome)
      → 1 ≤ threshold
      → IsFit s
      → (streak (end_call threshold s o).0 ≡ (count_call (streak s) (verdict o)).0)
        × (((end_call threshold s o).1 ≡ (count_call (streak s) (verdict o)).1)
            × IsFit (end_call threshold s o).0)
  unfolding end_call count_call
  end_call-streak s (responds true status) t h = (refl, (refl, (h.0, λ e. ground (arith, e))))
  end_call-streak s (responds false status) t h =
      elim (Bool-cases (status == 0 || leb 500 status)) [
        | inl b ↦ rw (b) (track_failure-streak s t h)
        | inr b ↦ rw (b) (refl, (refl, h))
      ]
  end_call-streak s throws t h = track_failure-streak s t h

  end_calls-streak :
      (s : CommunityState) (os : List Outcome)
      → 1 ≤ threshold
      → IsFit s
      → (streak (end_calls threshold s os).0 ≡ (count_calls (streak s) os).0)
        × ((end_calls threshold s os).1 ≡ (count_calls (streak s) os).1)
  unfolding end_calls count_calls
  end_calls-streak s [] t h = (refl, refl)
  end_calls-streak s (o ∷ os) t h =
      let (same, (events, fit)) = end_call-streak s o t h in
      let (same_end, events_end) = end_calls-streak (end_call threshold s o).0 os t fit in
      (
        same_end ∙ ap (λ u. (count_calls u os).0) same,
        ap (λ l. l ++ (end_calls threshold (end_call threshold s o).0 os).1) events
            ∙ ap (λ l. (count_call (streak s) (verdict o)).1 ++ l)
                (events_end ∙ ap (λ u. (count_calls u os).1) same),
      )

  -- Where the threshold is at least 1, a new community uses the relay, and reports the statuses, that
  -- `count_calls` gives, whatever its calls end with: a plain count of the calls in a row that throw, or
  -- are refused with a status of 0 or from 500 on. A call that succeeds sets it to 0, another refusal
  -- leaves it. At the threshold the primary relay is given up for the failover relay, if there is one,
  -- with the count at 0, and else each further failure reports that the community is offline.
  pub failover_counts :
      (os : List Outcome)
      → 1 ≤ threshold
      → ((end_calls threshold (new_community has_failover) os).0.active_relay
          ≡ (count_calls (record { relay = primary; failures = 0 }) os).0.relay)
        × ((end_calls threshold (new_community has_failover) os).1
            ≡ (count_calls (record { relay = primary; failures = 0 }) os).1)
  failover_counts os t =
      let (same, events) =
        end_calls-streak (new_community has_failover) os t (refl, λ e. omega (arith, t)) in
      (ap (λ u. u.relay) same, events)
