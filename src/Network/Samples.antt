-- ===== src/Network/Samples.antt =====
-- The retries at concrete inputs.
use kithkit.Base.{◌≤◌, true, false, List, [], ◌∷◌, some, length, ◌≡◌, refl, leb, arith}
use kithkit.Base.Dict
use kithkit.Base.Heap
use kithkit.Network.Registration.{
  World, Action, calls, succeeds, records_retrying, sleeps, Ending, registered,
  run_registration_retry_loop, retry_loop, round, EndsWell, ten_rounds_suffice,
}
use kithkit.Network.Queue.{
  Event, enqueues, visits, answers, empty, run, step, enqueue, visit, answer, delay_at, now_of,
  without, default_retry_delays, default_max_size,
}
use kithkit.Network.Communities.{
  Outcome, responds, throws, failed_over, primary, new_community, end_calls, end_call,
  track_failure, check_failover,
}
use kithkit.Network.Communities.Failover.{count_calls, failover_counts}
use kithkit.Network.Queue.Attempts.{calls_of, sent_at_most}

-- The third attempt succeeds.
abbrev third : World
third = record { aborted = λ attempt. false; registers = λ attempt. leb 2 attempt }

backs_off :
    run_registration_retry_loop third 10
    ≡ some (
      calls
          ∷ records_retrying
          ∷ sleeps 5000
          ∷ calls
          ∷ records_retrying
          ∷ sleeps 10000
          ∷ calls
          ∷ succeeds
          ∷ [],
      registered,
    )
unfolding run_registration_retry_loop retry_loop round
backs_off = refl

ten_rounds_suffice_example :
    (actions : List Action) × ((ending : Ending) × ((run_registration_retry_loop third 10
          ≡ some (actions, ending))
        × EndsWell third 0 actions ending))
ten_rounds_suffice_example = ten_rounds_suffice third

-- Two rounds of the timer meet the message while its first delivery waits.
abbrev history : List Event
history =
    enqueues "m" "r2" 0
    ∷ visits "m" 10000
    ∷ visits "m" 11000
    ∷ answers 0 false
    ∷ visits "m" 12000
    ∷ visits "m" 40000
    ∷ answers 0 true
    ∷ []

two_calls : (run default_retry_delays default_max_size empty history).calls ≡ 0 ∷ 0 ∷ []
unfolding run step enqueue visit answer delay_at now_of without Dict.get Dict.set Dict.delete
    Heap.read Heap.write
two_calls = refl

sent_at_most_example :
    calls_of 0 (run default_retry_delays default_max_size empty history).calls
    ≤ length default_retry_delays
sent_at_most_example = sent_at_most default_retry_delays 0 default_max_size history (omega arith)

-- Two errors of the server, a refusal, and a call that throws.
abbrev troubles : List Outcome
troubles =
    responds false 503 ∷ responds false 404 ∷ throws ∷ responds false 0 ∷ responds true 200 ∷ []

fails_over : (end_calls 3 (new_community true) troubles).1 ≡ failed_over ∷ []
unfolding end_calls end_call track_failure check_failover
fails_over = refl

failover_counts_example :
    ((end_calls 3 (new_community true) troubles).0.active_relay
      ≡ (count_calls 3 true (record { relay = primary; failures = 0 }) troubles).0.relay)
    × ((end_calls 3 (new_community true) troubles).1
        ≡ (count_calls 3 true (record { relay = primary; failures = 0 }) troubles).1)
failover_counts_example = failover_counts 3 true troubles (omega arith)
