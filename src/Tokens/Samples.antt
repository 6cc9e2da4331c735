-- ===== src/Tokens/Samples.antt =====
-- daemon/src/auth/agent-tokens.ts at concrete tokens.
use kithkit.Base.{
  String, List, [], ◌∷◌, none, some, any, if◌then◌else◌, ◌≡◌, ◌≢◌, refl, arith, eq_iff,
}
use kithkit.Base.Dict
use kithkit.Tokens.{
  State, issue_token, verify_token, Event, revokes_job, asks_daemon, restarts, run,
}
use kithkit.Tokens.Verdict.{ends, verified_until_revoked}

abbrev start : State
start = record { rows = []; daemon_token = none }

abbrev worker_row : State
worker_row = record {
  rows =
      ("w1", record { role = "worker"; job_id = some "j1"; created_at = 5; revoked_at = none })
      ∷ [];
  daemon_token = none;
}

abbrev history : List Event
history = asks_daemon "d1" 6 ∷ restarts ∷ asks_daemon "d2" 7 ∷ revokes_job "j1" 8 ∷ []

issued_row : issue_token start "w1" "worker" (some "j1") 5 ≡ some worker_row
unfolding issue_token Dict.has Dict.get Dict.set
issued_row = refl

worker_is_no_daemon : ◌≢◌ {A = String} "worker" "daemon"
worker_is_no_daemon = λ e. ground (arith, (eq_iff "worker" "daemon").1 e)

verified_until_revoked_example : verify_token (run worker_row history) "w1" ≡ (
    if any (ends "w1" (some "j1")) history
    then none
    else some (record { role = "worker"; job_id = some "j1" }))
verified_until_revoked_example =
    verified_until_revoked "w1" "worker" (some "j1") worker_is_no_daemon start worker_row 5 history
      issued_row
