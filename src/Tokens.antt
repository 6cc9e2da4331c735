-- ===== src/Tokens.antt =====
-- daemon/src/auth/agent-tokens.ts: the tokens of the agents, in the table `agent_tokens`.
-- A row stands under its token, the table's primary key. Random bytes are an argument. The credential
-- guard, which is told to read the tokens again, is not part of the state.
pub mod Verdict
pub mod Daemon
mod Samples
use kithkit.Base.{
  ℕ, String, Bool, true, false, ◌&&◌, List, [], ◌∷◌, Option, none, some, str_eq, if◌then◌else◌,
}
use kithkit.Base.Dict
use kithkit.Base.Dict.{Dict}

pub record TokenRow : Type 0 where
  pub role : String
  pub job_id : Option String
  pub created_at : ℕ
  pub revoked_at : Option ℕ

pub record TokenIdentity : Type 0 where
  pub role : String
  pub job_id : Option String

-- `daemon_token` is in memory, the rows outlast a restart.
pub record State : Type 0 where
  pub rows : Dict TokenRow
  pub daemon_token : Option String

abbrev new_row : String → Option String → ℕ → TokenRow
new_row role job_id now = record {
  role = role;
  job_id = job_id;
  created_at = now;
  revoked_at = none;
}

-- `none` where the INSERT fails, on a token that is there.
unfoldable pub issue_token : State → String → String → Option String → ℕ → Option State
issue_token s token role job_id now =
    if Dict.has token s.rows
    then none
    else some (record s { rows = Dict.set token (new_row role job_id now) s.rows })

abbrev pub is_active : TokenRow → Bool
is_active r = elim r.revoked_at [ none ↦ true | some _ ↦ false ]

abbrev pub identity : Option TokenRow → Option TokenIdentity
identity none = none
identity (some r) = if is_active r then some (record { role = r.role; job_id = r.job_id }) else none

unfoldable pub verify_token : State → String → Option TokenIdentity
verify_token s token = identity (Dict.get token s.rows)

abbrev pub revoke : ℕ → TokenRow → TokenRow
revoke now r = record r { revoked_at = some now }

unfoldable pub revoke_token : State → String → ℕ → State
revoke_token s token now = record s { rows = Dict.modify token (revoke now) s.rows }

-- `UPDATE agent_tokens SET revoked_at = ... WHERE test`
unfoldable pub revoke_where : (TokenRow → Bool) → ℕ → Dict TokenRow → Dict TokenRow
revoke_where test now [] = []
revoke_where test now ((token, r) ∷ rows) =
    (token, if test r then revoke now r else r) ∷ revoke_where test now rows

abbrev pub is_text : Option String → String → Bool
is_text none s = false
is_text (some t) s = str_eq t s

unfoldable pub revoke_tokens_by_job_id : State → String → ℕ → State
unfolding revoke_where
revoke_tokens_by_job_id s job_id now = record s {
  rows = revoke_where (λ r. is_text r.job_id job_id && is_active r) now s.rows;
}

abbrev pub is_daemon : TokenRow → Bool
is_daemon r = str_eq r.role "daemon" && is_active r

abbrev keep_token : String → Option State → Option (State × String)
keep_token token none = none
keep_token token (some s) = some (record s { daemon_token = some token }, token)

-- The text of `_daemonToken` is never empty, so it counts as true. `fresh` are the random bytes.
abbrev pub mint : State → String → ℕ → Option String → Option (State × String)
mint s fresh now (some token) = some (s, token)
mint s fresh now none =
    keep_token fresh
      (issue_token (record s { rows = revoke_where is_daemon now s.rows }) fresh "daemon" none now)

unfoldable pub get_daemon_token : State → String → ℕ → Option (State × String)
unfolding issue_token revoke_where
get_daemon_token s fresh now = mint s fresh now s.daemon_token

-- What happens to the tokens. An error leaves them as they are, but for the revocations that come
-- before the INSERT of a daemon token.
pub data Event : Type 0 where
  issues : (token role : String) → (job_id : Option String) → (now : ℕ) → Event
  revokes revokes_job : String → (now : ℕ) → Event
  asks_daemon : (fresh : String) → (now : ℕ) → Event
  restarts : Event

abbrev pub issued : State → Option State → State
issued s none = s
issued s (some t) = t

abbrev pub minted : State → ℕ → Option String → Option (State × String) → State
minted s now token none = record s { rows = revoke_where is_daemon now s.rows }
minted s now token (some (t, u)) = t

unfoldable pub step : State → Event → State
unfolding issue_token revoke_token revoke_tokens_by_job_id get_daemon_token
step s (issues token role job_id now) = issued s (issue_token s token role job_id now)
step s (revokes token now) = revoke_token s token now
step s (revokes_job job_id now) = revoke_tokens_by_job_id s job_id now
step s (asks_daemon fresh now) = minted s now s.daemon_token (get_daemon_token s fresh now)
step s restarts = record s { daemon_token = none }

unfoldable pub run : State → List Event → State
unfolding step
run s [] = s
run s (e ∷ es) = run (step s e) es
