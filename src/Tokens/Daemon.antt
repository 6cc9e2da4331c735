-- ===== src/Tokens/Daemon.antt =====
-- daemon/src/auth/agent-tokens.ts: the daemon's own token.
use kithkit.Base.{
  ℕ, ◌+◌, ◌≤◌, String, Bool, ◌&&◌, List, [], ◌∷◌, Option, none, some, str_eq, if◌then◌else◌, ◌≡◌,
  ◌≢◌, refl, inl, inr, arith, eq_iff, Option-cases,
}
use kithkit.Base.Dict
use kithkit.Base.Dict.{Dict}
use kithkit.Tokens.{
  TokenRow, State, issue_token, is_active, revoke, revoke_token, revoke_where, is_text,
  revoke_tokens_by_job_id, is_daemon, mint, get_daemon_token, Event, issues, revokes, revokes_job,
  asks_daemon, restarts, issued, minted, step, run,
}

-- How many active tokens of the daemon there are.
unfoldable pub daemons : Dict TokenRow → ℕ
daemons [] = 0
daemons ((token, r) ∷ rows) = let rest = daemons rows in if is_daemon r then rest + 1 else rest

daemons-revoke_where :
    (now : ℕ) (rows : Dict TokenRow) → daemons (revoke_where is_daemon now rows) ≡ 0
unfolding daemons revoke_where
daemons-revoke_where now [] = refl
daemons-revoke_where now ((token, r) ∷ rows) = ground (arith, daemons-revoke_where now rows)

daemons-revoke_where-le :
    (test : TokenRow → Bool) (now : ℕ) (rows : Dict TokenRow)
    → daemons (revoke_where test now rows) ≤ daemons rows
unfolding daemons revoke_where
daemons-revoke_where-le test now [] = omega arith
daemons-revoke_where-le test now ((token, r) ∷ rows) =
    ground (arith, daemons-revoke_where-le test now rows)

daemons-modify-le :
    (token : String) (now : ℕ) (rows : Dict TokenRow)
    → daemons (Dict.modify token (revoke now) rows) ≤ daemons rows
unfolding daemons Dict.modify
daemons-modify-le token now [] = omega arith
daemons-modify-le token now ((u, r) ∷ rows) = ground (arith, daemons-modify-le token now rows)

-- A new row.
daemons-set :
    (token : String) (r : TokenRow) (rows : Dict TokenRow)
    → Dict.get token rows ≡ none
    → daemons (Dict.set token r rows) ≡ daemons rows + (if is_daemon r then 1 else 0)
unfolding daemons Dict.set Dict.get
daemons-set token r [] e = ground arith
daemons-set token r ((u, q) ∷ rows) e = ground (arith, e, daemons-set token r rows)

-- Only `getDaemonToken` issues tokens of the daemon.
abbrev pub IsOrdinary : Event → Type 0
IsOrdinary (issues token role job_id now) = role ≢ "daemon"
IsOrdinary (revokes token now) = Unit
IsOrdinary (revokes_job job_id now) = Unit
IsOrdinary (asks_daemon fresh now) = Unit
IsOrdinary restarts = Unit

abbrev pub AreOrdinary : List Event → Type 0
AreOrdinary [] = Unit
AreOrdinary (e ∷ es) = IsOrdinary e × AreOrdinary es

issue-daemons :
    (s : State) (token role : String) (job_id : Option String) (now : ℕ)
    → daemons (issued s (issue_token s token role job_id now)).rows
      ≤ daemons s.rows + (if str_eq role "daemon" then 1 else 0)
unfolding issue_token Dict.has
issue-daemons s token role job_id now = elim (Option-cases (Dict.get token s.rows)) [
  | inl e ↦ ground (
    arith,
    e,
    daemons-set token (record { role = role; job_id = job_id; created_at = now; revoked_at = none })
        s.rows,
  )
  | inr (r, e) ↦ ground (arith, e)
]

mint-daemons :
    (s : State) (fresh : String) (now : ℕ) (d : Option String)
    → daemons s.rows ≤ 1
    → daemons (minted s now d (mint s fresh now d)).rows ≤ 1
unfolding issue_token
mint-daemons s fresh now (some t) h = h
mint-daemons s fresh now none h =
    let cleared = record s { rows = revoke_where is_daemon now s.rows } in
    ground (arith, daemons-revoke_where now s.rows, issue-daemons cleared fresh "daemon" none now)

step-daemons :
    (s : State) (e : Event) → IsOrdinary e → daemons s.rows ≤ 1 → daemons (step s e).rows ≤ 1
unfolding step revoke_token revoke_tokens_by_job_id get_daemon_token
step-daemons s (issues token role job_id now) o h =
    ground (arith, h, o, eq_iff role "daemon", issue-daemons s token role job_id now)
step-daemons s (revokes token now) o h = omega (arith, h, daemons-modify-le token now s.rows)
step-daemons s (revokes_job job_id now) o h =
    omega
      (arith, h, daemons-revoke_where-le (λ r. is_text r.job_id job_id && is_active r) now s.rows)
step-daemons s (asks_daemon fresh now) o h = mint-daemons s fresh now s.daemon_token h
step-daemons s restarts o h = h

-- The table never holds more than one active token of the daemon, if it does not at first: whatever is
-- issued for other roles, revoked and minted, and across restarts.
pub one_daemon_token :
    (s : State) (es : List Event)
    → AreOrdinary es
    → daemons s.rows ≤ 1
    → daemons (run s es).rows ≤ 1
unfolding run
one_daemon_token s [] o h = h
one_daemon_token s (e ∷ es) o h = one_daemon_token (step s e) es o.1 (step-daemons s e o.0 h)
