-- ===== src/Tokens/Verdict.antt =====
-- daemon/src/auth/agent-tokens.ts: what a token is worth after it was issued.
use kithkit.Base.{
  ℕ, String, Bool, true, false, not, ◌&&◌, List, [], ◌∷◌, Option, none, some, any, str_eq,
  if◌then◌else◌, ◌≡◌, ◌≢◌, refl, inl, inr, arith, eq_iff, eq_refl, Option-cases,
}
use kithkit.Base.Dict
use kithkit.Base.Dict.{Dict}
use kithkit.Tokens.{
  TokenRow, State, issue_token, is_active, verify_token, revoke, revoke_token, revoke_where,
  is_text, revoke_tokens_by_job_id, is_daemon, mint, get_daemon_token, Event, issues, revokes,
  revokes_job, asks_daemon, restarts, issued, minted, step, run,
}

abbrev pub revoked_if : (TokenRow → Bool) → ℕ → Option TokenRow → Option TokenRow
revoked_if test now none = none
revoked_if test now (some r) = some (if test r then revoke now r else r)

pub get-revoke_where :
    (test : TokenRow → Bool) (now : ℕ) (token : String) (rows : Dict TokenRow)
    → Dict.get token (revoke_where test now rows) ≡ revoked_if test now (Dict.get token rows)
unfolding revoke_where Dict.get
get-revoke_where test now token [] = refl
get-revoke_where test now token ((u, r) ∷ rows) =
    ground (arith, get-revoke_where test now token rows)

-- The events that end a token of a job: its own revocation, and that of its job.
unfoldable pub ends : String → Option String → Event → Bool
ends token job_id (revokes u now) = str_eq u token
ends token job_id (revokes_job j now) = is_text job_id j
ends token job_id (issues u role j now) = false
ends token job_id (asks_daemon u now) = false
ends token job_id restarts = false

module _ (token role : String) (job_id : Option String) (other : role ≢ "daemon") where
  abbrev RowIs : Bool → Option TokenRow → Type 0
  RowIs active none = true ≡ false
  RowIs active (some r) = (r.role ≡ role) × ((r.job_id ≡ job_id) × (is_active r ≡ active))

  abbrev Stands : Bool → State → Type 0
  Stands active s = RowIs active (Dict.get token s.rows)

  not_daemon : (r : TokenRow) → r.role ≡ role → is_daemon r ≡ false
  not_daemon r e = ground (arith, e, other, eq_iff r.role "daemon")

  daemon-Stands :
      (active : Bool) (now : ℕ) (r : Option TokenRow)
      → RowIs active r
      → RowIs active (revoked_if is_daemon now r)
  daemon-Stands active now none h = h
  daemon-Stands active now (some r) h = ground (arith, h, not_daemon r h.0)

  issue_token-Stands :
      (active : Bool) (s : State) (u role2 : String) (j : Option String) (now : ℕ)
      → Stands active s
      → Stands active (issued s (issue_token s u role2 j now))
  unfolding issue_token Dict.has
  issue_token-Stands active s u role2 j now h = elim (Option-cases (Dict.get u s.rows)) [
    | inl e ↦ ground (
      arith,
      h,
      e,
      eq_iff u token,
      Dict.get-set u token
          (record { role = role2; job_id = j; created_at = now; revoked_at = none }) s.rows,
    )
    | inr (r, e) ↦ ground (arith, h, e)
  ]

  mint-Stands :
      (active : Bool) (s : State) (fresh : String) (now : ℕ) (d : Option String)
      → Stands active s
      → Stands active (minted s now d (mint s fresh now d))
  unfolding issue_token
  mint-Stands active s fresh now (some t) h = h
  mint-Stands active s fresh now none h =
      let cleared = record s { rows = revoke_where is_daemon now s.rows } in
      ground (
        arith,
        daemon-Stands active now (Dict.get token s.rows) h,
        get-revoke_where is_daemon now token s.rows,
        issue_token-Stands active cleared fresh "daemon" none now,
      )

  step-Stands :
      (active : Bool) (s : State) (e : Event)
      → Stands active s
      → Stands (active && not (ends token job_id e)) (step s e)
  unfolding step ends revoke_token revoke_tokens_by_job_id get_daemon_token
  step-Stands active s (issues u role2 j now) h =
      ground (arith, issue_token-Stands active s u role2 j now h)
  step-Stands active s (revokes u now) h = elim (Option-cases (Dict.get token s.rows)) [
    | inl e ↦ ground (arith, h, e)
    | inr (r, e) ↦ ground (arith, h, e, Dict.get-modify u token (revoke now) s.rows)
  ]
  step-Stands active s (revokes_job j now) h = elim (Option-cases (Dict.get token s.rows)) [
    | inl e ↦ ground (arith, h, e)
    | inr (r, e) ↦
        ground
          (arith, h, e, get-revoke_where (λ r. is_text r.job_id j && is_active r) now token s.rows)
  ]
  step-Stands active s (asks_daemon fresh now) h =
      ground (arith, mint-Stands active s fresh now s.daemon_token h)
  step-Stands active s restarts h = ground (arith, h)

  run-Stands :
      (active : Bool) (s : State) (es : List Event)
      → Stands active s
      → Stands (active && not (any (ends token job_id) es)) (run s es)
  unfolding run
  run-Stands active s [] h = ground (arith, h)
  run-Stands active s (e ∷ es) h = ground (
    arith,
    run-Stands (active && not (ends token job_id e)) (step s e) es (step-Stands active s e h),
  )

  verdict :
      (active : Bool) (s : State)
      → Stands active s
      → verify_token s token
        ≡ (if active then some (record { role = role; job_id = job_id }) else none)
  unfolding verify_token
  verdict active s h = elim (Option-cases (Dict.get token s.rows)) [
    | inl e ↦ ground (arith, h, e)
    | inr (r, e) ↦ ground (arith, h, e)
  ]

  -- A token that was issued, other than the daemon's, is verified with the role and the job that it was
  -- issued for, until it is revoked or its job's tokens are: whatever else is issued, revoked and minted,
  -- and across restarts. From then on it is refused for good.
  pub verified_until_revoked :
      (s t : State) (now : ℕ) (es : List Event)
      → issue_token s token role job_id now ≡ some t
      → verify_token (run t es) token ≡ (
          if any (ends token job_id) es
          then none
          else some (record { role = role; job_id = job_id }))
  unfolding issue_token
  verified_until_revoked s t now es e = ground (
    arith,
    verdict (not (any (ends token job_id) es)) (run t es) (
        run-Stands true t es (
          ground (
            arith,
            e,
            Dict.get-set token token
                (record { role = role; job_id = job_id; created_at = now; revoked_at = none })
                s.rows,
            eq_refl token,
          ))),
  )
