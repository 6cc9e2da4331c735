-- ===== src/Access/Senders.antt =====
-- Who is let through, how the window is counted, and when a refused sender may come back.
use kithkit.Base.{
  ℕ, ◌+◌, ◌-◌, ◌≤◌, ◌<◌, String, true, false, List, [], ◌∷◌, ◌++◌, Option, none, some, filter,
  length, str_eq, eq_refl, ltb, if◌then◌else◌, ◌≡◌, refl, sym, subst, ap, ◌∙◌, arith, length-append,
  length-filter-le, filter-append, filter-filter,
}
use kithkit.Base.Dict
use kithkit.Base.Dict.{Dict, get-set}
use kithkit.Access.{
  State, Contact, window_ms, includes, classify_custom, classify_sender, set_add, set_delete,
  add_safe_sender, block_sender, limit_of, logged, in_window, until_reset, rate, check_rate_limit,
}

includes-append :
    (x y : String) (xs : List String)
    → includes x (xs ++ y ∷ []) ≡ (if includes x xs then true else str_eq y x)
includes-append x y [] = ground arith
includes-append x y (z ∷ xs) = ground (arith, includes-append x y xs)

includes-set_add : (x : String) (xs : List String) → includes x (set_add x xs) ≡ true
includes-set_add x xs = ground (arith, includes-append x x xs, eq_refl x)

includes-set_delete : (x : String) (xs : List String) → includes x (set_delete x xs) ≡ false
includes-set_delete x [] = refl
includes-set_delete x (y ∷ xs) = ground (arith, includes-set_delete x xs)

rate-refused :
    (s : State) (sender : String) (now : ℕ) (tier : String) (ts : List ℕ) (n : ℕ)
    → n ≤ length ts
    → ((rate s sender now tier ts n).1.allowed ≡ false) × ((rate s sender now tier ts n).0 ≡ s)
unfolding rate
rate-refused s sender now tier ts n h = ground (arith, h)

classify-blocked :
    (s : State) (contact : Option Contact) (sender : String)
    → classify_custom s.custom_classifiers sender ≡ none
    → classify_sender (block_sender s sender) contact sender ≡ "blocked"
unfolding classify_sender block_sender
classify-blocked s contact sender c = ground (arith, c, includes-set_add sender s.blocked_senders)

-- A sender that is blocked at runtime, and on which no extension has an opinion, is refused every
-- request where the limit of the tier is 0, whatever the contacts table says of it, and whether it
-- was safe before; the refusals leave no trace in the state.
pub blocked_is_refused :
    (s : State) (contact : Option Contact) (sender : String) (now : ℕ)
    → classify_custom s.custom_classifiers sender ≡ none
    → limit_of s "blocked" ≡ 0
    → ((check_rate_limit (block_sender s sender) contact sender now).1.allowed ≡ false)
      × ((check_rate_limit (block_sender s sender) contact sender now).0 ≡ block_sender s sender)
unfolding check_rate_limit limit_of block_sender
blocked_is_refused s contact sender now c l =
    let b = block_sender s sender in
    let tier = classify_sender b contact sender in
    let none_left = ap (limit_of b) (classify-blocked s contact sender c) ∙ l in
    rate-refused b sender now tier (in_window b sender now) (limit_of b tier)
      (omega (arith, none_left))

-- A sender that is made safe at runtime, and on which no extension has an opinion, is safe, also if
-- it was blocked, or its contact is.
pub added_is_safe :
    (s : State) (contact : Option Contact) (sender : String)
    → classify_custom s.custom_classifiers sender ≡ none
    → classify_sender (add_safe_sender s sender) contact sender ≡ "safe"
unfolding classify_sender add_safe_sender
added_is_safe s contact sender c =
    ground (
      arith,
      c,
      includes-set_add sender s.safe_senders,
      includes-set_delete sender s.blocked_senders,
    )

counted :
    (now : ℕ) (ts : List ℕ)
    → length (
        filter
          (λ t. ltb now (t + window_ms))
          (filter (λ t. ltb now (t + window_ms)) ts ++ now ∷ []))
      ≡ length (filter (λ t. ltb now (t + window_ms)) ts) + 1
counted now ts =
    let p = λ (t : ℕ). ltb now (t + window_ms) in
    ap length (filter-append p (filter p ts) (now ∷ []))
    ∙ length-append (filter p (filter p ts)) (filter p (now ∷ []))
    ∙ ground (arith, ap length (filter-filter p p ts (λ t h. h)))

in_window-counted :
    (s : State) (sender : String) (now : ℕ)
    → length (filter (λ t. ltb now (t + window_ms)) (in_window s sender now ++ now ∷ []))
      ≡ length (in_window s sender now) + 1
unfolding in_window
in_window-counted s sender now = counted now (logged (Dict.get sender s.request_log))

rate-allowed :
    (s : State) (sender : String) (now : ℕ) (tier : String) (ts : List ℕ) (n : ℕ)
    → (rate s sender now tier ts n).1.allowed ≡ true
    → ((rate s sender now tier ts n).1.remaining + (length ts + 1) ≡ n)
      × (Dict.get sender (rate s sender now tier ts n).0.request_log ≡ some (ts ++ now ∷ []))
unfolding rate
rate-allowed s sender now tier ts n h =
    ground (arith, h, get-set sender sender (ts ++ now ∷ []) s.request_log, eq_refl sender)

in_window-logged :
    (s : State) (sender : String) (now : ℕ) (ts : List ℕ)
    → Dict.get sender s.request_log ≡ some ts
    → in_window s sender now ≡ filter (λ t. ltb now (t + window_ms)) ts
unfolding in_window
in_window-logged s sender now ts e = ap (λ o. filter (λ t. ltb now (t + window_ms)) (logged o)) e

-- `remaining` is right: after a request that was allowed, what it reports as remaining and the
-- requests of the sender within the last minute, this one included, add up to the tier's limit.
pub remaining_adds_up :
    (s : State) (contact : Option Contact) (sender : String) (now : ℕ)
    → (check_rate_limit s contact sender now).1.allowed ≡ true
    → (check_rate_limit s contact sender now).1.remaining
        + length (in_window (check_rate_limit s contact sender now).0 sender now)
      ≡ limit_of s (classify_sender s contact sender)
unfolding check_rate_limit
remaining_adds_up s contact sender now h =
    let tier = classify_sender s contact sender in
    let ts = in_window s sender now in
    let (sum, log) = rate-allowed s sender now tier ts (limit_of s tier) h in
    let after = (rate s sender now tier ts (limit_of s tier)).0 in
    let size =
      ap length (in_window-logged after sender now (ts ++ now ∷ []) log)
      ∙ in_window-counted s sender now in
    omega (arith, sum, size)

fewer :
    (now : ℕ) (kept : List ℕ) (n : ℕ)
    → length kept ≤ n
    → 0 < n
    → length (filter (λ t. ltb (now + until_reset now kept) (t + window_ms)) kept) < n
fewer now [] n le pos = pos
fewer now (t0 ∷ rest) n le pos =
    ground
      (arith, le, length-filter-le (λ t. ltb (now + (t0 + window_ms - now)) (t + window_ms)) rest)

later_fewer :
    (now : ℕ) (ts : List ℕ) (n : ℕ)
    → length (filter (λ t. ltb now (t + window_ms)) ts) ≤ n
    → 0 < n
    → let kept = filter (λ t. ltb now (t + window_ms)) ts in
      length (filter (λ t. ltb (now + until_reset now kept) (t + window_ms)) ts) < n
later_fewer now ts n le pos =
    let kept = filter (λ t. ltb now (t + window_ms)) ts in
    let later = now + until_reset now kept in
    let same_kept =
      filter-filter (λ t. ltb later (t + window_ms)) (λ t. ltb now (t + window_ms)) ts
        (λ t h. ground (arith, h)) in
    omega (arith, fewer now kept n le pos, ap length same_kept)

rate-fits :
    (s : State) (sender : String) (now : ℕ) (tier : String) (ts : List ℕ) (n : ℕ)
    → length ts < n
    → (rate s sender now tier ts n).1.allowed ≡ true
unfolding rate
rate-fits s sender now tier ts n h = ground (arith, h)

rate-denied :
    (s : State) (sender : String) (now : ℕ) (tier : String) (ts : List ℕ) (n : ℕ)
    → (rate s sender now tier ts n).1.allowed ≡ false
    → ((rate s sender now tier ts n).0 ≡ s)
      × ((rate s sender now tier ts n).1.reset_ms ≡ until_reset now ts)
unfolding rate
rate-denied s sender now tier ts n h = ground (arith, h)

-- A refused sender that waits the `resetMs` of the refusal, and does nothing else meanwhile, is
-- allowed: if its tier has a limit above 0, and no more requests than that are counted, as is so
-- unless the limit was lowered.
pub reset_suffices :
    (s : State) (contact : Option Contact) (sender : String) (now : ℕ)
    → (check_rate_limit s contact sender now).1.allowed ≡ false
    → 0 < limit_of s (classify_sender s contact sender)
    → length (in_window s sender now) ≤ limit_of s (classify_sender s contact sender)
    → (check_rate_limit
        (check_rate_limit s contact sender now).0
        contact
        sender
        (now + (check_rate_limit s contact sender now).1.reset_ms)).1.allowed
      ≡ true
unfolding check_rate_limit in_window
reset_suffices s contact sender now h pos le =
    let tier = classify_sender s contact sender in
    let ts = in_window s sender now in
    let later = now + until_reset now ts in
    let limit = limit_of s tier in
    let (stays, reset) = rate-denied s sender now tier ts limit h in
    let fits =
      rate-fits s sender later tier (in_window s sender later) limit
        (later_fewer now (logged (Dict.get sender s.request_log)) limit le pos) in
    subst
      (λ x.
        (check_rate_limit x contact sender
          (now + (check_rate_limit s contact sender now).1.reset_ms)).1.allowed
        ≡ true)
      (sym stays)
      (subst (λ r. (check_rate_limit s contact sender (now + r)).1.allowed ≡ true) (sym reset) fits)
