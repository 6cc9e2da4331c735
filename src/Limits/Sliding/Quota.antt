-- ===== src/Limits/Sliding/Quota.antt =====
-- How many requests of a route are allowed in any stretch of its window.
use mathlib.Core.List.{append-nil, append_assoc}
use kithkit.Base.{
  ℕ, ◌+◌, ◌*◌, ◌≤◌, ◌<◌, true, List, [], ◌∷◌, ◌++◌, none, some, filter, length, leb, if◌then◌else◌,
  ◌≡◌, ◌≢◌, inl, inr, refl, arith, ◌∙◌, ap, sym, subst, Bool-cases, eq_iff, eq_refl, length-append,
  length-filter-le, filter-append, filter-filter,
}
use kithkit.Base.Dict
use kithkit.Base.Dict.{get-set, Dict}
use kithkit.Limits.Sliding.{
  Limiter, Windows, Verdict, allowed, blocked, is_allowed, timestamps, recent, retry_after, admit,
  slide, limit,
}

-- A request of the limiter in question, or of one with another key.
pub data Event (l : Limiter) : Type 0 where
  own : ℕ → Event l
  other : (m : Limiter) → m.key ≢ l.key → ℕ → Event l

module _ (l : Limiter) where
  unfoldable pub stored : Windows → List ℕ
  stored w = timestamps (Dict.get l.key w)

  unfoldable pub run : Windows → List (Event l) → Windows
  run w [] = w
  run w (own now ∷ es) = run (limit l w now).0 es
  run w (other m d now ∷ es) = run (limit m w now).0 es

  -- The moments of its allowed requests, in order.
  unfoldable pub granted : Windows → List (Event l) → List ℕ
  granted w [] = []
  granted w (own now ∷ es) =
      let rest = granted (limit l w now).0 es in
      if is_allowed (limit l w now).1 then now ∷ rest else rest
  granted w (other m d now ∷ es) = granted (limit m w now).0 es

  -- Its requests come in the order of time, from `from` on, and none after `to`.
  abbrev pub Ordered : ℕ → ℕ → List (Event l) → Type 0
  Ordered from to [] = from ≤ to
  Ordered from to (own now ∷ es) = (from ≤ now) × Ordered now to es
  Ordered from to (other m d now ∷ es) = Ordered from to es

  recent_later :
      (now now' t : ℕ)
      → now ≤ now'
      → recent l.window_ms now' t ≡ true
      → recent l.window_ms now t ≡ true
  recent_later now now' t h e = ground arith

  -- The list `ts` stands for the allowed requests `g` so far, as far as they matter from `last` on.
  record Tracks (g : List ℕ) (last : ℕ) (ts : List ℕ) : Type 0 where
    bounded : length ts ≤ l.max
    same :
        (now : ℕ)
        → last ≤ now
        → filter (recent l.window_ms now) ts ≡ filter (recent l.window_ms now) g

  grown : List ℕ → ℕ → Verdict → List ℕ
  grown g now v = if is_allowed v then g ++ now ∷ [] else g

  grown-append :
      (g : List ℕ) (now : ℕ) (v : Verdict) (rest : List ℕ)
      → grown g now v ++ rest ≡ g ++ (if is_allowed v then now ∷ rest else rest)
  unfolding grown
  grown-append g now allowed rest = append_assoc g (now ∷ []) rest
  grown-append g now (blocked r) rest = refl

  slide-same :
      (g : List ℕ) (last now later : ℕ) (ts : List ℕ)
      → Tracks g last ts
      → last ≤ now
      → now ≤ later
      → filter (recent l.window_ms later) (filter (recent l.window_ms now) ts)
        ≡ filter (recent l.window_ms later) g
  slide-same g last now later ts t h k =
      filter-filter (recent l.window_ms later) (recent l.window_ms now) ts
        (λ x. recent_later now later x k)
      ∙ t.same later (omega arith)

  admit-Tracks :
      (g : List ℕ) (last now : ℕ) (ts : List ℕ)
      → Tracks g last ts
      → last ≤ now
      → let s = filter (recent l.window_ms now) ts in
        Tracks (grown g now (admit l now s).1) now (admit l now s).0
  unfolding admit grown
  admit-Tracks g last now ts t h =
      let s = filter (recent l.window_ms now) ts in
      elim (Bool-cases (leb l.max (length s))) [
        | inl full ↦ rw full (record {
          bounded = omega (arith, t.bounded, length-filter-le (recent l.window_ms now) ts);
          same = λ later k. slide-same g last now later ts t h k;
        })
        | inr room ↦ rw room (record {
          bounded = ground (arith, length-append s (now ∷ []));
          same = λ later k.
              filter-append (recent l.window_ms later) s (now ∷ [])
              ∙ ap (λ x. x ++ filter (recent l.window_ms later) (now ∷ []))
                  (slide-same g last now later ts t h k)
              ∙ sym (filter-append (recent l.window_ms later) g (now ∷ []));
        })
      ]

  limit-stored :
      (w : Windows) (now : ℕ)
      → stored (limit l w now).0 ≡ (admit l now (slide l now (Dict.get l.key w))).0
  unfolding stored limit
  limit-stored w now = rw (get-set l.key l.key _ w) (rw (eq_refl l.key) refl)

  other-stored :
      (m : Limiter) (w : Windows) (now : ℕ) → m.key ≢ l.key → stored (limit m w now).0 ≡ stored w
  unfolding stored limit
  other-stored m w now d = rw (get-set m.key l.key _ w) (ground (arith, eq_iff m.key l.key, d))

  limit-Tracks :
      (g : List ℕ) (last now : ℕ) (w : Windows)
      → Tracks g last (stored w)
      → last ≤ now
      → Tracks (grown g now (limit l w now).1) now (stored (limit l w now).0)
  limit-Tracks g last now w t h =
      rw (limit-stored w now) (unfold limit slide stored in admit-Tracks g last now (stored w) t h)

  run-Tracks :
      (g : List ℕ) (from to : ℕ) (w : Windows) (es : List (Event l))
      → Tracks g from (stored w)
      → Ordered from to es
      → Tracks (g ++ granted w es) to (stored (run w es))
  unfolding run granted
  run-Tracks g from to w [] t o =
      rw (append-nil g)
        (record { bounded = t.bounded; same = λ later k. t.same later (omega arith) })
  run-Tracks g from to w (own now ∷ es) t o =
      let ih =
        run-Tracks (grown g now (limit l w now).1) now to (limit l w now).0 es
          (limit-Tracks g from now w t o.0) o.1 in
      subst (λ x. Tracks x to (stored (run (limit l w now).0 es)))
        (grown-append g now (limit l w now).1 (granted (limit l w now).0 es)) ih
  run-Tracks g from to w (other m d now ∷ es) t o =
      run-Tracks g from to (limit m w now).0 es (rw (other-stored m w now d) t) o

  -- From a state in which the route has no entry, after any requests in the order of time, at most
  -- `max` of the route's allowed requests lie in the last `window_ms` milliseconds. Requests of
  -- other routes make no difference.
  pub granted_in_window :
      (w : Windows) (from now : ℕ) (es : List (Event l))
      → Dict.get l.key w ≡ none
      → Ordered from now es
      → length (filter (recent l.window_ms now) (granted w es)) ≤ l.max
  unfolding stored
  granted_in_window w from now es e o =
      let empty : stored w ≡ [] = rw e refl in
      let tracked =
        run-Tracks [] from now w es
          (rw empty (record { bounded = omega arith; same = λ later k. refl })) o in
      rw (← tracked.same now (omega arith)) (
        omega
          (arith, tracked.bounded, length-filter-le (recent l.window_ms now) (stored (run w es))))

  admit-retry :
      (now seconds : ℕ) (s : List ℕ)
      → length s ≤ l.max
      → (admit l now s).1 ≡ blocked (some seconds)
      → length (filter (recent l.window_ms (now + 1000 * seconds)) (admit l now s).0) < l.max
  unfolding admit retry_after
  admit-retry now seconds [] b e = ground arith
  admit-retry now seconds (t ∷ ts) b e =
      ground (arith, length-filter-le (recent l.window_ms (now + 1000 * seconds)) ts)

  admit_room : (now : ℕ) (s : List ℕ) → length s < l.max → (admit l now s).1 ≡ allowed
  unfolding admit
  admit_room now s h = ground arith

  limit-verdict :
      (w : Windows) (now : ℕ)
      → (limit l w now).1 ≡ (admit l now (filter (recent l.window_ms now) (stored w))).1
  unfolding limit slide stored
  limit-verdict w now = refl

  limit-stored-filter :
      (w : Windows) (now : ℕ)
      → stored (limit l w now).0 ≡ (admit l now (filter (recent l.window_ms now) (stored w))).0
  limit-stored-filter w now = limit-stored w now ∙ unfold slide stored in refl

  -- A refused request that names a delay in seconds names one after which the next request passes, if
  -- the route has no more timestamps than its limit and nothing came in between.
  pub retry_after_suffices :
      (w : Windows) (now seconds : ℕ)
      → length (stored w) ≤ l.max
      → (limit l w now).1 ≡ blocked (some seconds)
      → (limit l (limit l w now).0 (now + 1000 * seconds)).1 ≡ allowed
  retry_after_suffices w now seconds b e =
      let s = filter (recent l.window_ms now) (stored w) in
      let later = now + 1000 * seconds in
      limit-verdict (limit l w now).0 later
      ∙ rw (limit-stored-filter w now) (
          admit_room later (filter (recent l.window_ms later) (admit l now s).0) (
            admit-retry now seconds s
              (omega (arith, length-filter-le (recent l.window_ms now) (stored w)))
              (sym (limit-verdict w now) ∙ e)))
