-- ===== src/Watchdog/Passed.antt =====
-- What a restart by the wedge detector of daemon/src/automation/tasks/context-watchdog.ts leaves in the
-- table: no live task is as old as the one that made the tick restart.
use kithkit.Base.{
  ℕ, ◌<◌, String, Bool, true, not, ◌||◌, List, [], ◌∷◌, Option, none, some, All, ltb, ◌≡◌, refl,
  arith, Bool-cases, Option-cases, inl, inr, sym, subst,
}
use kithkit.Tasks.Status.{TaskStatus, in_progress, assigned, same}
use kithkit.Tasks.Row.{Task, is_todo}
use kithkit.Watchdog.Frozen.{
  is_live, is_frozen, is_in, frozen_ids, update_in, reset, max_updated_at,
}
use kithkit.Watchdog.Signals.{Sight, cutoff, ip_max_updated, frozen_since}
use kithkit.Watchdog.Frozen.Exact.{has_id, is_in-head, frozen_ids-true, frozen_ids-false}

-- The task is not live, or was updated after the instant.
abbrev pub is_after : ℕ → Task → Bool
is_after l t = is_todo t.kind || not (is_live t.status) || ltb l t.updated_at

abbrev pub AllAfter : ℕ → List Task → Type 0
AllAfter l ts = All (λ t. is_after l t ≡ true) ts

abbrev pub AllKeyed : List Task → Type 0
AllKeyed ts = All (λ t. has_id t ≡ true) ts

pub All-map {ℓ κ μ} :
    {A : Type ℓ} (P : A → Type κ) (Q : A → Type μ) (xs : List A)
    → ((x : A) → P x → Q x)
    → All P xs
    → All Q xs
All-map P Q [] f h = tt
All-map P Q (x ∷ xs) f h = (f x h.0, All-map P Q xs f h.1)

same-live : (s st : TaskStatus) → same s st ≡ true → is_live st ≡ true → is_live s ≡ true
same-live s st h k = ground (arith, h, k)

max_updated_at-after :
    (l : ℕ) (st : TaskStatus) (m : ℕ) (ts : List Task)
    → is_live st ≡ true
    → AllAfter l ts
    → max_updated_at st ts ≡ some m
    → l < m
unfolding max_updated_at
max_updated_at-after l st m [] live h e = ground (arith, e)
max_updated_at-after l st m (t ∷ ts) live h e = elim (Option-cases (max_updated_at st ts)) [
  | inl z ↦ ground (arith, e, z, h.0, live, same-live t.status st)
  | inr (n, z) ↦
      ground
        (arith, e, z, h.0, live, same-live t.status st, max_updated_at-after l st n ts live h.1)
]

ip_max_updated-after :
    (l limit m : ℕ) (ip as_ : Option ℕ)
    → ((n : ℕ) → ip ≡ some n → l < n)
    → ((n : ℕ) → as_ ≡ some n → l < n)
    → ip_max_updated limit ip as_ ≡ some m
    → l < m
unfolding ip_max_updated
ip_max_updated-after l limit m none none f g e = ground (arith, e)
ip_max_updated-after l limit m none (some b) f g e = ground (arith, e, g b)
ip_max_updated-after l limit m (some a) none f g e = ground (arith, e, f a)
ip_max_updated-after l limit m (some a) (some b) f g e = ground (arith, e, f a, g b)

ip_max_updated-lt :
    (limit m : ℕ) (ip as_ : Option ℕ) → ip_max_updated limit ip as_ ≡ some m → m < limit
unfolding ip_max_updated
ip_max_updated-lt limit m none none e = ground (arith, e)
ip_max_updated-lt limit m none (some b) e = ground (arith, e)
ip_max_updated-lt limit m (some a) none e = ground (arith, e)
ip_max_updated-lt limit m (some a) (some b) e = ground (arith, e)

pub frozen_since-lt :
    (v : Sight) (m : ℕ) (ts : List Task) → frozen_since v ts ≡ some m → m < cutoff v
unfolding frozen_since
frozen_since-lt v m ts e = ground (
  arith,
  e,
  ip_max_updated-lt (cutoff v) m (max_updated_at in_progress ts) (max_updated_at assigned ts),
)

pub frozen_since-after :
    (v : Sight) (l m : ℕ) (ts : List Task) → AllAfter l ts → frozen_since v ts ≡ some m → l < m
unfolding frozen_since
frozen_since-after v l m ts h e = ground (
  arith,
  e,
  ip_max_updated-after l (cutoff v) m (max_updated_at in_progress ts) (max_updated_at assigned ts)
      (λ n. max_updated_at-after l in_progress n ts refl h)
      (λ n. max_updated_at-after l assigned n ts refl h),
)

in-cons :
    (x y : Option String) (ids : List (Option String))
    → is_in ids x ≡ true
    → is_in (y ∷ ids) x ≡ true
in-cons none y ids h = h
in-cons (some z) y ids h = ground (arith, h)

-- A frozen task is in the list of ids.
abbrev Listed : ℕ → List (Option String) → Task → Type 0
Listed c ids t = is_frozen c t ≡ true → is_in ids t.external_id ≡ true

frozen-Listed : (c : ℕ) (ts : List Task) → AllKeyed ts → All (Listed c (frozen_ids c ts)) ts
frozen-Listed c [] h = tt
frozen-Listed c (t ∷ ts) h = elim (Bool-cases (is_frozen c t)) [
  | inl e ↦
      subst (λ ids. All (Listed c ids) (t ∷ ts)) (sym (frozen_ids-true c t ts e))
        (
          (λ _. is_in-head t.external_id (frozen_ids c ts) h.0),
          All-map (Listed c (frozen_ids c ts)) (Listed c (t.external_id ∷ frozen_ids c ts)) ts
              (λ u k f. in-cons u.external_id t.external_id (frozen_ids c ts) (k f))
              (frozen-Listed c ts h.1),
        )
  | inr e ↦
      subst (λ ids. All (Listed c ids) (t ∷ ts)) (sym (frozen_ids-false c t ts e))
        ((λ f. ground (arith, e, f)), frozen-Listed c ts h.1)
]

update_in-after :
    (c m now : ℕ) (ids : List (Option String)) (ts : List Task)
    → m < c
    → All (Listed c ids) ts
    → AllAfter m (update_in ids (reset now) ts)
unfolding update_in is_frozen
update_in-after c m now ids [] h k = tt
update_in-after c m now ids (t ∷ ts) h k =
    (ground (arith, h, k.0), update_in-after c m now ids ts h k.1)

pub reset-after :
    (c m now : ℕ) (ts : List Task)
    → m < c
    → AllKeyed ts
    → AllAfter m (update_in (frozen_ids c ts) (reset now) ts)
reset-after c m now ts h k = update_in-after c m now (frozen_ids c ts) ts h (frozen-Listed c ts k)

pub reset-keeps-after :
    (l now : ℕ) (ids : List (Option String)) (ts : List Task)
    → AllAfter l ts
    → AllAfter l (update_in ids (reset now) ts)
unfolding update_in
reset-keeps-after l now ids [] h = tt
reset-keeps-after l now ids (t ∷ ts) h = (ground (arith, h.0), reset-keeps-after l now ids ts h.1)

pub reset-AllKeyed :
    (now : ℕ) (ids : List (Option String)) (ts : List Task)
    → AllKeyed ts
    → AllKeyed (update_in ids (reset now) ts)
unfolding update_in
reset-AllKeyed now ids [] h = tt
reset-AllKeyed now ids (t ∷ ts) h = (ground (arith, h.0), reset-AllKeyed now ids ts h.1)
