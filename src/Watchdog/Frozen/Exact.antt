-- ===== src/Watchdog/Frozen/Exact.antt =====
-- daemon/src/automation/tasks/context-watchdog.ts: an UPDATE by the ids of the frozen tasks changes
-- these and no others.
use kithkit.Base.{
  ℕ, String, Bool, true, false, ◌&&◌, List, [], ◌∷◌, map, Option, none, some, eq_iff, if◌then◌else◌,
  ◌≡◌, refl, ap, arith, sym, ◌∙◌, Bool-cases, inl, inr,
}
use kithkit.Tasks.Row.{Task}
use kithkit.Watchdog.Frozen.{is_live, is_frozen, is_in, frozen_ids, update_in}

abbrev pub has_id : Task → Bool
has_id t = elim t.external_id [ none ↦ false | some x ↦ true ]

-- Each task has an id, and no two have the same.
abbrev pub IsKeyed : List Task → Type 0
IsKeyed [] = Unit
IsKeyed (t ∷ ts) =
    ((has_id t ≡ true) × (is_in (map (λ u. u.external_id) ts) t.external_id ≡ false)) × IsKeyed ts

skip_id :
    (x y : Option String) (ids others : List (Option String))
    → is_in (y ∷ others) x ≡ false
    → (is_in (x ∷ ids) y ≡ is_in ids y) × (is_in others x ≡ false)
skip_id none none ids others h = (refl, refl)
skip_id none (some w) ids others h = (refl, refl)
skip_id (some z) none ids others h = ground (arith, h)
skip_id (some z) (some w) ids others h = ground (arith, h, eq_iff z w, eq_iff w z)

update_in-skip :
    (change : Task → Task) (x : Option String) (ids : List (Option String)) (ts : List Task)
    → is_in (map (λ u. u.external_id) ts) x ≡ false
    → update_in (x ∷ ids) change ts ≡ update_in ids change ts
unfolding update_in
update_in-skip change x ids [] h = refl
update_in-skip change x ids (u ∷ ts) h =
    let (head, tail) = skip_id x u.external_id ids (map (λ u. u.external_id) ts) h in
    rw (head, update_in-skip change x ids ts tail)

is_in-frozen :
    (c : ℕ) (ts : List Task) (x : Option String)
    → is_in (map (λ u. u.external_id) ts) x ≡ false
    → is_in (frozen_ids c ts) x ≡ false
unfolding frozen_ids
is_in-frozen c ts none h = refl
is_in-frozen c [] (some x) h = refl
is_in-frozen c (t ∷ ts) (some x) h = ground (arith, h, is_in-frozen c ts (some x))

is_frozen-live : (c : ℕ) (t : Task) → is_frozen c t ≡ true → is_live t.status ≡ true
unfolding is_frozen
is_frozen-live c t h = ground (arith, h)

pub is_in-head :
    (x : Option String) (ids : List (Option String))
    → (elim x [ none ↦ false | some y ↦ true ]) ≡ true
    → is_in (x ∷ ids) x ≡ true
is_in-head none ids h = h
is_in-head (some y) ids h = ground (arith, eq_iff y y)

update_in-change :
    (change : Task → Task) (ids : List (Option String)) (t : Task) (ts : List Task)
    → is_in ids t.external_id ≡ true
    → is_live t.status ≡ true
    → update_in ids change (t ∷ ts) ≡ change t ∷ update_in ids change ts
unfolding update_in
update_in-change change ids t ts h k =
    ap (λ b. (if b then change t else t) ∷ update_in ids change ts) (and_true h k)
  where
    and_true : {a b : Bool} → a ≡ true → b ≡ true → (a && b) ≡ true
    and_true e f = rw (e, f)

update_in-keep :
    (change : Task → Task) (ids : List (Option String)) (t : Task) (ts : List Task)
    → is_in ids t.external_id ≡ false
    → update_in ids change (t ∷ ts) ≡ t ∷ update_in ids change ts
unfolding update_in
update_in-keep change ids t ts h =
    ap (λ b. (if b && is_live t.status then change t else t) ∷ update_in ids change ts) h

pub frozen_ids-true :
    (c : ℕ) (t : Task) (ts : List Task)
    → is_frozen c t ≡ true
    → frozen_ids c (t ∷ ts) ≡ t.external_id ∷ frozen_ids c ts
unfolding frozen_ids
frozen_ids-true c t ts e = ground (arith, e)

pub frozen_ids-false :
    (c : ℕ) (t : Task) (ts : List Task)
    → is_frozen c t ≡ false
    → frozen_ids c (t ∷ ts) ≡ frozen_ids c ts
unfolding frozen_ids
frozen_ids-false c t ts e = ground (arith, e)

abbrev pub if_frozen : ℕ → (Task → Task) → Task → Task
if_frozen c change t = if is_frozen c t then change t else t

-- The statement changes the frozen tasks and no others.
pub update_in-frozen :
    (c : ℕ) (change : Task → Task) (ts : List Task)
    → IsKeyed ts
    → update_in (frozen_ids c ts) change ts ≡ map (if_frozen c change) ts
unfolding update_in frozen_ids
update_in-frozen c change [] h = refl
update_in-frozen c change (t ∷ ts) h =
    let ids = frozen_ids c ts in
    let rest = update_in-frozen c change ts h.1 in
    elim (Bool-cases (is_frozen c t)) [
      | inl e ↦
          ap (λ l. update_in l change (t ∷ ts)) (frozen_ids-true c t ts e)
          ∙ update_in-change change (t.external_id ∷ ids) t ts (is_in-head t.external_id ids h.0.0)
              (is_frozen-live c t e)
          ∙ ap (λ l. change t ∷ l) (update_in-skip change t.external_id ids ts h.0.1 ∙ rest)
          ∙ ap (λ b. (if b then change t else t) ∷ map (if_frozen c change) ts) (sym e)
      | inr e ↦
          ap (λ l. update_in l change (t ∷ ts)) (frozen_ids-false c t ts e)
          ∙ update_in-keep change ids t ts (is_in-frozen c ts t.external_id h.0.1)
          ∙ ap (λ l. t ∷ l) rest
          ∙ ap (λ b. (if b then change t else t) ∷ map (if_frozen c change) ts) (sym e)
    ]
