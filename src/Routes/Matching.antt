-- ===== src/Routes/Matching.antt =====
-- daemon/src/core/route-registry.ts: registering, unregistering and registering anew.
use kithkit.Base.{ℕ, true, false, ◌||◌, List, [], ◌∷◌, ◌++◌, Option, none, some, ◌≡◌, refl, arith}
use kithkit.Base.Js.{same_codes}
use kithkit.Routes.{RegisteredRoute, new_route, is_registered, register_route, unregister_route}

same_codes_refl : (s : List ℕ) → same_codes s s ≡ true
unfolding same_codes
same_codes_refl [] = refl
same_codes_refl (c ∷ s) = ground (arith, same_codes_refl s)

-- The routes before one whose pattern none of them has stay.
unregister-append :
    (routes : List RegisteredRoute) (r : RegisteredRoute)
    → is_registered r.pattern routes ≡ false
    → unregister_route (routes ++ r ∷ []) r.pattern ≡ (routes, true)
unfolding unregister_route
unregister-append [] r h = ground (arith, same_codes_refl r.pattern)
unregister-append (q ∷ routes) r h = ground (arith, h, unregister-append routes r)

-- A route that was registered is unregistered by its pattern, and the other routes stand as before, in
-- their order.
pub register-unregister :
    (routes after : List RegisteredRoute) (pattern : List ℕ) (handler : ℕ)
    → register_route routes pattern handler ≡ some after
    → unregister_route after pattern ≡ (routes, true)
unfolding register_route new_route
register-unregister routes after pattern handler h =
    ground (arith, h, unregister-append routes (new_route pattern handler))

-- What happens to the registry. A refused registration leaves it as it is.
pub data Event : Type 0 where
  registers : (pattern : List ℕ) → (handler : ℕ) → Event
  unregisters : (pattern : List ℕ) → Event

abbrev or_same : List RegisteredRoute → Option (List RegisteredRoute) → List RegisteredRoute
or_same routes none = routes
or_same routes (some after) = after

unfoldable pub step : List RegisteredRoute → Event → List RegisteredRoute
unfolding register_route unregister_route
step routes (registers pattern handler) = or_same routes (register_route routes pattern handler)
step routes (unregisters pattern) = (unregister_route routes pattern).0

unfoldable pub run : List RegisteredRoute → List Event → List RegisteredRoute
unfolding step
run routes [] = routes
run routes (e ∷ es) = run (step routes e) es

same_codes_eq : (s t : List ℕ) → same_codes s t ≡ true → s ≡ t
unfolding same_codes
same_codes_eq [] [] h = refl
same_codes_eq [] (d ∷ t) h = ground (arith, h)
same_codes_eq (c ∷ s) [] h = ground (arith, h)
same_codes_eq (c ∷ s) (d ∷ t) h = ground (arith, h, same_codes_eq s t)

-- No pattern stands twice.
abbrev pub Distinct : List RegisteredRoute → Type 0
Distinct [] = Unit
Distinct (r ∷ routes) = (is_registered r.pattern routes ≡ false) × Distinct routes

is_registered-append :
    (routes : List RegisteredRoute) (r : RegisteredRoute) (p : List ℕ)
    → is_registered p (routes ++ r ∷ []) ≡ (is_registered p routes || same_codes r.pattern p)
is_registered-append [] r p = ground arith
is_registered-append (q ∷ routes) r p = ground (arith, is_registered-append routes r p)

append-Distinct :
    (routes : List RegisteredRoute) (r : RegisteredRoute)
    → is_registered r.pattern routes ≡ false
    → Distinct routes
    → Distinct (routes ++ r ∷ [])
append-Distinct [] r h d = (refl, tt)
append-Distinct (q ∷ routes) r h d = ground (
  arith,
  h,
  d,
  append-Distinct routes r,
  is_registered-append routes r q.pattern,
  same_codes_eq r.pattern q.pattern,
  same_codes_refl r.pattern,
)

still_absent :
    (routes : List RegisteredRoute) (p q : List ℕ)
    → is_registered p routes ≡ false
    → is_registered p (unregister_route routes q).0 ≡ false
unfolding unregister_route
still_absent [] p q h = refl
still_absent (r ∷ routes) p q h = ground (arith, h, still_absent routes p q)

unregister-Distinct :
    (routes : List RegisteredRoute) (p : List ℕ)
    → Distinct routes
    → Distinct (unregister_route routes p).0
unfolding unregister_route
unregister-Distinct [] p d = tt
unregister-Distinct (r ∷ routes) p d =
    ground (arith, d, unregister-Distinct routes p d.1, still_absent routes r.pattern p d.0)

unregister-absent :
    (routes : List RegisteredRoute) (p : List ℕ)
    → Distinct routes
    → is_registered p (unregister_route routes p).0 ≡ false
unfolding unregister_route
unregister-absent [] p d = refl
unregister-absent (r ∷ routes) p d =
    ground (arith, d, unregister-absent routes p d.1, same_codes_eq r.pattern p)

step-Distinct :
    (routes : List RegisteredRoute) (e : Event) → Distinct routes → Distinct (step routes e)
unfolding step register_route new_route
step-Distinct routes (registers pattern handler) d =
    ground (arith, d, append-Distinct routes (new_route pattern handler))
step-Distinct routes (unregisters pattern) d = unregister-Distinct routes pattern d

run-Distinct :
    (routes : List RegisteredRoute) (es : List Event) → Distinct routes → Distinct (run routes es)
unfolding run
run-Distinct routes [] d = d
run-Distinct routes (e ∷ es) d = run-Distinct (step routes e) es (step-Distinct routes e d)

-- After any registrations and unregistrations a pattern that is unregistered can be registered anew, with
-- any handler: the swap of a plugin's routes never meets the error of a duplicate.
pub swap_succeeds :
    (es : List Event) (pattern : List ℕ) (handler : ℕ)
    → let left = (unregister_route (run [] es) pattern).0 in
      register_route left pattern handler ≡ some (left ++ new_route pattern handler ∷ [])
unfolding register_route
swap_succeeds es pattern handler =
    ground (arith, unregister-absent (run [] es) pattern (run-Distinct [] es tt))
