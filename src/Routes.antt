-- ===== src/Routes.antt =====
-- daemon/src/core/route-registry.ts: the HTTP routes that extensions register.
-- A path is its list of code points. A handler is a number; what it answers is an argument.
pub mod Matching
mod Samples
use kithkit.Base.{
  ℕ, suc, String, Bool, true, false, not, ◌&&◌, ◌||◌, List, [], ◌∷◌, ◌++◌, map, Option, none, some,
  any, if◌then◌else◌,
}
use kithkit.Base.Js.{codes, same_codes, strip_prefix, strip_suffix}

pub data RouteType : Type 0 where
  exact : RouteType
  by_prefix : (prefix : List ℕ) → RouteType

pub record RegisteredRoute : Type 0 where
  pub pattern : List ℕ
  pub handler : ℕ
  pub kind : RouteType

abbrev pub kind_of : Option (List ℕ) → RouteType
kind_of none = exact
kind_of (some prefix) = by_prefix prefix

-- The route of a pattern: a prefix where it ends with `/*`.
unfoldable pub new_route : List ℕ → ℕ → RegisteredRoute
unfolding codes strip_suffix
new_route pattern handler = record {
  pattern = pattern;
  handler = handler;
  kind = kind_of (strip_suffix (codes "/*") pattern);
}

abbrev pub is_registered : List ℕ → List RegisteredRoute → Bool
is_registered pattern routes = any (λ r. same_codes r.pattern pattern) routes

-- `none` where the pattern is registered and an error is thrown.
unfoldable pub register_route : List RegisteredRoute → List ℕ → ℕ → Option (List RegisteredRoute)
unfolding new_route same_codes
register_route routes pattern handler =
    if is_registered pattern routes then none else some (routes ++ new_route pattern handler ∷ [])

abbrev is_some : Option (List ℕ) → Bool
is_some none = false
is_some (some _) = true

abbrev pub matches_kind : RouteType → (pattern pathname : List ℕ) → Bool
matches_kind exact pattern pathname = same_codes pathname pattern
matches_kind (by_prefix []) pattern pathname = false
matches_kind (by_prefix (c ∷ cs)) pattern pathname =
    same_codes pathname (c ∷ cs) || is_some (strip_prefix ((c ∷ cs) ++ codes "/") pathname)

abbrev pub matches : RegisteredRoute → List ℕ → Bool
matches r pathname = matches_kind r.kind r.pattern pathname

-- Which handlers were called, in their order, and whether one of them handled the request.
-- `handles` is what the handlers answer.
unfoldable pub match_route : (ℕ → Bool) → List RegisteredRoute → List ℕ → List ℕ × Bool
unfolding codes same_codes strip_prefix
match_route handles [] pathname = ([], false)
match_route handles (r ∷ routes) pathname =
    let (called, handled) = match_route handles routes pathname in
    if matches r pathname
    then if handles r.handler then (r.handler ∷ [], true) else (r.handler ∷ called, handled)
    else (called, handled)

unfoldable pub unregister_route : List RegisteredRoute → List ℕ → List RegisteredRoute × Bool
unfolding same_codes
unregister_route [] pattern = ([], false)
unregister_route (r ∷ routes) pattern =
    let (rest, removed) = unregister_route routes pattern in
    if same_codes r.pattern pattern then (routes, true) else (r ∷ rest, removed)

unfoldable pub get_registered_routes : List RegisteredRoute → List (List ℕ)
get_registered_routes routes = map (λ r. r.pattern) routes
