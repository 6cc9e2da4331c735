-- ===== src/Routes/Samples.antt =====
-- daemon/src/core/route-registry.ts at concrete routes.
use kithkit.Base.{ℕ, true, false, List, [], ◌∷◌, ◌≡◌, refl}
use kithkit.Base.Js.{codes, same_codes, strip_prefix, strip_suffix}
use kithkit.Routes.{new_route, match_route}

abbrev wiki : List ℕ
wiki = 47 ∷ 119 ∷ 47 ∷ 42 ∷ []

prefix_falls_through :
    match_route (λ h. false) (new_route wiki 1 ∷ []) (codes "/w/a") ≡ (1 ∷ [], false)
unfolding match_route new_route codes same_codes strip_prefix strip_suffix
prefix_falls_through = refl

-- The empty prefix counts as false.
catch_all_matches_nothing :
    match_route (λ h. true) (new_route (codes "/*") 1 ∷ []) (codes "/w") ≡ ([], false)
unfolding match_route new_route codes same_codes strip_prefix strip_suffix
catch_all_matches_nothing = refl
