-- ===== src/Network/Communities/Names.antt =====
-- .a2a-sdk/packages/sdk/src/community-manager.ts: qualified names.
use kithkit.Base.{ℕ, false, List, [], ◌∷◌, ◌++◌, any, some, ◌==◌, ◌≡◌, refl, arith}
use kithkit.Network.Communities.{split_at_sign, parse_qualified_name}

split_at_sign-append :
    (user host : List ℕ)
    → any (λ c. c == 64) user ≡ false
    → split_at_sign (user ++ (64 ∷ host)) ≡ some (user, host)
unfolding split_at_sign
split_at_sign-append [] host h = refl
split_at_sign-append (c ∷ user) host h = ground (arith, h, split_at_sign-append user host)

-- A user name without an `@` and a host name, neither of them empty, are parsed from the two with an
-- `@` between them, whatever stands in the host name.
pub parse_qualified_name-append :
    (c d : ℕ) (user host : List ℕ)
    → any (λ x. x == 64) (c ∷ user) ≡ false
    → parse_qualified_name ((c ∷ user) ++ (64 ∷ d ∷ host))
      ≡ record { username = c ∷ user; hostname = some (d ∷ host) }
unfolding parse_qualified_name
parse_qualified_name-append c d user host h =
    ground (arith, split_at_sign-append (c ∷ user) (d ∷ host) h)
