-- ===== src/Access/Samples.antt =====
-- The theorems about access control at small inputs.
use kithkit.Base.{false, [], ◌∷◌, none, ◌≡◌, refl}
use kithkit.Base.Dict
use kithkit.Access.{
  State, default_limits, block_sender, check_rate_limit, classify_custom, limit_of,
}
use kithkit.Access.Senders.{blocked_is_refused}

abbrev start : State
start = record {
  safe_senders = "dave" ∷ [];
  blocked_senders = [];
  tier_limits = default_limits;
  custom_classifiers = [];
  request_log = [];
}

blocked_is_refused_example :
    ((check_rate_limit (block_sender start "dave") none "dave" 7).1.allowed ≡ false)
    × ((check_rate_limit (block_sender start "dave") none "dave" 7).0 ≡ block_sender start "dave")
unfolding classify_custom limit_of Dict.get
blocked_is_refused_example = blocked_is_refused start none "dave" 7 refl refl

abbrev full : State
full = record start { request_log = ("42", 10 ∷ 20 ∷ 30 ∷ 40 ∷ 50 ∷ []) ∷ [] }
