-- ===== src/Scheduler/Interval.antt =====
-- `parseInterval` of daemon/src/core/config.ts: a decimal number and one of the units s, m and h.
-- JavaScript's numbers are exact up to 2^53, which an interval in use stays far below.
use kithkit.Base.{
  ℕ, ◌+◌, ◌-◌, ◌*◌, String, Bool, true, false, ◌&&◌, List, [], ◌∷◌, Option, none, some, leb, ◌==◌,
  if◌then◌else◌,
}
use kithkit.Base.Js.{codes}

abbrev pub is_digit : ℕ → Bool
is_digit c = leb b'0' c && leb c b'9'

-- The milliseconds of a unit.
abbrev pub unit_ms : ℕ → Option ℕ
unit_ms c =
    if c == b's'
    then some 1000
    else if c == b'm'
    then some 60000
    else if c == b'h'
    then some 3600000
    else none

abbrev pub times : ℕ → Option ℕ → Option ℕ
times n none = none
times n (some ms) = some (n * ms)

-- What follows the digits read so far, whose value is `n`: one more digit, or a last unit.
unfoldable pub parse_rest : (some_digit : Bool) → ℕ → List ℕ → Option ℕ
parse_rest some_digit n [] = none
parse_rest some_digit n (c ∷ []) = if some_digit then times n (unit_ms c) else none
parse_rest some_digit n (c ∷ d ∷ cs) =
    let rest = parse_rest true (n * 10 + (c - b'0')) (d ∷ cs) in if is_digit c then rest else none

unfoldable pub parse_interval : String → Option ℕ
unfolding parse_rest codes
parse_interval text = parse_rest false 0 (codes text)
