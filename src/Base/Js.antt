-- ===== src/Base/Js.antt =====
-- Values of a request body, and the string operations of JavaScript that the routes use.
use Prim.Native.Nat.{ℕ, ◌+◌, ◌*◌}
use Prim.Native.Char.{code}
use Prim.Native.String.{String}
use mathlib.Core.Bool.{Bool, true, false, not, ◌&&◌, ◌||◌}
use mathlib.Core.List.{List, [], ◌∷◌, map}
use mathlib.Core.Option.{Option, none, some}
use kithkit.Base.Tests.{ltb, leb, ◌==◌, if◌then◌else◌}

-- A finite number: `over / (under + 1)`, with its sign.
pub record Number : Type 0 where
  pub negative : Bool
  pub over : ℕ
  pub under : ℕ

abbrev pub whole : ℕ → Number
whole k = record { negative = false; over = k; under = 0 }

abbrev pub is_zero : Number → Bool
is_zero n = n.over == 0

abbrev pub is_positive : Number → Bool
is_positive n = not n.negative && not (is_zero n)

-- Whether the number is `k`.
abbrev pub is_whole : ℕ → Number → Bool
is_whole k n = n.over == k * (n.under + 1) && (not n.negative || is_zero n)

-- Whether the number is above `k`.
abbrev pub above : ℕ → Number → Bool
above k n = not n.negative && ltb (k * (n.under + 1)) n.over

-- `thing` is an array, object or function, all of them truthy.
pub data JsValue : Type 0 where
  null : JsValue
  thing : JsValue
  bool : Bool → JsValue
  number : Number → JsValue
  text : String → JsValue

-- A field of a body: `none` where it is `undefined`.
abbrev pub Field : Type 0
Field = Option JsValue

abbrev pub given : Field → Bool
given none = false
given (some v) = true

abbrev pub is_empty : String → Bool
is_empty String.[] = true
is_empty (String.◌∷◌ c s) = false

abbrev pub truthy : JsValue → Bool
truthy null = false
truthy (bool b) = b
truthy thing = true
truthy (number n) = not (is_zero n)
truthy (text s) = elim (is_empty s) [ true ↦ false | false ↦ true ]

-- `typeof v === 'string' ? v : null`
abbrev pub text_or_null : JsValue → Option String
text_or_null (text s) = some s
text_or_null null = none
text_or_null (bool b) = none
text_or_null thing = none
text_or_null (number n) = none

-- `typeof v === 'number' ? v : null`
abbrev pub number_or_null : JsValue → Option Number
number_or_null (number n) = some n
number_or_null _ = none

-- `v === null ? null : (v ? 1 : 0)`
abbrev pub flag_or_null : JsValue → Option Bool
flag_or_null null = none
flag_or_null v = some (truthy v)

-- The code points of a text.
unfoldable pub codes : String → List ℕ
codes String.[] = []
codes (String.◌∷◌ c s) = code c ∷ codes s

-- `toLowerCase` on the ASCII letters. No other character lowers to a single ASCII letter but the
-- Kelvin sign, to `k`, which occurs in no word that the program compares with.
unfoldable pub lower : ℕ → ℕ
lower c = if leb b'A' c && leb c b'Z' then c + 32 else c

unfoldable pub same_codes : List ℕ → List ℕ → Bool
same_codes [] [] = true
same_codes (x ∷ xs) (y ∷ ys) = x == y && same_codes xs ys
same_codes _ _ = false

-- `s.toLowerCase() === word`
unfoldable pub lowers_to : String → String → Bool
unfolding codes lower same_codes
lowers_to s word = same_codes (map lower (codes s)) (codes word)

-- The text after a prefix, where it has the prefix.
unfoldable pub strip_prefix : List ℕ → List ℕ → Option (List ℕ)
strip_prefix [] s = some s
strip_prefix (p ∷ ps) [] = none
strip_prefix (p ∷ ps) (c ∷ s) = let rest = strip_prefix ps s in if p == c then rest else none

-- The text before a suffix, where it has the suffix.
unfoldable pub strip_suffix : List ℕ → List ℕ → Option (List ℕ)
unfolding same_codes
strip_suffix suffix [] = if same_codes suffix [] then some [] else none
strip_suffix suffix (c ∷ s) =
    let rest = strip_suffix suffix s in
    if same_codes suffix (c ∷ s) then some [] else elim rest [ none ↦ none | some t ↦ some (c ∷ t) ]

-- The order of `sort` on texts. It compares UTF-16 units, here code points.
unfoldable pub codes_le : List ℕ → List ℕ → Bool
codes_le [] t = true
codes_le (c ∷ s) [] = false
codes_le (c ∷ s) (d ∷ t) = let rest = codes_le s t in ltb c d || c == d && rest
