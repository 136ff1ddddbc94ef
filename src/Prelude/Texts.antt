-- ===== src/Prelude/Texts.antt =====
-- Texts as lists of code points, and `parseInt(s, 10)` on the texts that the services read.
use Prim.Native.Nat.{ℕ, ◌+◌, ◌-◌, ◌*◌}
use Prim.Native.Char.{code}
use Prim.Native.String.{String}
use mathlib.Core.Bool.{Bool, ◌&&◌}
use mathlib.Core.Option.{Option, none, some}
use mathlib.Core.List.{List, [], ◌∷◌}
use saas_chassis.Prelude.Tests.{leb, if◌then◌else◌}

abbrev pub codes : String → List ℕ
codes String.[] = []
codes (String.◌∷◌ c s) = code c ∷ codes s

-- `\d`
abbrev pub is_digit : ℕ → Bool
is_digit c = leb b'0' c && leb c b'9'

-- The number that a run of digits stands for, after the digits read so far.
unfoldable pub digits_value : ℕ → List ℕ → ℕ
digits_value acc [] = acc
digits_value acc (c ∷ cs) = digits_value (acc * 10 + (c - b'0')) cs

-- The value of the leading digits; `none` is NaN.
unfoldable pub parse_digits : Option ℕ → List ℕ → Option ℕ
parse_digits acc [] = acc
parse_digits acc (c ∷ cs) =
    let more = parse_digits (some ((elim acc [ none ↦ 0 | some n ↦ n * 10 ]) + (c - b'0'))) cs in
    if is_digit c then more else acc

unfoldable pub parse_int : String → Option ℕ
unfolding parse_digits
parse_int s = parse_digits none (codes s)
