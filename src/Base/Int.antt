-- ===== src/Base/Int.antt =====
-- Python's `int` for the values that the source takes from JSON, and its decimal text.
use Prim.Native.Nat.{ℕ, zero, suc, ◌+◌, ◌-◌, ◌*◌, ◌/◌, ◌%◌}
use Prim.Native.Char.{code}
use Prim.Native.String.{String, [], ◌∷◌, ◌++◌}
use mathlib.Core.Path.{◌≡◌, refl}
use mathlib.Core.Bool.{Bool, true, false, ◌&&◌}
use mathlib.Core.Option.{Option, none, some}
use app_scan_custom_dashboar.Base.Tests.{if◌then◌else◌, ltb, leb, eqb}

-- `negsuc n` is -(n + 1).
pub data ℤ : Type 0 where
  pos : ℕ → ℤ
  negsuc : ℕ → ℤ

abbrev pub pos_part : ℤ → ℕ
pos_part (pos n) = n
pos_part (negsuc n) = 0

abbrev pub neg_part : ℤ → ℕ
neg_part (pos n) = 0
neg_part (negsuc n) = suc n

-- `a - b` of natural numbers, as an integer.
abbrev sub_ℕ : ℕ → ℕ → ℤ
sub_ℕ a b = if leb b a then pos (a - b) else negsuc (b - a - 1)

infixl 65 ◌-ℤ◌
unfoldable pub ◌-ℤ◌ : ℤ → ℤ → ℤ
a -ℤ b = sub_ℕ (pos_part a + neg_part b) (neg_part a + pos_part b)

abbrev digit : ℕ → String
digit zero = "0"
digit (suc zero) = "1"
digit (suc (suc zero)) = "2"
digit (suc (suc (suc zero))) = "3"
digit (suc (suc (suc (suc zero)))) = "4"
digit (suc (suc (suc (suc (suc zero))))) = "5"
digit (suc (suc (suc (suc (suc (suc zero)))))) = "6"
digit (suc (suc (suc (suc (suc (suc (suc zero))))))) = "7"
digit (suc (suc (suc (suc (suc (suc (suc (suc zero)))))))) = "8"
digit (suc (suc (suc (suc (suc (suc (suc (suc (suc n))))))))) = "9"

-- `n` has fewer than `n + 1` digits, so that fuel is enough.
decimal_from : ℕ → ℕ → String
decimal_from zero n = ""
decimal_from (suc fuel) n =
    let rest = decimal_from fuel (n / 10) ++ digit (n % 10) in if ltb n 10 then digit n else rest

unfoldable pub decimal : ℕ → String
unfolding decimal_from
decimal n = decimal_from (suc n) n

-- `str(i)`.
unfoldable pub decimal_ℤ : ℤ → String
unfolding decimal
decimal_ℤ (pos n) = decimal n
decimal_ℤ (negsuc n) = "-" ++ decimal (suc n)

-- The digits of `int(text)`: one `_` may stand between two digits.
digits_value : ℕ → Bool → String → Option ℕ
digits_value value after_digit [] = if after_digit then some value else none
digits_value value after_digit (c ∷ s) =
    let is_digit = leb 48 (code c) && leb (code c) 57 in
    let more = digits_value (if is_digit then value * 10 + (code c - 48) else value) is_digit s in
    if is_digit then more else if eqb (code c) 95 && after_digit then more else none

negated : Option ℕ → Option ℤ
negated none = none
negated (some zero) = some (pos zero)
negated (some (suc n)) = some (negsuc n)

positive : Option ℕ → Option ℤ
positive none = none
positive (some n) = some (pos n)

-- `int(text)` of a text without white space round it: `none` is a ValueError.
unfoldable pub parse_int : String → Option ℤ
unfolding digits_value negated positive
parse_int [] = none
parse_int (c ∷ s) =
    if eqb (code c) 45
    then negated (digits_value 0 false s)
    else if eqb (code c) 43
    then positive (digits_value 0 false s)
    else positive (digits_value 0 false (c ∷ s))

-- `text.isdigit()` on ASCII, and `text.lstrip("-")`.
all_digits : String → Bool
all_digits [] = true
all_digits (c ∷ s) = leb 48 (code c) && leb (code c) 57 && all_digits s

unfoldable pub is_digits : String → Bool
unfolding all_digits
is_digits [] = false
is_digits (c ∷ s) = all_digits (c ∷ s)

unfoldable pub lstrip_dash : String → String
lstrip_dash [] = []
lstrip_dash (c ∷ s) = let rest = lstrip_dash s in if eqb (code c) 45 then rest else c ∷ s

numbers :
    (parse_int "-1_2" ≡ some (negsuc 11))
    × (parse_int "1__2" ≡ none)
    × (is_digits (lstrip_dash "--7") ≡ true)
unfolding parse_int is_digits lstrip_dash
numbers = (refl, refl, refl)
