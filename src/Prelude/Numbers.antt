-- ===== src/Prelude/Numbers.antt =====
-- Numbers as text, as `fmt` prints them: `%d`, and `%.0f` of a number of hundredths, which rounds
-- a half to the even neighbour.
use Prim.Native.Nat.{ℕ, zero, suc, ◌+◌, ◌/◌, ◌%◌}
use mathlib.Core.List.{[], ◌∷◌}
use mathlib.Core.Bool.{◌&&◌, ◌||◌}
use beacle.Prelude.Tests.{ltb, ◌==◌, if◌then◌else◌}
use beacle.Prelude.Texts.{Text}
use beacle.Prelude.Ints.{ℤ, pos, negsuc}

-- The digits of a number in front of a text. A number has fewer digits than it is large, so `n + 1`
-- rounds are enough for `n`.
digits_onto : ℕ → ℕ → Text → Text
digits_onto zero n rest = rest
digits_onto (suc fuel) n rest =
    let more = digits_onto fuel (n / 10) ((48 + n % 10) ∷ rest) in
    if ltb n 10 then (48 + n) ∷ rest else more

unfoldable pub number_text : ℕ → Text
unfolding digits_onto
number_text n = digits_onto (suc n) n []

unfoldable pub int_text : ℤ → Text
unfolding number_text
int_text (pos n) = number_text n
int_text (negsuc n) = b'-' ∷ number_text (suc n)

rounded : ℕ → ℕ
rounded n = if ltb 50 (n % 100) || (n % 100 == 50 && n / 100 % 2 == 1) then n / 100 + 1 else n / 100

unfoldable pub percent_text : ℤ → Text
unfolding number_text rounded
percent_text (pos n) = number_text (rounded n)
percent_text (negsuc n) = b'-' ∷ number_text (rounded (suc n))
