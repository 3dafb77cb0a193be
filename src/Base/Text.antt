-- ===== src/Base/Text.antt =====
-- Decimals as `fmt` prints them, and the laws of texts that names are made of.
use Prim.Native.Nat.{ℕ, zero, suc, ◌/◌, ◌%◌}
use Prim.Native.Char.{Char}
use Prim.Native.String.{String, ◌++◌ as ◌<>◌}
use mathlib.Core.Path.{◌≡◌, refl}
use mathlib.Core.Bool.{true, false}
use etcdops.Base.Tests.{◌==◌}
use etcdops.Base.Int.{ℤ, pos, negsuc}

-- The text of one digit.
abbrev pub digit : ℕ → Char
digit zero = "0"
digit (suc zero) = "1"
digit (suc (suc zero)) = "2"
digit (suc (suc (suc zero))) = "3"
digit (suc (suc (suc (suc zero)))) = "4"
digit (suc (suc (suc (suc (suc zero))))) = "5"
digit (suc (suc (suc (suc (suc (suc zero)))))) = "6"
digit (suc (suc (suc (suc (suc (suc (suc zero))))))) = "7"
digit (suc (suc (suc (suc (suc (suc (suc (suc zero)))))))) = "8"
digit (suc (suc (suc (suc (suc (suc (suc (suc (suc n))))))))) = "9"

-- The digits of `n` in front of `out`; a round divides `n` by ten, so `n` rounds are enough.
unfoldable pub decimal_from : ℕ → ℕ → String → String
decimal_from zero n out = String.◌∷◌ (digit (n % 10)) out
decimal_from (suc fuel) n out = elim (n / 10 == 0) [
  | true ↦ String.◌∷◌ (digit (n % 10)) out
  | false ↦ decimal_from fuel (n / 10) (String.◌∷◌ (digit (n % 10)) out)
]

-- `%d` of a number that is not negative.
unfoldable pub decimal : ℕ → String
unfolding decimal_from
decimal n = decimal_from n n ""

decimal_example : decimal 1650 ≡ "1650"
unfolding decimal
decimal_example = refl

-- `%d` of any integer.
unfoldable pub decimal_int : ℤ → String
unfolding decimal
decimal_int (pos n) = decimal n
decimal_int (negsuc n) = "-" <> decimal (suc n)
