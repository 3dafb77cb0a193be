-- ===== src/Base/Decimal.antt =====
-- Different numbers have different decimals: a decimal can be read back.
use Prim.Native.Nat.{ℕ, zero, suc, ◌+◌, ◌-◌, ◌*◌, ◌/◌, ◌%◌, ◌≤◌, ◌<◌}
use Prim.Native.Char.{Char, code}
use Prim.Native.String.{String}
use mathlib.Core.Path.{◌≡◌, refl, sym, ap, ◌∙◌}
use mathlib.Core.Logic.{inl, inr}
use native.Mathlib.Omega.{arith}
use etcdops.Base.Tests.{◌==◌, Bool-cases}
use etcdops.Base.Text.{digit, decimal_from, decimal}

digit_value : Char → ℕ
digit_value c = code c - 48

read_from : ℕ → String → ℕ
unfolding digit_value
read_from n String.[] = n
read_from n (String.◌∷◌ c s) = read_from (n * 10 + digit_value c) s

digit_value-digit : (n : ℕ) → n < 10 → digit_value (digit n) ≡ n
unfolding digit_value
digit_value-digit zero h = refl
digit_value-digit (suc zero) h = refl
digit_value-digit (suc (suc zero)) h = refl
digit_value-digit (suc (suc (suc zero))) h = refl
digit_value-digit (suc (suc (suc (suc zero)))) h = refl
digit_value-digit (suc (suc (suc (suc (suc zero))))) h = refl
digit_value-digit (suc (suc (suc (suc (suc (suc zero)))))) h = refl
digit_value-digit (suc (suc (suc (suc (suc (suc (suc zero))))))) h = refl
digit_value-digit (suc (suc (suc (suc (suc (suc (suc (suc zero)))))))) h = refl
digit_value-digit (suc (suc (suc (suc (suc (suc (suc (suc (suc zero))))))))) h = refl
digit_value-digit (suc (suc (suc (suc (suc (suc (suc (suc (suc (suc n)))))))))) h =
    absurd (omega arith)

-- One more digit in front of what is read
read_from-step :
    (n : ℕ) (out : String) → read_from (n / 10) (String.◌∷◌ (digit (n % 10)) out) ≡ read_from n out
unfolding read_from
read_from-step n out =
    let whole : n / 10 * 10 + digit_value (digit (n % 10)) ≡ n =
      omega (arith, digit_value-digit (n % 10) (omega arith)) in
    ap (λ k. read_from k out) whole

read_from-decimal :
    (fuel n : ℕ) (out : String) → n ≤ fuel → read_from 0 (decimal_from fuel n out) ≡ read_from n out
unfolding decimal_from
read_from-decimal zero n out h =
    let none_left : 0 ≡ n / 10 = omega arith in
    ap (λ k. read_from k (String.◌∷◌ (digit (n % 10)) out)) none_left ∙ read_from-step n out
read_from-decimal (suc fuel) n out h = elim (Bool-cases (n / 10 == 0)) [
  | inl last ↦
      let goes : decimal_from (suc fuel) n out ≡ String.◌∷◌ (digit (n % 10)) out = ground arith in
      let none_left : 0 ≡ n / 10 = ground arith in
      ap (read_from 0) goes
      ∙ ap (λ k. read_from k (String.◌∷◌ (digit (n % 10)) out)) none_left
      ∙ read_from-step n out
  | inr more ↦
      let rest = String.◌∷◌ (digit (n % 10)) out in
      let goes : decimal_from (suc fuel) n out ≡ decimal_from fuel (n / 10) rest = ground arith in
      ap (read_from 0) goes
      ∙ read_from-decimal fuel (n / 10) rest (omega arith)
      ∙ read_from-step n out
]

pub decimal-injective : (m n : ℕ) → decimal m ≡ decimal n → m ≡ n
unfolding decimal read_from
decimal-injective m n e =
    sym (read_from-decimal m m "" (omega arith))
    ∙ ap (read_from 0) e
    ∙ read_from-decimal n n "" (omega arith)
