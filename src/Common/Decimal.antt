-- ===== src/Common/Decimal.antt =====
-- Decimal numerals, as Go's `%d` prints a number that is not negative.
use Prim.Native.Nat.{ℕ, zero, suc, ◌+◌, ◌-◌, ◌*◌, ◌/◌, ◌%◌, ◌<◌}
use mathlib.Core.Path.{◌≡◌, refl, sym, ap, ◌∙◌}
use mathlib.Core.List.{[], ◌∷◌}
use mathlib.Core.Logic.{inl, inr}
use native.Mathlib.Omega.{arith}
use fq_connector_go.Common.Tests.{ltb, Bool-cases, if◌then◌else◌}
use fq_connector_go.Common.Lists.{Bytes, codes}

-- The digits of `n` in front of `out`; the fuel is a bound on the number of digits.
unfoldable pub decimal_before : ℕ → ℕ → Bytes → Bytes
decimal_before zero n out = out
decimal_before (suc f) n out =
    let rest = decimal_before f (n / 10) ((b'0' + n % 10) ∷ out) in
    if ltb n 10 then (b'0' + n) ∷ out else rest

unfoldable pub decimal : ℕ → Bytes
unfolding decimal_before
decimal n = decimal_before (suc n) n []

-- Enough fuel gives one result.
pub decimal_before-fuel :
    (f g n : ℕ) (out : Bytes) → n < f → n < g → decimal_before f n out ≡ decimal_before g n out
unfolding decimal_before
decimal_before-fuel zero g n out h k = absurd (omega arith)
decimal_before-fuel (suc f) zero n out h k = absurd (omega arith)
decimal_before-fuel (suc f) (suc g) n out h k =
    ground (arith, decimal_before-fuel f g (n / 10) ((b'0' + n % 10) ∷ out))

-- The number that digits spell behind `n`.
abbrev pub spelled : ℕ → Bytes → ℕ
spelled n [] = n
spelled n (c ∷ s) = spelled (n * 10 + (c - b'0')) s

pub spelled-decimal_before :
    (f n : ℕ) (out : Bytes) → n < f → spelled 0 (decimal_before f n out) ≡ spelled n out
unfolding decimal_before
spelled-decimal_before zero n out h = absurd (omega arith)
spelled-decimal_before (suc f) n out h = elim (Bool-cases (ltb n 10)) [
  | inl last ↦
      let e : 0 * 10 + ((b'0' + n) - b'0') ≡ n = omega arith in rw last (ap (λ m. spelled m out) e)
  | inr more ↦
      let e : n / 10 * 10 + ((b'0' + n % 10) - b'0') ≡ n = omega arith in
      rw more (
        spelled-decimal_before f (n / 10) ((b'0' + n % 10) ∷ out) (ground arith)
        ∙ ap (λ m. spelled m out) e)
]

-- A numeral spells its number.
pub spelled-decimal : (n : ℕ) → spelled 0 (decimal n) ≡ n
unfolding decimal
spelled-decimal n = spelled-decimal_before (suc n) n [] (omega arith)

-- Different numbers have different numerals.
pub decimal-injective : (m n : ℕ) → decimal m ≡ decimal n → m ≡ n
decimal-injective m n h = sym (spelled-decimal m) ∙ ap (spelled 0) h ∙ spelled-decimal n

decimal_runs : decimal 1230 ≡ codes "1230"
unfolding decimal
decimal_runs = refl
