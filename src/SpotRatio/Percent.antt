-- ===== src/SpotRatio/Percent.antt =====
-- The two readers of percentages agree on every text of the guardrail pattern.
use workload_class.Prelude.{ℕ, ◌+◌, ◌-◌, ◌*◌, ◌≤◌, ◌≡◌, arith, true, some, [], ◌∷◌, Str, ok}
use workload_class.Prelude.Int.{pos}
use workload_class.SpotRatio.{
  atoi, digits_value, unsigned_value, before_percent, parse_percentage, is_percentage,
  guardrail_percent,
}

-- The number that a text of the pattern stands for.
pub denotes : Str → ℕ
denotes (a ∷ b ∷ []) = a - b'0'
denotes (a ∷ b ∷ c ∷ []) = 10 * (a - b'0') + (b - b'0')
denotes _ = 100

-- A text that matches percentagePattern is read by ParsePercentage and by guardrailPercent, without an
-- error, as the number from 0 to 100 that its digits denote.
pub is_percentage-denotes :
    (s : Str)
    → is_percentage s ≡ true
    → (parse_percentage s ≡ ok (denotes s))
      × (guardrail_percent s ≡ some (pos (denotes s)))
      × (denotes s ≤ 100)
unfolding is_percentage parse_percentage guardrail_percent before_percent atoi unsigned_value
    digits_value denotes
is_percentage-denotes [] h = cc
is_percentage-denotes (a ∷ []) h = cc
is_percentage-denotes (a ∷ b ∷ []) h = (ground arith, ground arith, ground arith)
is_percentage-denotes (a ∷ b ∷ c ∷ []) h = (ground arith, ground arith, ground arith)
is_percentage-denotes (a ∷ b ∷ c ∷ d ∷ []) h = (ground arith, ground arith, ground arith)
is_percentage-denotes (a ∷ b ∷ c ∷ d ∷ e ∷ s) h = cc

-- ParsePercentage returns no number above 100.
pub parse_percentage-le : (s : Str) (n : ℕ) → parse_percentage s ≡ ok n → n ≤ 100
unfolding parse_percentage
parse_percentage-le s n h = ground arith
