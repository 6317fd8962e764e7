-- ===== src/Decimal/Number.antt =====
-- Numbers and exact comparison: `Decimal` compares without rounding.
use safe_signal_trader_v.Prelude.{ℕ, ◌+◌, ◌*◌, ◌^◌, ◌≤◌, ◌<◌, Bool, ltb, leb}
use safe_signal_trader_v.Prelude.Int.{ℤ, pos, pos_part, neg_part}

pub record Decimal : Type 0 where
  pub coeff : ℤ
  pub scale : ℕ

-- `Decimal(n)`
abbrev pub of_nat : ℕ → Decimal
of_nat n = record { coeff = pos n; scale = 0 }

-- `Decimal` of the text of a number with `s` digits after the point
abbrev pub of_digits : ℕ → ℕ → Decimal
of_digits n s = record { coeff = pos n; scale = s }

-- `a` is at most `b` when `cross a b` is at most `cross b a`.
unfoldable pub cross : Decimal → Decimal → ℕ
cross a b = pos_part a.coeff * 10 ^ b.scale + neg_part b.coeff * 10 ^ a.scale

infix 50 ◌≼◌ ◌≺◌
abbrev pub ◌≼◌ : Decimal → Decimal → Type 0
a ≼ b = cross a b ≤ cross b a

abbrev pub ◌≺◌ : Decimal → Decimal → Type 0
a ≺ b = cross a b < cross b a

-- `a <= b`
abbrev pub at_most : Decimal → Decimal → Bool
at_most a b = leb (cross a b) (cross b a)

-- `a < b`
abbrev pub below : Decimal → Decimal → Bool
below a b = ltb (cross a b) (cross b a)

abbrev pub zero_dec : Decimal
zero_dec = of_nat 0

-- `bool(a)`: a number is true unless it is zero.
abbrev pub nonzero : Decimal → Bool
nonzero a = ltb 0 (pos_part a.coeff + neg_part a.coeff)

-- `min(a, b)` keeps its first argument on a tie.
unfoldable pub smaller : Decimal → Decimal → Decimal
smaller a b = elim (below b a) [ Bool.true ↦ b | Bool.false ↦ a ]
