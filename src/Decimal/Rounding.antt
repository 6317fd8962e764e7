-- ===== src/Decimal/Rounding.antt =====
-- Arithmetic under the default context.
use safe_signal_trader_v.Prelude.{
  ℕ, zero, suc, ◌+◌, ◌-◌, ◌*◌, ◌/◌, ◌%◌, ◌^◌, true, false, ◌&&◌, ◌||◌, Option, none, some, ltb, leb,
  ◌==◌, if◌then◌else◌,
}
use safe_signal_trader_v.Prelude.Int.{ℤ, pos, pos_part, neg_part, sub_ℕ}
use safe_signal_trader_v.Decimal.Number.{Decimal}

-- `getcontext().prec`
abbrev pub precision : ℕ
precision = 28

-- The number of decimal digits of `n`; the fuel `n` is enough, since every step divides by ten.
unfoldable pub digits_from : ℕ → ℕ → ℕ
digits_from zero n = 0
digits_from (suc f) n = elim (n == 0) [ true ↦ 0 | false ↦ suc (digits_from f (n / 10)) ]

unfoldable pub digits : ℕ → ℕ
unfolding digits_from
digits n = digits_from n n

-- Drop the last `k` digits, to the nearest, and to the even one at a tie.
unfoldable pub half_even : ℕ → ℕ → ℕ
half_even n k =
    let unit = 10 ^ k in
    let q = n / unit in
    let twice = 2 * (n % unit) in
    if ltb unit twice || (twice == unit && q % 2 == 1) then q + 1 else q

-- A magnitude at 28 significant digits.
unfoldable pub round_mag : ℕ → ℕ
unfolding digits half_even
round_mag n = let k = digits n - precision in half_even n k * 10 ^ k

-- Every result of `+`, `-`, `*` and `/` is rounded so.
unfoldable pub rounded : ℕ → ℕ → ℕ → Decimal
unfolding round_mag
rounded p n s = record { coeff = sub_ℕ (round_mag (p - n)) (round_mag (n - p)); scale = s }

unfoldable pub add : Decimal → Decimal → Decimal
add a b =
    rounded (pos_part a.coeff * 10 ^ b.scale + pos_part b.coeff * 10 ^ a.scale)
      (neg_part a.coeff * 10 ^ b.scale + neg_part b.coeff * 10 ^ a.scale) (a.scale + b.scale)

unfoldable pub sub : Decimal → Decimal → Decimal
sub a b =
    rounded (pos_part a.coeff * 10 ^ b.scale + neg_part b.coeff * 10 ^ a.scale)
      (neg_part a.coeff * 10 ^ b.scale + pos_part b.coeff * 10 ^ a.scale) (a.scale + b.scale)

unfoldable pub mul : Decimal → Decimal → Decimal
mul a b =
    rounded (pos_part a.coeff * pos_part b.coeff + neg_part a.coeff * neg_part b.coeff)
      (pos_part a.coeff * neg_part b.coeff + neg_part a.coeff * pos_part b.coeff)
      (a.scale + b.scale)

-- The quotient of two magnitudes with more digits than the context keeps, and a last digit that is
-- 1 if there is a remainder, so that rounding it rounds the exact quotient.
unfoldable pub long_quotient : ℕ → ℕ → ℕ → ℕ
long_quotient n d shift = let m = n * 10 ^ shift in m / d * 10 + (if m % d == 0 then 0 else 1)

-- `a / b`; `none` is the exception `DivisionByZero` (or `InvalidOperation`, for 0 / 0).
unfoldable pub div : Decimal → Decimal → Option Decimal
unfolding long_quotient digits
div a b =
    let d = pos_part b.coeff + neg_part b.coeff in
    let shift = precision + digits d in
    let q = long_quotient (pos_part a.coeff + neg_part a.coeff) d (b.scale + shift) in
    if d == 0
    then none
    else some (elim b.coeff [
      | pos _ ↦ elim a.coeff [
        | pos _ ↦ rounded q 0 (a.scale + shift + 1)
        | ℤ.negsuc _ ↦ rounded 0 q (a.scale + shift + 1)
      ]
      | ℤ.negsuc _ ↦ elim a.coeff [
        | pos _ ↦ rounded 0 q (a.scale + shift + 1)
        | ℤ.negsuc _ ↦ rounded q 0 (a.scale + shift + 1)
      ]
    ])

-- A whole result must fit the context, or the operation raises `InvalidOperation`.
unfoldable pub fitting : ℕ → ℕ → ℕ → Option Decimal
fitting p n s =
    if ltb (p + n) (10 ^ precision) then some (record { coeff = sub_ℕ p n; scale = s }) else none

-- `a.quantize(Decimal(1).scaleb(-s), rounding=ROUND_DOWN)`
unfoldable pub quantize_down : Decimal → ℕ → Option Decimal
unfolding fitting
quantize_down a s =
    if leb a.scale s
    then fitting (pos_part a.coeff * 10 ^ (s - a.scale)) (neg_part a.coeff * 10 ^ (s - a.scale)) s
    else fitting (pos_part a.coeff / 10 ^ (a.scale - s)) (neg_part a.coeff / 10 ^ (a.scale - s)) s

-- `a // b` for a positive `b`; `none` where it raises.
unfoldable pub floor_div : Decimal → Decimal → Option Decimal
unfolding fitting
floor_div a b =
    let d = pos_part b.coeff * 10 ^ a.scale in
    if pos_part b.coeff == 0
    then none
    else fitting (pos_part a.coeff * 10 ^ b.scale / d) (neg_part a.coeff * 10 ^ b.scale / d) 0

-- `-a`, which rounds as every operation does
unfoldable pub neg : Decimal → Decimal
neg a = rounded (neg_part a.coeff) (pos_part a.coeff) a.scale

-- `abs(a)`
unfoldable pub abs_dec : Decimal → Decimal
abs_dec a = rounded (pos_part a.coeff + neg_part a.coeff) 0 a.scale
