-- ===== src/Decimal/Positive.antt =====
-- Rounding never makes a number zero, so that a quotient by a rounded number exists.
use native.Mathlib.Nat.{pow-succ', pow-le-pow_right, le-div_iff_mul-le, mul-pos}
use safe_signal_trader_v.Prelude.{
  ℕ, zero, suc, ◌+◌, ◌-◌, ◌*◌, ◌/◌, ◌^◌, ◌≤◌, ◌<◌, Bool, true, false, none, some, ◌≡◌, refl, arith,
  ◌==◌, if◌then◌else◌,
}
use safe_signal_trader_v.Prelude.Int.{pos_part, neg_part}
use safe_signal_trader_v.Decimal.{
  Decimal, precision, digits, digits_from, half_even, round_mag, rounded, abs_dec, div, nonzero,
}
use safe_signal_trader_v.Decimal.Order.{ten_pow_pos}

digits_from-zero : (f : ℕ) → digits_from f 0 ≡ 0
unfolding digits_from
digits_from-zero zero = refl
digits_from-zero (suc f) = refl

digits_from-bound : (f n : ℕ) → 0 < n → 10 ^ digits_from f n ≤ 10 * n
unfolding digits_from
digits_from-bound zero n h = omega arith
digits_from-bound (suc f) zero h = absurd (omega (arith, h))
digits_from-bound (suc f) (suc m) h =
    let n = suc m in
    let part : 10 ^ digits_from f (n / 10) ≤ n =
      kept (n / 10) refl (digits_from-bound f (n / 10)) in
    let one_more : digits_from (suc f) n ≡ suc (digits_from f (n / 10)) = ground arith in
    rw (one_more, pow-succ') (omega (arith, part))
  where
    kept :
        (q : ℕ)
        → suc m / 10 ≡ q
        → (0 < q → 10 ^ digits_from f q ≤ 10 * q)
        → 10 ^ digits_from f q ≤ suc m
    kept zero e rest = rw (digits_from-zero f) (omega arith)
    kept (suc q) e rest = let ih = rest (omega arith) in omega (arith, ih, e)

-- the unit that rounding counts in is at most the number
unit-le : (n : ℕ) → 0 < n → 10 ^ (digits n - precision) ≤ n
unfolding digits
unit-le n h = kept (digits_from n n) refl
  where
    kept : (d : ℕ) → digits_from n n ≡ d → 10 ^ (d - precision) ≤ n
    kept zero e = omega arith
    kept (suc d) e =
        let bound : 10 * 10 ^ d ≤ 10 * n = rw pow-succ' at (rw e at (digits_from-bound n n h)) in
        let less : 10 ^ (suc d - precision) ≤ 10 ^ d =
          pow-le-pow_right (omega arith) (omega arith) in
        omega (arith, bound, less)

half_even-pos : (n k : ℕ) → 10 ^ k ≤ n → 0 < half_even n k
unfolding half_even
half_even-pos n k h =
    let some_left : 1 ≤ n / 10 ^ k = (le-div_iff_mul-le (ten_pow_pos k)).1 (omega (arith, h)) in
    ground arith

round_mag-pos : (n : ℕ) → 0 < n → 0 < round_mag n
unfolding round_mag
round_mag-pos n h =
    let q = half_even-pos n (digits n - precision) (unit-le n h) in
    let u = ten_pow_pos (digits n - precision) in mul-pos q u

div_exists : (a b : Decimal) → nonzero b ≡ true → (c : Decimal) × (div a b ≡ some c)
unfolding div
div_exists a b h = kept _ (pos_part b.coeff + neg_part b.coeff == 0) (ground arith)
  where
    kept :
        (q : Decimal) (is_zero : Bool)
        → is_zero ≡ false
        → (c : Decimal) × ((if is_zero then none else some q) ≡ some c)
    kept q true e = cc
    kept q false e = (q, refl)

abs_dec-nonzero : (b : Decimal) → nonzero b ≡ true → nonzero (abs_dec b) ≡ true
unfolding abs_dec rounded
abs_dec-nonzero b h =
    let n = pos_part b.coeff + neg_part b.coeff in
    let magnitude : 0 < n = ground arith in
    let kept : 0 < round_mag (n - 0) = round_mag-pos (n - 0) (omega (arith, magnitude)) in
    let rest : 0 - n ≡ 0 = omega arith in rw rest (ground (arith, kept))

-- A quotient by the magnitude of a number that is not zero exists.
pub div-abs_dec : (a b : Decimal) → nonzero b ≡ true → (c : Decimal) × (div a (abs_dec b) ≡ some c)
div-abs_dec a b h = div_exists a (abs_dec b) (abs_dec-nonzero b h)
