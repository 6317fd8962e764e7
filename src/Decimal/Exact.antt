-- ===== src/Decimal/Exact.antt =====
-- Arithmetic within 28 digits is exact.
use Prim.Native.Nat.add
use native.Mathlib.Nat.{pow-succ', pow-zero, le_refl, mul-le-mul}
use safe_signal_trader_v.Prelude.{ℕ, zero, suc, ◌+◌, ◌-◌, ◌*◌, ◌/◌, ◌^◌, ◌≤◌, ◌<◌, ◌≡◌, refl, arith}
use safe_signal_trader_v.Prelude.Int.{pos_part, neg_part, sub_ℕ}
use safe_signal_trader_v.Decimal.Number.{Decimal, cross, ◌≼◌, zero_dec}
use safe_signal_trader_v.Decimal.Rounding.{
  precision, digits_from, digits, half_even, round_mag, rounded, sub,
}

digits_from-le : (f n k : ℕ) → n < 10 ^ k → digits_from f n ≤ k
unfolding digits_from
digits_from-le zero n k h = omega arith
digits_from-le (suc f) n zero h = ground arith
digits_from-le (suc f) n (suc k) h = ground (arith, digits_from-le f (n / 10) k, pow-succ' 10 k)

-- A number of at most 28 digits is not rounded.
pub round_mag-exact : (n : ℕ) → n < 10 ^ precision → round_mag n ≡ n
unfolding round_mag half_even digits
round_mag-exact n h =
    let short : digits_from n n - precision ≡ 0 = omega (arith, digits_from-le n n precision h) in
    rw short (ground arith)

pub pow_add : (b m n : ℕ) → b ^ (m + n) ≡ b ^ m * b ^ n
pow_add b zero n = rw (add.zero, pow-zero) (omega arith)
pow_add b (suc m) n = rw (add.suc, pow-succ', pow-succ', pow_add b m n) (omega arith)

-- `a - b` needs no rounding: its coefficient at the common scale has at most 28 digits.
abbrev pub SubFits : Decimal → Decimal → Type 0
SubFits a b =
    (pos_part a.coeff * 10 ^ b.scale + neg_part b.coeff * 10 ^ a.scale
      < neg_part a.coeff * 10 ^ b.scale + pos_part b.coeff * 10 ^ a.scale + 10 ^ precision)
    × (neg_part a.coeff * 10 ^ b.scale + pos_part b.coeff * 10 ^ a.scale
        < pos_part a.coeff * 10 ^ b.scale + neg_part b.coeff * 10 ^ a.scale + 10 ^ precision)

pub rounded-exact :
    (p n s : ℕ)
    → p < n + 10 ^ precision
    → n < p + 10 ^ precision
    → rounded p n s ≡ record { coeff = sub_ℕ (p - n) (n - p); scale = s }
unfolding rounded
rounded-exact p n s h k =
    rw (round_mag-exact (p - n) (omega arith), round_mag-exact (n - p) (omega arith))

sub-parts : (p n : ℕ) → pos_part (sub_ℕ (p - n) (n - p)) + n ≡ neg_part (sub_ℕ (p - n) (n - p)) + p
sub-parts p n = ground arith

sub-exact :
    (a b : Decimal)
    → SubFits a b
    → (pos_part (sub a b).coeff
          + (neg_part a.coeff * 10 ^ b.scale + pos_part b.coeff * 10 ^ a.scale)
        ≡ neg_part (sub a b).coeff
          + (pos_part a.coeff * 10 ^ b.scale + neg_part b.coeff * 10 ^ a.scale))
      × ((sub a b).scale ≡ a.scale + b.scale)
unfolding sub
sub-exact a b fits = rw (rounded-exact _ _ _ fits.0 fits.1) (sub-parts _ _, refl)

scaled_le :
    (x y pa na pb nb s t : ℕ)
    → nb ≤ pb
    → x + (na * t + pb * s) ≡ y + (pa * t + nb * s)
    → x * s + na * (s * t) ≤ pa * (s * t) + y * s
scaled_le x y pa na pb nb s t h e =
    let less : x + na * t ≤ y + pa * t = grind arith in
    let times : (x + na * t) * s ≤ (y + pa * t) * s = mul-le-mul less (le_refl s) in omega arith

-- Taking away a number that is not negative does not increase.
pub sub-le : (a b : Decimal) → SubFits a b → zero_dec ≼ b → sub a b ≼ a
unfolding cross
sub-le a b fits h =
    let e = sub-exact a b fits in
    rw (e.1, pow_add 10 a.scale b.scale)
      (scaled_le _ _ _ _ _ _ (10 ^ a.scale) (10 ^ b.scale) (omega arith) e.0)
