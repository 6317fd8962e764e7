-- ===== src/Decimal/Order.antt =====
-- The order of the numbers: a total preorder (two scales may hold one value).
use native.Mathlib.Nat.{one-le-pow, le_refl, mul-le-mul}
use safe_signal_trader_v.Prelude.{ℕ, ◌+◌, ◌*◌, ◌^◌, ◌≤◌, ◌<◌, ◌≡◌, ◌⊎◌, true, arith}
use safe_signal_trader_v.Prelude.Int.{pos_part}
use safe_signal_trader_v.Decimal.Number.{
  Decimal, cross, ◌≼◌, ◌≺◌, at_most, smaller, zero_dec, nonzero,
}

pub ten_pow_pos : (k : ℕ) → 0 < 10 ^ k
ten_pow_pos k = one-le-pow k 10 (omega arith)

pub ≼-refl : (a : Decimal) → a ≼ a
≼-refl a = le_refl _

pub ≼-total : (a b : Decimal) → (a ≼ b) ⊎ (b ≼ a)
≼-total a b = omega arith

cancel_pos : (x y k : ℕ) → 0 < k → x * k ≤ y * k → x ≤ y
cancel_pos x y k h e = grind arith

-- The fractions (p - n) / s are ordered transitively, cross-multiplied.
cross_trans :
    (pa na sa pb nb sb pc nc sc : ℕ)
    → 0 < sb
    → pa * sb + nb * sa ≤ pb * sa + na * sb
    → pb * sc + nc * sb ≤ pc * sb + nb * sc
    → pa * sc + nc * sa ≤ pc * sa + na * sc
cross_trans pa na sa pb nb sb pc nc sc h x y =
    let left : (pa * sb + nb * sa) * sc ≤ (pb * sa + na * sb) * sc = mul-le-mul x (le_refl sc) in
    let right : (pb * sc + nc * sb) * sa ≤ (pc * sb + nb * sc) * sa = mul-le-mul y (le_refl sa) in
    cancel_pos _ _ sb h (omega arith)

pub ≼-trans : (a b c : Decimal) → a ≼ b → b ≼ c → a ≼ c
unfolding cross
≼-trans a b c h k = cross_trans _ _ _ _ _ _ _ _ _ (ten_pow_pos b.scale) h k

pub smaller-le_left : (a b : Decimal) → smaller a b ≼ a
unfolding smaller
smaller-le_left a b = ground (arith, ≼-refl a)

pub smaller-le_right : (a b : Decimal) → smaller a b ≼ b
unfolding smaller
smaller-le_right a b = ground (arith, ≼-refl b)

-- `a >= b` and `b <= a` are one test; so are `not (a < b)` and `b <= a`.
pub at_most→≼ : (a b : Decimal) → at_most a b ≡ true → a ≼ b
at_most→≼ a b h = ground arith

pub ≼→at_most : (a b : Decimal) → a ≼ b → at_most a b ≡ true
≼→at_most a b h = ground arith

pub pos_of_coeff : (a : Decimal) → zero_dec ≺ a → 0 < pos_part a.coeff
unfolding cross
pos_of_coeff a h = omega arith

pub nonzero_of_pos : (a : Decimal) → zero_dec ≺ a → nonzero a ≡ true
nonzero_of_pos a h = ground (arith, pos_of_coeff a h)
