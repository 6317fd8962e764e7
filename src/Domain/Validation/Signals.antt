-- ===== src/Domain/Validation/Signals.antt =====
-- Which signals the constructor accepts.
use safe_signal_trader_v.Prelude.{
  ℕ, ◌≤◌, false, Option, none, some, List, [], ◌∷◌, map, ◌==◌, ◌≡◌, ◌≢◌, ◌↔◌, length, any, All,
  arith, refl, ◌⊎◌,
}
use safe_signal_trader_v.Outcome.{ok, err, validation_error}
use safe_signal_trader_v.Domain.Models.{TakeProfitLevel, NormalizedSignal}
use safe_signal_trader_v.Domain.Validation.{
  distinct, tp_indices_unique, leverage_bounds, normalized_signal,
}

-- No number stands in the list twice.
abbrev pub NoRepeats : List ℕ → Type 0
NoRepeats [] = Unit
NoRepeats (x ∷ xs) = All (λ (y : ℕ). x ≢ y) xs × NoRepeats xs

any-distinct :
    (x : ℕ) (xs : List ℕ) → any (λ (y : ℕ). x == y) (distinct xs) ≡ any (λ (y : ℕ). x == y) xs
unfolding distinct
any-distinct x [] = refl
any-distinct x (y ∷ ys) =
    ground (arith, any-distinct x ys, any-distinct y ys, any_eq x y (distinct ys))
  where
    any_eq :
        (x y : ℕ) (zs : List ℕ) → x ≡ y → any (λ (z : ℕ). x == z) zs ≡ any (λ (z : ℕ). y == z) zs
    any_eq x y zs e = rw e refl

distinct-le : (xs : List ℕ) → length (distinct xs) ≤ length xs
unfolding distinct
distinct-le [] = omega arith
distinct-le (x ∷ xs) = ground (arith, distinct-le xs)

any-none : (x : ℕ) (xs : List ℕ) → (any (λ (y : ℕ). x == y) xs ≡ false) ↔ All (λ (y : ℕ). x ≢ y) xs
any-none x [] = (λ _. tt, λ _. refl)
any-none x (y ∷ ys) =
    (λ h. ground (arith, (any-none x ys).0), λ h. ground (arith, (any-none x ys).1))

distinct-NoRepeats : (xs : List ℕ) → (length xs ≡ length (distinct xs)) ↔ NoRepeats xs
unfolding distinct
distinct-NoRepeats [] = (λ _. tt, λ _. refl)
distinct-NoRepeats (x ∷ xs) = (
  λ h.
      ground
        (arith, distinct-le xs, any-distinct x xs, (any-none x xs).0, (distinct-NoRepeats xs).0),
  λ h. ground (arith, any-distinct x xs, (any-none x xs).1, (distinct-NoRepeats xs).1),
)

abbrev pub LeverageFits : Option ℕ → Type 0
LeverageFits none = Unit
LeverageFits (some n) = (1 ≤ n) × (n ≤ 125)

-- A signal is accepted, and unchanged, exactly when its leverage is missing or between 1 and 125 and
-- no two of its take profits have the same index; any other is refused with a `ValidationError`.
pub normalized_signal-accepts :
    (signal : NormalizedSignal)
    → ((normalized_signal signal ≡ ok signal) ↔ (
        LeverageFits signal.leverage
        × NoRepeats (map (λ (tp : TakeProfitLevel). tp.index) signal.take_profits)))
      × ((normalized_signal signal ≡ ok signal) ⊎ (normalized_signal signal ≡ err validation_error))
unfolding normalized_signal tp_indices_unique leverage_bounds
normalized_signal-accepts signal =
    ground
      (arith, distinct-NoRepeats (map (λ (tp : TakeProfitLevel). tp.index) signal.take_profits))
