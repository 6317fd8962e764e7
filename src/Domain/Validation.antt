-- ===== src/Domain/Validation.antt =====
-- domain/models.py, the constraints: what a constructor call of a model refuses.
pub mod Signals
use safe_signal_trader_v.Prelude.{
  ℕ, Bool, true, ◌&&◌, ◌||◌, Option, none, some, List, [], ◌∷◌, map, leb, ◌==◌, if◌then◌else◌,
  length, any,
}
use safe_signal_trader_v.Decimal.{Decimal, of_nat, zero_dec, at_most, below}
use safe_signal_trader_v.Outcome.{Result, ok, err, validation_error, ◌>>=◌, ◌>>◌, require}
use safe_signal_trader_v.Domain.Models.{TakeProfitLevel, NormalizedSignal}

-- `_pct_bounds`
unfoldable pub pct_bounds : Option Decimal → Result (Option Decimal)
pct_bounds none = ok none
pct_bounds (some v) =
    if at_most v zero_dec || below (of_nat 100) v then err validation_error else ok (some v)

-- `TakeProfitLevel(index=…, price=…, size_pct=…)`
unfoldable pub take_profit_level : ℕ → Decimal → Option Decimal → Result TakeProfitLevel
unfolding pct_bounds
take_profit_level index price size_pct = do
  require (leb 1 index && leb index 5) validation_error
  pct ← pct_bounds size_pct
  ok (record { index = index; price = price; size_pct = pct })

-- `set(idxs)`, as a list without repetitions
unfoldable pub distinct : List ℕ → List ℕ
distinct [] = []
distinct (x ∷ xs) = let rest = distinct xs in if any (λ y. x == y) rest then rest else x ∷ rest

-- `_tp_indices_unique`
unfoldable pub tp_indices_unique : NormalizedSignal → Result NormalizedSignal
unfolding distinct
tp_indices_unique signal =
    let idxs = map (λ (tp : TakeProfitLevel). tp.index) signal.take_profits in
    if length idxs == length (distinct idxs) then ok signal else err validation_error

-- `Field(default=None, ge=1, le=125)`
unfoldable pub leverage_bounds : Option ℕ → Bool
leverage_bounds none = true
leverage_bounds (some n) = leb 1 n && leb n 125

-- The constraints of `NormalizedSignal(…)`, on the value that the call would build.
unfoldable pub normalized_signal : NormalizedSignal → Result NormalizedSignal
unfolding leverage_bounds tp_indices_unique
normalized_signal signal = do
  require (leverage_bounds signal.leverage) validation_error
  tp_indices_unique signal
