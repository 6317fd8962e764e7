-- ===== src/Domain/Tests.antt =====
-- A signal with two take profits, and one that repeats an index.
use safe_signal_trader_v.Prelude.{some, [], ◌∷◌, ◌≡◌, ◌↔◌, ◌⊎◌, refl}
use safe_signal_trader_v.Outcome.{ok, err, validation_error}
use safe_signal_trader_v.Domain.Validation.{
  normalized_signal, tp_indices_unique, distinct, leverage_bounds,
}
use safe_signal_trader_v.Domain.Validation.Signals.{
  NoRepeats, LeverageFits, normalized_signal-accepts,
}
use safe_signal_trader_v.Samples.{long_signal, first_tp}

normalized_signal-repeated :
    normalized_signal (record long_signal { take_profits = first_tp ∷ first_tp ∷ [] })
    ≡ err validation_error
unfolding normalized_signal tp_indices_unique distinct leverage_bounds
normalized_signal-repeated = refl

normalized_signal-accepts_example :
    ((normalized_signal long_signal ≡ ok long_signal)
      ↔ (LeverageFits (some 5) × NoRepeats (1 ∷ 2 ∷ [])))
    × ((normalized_signal long_signal ≡ ok long_signal)
        ⊎ (normalized_signal long_signal ≡ err validation_error))
normalized_signal-accepts_example = normalized_signal-accepts long_signal
