-- ===== src/Core/Risk/Tests.antt =====
-- Runs of `evaluate`, and what its theorems say of them.
use safe_signal_trader_v.Prelude.{◌≤◌, ◌<◌, some, ◌≡◌, refl, inl, arith, ◌⊎◌}
use safe_signal_trader_v.Decimal.{
  Decimal, of_nat, of_digits, zero_dec, ◌≼◌, ◌≺◌, mul, quantize_down, smaller, cross, add, div,
  floor_div, rounded, sub, round_mag, digits, digits_from, half_even, fitting, long_quotient,
}
use safe_signal_trader_v.Decimal.Exact.{SubFits}
use safe_signal_trader_v.Outcome.{ok, err, invalid_operation}
use safe_signal_trader_v.Domain.Models.{NormalizedSignal, EffectiveConfigSnapshot}
use safe_signal_trader_v.Core.Risk.{
  RiskContext, RiskDecision, evaluate, evaluate_size, leverage_of, max_loss_of, within_exposure,
  capped_notional, size_position, apply_rules, on_step, check_notional, conclude,
}
use safe_signal_trader_v.Core.Risk.Bounds.{IsLossLimit, evaluate-limits}
use safe_signal_trader_v.Core.Risk.Orders.{evaluate-order}
use safe_signal_trader_v.Core.Risk.Exposure.{evaluate-cap}
use safe_signal_trader_v.Core.Risk.Failures.{evaluate-err}
use safe_signal_trader_v.Samples.{
  long_signal, safe_snapshot, btc_rules, open_context, bare_context, half_coin, evaluate-half_coin,
}

evaluate-limits_example :
    (1 < 3)
    × (5 ≤ 10)
    × (zero_dec ≺ of_digits 5000 2)
    × (loss : Decimal) × (some (of_nat 10) ≡ some loss)
    × IsLossLimit safe_snapshot.max_loss_usdt loss
evaluate-limits_example =
    evaluate-limits long_signal safe_snapshot open_context half_coin evaluate-half_coin refl

above_zero : zero_dec ≺ of_nat 100
unfolding cross
above_zero = omega arith

evaluate-order_example :
    (q : Decimal) × (some (of_digits 500 3) ≡ some q)
    × (of_digits 1 3 ≼ q)
    × (of_nat 5 ≼ of_digits 5000 2)
    × (quantize_down (mul q (of_nat 100)) 2 ≡ some (of_digits 5000 2))
evaluate-order_example =
    evaluate-order long_signal safe_snapshot open_context btc_rules (of_nat 100) half_coin refl
      (refl, above_zero) evaluate-half_coin refl

-- without rules the notional is what the exposure of 60 leaves of the cap
abbrev rest_of_cap : RiskDecision
rest_of_cap = record half_coin { notional_usdt = of_nat 40; quantity = some (of_digits 40000000 8) }

evaluate-rest_of_cap : evaluate long_signal safe_snapshot bare_context ≡ ok rest_of_cap
unfolding evaluate evaluate_size leverage_of max_loss_of within_exposure capped_notional smaller
    cross add mul div quantize_down size_position conclude rounded sub round_mag digits digits_from
    half_even fitting long_quotient
evaluate-rest_of_cap = refl

not_negative : zero_dec ≼ of_nat 60
unfolding cross
not_negative = omega arith

fits : SubFits (of_nat 100) (of_nat 60)
fits = omega arith

evaluate-cap_example : of_nat 40 ≼ of_nat 100
evaluate-cap_example =
    evaluate-cap long_signal safe_snapshot bare_context (of_nat 100) rest_of_cap refl not_negative
      fits (inl refl) evaluate-rest_of_cap refl

-- at a price of 10 ^ -25 the quantity has too many digits for `quantize`
abbrev tiny_price : NormalizedSignal
tiny_price = record long_signal { entry_price = some (of_digits 1 25) }

evaluate-tiny_price : evaluate tiny_price safe_snapshot open_context ≡ err invalid_operation
unfolding evaluate evaluate_size leverage_of max_loss_of within_exposure capped_notional smaller
    cross add mul div quantize_down size_position conclude rounded sub round_mag digits digits_from
    half_even fitting long_quotient
evaluate-tiny_price = refl

evaluate-err_example :
    (invalid_operation ≡ invalid_operation)
    × (open_context.open_position_count < open_context.max_open_positions)
    × (price : Decimal) × ((open_context.mark_price ≡ some price)
        ⊎ (tiny_price.entry_price ≡ some price))
    × (zero_dec ≺ price)
evaluate-err_example =
    evaluate-err tiny_price safe_snapshot open_context invalid_operation evaluate-tiny_price

-- With a step above the minimal quantity, the order is raised to one step after the limits were
-- applied: here to a notional of 100 under a cap of 60.
abbrev coarse : RiskContext
coarse = record open_context { symbol_rules = some (record btc_rules { step_size = of_nat 1 }) }

abbrev low_cap : EffectiveConfigSnapshot
low_cap = record safe_snapshot { max_notional_usdt = some (of_nat 60) }

evaluate-above_cap :
    evaluate long_signal low_cap (record coarse { current_exposure_usdt = zero_dec })
    ≡ ok (record half_coin { notional_usdt = of_digits 10000 2; quantity = some (of_nat 1) })
unfolding evaluate evaluate_size leverage_of max_loss_of within_exposure capped_notional smaller
    cross add mul div quantize_down floor_div size_position apply_rules on_step check_notional
    conclude rounded sub round_mag digits digits_from half_even fitting long_quotient
evaluate-above_cap = refl
