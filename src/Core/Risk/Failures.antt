-- ===== src/Core/Risk/Failures.antt =====
-- When `evaluate` raises.
use safe_signal_trader_v.Prelude.{
  Option, true, ◌⊎◌, ◌<◌, none, some, ◌≡◌, refl, inl, inr, arith, Bool-cases, Option-cases, leb,
}
use safe_signal_trader_v.Decimal.{Decimal, zero_dec, nonzero, at_most, ◌≺◌, div, quantize_down}
use safe_signal_trader_v.Decimal.Order.{nonzero_of_pos}
use safe_signal_trader_v.Outcome.{Failure, Result, ok, err, invalid_operation}
use safe_signal_trader_v.Domain.Models.{NormalizedSignal, EffectiveConfigSnapshot, SymbolRules}
use safe_signal_trader_v.Core.Risk.{
  RiskContext, or_else, evaluate, evaluate_size, size_position, apply_rules, on_step,
  check_notional,
}
use safe_signal_trader_v.Core.Risk.Bounds.{known_price, granted}

known_price-from :
    (mark entry : Option Decimal) (p : Decimal)
    → or_else mark entry ≡ some p
    → (mark ≡ some p) ⊎ (entry ≡ some p)
known_price-from none entry p e = inr e
known_price-from (some m) entry p e = elim (Bool-cases (nonzero m)) [
  | inl there ↦ inl (ground arith)
  | inr zero ↦ inr (ground arith)
]

on_step-err :
    (rules : SymbolRules) (raw qty : Decimal) (e : Failure)
    → on_step rules raw qty ≡ err e
    → e ≡ invalid_operation
unfolding on_step
on_step-err rules raw qty e h = elim (Bool-cases (at_most rules.step_size zero_dec)) [
  | inl flat ↦ absurd (ground arith)
  | inr steep ↦
      let there : nonzero rules.step_size ≡ true = nonzero_of_pos rules.step_size (ground arith) in
      ground arith
]

check_notional-err :
    (rules : SymbolRules) (price qty : Decimal) (e : Failure)
    → check_notional rules price qty ≡ err e
    → e ≡ invalid_operation
unfolding check_notional
check_notional-err rules price qty e h = ground arith

apply_rules-err :
    (rules : SymbolRules) (price notional raw qty : Decimal) (e : Failure)
    → apply_rules rules price notional raw qty ≡ err e
    → e ≡ invalid_operation
unfolding apply_rules
apply_rules-err rules price notional raw qty e h = go (on_step rules raw qty) refl
  where
    go : (r : Result Decimal) → on_step rules raw qty ≡ r → e ≡ invalid_operation
    go (err x) p = ground (arith, on_step-err rules raw qty x p)
    go (ok a) p = ground (arith, check_notional-err rules price a e)

size_position-err :
    (rules : Option SymbolRules) (price : Option Decimal) (notional : Decimal) (e : Failure)
    → size_position rules price notional ≡ err e
    → (e ≡ invalid_operation) × (p : Decimal) × (price ≡ some p) × (zero_dec ≺ p)
unfolding size_position
size_position-err rules none notional e h = absurd (ground arith)
size_position-err none (some p) notional e h = (ground arith, p, refl, ground arith)
size_position-err (some r) (some p) notional e h = (
  elim (Option-cases (div notional p)) [
    | inl no_quotient ↦ ground arith
    | inr (raw, a) ↦ elim (Option-cases (quantize_down raw 8)) [
      | inl too_long ↦ ground arith
      | inr (qty, b) ↦ ground (arith, apply_rules-err r p notional raw qty e)
    ]
  ],
  p,
  refl,
  ground arith,
)

-- In arithmetic without limits on exponents, where `decimal.Overflow` does not occur, the only
-- exception that `evaluate` lets pass is `decimal.InvalidOperation`, never `DivisionByZero`, and only
-- where a position is free and a price above zero is known, from the caller or from the signal:
-- without a price every call returns a decision.
pub evaluate-err :
    (signal : NormalizedSignal) (snapshot : EffectiveConfigSnapshot) (ctx : RiskContext)
    (e : Failure)
    → evaluate signal snapshot ctx ≡ err e
    → (e ≡ invalid_operation)
      × (ctx.open_position_count < ctx.max_open_positions)
      × (price : Decimal) × ((ctx.mark_price ≡ some price) ⊎ (signal.entry_price ≡ some price))
      × (zero_dec ≺ price)
unfolding evaluate evaluate_size
evaluate-err signal snapshot ctx e h =
    elim (Bool-cases (leb ctx.max_open_positions ctx.open_position_count)) [
      | inl full ↦ absurd (ground arith)
      | inr room ↦ elim (Option-cases (granted signal snapshot ctx)) [
        | inl spent ↦ absurd (ground arith)
        | inr (n, left) ↦
            let raised : size_position ctx.symbol_rules (known_price signal ctx) n ≡ err e =
              ground arith in
            let (same, p, known, above) =
              size_position-err ctx.symbol_rules (known_price signal ctx) n e raised in
            (
              same,
              ground arith,
              p,
              known_price-from ctx.mark_price signal.entry_price p known,
              above,
            )
      ]
    ]
