-- ===== src/Core/Risk/Orders.antt =====
-- The order that an allowed trade stands for, where the symbol's rules and a price are known.
use safe_signal_trader_v.Prelude.{true, Option, some, ◌≡◌, inl, inr, arith, Option-cases}
use safe_signal_trader_v.Decimal.{Decimal, zero_dec, ◌≼◌, ◌≺◌, quantize_down, mul, div}
use safe_signal_trader_v.Decimal.Order.{nonzero_of_pos}
use safe_signal_trader_v.Outcome.{ok}
use safe_signal_trader_v.Domain.Models.{NormalizedSignal, EffectiveConfigSnapshot, SymbolRules}
use safe_signal_trader_v.Core.Risk.{
  RiskDecision, RiskContext, sized, evaluate, size_position, apply_rules,
}
use safe_signal_trader_v.Core.Risk.Bounds.{evaluate-Accepted, IsPriced, apply_rules-sized}

size_position-sized :
    (rules : SymbolRules) (price notional : Decimal) {q : Option Decimal} {n : Decimal}
    → zero_dec ≺ price
    → size_position (some rules) (some price) notional ≡ ok (sized q n)
    → (raw_qty : Decimal) × (qty : Decimal) × (div notional price ≡ some raw_qty)
      × (quantize_down raw_qty 8 ≡ some qty)
      × (apply_rules rules price notional raw_qty qty ≡ ok (sized q n))
unfolding size_position
size_position-sized rules price notional {q} {n} pos e = elim (Option-cases (div notional price)) [
  | inl no_quotient ↦ absurd (ground (arith, nonzero_of_pos price pos))
  | inr (raw_qty, r) ↦ elim (Option-cases (quantize_down raw_qty 8)) [
    | inl too_long ↦ absurd (ground (arith, nonzero_of_pos price pos))
    | inr (qty, s) ↦ (raw_qty, qty, r, s, ground (arith, nonzero_of_pos price pos))
  ]
]

-- With rules and a positive price, an allowed trade has a quantity, of at least `min_qty`; its
-- notional is what that quantity costs at the price, cut to cents, and is at least `min_notional`.
pub evaluate-order :
    (signal : NormalizedSignal) (snapshot : EffectiveConfigSnapshot) (ctx : RiskContext)
    (rules : SymbolRules) (price : Decimal) (d : RiskDecision)
    → ctx.symbol_rules ≡ some rules
    → IsPriced signal ctx price
    → evaluate signal snapshot ctx ≡ ok d
    → d.allowed ≡ true
    → (q : Decimal) × (d.quantity ≡ some q)
      × (rules.min_qty ≼ q)
      × (rules.min_notional ≼ d.notional_usdt)
      × (quantize_down (mul q price) 2 ≡ some d.notional_usdt)
evaluate-order signal snapshot ctx rules price d known priced e h =
    let a = evaluate-Accepted signal snapshot ctx d e h in
    let size : size_position (some rules) (some price) a.notional
        ≡ ok (sized d.quantity d.notional_usdt) =
      rw (known, priced.0) at a.size in
    let (raw_qty, qty, _, _, passed) = size_position-sized rules price a.notional priced.1 size in
    let (q, eq, _, enough, large, cost) =
      apply_rules-sized rules price a.notional raw_qty qty passed in
    (q, eq, enough, large, cost)
