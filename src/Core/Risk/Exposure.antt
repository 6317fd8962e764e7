-- ===== src/Core/Risk/Exposure.antt =====
-- The cap on the notional and the exposure.
use safe_signal_trader_v.Prelude.{true, Option, none, some, ◌≡◌, ◌⊎◌, arith}
use safe_signal_trader_v.Decimal.{Decimal, zero_dec, ◌≼◌}
use safe_signal_trader_v.Decimal.Order.{smaller-le_right}
use safe_signal_trader_v.Decimal.Exact.{SubFits, sub-le}
use safe_signal_trader_v.Outcome.{ok}
use safe_signal_trader_v.Domain.Models.{NormalizedSignal, EffectiveConfigSnapshot, SymbolRules}
use safe_signal_trader_v.Core.Risk.{
  RiskDecision, RiskContext, sized, evaluate, size_position, within_exposure, capped_notional,
}
use safe_signal_trader_v.Core.Risk.Bounds.{evaluate-Accepted, known_price}

within_exposure-le_cap :
    (cap exposure notional n : Decimal)
    → zero_dec ≼ exposure
    → SubFits cap exposure
    → notional ≼ cap
    → within_exposure (some cap) exposure notional ≡ some n
    → n ≼ cap
unfolding within_exposure
within_exposure-le_cap cap exposure notional n h fits small e =
    ground (arith, sub-le cap exposure fits h)

-- without rules or without a price, step 5 leaves the notional alone
unsized :
    (rules : Option SymbolRules) (price : Option Decimal) (notional : Decimal) {q : Option Decimal}
    {n : Decimal}
    → (rules ≡ none) ⊎ (price ≡ none)
    → size_position rules price notional ≡ ok (sized q n)
    → n ≡ notional
unfolding size_position
unsized rules none notional h e = ground arith
unsized none (some p) notional h e = ground arith
unsized (some r) (some p) notional h e = ground arith

capped-le : (cap notional : Decimal) → capped_notional (some cap) notional ≼ cap
unfolding capped_notional
capped-le cap notional = smaller-le_right notional cap

granted-le :
    (mn : Option Decimal) (cap exposure raw n : Decimal)
    → mn ≡ some cap
    → zero_dec ≼ exposure
    → SubFits cap exposure
    → within_exposure mn exposure (capped_notional mn raw) ≡ some n
    → n ≼ cap
granted-le mn cap exposure raw n capped nonneg fits e =
    within_exposure-le_cap cap exposure (capped_notional (some cap) raw) n nonneg fits
      (capped-le cap raw) (rw capped at e)

-- Where no symbol rules or no price are known, an allowed trade keeps the cap of the snapshot:
-- with an exposure that is not negative, and with cap and exposure that can be subtracted in 28
-- digits, its notional is at most `max_notional_usdt`.
pub evaluate-cap :
    (signal : NormalizedSignal) (snapshot : EffectiveConfigSnapshot) (ctx : RiskContext)
    (cap : Decimal) (d : RiskDecision)
    → snapshot.max_notional_usdt ≡ some cap
    → zero_dec ≼ ctx.current_exposure_usdt
    → SubFits cap ctx.current_exposure_usdt
    → (ctx.symbol_rules ≡ none) ⊎ (known_price signal ctx ≡ none)
    → evaluate signal snapshot ctx ≡ ok d
    → d.allowed ≡ true
    → d.notional_usdt ≼ cap
evaluate-cap signal snapshot ctx cap d capped nonneg fits bare e h =
    let a = evaluate-Accepted signal snapshot ctx d e h in
    let same = unsized ctx.symbol_rules (known_price signal ctx) a.notional bare a.size in
    rw same (granted-le snapshot.max_notional_usdt cap _ _ a.notional capped nonneg fits a.exposure)
