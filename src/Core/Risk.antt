-- ===== src/Core/Risk.antt =====
-- core/risk/engine.py: whether a signal may open a trade, with what leverage and size.
mod Tests
pub mod Bounds
pub mod Orders
pub mod Exposure
pub mod Failures
use safe_signal_trader_v.Prelude.{
  ℕ, min, Bool, true, false, not, ◌&&◌, Option, none, some, leb, if◌then◌else◌,
}
use safe_signal_trader_v.Decimal.{
  Decimal, of_nat, zero_dec, at_most, below, nonzero, smaller, add, sub, mul, div, quantize_down,
  floor_div,
}
use safe_signal_trader_v.Outcome.{
  Result, ok, err, invalid_operation, ◌>>=◌, or_raise, division_failure,
}
use safe_signal_trader_v.Domain.Models.{NormalizedSignal, EffectiveConfigSnapshot, SymbolRules}

-- The texts of the reasons; an f-string keeps its arguments.
pub data RiskReason : Type 0 where
  max_open_positions_reached : ℕ → RiskReason
  exposure_limit_reached : RiskReason
  qty_below_min : Decimal → Decimal → RiskReason
  notional_below_min : Decimal → RiskReason
  notional_not_positive : RiskReason
  ok_reason : RiskReason

pub record RiskDecision : Type 0 where
  pub allowed : Bool
  pub reason : RiskReason
  pub leverage : ℕ
  pub notional_usdt : Decimal
  pub quantity : Option Decimal
  pub max_loss_usdt : Option Decimal

-- `lev = signal.leverage or 1` and the cap of the snapshot
unfoldable pub leverage_of : NormalizedSignal → EffectiveConfigSnapshot → ℕ
leverage_of signal snapshot =
    min (elim signal.leverage [ none ↦ 1 | some n ↦ if leb n 0 then 1 else n ])
      snapshot.max_leverage

-- `a or b`, for a price or an amount that may be missing
abbrev pub or_else : Option Decimal → Option Decimal → Option Decimal
or_else none b = b
or_else (some a) b = if nonzero a then some a else b

-- `snapshot.max_loss_usdt or Decimal("10")`
unfoldable pub max_loss_of : EffectiveConfigSnapshot → Decimal
max_loss_of snapshot = elim (or_else snapshot.max_loss_usdt none) [ none ↦ of_nat 10 | some a ↦ a ]

-- step 3: the cap on the notional
unfoldable pub capped_notional : Option Decimal → Decimal → Decimal
capped_notional none notional = notional
capped_notional (some cap) notional = smaller notional cap

-- step 4: what the exposure leaves; `none` is the early return
unfoldable pub within_exposure : Option Decimal → Decimal → Decimal → Option Decimal
within_exposure none exposure notional = some notional
within_exposure (some cap) exposure notional =
    let remaining = sub cap exposure in
    if below cap (add exposure notional)
    then if at_most remaining zero_dec then none else some remaining
    else some notional

-- How step 5 ends: by an early return, or with the quantity and the notional.
pub data Sizing : Type 0 where
  refused : RiskReason → Decimal → Option Decimal → Sizing
  sized : Option Decimal → Decimal → Sizing

-- the quantity on the grid of `step_size`, at least one step if the raw quantity allows an order
unfoldable pub on_step : SymbolRules → Decimal → Decimal → Result Decimal
on_step rules raw_qty qty =
    if not (at_most rules.step_size zero_dec)
    then (do
      steps ← or_raise (floor_div qty rules.step_size) (division_failure qty rules.step_size)
      let floored = mul steps rules.step_size
      ok (
          if at_most floored zero_dec && at_most rules.min_qty raw_qty
          then rules.step_size
          else floored))
    else ok qty

-- the notional of the order, and its minimum
unfoldable pub check_notional : SymbolRules → Decimal → Decimal → Result Sizing
check_notional rules price qty = do
  notional ← or_raise (quantize_down (mul qty price) 2) invalid_operation
  ok (
      if below notional rules.min_notional
      then refused (RiskReason.notional_below_min notional) notional (some qty)
      else sized (some qty) notional)

-- the part of step 5 under `if symbol_rules`
unfoldable pub apply_rules : SymbolRules → Decimal → Decimal → Decimal → Decimal → Result Sizing
apply_rules rules price notional raw_qty qty0 = do
  qty ← on_step rules raw_qty qty0
  if below qty rules.min_qty
      then ok (refused (RiskReason.qty_below_min qty rules.min_qty) notional (some qty))
      else check_notional rules price qty

abbrev pub with_rules : Option SymbolRules → Decimal → Decimal → Decimal → Decimal → Result Sizing
with_rules none price notional raw_qty qty = ok (sized (some qty) notional)
with_rules (some rules) price notional raw_qty qty = apply_rules rules price notional raw_qty qty

-- step 5
unfoldable pub size_position : Option SymbolRules → Option Decimal → Decimal → Result Sizing
size_position rules none notional = ok (sized none notional)
size_position rules (some price) notional =
    if nonzero price && below zero_dec price
    then (do
      raw_qty ← or_raise (div notional price) (division_failure notional price)
      qty ← or_raise (quantize_down raw_qty 8) invalid_operation
      with_rules rules price notional raw_qty qty)
    else ok (sized none notional)

-- the last test, and the two ways that step 5 can end
unfoldable pub conclude : ℕ → Decimal → Sizing → RiskDecision
conclude lev max_loss (refused reason notional qty) = record {
  allowed = false;
  reason = reason;
  leverage = lev;
  notional_usdt = notional;
  quantity = qty;
  max_loss_usdt = some max_loss;
}
conclude lev max_loss (sized qty notional) =
    if at_most notional zero_dec
    then record {
      allowed = false;
      reason = RiskReason.notional_not_positive;
      leverage = lev;
      notional_usdt = zero_dec;
      quantity = none;
      max_loss_usdt = none;
    }
    else record {
      allowed = true;
      reason = RiskReason.ok_reason;
      leverage = lev;
      notional_usdt = notional;
      quantity = qty;
      max_loss_usdt = some max_loss;
    }

abbrev pub rejection : RiskReason → ℕ → RiskDecision
rejection reason lev = record {
  allowed = false;
  reason = reason;
  leverage = lev;
  notional_usdt = zero_dec;
  quantity = none;
  max_loss_usdt = none;
}

-- The keyword arguments of `evaluate`.
pub record RiskContext : Type 0 where
  pub symbol_rules : Option SymbolRules
  pub current_exposure_usdt : Decimal
  pub open_position_count : ℕ
  pub max_open_positions : ℕ
  pub mark_price : Option Decimal

-- what is left of `evaluate` after step 4
unfoldable pub evaluate_size :
    NormalizedSignal → RiskContext → ℕ → Decimal → Option Decimal → Result RiskDecision
evaluate_size signal ctx lev max_loss none = ok (rejection RiskReason.exposure_limit_reached lev)
evaluate_size signal ctx lev max_loss (some notional) = do
  sizing ← size_position ctx.symbol_rules (or_else ctx.mark_price signal.entry_price) notional
  ok (conclude lev max_loss sizing)

unfoldable pub evaluate :
    NormalizedSignal → EffectiveConfigSnapshot → RiskContext → Result RiskDecision
evaluate signal snapshot ctx =
    let lev = leverage_of signal snapshot in
    let max_loss = max_loss_of snapshot in
    let notional = capped_notional snapshot.max_notional_usdt (mul max_loss (of_nat lev)) in
    if leb ctx.max_open_positions ctx.open_position_count
    then ok (rejection (RiskReason.max_open_positions_reached ctx.max_open_positions) 1)
    else evaluate_size signal ctx lev max_loss
        (within_exposure snapshot.max_notional_usdt ctx.current_exposure_usdt notional)
