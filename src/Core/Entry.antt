-- ===== src/Core/Entry.antt =====
-- core/entry/planner.py: the entry order that a risk decision allows.
mod Tests
pub mod OrderId
pub mod Plan
use safe_signal_trader_v.Prelude.{
  ℕ, String, Bool, true, false, not, ◌&&◌, ◌||◌, List, Option, none, some, if◌then◌else◌, is_none,
}
use safe_signal_trader_v.Decimal.{Decimal, of_digits, zero_dec, at_most, below, nonzero, mul}
use safe_signal_trader_v.Domain.Enums.{Side, EntryType, is_limit}
use safe_signal_trader_v.Domain.Models.{Uuid, NormalizedSignal, EffectiveConfigSnapshot}
use safe_signal_trader_v.Core.Risk.{RiskReason, RiskDecision}
use safe_signal_trader_v.Core.Entry.OrderId.{client_order_id}

-- The texts of `block_reason`.
pub data BlockReason : Type 0 where
  risk_reason : RiskReason → BlockReason
  limit_requires_price late_for_long late_for_short : BlockReason

pub record EntryPlan : Type 0 where
  pub trade_id : Uuid
  pub symbol : String
  pub side : Side
  pub entry_type : EntryType
  pub quantity : Decimal
  pub price : Option Decimal
  pub leverage : ℕ
  pub client_order_id : List ℕ
  pub stop_loss : Option Decimal
  pub snapshot_hash : String
  pub blocked : Bool
  pub block_reason : Option BlockReason

-- The arguments that every `EntryPlan(…)` of `plan` shares.
abbrev pub draft :
    Uuid
    → NormalizedSignal
    → EffectiveConfigSnapshot
    → RiskDecision
    → ℕ
    → Decimal
    → Option Decimal
    → Option BlockReason
    → EntryPlan
draft trade_id signal snapshot risk attempt quantity price block_reason = record {
  trade_id = trade_id;
  symbol = signal.symbol;
  side = signal.side;
  entry_type = signal.entry_type;
  quantity = quantity;
  price = price;
  leverage = risk.leverage;
  client_order_id = client_order_id trade_id attempt;
  stop_loss = signal.stop_loss;
  snapshot_hash = snapshot.config_hash;
  blocked = not (is_none block_reason);
  block_reason = block_reason;
}

-- `not risk.allowed or risk.quantity is None or risk.quantity <= 0`; `none` is a refusal
unfoldable pub allowed_quantity : Bool → Option Decimal → Option Decimal
allowed_quantity false quantity = none
allowed_quantity true none = none
allowed_quantity true (some q) = if at_most q zero_dec then none else some q

-- `mark_price and price and …`: has the market run away from the limit?
unfoldable pub late_entry : Side → Option Decimal → Option Decimal → Option BlockReason
late_entry side none price = none
late_entry side (some mark) none = none
late_entry Side.long (some mark) (some price) =
    if nonzero mark && nonzero price && below (mul price (of_digits 101 2)) mark
    then some BlockReason.late_for_long
    else none
late_entry Side.short (some mark) (some price) =
    if nonzero mark && nonzero price && below mark (mul price (of_digits 99 2))
    then some BlockReason.late_for_short
    else none

-- `plan` once the risk decision is accepted
unfoldable pub plan_sized :
    Uuid
    → NormalizedSignal
    → EffectiveConfigSnapshot
    → RiskDecision
    → ℕ
    → Option Decimal
    → Decimal
    → EntryPlan
plan_sized trade_id signal snapshot risk attempt mark_price q =
    let price = signal.entry_price in
    if is_limit signal.entry_type
    then (if is_none price
        then draft trade_id signal snapshot risk attempt q none
            (some BlockReason.limit_requires_price)
        else draft trade_id signal snapshot risk attempt q price
            (late_entry signal.side mark_price price))
    else draft trade_id signal snapshot risk attempt q none none

unfoldable pub plan :
    Uuid
    → NormalizedSignal
    → EffectiveConfigSnapshot
    → RiskDecision
    → ℕ
    → Option Decimal
    → EntryPlan
plan trade_id signal snapshot risk attempt mark_price =
    elim (allowed_quantity risk.allowed risk.quantity) [
      | none ↦
          draft trade_id signal snapshot risk attempt zero_dec signal.entry_price
            (some (BlockReason.risk_reason risk.reason))
      | some q ↦ plan_sized trade_id signal snapshot risk attempt mark_price q
    ]
