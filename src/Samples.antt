-- ===== src/Samples.antt =====
-- A signal and the configuration around it, on which the tests of several components run.
use safe_signal_trader_v.Prelude.{◌≡◌, refl, true, false, none, some, [], ◌∷◌}
use safe_signal_trader_v.Decimal.{
  of_nat, of_digits, mul, quantize_down, smaller, cross, add, div, floor_div, rounded, sub,
  round_mag, digits, digits_from, half_even, fitting, long_quotient,
}
use safe_signal_trader_v.Domain.Enums.{Side, EntryType, SlMode, LastTpMode, ConflictPolicy}
use safe_signal_trader_v.Domain.Models.{
  Object, TakeProfitLevel, NormalizedSignal, EffectiveConfigSnapshot, SymbolRules,
}
use safe_signal_trader_v.Outcome.{ok}
use safe_signal_trader_v.Core.Risk.{
  RiskContext, RiskDecision, RiskReason, evaluate, evaluate_size, leverage_of, max_loss_of,
  within_exposure, capped_notional, size_position, apply_rules, on_step, check_notional, conclude,
}

abbrev pub first_tp : TakeProfitLevel
first_tp = record { index = 1; price = of_nat 110; size_pct = none }

abbrev pub second_tp : TakeProfitLevel
second_tp = record { index = 2; price = of_nat 120; size_pct = none }

abbrev pub long_signal : NormalizedSignal
long_signal = record {
  signal_id = 7;
  source_id = "src_demo_alpha";
  parser_id = "generic_structured";
  parser_version = "1.0.0";
  symbol = "BTCUSDT";
  side = Side.long;
  entry_type = EntryType.limit;
  entry_price = some (of_nat 100);
  stop_loss = some (of_nat 95);
  take_profits = first_tp ∷ second_tp ∷ [];
  leverage = some 5;
  raw_message_id = none;
  raw_hash = none;
  received_at = 0;
  extra = Object.empty;
}

abbrev pub safe_snapshot : EffectiveConfigSnapshot
safe_snapshot = record {
  schema_version = "1.0";
  snapshot_id = 8;
  source_id = "src_demo_alpha";
  account_id = "acc_demo_1";
  profile_id = "profile_default";
  profile_version = "1.0.0";
  conflict_policy = ConflictPolicy.reject_second;
  max_leverage = 10;
  max_notional_usdt = some (of_nat 100);
  max_loss_usdt = some (of_nat 10);
  sl_mode = SlMode.break_even;
  last_tp_mode = LastTpMode.trailing;
  allow_partials = false;
  created_at = 0;
  config_hash = "abc";
}

abbrev pub btc_rules : SymbolRules
btc_rules = record {
  symbol = "BTCUSDT";
  price_precision = 1;
  quantity_precision = 3;
  min_qty = of_digits 1 3;
  min_notional = of_nat 5;
  tick_size = of_digits 1 1;
  step_size = of_digits 1 3;
}

-- one position of three is open
abbrev pub open_context : RiskContext
open_context = record {
  symbol_rules = some btc_rules;
  current_exposure_usdt = of_nat 20;
  open_position_count = 1;
  max_open_positions = 3;
  mark_price = none;
}

-- the same without the symbol's rules, with only 40 left of the cap
abbrev pub bare_context : RiskContext
bare_context = record open_context { symbol_rules = none; current_exposure_usdt = of_nat 60 }

-- half a coin at 100
abbrev pub half_coin : RiskDecision
half_coin = record {
  allowed = true;
  reason = RiskReason.ok_reason;
  leverage = 5;
  notional_usdt = of_digits 5000 2;
  quantity = some (of_digits 500 3);
  max_loss_usdt = some (of_nat 10);
}

pub evaluate-half_coin : evaluate long_signal safe_snapshot open_context ≡ ok half_coin
unfolding evaluate evaluate_size leverage_of max_loss_of within_exposure capped_notional smaller
    cross add mul div quantize_down floor_div size_position apply_rules on_step check_notional
    conclude rounded sub round_mag digits digits_from half_even fitting long_quotient
evaluate-half_coin = refl
