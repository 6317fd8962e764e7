-- ===== src/Profiles/Model.antt =====
-- profiles/models.py: the fields of a profile.
use safe_signal_trader_v.Prelude.{ℕ, String, Bool, Option}
use safe_signal_trader_v.Decimal.{Decimal}
use safe_signal_trader_v.Domain.Enums.{ConflictPolicy, SlMode, LastTpMode}
use safe_signal_trader_v.Domain.Models.{Timestamp, Object}

pub record TradingProfile : Type 0 where
  pub profile_id : String
  pub version : String
  pub name : String
  pub max_leverage : ℕ
  pub max_notional_usdt : Option Decimal
  pub max_loss_usdt : Decimal
  pub fixed_margin_usdt : Option Decimal
  pub fixed_notional_usdt : Option Decimal
  pub conflict_policy : ConflictPolicy
  pub sl_mode : SlMode
  pub last_tp_mode : LastTpMode
  pub allow_partials : Bool
  pub max_open_positions : ℕ
  pub max_legs_per_trade : ℕ
  pub entry_tolerance_pct : Decimal
  pub late_entry_block : Bool
  pub extra : Object
  pub created_at : Timestamp
