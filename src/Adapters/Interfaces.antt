-- ===== src/Adapters/Interfaces.antt =====
-- adapters/interfaces.py: the protocols that an exchange keeps. `S` is the state of an exchange, and
-- `Info` what it answers with where the code has a dict of anything. A method that reads the clock
-- takes the time; one that writes answers with the state that it leaves.
use safe_signal_trader_v.Prelude.{ℕ, String, Bool, Option, List}
use safe_signal_trader_v.Prelude.Int.{ℤ}
use safe_signal_trader_v.Prelude.Dict.{Dict}
use safe_signal_trader_v.Decimal.{Decimal}
use safe_signal_trader_v.Outcome.{Result}
use safe_signal_trader_v.Domain.Enums.{OrderSide}
use safe_signal_trader_v.Domain.Models.{Timestamp, SymbolRules}

pub record ExchangeCapabilities : Type 0 where
  pub exchange_id : String
  pub supports_user_stream : Bool
  pub supports_reduce_only : Bool
  pub supports_trailing_stop : Bool
  pub supports_position_mode_hedge : Bool
  pub max_leverage : ℕ
  pub supports_protection_replace : Bool

pub record MarketDataAdapter (S Info : Type 0) : Type 0 where
  pub get_symbol_rules : String → S → SymbolRules
  pub get_mark_price : String → S → Decimal
  pub get_ticker : Timestamp → String → S → Info

pub record AccountAdapter (S Info : Type 0) : Type 0 where
  pub get_balance : S → Dict String Decimal
  pub get_positions : Option String → S → List Info
  pub set_leverage : String → ℤ → S → S × Result (Unit {0})

-- An order id is a number, as in Adapters/Mock.
pub record ExecutionAdapter (S Info : Type 0) : Type 0 where
  pub place_order :
      Timestamp
      → String
      → OrderSide
      → String
      → Decimal
      → Option Decimal
      → String
      → Bool
      → S
      → S × Result Info
  pub cancel_order : Timestamp → String → Option ℕ → Option String → S → S × Result Info
  pub get_order : String → Option ℕ → Option String → S → Option Info

pub record ProtectionAdapter (S Info : Type 0) : Type 0 where
  pub place_stop :
      Timestamp → String → OrderSide → Decimal → Decimal → String → Bool → S → S × Result Info
  pub replace_stop : Timestamp → String → ℕ → Decimal → Decimal → String → S → S × Result Info
  pub cancel_protection : Timestamp → String → Option ℕ → Option String → S → S × Result (Unit {0})

pub record StreamingAdapter (S : Type 0) : Type 0 where
  pub connect : S → S × Result (Unit {0})
  pub disconnect : S → S × Result (Unit {0})
  pub subscribe_orders : S → S × Result (Unit {0})

pub record PnLAdapter (S : Type 0) : Type 0 where
  pub get_realized_pnl : Option String → S → Decimal
  pub get_unrealized_pnl : Option String → S → Decimal
