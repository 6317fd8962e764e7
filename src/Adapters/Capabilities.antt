-- ===== src/Adapters/Capabilities.antt =====
-- adapters/binance/capabilities.py
use safe_signal_trader_v.Prelude.{ℕ, String, Bool, true}

pub record BinanceCapabilities : Type 0 where
  pub exchange_id : String
  pub supports_user_stream : Bool
  pub supports_reduce_only : Bool
  pub supports_trailing_stop : Bool
  pub supports_position_mode_hedge : Bool
  pub max_leverage : ℕ

-- `BINANCE_CAPABILITIES`
abbrev pub binance_capabilities : BinanceCapabilities
binance_capabilities = record {
  exchange_id = "binance_futures";
  supports_user_stream = true;
  supports_reduce_only = true;
  supports_trailing_stop = true;
  supports_position_mode_hedge = true;
  max_leverage = 125;
}

abbrev pub supports_protection_replace : BinanceCapabilities → Bool
supports_protection_replace c = true
