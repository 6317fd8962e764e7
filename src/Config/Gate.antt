-- ===== src/Config/Gate.antt =====
-- The two tests of the gate agree.
use safe_signal_trader_v.Prelude.{true, ◌≡◌, ◌≢◌, ◌↔◌, ◌⊎◌, arith}
use safe_signal_trader_v.Outcome.{ok}
use safe_signal_trader_v.Domain.Enums.{AppEnv}
use safe_signal_trader_v.Config.{Settings, is_live_allowed, require_safe_mode}

-- The application starts exactly when it is not LIVE or live trading is allowed; and live trading is
-- allowed in no other environment than LIVE, and only with the flag.
pub gate :
    (s : Settings)
    → ((require_safe_mode s ≡ ok tt) ↔ ((s.app_env ≢ AppEnv.live) ⊎ (is_live_allowed s ≡ true)))
      × ((is_live_allowed s ≡ true) ↔ ((s.app_env ≡ AppEnv.live) × (s.live_trading_enabled ≡ true)))
unfolding is_live_allowed require_safe_mode
gate s = ground arith
