-- ===== src/Api/Status/Tests.antt =====
-- The pages in the environment LIVE.
use safe_signal_trader_v.Prelude.{true, some, [], ◌∷◌, ◌≡◌, ◌↔◌, refl}
use safe_signal_trader_v.Prelude.Eq.{string_eq}
use safe_signal_trader_v.Prelude.Dict
use safe_signal_trader_v.Domain.Enums.{AppEnv}
use safe_signal_trader_v.Config.{Settings, default_settings, is_live_allowed, require_safe_mode}
use safe_signal_trader_v.Api.Status.{
  health, ready, status_page, dashboard, start, lifespan, after_gate, logging_configured,
}
use safe_signal_trader_v.Api.Status.Gate.{start-pages}

abbrev reviewed : Settings
reviewed = record default_settings { app_env = AppEnv.live; live_trading_enabled = true }

start-pages_example :
    let live = reviewed.app_env ≡ AppEnv.live in
    ((is_live_allowed reviewed ≡ true) ↔ live)
    × (live ↔ (live × (reviewed.live_trading_enabled ≡ true)))
    × (((health "12:00" reviewed).live_allowed ≡ true) ↔ live)
    × (((ready "12:00" reviewed).live_allowed ≡ true) ↔ live)
    × ((Dict.get "live_gate" (status_page reviewed).components ≡ some "LIVE_ALLOWED") ↔ live)
    × (((dashboard "12:00" reviewed).live_allowed ≡ true) ↔ live)
    × ((Dict.get "live_gate" (dashboard "12:00" reviewed).components ≡ some "LIVE_ALLOWED") ↔ live)
unfolding start require_safe_mode
start-pages_example = start-pages "12:00" reviewed refl

-- LIVE without the flag: the log is set up, and nothing starts
abbrev unreviewed : Settings
unreviewed = record default_settings { app_env = AppEnv.live }

lifespan-unreviewed : (lifespan unreviewed).0 ≡ logging_configured true "INFO" ∷ []
unfolding lifespan start after_gate require_safe_mode
lifespan-unreviewed = refl
