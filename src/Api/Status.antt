-- ===== src/Api/Status.antt =====
-- api/health.py, api/dashboard.py and the start of the application in main.py and __main__.py: what the
-- pages say, and the address that is served. HTML and HTTP are left out; a page is the values it shows.
pub mod Gate
mod Tests
use safe_signal_trader_v.Prelude.{
  ℕ, ◌==◌, String, str_eq, Bool, true, false, not, Option, none, some, List, [], ◌∷◌, if◌then◌else◌,
}
use safe_signal_trader_v.Prelude.Dict.{Dict}
use safe_signal_trader_v.Outcome.{Result, ok, err}
use safe_signal_trader_v.Domain.Enums.{AppEnv}
use safe_signal_trader_v.Config.{Settings, is_live_allowed, require_safe_mode}

-- `AppEnv` is a `StrEnum`
unfoldable pub app_env_value : AppEnv → String
app_env_value AppEnv.unit = "UNIT"
app_env_value AppEnv.integration = "INTEGRATION"
app_env_value AppEnv.testnet_demo = "TESTNET_DEMO"
app_env_value AppEnv.live = "LIVE"

pub record HealthResponse : Type 0 where
  pub status : String
  pub service : String
  pub version : String
  pub env : String
  pub live_trading_enabled : Bool
  pub live_allowed : Bool
  pub timestamp : String

pub record StatusResponse : Type 0 where
  pub status : String
  pub phase : String
  pub message : String
  pub components : Dict String String

-- The time of the call, as text, is an argument.
unfoldable pub health : String → Settings → HealthResponse
health now settings = record {
  status = "ok";
  service = settings.service_name;
  version = "0.1.0";
  env = app_env_value settings.app_env;
  live_trading_enabled = settings.live_trading_enabled;
  live_allowed = is_live_allowed settings;
  timestamp = now;
}

unfoldable pub ready : String → Settings → HealthResponse
unfolding health
ready now settings = health now settings

abbrev pub live_gate : Settings → String
live_gate settings = if not (is_live_allowed settings) then "active" else "LIVE_ALLOWED"

-- `status`
unfoldable pub status_page : Settings → StatusResponse
status_page settings = record {
  status = "ok";
  phase = "6-binance-prep";
  message =
      "Phase 5 complete (Neutral Core). Phase 6 started: Binance Mock Adapter + Capabilities available (zero network). Real Testnet client gated; live trading remains OFF by default.";
  components =
      ("api", "up")
      ∷ ("config", "loaded")
      ∷ ("live_gate", live_gate settings)
      ∷ ("exchange_adapters", "binance-mock + interfaces")
      ∷ ("binance_mock", "ready")
      ∷ ("queue", "memory-claim-lease")
      ∷ ("parsers", "generic_structured@1.0.0")
      ∷ ("source_registry", "in-memory")
      ∷ ("ingestion", "pipeline+dedup")
      ∷ ("core", "risk+entry+protection+conflict+sm")
      ∷ ("profiles", "snapshots+hash")
      ∷ [];
}

-- The values that the template of the dashboard is given.
pub record DashboardContext : Type 0 where
  pub status : String
  pub service : String
  pub version : String
  pub env : String
  pub live_trading_enabled : Bool
  pub live_allowed : Bool
  pub timestamp : String
  pub phase : String
  pub components : Dict String String

unfoldable pub dashboard : String → Settings → DashboardContext
dashboard now settings = record {
  status = "ok";
  service = settings.service_name;
  version = "0.1.0";
  env = app_env_value settings.app_env;
  live_trading_enabled = settings.live_trading_enabled;
  live_allowed = is_live_allowed settings;
  timestamp = now;
  phase = "2-source-parser";
  components =
      ("api", "up")
      ∷ ("config", "loaded")
      ∷ ("live_gate", live_gate settings)
      ∷ ("exchange_adapters", "interfaces-only")
      ∷ ("queue", "schema-ready")
      ∷ ("parsers", "generic_structured@1.0.0")
      ∷ ("source_registry", "in-memory")
      ∷ ("ingestion", "pipeline+dedup")
      ∷ ("ui", "dashboard")
      ∷ [];
}

-- What the start leaves in the log and its set-up.
pub data StartStep : Type 0 where
  logging_configured : Bool → String → StartStep
  app_starting : String → String → Bool → StartStep
  app_shutdown : StartStep

-- the rest of `lifespan` after the gate
unfoldable pub after_gate : Settings → Result (Unit {0}) → List StartStep
after_gate settings (err failure) = []
after_gate settings (ok _) =
    app_starting "0.1.0" (app_env_value settings.app_env) (is_live_allowed settings)
    ∷ app_shutdown
    ∷ []

-- The gate of `lifespan`: the application serves nothing if this raises.
unfoldable pub start : Settings → Result (Unit {0})
start settings = require_safe_mode settings

-- `lifespan`, with the application up between `app_starting` and `app_shutdown`
unfoldable pub lifespan : Settings → List StartStep × Result (Unit {0})
unfolding start after_gate
lifespan settings = (
  logging_configured settings.log_json settings.log_level ∷ after_gate settings (start settings),
  start settings,
)

-- `args.host or settings.api_host`
abbrev pub host_of : Option String → Settings → String
host_of none settings = settings.api_host
host_of (some h) settings = if str_eq h "" then settings.api_host else h

-- `args.port or settings.api_port`
abbrev pub port_of : Option ℕ → Settings → ℕ
port_of none settings = settings.api_port
port_of (some p) settings = if p == 0 then settings.api_port else p

-- The command line, as `argparse` leaves it.
pub record Arguments : Type 0 where
  pub command : Option String
  pub host : Option String
  pub port : Option ℕ

-- What `main` does: it serves at an address, or it prints the help and exits with 1.
pub data Action : Type 0 where
  serve_at : String → ℕ → Action
  help_and_exit : Action

unfoldable pub main : Arguments → Settings → Action
main args settings = elim args.command [
  | none ↦ serve_at (host_of args.host settings) (port_of args.port settings)
  | some c ↦
      if str_eq c "serve"
      then serve_at (host_of args.host settings) (port_of args.port settings)
      else help_and_exit
]
