-- ===== src/Api/Demo/Pages.antt =====
-- api/demo.py: the endpoints that list what is there, and the example texts.
use safe_signal_trader_v.Prelude.{ℕ, String, Bool, false, none, some, List, [], ◌∷◌, length}
use safe_signal_trader_v.Domain.Enums.{JobStatus}
use safe_signal_trader_v.Ingestion.{ParserRegistry}
use safe_signal_trader_v.Parsers.Registry
use safe_signal_trader_v.Profiles.Model.{TradingProfile}
use safe_signal_trader_v.Profiles.Registry as Profiles
use safe_signal_trader_v.Profiles.Registry.{ProfileRegistry}
use safe_signal_trader_v.Queue
use safe_signal_trader_v.Sources
use safe_signal_trader_v.Sources.{SourceConfig}
use safe_signal_trader_v.Api.State.{DemoState}
use safe_signal_trader_v.Api.Demo.Playground.{count_of}

-- The answer of /overview.
pub record Overview : Type 0 where
  pub mode : String
  pub live_trading : Bool
  pub exchange_connected : Bool
  pub telegram_connected : Bool
  pub database_required : Bool
  pub sources_count : ℕ
  pub sources_enabled : ℕ
  pub parsers : List String
  pub profiles : List String
  pub queue_size : ℕ
  pub queue_pending : ℕ
  pub timestamp : String
  pub capabilities : List String

-- The time of the call, as text, is an argument, and so is the registry of parsers.
unfoldable pub overview : String → ParserRegistry → DemoState → Overview
overview now parsers demo = record {
  mode = "offline-demo";
  live_trading = false;
  exchange_connected = false;
  telegram_connected = false;
  database_required = false;
  sources_count = length (Sources.list_all demo.sources);
  sources_enabled = length (Sources.list_enabled demo.sources);
  parsers = Registry.list_ids parsers;
  profiles = Profiles.list_ids demo.profiles;
  queue_size = Queue.size demo.queue;
  queue_pending = count_of JobStatus.pending demo.queue;
  timestamp = now;
  capabilities =
      "Signal parsen (GenericStructured)" ∷ "Risk-Check (neutral)" ∷ "Entry-Plan (clientOrderId)"
      ∷ "Protection / safer-stop" ∷ "Conflict-Resolver" ∷ "Queue Claim/Lease Demo"
      ∷ "Sources & Profiles ansehen" ∷ [];
}

unfoldable pub list_sources : DemoState → List SourceConfig
list_sources demo = Sources.list_all demo.sources

-- the profiles that are found under these ids
unfoldable pub found_profiles : ProfileRegistry → List String → List TradingProfile
found_profiles reg [] = []
found_profiles reg (id ∷ ids) =
    let rest = found_profiles reg ids in
    elim (Profiles.get id none reg) [ none ↦ rest | some p ↦ p ∷ rest ]

unfoldable pub list_profiles : DemoState → List TradingProfile
unfolding found_profiles
list_profiles demo = found_profiles demo.profiles (Profiles.list_ids demo.profiles)

pub record Example : Type 0 where
  pub name : String
  pub text : String

unfoldable pub signal_examples : List Example
signal_examples =
    (record {
      name = "LONG BTC 3 TPs";
      text = "SIGNAL LONG BTCUSDT\nENTRY 65000\nSL 64000\nTP1 66000\nTP2 67000\nTP3 68000\nLEV 10";
    })
    ∷ (record {
      name = "SHORT ETH Market";
      text = "SIGNAL SHORT ETH\nSL 3500\nTP1 3200 50%\nTP2 3000 50%\nLEV 5";
    })
    ∷ (record { name = "Minimal BUY SOL"; text = "SIGNAL BUY SOLUSDT\nLEV 3" })
    ∷ (record {
      name = "LONG XRP 5 TPs";
      text =
          "SIGNAL LONG XRPUSDT\nENTRY 0.55\nSL 0.50\nTP1 0.56\nTP2 0.58\nTP3 0.60\nTP4 0.62\nTP5 0.65\nLEV 20";
    })
    ∷ (record { name = "Ungültig (kein Signal)"; text = "hello world this is not a signal" })
    ∷ []
