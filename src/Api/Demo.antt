-- ===== src/Api/Demo.antt =====
-- api/demo.py: one text through all the parts, and a queue to play with. The module's globals are the
-- state; an endpoint answers with the state that it leaves. The JSON that is sent holds fields of the
-- values that an answer has here.
pub mod Intake
pub mod Backing
pub mod Safety
pub mod Playground
pub mod Pages
pub mod Answers
pub mod Agreement
pub mod Requests
mod Tests
use safe_signal_trader_v.Prelude.{
  ℕ, ◌+◌, String, str_eq, Bool, true, false, not, ◌&&◌, Option, none, some, List, [], ◌∷◌, leb,
  length, if◌then◌else◌,
}
use Prim.Native.String.{◌++◌ as joined}
use safe_signal_trader_v.Prelude.Int.{ℤ, pos_part}
use safe_signal_trader_v.Decimal.{Decimal, of_nat, of_digits, zero_dec, nonzero}
use safe_signal_trader_v.Outcome.{Failure, Result, ok, err, validation_error, value_error}
use safe_signal_trader_v.Domain.Models.{
  Uuid, Timestamp, Json, Object, NormalizedSignal, EffectiveConfigSnapshot, SymbolRules, OrderJob,
}
use safe_signal_trader_v.Api.State.{
  Library, Reads, DemoState, started, Response, ParseRequest, RiskRequest, Analysis, Analyzed,
  length_within, unprocessable, http_error, server_error, answered, not_parsed, analysis,
}
use safe_signal_trader_v.Core.Conflict
use safe_signal_trader_v.Core.Conflict.{ConflictDecision}
use safe_signal_trader_v.Core.Entry
use safe_signal_trader_v.Core.Entry.{EntryPlan}
use safe_signal_trader_v.Core.Protection
use safe_signal_trader_v.Core.Protection.{ProtectionPlan}
use safe_signal_trader_v.Core.Risk
use safe_signal_trader_v.Core.Risk.{RiskDecision, RiskContext}
use safe_signal_trader_v.Ingestion
use safe_signal_trader_v.Ingestion.{
  IngestOutcome, Detail, RawInboundMessage, PipelineOutput, DedupStore, ParserRegistry,
}
use safe_signal_trader_v.Parsers.Structured.{generic_structured_v1}
use safe_signal_trader_v.Parsers.Text.{chars}
use safe_signal_trader_v.Profiles.Model.{TradingProfile}
use safe_signal_trader_v.Profiles.Registry
use safe_signal_trader_v.Profiles.Registry.{ProfileRegistry, build_default_profiles}
use safe_signal_trader_v.Profiles.Snapshot.{ConfigPayload, build_snapshot}
use safe_signal_trader_v.Queue
use safe_signal_trader_v.Queue.{Queue, Request}
use safe_signal_trader_v.Sources
use safe_signal_trader_v.Sources.{SourceConfig, SourceRegistry, build_example_registry}

-- `a or b`, where `b` is there
abbrev pub or_price : Option Decimal → Decimal → Decimal
or_price none b = b
or_price (some a) b = if nonzero a then a else b

-- `SymbolRules(symbol=…)`
abbrev pub default_rules : String → SymbolRules
default_rules symbol = record {
  symbol = symbol;
  price_precision = 2;
  quantity_precision = 3;
  min_qty = of_digits 1 3;
  min_notional = of_nat 5;
  tick_size = of_digits 1 2;
  step_size = of_digits 1 3;
}

abbrev pub new_message : Timestamp → String → String → String → RawInboundMessage
new_message now source_id message_id text = record {
  source_id = source_id;
  message_id = message_id;
  text = text;
  is_edit = false;
  received_at = now;
  raw_hash = none;
  meta = Object.empty;
}

-- the arguments that `analyze` gives to `evaluate`; a negative count of open positions is below
-- every limit, as zero is, since `max_open_positions` is at least one
abbrev pub context_of : RiskRequest → TradingProfile → NormalizedSignal → Decimal → RiskContext
context_of body profile signal mark = record {
  symbol_rules = some (default_rules signal.symbol);
  current_exposure_usdt = zero_dec;
  open_position_count = pos_part body.open_positions;
  max_open_positions = profile.max_open_positions;
  mark_price = some mark;
}

abbrev pub mark_of : RiskRequest → NormalizedSignal → Decimal
mark_of body signal = or_price body.mark_price (or_price signal.entry_price (of_nat 65000))

-- `_msg_counter += 1`
abbrev pub counted : DemoState → DemoState
counted demo = record demo { msg_counter = demo.msg_counter + 1 }

-- `analyze` from the risk decision on
unfoldable pub analyze_decided :
    Reads
    → NormalizedSignal
    → EffectiveConfigSnapshot
    → Decimal
    → Result RiskDecision
    → Response Analyzed
analyze_decided r signal snap mark (err failure) = server_error failure
analyze_decided r signal snap mark (ok risk) = answered (
    analysis (record {
      signal = signal;
      snapshot = snap;
      risk = risk;
      entry = Entry.plan r.trade_id signal snap risk 0 (some mark);
      protection = Protection.initial_stop signal snap (some mark);
      conflict = Conflict.resolve signal snap.conflict_policy [] none;
    }))

module _ (lib : Library) where
  -- `build_default_registry`; the parser reads its surroundings in the request
  unfoldable pub build_default_registry : Reads → ParserRegistry
  build_default_registry r =
      Ingestion.register (generic_structured_v1 lib.text_hash r.signal_id r.signal_at) []

  -- a new pipeline, with a dedup store of its own, on one message
  unfoldable pub ingest : Reads → RawInboundMessage → DemoState → PipelineOutput
  ingest r msg demo =
      (Ingestion.process lib.text_hash demo.sources (build_default_registry r) msg
        (record { seen = []; hashes = [] })).0

  unfoldable pub analyze_signal :
      Reads
      → RiskRequest
      → NormalizedSignal
      → Option SourceConfig
      → Option TradingProfile
      → Response Analyzed
  analyze_signal r body signal none profile = http_error 400 "unknown source or profile"
  analyze_signal r body signal (some source) none = http_error 400 "unknown source or profile"
  analyze_signal r body signal (some source) (some profile) =
      let snap =
        build_snapshot lib.str_decimal lib.config_digest source profile "1.0.0" r.snapshot_id
          r.snapshot_at in
      let mark = mark_of body signal in
      analyze_decided r signal snap mark
        (Risk.evaluate signal snap (context_of body profile signal mark))

  unfoldable pub analyze_parsed :
      Reads
      → RiskRequest
      → DemoState
      → IngestOutcome
      → Option Detail
      → Option NormalizedSignal
      → Response Analyzed
  analyze_parsed r body demo outcome detail none = answered (not_parsed outcome detail)
  analyze_parsed r body demo outcome detail (some signal) =
      analyze_signal r body signal (Sources.get body.source_id demo.sources)
        (Registry.get body.profile_id none demo.profiles)

  abbrev pub analysis_message : Reads → RiskRequest → ℕ → RawInboundMessage
  analysis_message r body counter =
      new_message r.received_at body.source_id (joined "demo-an-" (lib.str_int counter)) body.text

  -- `RawInboundMessage(…)` refuses a source id of more than 64 characters, or none
  unfoldable pub analyze_message : Reads → RiskRequest → DemoState → Response Analyzed
  analyze_message r body demo =
      if length_within 1 64 body.source_id
      then (let out = ingest r (analysis_message r body demo.msg_counter) demo in
          analyze_parsed r body demo out.result.outcome out.result.detail out.signal)
      else server_error validation_error

  -- `parse_signal`, the endpoint /parse
  abbrev pub parse_message : Reads → ParseRequest → DemoState → RawInboundMessage
  parse_message r body demo =
      new_message r.received_at body.source_id (joined "demo-" (lib.str_int demo.msg_counter))
        body.text

  unfoldable pub parse_counted : Reads → ParseRequest → DemoState → Response PipelineOutput
  parse_counted r body demo =
      if length_within 1 64 body.source_id
      then answered (ingest r (parse_message r body demo) demo)
      else server_error validation_error

  unfoldable pub parse_signal :
      Reads → ParseRequest → DemoState → Response PipelineOutput × DemoState
  parse_signal r body demo =
      if length_within 1 8000 body.text
      then (parse_counted r body (counted demo), counted demo)
      else (unprocessable, demo)

  -- `analyze_signal`, the endpoint /analyze
  unfoldable pub analyze : Reads → RiskRequest → DemoState → Response Analyzed × DemoState
  analyze r body demo =
      if length_within 1 8000 body.text
      then (analyze_message r body (counted demo), counted demo)
      else (unprocessable, demo)
