-- ===== src/Ingestion.antt =====
-- ingestion/: one inbound message at a time, from the source registry through the dedup store to the
-- parser that the source is bound to. Parsers (parsers/interfaces.py) are records of functions; their
-- registry is parsers/registry.py.
pub mod Once
pub mod Outcomes
pub mod Delivery
pub mod SameText
mod Tests
use safe_signal_trader_v.Prelude.{
  ℕ, String, str_eq, Bool, true, false, not, ◌&&◌, ◌||◌, Option, none, some, List, [], ◌∷◌, any,
  if◌then◌else◌,
}
use safe_signal_trader_v.Prelude.Dict.{Dict}
use safe_signal_trader_v.Outcome.{Failure, Result, ok, err}
use safe_signal_trader_v.Domain.Models.{Uuid, Timestamp, Object, NormalizedSignal}
use safe_signal_trader_v.Versioned
use safe_signal_trader_v.Sources
use safe_signal_trader_v.Sources.{SourceConfig, SourceRegistry}

-- ingestion/models.py
pub data IngestOutcome : Type 0 where
  duplicate source_disabled source_unknown parse_skipped parse_failed parsed : IngestOutcome

pub record RawInboundMessage : Type 0 where
  pub source_id : String
  pub message_id : String
  pub text : String
  pub is_edit : Bool
  pub received_at : Timestamp
  pub raw_hash : Option String
  pub meta : Object

-- The texts of `detail`; an f-string keeps its arguments.
pub data Detail : Type 0 where
  unknown_source_id : String → Detail
  disabled_source : String → Detail
  already_seen : Detail
  no_parser_for : String → String → Detail
  can_parse_false : Detail
  parse_returned_none : Detail
  exception : Failure → Detail

pub record IngestResult : Type 0 where
  pub outcome : IngestOutcome
  pub source_id : String
  pub message_id : String
  pub signal_id : Option Uuid
  pub parser_id : Option String
  pub parser_version : Option String
  pub detail : Option Detail

pub record PipelineOutput : Type 0 where
  pub result : IngestResult
  pub signal : Option NormalizedSignal

-- ingestion/dedup.py: two sets of pairs
pub record DedupStore : Type 0 where
  pub seen : List (String × String)
  pub hashes : List (String × String)

abbrev pub contains : String → String → List (String × String) → Bool
contains a b = any (λ (p : String × String). str_eq p.0 a && str_eq p.1 b)

-- `msg.raw_hash` is true: it is there and not empty
abbrev pub hash_seen : String → Option String → List (String × String) → Bool
hash_seen source_id none hashes = false
hash_seen source_id (some h) hashes = not (str_eq h "") && contains source_id h hashes

unfoldable pub is_duplicate : RawInboundMessage → DedupStore → Bool
is_duplicate msg store =
    contains msg.source_id msg.message_id store.seen
    || (hash_seen msg.source_id msg.raw_hash store.hashes && not msg.is_edit)

abbrev pub add_hash : String → Option String → List (String × String) → List (String × String)
add_hash source_id none hashes = hashes
add_hash source_id (some h) hashes = if str_eq h "" then hashes else (source_id, h) ∷ hashes

unfoldable pub mark_seen : RawInboundMessage → DedupStore → DedupStore
mark_seen msg store = record {
  seen = (msg.source_id, msg.message_id) ∷ store.seen;
  hashes = add_hash msg.source_id msg.raw_hash store.hashes;
}

unfoldable pub clear : DedupStore → DedupStore
clear store = record { seen = []; hashes = [] }

-- parsers/interfaces.py; `parse` is given the text, the source, the message id and the hash; both it
-- and `validate` may raise, and `can_parse` is taken not to
pub record SignalParser : Type 0 where
  pub parser_id : String
  pub parser_version : String
  pub can_parse : String → Bool
  pub parse : String → String → Option String → Option String → Result (Option NormalizedSignal)
  pub validate : NormalizedSignal → Result NormalizedSignal

abbrev pub ParserRegistry : Type 0
ParserRegistry = Dict String SignalParser

-- parsers/registry.py
unfoldable pub register : SignalParser → ParserRegistry → ParserRegistry
register parser reg = Versioned.register parser.parser_id parser.parser_version parser reg

unfoldable pub get : String → Option String → ParserRegistry → Option SignalParser
get parser_id version reg = Versioned.find parser_id version reg

abbrev pub or_latest : Option SignalParser → Option SignalParser → Option SignalParser
or_latest none latest = latest
or_latest (some p) latest = some p

unfoldable pub resolve_parser : String → String → ParserRegistry → Option SignalParser
resolve_parser parser_id version reg =
    or_latest (get parser_id (some version) reg) (get parser_id none reg)

-- `_out`
abbrev pub out : IngestOutcome → RawInboundMessage → Option SignalParser → Detail → PipelineOutput
out outcome msg parser detail = record {
  result = record {
    outcome = outcome;
    source_id = msg.source_id;
    message_id = msg.message_id;
    signal_id = none;
    parser_id = elim parser [ none ↦ none | some p ↦ some p.parser_id ];
    parser_version = elim parser [ none ↦ none | some p ↦ some p.parser_version ];
    detail = some detail;
  };
  signal = none;
}

abbrev pub parsed_output : RawInboundMessage → SignalParser → NormalizedSignal → PipelineOutput
parsed_output msg parser signal = record {
  result = record {
    outcome = IngestOutcome.parsed;
    source_id = msg.source_id;
    message_id = msg.message_id;
    signal_id = some signal.signal_id;
    parser_id = some parser.parser_id;
    parser_version = some parser.parser_version;
    detail = none;
  };
  signal = some signal;
}

-- the end of the `try`, and its `except`
unfoldable pub after_validate :
    RawInboundMessage → SignalParser → Result NormalizedSignal → PipelineOutput
after_validate msg parser (ok signal) = parsed_output msg parser signal
after_validate msg parser (err e) = out IngestOutcome.parse_failed msg (some parser) (exception e)

unfoldable pub after_parse :
    RawInboundMessage → SignalParser → Result (Option NormalizedSignal) → PipelineOutput
after_parse msg parser (ok none) =
    out IngestOutcome.parse_skipped msg (some parser) parse_returned_none
after_parse msg parser (ok (some signal)) = after_validate msg parser (parser.validate signal)
after_parse msg parser (err e) = out IngestOutcome.parse_failed msg (some parser) (exception e)

-- steps 3 and 4
unfoldable pub run_parser : RawInboundMessage → SourceConfig → Option SignalParser → PipelineOutput
run_parser msg source none =
    out IngestOutcome.parse_skipped msg none (no_parser_for source.parser_id source.parser_version)
run_parser msg source (some parser) =
    if parser.can_parse msg.text
    then after_parse msg parser
        (parser.parse msg.text msg.source_id (some msg.message_id) msg.raw_hash)
    else out IngestOutcome.parse_skipped msg (some parser) can_parse_false

-- steps 2 to 4, for a known source
unfoldable pub process_known :
    ParserRegistry → RawInboundMessage → SourceConfig → DedupStore → PipelineOutput × DedupStore
process_known parsers msg source store =
    if not source.enabled
    then (out IngestOutcome.source_disabled msg none (disabled_source msg.source_id), store)
    else if is_duplicate msg store
    then (out IngestOutcome.duplicate msg none already_seen, store)
    else (
      run_parser msg source (resolve_parser source.parser_id source.parser_version parsers),
      mark_seen msg store,
    )

-- steps 1 to 4, once the source has been looked up
unfoldable pub process_from :
    ParserRegistry
    → RawInboundMessage
    → Option SourceConfig
    → DedupStore
    → PipelineOutput × DedupStore
process_from parsers msg none store =
    (out IngestOutcome.source_unknown msg none (unknown_source_id msg.source_id), store)
process_from parsers msg (some source) store = process_known parsers msg source store

-- `hashlib.sha256(text.encode("utf-8")).hexdigest()[:32]` is the library's: an argument.
module _ (compute_hash : String → String) where
  abbrev pub with_hash : RawInboundMessage → RawInboundMessage
  with_hash msg = elim msg.raw_hash [
    | none ↦
        if str_eq msg.text "" then msg else record msg { raw_hash = some (compute_hash msg.text) }
    | some h ↦ msg
  ]

  -- `SignalIngestionPipeline.process`
  unfoldable pub process :
      SourceRegistry → ParserRegistry → RawInboundMessage → DedupStore → PipelineOutput × DedupStore
  process sources parsers msg0 store =
      let msg = with_hash msg0 in process_from parsers msg (Sources.get msg.source_id sources) store
