-- ===== src/Ingestion/Tests.antt =====
-- One message for the example source, with a parser that takes every text.
use safe_signal_trader_v.Prelude.{
  String, eq_iff, true, false, none, some, [], ◌∷◌, ◌≡◌, ◌≢◌, ◌↔◌, refl, arith,
}
use safe_signal_trader_v.Prelude.Dict
use safe_signal_trader_v.Outcome.{ok}
use safe_signal_trader_v.Domain.Models.{Object, NormalizedSignal}
use safe_signal_trader_v.Versioned
use safe_signal_trader_v.Sources
use safe_signal_trader_v.Sources.{SourceRegistry, build_example_registry}
use safe_signal_trader_v.Ingestion.{
  IngestOutcome, RawInboundMessage, DedupStore, SignalParser, ParserRegistry, register, get,
  resolve_parser, is_duplicate, with_hash, process, process_known, process_from, run_parser,
  after_parse, after_validate,
}
use safe_signal_trader_v.Ingestion.Once.{IsTurnedAway, process_all, process_once}
use safe_signal_trader_v.Ingestion.SameText.{process_same_text}
use safe_signal_trader_v.Ingestion.Outcomes.{process-Agrees}
use safe_signal_trader_v.Ingestion.Delivery.{Delivered, process-Delivered}
use safe_signal_trader_v.Samples.{long_signal}

abbrev any_text : SignalParser
any_text = record {
  parser_id = "generic_structured";
  parser_version = "1.0.0";
  can_parse = λ text. true;
  parse = λ text source_id message_id raw_hash.
      ok (some (record long_signal { raw_message_id = message_id; raw_hash = raw_hash }));
  validate = λ signal. ok signal;
}

abbrev sources : SourceRegistry
sources = build_example_registry 3

abbrev parsers : ParserRegistry
parsers = register any_text []

abbrev hash_of : String → String
hash_of text = "h"

abbrev first : RawInboundMessage
first = record {
  source_id = "src_demo_alpha";
  message_id = "m1";
  text = "BTCUSDT LONG";
  is_edit = false;
  received_at = 4;
  raw_hash = none;
  meta = Object.empty;
}

abbrev nothing_seen : DedupStore
nothing_seen = record { seen = []; hashes = [] }

abbrev first_signal : NormalizedSignal
first_signal = record long_signal { raw_message_id = some "m1"; raw_hash = some "h" }

process-first : (process hash_of sources parsers first nothing_seen).0.signal ≡ some first_signal
unfolding process process_from process_known run_parser after_parse after_validate is_duplicate
    resolve_parser get register Versioned.register Versioned.find Versioned.key Sources.get
    build_example_registry Sources.register Dict.get Dict.put
process-first = refl

process-Delivered_example :
    ((process hash_of sources parsers first nothing_seen).0.signal ≡ some first_signal)
    ↔ Delivered sources parsers (with_hash hash_of first) nothing_seen first_signal
process-Delivered_example =
    process-Delivered sources parsers hash_of first nothing_seen first_signal

first_parsed :
    (process hash_of sources parsers first nothing_seen).0.result.outcome ≡ IngestOutcome.parsed
first_parsed =
    (process-Agrees sources parsers hash_of first nothing_seen).0
      (λ e. ground (arith, process-first))

first_reached : ¬ IsTurnedAway (process hash_of sources parsers first nothing_seen).0.result.outcome
first_reached = rw first_parsed (ground arith)

-- an edit of the message, after a message from a source that nobody knows
abbrev edit : RawInboundMessage
edit = record first { text = "BTCUSDT SHORT"; is_edit = true }

abbrev stranger : RawInboundMessage
stranger = record first { source_id = "src_other" }

process_once_example :
    let after =
      process_all hash_of sources parsers
        (stranger ∷ [])
        (process hash_of sources parsers first nothing_seen).1 in
    IsTurnedAway (process hash_of sources parsers edit after).0.result.outcome
    × ((process hash_of sources parsers edit after).0.signal ≡ none)
    × ((process hash_of sources parsers edit after).1 ≡ after)
process_once_example =
    process_once hash_of sources parsers first edit (stranger ∷ []) nothing_seen refl refl
      first_reached

-- the same text under a new message id, after the stranger's
abbrev repost : RawInboundMessage
repost = record first { message_id = "m2" }

abbrev text_hash : String
text_hash = "h"

text_hash_there : text_hash ≢ ""
text_hash_there e = cc ((eq_iff text_hash "").1 e)

process_same_text_example :
    let after =
      process_all hash_of sources parsers
        (stranger ∷ [])
        (process hash_of sources parsers first nothing_seen).1 in
    IsTurnedAway (process hash_of sources parsers repost after).0.result.outcome
    × ((process hash_of sources parsers repost after).0.signal ≡ none)
    × ((process hash_of sources parsers repost after).1 ≡ after)
process_same_text_example =
    process_same_text hash_of sources parsers first repost text_hash (stranger ∷ []) nothing_seen
      refl refl text_hash_there refl refl first_reached
