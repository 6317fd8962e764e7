-- ===== src/Ingestion/Outcomes.antt =====
-- What an outcome says of the way that the message took.
use safe_signal_trader_v.Prelude.{
  String, true, false, Option, none, some, ◌≡◌, ◌≢◌, ◌↔◌, refl, inl, inr, arith, Bool-cases,
}
use safe_signal_trader_v.Outcome.{Result, ok, err}
use safe_signal_trader_v.Domain.Models.{NormalizedSignal}
use safe_signal_trader_v.Sources
use safe_signal_trader_v.Sources.{SourceConfig, SourceRegistry}
use safe_signal_trader_v.Ingestion.{
  IngestOutcome, RawInboundMessage, PipelineOutput, DedupStore, SignalParser, ParserRegistry,
  is_duplicate, with_hash, process, process_known, process_from, run_parser, resolve_parser,
  after_parse, after_validate,
}

-- A signal came out of the pipeline: the parser bound to the enabled source took the text, parsed it
-- and validated the signal.
pub record Parsed (sources : SourceRegistry) (parsers : ParserRegistry) (msg : RawInboundMessage)
    (store : DedupStore) (signal : NormalizedSignal) : Type 0 where
  pub source : SourceConfig
  pub parser : SignalParser
  pub draft : NormalizedSignal
  pub known : Sources.get msg.source_id sources ≡ some source
  pub enabled : source.enabled ≡ true
  pub new : is_duplicate msg store ≡ false
  pub bound : resolve_parser source.parser_id source.parser_version parsers ≡ some parser
  pub taken : parser.can_parse msg.text ≡ true
  pub parse_ok :
      parser.parse msg.text msg.source_id (some msg.message_id) msg.raw_hash ≡ ok (some draft)
  pub validate_ok : parser.validate draft ≡ ok signal

after_parse-signal :
    (msg : RawInboundMessage) (parser : SignalParser) (r : Result (Option NormalizedSignal))
    (signal : NormalizedSignal)
    → (after_parse msg parser r).signal ≡ some signal
    → (draft : NormalizedSignal) × (r ≡ ok (some draft)) × (parser.validate draft ≡ ok signal)
unfolding after_parse after_validate
after_parse-signal msg parser (ok none) signal e = absurd (ground arith)
after_parse-signal msg parser (ok (some draft)) signal e = (draft, refl, ground arith)
after_parse-signal msg parser (err x) signal e = absurd (ground arith)

-- A signal is there exactly with the outcome PARSED.
abbrev pub Agrees : PipelineOutput → Type 0
Agrees o = (o.signal ≢ none) ↔ (o.result.outcome ≡ IngestOutcome.parsed)

after_validate-Agrees :
    (msg : RawInboundMessage) (parser : SignalParser) (r : Result NormalizedSignal)
    → Agrees (after_validate msg parser r)
unfolding after_validate
after_validate-Agrees msg parser (ok signal) = ground arith
after_validate-Agrees msg parser (err e) = ground arith

after_parse-Agrees :
    (msg : RawInboundMessage) (parser : SignalParser) (r : Result (Option NormalizedSignal))
    → Agrees (after_parse msg parser r)
unfolding after_parse
after_parse-Agrees msg parser (ok none) = ground arith
after_parse-Agrees msg parser (ok (some signal)) = after_validate-Agrees msg parser _
after_parse-Agrees msg parser (err e) = ground arith

run_parser-Agrees :
    (msg : RawInboundMessage) (source : SourceConfig) (parser : Option SignalParser)
    → Agrees (run_parser msg source parser)
unfolding run_parser
run_parser-Agrees msg source none = ground arith
run_parser-Agrees msg source (some parser) = elim (Bool-cases (parser.can_parse msg.text)) [
  | inl taken ↦ rw taken (after_parse-Agrees msg parser _)
  | inr refused ↦ rw refused (ground arith)
]

run_parser-signal :
    (msg : RawInboundMessage) (source : SourceConfig) (bound : Option SignalParser)
    (signal : NormalizedSignal)
    → (run_parser msg source bound).signal ≡ some signal
    → (parser : SignalParser) × (draft : NormalizedSignal) × (bound ≡ some parser)
      × (parser.can_parse msg.text ≡ true)
      × (parser.parse msg.text msg.source_id (some msg.message_id) msg.raw_hash ≡ ok (some draft))
      × (parser.validate draft ≡ ok signal)
unfolding run_parser
run_parser-signal msg source none signal e = absurd (ground arith)
run_parser-signal msg source (some parser) signal e =
    elim (Bool-cases (parser.can_parse msg.text)) [
      | inl taken ↦
          let (draft, parsed, valid) = after_parse-signal msg parser _ signal (rw taken at e) in
          (parser, draft, refl, taken, parsed, valid)
      | inr refused ↦ absurd (ground arith)
    ]

module _ (sources : SourceRegistry) (parsers : ParserRegistry) where
  known-Agrees :
      (msg : RawInboundMessage) (source : SourceConfig) (store : DedupStore)
      → Agrees (process_known parsers msg source store).0
  unfolding process_known
  known-Agrees msg source store = ground (
    arith,
    run_parser-Agrees msg source (resolve_parser source.parser_id source.parser_version parsers),
  )

  known-Parsed :
      (msg : RawInboundMessage) (source : SourceConfig) (store : DedupStore)
      (signal : NormalizedSignal)
      → Sources.get msg.source_id sources ≡ some source
      → (process_known parsers msg source store).0.signal ≡ some signal
      → Parsed sources parsers msg store signal
  unfolding process_known
  known-Parsed msg source store signal known e =
      let bound = resolve_parser source.parser_id source.parser_version parsers in
      let reached : (source.enabled ≡ true)
          × (is_duplicate msg store ≡ false)
          × ((run_parser msg source bound).signal ≡ some signal) =
        ground arith in
      let (parser, draft, p, taken, parsed, valid) =
        run_parser-signal msg source bound signal reached.2 in
      record {
        source = source;
        parser = parser;
        draft = draft;
        known = known;
        enabled = reached.0;
        new = reached.1;
        bound = p;
        taken = taken;
        parse_ok = parsed;
        validate_ok = valid;
      }

  from-Agrees :
      (msg : RawInboundMessage) (source : Option SourceConfig) (store : DedupStore)
      → Agrees (process_from parsers msg source store).0
  unfolding process_from
  from-Agrees msg none store = ground arith
  from-Agrees msg (some source) store = known-Agrees msg source store

  from-Parsed :
      (msg : RawInboundMessage) (source : Option SourceConfig) (store : DedupStore)
      (signal : NormalizedSignal)
      → Sources.get msg.source_id sources ≡ source
      → (process_from parsers msg source store).0.signal ≡ some signal
      → Parsed sources parsers msg store signal
  unfolding process_from
  from-Parsed msg none store signal known e = absurd (ground arith)
  from-Parsed msg (some source) store signal known e = known-Parsed msg source store signal known e

  -- A signal comes with the outcome PARSED and with no other.
  pub process-Agrees :
      (compute_hash : String → String) (msg : RawInboundMessage) (store : DedupStore)
      → Agrees (process compute_hash sources parsers msg store).0
  unfolding process
  process-Agrees compute_hash msg store =
      from-Agrees (with_hash compute_hash msg)
        (Sources.get (with_hash compute_hash msg).source_id sources) store

  -- Every signal that the pipeline gives comes from the parser that its source is bound to: the source
  -- is registered and enabled, the message is no duplicate, and the parser took, parsed and validated
  -- exactly this text (with the hash filled in).
  pub process-Parsed :
      (compute_hash : String → String) (msg : RawInboundMessage) (store : DedupStore)
      (signal : NormalizedSignal)
      → (process compute_hash sources parsers msg store).0.signal ≡ some signal
      → Parsed sources parsers (with_hash compute_hash msg) store signal
  unfolding process
  process-Parsed compute_hash msg store signal e =
      from-Parsed (with_hash compute_hash msg)
        (Sources.get (with_hash compute_hash msg).source_id sources) store signal refl e
