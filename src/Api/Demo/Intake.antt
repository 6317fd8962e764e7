-- ===== src/Api/Demo/Intake.antt =====
-- What the pipeline of the demo answers.
use safe_signal_trader_v.Prelude.{String, true, Option, none, some, [], ◌≡◌, arith}
use safe_signal_trader_v.Prelude.Eq.{string_eq}
use safe_signal_trader_v.Outcome.{ok}
use safe_signal_trader_v.Domain.Models.{NormalizedSignal}
use safe_signal_trader_v.Ingestion.{
  RawInboundMessage, SignalParser, resolve_parser, register, get, with_hash, or_latest,
}
use safe_signal_trader_v.Ingestion.Outcomes.{process-Parsed}
use safe_signal_trader_v.Parsers.Structured.{generic_structured_v1, parse, validate}
use safe_signal_trader_v.Parsers.Structured.Shape.{WellFormed, parse-WellFormed, validate-same}
use safe_signal_trader_v.Sources
use safe_signal_trader_v.Sources.{SourceConfig}
use safe_signal_trader_v.Versioned.{find_only}
use safe_signal_trader_v.Api.State.{Library, Reads, DemoState}
use safe_signal_trader_v.Api.Demo.{ingest, build_default_registry}

latest_or :
    (first second : Option SignalParser) (p q : SignalParser)
    → (first ≡ some p → p ≡ q)
    → (second ≡ some p → p ≡ q)
    → or_latest first second ≡ some p
    → p ≡ q
latest_or none second p q f g e = g e
latest_or (some a) second p q f g e = f e

pub with_hash_same :
    (hash : String → String) (m : RawInboundMessage)
    → ((with_hash hash m).source_id ≡ m.source_id)
      × ((with_hash hash m).message_id ≡ m.message_id)
      × ((with_hash hash m).text ≡ m.text)
with_hash_same hash m = ground arith

module _ (lib : Library) (r : Reads) where
  -- a registry of one parser finds no other
  only_parser :
      (id version : String) (p : SignalParser)
      → resolve_parser id version (build_default_registry lib r) ≡ some p
      → p ≡ generic_structured_v1 lib.text_hash r.signal_id r.signal_at
  unfolding resolve_parser get register build_default_registry
  only_parser id version p e =
      latest_or _ _ p _ (find_only _ _ id (some version) _ p) (find_only _ _ id none _ p) e

  -- A signal of the pipeline is one that the parser gave, for a source that is switched on.
  pub ingest-WellFormed :
      (msg : RawInboundMessage) (demo : DemoState) (signal : NormalizedSignal)
      → (ingest lib r msg demo).signal ≡ some signal
      → (source : SourceConfig) × (Sources.get (with_hash lib.text_hash msg).source_id demo.sources
          ≡ some source)
        × (source.enabled ≡ true)
        × WellFormed
            (with_hash lib.text_hash msg).text
            (with_hash lib.text_hash msg).source_id
            (some (with_hash lib.text_hash msg).message_id)
            signal
  unfolding ingest generic_structured_v1
  ingest-WellFormed msg demo signal e =
      let m = with_hash lib.text_hash msg in
      let p =
        process-Parsed demo.sources (build_default_registry lib r) lib.text_hash msg
          (record { seen = []; hashes = [] }) signal e in
      let it = only_parser p.source.parser_id p.source.parser_version p.parser p.bound in
      let checked : validate p.draft ≡ ok signal = rw it at p.validate_ok in
      let parsed : parse lib.text_hash r.signal_id r.signal_at m.text m.source_id
            (some m.message_id) m.raw_hash
          ≡ ok (some p.draft) =
        rw it at p.parse_ok in
      let same = (validate-same p.draft signal checked).0 in
      (
        p.source,
        p.known,
        p.enabled,
        rw same at (
            parse-WellFormed lib.text_hash r.signal_id r.signal_at m.text m.source_id
              (some m.message_id) m.raw_hash p.draft parsed),
      )
