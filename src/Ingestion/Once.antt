-- ===== src/Ingestion/Once.antt =====
-- No message is parsed twice.
use safe_signal_trader_v.Prelude.{String, eq_iff, true, none, List, [], ◌∷◌, ◌≡◌, ◌⊎◌, arith}
use safe_signal_trader_v.Sources.{SourceRegistry}
use safe_signal_trader_v.Ingestion.{
  IngestOutcome, RawInboundMessage, PipelineOutput, DedupStore, ParserRegistry, contains,
  is_duplicate, mark_seen, with_hash, process, process_known, process_from,
}

-- The store has the message's pair of source and message id.
abbrev pub IsSeen : RawInboundMessage → DedupStore → Type 0
IsSeen msg store = contains msg.source_id msg.message_id store.seen ≡ true

-- The outcomes that never reach a parser.
abbrev pub IsTurnedAway : IngestOutcome → Type 0
IsTurnedAway o =
    (o ≡ IngestOutcome.duplicate)
    ⊎ (o ≡ IngestOutcome.source_disabled)
    ⊎ (o ≡ IngestOutcome.source_unknown)

module _ (compute_hash : String → String) (sources : SourceRegistry)
    (parsers : ParserRegistry) where
  abbrev handle : RawInboundMessage → DedupStore → PipelineOutput × DedupStore
  handle = process compute_hash sources parsers

  with_hash-key :
      (msg : RawInboundMessage)
      → ((with_hash compute_hash msg).source_id ≡ msg.source_id)
        × ((with_hash compute_hash msg).message_id ≡ msg.message_id)
  with_hash-key msg = ground arith

  process_seen :
      (msg : RawInboundMessage) (store : DedupStore)
      → IsSeen msg store
      → IsTurnedAway (handle msg store).0.result.outcome
        × ((handle msg store).0.signal ≡ none)
        × ((handle msg store).1 ≡ store)
  unfolding process process_from process_known is_duplicate
  process_seen msg store seen = ground (arith, with_hash-key msg)

  -- a message stays seen
  process-keeps_IsSeen :
      (msg other : RawInboundMessage) (store : DedupStore)
      → IsSeen msg store
      → IsSeen msg (handle other store).1
  unfolding process process_from process_known mark_seen
  process-keeps_IsSeen msg other store seen = ground arith

  -- what is not turned away is marked
  process-marks :
      (msg : RawInboundMessage) (store : DedupStore)
      → ¬ IsTurnedAway (handle msg store).0.result.outcome
      → IsSeen msg (handle msg store).1
  unfolding process process_from process_known mark_seen
  process-marks msg store reached = ground (
    arith,
    with_hash-key msg,
    eq_iff msg.source_id msg.source_id,
    eq_iff msg.message_id msg.message_id,
  )

  unfoldable pub process_all : List RawInboundMessage → DedupStore → DedupStore
  process_all [] store = store
  process_all (msg ∷ msgs) store = process_all msgs (handle msg store).1

  IsSeen-later :
      (msg : RawInboundMessage) (msgs : List RawInboundMessage) (store : DedupStore)
      → IsSeen msg store
      → IsSeen msg (process_all msgs store)
  unfolding process_all
  IsSeen-later msg [] store seen = seen
  IsSeen-later msg (other ∷ msgs) store seen =
      IsSeen-later msg msgs (handle other store).1 (process-keeps_IsSeen msg other store seen)

  -- Once a message was not turned away (its source is known and enabled, and it is no duplicate),
  -- whatever its parser made of it, no later message with the same source and message id is parsed, an edit or not and whatever its text, after any messages in
  -- between: it is turned away with no signal, and leaves the store as it is.
  pub process_once :
      (msg later : RawInboundMessage) (between : List RawInboundMessage) (store : DedupStore)
      → later.source_id ≡ msg.source_id
      → later.message_id ≡ msg.message_id
      → ¬ IsTurnedAway (handle msg store).0.result.outcome
      → let after = process_all between (handle msg store).1 in
        IsTurnedAway (handle later after).0.result.outcome
        × ((handle later after).0.signal ≡ none)
        × ((handle later after).1 ≡ after)
  process_once msg later between store same_source same_id reached =
      let seen = IsSeen-later msg between (handle msg store).1 (process-marks msg store reached) in
      process_seen later _ (rw (same_source, same_id) seen)
