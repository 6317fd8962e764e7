-- ===== src/Ingestion/SameText.antt =====
-- No text is parsed twice for one source, unless as an edit.
use safe_signal_trader_v.Prelude.{
  String, eq_iff, true, false, none, some, List, [], ◌∷◌, ◌≡◌, ◌≢◌, arith,
}
use safe_signal_trader_v.Sources.{SourceRegistry}
use safe_signal_trader_v.Ingestion.{
  RawInboundMessage, PipelineOutput, DedupStore, ParserRegistry, contains, is_duplicate, mark_seen,
  with_hash, process, process_known, process_from,
}
use safe_signal_trader_v.Ingestion.Once.{IsTurnedAway, process_all}

-- The store has the pair of this source and this hash.
abbrev pub IsHashed : String → String → DedupStore → Type 0
IsHashed source_id h store = contains source_id h store.hashes ≡ true

module _ (compute_hash : String → String) (sources : SourceRegistry)
    (parsers : ParserRegistry) where
  abbrev handle : RawInboundMessage → DedupStore → PipelineOutput × DedupStore
  handle = process compute_hash sources parsers

  with_hash-rest :
      (msg : RawInboundMessage)
      → ((with_hash compute_hash msg).source_id ≡ msg.source_id)
        × ((with_hash compute_hash msg).is_edit ≡ msg.is_edit)
  with_hash-rest msg = ground arith

  process-hashed :
      (msg : RawInboundMessage) (h : String) (store : DedupStore)
      → (with_hash compute_hash msg).raw_hash ≡ some h
      → h ≢ ""
      → msg.is_edit ≡ false
      → IsHashed msg.source_id h store
      → IsTurnedAway (handle msg store).0.result.outcome
        × ((handle msg store).0.signal ≡ none)
        × ((handle msg store).1 ≡ store)
  unfolding process process_from process_known is_duplicate
  process-hashed msg h store hashed nonempty fresh seen =
      ground (arith, with_hash-rest msg, eq_iff h "")

  process-keeps_IsHashed :
      (source_id h : String) (other : RawInboundMessage) (store : DedupStore)
      → IsHashed source_id h store
      → IsHashed source_id h (handle other store).1
  unfolding process process_from process_known mark_seen
  process-keeps_IsHashed source_id h other store seen = ground arith

  process-hashes :
      (msg : RawInboundMessage) (h : String) (store : DedupStore)
      → (with_hash compute_hash msg).raw_hash ≡ some h
      → h ≢ ""
      → ¬ IsTurnedAway (handle msg store).0.result.outcome
      → IsHashed msg.source_id h (handle msg store).1
  unfolding process process_from process_known mark_seen
  process-hashes msg h store hashed nonempty reached =
      ground
        (arith, with_hash-rest msg, eq_iff h "", eq_iff msg.source_id msg.source_id, eq_iff h h)

  IsHashed-later :
      (source_id h : String) (msgs : List RawInboundMessage) (store : DedupStore)
      → IsHashed source_id h store
      → IsHashed source_id h (process_all compute_hash sources parsers msgs store)
  unfolding process_all
  IsHashed-later source_id h [] store seen = seen
  IsHashed-later source_id h (other ∷ msgs) store seen =
      IsHashed-later source_id h msgs (handle other store).1
        (process-keeps_IsHashed source_id h other store seen)

  -- Once a message with a hash that is not empty was not turned away, no later message of its
  -- source with the same hash that is not an edit is parsed, whatever its message id, after any
  -- messages in between: it is turned away with no signal, and leaves the store as it is.
  pub process_same_text :
      (msg later : RawInboundMessage) (h : String) (between : List RawInboundMessage)
      (store : DedupStore)
      → (with_hash compute_hash msg).raw_hash ≡ some h
      → (with_hash compute_hash later).raw_hash ≡ some h
      → h ≢ ""
      → later.source_id ≡ msg.source_id
      → later.is_edit ≡ false
      → ¬ IsTurnedAway (handle msg store).0.result.outcome
      → let after = process_all compute_hash sources parsers between (handle msg store).1 in
        IsTurnedAway (handle later after).0.result.outcome
        × ((handle later after).0.signal ≡ none)
        × ((handle later after).1 ≡ after)
  process_same_text msg later h between store hashed hashed' nonempty same fresh reached =
      let seen =
        IsHashed-later msg.source_id h between (handle msg store).1
          (process-hashes msg h store hashed nonempty reached) in
      process-hashed later h _ hashed' nonempty fresh (rw same seen)
