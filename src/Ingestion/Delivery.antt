-- ===== src/Ingestion/Delivery.antt =====
-- When the pipeline gives a signal.
use Prim.Native.String.{◌++◌ as joined}
use safe_signal_trader_v.Prelude.{
  String, Bool, not, ◌&&◌, str_eq, eq_iff, true, false, Option, none, some, List, [], ◌∷◌, ◌≡◌, ◌≢◌,
  ◌↔◌, ◌⊎◌, inl, inr, refl, ap, arith, All, Bool-cases,
}
use mathlib.Core.Option.{some-injective}
use safe_signal_trader_v.Prelude.Eq.{string_eq}
use safe_signal_trader_v.Prelude.Dict
use safe_signal_trader_v.Versioned
use safe_signal_trader_v.Outcome.{ok}
use safe_signal_trader_v.Domain.Models.{NormalizedSignal}
use safe_signal_trader_v.Sources
use safe_signal_trader_v.Sources.{SourceConfig, SourceRegistry}
use safe_signal_trader_v.Ingestion.{
  RawInboundMessage, DedupStore, SignalParser, ParserRegistry, contains, hash_seen, is_duplicate,
  with_hash, process, process_known, process_from, run_parser, resolve_parser, get, or_latest,
  after_parse, after_validate,
}
use safe_signal_trader_v.Ingestion.Outcomes.{Parsed, process-Parsed}

-- No pair of the list is this one.
abbrev pub Lacks : String → String → List (String × String) → Type 0
Lacks a b ps = All (λ (p : String × String). ¬ ((p.0 ≡ a) × (p.1 ≡ b))) ps

Lacks-contains :
    (a b : String) (ps : List (String × String)) → (contains a b ps ≡ false) ↔ Lacks a b ps
Lacks-contains a b [] = (λ e. tt, λ h. refl)
Lacks-contains a b (p ∷ ps) = (
  λ e. ground (arith, eq_iff p.0 a, eq_iff p.1 b, (Lacks-contains a b ps).0),
  λ h. ground (arith, eq_iff p.0 a, eq_iff p.1 b, (Lacks-contains a b ps).1 h.1),
)

-- The message is new: its id was not seen from its source, and neither was its text, by its hash,
-- unless it is an edit or has no hash.
abbrev pub IsNew : RawInboundMessage → DedupStore → Type 0
IsNew msg store =
    Lacks msg.source_id msg.message_id store.seen
    × ((msg.is_edit ≡ true)
        ⊎ (msg.raw_hash ≡ none)
        ⊎ (msg.raw_hash ≡ some "")
        ⊎ ((h : String) × (msg.raw_hash ≡ some h) × Lacks msg.source_id h store.hashes))

new_hash :
    (edit : Bool) (h : Option String) (source_id : String) (hashes : List (String × String))
    → ((hash_seen source_id h hashes && not edit) ≡ false) ↔ (
        (edit ≡ true)
        ⊎ (h ≡ none)
        ⊎ (h ≡ some "")
        ⊎ ((k : String) × (h ≡ some k) × Lacks source_id k hashes))
new_hash true h source_id hashes = (λ e. inl refl, λ it. ground arith)
new_hash false none source_id hashes = (λ e. inr (inl refl), λ it. refl)
new_hash false (some k) source_id hashes = (
  λ e. elim (Bool-cases (str_eq k "")) [
    | inl empty ↦ inr (inr (inl (ap some ((eq_iff k "").0 empty))))
    | inr there ↦
        let free : contains source_id k hashes ≡ false = ground arith in
        inr (inr (inr (k, refl, (Lacks-contains source_id k hashes).0 free)))
  ],
  back,
)
  where
    back :
        (Bool.false ≡ true)
          ⊎ (some k ≡ none)
          ⊎ (some k ≡ some "")
          ⊎ ((j : String) × (some k ≡ some j) × Lacks source_id j hashes)
        → (hash_seen source_id (some k) hashes && not false) ≡ false
    back (inl e) = cc e
    back (inr (inl e)) = cc e
    back (inr (inr (inl e))) =
        let same : k ≡ "" = some-injective _ _ e in ground (arith, eq_iff k "")
    back (inr (inr (inr (j, e, lacks)))) =
        let same : k ≡ j = some-injective _ _ e in
        let free : contains source_id j hashes ≡ false =
          (Lacks-contains source_id j hashes).1 lacks in
        let here : contains source_id k hashes ≡ false = rw (← same) at free in ground arith

IsNew-iff :
    (msg : RawInboundMessage) (store : DedupStore)
    → (is_duplicate msg store ≡ false) ↔ IsNew msg store
unfolding is_duplicate
IsNew-iff msg store =
    let ids = Lacks-contains msg.source_id msg.message_id store.seen in
    let hashes = new_hash msg.is_edit msg.raw_hash msg.source_id store.hashes in
    (
      λ e. (ids.0 (ground arith), hashes.0 (ground arith)),
      λ (a, b).
          let new : contains msg.source_id msg.message_id store.seen ≡ false = ids.1 a in
          let fresh : (hash_seen msg.source_id msg.raw_hash store.hashes && not msg.is_edit)
              ≡ false =
            hashes.1 b in
          ground arith,
    )

-- A parser that an id and a version are bound to: the one of this version, where the version is not
-- empty and registered, and otherwise the latest with this id.
abbrev pub IsBound : String → String → ParserRegistry → SignalParser → Type 0
IsBound id version reg p =
    ((version ≢ "") × (Dict.get (joined id (joined "@" version)) reg ≡ some p))
    ⊎ (((version ≡ "") ⊎ (Dict.get (joined id (joined "@" version)) reg ≡ none))
        × (Dict.get id reg ≡ some p))

latest : (o : Option SignalParser) (p : SignalParser) → (or_latest o o ≡ some p) ↔ (o ≡ some p)
latest none p = (λ e. e, λ e. e)
latest (some q) p = (λ e. e, λ e. e)

first_or :
    (a b : Option SignalParser) (p : SignalParser)
    → (or_latest a b ≡ some p) ↔ ((a ≡ some p) ⊎ ((a ≡ none) × (b ≡ some p)))
first_or none b p = (λ e. inr (refl, e), λ it. elim it [ inl e ↦ cc e | inr (_, e) ↦ e ])
first_or (some q) b p = (λ e. inl e, λ it. elim it [ inl e ↦ e | inr (e, _) ↦ cc e ])

IsBound-iff :
    (id version : String) (reg : ParserRegistry) (p : SignalParser)
    → (resolve_parser id version reg ≡ some p) ↔ IsBound id version reg p
unfolding resolve_parser get Versioned.find Versioned.key
IsBound-iff id version reg p = elim (Bool-cases (str_eq version "")) [
  | inl unnamed ↦
      let empty : version ≡ "" = (eq_iff version "").0 unnamed in
      let plain = latest (Dict.get id reg) p in
      (
        λ e. inr (inl empty, plain.0 (rw (get, Versioned.find, unnamed) at e)),
        λ it. elim it [
          | inl (nonempty, _) ↦ absurd (nonempty empty)
          | inr (_, found) ↦ rw (get, Versioned.find, unnamed) (plain.1 found)
        ],
      )
  | inr named ↦
      let nonempty : version ≢ "" = λ e. cc (named, (eq_iff version "").1 e) in
      let both = first_or (Dict.get (joined id (joined "@" version)) reg) (Dict.get id reg) p in
      (
        λ e. elim (both.0 (rw (get, Versioned.find, named) at e)) [
          | inl found ↦ inl (nonempty, found)
          | inr (missing, found) ↦ inr (inr missing, found)
        ],
        λ it. elim it [
          | inl (_, found) ↦ rw (get, Versioned.find, named) (both.1 (inl found))
          | inr (inl empty, found) ↦ absurd (nonempty empty)
          | inr (inr missing, found) ↦
              rw (get, Versioned.find, named) (both.1 (inr (missing, found)))
        ],
      )
]

-- How a signal comes about: the source is registered and enabled, the message is new, and the parser
-- that the source is bound to takes the text, parses it and validates the signal.
pub record Delivered (sources : SourceRegistry) (parsers : ParserRegistry) (msg : RawInboundMessage)
    (store : DedupStore) (signal : NormalizedSignal) : Type 0 where
  pub source : SourceConfig
  pub parser : SignalParser
  pub draft : NormalizedSignal
  pub known : Dict.get msg.source_id sources ≡ some source
  pub enabled : source.enabled ≡ true
  pub new : IsNew msg store
  pub bound : IsBound source.parser_id source.parser_version parsers parser
  pub taken : parser.can_parse msg.text ≡ true
  pub parse_ok :
      parser.parse msg.text msg.source_id (some msg.message_id) msg.raw_hash ≡ ok (some draft)
  pub validate_ok : parser.validate draft ≡ ok signal

module _ (sources : SourceRegistry) (parsers : ParserRegistry) (compute_hash : String → String)
    (msg : RawInboundMessage) (store : DedupStore) (signal : NormalizedSignal) where
  Delivered-Parsed :
      Parsed sources parsers (with_hash compute_hash msg) store signal
      → Delivered sources parsers (with_hash compute_hash msg) store signal
  unfolding Sources.get
  Delivered-Parsed p = record {
    source = p.source;
    parser = p.parser;
    draft = p.draft;
    known = p.known;
    enabled = p.enabled;
    new = (IsNew-iff (with_hash compute_hash msg) store).0 p.new;
    bound = (IsBound-iff p.source.parser_id p.source.parser_version parsers p.parser).0 p.bound;
    taken = p.taken;
    parse_ok = p.parse_ok;
    validate_ok = p.validate_ok;
  }

  process-given :
      Delivered sources parsers (with_hash compute_hash msg) store signal
      → (process compute_hash sources parsers msg store).0.signal ≡ some signal
  unfolding process process_from process_known run_parser after_parse after_validate Sources.get
  process-given d =
      let new = (IsNew-iff (with_hash compute_hash msg) store).1 d.new in
      let bound =
        (IsBound-iff d.source.parser_id d.source.parser_version parsers d.parser).1 d.bound in
      rw (d.known, d.enabled, new, bound, d.taken, d.parse_ok, d.validate_ok) refl

  -- The pipeline gives a signal exactly when the message's source is registered and enabled, the message
  -- (with its hash filled in) is new, in its id and, unless it is an edit or has no hash, in its hash,
  -- and the parser that the source is bound to, of its version if that is registered and else the
  -- latest, takes the text, parses it and validates it into this signal.
  pub process-Delivered :
      ((process compute_hash sources parsers msg store).0.signal ≡ some signal)
      ↔ Delivered sources parsers (with_hash compute_hash msg) store signal
  process-Delivered = (
    λ e. Delivered-Parsed (process-Parsed sources parsers compute_hash msg store signal e),
    process-given,
  )
