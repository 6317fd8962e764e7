-- ===== src/Parsers/Structured/SignalLine/Parsing.antt =====
-- The signal that a message of one line gives.
use Prim.Native.Char.{Char}
use Prim.Native.String.{String}
use safe_signal_trader_v.Prelude.{
  eq_iff, ◌≤◌, Bool, true, false, ◌||◌, Option, none, some, [], ◌∷◌, ◌++◌, ◌≡◌, ◌≢◌, refl, arith,
  All-append, any, length, if◌then◌else◌,
}
use safe_signal_trader_v.Prelude.Eq.{string_eq}
use safe_signal_trader_v.Prelude.Dict
use safe_signal_trader_v.Outcome.{Result, ok, ◌>>=◌, bind_ok}
use safe_signal_trader_v.Domain.Enums.{EntryType}
use safe_signal_trader_v.Domain.Models.{Uuid, Timestamp, Object, NormalizedSignal}
use safe_signal_trader_v.Parsers.Text.{
  Text, chars, string_of, is_space, is_newline, is_alnum, upper, upper_char, strip, ends_with, same,
}
use safe_signal_trader_v.Parsers.Regex.{Regex, run, run_many, match_at, search_text, find_all}
use safe_signal_trader_v.Parsers.Regex.Greedy.{Each, IsOneLine, search_text-line, search_text-start}
use safe_signal_trader_v.Parsers.Patterns.{signal_re, entry_re, sl_re, tp_re, lev_re}
use safe_signal_trader_v.Parsers.Structured.{
  parse, parse_match, can_parse, normalize_symbol, validate, side_of, levels_of, sort_levels,
  leverage_of, hash_or, draft,
}
use safe_signal_trader_v.Domain.Validation.{normalized_signal, leverage_bounds, tp_indices_unique}
use safe_signal_trader_v.Parsers.Structured.SignalLine.{
  Keyword, long_word, short_word, buy_word, sell_word, spelling, meaning, signal_line,
  alnum_no_newline, groups_of, signal_line-match,
}

IsOneLine-check : (s : Text) → any is_newline s ≡ false → IsOneLine s
IsOneLine-check [] e = tt
IsOneLine-check (c ∷ s) e = (ground arith, IsOneLine-check s (ground arith))

Each-IsOneLine : (s : Text) → Each is_alnum s → IsOneLine s
Each-IsOneLine [] fit = tt
Each-IsOneLine (c ∷ s) fit = (alnum_no_newline c fit.0, Each-IsOneLine s fit.1)

spelling-IsOneLine : (k : Keyword) → IsOneLine (spelling k)
unfolding spelling is_newline
spelling-IsOneLine long_word = IsOneLine-check (chars "LONG") refl
spelling-IsOneLine short_word = IsOneLine-check (chars "SHORT") refl
spelling-IsOneLine buy_word = IsOneLine-check (chars "BUY") refl
spelling-IsOneLine sell_word = IsOneLine-check (chars "SELL") refl

signal_line-IsOneLine :
    (k : Keyword) (symbol : Text) → Each is_alnum symbol → IsOneLine (signal_line k symbol)
unfolding signal_line is_newline
signal_line-IsOneLine k symbol fit =
    All-append _ (chars "SIGNAL ") _ (IsOneLine-check (chars "SIGNAL ") refl) (
      All-append _ (spelling k) _ (spelling-IsOneLine k)
        (All-append _ (chars " ") _ (IsOneLine-check (chars " ") refl) (Each-IsOneLine symbol fit)))

-- A pattern that does not fit the start of such a line is not found on it.
signal_line-none :
    (r : Regex) (k : Keyword) (symbol : Text)
    → match_at r true (signal_line k symbol) ≡ none
    → Each is_alnum symbol
    → (search_text r (signal_line k symbol) ≡ none) × (find_all r (signal_line k symbol) ≡ [])
signal_line-none r k symbol e fit =
    search_text-line r (signal_line k symbol) e (signal_line-IsOneLine k symbol fit)

others-none :
    (k : Keyword) (symbol : Text)
    → (match_at entry_re true (signal_line k symbol) ≡ none)
      × (match_at sl_re true (signal_line k symbol) ≡ none)
      × (match_at tp_re true (signal_line k symbol) ≡ none)
      × (match_at lev_re true (signal_line k symbol) ≡ none)
unfolding match_at run run_many signal_line is_space upper_char
others-none k symbol = (refl, refl, refl, refl)

signal_line-search :
    (k : Keyword) (c : Char) (symbol : Text)
    → Each is_alnum (c ∷ symbol)
    → search_text signal_re (signal_line k (c ∷ symbol)) ≡ some (groups_of k (c ∷ symbol), [])
signal_line-search k c symbol fit =
    search_text-start signal_re _ _ (signal_line-match k c symbol fit)

signal_line-long : (k : Keyword) (symbol : Text) → 8 ≤ length (strip (signal_line k symbol))
unfolding strip signal_line is_space
signal_line-long long_word symbol = ground arith
signal_line-long short_word symbol = ground arith
signal_line-long buy_word symbol = ground arith
signal_line-long sell_word symbol = ground arith

signal_line-can_parse :
    (k : Keyword) (c : Char) (symbol : Text)
    → Each is_alnum (c ∷ symbol)
    → can_parse (signal_line k (c ∷ symbol)) ≡ true
unfolding can_parse
signal_line-can_parse k c symbol fit =
    let long_enough = signal_line-long k (c ∷ symbol) in
    rw (signal_line-search k c symbol fit) (ground arith)

nonempty_text : (b : Bool) (d : Char) (s t : Text) → string_of (if b then d ∷ s else d ∷ t) ≢ ""
unfolding string_of
nonempty_text true d s t e = cc
nonempty_text false d s t e = cc

normalized-nonempty : (raw : Text) → string_of (normalize_symbol raw) ≢ ""
unfolding normalize_symbol ends_with string_of chars
normalized-nonempty raw = kept (strip (upper raw))
  where
    kept :
        (s : Text)
        → string_of (
            if ends_with s (chars "USDT") || ends_with s (chars "USD") || ends_with s (chars "USDC")
            then s
            else s ++ chars "USDT")
          ≢ ""
    kept [] e = cc
    kept (d ∷ s) e = nonempty_text _ d s _ e

-- The signal of such a line: a market order, with nothing but a side and a symbol.
abbrev pub market_signal :
    (String → String)
    → Uuid
    → Timestamp
    → Keyword
    → Text
    → String
    → String
    → Option String
    → Option String
    → NormalizedSignal
market_signal hash id now k symbol text source_id message_id raw_hash = record {
  signal_id = id;
  source_id = source_id;
  parser_id = "generic_structured";
  parser_version = "1.0.0";
  symbol = string_of (normalize_symbol symbol);
  side = meaning k;
  entry_type = EntryType.market;
  entry_price = none;
  stop_loss = none;
  take_profits = [];
  leverage = none;
  raw_message_id = message_id;
  raw_hash = some (hash_or (hash text) raw_hash);
  received_at = now;
  extra = Object.empty;
}

side_of-spelling : (k : Keyword) → side_of (upper (spelling k)) ≡ ok (meaning k)
unfolding side_of upper spelling meaning same chars
side_of-spelling long_word = refl
side_of-spelling short_word = refl
side_of-spelling buy_word = refl
side_of-spelling sell_word = refl

validate-market_signal :
    (signal : NormalizedSignal)
    → signal.parser_id ≡ "generic_structured"
    → signal.symbol ≢ ""
    → signal.leverage ≡ none
    → validate signal ≡ ok signal
unfolding validate leverage_bounds
validate-market_signal signal parser symbol leverage =
    ground (arith, eq_iff signal.parser_id "generic_structured", eq_iff signal.symbol "")

-- Every line that is the word SIGNAL, one of the four side words and a symbol of letters and digits, with a
-- blank between them, is parsed, and gives the market order for that side and that symbol (normalized),
-- without a stop, take profits or a leverage.
pub parse-signal_line :
    (hash : String → String) (id : Uuid) (now : Timestamp) (k : Keyword) (c : Char) (symbol : Text)
    (text source_id : String) (message_id raw_hash : Option String)
    → Each is_alnum (c ∷ symbol)
    → chars text ≡ signal_line k (c ∷ symbol)
    → parse hash id now text source_id message_id raw_hash
      ≡ ok (some (market_signal hash id now k (c ∷ symbol) text source_id message_id raw_hash))
unfolding parse parse_match levels_of leverage_of normalized_signal tp_indices_unique sort_levels
    Dict.get
parse-signal_line hash id now k c symbol text source_id message_id raw_hash fit it =
    let (no_entry, no_sl, no_tp, no_lev) = others-none k (c ∷ symbol) in
    let entry = (signal_line-none entry_re k (c ∷ symbol) no_entry fit).0 in
    let sl = (signal_line-none sl_re k (c ∷ symbol) no_sl fit).0 in
    let tps = (signal_line-none tp_re k (c ∷ symbol) no_tp fit).1 in
    let lev = (signal_line-none lev_re k (c ∷ symbol) no_lev fit).0 in
    let takes = signal_line-can_parse k c symbol fit in
    let found = signal_line-search k c symbol fit in
    let side = side_of-spelling k in
    let signal = market_signal hash id now k (c ∷ symbol) text source_id message_id raw_hash in
    let levels : levels_of (find_all tp_re (chars text)) ≡ ok [] = rw (it, tps) refl in
    let leverage : leverage_of (search_text lev_re (chars text)) ≡ ok none = rw (it, lev) refl in
    let drafted : draft hash id now (groups_of k (c ∷ symbol)) text source_id message_id raw_hash
          (meaning k) [] none
        ≡ signal =
      rw (it, entry, sl) refl in
    let normal : normalized_signal (
          draft hash id now (groups_of k (c ∷ symbol)) text source_id message_id raw_hash
            (meaning k) [] none)
        ≡ ok signal =
      rw drafted refl in
    let valid = validate-market_signal signal refl (normalized-nonempty (c ∷ symbol)) refl in
    let keep : NormalizedSignal → Result (Option NormalizedSignal) = λ s. ok (some s) in
    rw (it, takes, found)
      (bind_ok _ _ (meaning k) _ side (
        bind_ok _ _ [] _ levels (
          bind_ok _ _ none _ leverage (
            bind_ok _ (λ s. validate s >>= keep) signal _ normal
              (bind_ok _ keep signal _ valid refl)))))
