-- ===== src/Parsers/Structured/Shape.antt =====
-- What a parsed signal looks like.
pub mod Levels
use Prim.Native.Char.{Char, code}
use text.Mathlib.TextEquality.{Char-path}
use Prim.Native.String.{String}
use mathlib.Core.List.{Perm}
use safe_signal_trader_v.Prelude.{
  ℕ, ◌+◌, ◌≤◌, ◌<◌, str_eq, eq_iff, Bool, true, false, not, ◌&&◌, ◌||◌, Option, none, some, List,
  [], ◌∷◌, ◌++◌, map, ◌≡◌, ◌≢◌, ◌↔◌, ◌⊎◌, inl, inr, refl, sym, ap, ◌∙◌, arith, leb, if◌then◌else◌,
  All, is_none, Bool-cases, Option-cases,
}
use safe_signal_trader_v.Outcome.{
  Failure, Result, ok, err, ◌>>=◌, ◌>>◌, require, validation_error, value_error,
}
use safe_signal_trader_v.Domain.Enums.{Side, EntryType}
use safe_signal_trader_v.Domain.Models.{Uuid, Timestamp, TakeProfitLevel, NormalizedSignal}
use safe_signal_trader_v.Domain.Validation.{normalized_signal, tp_indices_unique, leverage_bounds}
use safe_signal_trader_v.Domain.Validation.Signals.{
  NoRepeats, LeverageFits, normalized_signal-accepts,
}
use safe_signal_trader_v.Parsers.Text.{Text, chars, string_of, same, upper}
use safe_signal_trader_v.Decimal.{Decimal}
use safe_signal_trader_v.Parsers.Regex.{Regex, Groups, Match, search_text, find_all}
use safe_signal_trader_v.Parsers.Patterns.{signal_re, entry_re, sl_re, tp_re, lev_re}
use safe_signal_trader_v.Parsers.Structured.{
  parse, parse_match, validate, can_parse, levels_of, sort_levels, leverage_of, side_of,
  first_amount, group_text, normalize_symbol, to_decimal, int_of, draft,
}
use safe_signal_trader_v.Outcome.{bind_answered}
use safe_signal_trader_v.Parsers.Structured.Shape.Levels.{
  LevelFits, IsAscending, indices, levels_of-LevelFits, All-sort_levels, sort_levels-IsAscending,
  sort_levels-perm,
}

-- What the word for the side says.
abbrev pub SideWord : Text → Side → Type 0
SideWord w side =
    (((w ≡ chars "LONG") ⊎ (w ≡ chars "BUY")) × (side ≡ Side.long))
    ⊎ (((w ≡ chars "SHORT") ⊎ (w ≡ chars "SELL")) × (side ≡ Side.short))

same-eq : (s t : Text) → same s t ≡ true → s ≡ t
unfolding same
same-eq [] [] e = refl
same-eq [] (c ∷ t) e = absurd (ground arith)
same-eq (c ∷ s) [] e = absurd (ground arith)
same-eq (c ∷ s) (d ∷ t) e =
    let first : code c ≡ code d = ground arith in
    let rest : same s t ≡ true = ground arith in
    ap (λ (a : Char). a ∷ s) (Char-path c d first) ∙ ap (λ (u : Text). d ∷ u) (same-eq s t rest)

side_of-SideWord : (w : Text) (side : Side) → side_of w ≡ ok side → SideWord w side
unfolding side_of
side_of-SideWord w side e = ground (
  arith,
  same-eq w (chars "LONG"),
  same-eq w (chars "BUY"),
  same-eq w (chars "SHORT"),
  same-eq w (chars "SELL"),
)

-- The price of the first match of a pattern, if it has one that is a number.
abbrev pub PriceRead : Regex → Text → Option Decimal → Type 0
PriceRead r text price =
    ((search_text r text ≡ none) × (price ≡ none))
    ⊎ ((g : Groups) × (rest : Text) × (search_text r text ≡ some (g, rest))
        × (price ≡ to_decimal (group_text "price" g)))

first_amount-PriceRead :
    (r : Regex) (text : Text) → PriceRead r text (first_amount (search_text r text))
first_amount-PriceRead r text = elim (Option-cases (search_text r text)) [
  | inl missing ↦ inl (missing, rw missing refl)
  | inr ((g, rest), found) ↦ inr (g, rest, found, rw found refl)
]

-- The number of the first line for the leverage, if there is one.
abbrev pub LeverageRead : Text → Option ℕ → Type 0
LeverageRead text leverage =
    ((search_text lev_re text ≡ none) × (leverage ≡ none))
    ⊎ ((g : Groups) × (rest : Text) × (n : ℕ) × (search_text lev_re text ≡ some (g, rest))
        × (int_of (group_text "lev" g) ≡ ok n)
        × (leverage ≡ some n))

leverage_of-LeverageRead :
    (text : Text) (leverage : Option ℕ)
    → leverage_of (search_text lev_re text) ≡ ok leverage
    → LeverageRead text leverage
unfolding leverage_of
leverage_of-LeverageRead text leverage e = elim (Option-cases (search_text lev_re text)) [
  | inl missing ↦ inl (missing, ground (arith, missing))
  | inr ((g, rest), found) ↦
      let here : leverage_of (some (g, rest)) ≡ ok leverage = rw found at e in
      let (n, number, made) = bind_answered (int_of (group_text "lev" g)) _ leverage here in
      inr (g, rest, n, found, number, ground arith)
]

-- A signal that the parser gives: of a text that it takes, under its own name, with the side and the
-- symbol of the text's first signal line, the prices of its first entry and stop lines, LIMIT exactly
-- where an entry price was read, with the leverage in its bounds, and with the take profits that the
-- text has, each within its bounds, sorted by index and none twice.
pub record WellFormed (text source_id : String) (message_id : Option String)
    (signal : NormalizedSignal) : Type 0 where
  pub taken : can_parse (chars text) ≡ true
  pub parser : signal.parser_id ≡ "generic_structured"
  pub source : signal.source_id ≡ source_id
  pub message : signal.raw_message_id ≡ message_id
  pub groups : Groups
  pub rest : Text
  pub matched : search_text signal_re (chars text) ≡ some (groups, rest)
  pub side : SideWord (upper (group_text "side" groups)) signal.side
  pub symbol_read : signal.symbol ≡ string_of (normalize_symbol (group_text "symbol" groups))
  pub symbol : signal.symbol ≢ ""
  pub entry_read : PriceRead entry_re (chars text) signal.entry_price
  pub stop_read : PriceRead sl_re (chars text) signal.stop_loss
  pub priced : (signal.entry_type ≡ EntryType.limit) ↔ (signal.entry_price ≢ none)
  pub leverage_read : LeverageRead (chars text) signal.leverage
  pub leverage : LeverageFits signal.leverage
  pub read : List TakeProfitLevel
  pub levels : levels_of (find_all tp_re (chars text)) ≡ ok read
  pub same_levels : Perm signal.take_profits read
  pub fitting : All LevelFits signal.take_profits
  pub ascending : IsAscending signal.take_profits

normalized-same :
    (s t : NormalizedSignal)
    → normalized_signal s ≡ ok t
    → (s ≡ t) × LeverageFits s.leverage × NoRepeats (indices s.take_profits)
normalized-same s t e =
    let (when, otherwise) = normalized_signal-accepts s in
    elim otherwise [
      | inl accepted ↦ let (fits, distinct) = when.0 accepted in (cc (accepted, e), fits, distinct)
      | inr refused ↦ absurd (ground arith)
    ]

pub validate-same :
    (s t : NormalizedSignal)
    → validate s ≡ ok t
    → (s ≡ t) × (s.parser_id ≡ "generic_structured") × (s.symbol ≢ "")
unfolding validate
validate-same s t e = ground (arith, eq_iff s.parser_id "generic_structured", eq_iff s.symbol "")

module _ (compute_raw_hash : String → String) (id : Uuid) (now : Timestamp) where
  parse_match-WellFormed :
      (g : Groups) (rest : Text) (text source_id : String) (message_id raw_hash : Option String)
      (signal : NormalizedSignal)
      → can_parse (chars text) ≡ true
      → search_text signal_re (chars text) ≡ some (g, rest)
      → parse_match compute_raw_hash id now g text source_id message_id raw_hash ≡ ok (some signal)
      → WellFormed text source_id message_id signal
  unfolding parse_match
  parse_match-WellFormed g rest text source_id message_id raw_hash signal taken hit e =
      let (side, sided, e1) =
        bind_answered (side_of (upper (group_text "side" g))) _ (some signal) e in
      let (read, levels, e2) =
        bind_answered (levels_of (find_all tp_re (chars text))) _ (some signal) e1 in
      let (leverage, levered, e3) =
        bind_answered (leverage_of (search_text lev_re (chars text))) _ (some signal) e2 in
      let d =
        draft compute_raw_hash id now g text source_id message_id raw_hash side read leverage in
      let (made, normal, e4) = bind_answered (normalized_signal d) _ (some signal) e3 in
      let (valid, checked, e5) = bind_answered (validate made) _ (some signal) e4 in
      let (same, fits, distinct) = normalized-same d made normal in
      let (same', parser, symbol) = validate-same made valid checked in
      let last : valid ≡ signal = cc e5 in
      let whole = same ∙ same' ∙ last in
      rw (← whole) record {
        taken = taken;
        parser = refl;
        source = refl;
        message = refl;
        groups = g;
        rest = rest;
        matched = hit;
        side = side_of-SideWord (upper (group_text "side" g)) side sided;
        symbol_read = refl;
        entry_read = first_amount-PriceRead entry_re (chars text);
        stop_read = first_amount-PriceRead sl_re (chars text);
        leverage_read = leverage_of-LeverageRead (chars text) leverage levered;
        symbol = rw (← same) at symbol;
        priced = ground arith;
        leverage = fits;
        read = read;
        levels = levels;
        same_levels = sort_levels-perm read;
        fitting = All-sort_levels LevelFits read (levels_of-LevelFits _ read levels);
        ascending = sort_levels-IsAscending read distinct;
      }

  -- Whatever the message is, a signal that `parse` gives is well formed: its side is the one that the
  -- word in the first match of the signal line stands for, its symbol is the one there, normalized, its
  -- entry price, its stop and its leverage are those of the first matches of their lines, it is a LIMIT
  -- order exactly where an entry price was read, its leverage is in its bounds, and its take profits
  -- are those of the text, each within its bounds, sorted by index and none twice.
  pub parse-WellFormed :
      (text source_id : String) (message_id raw_hash : Option String) (signal : NormalizedSignal)
      → parse compute_raw_hash id now text source_id message_id raw_hash ≡ ok (some signal)
      → WellFormed text source_id message_id signal
  unfolding parse
  parse-WellFormed text source_id message_id raw_hash signal e =
      elim (Bool-cases (can_parse (chars text))) [
        | inl taken ↦ elim (Option-cases (search_text signal_re (chars text))) [
          | inl nothing ↦ absurd (ground arith)
          | inr ((g, rest), hit) ↦
              parse_match-WellFormed g rest text source_id message_id raw_hash signal taken hit
                (ground arith)
        ]
        | inr refused ↦ absurd (ground arith)
      ]
