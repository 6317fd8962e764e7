-- ===== src/Parsers/Structured.antt =====
-- parsers/generic_structured.py: messages of lines such as "SIGNAL LONG BTCUSDT", "SL 64000".
pub mod Acceptance
pub mod Shape
pub mod SignalLine
mod Tests
use Prim.Native.Char.{Char, code}
use Prim.Native.String.{String}
use safe_signal_trader_v.Prelude.{
  ℕ, ◌+◌, ◌-◌, ◌*◌, str_eq, Bool, true, false, not, ◌&&◌, ◌||◌, Option, none, some, List, [], ◌∷◌,
  ◌++◌, ltb, leb, ◌==◌, if◌then◌else◌, length, is_none,
}
use safe_signal_trader_v.Prelude.Int.{pos}
use safe_signal_trader_v.Prelude.Eq.{string_eq}
use safe_signal_trader_v.Prelude.Dict
use safe_signal_trader_v.Decimal.{Decimal}
use safe_signal_trader_v.Outcome.{
  Failure, Result, ok, err, value_error, key_error, ◌>>=◌, ◌>>◌, require,
}
use safe_signal_trader_v.Domain.Enums.{Side, EntryType}
use safe_signal_trader_v.Domain.Models.{Uuid, Timestamp, Object, TakeProfitLevel, NormalizedSignal}
use safe_signal_trader_v.Domain.Validation.{take_profit_level, leverage_bounds, normalized_signal}
use safe_signal_trader_v.Ingestion.{SignalParser}
use safe_signal_trader_v.Parsers.Text.{
  Text, chars, string_of, is_space, is_digit, is_alnum, is_amount, upper, strip, same, ends_with,
}
use safe_signal_trader_v.Parsers.Patterns.{signal_re, entry_re, sl_re, tp_re, lev_re}
use safe_signal_trader_v.Parsers.Regex.{
  Regex, Groups, Match, seq, many, alt, optional, group, one, line_end, some_of, word, search_text,
  find_all,
}

-- the number that digits stand for
unfoldable pub digits_value : ℕ → Text → ℕ
digits_value acc [] = acc
digits_value acc (c ∷ s) = digits_value (acc * 10 + (code c - b'0')) s

unfoldable pub before_dot : Text → Text
before_dot [] = []
before_dot (c ∷ s) = if code c == b'.' then [] else c ∷ before_dot s

unfoldable pub after_dot : Text → Option Text
after_dot [] = none
after_dot (c ∷ s) = if code c == b'.' then some s else after_dot s

unfoldable pub has_dot : Text → Bool
has_dot [] = false
has_dot (c ∷ s) = code c == b'.' || has_dot s

abbrev pub is_nil : Text → Bool
is_nil [] = true
is_nil (_ ∷ _) = false

unfoldable pub decimal_of_parts : Text → Option Text → Option Decimal
unfolding digits_value has_dot
decimal_of_parts whole none =
    if is_nil whole then none else some (record { coeff = pos (digits_value 0 whole); scale = 0 })
decimal_of_parts whole (some part) =
    if has_dot part || (is_nil whole && is_nil part)
    then none
    else some (record { coeff = pos (digits_value 0 (whole ++ part)); scale = length part })

-- `_to_decimal`, for a text of the class [\d.]; `none` is a text that `Decimal` refuses
unfoldable pub to_decimal : Text → Option Decimal
unfolding before_dot after_dot decimal_of_parts
to_decimal s = decimal_of_parts (before_dot s) (after_dot s)

-- `_normalize_symbol`
unfoldable pub normalize_symbol : Text → Text
normalize_symbol raw =
    let s = strip (upper raw) in
    if ends_with s (chars "USDT") || ends_with s (chars "USD") || ends_with s (chars "USDC")
    then s
    else s ++ chars "USDT"

unfoldable pub can_parse : Text → Bool
can_parse text = not (ltb (length (strip text)) 8) && not (is_none (search_text signal_re text))

-- `m.group(name)` of a group that took part
abbrev pub group_text : String → Groups → Text
group_text name g = elim (Dict.get name g) [ none ↦ [] | some s ↦ s ]

-- the first match of a pattern, read as a number
abbrev pub first_amount : Option Match → Option Decimal
first_amount none = none
first_amount (some (g, _)) = to_decimal (group_text "price" g)

-- `_SIDE_MAP[…]`
unfoldable pub side_of : Text → Result Side
side_of s =
    if same s (chars "LONG") || same s (chars "BUY")
    then ok Side.long
    else if same s (chars "SHORT") || same s (chars "SELL")
    then ok Side.short
    else err key_error

abbrev pub size_of : Option Text → Option Decimal
size_of none = none
size_of (some s) = to_decimal s

-- one round of the loop over `_TP_RE.finditer`; `none` is `continue`
unfoldable pub level_of : Groups → Option Decimal → Result (Option TakeProfitLevel)
level_of g none = ok none
level_of g (some price) = do
  level ← take_profit_level (digits_value 0 (group_text "idx" g)) price (size_of (Dict.get "pct" g))
  ok (some level)

abbrev pub prepend : Option TakeProfitLevel → List TakeProfitLevel → List TakeProfitLevel
prepend none levels = levels
prepend (some level) levels = level ∷ levels

unfoldable pub levels_of : List Groups → Result (List TakeProfitLevel)
levels_of [] = ok []
levels_of (g ∷ gs) = do
  level ← level_of g (to_decimal (group_text "price" g))
  levels ← levels_of gs
  ok (prepend level levels)

unfoldable pub insert_level : TakeProfitLevel → List TakeProfitLevel → List TakeProfitLevel
insert_level t [] = t ∷ []
insert_level t (u ∷ us) = if leb t.index u.index then t ∷ u ∷ us else u ∷ insert_level t us

-- `tps.sort(key=lambda t: t.index)`, which keeps the order of equal keys
unfoldable pub sort_levels : List TakeProfitLevel → List TakeProfitLevel
unfolding insert_level
sort_levels [] = []
sort_levels (t ∷ ts) = insert_level t (sort_levels ts)

-- `int` of digits; Python refuses more than 4300 of them
unfoldable pub int_of : Text → Result ℕ
int_of s =
    if leb (length s) 4300
    then ok (digits_value 0 s)
    else err (value_error "Exceeds the limit for integer string conversion")

unfoldable pub leverage_of : Option Match → Result (Option ℕ)
leverage_of none = ok none
leverage_of (some (g, _)) = do n ← int_of (group_text "lev" g); ok (some n)

-- `validate`; a side is one of the two by its type
unfoldable pub validate : NormalizedSignal → Result NormalizedSignal
validate signal = do
  require (str_eq signal.parser_id "generic_structured") (value_error "parser_id mismatch")
  require (not (str_eq signal.symbol "")) (value_error "symbol required")
  require (leverage_bounds signal.leverage) (value_error "leverage out of range 1..125")
  ok signal

-- `raw_hash or _compute_raw_hash(text)`
abbrev pub hash_or : String → Option String → String
hash_or computed none = computed
hash_or computed (some h) = if str_eq h "" then computed else h

-- SHA-256 is the library's; the new id and the time of the call are arguments too.
module _ (compute_raw_hash : String → String) (id : Uuid) (now : Timestamp) where
  -- `NormalizedSignal(…)` in `parse`
  abbrev pub draft :
      Groups
      → String
      → String
      → Option String
      → Option String
      → Side
      → List TakeProfitLevel
      → Option ℕ
      → NormalizedSignal
  draft g text source_id message_id raw_hash side tps leverage =
      let entry_price = first_amount (search_text entry_re (chars text)) in
      record {
        signal_id = id;
        source_id = source_id;
        parser_id = "generic_structured";
        parser_version = "1.0.0";
        symbol = string_of (normalize_symbol (group_text "symbol" g));
        side = side;
        entry_type = if is_none entry_price then EntryType.market else EntryType.limit;
        entry_price = entry_price;
        stop_loss = first_amount (search_text sl_re (chars text));
        take_profits = sort_levels tps;
        leverage = leverage;
        raw_message_id = message_id;
        raw_hash = some (hash_or (compute_raw_hash text) raw_hash);
        received_at = now;
        extra = Object.empty;
      }

  -- `parse` after the first match
  unfoldable pub parse_match :
      Groups → String → String → Option String → Option String → Result (Option NormalizedSignal)
  parse_match g text source_id message_id raw_hash = do
    side ← side_of (upper (group_text "side" g))
    tps ← levels_of (find_all tp_re (chars text))
    leverage ← leverage_of (search_text lev_re (chars text))
    signal ← normalized_signal (draft g text source_id message_id raw_hash side tps leverage)
    valid ← validate signal
    ok (some valid)

  unfoldable pub parse :
      String → String → Option String → Option String → Result (Option NormalizedSignal)
  parse text source_id message_id raw_hash =
      if not (can_parse (chars text)) then ok none else elim (search_text signal_re (chars text)) [
        | none ↦ ok none
        | some (g, _) ↦ parse_match g text source_id message_id raw_hash
      ]

  -- `generic_structured_v1`
  unfoldable pub generic_structured_v1 : SignalParser
  generic_structured_v1 = record {
    parser_id = "generic_structured";
    parser_version = "1.0.0";
    can_parse = λ text. can_parse (chars text);
    parse = parse;
    validate = validate;
  }
