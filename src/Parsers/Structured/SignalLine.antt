-- ===== src/Parsers/Structured/SignalLine.antt =====
-- A message of one line, such as "SIGNAL LONG BTCUSDT": its match.
pub mod Parsing
use Prim.Native.Char.{Char, code}
use Prim.Native.String.{String}
use safe_signal_trader_v.Prelude.{
  ℕ, suc, eq_iff, ◌-◌, ◌+◌, ◌≤◌, Bool, true, false, not, ◌&&◌, ◌||◌, Option, none, some, List, [],
  ◌∷◌, ◌++◌, ◌≡◌, ◌≢◌, refl, sym, ap, ◌∙◌, arith, All, All-append, any, ltb, length, if◌then◌else◌,
  Bool-cases, inl, inr,
}
use safe_signal_trader_v.Prelude.Eq.{string_eq}
use safe_signal_trader_v.Prelude.Dict
use safe_signal_trader_v.Outcome.{Result, ok, ◌>>=◌, bind_ok}
use safe_signal_trader_v.Domain.Enums.{Side, EntryType}
use safe_signal_trader_v.Domain.Models.{Uuid, Timestamp, Object, NormalizedSignal}
use safe_signal_trader_v.Parsers.Text.{
  Text, chars, string_of, is_space, is_newline, is_digit, is_alnum, upper, upper_char, strip,
  ends_with, same, drop_spaces, drop_trailing_spaces, is_blank,
}
use safe_signal_trader_v.Parsers.Regex.{
  Regex, Groups, Match, seq, many, group, line_end, some_of, run, run_many, taken, at_line_end,
  finish, match_at, search_from, search_text, find_all, find_from,
}
use safe_signal_trader_v.Parsers.Regex.Greedy.{
  Each, IsOneLine, run_many-all, run_many-none, search_text-line, search_text-start,
}
use safe_signal_trader_v.Parsers.Patterns.{
  after_word, side_word, signal_re, entry_re, sl_re, tp_re, lev_re,
}
use safe_signal_trader_v.Parsers.Structured.{
  parse, parse_match, can_parse, normalize_symbol, validate, side_of, levels_of, sort_levels,
  leverage_of, hash_or, draft,
}
use safe_signal_trader_v.Domain.Validation.{normalized_signal, leverage_bounds, tp_indices_unique}

-- The four words for a side.
pub data Keyword : Type 0 where
  long_word short_word buy_word sell_word : Keyword

unfoldable pub spelling : Keyword → Text
unfolding chars
spelling long_word = chars "LONG"
spelling short_word = chars "SHORT"
spelling buy_word = chars "BUY"
spelling sell_word = chars "SELL"

unfoldable pub meaning : Keyword → Side
meaning long_word = Side.long
meaning short_word = Side.short
meaning buy_word = Side.long
meaning sell_word = Side.short

unfoldable pub signal_line : Keyword → Text → Text
unfolding chars spelling
signal_line k symbol = chars "SIGNAL " ++ (spelling k ++ (chars " " ++ symbol))

alnum_no_space : (c : Char) → is_alnum c ≡ true → is_space c ≡ false
unfolding is_alnum is_space
alnum_no_space c h = ground arith

alnum_no_newline : (c : Char) → is_alnum c ≡ true → is_newline c ≡ false
unfolding is_alnum is_newline
alnum_no_newline c h = ground arith

taken_all : (s : Text) → taken (length s) s ≡ s
unfolding taken
taken_all [] = refl
taken_all (c ∷ s) = ap (λ (u : Text). c ∷ u) (taken_all s)

-- the groups of the match
abbrev groups_of : Keyword → Text → Groups
groups_of k symbol = ("side", spelling k) ∷ ("symbol", symbol) ∷ []

-- `signal_re` with any pattern for the symbol and for the end of the line
abbrev signal_with : Regex → Regex → Regex
signal_with tail end =
    seq (many is_space) (seq (after_word (chars "SIGNAL") (seq (group "side" side_word) tail)) end)

abbrev symbol_re : Regex
symbol_re = seq (some_of is_space) (group "symbol" (some_of is_alnum))

abbrev end_re : Regex
end_re = seq (many is_space) line_end

four : (n : ℕ) → suc (suc (suc (suc (suc n)))) - suc n ≡ 4
four n = omega arith

five : (n : ℕ) → suc (suc (suc (suc (suc (suc n))))) - suc n ≡ 5
five n = omega arith

three : (n : ℕ) → suc (suc (suc (suc n))) - suc n ≡ 3
three n = omega arith

head-match :
    (k : Keyword) (tail end : Regex) (u : Text) (m : Match)
    → run tail (run end finish) (chars " " ++ u) (("side", spelling k) ∷ []) ≡ some m
    → match_at (signal_with tail end) true (signal_line k u) ≡ some m
unfolding match_at run run_many taken signal_line is_space upper_char Dict.put
head-match long_word tail end u m e = rw (four (length u), e) refl
head-match short_word tail end u m e = rw (five (length u), e) refl
head-match buy_word tail end u m e = rw (three (length u), e) refl
head-match sell_word tail end u m e = rw (four (length u), e) refl

minus_zero : (n : ℕ) → n - 0 ≡ n
minus_zero n = omega arith

end-match :
    (c : Char) (symbol : Text) (side : Text)
    → run end_re finish [] (
        Dict.put "symbol"
          (taken (length (c ∷ symbol) - length {A = Char} []) (c ∷ symbol))
          (("side", side) ∷ []))
      ≡ some (("side", side) ∷ ("symbol", c ∷ symbol) ∷ [], [])
unfolding run run_many at_line_end Dict.put
end-match c symbol side = rw (minus_zero (suc (length symbol)), taken_all (c ∷ symbol)) refl

tail-match :
    (c : Char) (symbol : Text) (side : Text)
    → Each is_alnum (c ∷ symbol)
    → run symbol_re (run end_re finish) (chars " " ++ c ∷ symbol) (("side", side) ∷ [])
      ≡ some (("side", side) ∷ ("symbol", c ∷ symbol) ∷ [], [])
unfolding run is_space chars
tail-match c symbol side fit =
    run_many-none is_space _ _ c symbol (alnum_no_space c fit.0)
    ∙ rw fit.0 (run_many-all is_alnum _ _ symbol _ fit.1 (end-match c symbol side))

signal_line-match :
    (k : Keyword) (c : Char) (symbol : Text)
    → Each is_alnum (c ∷ symbol)
    → match_at signal_re true (signal_line k (c ∷ symbol)) ≡ some (groups_of k (c ∷ symbol), [])
signal_line-match k c symbol fit =
    head-match k symbol_re end_re (c ∷ symbol) _ (tail-match c symbol (spelling k) fit)
