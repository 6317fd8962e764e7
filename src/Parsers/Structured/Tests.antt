-- ===== src/Parsers/Structured/Tests.antt =====
-- Example messages, as in api/demo.py.
use Prim.Native.String.{String}
use safe_signal_trader_v.Prelude.{◌≡◌, refl, [], ◌∷◌, Option, none, some}
use safe_signal_trader_v.Prelude.Dict.{get, put}
use safe_signal_trader_v.Decimal.{of_nat, cross}
use safe_signal_trader_v.Outcome.{Result, ok, err, validation_error}
use safe_signal_trader_v.Domain.Enums.{Side, EntryType}
use safe_signal_trader_v.Domain.Models.{Object, NormalizedSignal}
use safe_signal_trader_v.Domain.Validation.{take_profit_level, normalized_signal}
use safe_signal_trader_v.Parsers.Text.{
  chars, string_of, upper, strip, ends_with, same, is_space, is_newline, is_alnum, is_amount,
}
use safe_signal_trader_v.Parsers.Regex.{
  run, run_many, taken, at_line_end, match_at, search_text, find_all,
}
use safe_signal_trader_v.Parsers.Patterns.{is_index, is_percent}
use safe_signal_trader_v.Parsers.Structured.{
  parse, parse_match, can_parse, to_decimal, normalize_symbol, side_of, level_of, levels_of,
  sort_levels, leverage_of, int_of, digits_value, validate,
}
use safe_signal_trader_v.Parsers.Structured.Shape.{WellFormed, parse-WellFormed}
use safe_signal_trader_v.Parsers.Structured.SignalLine.{sell_word, signal_line, meaning}
use safe_signal_trader_v.Parsers.Structured.SignalLine.Parsing.{market_signal, parse-signal_line}

abbrev hash : String → String
hash text = "hash"

abbrev run_on : String → Result (Option NormalizedSignal)
run_on text = parse hash 1 2 text "src" none none

-- the same, with all that a run computes through
evaluated : String → Result (Option NormalizedSignal)
unfolding parse can_parse parse_match search_text find_all match_at run run_many taken at_line_end
    chars string_of upper strip ends_with same is_space is_newline is_alnum is_amount is_index
    is_percent to_decimal normalize_symbol side_of level_of levels_of sort_levels leverage_of int_of
    digits_value validate take_profit_level normalized_signal cross get put meaning
evaluated text = run_on text

abbrev short_eth : String
short_eth = "SIGNAL SHORT ETH\nSL 3500\nTP2 3000 50%\nTP1 3200 50%\nLEV 5"

abbrev eth_signal : NormalizedSignal
eth_signal = record {
  signal_id = 1;
  source_id = "src";
  parser_id = "generic_structured";
  parser_version = "1.0.0";
  symbol = "ETHUSDT";
  side = Side.short;
  entry_type = EntryType.market;
  entry_price = none;
  stop_loss = some (of_nat 3500);
  take_profits =
      (record { index = 1; price = of_nat 3200; size_pct = some (of_nat 50) })
      ∷ (record { index = 2; price = of_nat 3000; size_pct = some (of_nat 50) })
      ∷ [];
  leverage = some 5;
  raw_message_id = none;
  raw_hash = some "hash";
  received_at = 2;
  extra = Object.empty;
}

parse-short_eth : run_on short_eth ≡ ok (some eth_signal)
unfolding evaluated
parse-short_eth = refl

parse-no_signal : run_on "hello world this is not a signal" ≡ ok none
unfolding evaluated
parse-no_signal = refl

-- a leverage of 300, and two take profits with one index
parse-leverage_300 : run_on "signal buy solusdt\nLEV 300" ≡ err validation_error
unfolding evaluated
parse-leverage_300 = refl

-- a price with two dots is passed over: the limit order has become a market order
parse-two_dots :
    run_on "signal sell sol\nentry 1.2.3"
    ≡ ok (
        some (
          market_signal hash 1 2 sell_word
            (chars "sol")
            "signal sell sol\nentry 1.2.3"
            "src"
            none
            none))
unfolding evaluated
parse-two_dots = refl

-- white space between two words may be a new line: a number on a line of its own is the size of the take
-- profit above it
parse-across_lines :
    run_on "signal sell sol\nTP1 20\n50"
    ≡ ok (
        some
          (record (market_signal hash 1 2 sell_word
            (chars "sol")
            "signal sell sol\nTP1 20\n50"
            "src"
            none
            none) {
              take_profits =
                  (record { index = 1; price = of_nat 20; size_pct = some (of_nat 50) }) ∷ [];
            }))
unfolding evaluated
parse-across_lines = refl

parse-WellFormed_example : WellFormed short_eth "src" none eth_signal
parse-WellFormed_example =
    parse-WellFormed hash 1 2 short_eth "src" none none eth_signal parse-short_eth

parse-signal_line_example :
    run_on "SIGNAL SELL s0l"
    ≡ ok (some (market_signal hash 1 2 sell_word (chars "s0l") "SIGNAL SELL s0l" "src" none none))
unfolding chars is_alnum signal_line
parse-signal_line_example =
    parse-signal_line hash 1 2 sell_word "s" ("0" ∷ "l" ∷ []) "SIGNAL SELL s0l" "src" none none
      (refl, (refl, (refl, tt))) refl
