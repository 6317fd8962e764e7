-- ===== src/Adapters/Mock/Market.antt =====
-- Rules, prices, positions, leverage and profit.
use safe_signal_trader_v.Prelude.{
  String, str_eq, Bool, not, ◌||◌, Option, none, some, List, [], ◌∷◌, if◌then◌else◌,
}
use safe_signal_trader_v.Prelude.Int.{ℤ, pos, leb_ℤ}
use safe_signal_trader_v.Prelude.Eq.{nat_eq, string_eq}
use safe_signal_trader_v.Prelude.Dict
use safe_signal_trader_v.Prelude.Dict.{Dict, values}
use safe_signal_trader_v.Decimal.{Decimal, of_nat, of_digits, zero_dec, nonzero, add, sub, mul}
use safe_signal_trader_v.Outcome.{Result, ok, err, value_error}
use safe_signal_trader_v.Domain.Models.{Timestamp, SymbolRules}
use safe_signal_trader_v.Parsers.Text.{Text, chars, upper, same}
use safe_signal_trader_v.Adapters.Mock.State.{Position, Exchange, upper_name}

-- `s.replace("USDT", "")`
unfoldable pub without_usdt : Text → Text
without_usdt (a ∷ b ∷ c ∷ d ∷ s) =
    let rest = without_usdt s in
    let later = without_usdt (b ∷ c ∷ d ∷ s) in
    if same (a ∷ b ∷ c ∷ d ∷ []) (chars "USDT") then rest else a ∷ later
without_usdt s = s

-- what the parts of the rules depend on
abbrev pub rules_for : String → Bool → Bool → SymbolRules
rules_for symbol is_btc is_major =
    let step = if is_btc then of_digits 1 3 else of_digits 1 2 in
    record {
      symbol = symbol;
      price_precision = if is_major then 2 else 4;
      quantity_precision = if is_btc then 3 else 2;
      min_qty = step;
      min_notional = of_nat 5;
      tick_size = if is_major then of_digits 1 2 else of_digits 1 4;
      step_size = step;
    }

unfoldable pub get_symbol_rules : String → SymbolRules
get_symbol_rules symbol =
    let base = without_usdt (upper (chars symbol)) in
    let is_btc = same base (chars "BTC") in
    rules_for (upper_name symbol) is_btc (is_btc || same base (chars "ETH"))

abbrev pub or_default : Decimal → Option Decimal → Decimal
or_default d none = d
or_default d (some p) = p

unfoldable pub get_mark_price : String → Exchange → Decimal
get_mark_price symbol x = or_default x.default_mark (Dict.get (upper_name symbol) x.mark_prices)

-- What `get_ticker` answers; the time of the call is an argument.
pub record Ticker : Type 0 where
  pub symbol : String
  pub mark_price : Decimal
  pub last_price : Decimal
  pub timestamp : Timestamp

unfoldable pub get_ticker : Timestamp → String → Exchange → Ticker
unfolding get_mark_price
get_ticker now symbol x = record {
  symbol = upper_name symbol;
  mark_price = get_mark_price symbol x;
  last_price = get_mark_price symbol x;
  timestamp = now;
}

unfoldable pub get_balance : Exchange → Dict String Decimal
get_balance x = x.balance

unfoldable pub set_mark_price : String → Decimal → Exchange → Exchange
set_mark_price symbol price x = record x {
  mark_prices = Dict.put (upper_name symbol) price x.mark_prices;
}

abbrev pub to_list : Option Position → List Position
to_list none = []
to_list (some p) = p ∷ []

-- `get_positions`; a symbol that is `None` or empty asks for all
unfoldable pub get_positions : Option String → Exchange → List Position
get_positions none x = values x.positions
get_positions (some symbol) x =
    if str_eq symbol ""
    then values x.positions
    else to_list (Dict.get (upper_name symbol) x.positions)

unfoldable pub set_leverage : ℤ → Exchange → Result (Unit {0})
set_leverage leverage x =
    if not (leb_ℤ (pos 1) leverage) || not (leb_ℤ leverage (pos x.capabilities.max_leverage))
    then err (value_error "leverage out of range")
    else ok tt

-- the loop of `get_unrealized_pnl`
unfoldable pub unrealized : Exchange → Decimal → List Position → Decimal
unrealized x total [] = total
unrealized x total (p ∷ ps) =
    unrealized x
      (if nonzero p.position_amt
        then add total (mul (sub (get_mark_price p.symbol x) p.entry_price) p.position_amt)
        else total)
      ps

unfoldable pub get_unrealized_pnl : Option String → Exchange → Decimal
unfolding unrealized
get_unrealized_pnl symbol x = unrealized x zero_dec (get_positions symbol x)

-- the symbol is not read
unfoldable pub get_realized_pnl : Option String → Exchange → Decimal
get_realized_pnl symbol x = x.realized_pnl
