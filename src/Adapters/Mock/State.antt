-- ===== src/Adapters/Mock/State.antt =====
-- The fields of `MockBinanceAdapter`, and of the dicts that it keeps.
use safe_signal_trader_v.Prelude.{ℕ, String, Bool, true, false, [], ◌∷◌, if◌then◌else◌}
use safe_signal_trader_v.Prelude.Eq.{nat_eq, string_eq}
use safe_signal_trader_v.Prelude.Dict.{Dict}
use safe_signal_trader_v.Decimal.{Decimal, zero_dec}
use safe_signal_trader_v.Outcome.{Result, ok, err, runtime_error}
use safe_signal_trader_v.Domain.Enums.{OrderSide}
use safe_signal_trader_v.Domain.Models.{Timestamp}
use safe_signal_trader_v.Parsers.Text.{chars, string_of, upper}
use safe_signal_trader_v.Adapters.Capabilities.{BinanceCapabilities, binance_capabilities}

pub data OrderState : Type 0 where
  fresh filled canceled : OrderState

-- What the dict of an order has beside the common keys: `price`, `avgPrice` and `executedQty`, or
-- `stopPrice`.
pub data Terms : Type 0 where
  plain : Decimal → Decimal → Decimal → Terms
  stop : Decimal → Terms

pub record Order : Type 0 where
  pub order_id : ℕ
  pub client_order_id : String
  pub symbol : String
  pub side : OrderSide
  pub type_name : String
  pub orig_qty : Decimal
  pub terms : Terms
  pub status : OrderState
  pub reduce_only : Bool
  pub update_time : Timestamp

pub record Position : Type 0 where
  pub symbol : String
  pub position_amt : Decimal
  pub entry_price : Decimal
  pub unrealized_profit : Decimal
  pub leverage : ℕ

-- The fields of `MockBinanceAdapter`; `next_id` is what `_order_id_seq` gives next.
pub record Exchange : Type 0 where
  pub exchange_id : String
  pub capabilities : BinanceCapabilities
  pub balance : Dict String Decimal
  pub mark_prices : Dict String Decimal
  pub default_mark : Decimal
  pub positions : Dict String Position
  pub orders : Dict ℕ Order
  pub next_id : ℕ
  pub client_to_order : Dict String ℕ
  pub protections : Dict String ℕ
  pub connected : Bool
  pub realized_pnl : Decimal

-- `__init__`
unfoldable pub new_exchange : Decimal → Decimal → String → Exchange
new_exchange initial_balance default_mark exchange_id = record {
  exchange_id = exchange_id;
  capabilities = binance_capabilities;
  balance = ("USDT", initial_balance) ∷ [];
  mark_prices = [];
  default_mark = default_mark;
  positions = [];
  orders = [];
  next_id = 1;
  client_to_order = [];
  protections = [];
  connected = false;
  realized_pnl = zero_dec;
}

-- `symbol.upper()`
unfoldable pub upper_name : String → String
upper_name s = string_of (upper (chars s))

unfoldable pub connect : Exchange → Exchange
connect x = record x { connected = true }

unfoldable pub disconnect : Exchange → Exchange
disconnect x = record x { connected = false }

unfoldable pub subscribe_orders : Exchange → Result (Unit {0})
subscribe_orders x = if x.connected then ok tt else err (runtime_error "not connected")
