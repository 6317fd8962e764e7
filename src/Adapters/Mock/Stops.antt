-- ===== src/Adapters/Mock/Stops.antt =====
-- `place_stop`, `replace_stop` and `cancel_protection`.
use safe_signal_trader_v.Prelude.{
  ℕ, String, str_eq, Bool, true, false, not, ◌||◌, Option, none, some, is_none,
}
use safe_signal_trader_v.Prelude.Eq.{nat_eq, string_eq}
use safe_signal_trader_v.Prelude.Dict
use safe_signal_trader_v.Prelude.Dict.{Dict, values}
use safe_signal_trader_v.Decimal.{Decimal}
use safe_signal_trader_v.Outcome.{Result, ok, err}
use safe_signal_trader_v.Domain.Enums.{OrderSide}
use safe_signal_trader_v.Domain.Models.{Timestamp}
use safe_signal_trader_v.Adapters.Mock.State.{fresh, canceled, stop, Order, Exchange, upper_name}
use safe_signal_trader_v.Adapters.Mock.Orders.{record_order, write_order, cancel_order}

-- The arguments of `place_stop`.
pub record StopRequest : Type 0 where
  pub symbol : String
  pub side : OrderSide
  pub stop_price : Decimal
  pub quantity : Decimal
  pub client_order_id : String
  pub reduce_only : Bool

abbrev pub stop_of : ℕ → Timestamp → StopRequest → Order
stop_of order_id now r = record {
  order_id = order_id;
  client_order_id = r.client_order_id;
  symbol = upper_name r.symbol;
  side = r.side;
  type_name = "STOP_MARKET";
  orig_qty = r.quantity;
  terms = stop r.stop_price;
  status = fresh;
  reduce_only = r.reduce_only;
  update_time = now;
}

unfoldable pub place_stop : Timestamp → StopRequest → Exchange → Exchange × Order
place_stop now r x =
    let order = stop_of x.next_id now r in
    (
      record (record_order order x) {
        protections = Dict.put (upper_name r.symbol) x.next_id x.protections;
      },
      order,
    )

-- the old stop, cancelled where it is known
abbrev pub cancel_old : ℕ → Option Order → Exchange → Exchange
cancel_old oid none x = x
cancel_old oid (some old) x = write_order oid (record old { status = canceled }) x

abbrev pub side_or_sell : Option Order → OrderSide
side_or_sell none = OrderSide.sell
side_or_sell (some old) = old.side

unfoldable pub replace_stop :
    Timestamp → String → ℕ → Decimal → Decimal → String → Exchange → Exchange × Order
replace_stop now symbol oid new_stop_price quantity client x =
    let old = Dict.get oid x.orders in
    place_stop now
      (record {
        symbol = symbol;
        side = side_or_sell old;
        stop_price = new_stop_price;
        quantity = quantity;
        client_order_id = client;
        reduce_only = true;
      })
      (cancel_old oid old x)

abbrev pub is_named : Option String → Bool
is_named none = false
is_named (some c) = not (str_eq c "")

abbrev pub only_done : Exchange × Result Order → Exchange × Result (Unit {0})
only_done (x, ok _) = (x, ok tt)
only_done (x, err e) = (x, err e)

-- `if order_id or client_order_id: await self.cancel_order(…)`
unfoldable pub cancel_named :
    Bool → Timestamp → Option ℕ → Option String → Exchange → Exchange × Result (Unit {0})
cancel_named true now order_id client x = only_done (cancel_order now order_id client x)
cancel_named false now order_id client x = (x, ok tt)

unfoldable pub cancel_protection :
    Timestamp → String → Option ℕ → Option String → Exchange → Exchange × Result (Unit {0})
cancel_protection now symbol order_id client x =
    cancel_named (not (is_none order_id) || is_named client) now order_id client
      (record x { protections = Dict.remove (upper_name symbol) x.protections })
