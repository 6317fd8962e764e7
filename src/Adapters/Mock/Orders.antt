-- ===== src/Adapters/Mock/Orders.antt =====
-- `place_order`, `_apply_fill`, `cancel_order` and `get_order`.
use safe_signal_trader_v.Prelude.{
  ℕ, ◌+◌, String, str_eq, Bool, true, false, not, ◌&&◌, ◌||◌, Option, none, some, if◌then◌else◌,
}
use safe_signal_trader_v.Prelude.Eq.{nat_eq, string_eq}
use safe_signal_trader_v.Prelude.Dict
use safe_signal_trader_v.Prelude.Dict.{Dict, values}
use safe_signal_trader_v.Decimal.{
  Decimal, zero_dec, below, nonzero, add, sub, mul, div, neg, abs_dec,
}
use safe_signal_trader_v.Outcome.{Result, ok, err, division_failure, key_error}
use safe_signal_trader_v.Domain.Enums.{OrderSide}
use safe_signal_trader_v.Domain.Models.{Timestamp}
use safe_signal_trader_v.Adapters.Mock.State.{
  fresh, filled, canceled, plain, Order, Position, Exchange, upper_name,
}
use safe_signal_trader_v.Adapters.Mock.Market.{get_mark_price}

-- `_apply_fill` on an open position, with the new quantity
unfoldable pub fill_open :
    String → Position → Decimal → Decimal → Decimal → Exchange → Exchange × Result (Unit {0})
fill_open symbol p signed new_qty price x =
    let current = p.position_amt in
    if not (nonzero new_qty)
    then (
      record x {
        realized_pnl = add x.realized_pnl (mul (sub price p.entry_price) current);
        positions = Dict.remove symbol x.positions;
      },
      ok tt,
    )
    else if (below zero_dec current && below zero_dec signed)
        || (below current zero_dec && below signed zero_dec)
    then elim (div (add (mul (abs_dec current) p.entry_price) (mul (abs_dec signed) price))
        (abs_dec new_qty)) [
          | none ↦ (
            x,
            err (
                division_failure
                  (add (mul (abs_dec current) p.entry_price) (mul (abs_dec signed) price))
                  (abs_dec new_qty)),
          )
          | some new_entry ↦ (
            record x {
              positions =
                  Dict.put symbol (record p { entry_price = new_entry; position_amt = new_qty })
                    x.positions;
            },
            ok tt,
          )
        ]
    else (
      record x { positions = Dict.put symbol (record p { position_amt = new_qty }) x.positions },
      ok tt,
    )

abbrev pub signed_qty : OrderSide → Decimal → Decimal
signed_qty OrderSide.buy quantity = quantity
signed_qty OrderSide.sell quantity = neg quantity

abbrev pub fill_position :
    String → Option Position → Decimal → Decimal → Bool → Exchange → Exchange × Result (Unit {0})
fill_position symbol none signed price reduce_only x = if reduce_only then (x, ok tt) else (
  record x {
    positions =
        Dict.put symbol
          (record {
            symbol = symbol;
            position_amt = signed;
            entry_price = price;
            unrealized_profit = zero_dec;
            leverage = 10;
          })
          x.positions;
  },
  ok tt,
)
fill_position symbol (some p) signed price reduce_only x =
    fill_open symbol p signed (add p.position_amt signed) price x

-- `_apply_fill`
unfoldable pub apply_fill :
    String → OrderSide → Decimal → Decimal → Bool → Exchange → Exchange × Result (Unit {0})
apply_fill symbol side quantity price reduce_only x =
    fill_position symbol (Dict.get symbol x.positions) (signed_qty side quantity) price reduce_only
      x

-- The arguments of `place_order`; `extra` is not read.
pub record OrderRequest : Type 0 where
  pub symbol : String
  pub side : OrderSide
  pub order_type : String
  pub quantity : Decimal
  pub price : Option Decimal
  pub client_order_id : String
  pub reduce_only : Bool

abbrev pub is_market : OrderRequest → Bool
is_market r = str_eq (upper_name r.order_type) "MARKET"

-- `price if order_type.upper() == "LIMIT" and price is not None else mark`
abbrev pub fill_price : OrderRequest → Decimal → Decimal
fill_price r mark = elim r.price [
  | none ↦ mark
  | some p ↦ if str_eq (upper_name r.order_type) "LIMIT" then p else mark
]

abbrev pub order_of : ℕ → Timestamp → OrderRequest → Decimal → Order
order_of order_id now r mark = record {
  order_id = order_id;
  client_order_id = r.client_order_id;
  symbol = upper_name r.symbol;
  side = r.side;
  type_name = upper_name r.order_type;
  orig_qty = r.quantity;
  terms =
      if is_market r
      then plain (fill_price r mark) (fill_price r mark) r.quantity
      else plain (fill_price r mark) zero_dec zero_dec;
  status = if is_market r then filled else fresh;
  reduce_only = r.reduce_only;
  update_time = now;
}

-- `_orders[…] = order` and `_client_to_order[…] = order_id`, for the next number
unfoldable pub record_order : Order → Exchange → Exchange
record_order order x = record x {
  orders = Dict.put x.next_id order x.orders;
  client_to_order = Dict.put order.client_order_id x.next_id x.client_to_order;
  next_id = x.next_id + 1;
}

abbrev pub and_answer {ℓ} : {A : Type ℓ} → A → Exchange × Result (Unit {0}) → Exchange × Result A
and_answer a (x, ok _) = (x, ok a)
and_answer a (x, err e) = (x, err e)

-- the end of `place_order`; `market` is `status == "FILLED"`
unfoldable pub place_as : Bool → Order → OrderRequest → Decimal → Exchange → Exchange × Result Order
place_as true order r price x =
    and_answer order (apply_fill (upper_name r.symbol) r.side r.quantity price r.reduce_only x)
place_as false order r price x = (x, ok order)

unfoldable pub place_new : Timestamp → OrderRequest → Exchange → Exchange × Result Order
place_new now r x =
    let mark = get_mark_price (upper_name r.symbol) x in
    let order = order_of x.next_id now r mark in
    place_as (is_market r) order r (fill_price r mark) (record_order order x)

abbrev pub or_key_error : Option Order → Result Order
or_key_error none = err key_error
or_key_error (some o) = ok o

-- `if client_order_id in self._client_to_order`
unfoldable pub place_known :
    Option ℕ → Timestamp → OrderRequest → Exchange → Exchange × Result Order
place_known none now r x = place_new now r x
place_known (some oid) now r x = (x, or_key_error (Dict.get oid x.orders))

unfoldable pub place_order : Timestamp → OrderRequest → Exchange → Exchange × Result Order
place_order now r x = place_known (Dict.get r.client_order_id x.client_to_order) now r x

-- `order_id or (self._client_to_order.get(client_order_id or "") if client_order_id else None)`
unfoldable pub find_id : Option ℕ → Option String → Exchange → Option ℕ
find_id (some oid) client x = some oid
find_id none none x = none
find_id none (some client) x = if str_eq client "" then none else Dict.get client x.client_to_order

abbrev pub find_order : Option ℕ → Exchange → Option Order
find_order none x = none
find_order (some oid) x = Dict.get oid x.orders

-- an order is written to where it lies
unfoldable pub write_order : ℕ → Order → Exchange → Exchange
write_order oid order x = record x { orders = Dict.put oid order x.orders }

unfoldable pub cancel_found : Timestamp → ℕ → Option Order → Exchange → Exchange × Result Order
cancel_found now oid none x = (x, err key_error)
cancel_found now oid (some order) x =
    let done = record order { status = canceled; update_time = now } in
    (write_order oid done x, ok done)

unfoldable pub cancel_id : Timestamp → Option ℕ → Exchange → Exchange × Result Order
cancel_id now none x = (x, err key_error)
cancel_id now (some oid) x = cancel_found now oid (Dict.get oid x.orders) x

unfoldable pub cancel_order :
    Timestamp → Option ℕ → Option String → Exchange → Exchange × Result Order
cancel_order now order_id client x = cancel_id now (find_id order_id client x) x

unfoldable pub get_order : Option ℕ → Option String → Exchange → Option Order
get_order order_id client x = find_order (find_id order_id client x) x
