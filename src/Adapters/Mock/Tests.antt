-- ===== src/Adapters/Mock/Tests.antt =====
-- A market order, a stop for it, and its close.
use safe_signal_trader_v.Prelude.{
  String, str_eq, eq_iff, true, false, none, some, List, [], ◌∷◌, ◌≡◌, ◌≢◌, refl, arith,
}
use safe_signal_trader_v.Prelude.Int.{negsuc}
use safe_signal_trader_v.Prelude.Eq.{nat_eq, string_eq}
use safe_signal_trader_v.Prelude.Dict.{get, put}
use safe_signal_trader_v.Decimal.{
  of_nat, add, mul, sub, neg, rounded, round_mag, digits, digits_from, half_even, cross,
}
use safe_signal_trader_v.Outcome.{ok}
use safe_signal_trader_v.Domain.Enums.{OrderSide}
use safe_signal_trader_v.Parsers.Text.{upper, string_of, chars}
use safe_signal_trader_v.Adapters.Mock.State.{Order, Exchange, new_exchange, upper_name}
use safe_signal_trader_v.Adapters.Mock.Market.{get_mark_price, set_mark_price}
use safe_signal_trader_v.Adapters.Mock.Orders.{
  OrderRequest, place_order, place_known, place_new, place_as, record_order, apply_fill, fill_open,
  signed_qty,
}
use safe_signal_trader_v.Adapters.Mock.Stops.{StopRequest}
use safe_signal_trader_v.Adapters.Mock.Steps.{
  Call, place_call, cancel_call, stop_call, replace_call, unprotect_call, mark_call, run,
}
use safe_signal_trader_v.Adapters.Mock.Books.{IsConsistent, SameBut, new_exchange-IsConsistent}
use safe_signal_trader_v.Adapters.Mock.Consistency.{run-IsConsistent}
use safe_signal_trader_v.Adapters.Mock.Idempotence.{place_order_again}
use safe_signal_trader_v.Adapters.Mock.Fills.Closing.{open_close}

abbrev demo : Exchange
demo = new_exchange (of_nat 10000) (of_nat 50000) "binance_futures_mock"

abbrev demo-IsConsistent : IsConsistent demo
demo-IsConsistent = new_exchange-IsConsistent (of_nat 10000) (of_nat 50000) "binance_futures_mock"

abbrev buy : OrderRequest
buy = record {
  symbol = "btcusdt";
  side = OrderSide.buy;
  order_type = "MARKET";
  quantity = of_nat 2;
  price = none;
  client_order_id = "entry-1";
  reduce_only = false;
}

abbrev close : OrderRequest
close = record buy {
  symbol = "BTCUSDT";
  side = OrderSide.sell;
  client_order_id = "exit-1";
  reduce_only = true;
}

abbrev protect : StopRequest
protect = record {
  symbol = "BTCUSDT";
  side = OrderSide.sell;
  stop_price = of_nat 49000;
  quantity = of_nat 2;
  client_order_id = "stop-1";
  reduce_only = true;
}

abbrev day : List Call
day =
    mark_call "BTCUSDT" (of_nat 51000)
    ∷ stop_call 1 protect
    ∷ cancel_call 2 none (some "entry-1")
    ∷ replace_call 3 "BTCUSDT" 2 (of_nat 50000) (of_nat 2) "stop-2"
    ∷ place_call 4 close
    ∷ unprotect_call 5 "BTCUSDT" none (some "stop-2")
    ∷ []

run-IsConsistent_example : IsConsistent (run demo (place_call 0 buy ∷ day))
run-IsConsistent_example = run-IsConsistent demo (place_call 0 buy ∷ day) demo-IsConsistent

differ : (a b : String) → str_eq a b ≡ false → a ≢ b
differ a b e same = cc (e, (eq_iff a b).1 same)

place_order_again_example :
    let y = run (place_order 0 buy demo).0 day in
    (o : Order) × ((place_order 0 buy demo).1 ≡ ok o)
    × (o.client_order_id ≡ "entry-1")
    × (o' : Order) × (place_order 9 buy y ≡ (y, ok o'))
    × SameBut o o'
place_order_again_example =
    place_order_again demo 0 9 buy buy day demo-IsConsistent
      (tt, (differ "stop-1" "entry-1" refl, (tt, (differ "stop-2" "entry-1" refl, (tt, (tt, tt))))))
      refl

open_close_example :
    let y = set_mark_price "BTCUSDT" (of_nat 51000) (place_order 0 buy demo).0 in
    let z = (place_order 8 close y).0 in
    (z.positions ≡ demo.positions)
    × (z.realized_pnl
        ≡ add demo.realized_pnl (
            mul
              (sub
                (get_mark_price (upper_name "btcusdt") y)
                (get_mark_price (upper_name "btcusdt") demo))
              (signed_qty OrderSide.buy (of_nat 2))))
unfolding new_exchange get upper_name string_of upper chars
open_close_example =
    open_close demo 0 8 buy close "BTCUSDT" (of_nat 51000) (omega arith) refl refl refl refl refl
      refl refl refl (differ "entry-1" "exit-1" refl) refl

-- a sale of five on a position of two leaves one of minus three, at the old entry price and with no profit
abbrev turned : Exchange
turned =
    let x = set_mark_price "BTCUSDT" (of_nat 51000) (place_order 0 buy demo).0 in
    (place_order 1 (record close { quantity = of_nat 5 }) x).0

turned_position :
    (turned.realized_pnl ≡ of_nat 0)
    × (get "BTCUSDT" turned.positions
        ≡ some (record {
          symbol = "BTCUSDT";
          position_amt = record { coeff = negsuc 2; scale = 0 };
          entry_price = of_nat 50000;
          unrealized_profit = of_nat 0;
          leverage = 10;
        }))
unfolding new_exchange place_order place_known place_new place_as apply_fill fill_open record_order
    get_mark_price set_mark_price get put upper_name string_of upper chars add neg rounded round_mag
    digits digits_from half_even cross
turned_position = (refl, refl)
