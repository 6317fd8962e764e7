-- ===== src/Adapters/Mock/Fills.antt =====
-- What a fill does to the positions and the profit.
pub mod Closing
pub mod Reducing
use safe_signal_trader_v.Prelude.{
  ℕ, ◌+◌, ◌*◌, String, str_eq, eq_iff, Bool, true, false, not, ◌&&◌, ◌||◌, Option, none, some, ◌≡◌,
  ◌≢◌, ◌⊎◌, inl, inr, refl, arith, Bool-cases, Option-cases,
}
use safe_signal_trader_v.Prelude.Eq.{nat_eq, string_eq}
use safe_signal_trader_v.Prelude.Dict
use safe_signal_trader_v.Prelude.Dict.{Dict, get, put, remove}
use safe_signal_trader_v.Decimal.{
  Decimal, zero_dec, below, nonzero, add, sub, mul, div, neg, abs_dec,
}
use safe_signal_trader_v.Decimal.Positive.{div-abs_dec}
use safe_signal_trader_v.Outcome.{Result, ok, err}
use safe_signal_trader_v.Domain.Enums.{OrderSide}
use safe_signal_trader_v.Domain.Models.{Timestamp}
use safe_signal_trader_v.Adapters.Mock.State.{Order, Position, Exchange, upper_name}
use safe_signal_trader_v.Adapters.Mock.Market.{get_mark_price}
use safe_signal_trader_v.Adapters.Mock.Orders.{
  OrderRequest, place_order, place_known, place_new, place_as, apply_fill, fill_position, fill_open,
  signed_qty, and_answer, record_order, or_key_error, is_market, fill_price,
}
use safe_signal_trader_v.Adapters.Mock.Books.{IsConsistent}
use safe_signal_trader_v.Adapters.Mock.Consistency.{new_order}

-- A fill never raises: the new entry price divides by a quantity that is not zero.
fill_open-ok :
    (symbol : String) (p : Position) (signed new_qty price : Decimal) (x : Exchange)
    → (fill_open symbol p signed new_qty price x).1 ≡ ok tt
unfolding fill_open
fill_open-ok symbol p signed new_qty price x = elim (Bool-cases (nonzero new_qty)) [
  | inl still ↦
      let (c, e) =
        div-abs_dec (add (mul (abs_dec p.position_amt) p.entry_price) (mul (abs_dec signed) price))
          new_qty still in
      rw still (ground (arith, e))
  | inr closed ↦ rw closed refl
]

fill_position-ok :
    (symbol : String) (p : Option Position) (signed price : Decimal) (reduce_only : Bool)
    (x : Exchange)
    → (fill_position symbol p signed price reduce_only x).1 ≡ ok tt
fill_position-ok symbol none signed price true x = refl
fill_position-ok symbol none signed price false x = refl
fill_position-ok symbol (some p) signed price reduce_only x =
    fill_open-ok symbol p signed (add p.position_amt signed) price x

and_answer-ok :
    (order : Order) (p : Exchange × Result (Unit {0}))
    → p.1 ≡ ok tt
    → (and_answer order p).1 ≡ ok order
and_answer-ok order (x, ok _) e = refl
and_answer-ok order (x, err failure) e = cc

-- On an exchange whose dicts fit each other `place_order` never raises: it answers with an order.
pub place_order-ok :
    (now : Timestamp) (r : OrderRequest) (x : Exchange)
    → IsConsistent x
    → (o : Order) × ((place_order now r x).1 ≡ ok o) × (o.client_order_id ≡ r.client_order_id)
unfolding place_order place_known place_new place_as apply_fill
place_order-ok now r x v = placed (get r.client_order_id x.client_to_order) refl
  where
    symbol : String
    symbol = upper_name r.symbol

    price : Decimal
    price = fill_price r (get_mark_price symbol x)

    order : Order
    order = new_order now r x

    filled_ok : (market : Bool) (y : Exchange) → (place_as market order r price y).1 ≡ ok order
    filled_ok true y = and_answer-ok order _ (
        fill_position-ok symbol (get symbol y.positions) (signed_qty r.side r.quantity) price
          r.reduce_only y)
    filled_ok false y = refl

    placed :
        (known : Option ℕ)
        → get r.client_order_id x.client_to_order ≡ known
        → (o : Order) × ((place_known known now r x).1 ≡ ok o)
          × (o.client_order_id ≡ r.client_order_id)
    placed none e = (order, filled_ok (is_market r) (record_order order x), refl)
    placed (some oid) e =
        let (o, found, (_, named)) = v.named r.client_order_id oid e in (o, rw found refl, named)
