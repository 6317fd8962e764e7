-- ===== src/Adapters/Mock/Idempotence.antt =====
-- A client order id is worth one order.
use safe_signal_trader_v.Prelude.{
  ℕ, String, Bool, true, false, Option, none, some, List, ◌≡◌, refl, All,
}
use safe_signal_trader_v.Prelude.Eq.{nat_eq, string_eq}
use safe_signal_trader_v.Prelude.Dict
use safe_signal_trader_v.Prelude.Dict.{Dict, get, put}
use safe_signal_trader_v.Decimal.{Decimal}
use safe_signal_trader_v.Outcome.{Result, ok, err}
use safe_signal_trader_v.Domain.Models.{Timestamp}
use safe_signal_trader_v.Adapters.Mock.State.{Order, Exchange, upper_name}
use safe_signal_trader_v.Adapters.Mock.Market.{get_mark_price}
use safe_signal_trader_v.Adapters.Mock.Orders.{
  OrderRequest, place_order, place_known, place_new, place_as, and_answer, record_order,
  or_key_error, is_market, fill_price,
}
use safe_signal_trader_v.Adapters.Mock.Steps.{Call, run}
use safe_signal_trader_v.Adapters.Mock.Books.{IsConsistent, SameBut}
use safe_signal_trader_v.Adapters.Mock.Fills.{place_order-ok}
use safe_signal_trader_v.Adapters.Mock.Consistency.{
  new_order, place_new-SameBooks, place_order-IsConsistent,
}
use safe_signal_trader_v.Adapters.Mock.Keeping.{
  Keeps, IsFree, Keeps-books, run-Keeps, place_order-Keeps_answer,
}

and_answer-answer :
    (order o : Order) (p : Exchange × Result (Unit {0})) → (and_answer order p).1 ≡ ok o → order ≡ o
and_answer-answer order o (x, ok _) e = cc
and_answer-answer order o (x, err failure) e = cc

place_new-answer :
    (now : Timestamp) (r : OrderRequest) (x : Exchange) (o : Order)
    → (place_new now r x).1 ≡ ok o
    → new_order now r x ≡ o
unfolding place_new place_as
place_new-answer now r x o e = placed (is_market r) _ e
  where
    price : Decimal
    price = fill_price r (get_mark_price (upper_name r.symbol) x)

    order : Order
    order = new_order now r x

    placed : (market : Bool) (y : Exchange) → (place_as market order r price y).1 ≡ ok o → order ≡ o
    placed true y e = and_answer-answer order o _ e
    placed false y e = cc

known_answer :
    (known : Option Order) (o o' : Order) → known ≡ some o' → or_key_error known ≡ ok o → o ≡ o'
known_answer none o o' found e = cc
known_answer (some k) o o' found e = cc

recorded_Keeps :
    (order : Order) (x : Exchange) (o : Order) (c : String)
    → order ≡ o
    → order.client_order_id ≡ c
    → Keeps c x.next_id o (record_order order x)
unfolding record_order
recorded_Keeps order x o c it named = (
  rw (← named) (Dict.get-put_self order.client_order_id x.next_id x.client_to_order),
  (order, Dict.get-put_self x.next_id order x.orders, rw it (refl, refl, refl, refl)),
)

place_order-Keeps_new :
    (now : Timestamp) (r : OrderRequest) (x : Exchange) (o : Order)
    → IsConsistent x
    → (place_order now r x).1 ≡ ok o
    → (oid : ℕ) × Keeps r.client_order_id oid o (place_order now r x).0
unfolding place_order place_known
place_order-Keeps_new now r x o v = placed (get r.client_order_id x.client_to_order) refl
  where
    placed :
        (known : Option ℕ)
        → get r.client_order_id x.client_to_order ≡ known
        → (place_known known now r x).1 ≡ ok o
        → (oid : ℕ) × Keeps r.client_order_id oid o (place_known known now r x).0
    placed none e answered =
        let order = new_order now r x in
        let it : order ≡ o = place_new-answer now r x o answered in
        (
          x.next_id,
          Keeps-books r.client_order_id x.next_id o (record_order order x) (place_new now r x).0
              (place_new-SameBooks now r x) (recorded_Keeps order x o r.client_order_id it refl),
        )
    placed (some k) e answered =
        let (o', found, same) = v.named r.client_order_id k e in
        let it : o ≡ o' = known_answer (get k x.orders) o o' found answered in
        (k, (e, (o', found, rw it (refl, refl, refl, refl))))

-- On an exchange whose dicts fit each other `place_order` answers with an order, and no other is
-- placed for its client order id: after any calls that give this id to no stop, placing an order
-- under it again changes nothing and answers with the same order (its number, symbol and terms),
-- whatever else the request says.
pub place_order_again :
    (x : Exchange) (now later : Timestamp) (r again : OrderRequest) (ds : List Call)
    → IsConsistent x
    → All (IsFree r.client_order_id) ds
    → again.client_order_id ≡ r.client_order_id
    → let y = run (place_order now r x).0 ds in
      (o : Order) × ((place_order now r x).1 ≡ ok o)
      × (o.client_order_id ≡ r.client_order_id)
      × (o' : Order) × (place_order later again y ≡ (y, ok o'))
      × SameBut o o'
place_order_again x now later r again ds v free same =
    let (o, answered, named) = place_order-ok now r x v in
    let (oid, kept) = place_order-Keeps_new now r x o v answered in
    let (o', again_answered, same_order) =
      place_order-Keeps_answer r.client_order_id oid o later again _ same
        (run-Keeps r.client_order_id oid o _ ds free (place_order-IsConsistent now r x v) kept) in
    (o, answered, named, o', again_answered, same_order)
