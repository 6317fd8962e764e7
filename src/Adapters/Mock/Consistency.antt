-- ===== src/Adapters/Mock/Consistency.antt =====
-- The calls keep the dicts of an exchange fitting each other.
use safe_signal_trader_v.Prelude.{
  ℕ, String, Bool, true, false, not, ◌||◌, Option, none, some, List, [], ◌∷◌, ◌≡◌, refl, arith,
  is_none,
}
use safe_signal_trader_v.Prelude.Eq.{nat_eq, string_eq}
use safe_signal_trader_v.Prelude.Dict
use safe_signal_trader_v.Prelude.Dict.{Dict, get, put, remove, get-put}
use safe_signal_trader_v.Decimal.{Decimal}
use safe_signal_trader_v.Outcome.{Result, ok, err}
use safe_signal_trader_v.Domain.Enums.{OrderSide}
use safe_signal_trader_v.Domain.Models.{Timestamp}
use safe_signal_trader_v.Adapters.Mock.State.{Order, Exchange, upper_name, connect, disconnect}
use safe_signal_trader_v.Adapters.Mock.Market.{set_mark_price, get_mark_price}
use safe_signal_trader_v.Adapters.Mock.Orders.{
  OrderRequest, place_order, place_new, record_order, apply_fill, fill_open, cancel_order,
  cancel_found, find_id, place_as, place_known, cancel_id, order_of, and_answer, is_market,
  fill_price,
}
use safe_signal_trader_v.Adapters.Mock.Stops.{
  StopRequest, place_stop, replace_stop, cancel_protection, stop_of, only_done, cancel_named,
  is_named,
}
use safe_signal_trader_v.Adapters.Mock.Steps.{
  Call, place_call, cancel_call, stop_call, replace_call, unprotect_call, mark_call, connect_call,
  disconnect_call, step, run,
}
use safe_signal_trader_v.Adapters.Mock.Books.{
  Protects, All-put, All-remove, record_order-IsConsistent, write_order-IsConsistent,
  cancel_old-IsConsistent, IsConsistent,
}

-- A fill leaves the books of orders alone.
abbrev pub SameBooks : Exchange → Exchange → Type 0
SameBooks x y =
    (y.orders ≡ x.orders)
    × (y.client_to_order ≡ x.client_to_order)
    × (y.protections ≡ x.protections)
    × (y.next_id ≡ x.next_id)

pub apply_fill-SameBooks :
    (symbol : String) (side : OrderSide) (quantity price : Decimal) (reduce_only : Bool)
    (x : Exchange)
    → SameBooks x (apply_fill symbol side quantity price reduce_only x).0
unfolding apply_fill fill_open
apply_fill-SameBooks symbol side quantity price reduce_only x = ground arith

SameBooks-IsConsistent : (x y : Exchange) → SameBooks x y → IsConsistent x → IsConsistent y
SameBooks-IsConsistent x y (orders, clients, protections, next) v = record {
  numbered = λ oid o found. rw next (v.numbered oid o (rw orders at found));
  named = λ c oid found. rw orders (v.named c oid (rw clients at found));
  protected = rw (orders, protections) v.protected;
}

and_answer_first {ℓ} :
    {A : Type ℓ} (a : A) (p : Exchange × Result (Unit {0})) → (and_answer a p).0 ≡ p.0
and_answer_first a (x, ok _) = refl
and_answer_first a (x, err e) = refl

abbrev pub new_order : Timestamp → OrderRequest → Exchange → Order
new_order now r x = order_of x.next_id now r (get_mark_price (upper_name r.symbol) x)

pub place_new-SameBooks :
    (now : Timestamp) (r : OrderRequest) (x : Exchange)
    → SameBooks (record_order (new_order now r x) x) (place_new now r x).0
unfolding place_new place_as
place_new-SameBooks now r x = placed (is_market r) (new_order now r x)
  where
    price : Decimal
    price = fill_price r (get_mark_price (upper_name r.symbol) x)

    placed :
        (market : Bool) (order : Order)
        → SameBooks (record_order order x) (place_as market order r price (record_order order x)).0
    placed true order = rw and_answer_first (
        apply_fill-SameBooks (upper_name r.symbol) r.side r.quantity price r.reduce_only
          (record_order order x))
    placed false order = (refl, refl, refl, refl)

pub place_order-IsConsistent :
    (now : Timestamp) (r : OrderRequest) (x : Exchange)
    → IsConsistent x
    → IsConsistent (place_order now r x).0
unfolding place_order place_known
place_order-IsConsistent now r x v = placed (get r.client_order_id x.client_to_order)
  where
    placed : (known : Option ℕ) → IsConsistent (place_known known now r x).0
    placed none =
        SameBooks-IsConsistent _ _ (place_new-SameBooks now r x)
          (record_order-IsConsistent (new_order now r x) x refl v)
    placed (some oid) = v

cancel_order-IsConsistent :
    (now : Timestamp) (oid : Option ℕ) (client : Option String) (x : Exchange)
    → IsConsistent x
    → IsConsistent (cancel_order now oid client x).0
unfolding cancel_order cancel_id cancel_found
cancel_order-IsConsistent now oid client x v = canceled_at (find_id oid client x)
  where
    written :
        (k : ℕ) (o : Option Order) → get k x.orders ≡ o → IsConsistent (cancel_found now k o x).0
    written k none e = v
    written k (some old) e = write_order-IsConsistent k old _ x e (refl, refl, refl, refl) v

    canceled_at : (k : Option ℕ) → IsConsistent (cancel_id now k x).0
    canceled_at none = v
    canceled_at (some k) = written k (get k x.orders) refl

unprotected-IsConsistent :
    (symbol : String) (x : Exchange)
    → IsConsistent x
    → IsConsistent (record x { protections = remove symbol x.protections })
unprotected-IsConsistent symbol x v = record {
  numbered = v.numbered;
  named = v.named;
  protected = All-remove (Protects x.orders) symbol x.protections v.protected;
}

place_stop-IsConsistent :
    (now : Timestamp) (r : StopRequest) (x : Exchange)
    → IsConsistent x
    → IsConsistent (place_stop now r x).0
unfolding place_stop record_order
place_stop-IsConsistent now r x v =
    let order = stop_of x.next_id now r in
    let w = record_order-IsConsistent order x refl v in
    let here : get x.next_id (put x.next_id order x.orders) ≡ some order =
      Dict.get-put_self x.next_id order x.orders in
    record {
      numbered = w.numbered;
      named = w.named;
      protected =
          All-put (Protects (put x.next_id order x.orders)) (upper_name r.symbol) x.next_id
            x.protections (order, here, (refl, tt)) w.protected;
    }

replace_stop-IsConsistent :
    (now : Timestamp) (symbol : String) (oid : ℕ) (price quantity : Decimal) (client : String)
    (x : Exchange)
    → IsConsistent x
    → IsConsistent (replace_stop now symbol oid price quantity client x).0
unfolding replace_stop
replace_stop-IsConsistent now symbol oid price quantity client x v =
    place_stop-IsConsistent now _ _ (cancel_old-IsConsistent oid (get oid x.orders) x refl v)

pub only_done_first : (p : Exchange × Result Order) → (only_done p).0 ≡ p.0
only_done_first (x, ok _) = refl
only_done_first (x, err e) = refl

cancel_named-IsConsistent :
    (by_name : Bool) (now : Timestamp) (oid : Option ℕ) (client : Option String) (x : Exchange)
    → IsConsistent x
    → IsConsistent (cancel_named by_name now oid client x).0
unfolding cancel_named
cancel_named-IsConsistent true now oid client x v =
    rw only_done_first (cancel_order-IsConsistent now oid client x v)
cancel_named-IsConsistent false now oid client x v = v

cancel_protection-IsConsistent :
    (now : Timestamp) (symbol : String) (oid : Option ℕ) (client : Option String) (x : Exchange)
    → IsConsistent x
    → IsConsistent (cancel_protection now symbol oid client x).0
unfolding cancel_protection
cancel_protection-IsConsistent now symbol oid client x v =
    cancel_named-IsConsistent (not (is_none oid) || is_named client) now oid client _
      (unprotected-IsConsistent (upper_name symbol) x v)

pub step-IsConsistent : (x : Exchange) (c : Call) → IsConsistent x → IsConsistent (step x c)
unfolding step set_mark_price connect disconnect
step-IsConsistent x (place_call now r) v = place_order-IsConsistent now r x v
step-IsConsistent x (cancel_call now oid client) v = cancel_order-IsConsistent now oid client x v
step-IsConsistent x (stop_call now r) v = place_stop-IsConsistent now r x v
step-IsConsistent x (replace_call now symbol oid price quantity client) v =
    replace_stop-IsConsistent now symbol oid price quantity client x v
step-IsConsistent x (unprotect_call now symbol oid client) v =
    cancel_protection-IsConsistent now symbol oid client x v
step-IsConsistent x (mark_call symbol price) v =
    SameBooks-IsConsistent x _ (refl, refl, refl, refl) v
step-IsConsistent x connect_call v = SameBooks-IsConsistent x _ (refl, refl, refl, refl) v
step-IsConsistent x disconnect_call v = SameBooks-IsConsistent x _ (refl, refl, refl, refl) v

-- After any calls on a consistent exchange (a new one is), every order has a number that was given
-- out, every client order id names an order that has this id and that number, and what protects a
-- symbol is a stop order for this symbol.
pub run-IsConsistent : (x : Exchange) (cs : List Call) → IsConsistent x → IsConsistent (run x cs)
unfolding run
run-IsConsistent x [] v = v
run-IsConsistent x (c ∷ cs) v = run-IsConsistent (step x c) cs (step-IsConsistent x c v)
