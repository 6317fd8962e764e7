-- ===== src/Adapters/Mock/Fills/Closing.antt =====
-- Opening a position and closing it.
use safe_signal_trader_v.Prelude.{
  ℕ, ◌+◌, ◌-◌, ◌^◌, ◌<◌, String, str_eq, eq_iff, Bool, true, false, Option, none, some, [], ◌∷◌,
  ◌≡◌, ◌≢◌, refl, ◌∙◌, arith, if◌then◌else◌,
}
use safe_signal_trader_v.Prelude.Int.{ℤ, pos, negsuc, pos_part, neg_part, sub_ℕ}
use safe_signal_trader_v.Prelude.Eq.{nat_eq, string_eq}
use safe_signal_trader_v.Prelude.Dict
use safe_signal_trader_v.Prelude.Dict.{Dict, get, put, remove}
use safe_signal_trader_v.Decimal.{
  Decimal, precision, zero_dec, nonzero, rounded, add, sub, mul, neg,
}
use safe_signal_trader_v.Decimal.Exact.{rounded-exact}
use safe_signal_trader_v.Outcome.{Result, ok, err}
use safe_signal_trader_v.Domain.Enums.{OrderSide}
use safe_signal_trader_v.Domain.Models.{Timestamp}
use safe_signal_trader_v.Adapters.Mock.State.{Order, Position, Exchange, upper_name}
use safe_signal_trader_v.Adapters.Mock.Market.{get_mark_price, set_mark_price}
use safe_signal_trader_v.Adapters.Mock.Orders.{
  OrderRequest, place_order, place_known, place_new, place_as, apply_fill, fill_open, signed_qty,
  and_answer, record_order, is_market, fill_price,
}
use safe_signal_trader_v.Adapters.Mock.Consistency.{new_order}

abbrev pub opposite : OrderSide → OrderSide
opposite OrderSide.buy = OrderSide.sell
opposite OrderSide.sell = OrderSide.buy

-- The context holds the coefficient, so that changing its sign does not round it.
abbrev pub Fits : Decimal → Type 0
Fits q = pos_part q.coeff + neg_part q.coeff < 10 ^ precision

rounded-balanced : (p n s : ℕ) → p ≡ n → nonzero (rounded p n s) ≡ false
unfolding rounded
rounded-balanced p n s e =
    let left : p - n ≡ 0 = omega arith in
    let right : n - p ≡ 0 = omega arith in rw (left, right) refl

neg-parts :
    (q : Decimal)
    → Fits q
    → (pos_part (neg q).coeff ≡ neg_part q.coeff)
      × (neg_part (neg q).coeff ≡ pos_part q.coeff)
      × ((neg q).scale ≡ q.scale)
unfolding neg
neg-parts q fits =
    rw
      (rounded-exact (neg_part q.coeff) (pos_part q.coeff) q.scale (omega (arith, fits))
        (omega (arith, fits)))
      (parts q.coeff)
  where
    parts :
        (a : ℤ)
        → (pos_part (sub_ℕ (neg_part a - pos_part a) (pos_part a - neg_part a)) ≡ neg_part a)
          × (neg_part (sub_ℕ (neg_part a - pos_part a) (pos_part a - neg_part a)) ≡ pos_part a)
          × (q.scale ≡ q.scale)
    parts (pos k) = ground arith
    parts (negsuc k) = ground arith

-- What one side has filled, the other takes back.
sides-cancel :
    (side : OrderSide) (q : Decimal)
    → Fits q
    → nonzero (add (signed_qty side q) (signed_qty (opposite side) q)) ≡ false
unfolding add
sides-cancel OrderSide.buy q fits =
    let (p, n, s) = neg-parts q fits in rounded-balanced _ _ _ (rw (p, n, s) (omega arith))
sides-cancel OrderSide.sell q fits =
    let (p, n, s) = neg-parts q fits in rounded-balanced _ _ _ (rw (p, n, s) (omega arith))

remove-put {ℓ} :
    {V : Type ℓ} (k : String) (v : V) (d : Dict String V)
    → get k d ≡ none
    → remove k (put k v d) ≡ d
unfolding get put remove
remove-put k v [] e = ground (arith, eq_iff k k)
remove-put k v ((j, w) ∷ d) e = ground (arith, remove-put k v d)

fill_close :
    (symbol : String) (p : Position) (signed price : Decimal) (x : Exchange)
    → nonzero (add p.position_amt signed) ≡ false
    → fill_open symbol p signed (add p.position_amt signed) price x ≡ (
      record x {
        realized_pnl = add x.realized_pnl (mul (sub price p.entry_price) p.position_amt);
        positions = remove symbol x.positions;
      },
      ok tt,
    )
unfolding fill_open
fill_close symbol p signed price x e = rw e refl

and_answer_state : (o : Order) (p : Exchange × Result (Unit {0})) → (and_answer o p).0 ≡ p.0
and_answer_state o (x, ok _) = refl
and_answer_state o (x, err e) = refl

market_price : (r : OrderRequest) (mark : Decimal) → is_market r ≡ true → fill_price r mark ≡ mark
market_price r mark e = priced r.price
  where
    name : upper_name r.order_type ≡ "MARKET"
    name = (eq_iff (upper_name r.order_type) "MARKET").0 e

    priced :
        (p : Option Decimal)
        → elim p [
          | none ↦ mark
          | some p ↦ if str_eq (upper_name r.order_type) "LIMIT" then p else mark
        ]
          ≡ mark
    priced none = refl
    priced (some p) = rw name refl

-- A market order under a new client id is recorded and filled at the mark price.
pub place_market :
    (now : Timestamp) (r : OrderRequest) (x : Exchange) (symbol : String) (reduce_only : Bool)
    → get r.client_order_id x.client_to_order ≡ none
    → is_market r ≡ true
    → upper_name r.symbol ≡ symbol
    → r.reduce_only ≡ reduce_only
    → (place_order now r x).0
      ≡ (apply_fill symbol r.side r.quantity
          (get_mark_price symbol x)
          reduce_only
          (record_order (new_order now r x) x)).0
unfolding place_order place_known place_new place_as
place_market now r x symbol reduce_only fresh market same how =
    rw
      (← same, ← how, fresh, market, market_price r (get_mark_price (upper_name r.symbol) x) market)
      (and_answer_state _ _)

abbrev opened : String → Decimal → Decimal → Position
opened symbol amount price = record {
  symbol = symbol;
  position_amt = amount;
  entry_price = price;
  unrealized_profit = zero_dec;
  leverage = 10;
}

fill_new :
    (symbol : String) (side : OrderSide) (q price : Decimal) (x : Exchange)
    → get symbol x.positions ≡ none
    → (apply_fill symbol side q price false x).0
      ≡ record x { positions = put symbol (opened symbol (signed_qty side q) price) x.positions }
unfolding apply_fill
fill_new symbol side q price x e = rw e refl

pub fill_against :
    (symbol : String) (side : OrderSide) (q price : Decimal) (reduce_only : Bool) (x : Exchange)
    (p : Position)
    → get symbol x.positions ≡ some p
    → nonzero (add p.position_amt (signed_qty side q)) ≡ false
    → (apply_fill symbol side q price reduce_only x).0 ≡ record x {
      realized_pnl = add x.realized_pnl (mul (sub price p.entry_price) p.position_amt);
      positions = remove symbol x.positions;
    }
unfolding apply_fill
fill_against symbol side q price reduce_only x p e closing =
    rw (e, fill_close symbol p (signed_qty side q) price x closing) refl

-- A position that is opened and closed leaves the positions as they were, and the profit is the
-- difference of the two mark prices times the signed quantity: for a symbol without a position, a
-- market order that may open one, a change of one mark price, and a market order for the other side
-- and the same quantity (of at most 28 digits), both under new client order ids.
pub open_close :
    (x : Exchange) (t1 t2 : Timestamp) (r1 r2 : OrderRequest) (moved : String) (price : Decimal)
    → Fits r1.quantity
    → is_market r1 ≡ true
    → is_market r2 ≡ true
    → r1.reduce_only ≡ false
    → upper_name r2.symbol ≡ upper_name r1.symbol
    → r2.side ≡ opposite r1.side
    → r2.quantity ≡ r1.quantity
    → get r1.client_order_id x.client_to_order ≡ none
    → get r2.client_order_id x.client_to_order ≡ none
    → r1.client_order_id ≢ r2.client_order_id
    → get (upper_name r1.symbol) x.positions ≡ none
    → let y = set_mark_price moved price (place_order t1 r1 x).0 in
      let z = (place_order t2 r2 y).0 in
      let symbol = upper_name r1.symbol in
      (z.positions ≡ x.positions)
      × (z.realized_pnl
          ≡ add x.realized_pnl (
              mul
                (sub (get_mark_price symbol y) (get_mark_price symbol x))
                (signed_qty r1.side r1.quantity)))
unfolding set_mark_price record_order
open_close x t1 t2 r1 r2 moved price fits m1 m2 may same side quantity new1 new2 differ flat =
    let symbol = upper_name r1.symbol in
    let p = opened symbol (signed_qty r1.side r1.quantity) (get_mark_price symbol x) in
    let y1 = record (record_order (new_order t1 r1 x) x) { positions = put symbol p x.positions } in
    let first : (place_order t1 r1 x).0 ≡ y1 =
      place_market t1 r1 x symbol false new1 m1 refl may
      ∙ fill_new symbol r1.side r1.quantity _ (record_order (new_order t1 r1 x) x) flat in
    let y = set_mark_price moved price y1 in
    let new : get r2.client_order_id y.client_to_order ≡ none =
      Dict.get-put_ne r1.client_order_id r2.client_order_id x.next_id x.client_to_order differ
      ∙ new2 in
    let there : get symbol y.positions ≡ some p = Dict.get-put_self symbol p x.positions in
    let closing : nonzero (add p.position_amt (signed_qty r2.side r2.quantity)) ≡ false =
      rw (side, quantity) (sides-cancel r1.side r1.quantity fits) in
    let w = record_order (new_order t2 r2 y) y in
    let second =
      place_market t2 r2 y symbol r2.reduce_only new m2 same refl
      ∙ fill_against symbol r2.side r2.quantity (get_mark_price symbol y) r2.reduce_only w p there
          closing in
    rw (first, second) (remove-put symbol p x.positions flat, refl)
