-- ===== src/Adapters/Mock/Fills/Reducing.antt =====
-- What `reduce_only` does to an order.
use safe_signal_trader_v.Prelude.{
  ℕ, String, Bool, true, false, Option, none, some, ◌≡◌, refl, arith, Option-cases, ◌⊎◌, inl, inr,
}
use safe_signal_trader_v.Prelude.Eq.{string_eq}
use safe_signal_trader_v.Prelude.Dict.{get}
use safe_signal_trader_v.Decimal.{Decimal}
use safe_signal_trader_v.Outcome.{Result, ok, err}
use safe_signal_trader_v.Domain.Models.{Timestamp}
use safe_signal_trader_v.Adapters.Mock.State.{Order, Position, Exchange, upper_name}
use safe_signal_trader_v.Adapters.Mock.Orders.{
  OrderRequest, place_order, place_known, place_new, place_as, apply_fill, fill_open, and_answer,
  record_order, is_market,
}
use safe_signal_trader_v.Adapters.Mock.Consistency.{new_order}

-- Positions and profit are the same.
abbrev pub SameHoldings : Exchange → Exchange → Type 0
SameHoldings x y = (x.positions ≡ y.positions) × (x.realized_pnl ≡ y.realized_pnl)

and_answer-same :
    (a b : Order) (p q : Exchange × Result (Unit {0}))
    → SameHoldings p.0 q.0
    → SameHoldings (and_answer a p).0 (and_answer b q).0
and_answer-same a b (x, ok _) (y, ok _) h = h
and_answer-same a b (x, ok _) (y, err f) h = h
and_answer-same a b (x, err e) (y, ok _) h = h
and_answer-same a b (x, err e) (y, err f) h = h

fill_open-SameHoldings :
    (symbol : String) (p : Position) (signed new_qty price : Decimal) (x y : Exchange)
    → SameHoldings x y
    → SameHoldings
        (fill_open symbol p signed new_qty price x).0
        (fill_open symbol p signed new_qty price y).0
unfolding fill_open
fill_open-SameHoldings symbol p signed new_qty price x y h = ground arith

filled-SameHoldings :
    (market : Bool) (a b : Order) (r : OrderRequest) (price : Decimal) (x y : Exchange)
    (p : Position)
    → SameHoldings x y
    → get (upper_name r.symbol) x.positions ≡ some p
    → get (upper_name r.symbol) y.positions ≡ some p
    → SameHoldings
        (place_as market a (record r { reduce_only = true }) price x).0
        (place_as market b (record r { reduce_only = false }) price y).0
unfolding place_as apply_fill
filled-SameHoldings false a b r price x y p h e e' = h
filled-SameHoldings true a b r price x y p h e e' =
    and_answer-same a b (apply_fill (upper_name r.symbol) r.side r.quantity price true x)
      (apply_fill (upper_name r.symbol) r.side r.quantity price false y)
      (rw (e, e') (fill_open-SameHoldings (upper_name r.symbol) p _ _ price x y h))

refused-SameHoldings :
    (market : Bool) (a : Order) (r : OrderRequest) (price : Decimal) (x : Exchange)
    → get (upper_name r.symbol) x.positions ≡ none
    → SameHoldings (place_as market a (record r { reduce_only = true }) price x).0 x
unfolding place_as apply_fill
refused-SameHoldings false a r price x e = (refl, refl)
refused-SameHoldings true a r price x e = rw e (refl, refl)

-- On an open position the flag makes no difference.
reduce_only_alike :
    (now : Timestamp) (r : OrderRequest) (x : Exchange)
    → let reducing = (place_order now (record r { reduce_only = true }) x).0 in
      let opening = (place_order now (record r { reduce_only = false }) x).0 in
      let symbol = upper_name r.symbol in
      ((get symbol x.positions ≡ none) × SameHoldings reducing x)
      ⊎ ((p : Position) × (get symbol x.positions ≡ some p) × SameHoldings reducing opening)
unfolding place_order place_known place_new record_order
reduce_only_alike now r x = elim (Option-cases (get symbol x.positions)) [
  | inl flat ↦ inl (flat, at_rest flat (get r.client_order_id x.client_to_order))
  | inr (p, held) ↦ inr (p, held, moving p held (get r.client_order_id x.client_to_order))
]
  where
    reducing : OrderRequest
    reducing = record r { reduce_only = true }

    opening : OrderRequest
    opening = record r { reduce_only = false }

    symbol : String
    symbol = upper_name r.symbol

    at_rest :
        get symbol x.positions ≡ none
        → (known : Option ℕ) → SameHoldings (place_known known now reducing x).0 x
    at_rest flat (some oid) = (refl, refl)
    at_rest flat none =
        refused-SameHoldings (is_market r) (new_order now reducing x) r _
          (record_order (new_order now reducing x) x) flat

    moving :
        (p : Position)
        → get symbol x.positions ≡ some p
        → (known : Option ℕ)
        → SameHoldings (place_known known now reducing x).0 (place_known known now opening x).0
    moving p held (some oid) = (refl, refl)
    moving p held none =
        filled-SameHoldings (is_market r) (new_order now reducing x) (new_order now opening x) r _
          (record_order (new_order now reducing x) x) (record_order (new_order now opening x) x) p
          (refl, refl) held held
