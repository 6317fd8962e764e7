-- ===== src/Adapters/Mock/Keeping.antt =====
-- What the calls leave of an order that is known under a client order id.
use safe_signal_trader_v.Prelude.{
  ℕ, String, Bool, true, false, not, ◌||◌, Option, none, some, List, [], ◌∷◌, ◌≡◌, ◌≢◌, refl, ap,
  ◌∙◌, All, is_none,
}
use safe_signal_trader_v.Prelude.Eq.{nat_eq, string_eq}
use safe_signal_trader_v.Prelude.Dict
use safe_signal_trader_v.Prelude.Dict.{Dict, get, put}
use safe_signal_trader_v.Outcome.{ok}
use safe_signal_trader_v.Domain.Models.{Timestamp}
use safe_signal_trader_v.Adapters.Mock.State.{Order, Exchange, connect, disconnect}
use safe_signal_trader_v.Adapters.Mock.Market.{set_mark_price}
use safe_signal_trader_v.Adapters.Mock.Orders.{
  OrderRequest, place_order, place_known, place_new, record_order, write_order, cancel_order,
  cancel_id, cancel_found, find_id,
}
use safe_signal_trader_v.Adapters.Mock.Stops.{
  StopRequest, place_stop, replace_stop, cancel_protection, cancel_named, cancel_old, stop_of,
  is_named,
}
use safe_signal_trader_v.Adapters.Mock.Steps.{
  Call, place_call, cancel_call, stop_call, replace_call, unprotect_call, mark_call, connect_call,
  disconnect_call, step, run,
}
use safe_signal_trader_v.Adapters.Mock.Books.{
  IsConsistent, Holds, SameBut, Extends, Extends-put_new, Extends-put_over, cancel_old-IsConsistent,
}
use safe_signal_trader_v.Adapters.Mock.Consistency.{
  SameBooks, new_order, place_new-SameBooks, step-IsConsistent, only_done_first,
}

-- A client order id names the order `o`, or what its state and its time have become.
abbrev pub Keeps : String → ℕ → Order → Exchange → Type 0
Keeps c oid o x = (get c x.client_to_order ≡ some oid) × Holds x.orders oid (SameBut o)

-- A call that gives no stop the client order id `c`.
abbrev pub IsFree : String → Call → Type 0
IsFree c (stop_call now r) = r.client_order_id ≢ c
IsFree c (replace_call now symbol oid price quantity client) = client ≢ c
IsFree c _ = Unit

SameBut-trans : (a b d : Order) → SameBut a b → SameBut b d → SameBut a d
SameBut-trans a b d (e1, e2, e3, e4) (f1, f2, f3, f4) = (e1 ∙ f1, e2 ∙ f2, e3 ∙ f3, e4 ∙ f4)

module _ (c : String) (oid : ℕ) (o : Order) where
  Holds-Extends :
      (d d' : Dict ℕ Order) → Extends d d' → Holds d oid (SameBut o) → Holds d' oid (SameBut o)
  Holds-Extends d d' more (now, found, same) =
      let (later, found', same') = more oid now found in
      (later, found', SameBut-trans o now later same same')

  pub Keeps-books : (x y : Exchange) → SameBooks x y → Keeps c oid o x → Keeps c oid o y
  Keeps-books x y (orders, clients, _, _) (named, held) = (rw clients named, rw orders held)

  pub Keeps-record :
      (order : Order) (x : Exchange)
      → order.client_order_id ≢ c
      → IsConsistent x
      → Keeps c oid o x
      → Keeps c oid o (record_order order x)
  unfolding record_order
  Keeps-record order x other v (named, held) = (
    Dict.get-put_ne order.client_order_id c x.next_id x.client_to_order other ∙ named,
    Holds-Extends x.orders _ (Extends-put_new x order v) held,
  )

  Keeps-write :
      (k : ℕ) (old new : Order) (x : Exchange)
      → get k x.orders ≡ some old
      → SameBut old new
      → Keeps c oid o x
      → Keeps c oid o (write_order k new x)
  unfolding write_order
  Keeps-write k old new x there same (named, held) =
      (named, Holds-Extends x.orders _ (Extends-put_over x.orders k old new there same) held)

  place_order-Keeps :
      (now : Timestamp) (r : OrderRequest) (x : Exchange)
      → IsConsistent x
      → Keeps c oid o x
      → Keeps c oid o (place_order now r x).0
  unfolding place_order place_known
  place_order-Keeps now r x v kept = placed (get r.client_order_id x.client_to_order) refl
    where
      placed :
          (known : Option ℕ)
          → get r.client_order_id x.client_to_order ≡ known
          → Keeps c oid o (place_known known now r x).0
      placed none e =
          let other : r.client_order_id ≢ c =
            λ same. cc (e, kept.0, ap (λ k. get k x.client_to_order) same) in
          Keeps-books (record_order (new_order now r x) x) (place_new now r x).0
            (place_new-SameBooks now r x) (Keeps-record (new_order now r x) x other v kept)
      placed (some k) e = kept

  cancel_order-Keeps :
      (now : Timestamp) (k : Option ℕ) (client : Option String) (x : Exchange)
      → Keeps c oid o x
      → Keeps c oid o (cancel_order now k client x).0
  unfolding cancel_order cancel_id cancel_found
  cancel_order-Keeps now k client x kept = canceled_at (find_id k client x)
    where
      written :
          (j : ℕ) (old : Option Order)
          → get j x.orders ≡ old
          → Keeps c oid o (cancel_found now j old x).0
      written j none e = kept
      written j (some old) e = Keeps-write j old _ x e (refl, refl, refl, refl) kept

      canceled_at : (j : Option ℕ) → Keeps c oid o (cancel_id now j x).0
      canceled_at none = kept
      canceled_at (some j) = written j (get j x.orders) refl

  place_stop-Keeps :
      (now : Timestamp) (r : StopRequest) (x : Exchange)
      → r.client_order_id ≢ c
      → IsConsistent x
      → Keeps c oid o x
      → Keeps c oid o (place_stop now r x).0
  unfolding place_stop
  place_stop-Keeps now r x other v kept =
      let (named, held) = Keeps-record (stop_of x.next_id now r) x other v kept in (named, held)

  cancel_named-Keeps :
      (by_name : Bool) (now : Timestamp) (k : Option ℕ) (client : Option String) (x : Exchange)
      → Keeps c oid o x
      → Keeps c oid o (cancel_named by_name now k client x).0
  unfolding cancel_named
  cancel_named-Keeps true now k client x kept =
      rw only_done_first (cancel_order-Keeps now k client x kept)
  cancel_named-Keeps false now k client x kept = kept

  cancel_old-Keeps :
      (k : ℕ) (old : Option Order) (x : Exchange)
      → get k x.orders ≡ old
      → Keeps c oid o x
      → Keeps c oid o (cancel_old k old x)
  cancel_old-Keeps k none x e kept = kept
  cancel_old-Keeps k (some old) x e kept = Keeps-write k old _ x e (refl, refl, refl, refl) kept

  step-Keeps :
      (x : Exchange) (d : Call)
      → IsFree c d
      → IsConsistent x
      → Keeps c oid o x
      → Keeps c oid o (step x d)
  unfolding step set_mark_price connect disconnect replace_stop cancel_protection
  step-Keeps x (place_call now r) free v kept = place_order-Keeps now r x v kept
  step-Keeps x (cancel_call now k client) free v kept = cancel_order-Keeps now k client x kept
  step-Keeps x (stop_call now r) free v kept = place_stop-Keeps now r x free v kept
  step-Keeps x (replace_call now symbol k price quantity client) free v kept =
      place_stop-Keeps now _ _ free (cancel_old-IsConsistent k (get k x.orders) x refl v)
        (cancel_old-Keeps k (get k x.orders) x refl kept)
  step-Keeps x (unprotect_call now symbol k client) free v kept =
      cancel_named-Keeps (not (is_none k) || is_named client) now k client _ (kept.0, kept.1)
  step-Keeps x (mark_call symbol price) free v kept = (kept.0, kept.1)
  step-Keeps x connect_call free v kept = (kept.0, kept.1)
  step-Keeps x disconnect_call free v kept = (kept.0, kept.1)

  pub run-Keeps :
      (x : Exchange) (ds : List Call)
      → All (IsFree c) ds
      → IsConsistent x
      → Keeps c oid o x
      → Keeps c oid o (run x ds)
  unfolding run
  run-Keeps x [] free v kept = kept
  run-Keeps x (d ∷ ds) free v kept =
      run-Keeps (step x d) ds free.1 (step-IsConsistent x d v) (step-Keeps x d free.0 v kept)

  -- what the name of a kept order is answered with
  pub place_order-Keeps_answer :
      (now : Timestamp) (r : OrderRequest) (x : Exchange)
      → r.client_order_id ≡ c
      → Keeps c oid o x
      → (o' : Order) × (place_order now r x ≡ (x, ok o')) × SameBut o o'
  unfolding place_order place_known
  place_order-Keeps_answer now r x same (named, (o', found, kept)) =
      (o', rw (same, named, found) refl, kept)
