-- ===== src/Adapters/Mock/Books.antt =====
-- When the dicts of an exchange fit each other, and the writes to them.
use safe_signal_trader_v.Prelude.{
  ℕ, ◌<◌, String, str_eq, eq_iff, false, Option, none, some, List, [], ◌∷◌, ◌≡◌, refl, sym, ◌∙◌,
  inl, inr, arith, ◌==◌, All, Bool-cases,
}
use safe_signal_trader_v.Prelude.Eq.{nat_eq, string_eq, ==_iff}
use safe_signal_trader_v.Prelude.Dict.{Dict, get, put, remove, get-put}
use safe_signal_trader_v.Decimal.{Decimal}
use safe_signal_trader_v.Adapters.Mock.State.{Terms, plain, stop, Order, Exchange, new_exchange}
use safe_signal_trader_v.Adapters.Mock.Orders.{record_order, write_order}
use safe_signal_trader_v.Adapters.Mock.Stops.{cancel_old}

abbrev pub IsStop : Terms → Type 0
IsStop (plain price avg executed) = ⊥
IsStop (stop price) = Unit

-- An order that is found under its number.
abbrev pub Holds : Dict ℕ Order → ℕ → (Order → Type 0) → Type 0
Holds orders oid P = (o : Order) × (get oid orders ≡ some o) × P o

abbrev pub Named : Dict ℕ Order → String → ℕ → Type 0
Named orders c oid = Holds orders oid (λ o. (o.order_id ≡ oid) × (o.client_order_id ≡ c))

abbrev pub Protects : Dict ℕ Order → String × ℕ → Type 0
Protects orders (symbol, oid) = Holds orders oid (λ o. (o.symbol ≡ symbol) × IsStop o.terms)

-- Numbers are given in order; a client order id names an order that has it; and what protects a
-- symbol is a stop for it.
pub record IsConsistent (x : Exchange) : Type 0 where
  pub numbered : (oid : ℕ) (o : Order) → get oid x.orders ≡ some o → oid < x.next_id
  pub named : (c : String) (oid : ℕ) → get c x.client_to_order ≡ some oid → Named x.orders c oid
  pub protected : All (Protects x.orders) x.protections

-- A dict of orders that keeps all that is in `d`, but for the state and the time of an order.
abbrev pub SameBut : Order → Order → Type 0
SameBut o o' =
    (o.order_id ≡ o'.order_id)
    × (o.client_order_id ≡ o'.client_order_id)
    × (o.symbol ≡ o'.symbol)
    × (o.terms ≡ o'.terms)

abbrev pub Extends : Dict ℕ Order → Dict ℕ Order → Type 0
Extends d d' = (oid : ℕ) (o : Order) → get oid d ≡ some o → Holds d' oid (SameBut o)

pub Named-Extends :
    (d d' : Dict ℕ Order) (c : String) (oid : ℕ) → Extends d d' → Named d c oid → Named d' c oid
Named-Extends d d' c oid more (o, found, same) =
    let (o', found', kept) = more oid o found in (o', found', ground arith)

pub Protects-Extends :
    (d d' : Dict ℕ Order) (ps : List (String × ℕ))
    → Extends d d'
    → All (Protects d) ps
    → All (Protects d') ps
Protects-Extends d d' [] more h = tt
Protects-Extends d d' ((symbol, oid) ∷ ps) more ((o, found, (same, is_stop)), h) =
    let (o', found', kept) = more oid o found in
    let is_stop' : IsStop o'.terms = rw kept.3 at is_stop in
    ((o', found', (ground arith, is_stop')), Protects-Extends d d' ps more h)

pub All-put {κ} :
    (P : String × ℕ → Type κ) (k : String) (v : ℕ) (d : Dict String ℕ)
    → P (k, v)
    → All P d
    → All P (put k v d)
unfolding put
All-put P k v [] p h = (p, tt)
All-put P k v ((j, w) ∷ d) p h = elim (Bool-cases (str_eq j k)) [
  | inl same ↦ let e : j ≡ k = (eq_iff j k).0 same in rw same (rw e p, h.1)
  | inr other ↦ rw other (h.0, All-put P k v d p h.1)
]

pub All-remove {κ} :
    (P : String × ℕ → Type κ) (k : String) (d : Dict String ℕ) → All P d → All P (remove k d)
unfolding remove
All-remove P k [] h = tt
All-remove P k ((j, w) ∷ d) h = elim (Bool-cases (str_eq j k)) [
  | inl same ↦ rw same h.1
  | inr other ↦ rw other (h.0, All-remove P k d h.1)
]

pub Extends-put_new :
    (x : Exchange) (order : Order)
    → IsConsistent x
    → Extends x.orders (put x.next_id order x.orders)
Extends-put_new x order v oid o found =
    let lt = v.numbered oid o found in
    let ne : (x.next_id == oid) ≡ false = ground arith in
    (o, get-put x.next_id oid order x.orders ∙ rw ne found, (refl, refl, refl, refl))

pub record_order-IsConsistent :
    (order : Order) (x : Exchange)
    → order.order_id ≡ x.next_id
    → IsConsistent x
    → IsConsistent (record_order order x)
unfolding record_order
record_order-IsConsistent order x numbered v = record {
  numbered = λ oid o found. elim (Bool-cases (x.next_id == oid)) [
    | inl same ↦ ground arith
    | inr other ↦
        let before =
          v.numbered oid o (rw other at (sym (get-put x.next_id oid order x.orders) ∙ found)) in
        omega (arith, before)
  ];
  named = λ c oid found. elim (Bool-cases (str_eq order.client_order_id c)) [
    | inl same ↦
        let it : x.next_id ≡ oid =
          ground (arith, get-put order.client_order_id c x.next_id x.client_to_order) in
        (
          order,
          get-put x.next_id oid order x.orders ∙ rw ((==_iff x.next_id oid).1 it),
          (numbered ∙ it, (eq_iff order.client_order_id c).0 same),
        )
    | inr other ↦ Named-Extends x.orders _ c oid (Extends-put_new x order v) (
        v.named c oid
          (rw other at (sym (get-put order.client_order_id c x.next_id x.client_to_order) ∙ found)))
  ];
  protected = Protects-Extends x.orders _ x.protections (Extends-put_new x order v) v.protected;
}

pub Extends-put_over :
    (d : Dict ℕ Order) (oid : ℕ) (old new : Order)
    → get oid d ≡ some old
    → SameBut old new
    → Extends d (put oid new d)
Extends-put_over d oid old new there same k o found = elim (Bool-cases (oid == k)) [
  | inl this ↦
      let at_k : get k (put oid new d) ≡ some new = ground (arith, get-put oid k new d) in
      let it : o ≡ old = ground (arith, (==_iff oid k).0 this) in (new, at_k, rw it same)
  | inr other ↦ (o, get-put oid k new d ∙ rw other found, (refl, refl, refl, refl))
]

pub write_order-IsConsistent :
    (oid : ℕ) (old new : Order) (x : Exchange)
    → get oid x.orders ≡ some old
    → SameBut old new
    → IsConsistent x
    → IsConsistent (write_order oid new x)
unfolding write_order
write_order-IsConsistent oid old new x there same v =
    let more = Extends-put_over x.orders oid old new there same in
    record {
      numbered = λ k o found. elim (Bool-cases (oid == k)) [
        | inl this ↦ let below = v.numbered oid old there in ground (arith, (==_iff oid k).0 this)
        | inr other ↦ v.numbered k o (rw other at (sym (get-put oid k new x.orders) ∙ found))
      ];
      named = λ c k found. Named-Extends x.orders _ c k more (v.named c k found);
      protected = Protects-Extends x.orders _ x.protections more v.protected;
    }

pub cancel_old-IsConsistent :
    (oid : ℕ) (old : Option Order) (x : Exchange)
    → get oid x.orders ≡ old
    → IsConsistent x
    → IsConsistent (cancel_old oid old x)
cancel_old-IsConsistent oid none x e v = v
cancel_old-IsConsistent oid (some old) x e v =
    write_order-IsConsistent oid old _ x e (refl, refl, refl, refl) v

pub new_exchange-IsConsistent :
    (balance mark : Decimal) (id : String) → IsConsistent (new_exchange balance mark id)
unfolding new_exchange get
new_exchange-IsConsistent balance mark id = record {
  numbered = λ oid o found. cc;
  named = λ c oid found. cc;
  protected = tt;
}
