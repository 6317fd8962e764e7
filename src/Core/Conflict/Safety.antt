-- ===== src/Core/Conflict/Safety.antt =====
-- What a decision guarantees about the trades that are open.
use safe_signal_trader_v.Prelude.{
  String, str_eq, eq_iff, true, not, Option, List, [], ◌∷◌, ◌≡◌, ◌≢◌, refl, select, All, arith,
}
use safe_signal_trader_v.Prelude.Int.{ℤ}
use safe_signal_trader_v.Prelude.Dict.{Dict}
use safe_signal_trader_v.Domain.Enums.{ConflictPolicy, same_side}
use safe_signal_trader_v.Domain.Models.{NormalizedSignal}
use safe_signal_trader_v.Core.Conflict.{
  ConflictAction, OpenTradeRef, resolve, resolve_among, is_empty,
}

-- A trade that the resolver must not let the signal turn around.
abbrev pub IsOpposite : NormalizedSignal → OpenTradeRef → Type 0
IsOpposite signal t = (t.symbol ≡ signal.symbol) × (t.side ≢ signal.side)

abbrev pub on_symbol : NormalizedSignal → List OpenTradeRef → List OpenTradeRef
on_symbol signal = select (λ (t : OpenTradeRef). str_eq t.symbol signal.symbol)

abbrev pub against : NormalizedSignal → List OpenTradeRef → List OpenTradeRef
against signal = select (λ (t : OpenTradeRef). not (same_side t.side signal.side))

abbrev pub along : NormalizedSignal → List OpenTradeRef → List OpenTradeRef
along signal = select (λ (t : OpenTradeRef). same_side t.side signal.side)

against_none :
    (signal : NormalizedSignal) (ts : List OpenTradeRef)
    → is_empty (against signal (on_symbol signal ts)) ≡ true
    → All (λ t. ¬ IsOpposite signal t) ts
against_none signal [] h = tt
against_none signal (t ∷ ts) h =
    ground (arith, against_none signal ts, eq_iff t.symbol signal.symbol)

pub among-against :
    (signal : NormalizedSignal) (policy : ConflictPolicy) (pri : Option (Dict String ℤ))
    (ts : List OpenTradeRef)
    → (resolve_among signal policy pri ts).action ≢ ConflictAction.reject
    → is_empty (against signal ts) ≡ true
unfolding resolve_among
among-against signal policy pri [] h = refl
among-against signal policy pri (t ∷ ts) h = ground arith

-- Opposite directions are never netted: unless the decision is to reject, no open trade on the
-- signal's symbol has the other side, whatever the policy and the priorities.
pub resolve-no_IsOpposite :
    (signal : NormalizedSignal) (policy : ConflictPolicy) (ts : List OpenTradeRef)
    (pri : Option (Dict String ℤ))
    → (resolve signal policy ts pri).action ≢ ConflictAction.reject
    → All (λ t. ¬ IsOpposite signal t) ts
unfolding resolve
resolve-no_IsOpposite signal policy ts pri h =
    against_none signal ts (among-against signal policy pri (on_symbol signal ts) h)

-- once nothing is against the signal, all that is on its symbol is along it
pub along-all :
    (signal : NormalizedSignal) (ts : List OpenTradeRef)
    → is_empty (against signal ts) ≡ true
    → along signal ts ≡ ts
along-all signal [] h = refl
along-all signal (t ∷ ts) h = ground (arith, along-all signal ts)
