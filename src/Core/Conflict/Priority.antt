-- ===== src/Core/Conflict/Priority.antt =====
-- When the policy `source_priority` accepts a signal.
use safe_signal_trader_v.Prelude.{
  String, eq_iff, true, Option, none, some, List, [], ◌∷◌, ◌≡◌, refl, sym, ◌∙◌, str_eq, ◌↔◌, arith,
  All, Bool-cases, Option-cases, ◌⊎◌, inl, inr,
}
use safe_signal_trader_v.Prelude.Int.{ℤ, pos, ◌≤ℤ◌}
use safe_signal_trader_v.Prelude.Eq.{string_eq}
use safe_signal_trader_v.Prelude.Dict
use safe_signal_trader_v.Prelude.Dict.{Dict}
use safe_signal_trader_v.Domain.Enums.{ConflictPolicy}
use safe_signal_trader_v.Domain.Models.{NormalizedSignal}
use safe_signal_trader_v.Core.Conflict.{
  ConflictAction, OpenTradeRef, resolve, resolve_among, outrank, priority_of, or_empty, is_empty,
}
use safe_signal_trader_v.Core.Conflict.Safety.{against, along-all, among-against, on_symbol}

-- A trade whose source ranks strictly below `p`.
abbrev RanksBelow : Dict String ℤ → ℤ → OpenTradeRef → Type 0
RanksBelow pri p t = ¬ (p ≤ℤ priority_of pri t.source_id)

outrank-accept :
    (pri : Dict String ℤ) (p : ℤ) (ts : List OpenTradeRef)
    → ((outrank pri p ts).action ≡ ConflictAction.accept) ↔ All (RanksBelow pri p) ts
unfolding outrank
outrank-accept pri p [] = (λ _. tt, λ _. refl)
outrank-accept pri p (t ∷ ts) = (
  λ h. ground (arith, (outrank-accept pri p ts).0),
  λ h. ground (arith, (outrank-accept pri p ts).1),
)

-- A trade on the signal's side, from a source that ranks below the signal's, as the code computes it.
abbrev Gives : NormalizedSignal → Option (Dict String ℤ) → OpenTradeRef → Type 0
Gives signal pri t =
    (t.side ≡ signal.side)
    × RanksBelow (or_empty pri) (priority_of (or_empty pri) signal.source_id) t

nothing_against :
    (signal : NormalizedSignal) (pri : Option (Dict String ℤ)) (ts : List OpenTradeRef)
    → All (Gives signal pri) ts
    → is_empty (against signal ts) ≡ true
nothing_against signal pri [] h = refl
nothing_against signal pri (t ∷ ts) h = ground (arith, nothing_against signal pri ts h.1)

All-Gives :
    (signal : NormalizedSignal) (pri : Option (Dict String ℤ)) (ts : List OpenTradeRef)
    → is_empty (against signal ts) ≡ true
    → All (RanksBelow (or_empty pri) (priority_of (or_empty pri) signal.source_id)) ts
    → All (Gives signal pri) ts
All-Gives signal pri [] e h = tt
All-Gives signal pri (t ∷ ts) e h = ground (arith, All-Gives signal pri ts)

All-RanksBelow :
    (signal : NormalizedSignal) (pri : Option (Dict String ℤ)) (ts : List OpenTradeRef)
    → All (Gives signal pri) ts
    → All (RanksBelow (or_empty pri) (priority_of (or_empty pri) signal.source_id)) ts
All-RanksBelow signal pri [] h = tt
All-RanksBelow signal pri (t ∷ ts) h = (h.0.1, All-RanksBelow signal pri ts h.1)

-- with nothing against the signal, the loop decides
among_loop :
    (signal : NormalizedSignal) (pri : Option (Dict String ℤ)) (ts : List OpenTradeRef)
    → is_empty (against signal ts) ≡ true
    → (resolve_among signal ConflictPolicy.source_priority pri ts).action
      ≡ (outrank (or_empty pri) (priority_of (or_empty pri) signal.source_id) ts).action
unfolding resolve_among outrank
among_loop signal pri [] e = refl
among_loop signal pri (t ∷ ts) e = rw (e, along-all signal (t ∷ ts) e)

among_accept :
    (signal : NormalizedSignal) (pri : Option (Dict String ℤ)) (ts : List OpenTradeRef)
    → ((resolve_among signal ConflictPolicy.source_priority pri ts).action ≡ ConflictAction.accept)
      ↔ All (Gives signal pri) ts
among_accept signal pri ts = (forth, back)
  where
    forth :
        (resolve_among signal ConflictPolicy.source_priority pri ts).action ≡ ConflictAction.accept
        → All (Gives signal pri) ts
    forth h =
        let clear : is_empty (against signal ts) ≡ true =
          among-against signal ConflictPolicy.source_priority pri ts (λ e. cc) in
        All-Gives signal pri ts clear
          ((outrank-accept _ _ ts).0 (sym (among_loop signal pri ts clear) ∙ h))

    back :
        All (Gives signal pri) ts
        → (resolve_among signal ConflictPolicy.source_priority pri ts).action
          ≡ ConflictAction.accept
    back h =
        among_loop signal pri ts (nothing_against signal pri ts h)
        ∙ (outrank-accept _ _ ts).1 (All-RanksBelow signal pri ts h)

on_symbol-All :
    (signal : NormalizedSignal) (P : OpenTradeRef → Type 0) (ts : List OpenTradeRef)
    → All P (on_symbol signal ts) ↔ All (λ t. t.symbol ≡ signal.symbol → P t) ts
on_symbol-All signal P [] = (λ h. h, λ h. h)
on_symbol-All signal P (t ∷ ts) = elim (Bool-cases (str_eq t.symbol signal.symbol)) [
  | inl same ↦ rw same (
      (
        λ h. (λ _. h.0, (on_symbol-All signal P ts).0 h.1),
        λ h. (h.0 ((eq_iff t.symbol signal.symbol).0 same), (on_symbol-All signal P ts).1 h.1),
      ))
  | inr other ↦ rw other (
      (
        λ h.
            (λ e. cc (other, (eq_iff t.symbol signal.symbol).1 e), (on_symbol-All signal P ts).0 h),
        λ h. (on_symbol-All signal P ts).1 h.1,
      ))
]

-- The priority of a source: the one in the table, and 0 where the table has none for it or there is
-- no table.
abbrev pub HasPriority : Option (Dict String ℤ) → String → ℤ → Type 0
HasPriority none source_id p = p ≡ pos 0
HasPriority (some pri) source_id p =
    (Dict.get source_id pri ≡ some p) ⊎ ((Dict.get source_id pri ≡ none) × (p ≡ pos 0))

HasPriority-exists :
    (pri : Option (Dict String ℤ)) (s : String) → HasPriority pri s (priority_of (or_empty pri) s)
unfolding priority_of Dict.get
HasPriority-exists none s = refl
HasPriority-exists (some pri) s = elim (Option-cases (Dict.get s pri)) [
  | inl missing ↦ inr (missing, rw (priority_of, missing) refl)
  | inr (p, found) ↦ inl (rw (priority_of, found) refl)
]

HasPriority-unique :
    (pri : Option (Dict String ℤ)) (s : String) (p : ℤ)
    → HasPriority pri s p
    → p ≡ priority_of (or_empty pri) s
unfolding priority_of Dict.get
HasPriority-unique none s p e = e
HasPriority-unique (some pri) s p (inl found) = rw (priority_of, found) refl
HasPriority-unique (some pri) s p (inr (missing, e)) = rw (priority_of, missing) e

-- A trade on the signal's side, from a source of strictly lower priority than the signal's.
abbrev pub Yields : NormalizedSignal → Option (Dict String ℤ) → OpenTradeRef → Type 0
Yields signal pri t =
    (t.side ≡ signal.side)
    × (p : ℤ) × (own : ℤ) × HasPriority pri t.source_id p
    × HasPriority pri signal.source_id own
    × (¬ (own ≤ℤ p))

Gives-Yields :
    (signal : NormalizedSignal) (pri : Option (Dict String ℤ)) (t : OpenTradeRef)
    → Gives signal pri t ↔ Yields signal pri t
Gives-Yields signal pri t = (
  λ (side, lower). (
    side,
    priority_of (or_empty pri) t.source_id,
    priority_of (or_empty pri) signal.source_id,
    HasPriority-exists pri t.source_id,
    HasPriority-exists pri signal.source_id,
    lower,
  ),
  λ (side, p, own, has, has', lower). (
    side,
    rw (HasPriority-unique pri t.source_id p has, HasPriority-unique pri signal.source_id own has')
        at lower,
  ),
)

All-imp :
    (P Q R : OpenTradeRef → Type 0) (ts : List OpenTradeRef)
    → ((t : OpenTradeRef) → P t → Q t)
    → All (λ t. R t → P t) ts
    → All (λ t. R t → Q t) ts
All-imp P Q R [] f h = tt
All-imp P Q R (t ∷ ts) f (h, hs) = (λ r. f t (h r), All-imp P Q R ts f hs)

-- Under `source_priority` a signal is accepted exactly when every open trade on its symbol has its
-- side and comes from a source of strictly lower priority (a source that is not listed has 0).
pub source_priority-accept :
    (signal : NormalizedSignal) (pri : Option (Dict String ℤ)) (ts : List OpenTradeRef)
    → ((resolve signal ConflictPolicy.source_priority ts pri).action ≡ ConflictAction.accept)
      ↔ All (λ t. t.symbol ≡ signal.symbol → Yields signal pri t) ts
unfolding resolve
source_priority-accept signal pri ts =
    let among = among_accept signal pri (on_symbol signal ts) in
    let spread = on_symbol-All signal (Gives signal pri) ts in
    let same = λ (t : OpenTradeRef). t.symbol ≡ signal.symbol in
    (
      λ h.
          All-imp (Gives signal pri) (Yields signal pri) same ts
            (λ t. (Gives-Yields signal pri t).0) (spread.0 (among.0 h)),
      λ h. among.1 (
          spread.1 (
            All-imp (Yields signal pri) (Gives signal pri) same ts
              (λ t. (Gives-Yields signal pri t).1) h)),
    )
