-- ===== src/Core/Position/Reach.antt =====
-- What chains of accepted transitions can and cannot do.
use safe_signal_trader_v.Prelude.{◌≡◌, refl, ◌≢◌, ◌⊎◌, inl, inr, arith}
use safe_signal_trader_v.Outcome.{ok}
use safe_signal_trader_v.Domain.Enums.{TradeStatus}
use safe_signal_trader_v.Core.Position.{transition}

-- `transition` was called and did not raise, any number of times.
pub data Reaches (s : TradeStatus) : TradeStatus → Type 0 where
  here : Reaches s s
  next : {t v : TradeStatus} (u : TradeStatus) → Reaches s t → transition t u ≡ ok v → Reaches s v

abbrev pub IsSettled : TradeStatus → Type 0
IsSettled s = (s ≡ TradeStatus.closed) ⊎ (s ≡ TradeStatus.archived)

IsSettled-step : (t u v : TradeStatus) → IsSettled t → transition t u ≡ ok v → IsSettled v
unfolding transition
IsSettled-step t u v h e = ground arith

-- A closed trade is never traded again: from CLOSED or ARCHIVED every chain of accepted transitions
-- stays in CLOSED and ARCHIVED.
pub Reaches-IsSettled : (s t : TradeStatus) → IsSettled s → Reaches s t → IsSettled t
Reaches-IsSettled s t h here = h
Reaches-IsSettled s v h (next {t} u r e) = IsSettled-step t u v (Reaches-IsSettled s t h r) e

fresh_step : (t u v : TradeStatus) → transition t u ≡ ok v → v ≢ TradeStatus.pending_entry
unfolding transition
fresh_step t u v e = ground arith

-- No transition leads back to PENDING_ENTRY: a chain that ends there has not moved.
pub Reaches-pending_entry :
    (s t : TradeStatus) → Reaches s t → t ≡ TradeStatus.pending_entry → s ≡ t
Reaches-pending_entry s t here e = refl
Reaches-pending_entry s v (next {t} u r h) e = absurd (fresh_step t u v h e)

close_step :
    (t : TradeStatus) → IsSettled t ⊎ (transition t TradeStatus.closed ≡ ok TradeStatus.closed)
unfolding transition
close_step t = ground arith

archive_step : transition TradeStatus.closed TradeStatus.archived ≡ ok TradeStatus.archived
unfolding transition
archive_step = refl

-- From every status some chain of accepted transitions leads to ARCHIVED, and ARCHIVED accepts no
-- transition at all.
pub archived_is_the_end :
    (s : TradeStatus)
    → Reaches s TradeStatus.archived
      × ((u v : TradeStatus) → transition TradeStatus.archived u ≢ ok v)
unfolding transition
archived_is_the_end s = (to_archive, λ u v. ground arith)
  where
    via_closed : Reaches s TradeStatus.closed → Reaches s TradeStatus.archived
    via_closed r = next TradeStatus.archived r archive_step

    to_archive : Reaches s TradeStatus.archived
    to_archive = elim (close_step s) [
      | inl (inl e) ↦ via_closed (rw (← e) here)
      | inl (inr e) ↦ rw (← e) here
      | inr e ↦ via_closed (next TradeStatus.closed here e)
    ]
