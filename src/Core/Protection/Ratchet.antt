-- ===== src/Core/Protection/Ratchet.antt =====
-- A stop only ever moves to the safe side.
use safe_signal_trader_v.Prelude.{
  true, Option, none, some, List, [], ◌∷◌, ◌≡◌, ◌≢◌, refl, ◌⊎◌, ◌↔◌, arith,
}
use safe_signal_trader_v.Decimal.{Decimal, ◌≼◌}
use safe_signal_trader_v.Decimal.Order.{≼-refl, ≼-trans}
use safe_signal_trader_v.Domain.Enums.{Side, SlMode}
use safe_signal_trader_v.Domain.Models.{TakeProfitLevel, NormalizedSignal, EffectiveConfigSnapshot}
use safe_signal_trader_v.Core.Protection.{initial_stop, after_tp, never_worsen, candidate_stop}

-- `b` protects a position on this side at least as well as `a`.
abbrev pub AsSafe : Side → Decimal → Decimal → Type 0
AsSafe Side.long a b = a ≼ b
AsSafe Side.short a b = b ≼ a

AsSafe-refl : (side : Side) (a : Decimal) → AsSafe side a a
AsSafe-refl Side.long a = ≼-refl a
AsSafe-refl Side.short a = ≼-refl a

AsSafe-trans : (side : Side) (a b c : Decimal) → AsSafe side a b → AsSafe side b c → AsSafe side a c
AsSafe-trans Side.long a b c h k = ≼-trans a b c h k
AsSafe-trans Side.short a b c h k = ≼-trans c b a k h

-- `never_worsen` answers with the better of the two stops: it is one of them, and as safe as both.
pub never_worsen-best :
    (side : Side) (current proposed : Decimal)
    → let stop = never_worsen side current proposed in
      AsSafe side current stop × AsSafe side proposed stop × ((stop ≡ current) ⊎ (stop ≡ proposed))
unfolding never_worsen
never_worsen-best Side.long current proposed = ground (arith, ≼-refl current, ≼-refl proposed)
never_worsen-best Side.short current proposed = ground (arith, ≼-refl current, ≼-refl proposed)

-- `after_tp` is `never_worsen` of what its mode asks for.
pub after_tp-never_worsen :
    (side : Side) (current entry : Decimal) (tp : TakeProfitLevel)
    (snapshot : EffectiveConfigSnapshot) (previous : Option Decimal)
    → (after_tp side current entry tp snapshot previous).safer_stop
      ≡ some (never_worsen side current (candidate_stop snapshot.sl_mode current entry previous))
unfolding after_tp never_worsen
after_tp-never_worsen side current entry tp snapshot previous = refl

-- The stop in force is the last plan's `safer_stop`.
abbrev pub stop_or : Decimal → Option Decimal → Decimal
stop_or current none = current
stop_or current (some s) = s

after_tp-AsSafe :
    (side : Side) (current entry : Decimal) (tp : TakeProfitLevel)
    (snapshot : EffectiveConfigSnapshot) (previous : Option Decimal)
    → AsSafe side current
        (stop_or current (after_tp side current entry tp snapshot previous).safer_stop)
after_tp-AsSafe side current entry tp snapshot previous =
    rw after_tp-never_worsen (never_worsen-best side current _).0

-- One take profit hit after another.
unfoldable pub trail :
    Side
    → Decimal
    → EffectiveConfigSnapshot
    → Decimal
    → List (TakeProfitLevel × Option Decimal)
    → Decimal
trail side entry snapshot current [] = current
trail side entry snapshot current ((tp, previous) ∷ hits) =
    trail side entry snapshot
      (stop_or current (after_tp side current entry tp snapshot previous).safer_stop) hits

-- However many take profits are hit, in whatever order and with whatever prices, the stop in force
-- at the end is as safe as the stop at the start.
pub trail-AsSafe :
    (side : Side) (entry : Decimal) (snapshot : EffectiveConfigSnapshot) (current : Decimal)
    (hits : List (TakeProfitLevel × Option Decimal))
    → AsSafe side current (trail side entry snapshot current hits)
unfolding trail
trail-AsSafe side entry snapshot current [] = AsSafe-refl side current
trail-AsSafe side entry snapshot current ((tp, previous) ∷ hits) =
    let moved = stop_or current (after_tp side current entry tp snapshot previous).safer_stop in
    AsSafe-trans side current moved _ (after_tp-AsSafe side current entry tp snapshot previous)
      (trail-AsSafe side entry snapshot moved hits)

-- The modes that secure the entry price at the first take profit.
abbrev pub SecuresEntry : SlMode → Type 0
SecuresEntry mode = (mode ≡ SlMode.break_even) ⊎ (mode ≡ SlMode.lock_profit_usdt)

candidate-entry :
    (mode : SlMode) (current entry : Decimal) (previous : Option Decimal)
    → SecuresEntry mode
    → candidate_stop mode current entry previous ≡ entry
unfolding candidate_stop
candidate-entry mode current entry previous h = ground arith

-- Under `break_even` and `lock_profit_usdt` every stop after at least one take profit is as safe as
-- the entry price.
pub trail-entry :
    (side : Side) (entry : Decimal) (snapshot : EffectiveConfigSnapshot) (current : Decimal)
    (hit : TakeProfitLevel × Option Decimal) (hits : List (TakeProfitLevel × Option Decimal))
    → SecuresEntry snapshot.sl_mode
    → AsSafe side entry (trail side entry snapshot current (hit ∷ hits))
unfolding trail
trail-entry side entry snapshot current (tp, previous) hits h =
    rw (after_tp-never_worsen, candidate-entry snapshot.sl_mode current entry previous h)
      (AsSafe-trans side _ _ _ (never_worsen-best side current entry).1
        (trail-AsSafe side entry snapshot _ hits))

-- A position is protected from the start exactly when the signal has a stop, and then by that stop.
pub initial_stop-protected :
    (signal : NormalizedSignal) (snapshot : EffectiveConfigSnapshot) (entry : Option Decimal)
    → let plan = initial_stop signal snapshot entry in
      ((plan.is_protected ≡ true) ↔ (signal.stop_loss ≢ none))
      × (plan.initial_stop ≡ signal.stop_loss)
      × (plan.safer_stop ≡ signal.stop_loss)
unfolding initial_stop
initial_stop-protected signal snapshot entry = ground arith
