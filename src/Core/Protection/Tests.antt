-- ===== src/Core/Protection/Tests.antt =====
-- Stops of a long position that entered at 100.
use safe_signal_trader_v.Prelude.{Option, none, some, List, [], ◌∷◌, ◌≡◌, inl, refl}
use safe_signal_trader_v.Decimal.{Decimal, of_nat, cross}
use safe_signal_trader_v.Domain.Enums.{Side}
use safe_signal_trader_v.Domain.Models.{TakeProfitLevel}
use safe_signal_trader_v.Core.Protection.{after_tp, never_worsen, is_safer, candidate_stop}
use safe_signal_trader_v.Core.Protection.Ratchet.{AsSafe, trail, trail-AsSafe, trail-entry}
use safe_signal_trader_v.Samples.{safe_snapshot, first_tp, second_tp}

abbrev hits : List (TakeProfitLevel × Option Decimal)
hits = (first_tp, none) ∷ (second_tp, some (of_nat 110)) ∷ []

trail-hits : trail Side.long (of_nat 100) safe_snapshot (of_nat 95) hits ≡ of_nat 100
unfolding trail after_tp is_safer candidate_stop cross
trail-hits = refl

-- the new stop would be worse
never_worsen-keeps : never_worsen Side.long (of_nat 95) (of_nat 90) ≡ of_nat 95
unfolding never_worsen is_safer cross
never_worsen-keeps = refl

trail-AsSafe_example :
    AsSafe Side.long (of_nat 95) (trail Side.long (of_nat 100) safe_snapshot (of_nat 95) hits)
trail-AsSafe_example = trail-AsSafe Side.long (of_nat 100) safe_snapshot (of_nat 95) hits

trail-entry_example :
    AsSafe Side.long (of_nat 100) (trail Side.long (of_nat 100) safe_snapshot (of_nat 95) hits)
trail-entry_example =
    trail-entry Side.long (of_nat 100) safe_snapshot (of_nat 95) (first_tp, none)
      ((second_tp, some (of_nat 110)) ∷ []) (inl refl)
