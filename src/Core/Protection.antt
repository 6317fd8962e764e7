-- ===== src/Core/Protection.antt =====
-- core/protection/planner.py: the first stop of a position and how it moves after a take profit.
mod Tests
pub mod Ratchet
use safe_signal_trader_v.Prelude.{Bool, true, false, Option, none, some, if◌then◌else◌}
use safe_signal_trader_v.Decimal.{Decimal, at_most}
use safe_signal_trader_v.Domain.Enums.{Side, SlMode}
use safe_signal_trader_v.Domain.Models.{TakeProfitLevel, NormalizedSignal, EffectiveConfigSnapshot}

-- The texts of the reasons; the f-string keeps its argument.
pub data ProtectionReason : Type 0 where
  sl_mode_none missing_stop_loss signal_sl : ProtectionReason
  after_tp_mode : SlMode → ProtectionReason

pub record ProtectionPlan : Type 0 where
  pub initial_stop : Option Decimal
  pub safer_stop : Option Decimal
  pub reason : ProtectionReason
  pub is_protected : Bool

-- `_is_safer`
unfoldable pub is_safer : Side → Decimal → Decimal → Bool
is_safer Side.long current candidate = at_most current candidate
is_safer Side.short current candidate = at_most candidate current

abbrev pub is_mode_none : SlMode → Bool
is_mode_none SlMode.none = true
is_mode_none _ = false

stop_plan : Option Decimal → SlMode → ProtectionPlan
stop_plan none mode = record {
  initial_stop = none;
  safer_stop = none;
  reason =
      if is_mode_none mode
      then ProtectionReason.sl_mode_none
      else ProtectionReason.missing_stop_loss;
  is_protected = false;
}
stop_plan (some sl) mode = record {
  initial_stop = some sl;
  safer_stop = some sl;
  reason = ProtectionReason.signal_sl;
  is_protected = true;
}

-- `ProtectionPlanner.initial_stop`; the argument `entry_price` is not read
unfoldable pub initial_stop :
    NormalizedSignal → EffectiveConfigSnapshot → Option Decimal → ProtectionPlan
unfolding stop_plan
initial_stop signal snapshot entry_price = stop_plan signal.stop_loss snapshot.sl_mode

-- the stop that the mode asks for
unfoldable pub candidate_stop : SlMode → Decimal → Decimal → Option Decimal → Decimal
candidate_stop SlMode.break_even current_stop entry_price previous = entry_price
candidate_stop SlMode.move_to_previous_tp current_stop entry_price none = current_stop
candidate_stop SlMode.move_to_previous_tp current_stop entry_price (some p) = p
candidate_stop SlMode.lock_profit_usdt current_stop entry_price previous = entry_price
candidate_stop _ current_stop entry_price previous = current_stop

unfoldable pub after_tp :
    Side
    → Decimal
    → Decimal
    → TakeProfitLevel
    → EffectiveConfigSnapshot
    → Option Decimal
    → ProtectionPlan
unfolding candidate_stop is_safer
after_tp side current_stop entry_price hit_tp snapshot previous_tp_price =
    let mode = snapshot.sl_mode in
    let candidate = candidate_stop mode current_stop entry_price previous_tp_price in
    record {
      initial_stop = some current_stop;
      safer_stop = some (if is_safer side current_stop candidate then candidate else current_stop);
      reason = ProtectionReason.after_tp_mode mode;
      is_protected = true;
    }

unfoldable pub never_worsen : Side → Decimal → Decimal → Decimal
unfolding is_safer
never_worsen side current proposed = if is_safer side current proposed then proposed else current
