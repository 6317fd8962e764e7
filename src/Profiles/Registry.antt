-- ===== src/Profiles/Registry.antt =====
-- profiles/registry.py: profiles by id, and by id and version.
use safe_signal_trader_v.Prelude.{
  ℕ, String, str_eq, true, false, Option, none, some, List, map, [], ◌≡◌, ◌≢◌, if◌then◌else◌,
}
use safe_signal_trader_v.Prelude.Dict.{Dict, values}
use safe_signal_trader_v.Prelude.Sorted.{sorted_set}
use safe_signal_trader_v.Decimal.{of_nat, of_digits}
use safe_signal_trader_v.Domain.Enums.{ConflictPolicy, SlMode, LastTpMode}
use safe_signal_trader_v.Domain.Models.{Timestamp, Object}
use safe_signal_trader_v.Versioned
use safe_signal_trader_v.Versioned.{find-register}
use safe_signal_trader_v.Profiles.Model.{TradingProfile}

-- `_profiles`
abbrev pub ProfileRegistry : Type 0
ProfileRegistry = Dict String TradingProfile

unfoldable pub register : TradingProfile → ProfileRegistry → ProfileRegistry
register profile reg = Versioned.register profile.profile_id profile.version profile reg

unfoldable pub get : String → Option String → ProfileRegistry → Option TradingProfile
get profile_id version reg = Versioned.find profile_id version reg

unfoldable pub list_ids : ProfileRegistry → List String
list_ids reg = sorted_set (map (λ (p : TradingProfile). p.profile_id) (values reg))

-- `TradingProfile(…)` with the defaults that `build_default_profiles` leaves alone
abbrev pub safe_profile : String → String → ℕ → ℕ → ℕ → ℕ → Timestamp → TradingProfile
safe_profile id name leverage loss notional positions now = record {
  profile_id = id;
  version = "1.0.0";
  name = name;
  max_leverage = leverage;
  max_notional_usdt = some (of_nat notional);
  max_loss_usdt = of_nat loss;
  fixed_margin_usdt = none;
  fixed_notional_usdt = none;
  conflict_policy = ConflictPolicy.reject_second;
  sl_mode = SlMode.break_even;
  last_tp_mode = LastTpMode.trailing;
  allow_partials = false;
  max_open_positions = positions;
  max_legs_per_trade = 3;
  entry_tolerance_pct = of_digits 5 1;
  late_entry_block = true;
  extra = Object.empty;
  created_at = now;
}

-- the two profiles are created one after the other, each at its own time
unfoldable pub build_default_profiles : Timestamp → Timestamp → ProfileRegistry
unfolding register
build_default_profiles now now' =
    register (safe_profile "profile_conservative" "Conservative" 5 5 50 2 now')
      (register (safe_profile "profile_default" "Default Safe Profile" 10 10 100 3 now) [])

-- A registered profile is the one that its id alone finds, and the one that its id and version find,
-- while every other version of the id stays what it was. The version that is asked for is not empty:
-- an empty one asks for the latest.
pub get-register :
    (profile : TradingProfile) (version : String) (reg : ProfileRegistry)
    → version ≢ ""
    → (get profile.profile_id none (register profile reg) ≡ some profile)
      × (get profile.profile_id (some version) (register profile reg) ≡ (
          if str_eq profile.version version
          then some profile
          else get profile.profile_id (some version) reg))
unfolding get register
get-register profile version reg nonempty =
    find-register profile.profile_id profile.version version profile reg nonempty
