-- ===== src/Core/Conflict/Tests.antt =====
-- Signals against open trades.
use safe_signal_trader_v.Prelude.{
  String, none, some, List, [], ◌∷◌, ◌≡◌, ◌≢◌, ◌↔◌, refl, arith, All,
}
use safe_signal_trader_v.Prelude.Int.{ℤ, pos}
use safe_signal_trader_v.Prelude.Dict.{Dict, get}
use safe_signal_trader_v.Domain.Enums.{Side, ConflictPolicy}
use safe_signal_trader_v.Core.Conflict.{
  ConflictAction, ConflictReason, OpenTradeRef, decide, resolve, resolve_among, apply_policy,
  outrank, priority_of,
}
use safe_signal_trader_v.Core.Conflict.Safety.{IsOpposite, resolve-no_IsOpposite}
use safe_signal_trader_v.Core.Conflict.Priority.{Yields, source_priority-accept}
use safe_signal_trader_v.Samples.{long_signal}

abbrev open_trade : String → String → Side → OpenTradeRef
open_trade source symbol side = record {
  trade_id = "t1";
  source_id = source;
  symbol = symbol;
  side = side;
  account_id = "acc_demo_1";
}

abbrev trades : List OpenTradeRef
trades =
    open_trade "src_other" "BTCUSDT" Side.long ∷ open_trade "src_other" "ETHUSDT" Side.short ∷ []

abbrev priorities : Dict String ℤ
priorities = ("src_demo_alpha", pos 2) ∷ ("src_other", pos 1) ∷ []

resolve-higher :
    resolve long_signal ConflictPolicy.source_priority trades (some priorities)
    ≡ decide ConflictAction.accept ConflictReason.higher_source_priority
unfolding resolve resolve_among apply_policy outrank priority_of get
resolve-higher = refl

resolve-opposite :
    resolve long_signal ConflictPolicy.dedicated_account
      (open_trade "src_other" "BTCUSDT" Side.short ∷ trades)
      none
    ≡ decide ConflictAction.reject (ConflictReason.opposite_direction_open "BTCUSDT")
unfolding resolve resolve_among
resolve-opposite = refl

higher_accepted :
    (resolve long_signal ConflictPolicy.source_priority trades (some priorities)).action
    ≡ ConflictAction.accept
higher_accepted = rw resolve-higher refl

not_rejected :
    (resolve long_signal ConflictPolicy.source_priority trades (some priorities)).action
    ≢ ConflictAction.reject
not_rejected = rw resolve-higher (ground arith)

resolve-no_IsOpposite_example : All (λ t. ¬ IsOpposite long_signal t) trades
resolve-no_IsOpposite_example =
    resolve-no_IsOpposite long_signal ConflictPolicy.source_priority trades (some priorities)
      not_rejected

source_priority-accept_example :
    ((resolve long_signal ConflictPolicy.source_priority trades (some priorities)).action
      ≡ ConflictAction.accept)
    ↔ All (λ t. t.symbol ≡ "BTCUSDT" → Yields long_signal (some priorities) t) trades
source_priority-accept_example = source_priority-accept long_signal (some priorities) trades
