-- ===== src/Logging/Tests.antt =====
-- Two events of one context.
use safe_signal_trader_v.Prelude.{[], ◌≡◌, refl}
use safe_signal_trader_v.Prelude.Eq.{string_eq}
use safe_signal_trader_v.Prelude.Dict
use safe_signal_trader_v.Logging.{get_correlation_id, add_correlation}

-- the second event shows the id that was made for the first
kept_id :
    let (first, var) = add_correlation "u1" [] "" in
    let (second, var') = add_correlation "u2" [] var in (first ≡ second) × (var' ≡ "u1")
unfolding add_correlation get_correlation_id Dict.put
kept_id = (refl, refl)
