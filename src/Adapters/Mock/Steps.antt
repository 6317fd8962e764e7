-- ===== src/Adapters/Mock/Steps.antt =====
-- The calls that change an exchange, as steps of one machine.
use safe_signal_trader_v.Prelude.{ℕ, String, Option, List, [], ◌∷◌}
use safe_signal_trader_v.Decimal.{Decimal}
use safe_signal_trader_v.Domain.Models.{Timestamp}
use safe_signal_trader_v.Adapters.Mock.State.{Exchange, connect, disconnect}
use safe_signal_trader_v.Adapters.Mock.Market.{set_mark_price}
use safe_signal_trader_v.Adapters.Mock.Orders.{OrderRequest, place_order, cancel_order}
use safe_signal_trader_v.Adapters.Mock.Stops.{
  StopRequest, place_stop, replace_stop, cancel_protection,
}

pub data Call : Type 0 where
  place_call : Timestamp → OrderRequest → Call
  cancel_call : Timestamp → Option ℕ → Option String → Call
  stop_call : Timestamp → StopRequest → Call
  replace_call : Timestamp → String → ℕ → Decimal → Decimal → String → Call
  unprotect_call : Timestamp → String → Option ℕ → Option String → Call
  mark_call : String → Decimal → Call
  connect_call : Call
  disconnect_call : Call

unfoldable pub step : Exchange → Call → Exchange
step x (place_call now r) = (place_order now r x).0
step x (cancel_call now oid client) = (cancel_order now oid client x).0
step x (stop_call now r) = (place_stop now r x).0
step x (replace_call now symbol oid price quantity client) =
    (replace_stop now symbol oid price quantity client x).0
step x (unprotect_call now symbol oid client) = (cancel_protection now symbol oid client x).0
step x (mark_call symbol price) = set_mark_price symbol price x
step x connect_call = connect x
step x disconnect_call = disconnect x

unfoldable pub run : Exchange → List Call → Exchange
run x [] = x
run x (c ∷ cs) = run (step x c) cs
