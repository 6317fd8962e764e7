-- ===== src/Queue/Steps.antt =====
-- The calls that change a queue, as steps of one machine.
use safe_signal_trader_v.Prelude.{ℕ, String, List, [], ◌∷◌}
use safe_signal_trader_v.Domain.Models.{Uuid, Timestamp}
use safe_signal_trader_v.Queue.{
  Queue, Request, enqueue, claim, heartbeat, complete, fail, mark_manual_review, recover_expired,
}

-- A call with all that it is given and all that it reads: new ids and the clock.
pub data Call : Type 0 where
  enqueue_call : Uuid → Timestamp → Timestamp → Request → Call
  claim_call : String → ℕ → Timestamp → Call
  heartbeat_call : Uuid → String → ℕ → Timestamp → Timestamp → Call
  complete_call : Uuid → String → Timestamp → Call
  fail_call : Uuid → String → String → Timestamp → Call
  review_call : Uuid → String → String → Timestamp → Call
  recover_call : Timestamp → Call

unfoldable pub step : Queue → Call → Queue
step q (enqueue_call id created updated r) = (enqueue id created updated r q).1
step q (claim_call owner seconds now) = (claim owner seconds now q).1
step q (heartbeat_call id owner seconds now now') = (heartbeat id owner seconds now now' q).1
step q (complete_call id owner now) = (complete id owner now q).1
step q (fail_call id owner error now) = (fail id owner error now q).1
step q (review_call id owner reason now) = (mark_manual_review id owner reason now q).1
step q (recover_call now) = (recover_expired now q).1

unfoldable pub run : Queue → List Call → Queue
run q [] = q
run q (c ∷ cs) = run (step q c) cs
