-- ===== src/Core/Position/Tests.antt =====
-- Examples of chains of transitions.
use safe_signal_trader_v.Prelude.{refl, ◌≢◌, inl}
use safe_signal_trader_v.Outcome.{ok}
use safe_signal_trader_v.Domain.Enums.{TradeStatus}
use safe_signal_trader_v.Core.Position.{transition}
use safe_signal_trader_v.Core.Position.Reach.{
  Reaches, here, next, IsSettled, Reaches-IsSettled, archived_is_the_end,
}

archiving : Reaches TradeStatus.closed TradeStatus.archived
unfolding transition
archiving = next TradeStatus.archived here refl

Reaches-IsSettled_example : IsSettled TradeStatus.archived
Reaches-IsSettled_example =
    Reaches-IsSettled TradeStatus.closed TradeStatus.archived (inl refl) archiving

archived_is_the_end_example :
    Reaches TradeStatus.manual_review TradeStatus.archived
    × ((u v : TradeStatus) → transition TradeStatus.archived u ≢ ok v)
archived_is_the_end_example = archived_is_the_end TradeStatus.manual_review
