-- ===== src/Core/Position.antt =====
-- core/position/state_machine.py: the table of transitions of a trade and its lookup.
mod Reach
mod Tests
use Prim.Native.String.{◌++◌ as joined}
use safe_signal_trader_v.Prelude.{String, Bool, true, false, List, [], ◌∷◌, any, if◌then◌else◌}
use safe_signal_trader_v.Outcome.{Result, ok, err, value_error}
use safe_signal_trader_v.Domain.Enums.{TradeStatus}

abbrev pub same_status : TradeStatus → TradeStatus → Bool
same_status TradeStatus.pending_entry TradeStatus.pending_entry = true
same_status TradeStatus.opened TradeStatus.opened = true
same_status TradeStatus.closing TradeStatus.closing = true
same_status TradeStatus.closed TradeStatus.closed = true
same_status TradeStatus.archived TradeStatus.archived = true
same_status TradeStatus.manual_review TradeStatus.manual_review = true
same_status _ _ = false

-- `_TRANSITIONS`
unfoldable pub transitions : TradeStatus → List TradeStatus
transitions TradeStatus.pending_entry =
    TradeStatus.opened ∷ TradeStatus.closed ∷ TradeStatus.manual_review ∷ []
transitions TradeStatus.opened =
    TradeStatus.closing ∷ TradeStatus.closed ∷ TradeStatus.manual_review ∷ []
transitions TradeStatus.closing =
    TradeStatus.closed ∷ TradeStatus.manual_review ∷ TradeStatus.opened ∷ []
transitions TradeStatus.closed = TradeStatus.archived ∷ []
transitions TradeStatus.archived = []
transitions TradeStatus.manual_review =
    TradeStatus.opened ∷ TradeStatus.closed ∷ TradeStatus.archived ∷ []

unfoldable pub can_transition : TradeStatus → TradeStatus → Bool
unfolding transitions
can_transition current target = any (λ s. same_status s target) (transitions current)

-- `TradeStatus` is a `StrEnum`.
unfoldable pub trade_status_value : TradeStatus → String
trade_status_value TradeStatus.pending_entry = "PENDING_ENTRY"
trade_status_value TradeStatus.opened = "OPEN"
trade_status_value TradeStatus.closing = "CLOSING"
trade_status_value TradeStatus.closed = "CLOSED"
trade_status_value TradeStatus.archived = "ARCHIVED"
trade_status_value TradeStatus.manual_review = "MANUAL_REVIEW"

-- the text of the `ValueError`
unfoldable pub illegal : TradeStatus → TradeStatus → String
unfolding trade_status_value
illegal current target =
    joined "illegal transition "
      (joined (trade_status_value current) (joined " → " (trade_status_value target)))

unfoldable pub transition : TradeStatus → TradeStatus → Result TradeStatus
unfolding can_transition
transition current target =
    if can_transition current target then ok target else err (value_error (illegal current target))
