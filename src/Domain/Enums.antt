-- ===== src/Domain/Enums.antt =====
-- domain/enums.py. A `StrEnum` is a data type; `value` functions stand where the text is used.
-- `TradeStatus.OPEN` is `opened`, since `open` is a reserved word.
use safe_signal_trader_v.Prelude.{Bool, true, false, String}

pub data Side : Type 0 where
  long short : Side

pub data OrderSide : Type 0 where
  buy sell : OrderSide

pub data EntryType : Type 0 where
  market limit : EntryType

pub data JobStatus : Type 0 where
  pending claimed in_progress completed failed manual_review cancelled : JobStatus

pub data TradeStatus : Type 0 where
  pending_entry opened closing closed archived manual_review : TradeStatus

pub data SlMode : Type 0 where
  none break_even fixed_loss_usdt lock_profit_usdt move_to_previous_tp custom : SlMode

pub data LastTpMode : Type 0 where
  trailing take_profit none : LastTpMode

pub data ConflictPolicy : Type 0 where
  reject_second allow_same_direction_scale_in dedicated_account source_priority : ConflictPolicy
  manual_review : ConflictPolicy

pub data AppEnv : Type 0 where
  unit integration testnet_demo live : AppEnv

abbrev pub same_side : Side → Side → Bool
same_side Side.long Side.long = true
same_side Side.short Side.short = true
same_side _ _ = false

abbrev pub is_limit : EntryType → Bool
is_limit EntryType.limit = true
is_limit EntryType.market = false

abbrev pub same_job_status : JobStatus → JobStatus → Bool
same_job_status JobStatus.pending JobStatus.pending = true
same_job_status JobStatus.claimed JobStatus.claimed = true
same_job_status JobStatus.in_progress JobStatus.in_progress = true
same_job_status JobStatus.completed JobStatus.completed = true
same_job_status JobStatus.failed JobStatus.failed = true
same_job_status JobStatus.manual_review JobStatus.manual_review = true
same_job_status JobStatus.cancelled JobStatus.cancelled = true
same_job_status _ _ = false

unfoldable pub sl_mode_value : SlMode → String
sl_mode_value SlMode.none = "none"
sl_mode_value SlMode.break_even = "break_even"
sl_mode_value SlMode.fixed_loss_usdt = "fixed_loss_usdt"
sl_mode_value SlMode.lock_profit_usdt = "lock_profit_usdt"
sl_mode_value SlMode.move_to_previous_tp = "move_to_previous_tp"
sl_mode_value SlMode.custom = "custom"

unfoldable pub last_tp_mode_value : LastTpMode → String
last_tp_mode_value LastTpMode.trailing = "trailing"
last_tp_mode_value LastTpMode.take_profit = "take_profit"
last_tp_mode_value LastTpMode.none = "none"

unfoldable pub conflict_policy_value : ConflictPolicy → String
conflict_policy_value ConflictPolicy.reject_second = "reject_second"
conflict_policy_value ConflictPolicy.allow_same_direction_scale_in = "allow_same_direction_scale_in"
conflict_policy_value ConflictPolicy.dedicated_account = "dedicated_account"
conflict_policy_value ConflictPolicy.source_priority = "source_priority"
conflict_policy_value ConflictPolicy.manual_review = "manual_review"
