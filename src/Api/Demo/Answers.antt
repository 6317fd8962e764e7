-- ===== src/Api/Demo/Answers.antt =====
-- api/demo.py: what the answers show. A reason is the constructor that stands for its text, and the
-- signal is shown whole.
use safe_signal_trader_v.Prelude.{ℕ, String, Bool, Option, none, some, List, if◌then◌else◌}
use safe_signal_trader_v.Decimal.{Decimal, nonzero}
use safe_signal_trader_v.Domain.Enums.{JobStatus, EntryType, sl_mode_value, conflict_policy_value}
use safe_signal_trader_v.Domain.Models.{OrderJob, NormalizedSignal}
use safe_signal_trader_v.Core.Conflict.{ConflictAction, ConflictReason}
use safe_signal_trader_v.Core.Entry.{BlockReason}
use safe_signal_trader_v.Core.Protection.{ProtectionReason}
use safe_signal_trader_v.Core.Risk.{RiskReason}
use safe_signal_trader_v.Ingestion.{IngestOutcome, Detail, PipelineOutput}
use safe_signal_trader_v.Api.State.{Library, Analysis}

-- The enums are `StrEnum`s.
unfoldable pub job_status_value : JobStatus → String
job_status_value JobStatus.pending = "PENDING"
job_status_value JobStatus.claimed = "CLAIMED"
job_status_value JobStatus.in_progress = "IN_PROGRESS"
job_status_value JobStatus.completed = "COMPLETED"
job_status_value JobStatus.failed = "FAILED"
job_status_value JobStatus.manual_review = "MANUAL_REVIEW"
job_status_value JobStatus.cancelled = "CANCELLED"

unfoldable pub entry_type_value : EntryType → String
entry_type_value EntryType.market = "MARKET"
entry_type_value EntryType.limit = "LIMIT"

unfoldable pub action_value : ConflictAction → String
action_value ConflictAction.accept = "accept"
action_value ConflictAction.reject = "reject"
action_value ConflictAction.scale_in = "scale_in"
action_value ConflictAction.manual_review = "manual_review"

unfoldable pub outcome_value : IngestOutcome → String
outcome_value IngestOutcome.duplicate = "duplicate"
outcome_value IngestOutcome.source_disabled = "source_disabled"
outcome_value IngestOutcome.source_unknown = "source_unknown"
outcome_value IngestOutcome.parse_skipped = "parse_skipped"
outcome_value IngestOutcome.parse_failed = "parse_failed"
outcome_value IngestOutcome.parsed = "parsed"

-- The answer of /parse.
pub record ParseAnswer : Type 0 where
  pub outcome : String
  pub detail : Option Detail
  pub parser_id : Option String
  pub parser_version : Option String
  pub signal : Option NormalizedSignal

unfoldable pub parse_answer : PipelineOutput → ParseAnswer
parse_answer out = record {
  outcome = outcome_value out.result.outcome;
  detail = out.result.detail;
  parser_id = out.result.parser_id;
  parser_version = out.result.parser_version;
  signal = out.signal;
}

pub record SnapshotView : Type 0 where
  pub profile_id : String
  pub profile_version : String
  pub config_hash : String
  pub max_leverage : ℕ
  pub max_loss_usdt : Option String
  pub sl_mode : String
  pub conflict_policy : String

pub record RiskView : Type 0 where
  pub allowed : Bool
  pub reason : RiskReason
  pub leverage : ℕ
  pub notional_usdt : String
  pub quantity : Option String
  pub max_loss_usdt : Option String

pub record EntryView : Type 0 where
  pub blocked : Bool
  pub block_reason : Option BlockReason
  pub client_order_id : List ℕ
  pub quantity : String
  pub price : Option String
  pub leverage : ℕ
  pub entry_type : String

pub record ProtectionView : Type 0 where
  pub is_protected : Bool
  pub initial_stop : Option String
  pub reason : ProtectionReason

pub record ConflictView : Type 0 where
  pub action : String
  pub reason : ConflictReason

-- The answer of /analyze to a text that is a signal.
pub record AnalysisView : Type 0 where
  pub signal : NormalizedSignal
  pub snapshot : SnapshotView
  pub risk : RiskView
  pub entry : EntryView
  pub protection : ProtectionView
  pub conflict : ConflictView

pub record JobView : Type 0 where
  pub job_id : String
  pub job_type : String
  pub status : String
  pub attempt : ℕ
  pub client_order_id : Option String
  pub lease_owner : Option String
  pub last_error : Option String

module _ (lib : Library) where
  -- `str(x) if x else None`: zero is not shown
  unfoldable pub shown_amount : Option Decimal → Option String
  shown_amount none = none
  shown_amount (some d) = if nonzero d then some (lib.str_decimal d) else none

  -- `str(x) if x is not None else None`
  unfoldable pub shown_quantity : Option Decimal → Option String
  shown_quantity none = none
  shown_quantity (some d) = some (lib.str_decimal d)

  unfoldable pub analysis_view : Analysis → AnalysisView
  analysis_view a = record {
    signal = a.signal;
    snapshot = record {
      profile_id = a.snapshot.profile_id;
      profile_version = a.snapshot.profile_version;
      config_hash = a.snapshot.config_hash;
      max_leverage = a.snapshot.max_leverage;
      max_loss_usdt = shown_amount a.snapshot.max_loss_usdt;
      sl_mode = sl_mode_value a.snapshot.sl_mode;
      conflict_policy = conflict_policy_value a.snapshot.conflict_policy;
    };
    risk = record {
      allowed = a.risk.allowed;
      reason = a.risk.reason;
      leverage = a.risk.leverage;
      notional_usdt = lib.str_decimal a.risk.notional_usdt;
      quantity = shown_quantity a.risk.quantity;
      max_loss_usdt = shown_amount a.risk.max_loss_usdt;
    };
    entry = record {
      blocked = a.entry.blocked;
      block_reason = a.entry.block_reason;
      client_order_id = a.entry.client_order_id;
      quantity = lib.str_decimal a.entry.quantity;
      price = shown_amount a.entry.price;
      leverage = a.entry.leverage;
      entry_type = entry_type_value a.entry.entry_type;
    };
    protection = record {
      is_protected = a.protection.is_protected;
      initial_stop = shown_amount a.protection.initial_stop;
      reason = a.protection.reason;
    };
    conflict = record { action = action_value a.conflict.action; reason = a.conflict.reason };
  }

  -- a job on the page of the queue; an answer to a claim shows it without `last_error`
  unfoldable pub job_view : OrderJob → JobView
  job_view j = record {
    job_id = lib.str_uuid j.job_id;
    job_type = j.job_type;
    status = job_status_value j.status;
    attempt = j.attempt;
    client_order_id = j.client_order_id;
    lease_owner = j.lease_owner;
    last_error = j.last_error;
  }
