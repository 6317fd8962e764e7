-- ===== src/Domain/Models.antt =====
-- domain/models.py, the fields of the models. A UUID and a time (in microseconds) are numbers,
-- `Any` is a tree of JSON, and a model with `frozen=False` is copied where the code writes to it.
use safe_signal_trader_v.Prelude.{ℕ, String, Bool, Option, List}
use safe_signal_trader_v.Prelude.Int.{ℤ}
use safe_signal_trader_v.Decimal.{Decimal}
use safe_signal_trader_v.Domain.Enums.{
  Side, EntryType, JobStatus, TradeStatus, SlMode, LastTpMode, ConflictPolicy,
}

abbrev pub Uuid : Type 0
Uuid = ℕ

abbrev pub Timestamp : Type 0
Timestamp = ℕ

mutual
  pub data Json : Type 0 where
    null : Json
    boolean : Bool → Json
    number : ℤ → Json
    text : String → Json
    array : Elements → Json
    object : Object → Json

  pub data Elements : Type 0 where
    nil : Elements
    cons : Json → Elements → Elements

  pub data Object : Type 0 where
    empty : Object
    member : String → Json → Object → Object

pub record TakeProfitLevel : Type 0 where
  pub index : ℕ
  pub price : Decimal
  pub size_pct : Option Decimal

pub record NormalizedSignal : Type 0 where
  pub signal_id : Uuid
  pub source_id : String
  pub parser_id : String
  pub parser_version : String
  pub symbol : String
  pub side : Side
  pub entry_type : EntryType
  pub entry_price : Option Decimal
  pub stop_loss : Option Decimal
  pub take_profits : List TakeProfitLevel
  pub leverage : Option ℕ
  pub raw_message_id : Option String
  pub raw_hash : Option String
  pub received_at : Timestamp
  pub extra : Object

pub record EffectiveConfigSnapshot : Type 0 where
  pub schema_version : String
  pub snapshot_id : Uuid
  pub source_id : String
  pub account_id : String
  pub profile_id : String
  pub profile_version : String
  pub conflict_policy : ConflictPolicy
  pub max_leverage : ℕ
  pub max_notional_usdt : Option Decimal
  pub max_loss_usdt : Option Decimal
  pub sl_mode : SlMode
  pub last_tp_mode : LastTpMode
  pub allow_partials : Bool
  pub created_at : Timestamp
  pub config_hash : String

pub with_hash : EffectiveConfigSnapshot → String → EffectiveConfigSnapshot
with_hash snapshot h = record snapshot { config_hash = h }

pub record Trade : Type 0 where
  pub trade_id : Uuid
  pub source_id : String
  pub account_id : String
  pub symbol : String
  pub side : Side
  pub status : TradeStatus
  pub signal_id : Option Uuid
  pub snapshot : EffectiveConfigSnapshot
  pub entry_price : Option Decimal
  pub quantity : Option Decimal
  pub stop_loss : Option Decimal
  pub created_at : Timestamp
  pub updated_at : Timestamp

pub record OrderJob : Type 0 where
  pub job_id : Uuid
  pub trade_id : Uuid
  pub job_type : String
  pub status : JobStatus
  pub payload : Object
  pub client_order_id : Option String
  pub attempt : ℕ
  pub max_attempts : ℕ
  pub lease_owner : Option String
  pub lease_until : Option Timestamp
  pub created_at : Timestamp
  pub updated_at : Timestamp
  pub last_error : Option String

pub record ManualReview : Type 0 where
  pub review_id : Uuid
  pub trade_id : Option Uuid
  pub job_id : Option Uuid
  pub reason : String
  pub context : Object
  pub created_at : Timestamp
  pub resolved_at : Option Timestamp
  pub resolution : Option String

pub record SymbolRules : Type 0 where
  pub symbol : String
  pub price_precision : ℕ
  pub quantity_precision : ℕ
  pub min_qty : Decimal
  pub min_notional : Decimal
  pub tick_size : Decimal
  pub step_size : Decimal
