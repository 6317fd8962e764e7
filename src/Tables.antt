-- ===== src/Tables.antt =====
-- infrastructure/db/models.py: the tables. A column takes `NULL` where its annotation allows `None`.
pub mod Widths
use safe_signal_trader_v.Prelude.{ℕ, String, Bool, true, false, List, [], ◌∷◌}

pub data ColumnType : Type 0 where
  varchar : ℕ → ColumnType
  integer boolean uuid jsonb date_time long_text : ColumnType
  numeric : ℕ → ℕ → ColumnType

pub data Default : Type 0 where
  no_default new_uuid empty_dict server_now : Default
  text_default : String → Default
  number_default : ℕ → Default
  flag : Bool → Default

pub record Column : Type 0 where
  pub name : String
  pub type : ColumnType
  pub default : Default
  pub nullable : Bool
  pub primary_key : Bool
  pub unique : Bool
  pub indexed : Bool
  pub on_update_now : Bool

-- `UniqueConstraint`s and `Index`es of `__table_args__` are the lists of their columns.
pub record Table : Type 0 where
  pub name : String
  pub columns : List Column
  pub unique_together : List (List String)
  pub indexes : List (List String)

-- `mapped_column(type, default=…)` with nothing else
abbrev column : String → ColumnType → Default → Column
column name type default = record {
  name = name;
  type = type;
  default = default;
  nullable = false;
  primary_key = false;
  unique = false;
  indexed = false;
  on_update_now = false;
}

-- `SignalSourceORM`
unfoldable pub signal_source_table : Table
signal_source_table = record {
  name = "signal_sources";
  columns =
      (record (column "id" (varchar 64) no_default) { primary_key = true })
      ∷ (column "name" (varchar 128) no_default)
      ∷ (record (column "telegram_chat_id" (varchar 64) no_default) { nullable = true })
      ∷ (record (column "telegram_topic_id" integer no_default) { nullable = true })
      ∷ (column "parser_id" (varchar 64) no_default)
      ∷ (column "parser_version" (varchar 32) (text_default "1.0.0"))
      ∷ (column "account_id" (varchar 64) no_default)
      ∷ (column "profile_id" (varchar 64) no_default)
      ∷ (column "conflict_policy" (varchar 64) (text_default "reject_second"))
      ∷ (column "enabled" boolean (flag true))
      ∷ (column "limits" jsonb empty_dict)
      ∷ (column "created_at" date_time server_now)
      ∷ (record (column "updated_at" date_time server_now) { on_update_now = true })
      ∷ [];
  unique_together = [];
  indexes = [];
}

-- `SignalMessageORM`
unfoldable pub signal_message_table : Table
signal_message_table = record {
  name = "signal_messages";
  columns =
      (record (column "id" uuid new_uuid) { primary_key = true })
      ∷ (record (column "source_id" (varchar 64) no_default) { indexed = true })
      ∷ (column "message_id" (varchar 64) no_default)
      ∷ (column "raw_hash" (varchar 64) no_default)
      ∷ (record (column "raw_text" long_text no_default) { nullable = true })
      ∷ (column "received_at" date_time server_now)
      ∷ (column "is_edit" boolean (flag false))
      ∷ (column "meta" jsonb empty_dict)
      ∷ [];
  unique_together = ("source_id" ∷ "message_id" ∷ []) ∷ [];
  indexes = ("raw_hash" ∷ []) ∷ [];
}

-- `ParsedSignalORM`
unfoldable pub parsed_signal_table : Table
parsed_signal_table = record {
  name = "parsed_signals";
  columns =
      (record (column "id" uuid new_uuid) { primary_key = true })
      ∷ (record (column "source_id" (varchar 64) no_default) { indexed = true })
      ∷ (record (column "message_id" uuid no_default) { nullable = true })
      ∷ (column "parser_id" (varchar 64) no_default)
      ∷ (column "parser_version" (varchar 32) no_default)
      ∷ (record (column "symbol" (varchar 32) no_default) { indexed = true })
      ∷ (column "side" (varchar 8) no_default)
      ∷ (column "payload" jsonb no_default)
      ∷ (record (column "signal_hash" (varchar 64) no_default) { indexed = true })
      ∷ (column "created_at" date_time server_now)
      ∷ [];
  unique_together = [];
  indexes = [];
}

-- `ExchangeAccountORM`
unfoldable pub exchange_account_table : Table
exchange_account_table = record {
  name = "exchange_accounts";
  columns =
      (record (column "id" (varchar 64) no_default) { primary_key = true })
      ∷ (column "exchange_id" (varchar 32) no_default)
      ∷ (column "label" (varchar 128) no_default)
      ∷ (column "credential_ref" (varchar 128) no_default)
      ∷ (column "is_testnet" boolean (flag true))
      ∷ (column "enabled" boolean (flag true))
      ∷ (column "created_at" date_time server_now)
      ∷ [];
  unique_together = [];
  indexes = [];
}

-- `ProfileORM`
unfoldable pub profile_table : Table
profile_table = record {
  name = "profiles";
  columns =
      (record (column "id" uuid new_uuid) { primary_key = true })
      ∷ (column "profile_id" (varchar 64) no_default)
      ∷ (column "version" (varchar 32) no_default)
      ∷ (column "name" (varchar 128) no_default)
      ∷ (column "config" jsonb no_default)
      ∷ (column "created_at" date_time server_now)
      ∷ [];
  unique_together = ("profile_id" ∷ "version" ∷ []) ∷ [];
  indexes = [];
}

-- `EffectiveConfigSnapshotORM`
unfoldable pub effective_config_snapshot_table : Table
effective_config_snapshot_table = record {
  name = "effective_config_snapshots";
  columns =
      (record (column "id" uuid new_uuid) { primary_key = true })
      ∷ (column "schema_version" (varchar 16) (text_default "1.0.0"))
      ∷ (column "source_id" (varchar 64) no_default)
      ∷ (column "account_id" (varchar 64) no_default)
      ∷ (column "profile_id" (varchar 64) no_default)
      ∷ (column "profile_version" (varchar 32) no_default)
      ∷ (record (column "config_hash" (varchar 64) no_default) { indexed = true })
      ∷ (column "snapshot" jsonb no_default)
      ∷ (column "created_at" date_time server_now)
      ∷ [];
  unique_together = [];
  indexes = [];
}

-- `TradeORM`
unfoldable pub trade_table : Table
trade_table = record {
  name = "trades";
  columns =
      (record (column "id" uuid new_uuid) { primary_key = true })
      ∷ (record (column "source_id" (varchar 64) no_default) { indexed = true })
      ∷ (record (column "account_id" (varchar 64) no_default) { indexed = true })
      ∷ (record (column "symbol" (varchar 32) no_default) { indexed = true })
      ∷ (column "side" (varchar 8) no_default)
      ∷ (record (column "status" (varchar 32) (text_default "PENDING_ENTRY")) { indexed = true })
      ∷ (record (column "signal_id" uuid no_default) { nullable = true })
      ∷ (column "snapshot_id" uuid no_default)
      ∷ (record (column "entry_price" (numeric 24 8) no_default) { nullable = true })
      ∷ (record (column "quantity" (numeric 24 8) no_default) { nullable = true })
      ∷ (record (column "stop_loss" (numeric 24 8) no_default) { nullable = true })
      ∷ (column "meta" jsonb empty_dict)
      ∷ (column "created_at" date_time server_now)
      ∷ (record (column "updated_at" date_time server_now) { on_update_now = true })
      ∷ [];
  unique_together = [];
  indexes = [];
}

-- `OrderJobORM`
unfoldable pub order_job_table : Table
order_job_table = record {
  name = "order_jobs";
  columns =
      (record (column "id" uuid new_uuid) { primary_key = true })
      ∷ (column "trade_id" uuid no_default)
      ∷ (column "job_type" (varchar 64) no_default)
      ∷ (record (column "status" (varchar 32) (text_default "PENDING")) { indexed = true })
      ∷ (column "payload" jsonb empty_dict)
      ∷ (record (column "client_order_id" (varchar 64) no_default) {
        nullable = true;
        unique = true;
      })
      ∷ (column "attempt" integer (number_default 0))
      ∷ (column "max_attempts" integer (number_default 5))
      ∷ (record (column "lease_owner" (varchar 64) no_default) { nullable = true })
      ∷ (record (column "lease_until" date_time no_default) { nullable = true })
      ∷ (record (column "last_error" long_text no_default) { nullable = true })
      ∷ (column "created_at" date_time server_now)
      ∷ (record (column "updated_at" date_time server_now) { on_update_now = true })
      ∷ [];
  unique_together = [];
  indexes = ("status" ∷ "lease_until" ∷ []) ∷ ("trade_id" ∷ []) ∷ [];
}

-- `ManualReviewORM`
unfoldable pub manual_review_table : Table
manual_review_table = record {
  name = "manual_reviews";
  columns =
      (record (column "id" uuid new_uuid) { primary_key = true })
      ∷ (record (column "trade_id" uuid no_default) { nullable = true; indexed = true })
      ∷ (record (column "job_id" uuid no_default) { nullable = true })
      ∷ (column "reason" long_text no_default)
      ∷ (column "context" jsonb empty_dict)
      ∷ (column "created_at" date_time server_now)
      ∷ (record (column "resolved_at" date_time no_default) { nullable = true })
      ∷ (record (column "resolution" long_text no_default) { nullable = true })
      ∷ [];
  unique_together = [];
  indexes = [];
}
