-- ===== src/Profiles/Snapshot.antt =====
-- profiles/snapshot.py: the configuration of a trade, frozen, with a hash of it.
pub mod Hash
use safe_signal_trader_v.Prelude.{ℕ, String, Bool, Option, none, some}
use safe_signal_trader_v.Decimal.{Decimal}
use safe_signal_trader_v.Domain.Enums.{conflict_policy_value, sl_mode_value, last_tp_mode_value}
use safe_signal_trader_v.Domain.Models.{Uuid, Timestamp, EffectiveConfigSnapshot}
use safe_signal_trader_v.Sources.{SourceConfig}
use safe_signal_trader_v.Profiles.Model.{TradingProfile}

-- The dict `payload`: its keys are known, so it is a record.
pub record ConfigPayload : Type 0 where
  pub schema_version : String
  pub source_id : String
  pub account_id : String
  pub profile_id : String
  pub profile_version : String
  pub conflict_policy : String
  pub max_leverage : ℕ
  pub max_notional_usdt : Option String
  pub max_loss_usdt : Option String
  pub sl_mode : String
  pub last_tp_mode : String
  pub allow_partials : Bool

-- The amounts of a profile are taken to be written without a positive exponent, so that `str` is a
-- function of the model's `Decimal`.
-- `str` of a `Decimal`, and the SHA-256 over sorted JSON of `compute_config_hash`, are the
-- standard library's: arguments.
module _ (str : Decimal → String) (config_digest : ConfigPayload → String) where
  unfoldable pub dec_str : Option Decimal → Option String
  dec_str none = none
  dec_str (some v) = some (str v)

  unfoldable pub payload_of : SourceConfig → TradingProfile → String → ConfigPayload
  unfolding dec_str
  payload_of source profile schema_version = record {
    schema_version = schema_version;
    source_id = source.source_id;
    account_id = source.account_id;
    profile_id = profile.profile_id;
    profile_version = profile.version;
    conflict_policy = conflict_policy_value profile.conflict_policy;
    max_leverage = profile.max_leverage;
    max_notional_usdt = dec_str profile.max_notional_usdt;
    max_loss_usdt = dec_str (some profile.max_loss_usdt);
    sl_mode = sl_mode_value profile.sl_mode;
    last_tp_mode = last_tp_mode_value profile.last_tp_mode;
    allow_partials = profile.allow_partials;
  }

  -- with the new `uuid4()` and the time of the call
  unfoldable pub build_snapshot :
      SourceConfig → TradingProfile → String → Uuid → Timestamp → EffectiveConfigSnapshot
  unfolding payload_of
  build_snapshot source profile schema_version id now = record {
    schema_version = schema_version;
    snapshot_id = id;
    source_id = source.source_id;
    account_id = source.account_id;
    profile_id = profile.profile_id;
    profile_version = profile.version;
    conflict_policy = profile.conflict_policy;
    max_leverage = profile.max_leverage;
    max_notional_usdt = profile.max_notional_usdt;
    max_loss_usdt = some profile.max_loss_usdt;
    sl_mode = profile.sl_mode;
    last_tp_mode = profile.last_tp_mode;
    allow_partials = profile.allow_partials;
    created_at = now;
    config_hash = config_digest (payload_of source profile schema_version);
  }
