-- ===== src/Api/State.antt =====
-- api/demo.py: the globals of the module, the bodies of its requests, and its answers.
use safe_signal_trader_v.Prelude.{ℕ, String, Bool, ◌&&◌, Option, [], leb, length}
use safe_signal_trader_v.Prelude.Int.{ℤ}
use safe_signal_trader_v.Decimal.{Decimal}
use safe_signal_trader_v.Outcome.{Failure}
use safe_signal_trader_v.Domain.Models.{Uuid, Timestamp, NormalizedSignal, EffectiveConfigSnapshot}
use safe_signal_trader_v.Core.Conflict.{ConflictDecision}
use safe_signal_trader_v.Core.Entry.{EntryPlan}
use safe_signal_trader_v.Core.Protection.{ProtectionPlan}
use safe_signal_trader_v.Core.Risk.{RiskDecision}
use safe_signal_trader_v.Ingestion.{IngestOutcome, Detail}
use safe_signal_trader_v.Parsers.Text.{chars}
use safe_signal_trader_v.Profiles.Registry.{ProfileRegistry, build_default_profiles}
use safe_signal_trader_v.Profiles.Snapshot.{ConfigPayload}
use safe_signal_trader_v.Queue.{Queue}
use safe_signal_trader_v.Sources.{SourceRegistry, build_example_registry}

-- What the standard library computes: `str` of a decimal, of a number and of a UUID, the digests,
-- `UUID` of a text, which refuses some, and the first ten digits of a UUID.
pub record Library : Type 0 where
  pub str_decimal : Decimal → String
  pub str_int : ℕ → String
  pub str_uuid : Uuid → String
  pub config_digest : ConfigPayload → String
  pub text_hash : String → String
  pub uuid_of : String → Option Uuid
  pub short_hex : Uuid → String

-- What one request reads from its surroundings: the clock and new UUIDs.
pub record Reads : Type 0 where
  pub received_at : Timestamp
  pub signal_id : Uuid
  pub signal_at : Timestamp
  pub snapshot_id : Uuid
  pub snapshot_at : Timestamp
  pub trade_id : Uuid

-- The globals that the endpoints use.
pub record DemoState : Type 0 where
  pub sources : SourceRegistry
  pub profiles : ProfileRegistry
  pub queue : Queue
  pub msg_counter : ℕ

unfoldable pub started : Timestamp → Timestamp → Timestamp → DemoState
started t1 t2 t3 = record {
  sources = build_example_registry t1;
  profiles = build_default_profiles t2 t3;
  queue = [];
  msg_counter = 0;
}

-- A request is refused for its body (422) or by the endpoint, ends in an exception (500), or is
-- answered.
pub data Response {ℓ} (A : Type ℓ) : Type ℓ where
  unprocessable : Response A
  http_error : ℕ → String → Response A
  server_error : Failure → Response A
  answered : A → Response A

pub record ParseRequest : Type 0 where
  pub text : String
  pub source_id : String

pub record RiskRequest : Type 0 where
  pub text : String
  pub source_id : String
  pub profile_id : String
  pub mark_price : Option Decimal
  pub open_positions : ℤ

pub record Analysis : Type 0 where
  pub signal : NormalizedSignal
  pub snapshot : EffectiveConfigSnapshot
  pub risk : RiskDecision
  pub entry : EntryPlan
  pub protection : ProtectionPlan
  pub conflict : ConflictDecision

pub data Analyzed : Type 0 where
  not_parsed : IngestOutcome → Option Detail → Analyzed
  analysis : Analysis → Analyzed

-- `Field(min_length=low, max_length=high)`
abbrev pub length_within : ℕ → ℕ → String → Bool
length_within low high s = leb low (length (chars s)) && leb (length (chars s)) high
