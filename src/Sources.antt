-- ===== src/Sources.antt =====
-- sources/models.py and sources/registry.py: the signal sources, by id.
mod Tests
pub mod Registry
use safe_signal_trader_v.Prelude.{
  ℕ, String, Bool, true, false, Option, none, some, List, [], ◌∷◌, if◌then◌else◌, select,
}
use safe_signal_trader_v.Prelude.Int.{ℤ}
use safe_signal_trader_v.Prelude.Eq.{string_eq}
use safe_signal_trader_v.Prelude.Dict
use safe_signal_trader_v.Prelude.Dict.{Dict, values}
use safe_signal_trader_v.Domain.Enums.{ConflictPolicy}
use safe_signal_trader_v.Domain.Models.{Timestamp, Object}

pub record SourceConfig : Type 0 where
  pub source_id : String
  pub name : String
  pub telegram_chat_id : Option String
  pub telegram_topic_id : Option ℤ
  pub parser_id : String
  pub parser_version : String
  pub account_id : String
  pub profile_id : String
  pub conflict_policy : ConflictPolicy
  pub enabled : Bool
  pub limits : Object
  pub created_at : Timestamp

-- `_sources`
abbrev pub SourceRegistry : Type 0
SourceRegistry = Dict String SourceConfig

unfoldable pub register : SourceConfig → SourceRegistry → SourceRegistry
register source reg = Dict.put source.source_id source reg

unfoldable pub get : String → SourceRegistry → Option SourceConfig
get source_id reg = Dict.get source_id reg

abbrev pub if_enabled : Option SourceConfig → Option SourceConfig
if_enabled none = none
if_enabled (some src) = if src.enabled then some src else none

unfoldable pub get_enabled : String → SourceRegistry → Option SourceConfig
get_enabled source_id reg = if_enabled (Dict.get source_id reg)

unfoldable pub list_all : SourceRegistry → List SourceConfig
list_all reg = values reg

unfoldable pub list_enabled : SourceRegistry → List SourceConfig
list_enabled reg = select (λ (s : SourceConfig). s.enabled) (values reg)

-- `disable` and `enable`: a frozen source is replaced by a copy
unfoldable pub set_enabled : Bool → String → SourceRegistry → Bool × SourceRegistry
set_enabled flag source_id reg = elim (Dict.get source_id reg) [
  | none ↦ (false, reg)
  | some src ↦ (true, Dict.put source_id (record src { enabled = flag }) reg)
]

unfoldable pub disable : String → SourceRegistry → Bool × SourceRegistry
disable source_id reg = set_enabled false source_id reg

unfoldable pub enable : String → SourceRegistry → Bool × SourceRegistry
enable source_id reg = set_enabled true source_id reg

-- `build_example_registry`, at the time of the call
unfoldable pub build_example_registry : Timestamp → SourceRegistry
unfolding register
build_example_registry now =
    register
      (record {
        source_id = "src_demo_alpha";
        name = "Demo Structured Channel";
        telegram_chat_id = none;
        telegram_topic_id = none;
        parser_id = "generic_structured";
        parser_version = "1.0.0";
        account_id = "acc_demo_1";
        profile_id = "profile_default";
        conflict_policy = ConflictPolicy.reject_second;
        enabled = true;
        limits = Object.empty;
        created_at = now;
      })
      []
