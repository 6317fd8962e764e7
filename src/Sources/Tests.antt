-- ===== src/Sources/Tests.antt =====
-- Switching the example source off and on.
use safe_signal_trader_v.Prelude.{true, false, none, some, ◌≡◌, refl}
use safe_signal_trader_v.Prelude.Dict
use safe_signal_trader_v.Domain.Enums.{ConflictPolicy}
use safe_signal_trader_v.Domain.Models.{Object}
use safe_signal_trader_v.Sources.{
  SourceConfig, get, get_enabled, disable, enable, build_example_registry,
}
use safe_signal_trader_v.Sources.Registry.{disable-enable}

abbrev demo_source : SourceConfig
demo_source = record {
  source_id = "src_demo_alpha";
  name = "Demo Structured Channel";
  telegram_chat_id = none;
  telegram_topic_id = none;
  parser_id = "generic_structured";
  parser_version = "1.0.0";
  account_id = "acc_demo_1";
  profile_id = "profile_default";
  conflict_policy = ConflictPolicy.reject_second;
  enabled = true;
  limits = Object.empty;
  created_at = 3;
}

example_source : get "src_demo_alpha" (build_example_registry 3) ≡ some demo_source
unfolding get build_example_registry Dict.get Dict.put
example_source = refl

disable-enable_example :
    let (done, off) = disable "src_demo_alpha" (build_example_registry 3) in
    (done ≡ true)
    × (get "src_demo_alpha" off ≡ some (record demo_source { enabled = false }))
    × (get_enabled "src_demo_alpha" off ≡ none)
    × (get "src_demo_alpha" (enable "src_demo_alpha" off).1
        ≡ some (record demo_source { enabled = true }))
disable-enable_example =
    disable-enable "src_demo_alpha" "src_demo_alpha" (build_example_registry 3) demo_source
      example_source
