-- ===== src/Profiles/Tests.antt =====
-- The default profiles, and snapshots of one of them. `str` and the digest of these tests are
-- stand-ins that lose nothing that the tests look at.
use mathlib.Core.Option.{some-injective}
use safe_signal_trader_v.Prelude.{
  ℕ, String, eq_iff, ◌==◌, sym, ◌∙◌, true, Option, none, some, ◌≡◌, refl, if◌then◌else◌, ◌↔◌,
}
use safe_signal_trader_v.Decimal.{Decimal}
use safe_signal_trader_v.Domain.Models.{Object, EffectiveConfigSnapshot}
use safe_signal_trader_v.Prelude.Int.{pos_part}
use safe_signal_trader_v.Sources.{SourceConfig}
use safe_signal_trader_v.Domain.Enums.{ConflictPolicy}
use safe_signal_trader_v.Profiles.Snapshot.{ConfigPayload, build_snapshot}
use safe_signal_trader_v.Profiles.Snapshot.Hash.{SameConfig, Distinguishes, config_hash_iff}
use safe_signal_trader_v.Profiles.Model.{TradingProfile}
use safe_signal_trader_v.Profiles.Registry.{
  safe_profile, register, get, build_default_profiles, get-register,
}

abbrev newer : TradingProfile
newer = record (safe_profile "profile_default" "Default Safe Profile" 5 10 100 3 9) {
  version = "1.1.0";
}

get-register_example :
    (get "profile_default" none (register newer (build_default_profiles 1 2)) ≡ some newer)
    × (get "profile_default" (some "1.0.0") (register newer (build_default_profiles 1 2))
        ≡ get "profile_default" (some "1.0.0") (build_default_profiles 1 2))
get-register_example =
    get-register newer "1.0.0" (build_default_profiles 1 2) (λ e. cc ((eq_iff "1.0.0" "").1 e))

abbrev text_of : Decimal → String
text_of d = if pos_part d.coeff == 10 then "10" else "100"

abbrev digest_of : ConfigPayload → String
digest_of p = p.profile_version

abbrev account : SourceConfig
account = record {
  source_id = "src_demo_alpha";
  name = "Demo Structured Channel";
  telegram_chat_id = none;
  telegram_topic_id = none;
  parser_id = "generic_structured";
  parser_version = "1.0.0";
  account_id = "acc_demo_1";
  profile_id = "profile_default";
  conflict_policy = ConflictPolicy.reject_second;
  enabled = true;
  limits = Object.empty;
  created_at = 3;
}

abbrev snapshot : ℕ → ℕ → EffectiveConfigSnapshot
snapshot id now = build_snapshot text_of digest_of account newer "1.0" id now

distinguished : (x : Option Decimal) → Distinguishes text_of digest_of x x
distinguished x a b e f same = some-injective _ _ (sym e ∙ f)

-- built twice, with other ids and at other times
config_hash_iff_example :
    ((snapshot 4 5).config_hash ≡ (snapshot 6 7).config_hash)
    ↔ SameConfig (snapshot 4 5) (snapshot 6 7)
config_hash_iff_example =
    config_hash_iff text_of digest_of account account newer newer "1.0" "1.0" 4 6 5 7
      (distinguished newer.max_notional_usdt) (distinguished (some newer.max_loss_usdt))
      (λ same. refl)
