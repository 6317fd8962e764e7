-- ===== src/Profiles/Snapshot/Hash.antt =====
-- What the hash of a snapshot says.
use safe_signal_trader_v.Prelude.{
  String, str_eq, Option, none, some, ◌≡◌, refl, sym, ap, ◌∙◌, if◌then◌else◌, ◌↔◌,
}
use mathlib.Core.Option.{some-injective}
use safe_signal_trader_v.Decimal.{Decimal}
use safe_signal_trader_v.Domain.Enums.{
  ConflictPolicy, SlMode, LastTpMode, conflict_policy_value, sl_mode_value, last_tp_mode_value,
}
use safe_signal_trader_v.Domain.Models.{Uuid, Timestamp, EffectiveConfigSnapshot}
use safe_signal_trader_v.Sources.{SourceConfig}
use safe_signal_trader_v.Profiles.Model.{TradingProfile}
use safe_signal_trader_v.Profiles.Snapshot.{ConfigPayload, dec_str, payload_of, build_snapshot}

-- The enums back from their texts.
sl_mode_of : String → SlMode
sl_mode_of s =
    if str_eq s "none"
    then SlMode.none
    else if str_eq s "break_even"
    then SlMode.break_even
    else if str_eq s "fixed_loss_usdt"
    then SlMode.fixed_loss_usdt
    else if str_eq s "lock_profit_usdt"
    then SlMode.lock_profit_usdt
    else if str_eq s "move_to_previous_tp"
    then SlMode.move_to_previous_tp
    else SlMode.custom

sl_mode_of-value : (m : SlMode) → sl_mode_of (sl_mode_value m) ≡ m
unfolding sl_mode_of sl_mode_value
sl_mode_of-value SlMode.none = refl
sl_mode_of-value _ = refl

last_tp_mode_of : String → LastTpMode
last_tp_mode_of s =
    if str_eq s "trailing"
    then LastTpMode.trailing
    else if str_eq s "take_profit"
    then LastTpMode.take_profit
    else LastTpMode.none

last_tp_mode_of-value : (m : LastTpMode) → last_tp_mode_of (last_tp_mode_value m) ≡ m
unfolding last_tp_mode_of last_tp_mode_value
last_tp_mode_of-value LastTpMode.none = refl
last_tp_mode_of-value _ = refl

conflict_policy_of : String → ConflictPolicy
conflict_policy_of s =
    if str_eq s "reject_second"
    then ConflictPolicy.reject_second
    else if str_eq s "allow_same_direction_scale_in"
    then ConflictPolicy.allow_same_direction_scale_in
    else if str_eq s "dedicated_account"
    then ConflictPolicy.dedicated_account
    else if str_eq s "source_priority"
    then ConflictPolicy.source_priority
    else ConflictPolicy.manual_review

conflict_policy_of-value : (p : ConflictPolicy) → conflict_policy_of (conflict_policy_value p) ≡ p
unfolding conflict_policy_of conflict_policy_value
conflict_policy_of-value ConflictPolicy.reject_second = refl
conflict_policy_of-value _ = refl

conflict_policy_value-eq :
    (a b : ConflictPolicy) → conflict_policy_value a ≡ conflict_policy_value b → a ≡ b
conflict_policy_value-eq a b e =
    sym (conflict_policy_of-value a) ∙ ap conflict_policy_of e ∙ conflict_policy_of-value b

sl_mode_value-eq : (a b : SlMode) → sl_mode_value a ≡ sl_mode_value b → a ≡ b
sl_mode_value-eq a b e = sym (sl_mode_of-value a) ∙ ap sl_mode_of e ∙ sl_mode_of-value b

last_tp_mode_value-eq : (a b : LastTpMode) → last_tp_mode_value a ≡ last_tp_mode_value b → a ≡ b
last_tp_mode_value-eq a b e =
    sym (last_tp_mode_of-value a) ∙ ap last_tp_mode_of e ∙ last_tp_mode_of-value b

-- Two snapshots hold the same configuration.
pub record SameConfig (a b : EffectiveConfigSnapshot) : Type 0 where
  pub schema_version : a.schema_version ≡ b.schema_version
  pub source_id : a.source_id ≡ b.source_id
  pub account_id : a.account_id ≡ b.account_id
  pub profile_id : a.profile_id ≡ b.profile_id
  pub profile_version : a.profile_version ≡ b.profile_version
  pub conflict_policy : a.conflict_policy ≡ b.conflict_policy
  pub max_leverage : a.max_leverage ≡ b.max_leverage
  pub max_notional_usdt : a.max_notional_usdt ≡ b.max_notional_usdt
  pub max_loss_usdt : a.max_loss_usdt ≡ b.max_loss_usdt
  pub sl_mode : a.sl_mode ≡ b.sl_mode
  pub last_tp_mode : a.last_tp_mode ≡ b.last_tp_mode
  pub allow_partials : a.allow_partials ≡ b.allow_partials

module _ (str : Decimal → String) (config_digest : ConfigPayload → String) where
  -- `str` writes the two amounts differently if they differ.
  abbrev pub Distinguishes : Option Decimal → Option Decimal → Type 0
  Distinguishes x y = (a b : Decimal) → x ≡ some a → y ≡ some b → str a ≡ str b → a ≡ b

  dec_str-eq :
      (a b : Option Decimal)
      → Distinguishes a b
      → dec_str str config_digest a ≡ dec_str str config_digest b
      → a ≡ b
  unfolding dec_str
  dec_str-eq none none differ e = refl
  dec_str-eq none (some b) differ e = cc
  dec_str-eq (some a) none differ e = cc
  dec_str-eq (some a) (some b) differ e = ap some (differ a b refl refl (some-injective _ _ e))

  -- The hash shows all of the configuration.
  build_snapshot-SameConfig :
      (source source' : SourceConfig) (profile profile' : TradingProfile)
      (schema_version schema_version' : String) (id id' : Uuid) (now now' : Timestamp)
      → Distinguishes profile.max_notional_usdt profile'.max_notional_usdt
      → Distinguishes (some profile.max_loss_usdt) (some profile'.max_loss_usdt)
      → (config_digest (payload_of str config_digest source profile schema_version)
            ≡ config_digest (payload_of str config_digest source' profile' schema_version')
          → payload_of str config_digest source profile schema_version
            ≡ payload_of str config_digest source' profile' schema_version')
      → (build_snapshot str config_digest source profile schema_version id now).config_hash
        ≡ (build_snapshot str config_digest source' profile' schema_version' id' now').config_hash
      → SameConfig
          (build_snapshot str config_digest source profile schema_version id now)
          (build_snapshot str config_digest source' profile' schema_version' id' now')
  unfolding build_snapshot payload_of
  build_snapshot-SameConfig source source' profile profile' v v' id id' now now' differ differ'
        no_collision e =
      let p = no_collision e in
      record {
        schema_version = ap (λ (c : ConfigPayload). c.schema_version) p;
        source_id = ap (λ (c : ConfigPayload). c.source_id) p;
        account_id = ap (λ (c : ConfigPayload). c.account_id) p;
        profile_id = ap (λ (c : ConfigPayload). c.profile_id) p;
        profile_version = ap (λ (c : ConfigPayload). c.profile_version) p;
        conflict_policy =
            conflict_policy_value-eq _ _ (ap (λ (c : ConfigPayload). c.conflict_policy) p);
        max_leverage = ap (λ (c : ConfigPayload). c.max_leverage) p;
        max_notional_usdt =
            dec_str-eq _ _ differ (ap (λ (c : ConfigPayload). c.max_notional_usdt) p);
        max_loss_usdt = dec_str-eq _ _ differ' (ap (λ (c : ConfigPayload). c.max_loss_usdt) p);
        sl_mode = sl_mode_value-eq _ _ (ap (λ (c : ConfigPayload). c.sl_mode) p);
        last_tp_mode = last_tp_mode_value-eq _ _ (ap (λ (c : ConfigPayload). c.last_tp_mode) p);
        allow_partials = ap (λ (c : ConfigPayload). c.allow_partials) p;
      }

  -- The hash shows nothing but the configuration.
  build_snapshot-config_hash :
      (source source' : SourceConfig) (profile profile' : TradingProfile) (v v' : String)
      (id id' : Uuid) (now now' : Timestamp)
      → SameConfig
          (build_snapshot str config_digest source profile v id now)
          (build_snapshot str config_digest source' profile' v' id' now')
      → (build_snapshot str config_digest source profile v id now).config_hash
        ≡ (build_snapshot str config_digest source' profile' v' id' now').config_hash
  unfolding build_snapshot payload_of dec_str
  build_snapshot-config_hash source source' profile profile' v v' id id' now now' same =
      let e0 = same.schema_version in
      let e1 = same.source_id in
      let e2 = same.account_id in
      let e3 = same.profile_id in
      let e4 = same.profile_version in
      let e5 = same.conflict_policy in
      let e6 = same.max_leverage in
      let e7 = same.max_notional_usdt in
      let e8 = same.max_loss_usdt in
      let e9 = same.sl_mode in
      let e10 = same.last_tp_mode in let e11 = same.allow_partials in ap config_digest cc

  -- Two snapshots have one hash exactly when they hold the same configuration, whatever the new ids
  -- and the times are, if the digest has no collision at these two payloads and `str` writes
  -- different decimals differently.
  pub config_hash_iff :
      (source source' : SourceConfig) (profile profile' : TradingProfile) (v v' : String)
      (id id' : Uuid) (now now' : Timestamp)
      → Distinguishes profile.max_notional_usdt profile'.max_notional_usdt
      → Distinguishes (some profile.max_loss_usdt) (some profile'.max_loss_usdt)
      → (config_digest (payload_of str config_digest source profile v)
            ≡ config_digest (payload_of str config_digest source' profile' v')
          → payload_of str config_digest source profile v
            ≡ payload_of str config_digest source' profile' v')
      → ((build_snapshot str config_digest source profile v id now).config_hash
          ≡ (build_snapshot str config_digest source' profile' v' id' now').config_hash)
        ↔ SameConfig
            (build_snapshot str config_digest source profile v id now)
            (build_snapshot str config_digest source' profile' v' id' now')
  config_hash_iff source source' profile profile' v v' id id' now now' differ differ' no_collision =
      (
        build_snapshot-SameConfig source source' profile profile' v v' id id' now now' differ
            differ' no_collision,
        build_snapshot-config_hash source source' profile profile' v v' id id' now now',
      )
