-- ===== src/Core/Conflict.antt =====
-- core/conflict/resolver.py: what to do with a signal, given the trades that are open.
mod Tests
pub mod Safety
pub mod Priority
use safe_signal_trader_v.Prelude.{
  String, str_eq, Bool, true, false, not, Option, none, some, List, [], ◌∷◌, if◌then◌else◌, select,
}
use safe_signal_trader_v.Prelude.Int.{ℤ, pos, leb_ℤ}
use safe_signal_trader_v.Prelude.Dict
use safe_signal_trader_v.Prelude.Eq.{string_eq}
use safe_signal_trader_v.Prelude.Dict.{Dict}
use safe_signal_trader_v.Domain.Enums.{Side, ConflictPolicy, same_side}
use safe_signal_trader_v.Domain.Models.{NormalizedSignal}

pub data ConflictAction : Type 0 where
  accept reject scale_in manual_review : ConflictAction

-- The texts of the reasons; an f-string keeps its argument.
pub data ConflictReason : Type 0 where
  no_conflict : ConflictReason
  opposite_direction_open : String → ConflictReason
  no_same_direction_conflict : ConflictReason
  reject_second_policy : ConflictReason
  scale_in_allowed : ConflictReason
  dedicated_account_caller_scopes : ConflictReason
  existing_source_priority : String → ConflictReason
  higher_source_priority : ConflictReason
  manual_review_policy : ConflictReason

pub record ConflictDecision : Type 0 where
  pub action : ConflictAction
  pub reason : ConflictReason

abbrev pub decide : ConflictAction → ConflictReason → ConflictDecision
decide a r = record { action = a; reason = r }

pub record OpenTradeRef : Type 0 where
  pub trade_id : String
  pub source_id : String
  pub symbol : String
  pub side : Side
  pub account_id : String

-- `pri.get(source_id, 0)`
unfoldable pub priority_of : Dict String ℤ → String → ℤ
priority_of pri source_id = elim (Dict.get source_id pri) [ none ↦ pos 0 | some p ↦ p ]

-- the loop over `same_dir`
unfoldable pub outrank : Dict String ℤ → ℤ → List OpenTradeRef → ConflictDecision
outrank pri sig_p [] = decide ConflictAction.accept ConflictReason.higher_source_priority
outrank pri sig_p (t ∷ ts) =
    let rest = outrank pri sig_p ts in
    if leb_ℤ sig_p (priority_of pri t.source_id)
    then decide ConflictAction.reject (ConflictReason.existing_source_priority t.source_id)
    else rest

-- the tests on `policy`; the enum has no further member, so the last `return` is never reached
unfoldable pub apply_policy :
    ConflictPolicy → Dict String ℤ → NormalizedSignal → List OpenTradeRef → ConflictDecision
apply_policy ConflictPolicy.reject_second pri signal same_dir =
    decide ConflictAction.reject ConflictReason.reject_second_policy
apply_policy ConflictPolicy.allow_same_direction_scale_in pri signal same_dir =
    decide ConflictAction.scale_in ConflictReason.scale_in_allowed
apply_policy ConflictPolicy.dedicated_account pri signal same_dir =
    decide ConflictAction.accept ConflictReason.dedicated_account_caller_scopes
apply_policy ConflictPolicy.source_priority pri signal same_dir =
    outrank pri (priority_of pri signal.source_id) same_dir
apply_policy ConflictPolicy.manual_review pri signal same_dir =
    decide ConflictAction.manual_review ConflictReason.manual_review_policy

-- `source_priority or {}`
abbrev pub or_empty : Option (Dict String ℤ) → Dict String ℤ
or_empty none = []
or_empty (some d) = d

abbrev pub is_empty {ℓ} : {A : Type ℓ} → List A → Bool
is_empty [] = true
is_empty (_ ∷ _) = false

-- `resolve` from `same_symbol` on
unfoldable pub resolve_among :
    NormalizedSignal
    → ConflictPolicy
    → Option (Dict String ℤ)
    → List OpenTradeRef
    → ConflictDecision
unfolding apply_policy
resolve_among signal policy source_priority same_symbol =
    let opposite = select (λ (t : OpenTradeRef). not (same_side t.side signal.side)) same_symbol in
    let same_dir = select (λ (t : OpenTradeRef). same_side t.side signal.side) same_symbol in
    if is_empty same_symbol
    then decide ConflictAction.accept ConflictReason.no_conflict
    else if not (is_empty opposite)
    then decide ConflictAction.reject (ConflictReason.opposite_direction_open signal.symbol)
    else if is_empty same_dir
    then decide ConflictAction.accept ConflictReason.no_same_direction_conflict
    else apply_policy policy (or_empty source_priority) signal same_dir

unfoldable pub resolve :
    NormalizedSignal
    → ConflictPolicy
    → List OpenTradeRef
    → Option (Dict String ℤ)
    → ConflictDecision
unfolding resolve_among
resolve signal policy open_trades source_priority =
    resolve_among signal policy source_priority
      (select (λ (t : OpenTradeRef). str_eq t.symbol signal.symbol) open_trades)
