-- ===== src/Api/Demo/Agreement.antt =====
-- api/demo.py: the parts of an answer to /analyze agree with each other.
use safe_signal_trader_v.Prelude.{
  true, none, some, [], ◌≡◌, ◌≢◌, ◌↔◌, ◌⊎◌, inl, inr, refl, Bool-cases,
}
use safe_signal_trader_v.Domain.Models.{NormalizedSignal}
use safe_signal_trader_v.Domain.Enums.{ConflictPolicy}
use safe_signal_trader_v.Core.Conflict.{ConflictAction, resolve, resolve_among}
use safe_signal_trader_v.Core.Entry.Plan.{plan-order, plan-unblocked}
use safe_signal_trader_v.Core.Protection.Ratchet.{initial_stop-protected}
use safe_signal_trader_v.Api.State.{
  Library, Reads, DemoState, RiskRequest, Analysis, answered, analysis,
}
use safe_signal_trader_v.Api.Demo.{analyze, mark_of}
use safe_signal_trader_v.Api.Demo.Answers.{analysis_view, shown_quantity, action_value}
use safe_signal_trader_v.Api.Demo.Backing.{analyze-Backed}

-- without open trades nothing is in the way
resolve-unopposed :
    (signal : NormalizedSignal) (policy : ConflictPolicy)
    → (resolve signal policy [] none).action ≡ ConflictAction.accept
unfolding resolve resolve_among
resolve-unopposed signal policy = refl

module _ (lib : Library) (r : Reads) where
  -- Every answer to a text that is a signal accepts it against no open trades, shows it protected
  -- exactly when it has a stop, and shows either a blocked entry, or an allowed trade and an entry
  -- for the quantity and the leverage of this trade.
  pub analysis_view-agrees :
      (body : RiskRequest) (demo : DemoState) (a : Analysis)
      → (analyze lib r body demo).0 ≡ answered (analysis a)
      → let v = analysis_view lib a in
        (v.conflict.action ≡ "accept")
        × ((v.protection.is_protected ≡ true) ↔ (v.signal.stop_loss ≢ none))
        × ((v.entry.blocked ≡ true)
            ⊎ ((v.risk.allowed ≡ true)
                × (v.risk.quantity ≡ some v.entry.quantity)
                × (v.entry.leverage ≡ v.risk.leverage)))
  unfolding analysis_view shown_quantity action_value
  analysis_view-agrees body demo a e =
      let b = analyze-Backed lib r body demo a e in
      let mark = mark_of body a.signal in
      let accepted : action_value a.conflict.action ≡ "accept" =
        rw (b.unopposed, resolve-unopposed a.signal a.snapshot.conflict_policy) refl in
      let guarded : (a.protection.is_protected ≡ true) ↔ (a.signal.stop_loss ≢ none) =
        rw b.protected (initial_stop-protected a.signal a.snapshot (some mark)).0 in
      (
        accepted,
        guarded,
        elim (Bool-cases a.entry.blocked) [
          | inl blocked ↦ inl blocked
          | inr open_entry ↦
              let (q, order, enter) =
                (plan-unblocked r.trade_id a.signal a.snapshot a.risk 0 (some mark)).0
                  (rw b.planned at open_entry) in
              let made =
                plan-order r.trade_id a.signal a.snapshot a.risk 0 (some mark) q order enter in
              inr (order.0, rw (order.1, b.planned, made) refl, rw (b.planned, made) refl)
        ],
      )
