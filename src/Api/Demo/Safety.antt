-- ===== src/Api/Demo/Safety.antt =====
-- What an analysis promises from end to end.
use safe_signal_trader_v.Prelude.{
  ◌≤◌, ◌<◌, true, false, ◌&&◌, Option, none, some, ◌≡◌, refl, ap, inl, inr, arith, Bool-cases,
}
use safe_signal_trader_v.Prelude.Int.{pos_part}
use safe_signal_trader_v.Prelude.Eq.{string_eq}
use safe_signal_trader_v.Decimal.{Decimal, zero_dec, nonzero, below, of_nat, of_digits, ◌≺◌, ◌≼◌}
use safe_signal_trader_v.Outcome.{ok}
use safe_signal_trader_v.Domain.Models.{SymbolRules, EffectiveConfigSnapshot}
use safe_signal_trader_v.Core.Entry
use safe_signal_trader_v.Core.Entry.Plan.{plan-unblocked, plan-evaluate}
use safe_signal_trader_v.Core.Risk.{sized, size_position}
use safe_signal_trader_v.Core.Risk.Bounds.{evaluate-Accepted, known_price}
use safe_signal_trader_v.Core.Risk.Orders.{evaluate-order}
use safe_signal_trader_v.Parsers.Structured.Shape.{WellFormed}
use safe_signal_trader_v.Profiles.Model.{TradingProfile}
use safe_signal_trader_v.Profiles.Registry
use safe_signal_trader_v.Profiles.Snapshot.{build_snapshot}
use safe_signal_trader_v.Sources
use safe_signal_trader_v.Sources.{SourceConfig}
use safe_signal_trader_v.Api.State.{
  Library, Reads, DemoState, RiskRequest, Analysis, answered, analysis,
}
use safe_signal_trader_v.Api.Demo.{
  analyze, analysis_message, counted, context_of, mark_of, default_rules,
}
use safe_signal_trader_v.Api.Demo.Backing.{analyze-Backed}

-- only a positive price gives a quantity
sized_at_price :
    (rules : Option SymbolRules) (price : Option Decimal) (notional q n : Decimal)
    → size_position rules price notional ≡ ok (sized (some q) n)
    → (p : Decimal) × (price ≡ some p) × (zero_dec ≺ p)
unfolding size_position
sized_at_price rules none notional q n e = absurd (ground arith)
sized_at_price rules (some p) notional q n e = elim (Bool-cases (nonzero p && below zero_dec p)) [
  | inl priced ↦ (p, refl, ground arith)
  | inr unpriced ↦ absurd (ground arith)
]

module _ (lib : Library) (r : Reads) where
  -- What stands behind an analysis whose plan is open for execution.
  pub record Approved (body : RiskRequest) (demo : DemoState) (a : Analysis) : Type 0 where
    pub source : SourceConfig
    pub source_known : Sources.get body.source_id demo.sources ≡ some source
    pub source_enabled : source.enabled ≡ true
    pub profile : TradingProfile
    pub profile_known : Registry.get body.profile_id none demo.profiles ≡ some profile
    pub well_formed :
        WellFormed body.text body.source_id
          (some (analysis_message lib r body (counted demo).msg_counter).message_id)
          a.signal
    pub quantity : of_digits 1 3 ≼ a.entry.quantity
    pub notional : of_nat 5 ≼ a.risk.notional_usdt
    pub leverage : a.entry.leverage ≤ profile.max_leverage
    pub free : pos_part body.open_positions < profile.max_open_positions

  -- From the text of a message to the order: if an analysis ends with a plan that is not blocked, then
  -- the message's source is registered and enabled, the profile is known, the signal has the side, the
  -- symbol, the entry price, the stop, the leverage and the take profits that the text has by the
  -- parser's patterns, and the plan is for at least the smallest quantity of the default rules, worth
  -- at least their smallest notional, at no more leverage than the profile allows, while a position is
  -- free.
  pub analyze-Approved :
      (body : RiskRequest) (demo : DemoState) (a : Analysis)
      → (analyze lib r body demo).0 ≡ answered (analysis a)
      → a.entry.blocked ≡ false
      → Approved body demo a
  unfolding build_snapshot
  analyze-Approved body demo a e unblocked =
      let b = analyze-Backed lib r body demo a e in
      let mark = mark_of body a.signal in
      let ctx = context_of body b.profile a.signal mark in
      let open_plan : (Entry.plan r.trade_id a.signal a.snapshot a.risk 0 (some mark)).blocked
          ≡ false =
        rw b.planned at unblocked in
      let (q, order, enter) =
        (plan-unblocked r.trade_id a.signal a.snapshot a.risk 0 (some mark)).0 open_plan in
      let accepted = evaluate-Accepted a.signal a.snapshot ctx a.risk b.decided order.0 in
      let (p, price, positive) =
        sized_at_price _ (known_price a.signal ctx) accepted.notional q a.risk.notional_usdt
          (rw order.1 at accepted.size) in
      let rules = default_rules a.signal.symbol in
      let (enough, leverage, free) =
        plan-evaluate r.trade_id a.signal a.snapshot ctx 0 (some mark) rules p a.risk refl
          (price, positive) b.decided open_plan in
      let cap : a.snapshot.max_leverage ≡ b.profile.max_leverage =
        ap (λ (s : EffectiveConfigSnapshot). s.max_leverage) b.snapshot in
      let (_, _, _, worth, _) =
        evaluate-order a.signal a.snapshot ctx rules p a.risk refl (price, positive) b.decided
          order.0 in
      record {
        source = b.source;
        source_known = b.source_known;
        source_enabled = b.source_enabled;
        profile = b.profile;
        profile_known = b.profile_known;
        well_formed = b.well_formed;
        quantity = rw b.planned enough;
        notional = worth;
        leverage = rw b.planned (omega (arith, leverage, cap));
        free = free;
      }
