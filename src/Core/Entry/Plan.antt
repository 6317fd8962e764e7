-- ===== src/Core/Entry/Plan.antt =====
-- What an entry plan promises.
use safe_signal_trader_v.Prelude.{
  ℕ, ◌≤◌, ◌<◌, ◌⊎◌, ◌&&◌, ltb, refl, Bool, true, false, Option, none, some, ◌≡◌, ◌↔◌, inl, inr,
  arith, if◌then◌else◌, Bool-cases, Option-cases,
}
use safe_signal_trader_v.Decimal.{Decimal, zero_dec, ◌≼◌, ◌≺◌, nonzero, of_digits, mul}
use safe_signal_trader_v.Outcome.{ok}
use safe_signal_trader_v.Domain.Enums.{Side, EntryType, is_limit}
use safe_signal_trader_v.Domain.Models.{
  Uuid, NormalizedSignal, EffectiveConfigSnapshot, SymbolRules,
}
use safe_signal_trader_v.Core.Risk.{RiskDecision, RiskContext, evaluate}
use safe_signal_trader_v.Core.Risk.Bounds.{evaluate-limits, IsPriced}
use safe_signal_trader_v.Core.Risk.Orders.{evaluate-order}
use safe_signal_trader_v.Core.Entry.{
  BlockReason, allowed_quantity, late_entry, plan_sized, plan, draft,
}

-- The risk decision carries an order.
abbrev pub HasOrder : RiskDecision → Decimal → Type 0
HasOrder risk q = (risk.allowed ≡ true) × (risk.quantity ≡ some q) × (zero_dec ≺ q)

allowed_quantity-HasOrder :
    (risk : RiskDecision) (q : Decimal)
    → allowed_quantity risk.allowed risk.quantity ≡ some q
    → HasOrder risk q
unfolding allowed_quantity
allowed_quantity-HasOrder risk q e = ground arith

HasOrder-allowed_quantity :
    (risk : RiskDecision) (q : Decimal)
    → HasOrder risk q
    → allowed_quantity risk.allowed risk.quantity ≡ some q
unfolding allowed_quantity
HasOrder-allowed_quantity risk q h = ground arith

-- The market has not run away from the limit: where both prices are there and not zero, it is at most
-- one per cent above the limit of a long position, and at most one per cent below that of a short.
abbrev pub NotLate : Side → Option Decimal → Decimal → Type 0
NotLate side none price = Unit
NotLate Side.long (some mark) price =
    (nonzero mark ≡ false) ⊎ (nonzero price ≡ false) ⊎ (mark ≼ mul price (of_digits 101 2))
NotLate Side.short (some mark) price =
    (nonzero mark ≡ false) ⊎ (nonzero price ≡ false) ⊎ (mul price (of_digits 99 2) ≼ mark)

-- a chain of two tests, of which none says that it is late
not_late :
    (a b : Bool) (x y : ℕ) (r : BlockReason)
    → ((if a && b && ltb x y then some r else none) ≡ none) ↔ ((a ≡ false) ⊎ (b ≡ false) ⊎ (y ≤ x))
not_late a b x y r = ground arith

late_entry-NotLate :
    (side : Side) (mark : Option Decimal) (price : Decimal)
    → (late_entry side mark (some price) ≡ none) ↔ NotLate side mark price
unfolding late_entry
late_entry-NotLate side none price = (λ e. tt, λ h. refl)
late_entry-NotLate Side.long (some mark) price =
    not_late (nonzero mark) (nonzero price) _ _ BlockReason.late_for_long
late_entry-NotLate Side.short (some mark) price =
    not_late (nonzero mark) (nonzero price) _ _ BlockReason.late_for_short

-- The plan may enter: a market order always, and a limit order at a price that the market has not run
-- away from.
abbrev pub MayEnter : NormalizedSignal → Option Decimal → Type 0
MayEnter signal mark =
    (signal.entry_type ≡ EntryType.market)
    ⊎ ((price : Decimal) × (signal.entry_price ≡ some price) × NotLate signal.side mark price)

module _ (trade_id : Uuid) (signal : NormalizedSignal) (snapshot : EffectiveConfigSnapshot)
    (risk : RiskDecision) (attempt : ℕ) (mark : Option Decimal) where
  sized-MayEnter :
      (q : Decimal)
      → (plan_sized trade_id signal snapshot risk attempt mark q).blocked ≡ false
      → MayEnter signal mark
  unfolding plan_sized
  sized-MayEnter q h = elim (Option-cases signal.entry_price) [
    | inl missing ↦ inl (ground arith)
    | inr (price, there) ↦ elim (Bool-cases (is_limit signal.entry_type)) [
      | inr market ↦ inl (ground arith)
      | inl limited ↦
          let clear : late_entry signal.side mark (some price) ≡ none = ground arith in
          inr (price, there, (late_entry-NotLate signal.side mark price).0 clear)
    ]
  ]

  sized-draft :
      (q : Decimal)
      → MayEnter signal mark
      → plan_sized trade_id signal snapshot risk attempt mark q
        ≡ draft trade_id signal snapshot risk attempt q
            (if is_limit signal.entry_type then signal.entry_price else none)
            none
  unfolding plan_sized
  sized-draft q (inl market) = ground arith
  sized-draft q (inr (price, there, intime)) =
      let clear : late_entry signal.side mark (some price) ≡ none =
        (late_entry-NotLate signal.side mark price).1 intime in
      ground arith

  -- Where the risk decision carries an order and the signal may enter, the plan is not blocked, and
  -- is for the quantity and the leverage of the decision: at the signal's price for a limit order,
  -- and at no price for a market order.
  pub plan-order :
      (q : Decimal)
      → HasOrder risk q
      → MayEnter signal mark
      → plan trade_id signal snapshot risk attempt mark
        ≡ draft trade_id signal snapshot risk attempt q
            (if is_limit signal.entry_type then signal.entry_price else none)
            none
  unfolding plan
  plan-order q h enter = rw (HasOrder-allowed_quantity risk q h, plan) (sized-draft q enter)

  -- A plan is open for execution exactly when the risk decision is positive, has a quantity above
  -- zero, and the order is a market order, or a limit order with a price that the market, where its
  -- price is known and neither price is zero, has not left behind by more than one per cent.
  pub plan-unblocked :
      ((plan trade_id signal snapshot risk attempt mark).blocked ≡ false)
      ↔ ((q : Decimal) × HasOrder risk q × MayEnter signal mark)
  unfolding plan
  plan-unblocked = elim (Option-cases (allowed_quantity risk.allowed risk.quantity)) [
    | inl refusal ↦ (
      λ h. absurd (ground arith),
      λ h. absurd (ground (arith, HasOrder-allowed_quantity risk h.0 h.1)),
    )
    | inr (q, order) ↦ (
      λ h. (q, allowed_quantity-HasOrder risk q order, sized-MayEnter q (ground arith)),
      λ h. rw (plan-order h.0 h.1 h.2),
    )
  ]

  -- The planner never looks at the stop: taking the signal's stop away, or giving it any other, does
  -- not change whether a plan is blocked.
  pub plan-ignores_stop :
      (stop : Option Decimal)
      → (plan trade_id (record signal { stop_loss = stop }) snapshot risk attempt mark).blocked
        ≡ (plan trade_id signal snapshot risk attempt mark).blocked
  unfolding plan plan_sized
  plan-ignores_stop stop = ground arith

-- From the signal to the order: a plan made from an `evaluate` that knew the symbol's rules and a
-- positive price is, if it is not blocked, for at least `min_qty`, at no more leverage than the
-- snapshot allows, and only while a position is free.
pub plan-evaluate :
    (trade_id : Uuid) (signal : NormalizedSignal) (snapshot : EffectiveConfigSnapshot)
    (ctx : RiskContext) (attempt : ℕ) (mark : Option Decimal) (rules : SymbolRules)
    (price : Decimal) (d : RiskDecision)
    → ctx.symbol_rules ≡ some rules
    → IsPriced signal ctx price
    → evaluate signal snapshot ctx ≡ ok d
    → (plan trade_id signal snapshot d attempt mark).blocked ≡ false
    → let p = plan trade_id signal snapshot d attempt mark in
      (rules.min_qty ≼ p.quantity)
      × (p.leverage ≤ snapshot.max_leverage)
      × (ctx.open_position_count < ctx.max_open_positions)
plan-evaluate trade_id signal snapshot ctx attempt mark rules price d known priced e unblocked =
    let (q, order, enter) = (plan-unblocked trade_id signal snapshot d attempt mark).0 unblocked in
    let (q', same, enough, _, _) =
      evaluate-order signal snapshot ctx rules price d known priced e order.0 in
    let limits = evaluate-limits signal snapshot ctx d e order.0 in
    let q'≡q : q' ≡ q = cc (same, order.1) in
    rw (plan-order trade_id signal snapshot d attempt mark q order enter)
      (rw q'≡q at enough, limits.1, limits.0)
