-- ===== src/Core/Risk/Bounds.antt =====
-- What an allowed trade, a refusal and an exception of `evaluate` mean.
use safe_signal_trader_v.Prelude.{
  ℕ, ◌≤◌, ◌<◌, true, false, Option, none, some, ◌≡◌, refl, inl, inr, arith, leb, Bool-cases,
  Option-cases, ◌⊎◌,
}
use safe_signal_trader_v.Decimal.{
  Decimal, zero_dec, ◌≼◌, ◌≺◌, below, quantize_down, mul, of_nat, nonzero,
}
use safe_signal_trader_v.Outcome.{Result, ok, err}
use safe_signal_trader_v.Domain.Models.{NormalizedSignal, EffectiveConfigSnapshot, SymbolRules}
use safe_signal_trader_v.Core.Risk.{
  RiskDecision, RiskContext, Sizing, refused, sized, evaluate, evaluate_size, size_position,
  apply_rules, on_step, check_notional, conclude, within_exposure, capped_notional, or_else,
  max_loss_of, leverage_of,
}

-- the price that step 5 works with
abbrev pub known_price : NormalizedSignal → RiskContext → Option Decimal
known_price signal ctx = or_else ctx.mark_price signal.entry_price

-- the notional before and after the exposure limit
abbrev pub wanted : NormalizedSignal → EffectiveConfigSnapshot → Decimal
wanted signal snapshot =
    capped_notional snapshot.max_notional_usdt
      (mul (max_loss_of snapshot) (of_nat (leverage_of signal snapshot)))

abbrev pub granted : NormalizedSignal → EffectiveConfigSnapshot → RiskContext → Option Decimal
granted signal snapshot ctx =
    within_exposure snapshot.max_notional_usdt ctx.current_exposure_usdt (wanted signal snapshot)

-- The steps that a call went through when it allowed a trade.
pub record Accepted (signal : NormalizedSignal) (snapshot : EffectiveConfigSnapshot)
    (ctx : RiskContext) (d : RiskDecision) : Type 0 where
  pub notional : Decimal
  pub free : ctx.open_position_count < ctx.max_open_positions
  pub exposure : granted signal snapshot ctx ≡ some notional
  pub size :
      size_position ctx.symbol_rules (known_price signal ctx) notional
      ≡ ok (sized d.quantity d.notional_usdt)
  pub positive : zero_dec ≺ d.notional_usdt
  pub leverage : d.leverage ≡ leverage_of signal snapshot
  pub max_loss : d.max_loss_usdt ≡ some (max_loss_of snapshot)

-- `conclude` allows what was sized, at a positive notional.
conclude_allowed :
    (lev : ℕ) (loss : Decimal) (s : Sizing) (d : RiskDecision)
    → conclude lev loss s ≡ d
    → d.allowed ≡ true
    → (zero_dec ≺ d.notional_usdt)
      × (s ≡ sized d.quantity d.notional_usdt)
      × (d.max_loss_usdt ≡ some loss)
      × (d.leverage ≡ lev)
unfolding conclude
conclude_allowed lev loss (refused r n q) d e h = ground arith
conclude_allowed lev loss (sized q n) d e h = ground arith

size_allowed :
    (signal : NormalizedSignal) (ctx : RiskContext) (lev : ℕ) (loss n : Decimal) (d : RiskDecision)
    → evaluate_size signal ctx lev loss (some n) ≡ ok d
    → d.allowed ≡ true
    → (size_position ctx.symbol_rules (known_price signal ctx) n
        ≡ ok (sized d.quantity d.notional_usdt))
      × (zero_dec ≺ d.notional_usdt)
      × (d.max_loss_usdt ≡ some loss)
      × (d.leverage ≡ lev)
unfolding evaluate_size
size_allowed signal ctx lev loss n d e h =
    go (size_position ctx.symbol_rules (known_price signal ctx) n) refl
  where
    go :
        (r : Result Sizing)
        → size_position ctx.symbol_rules (known_price signal ctx) n ≡ r
        → (size_position ctx.symbol_rules (known_price signal ctx) n
            ≡ ok (sized d.quantity d.notional_usdt))
          × (zero_dec ≺ d.notional_usdt)
          × (d.max_loss_usdt ≡ some loss)
          × (d.leverage ≡ lev)
    go (err x) p = cc (p, e)
    go (ok s) p = ground (arith, conclude_allowed lev loss s d)

refused_exposure :
    (signal : NormalizedSignal) (ctx : RiskContext) (lev : ℕ) (loss : Decimal) (d : RiskDecision)
    → evaluate_size signal ctx lev loss none ≡ ok d
    → d.allowed ≡ false
unfolding evaluate_size
refused_exposure signal ctx lev loss d e = ground arith

pub evaluate-Accepted :
    (signal : NormalizedSignal) (snapshot : EffectiveConfigSnapshot) (ctx : RiskContext)
    (d : RiskDecision)
    → evaluate signal snapshot ctx ≡ ok d
    → d.allowed ≡ true
    → Accepted signal snapshot ctx d
unfolding evaluate
evaluate-Accepted signal snapshot ctx d e h =
    elim (Bool-cases (leb ctx.max_open_positions ctx.open_position_count)) [
      | inl full ↦ absurd (ground arith)
      | inr room ↦ elim (Option-cases (granted signal snapshot ctx)) [
        | inl spent ↦ absurd (ground (arith, refused_exposure signal ctx lev loss d))
        | inr (n, left) ↦
            let sizing = size_allowed signal ctx lev loss n d (unlimited room left) h in
            record {
              notional = n;
              free = ground arith;
              exposure = left;
              size = sizing.0;
              positive = sizing.1;
              leverage = sizing.3;
              max_loss = sizing.2;
            }
      ]
    ]
  where
    lev : ℕ
    lev = leverage_of signal snapshot

    loss : Decimal
    loss = max_loss_of snapshot

    unlimited :
        leb ctx.max_open_positions ctx.open_position_count ≡ false
        → {n : Decimal} → granted signal snapshot ctx ≡ some n
        → evaluate_size signal ctx lev loss (some n) ≡ ok d
    unlimited room left = ground arith

-- The loss limit that a snapshot's `max_loss_usdt` sets: itself, or 10 where it is missing or zero.
abbrev pub IsLossLimit : Option Decimal → Decimal → Type 0
IsLossLimit none loss = loss ≡ of_nat 10
IsLossLimit (some set) loss =
    ((nonzero set ≡ true) × (loss ≡ set)) ⊎ ((nonzero set ≡ false) × (loss ≡ of_nat 10))

or_ten : Option Decimal → Decimal
or_ten limit = elim (or_else limit none) [ none ↦ of_nat 10 | some a ↦ a ]

or_ten-IsLossLimit : (limit : Option Decimal) → IsLossLimit limit (or_ten limit)
unfolding or_ten
or_ten-IsLossLimit none = refl
or_ten-IsLossLimit (some set) = elim (Bool-cases (nonzero set)) [
  | inl there ↦ inl (there, rw (or_ten, there) refl)
  | inr zero ↦ inr (zero, rw (or_ten, zero) refl)
]

max_loss_of-IsLossLimit :
    (snapshot : EffectiveConfigSnapshot) → IsLossLimit snapshot.max_loss_usdt (max_loss_of snapshot)
unfolding max_loss_of or_ten
max_loss_of-IsLossLimit snapshot = or_ten-IsLossLimit snapshot.max_loss_usdt

-- An allowed trade keeps the limits of the snapshot: a position is free, the leverage is at most
-- the snapshot's, the notional is positive, and the loss limit is the snapshot's, or 10 USDT where
-- the snapshot has none or has zero.
pub evaluate-limits :
    (signal : NormalizedSignal) (snapshot : EffectiveConfigSnapshot) (ctx : RiskContext)
    (d : RiskDecision)
    → evaluate signal snapshot ctx ≡ ok d
    → d.allowed ≡ true
    → (ctx.open_position_count < ctx.max_open_positions)
      × (d.leverage ≤ snapshot.max_leverage)
      × (zero_dec ≺ d.notional_usdt)
      × (loss : Decimal) × (d.max_loss_usdt ≡ some loss)
      × IsLossLimit snapshot.max_loss_usdt loss
unfolding leverage_of
evaluate-limits signal snapshot ctx d e h =
    let a = evaluate-Accepted signal snapshot ctx d e h in
    (
      a.free,
      omega (arith, a.leverage),
      a.positive,
      max_loss_of snapshot,
      a.max_loss,
      max_loss_of-IsLossLimit snapshot,
    )

-- The price at which step 5 computes a quantity.
abbrev pub IsPriced : NormalizedSignal → RiskContext → Decimal → Type 0
IsPriced signal ctx price = (known_price signal ctx ≡ some price) × (zero_dec ≺ price)

pub check_notional-sized :
    (rules : SymbolRules) (price qty : Decimal) {q : Option Decimal} {n : Decimal}
    → check_notional rules price qty ≡ ok (sized q n)
    → (q ≡ some qty) × (rules.min_notional ≼ n) × (quantize_down (mul qty price) 2 ≡ some n)
unfolding check_notional
check_notional-sized rules price qty h = ground arith

pub apply_rules-sized :
    (rules : SymbolRules) (price notional raw_qty qty : Decimal) {q : Option Decimal} {n : Decimal}
    → apply_rules rules price notional raw_qty qty ≡ ok (sized q n)
    → (a : Decimal) × (q ≡ some a)
      × (on_step rules raw_qty qty ≡ ok a)
      × (rules.min_qty ≼ a)
      × (rules.min_notional ≼ n)
      × (quantize_down (mul a price) 2 ≡ some n)
unfolding apply_rules
apply_rules-sized rules price notional raw_qty qty {q} {n} h = go (on_step rules raw_qty qty) refl
  where
    go :
        (r : Result Decimal)
        → on_step rules raw_qty qty ≡ r
        → (a : Decimal) × (q ≡ some a)
          × (on_step rules raw_qty qty ≡ ok a)
          × (rules.min_qty ≼ a)
          × (rules.min_notional ≼ n)
          × (quantize_down (mul a price) 2 ≡ some n)
    go (err x) p = absurd (ground arith)
    go (ok a) p = elim (Bool-cases (below a rules.min_qty)) [
      | inl short ↦ absurd (ground arith)
      | inr enough ↦
          let passed : check_notional rules price a ≡ ok (sized q n) = ground arith in
          let c = check_notional-sized rules price a passed in (a, c.0, p, ground arith, c.1, c.2)
    ]
