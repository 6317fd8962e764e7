-- ===== src/Core/Entry/Tests.antt =====
-- Plans for half a coin at 100.
use safe_signal_trader_v.Prelude.{
  ℕ, ◌≤◌, ◌<◌, ◌+◌, ◌*◌, ◌/◌, ◌^◌, false, some, ◌≡◌, ◌↔◌, inr, refl, arith, [], ◌∷◌,
}
use safe_signal_trader_v.Decimal.{
  Decimal, of_nat, of_digits, zero_dec, ◌≼◌, ◌≺◌, cross, mul, rounded, round_mag, digits,
  digits_from, half_even,
}
use safe_signal_trader_v.Core.Entry.{BlockReason, plan, plan_sized, allowed_quantity, late_entry}
use safe_signal_trader_v.Core.Entry.OrderId.{
  client_order_id, take, hex_digit, hex_digits, decimal, decimal_from,
}
use safe_signal_trader_v.Core.Entry.OrderId.Uniqueness.{client_order_id_iff}
use safe_signal_trader_v.Core.Entry.Plan.{
  HasOrder, MayEnter, plan-order, plan-unblocked, plan-evaluate,
}
use safe_signal_trader_v.Samples.{
  long_signal, safe_snapshot, btc_rules, open_context, half_coin, evaluate-half_coin,
}

abbrev trade : ℕ
trade = 5 * 2 ^ 64 + 3

carries : HasOrder half_coin (of_digits 500 3)
unfolding cross
carries = (refl, refl, omega arith)

-- the market, at 101, is still within one per cent of the limit
may_enter : MayEnter long_signal (some (of_nat 101))
unfolding mul rounded round_mag digits digits_from half_even cross
may_enter = inr (of_nat 100, refl, inr (inr (omega arith)))

-- at 102 it has run away
plan-late :
    (plan trade long_signal safe_snapshot half_coin 1 (some (of_nat 102))).block_reason
    ≡ some BlockReason.late_for_long
unfolding plan plan_sized allowed_quantity late_entry mul rounded round_mag digits digits_from
    half_even cross
plan-late = refl

unblocked : (plan trade long_signal safe_snapshot half_coin 1 (some (of_nat 101))).blocked ≡ false
unblocked =
    rw
      (plan-order trade long_signal safe_snapshot half_coin 1 (some (of_nat 101)) (of_digits 500 3)
        carries may_enter)
      refl

plan-unblocked_example :
    ((plan trade long_signal safe_snapshot half_coin 1 (some (of_nat 101))).blocked ≡ false)
    ↔ ((q : Decimal) × HasOrder half_coin q × MayEnter long_signal (some (of_nat 101)))
plan-unblocked_example =
    plan-unblocked trade long_signal safe_snapshot half_coin 1 (some (of_nat 101))

priced : zero_dec ≺ of_nat 100
unfolding cross
priced = omega arith

plan-evaluate_example :
    let p = plan trade long_signal safe_snapshot half_coin 1 (some (of_nat 101)) in
    (of_digits 1 3 ≼ p.quantity) × (p.leverage ≤ 10) × (1 < 3)
plan-evaluate_example =
    plan-evaluate trade long_signal safe_snapshot open_context 1 (some (of_nat 101)) btc_rules
      (of_nat 100) half_coin refl (refl, priced) evaluate-half_coin unblocked

-- "sst-0000000000000005-a12"
client_order_id-text :
    client_order_id trade 12
    ≡ b's' ∷ b's' ∷ b't' ∷ b'-' ∷ b'0' ∷ b'0' ∷ b'0' ∷ b'0' ∷ b'0' ∷ b'0' ∷ b'0' ∷ b'0' ∷ b'0'
      ∷ b'0' ∷ b'0' ∷ b'0' ∷ b'0' ∷ b'0' ∷ b'0' ∷ b'5' ∷ b'-' ∷ b'a' ∷ b'1' ∷ b'2' ∷ []
unfolding client_order_id take hex_digit hex_digits decimal decimal_from
client_order_id-text = refl

abbrev first_attempt : ℕ
first_attempt = 1

-- two trades that differ in the lower half of their ids alone
client_order_id_iff_example :
    (client_order_id trade 1 ≡ client_order_id (5 * 2 ^ 64) 1)
    ↔ ((first_attempt ≡ 1) × (trade / 2 ^ 64 ≡ 5 * 2 ^ 64 / 2 ^ 64))
client_order_id_iff_example =
    client_order_id_iff trade (5 * 2 ^ 64) 1 1 (omega arith) (omega arith) (omega arith)
      (omega arith)
