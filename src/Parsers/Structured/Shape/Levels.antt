-- ===== src/Parsers/Structured/Shape/Levels.antt =====
-- The take profits of a message: within their bounds, and sorted.
use mathlib.Core.List.{Perm}
use mathlib.Core.List.Perm
use safe_signal_trader_v.Prelude.{
  ℕ, ◌≤◌, ◌<◌, Option, none, some, List, [], ◌∷◌, map, ◌≡◌, ◌≢◌, inl, inr, arith, leb, All,
  Bool-cases,
}
use safe_signal_trader_v.Decimal.{Decimal, of_nat, zero_dec, ◌≼◌, ◌≺◌}
use safe_signal_trader_v.Outcome.{bind_answered, ok}
use safe_signal_trader_v.Domain.Models.{TakeProfitLevel}
use safe_signal_trader_v.Domain.Validation.{pct_bounds, take_profit_level}
use safe_signal_trader_v.Domain.Validation.Signals.{NoRepeats}
use safe_signal_trader_v.Parsers.Regex.{Groups}
use safe_signal_trader_v.Parsers.Structured.{
  level_of, levels_of, insert_level, sort_levels, prepend, to_decimal, group_text,
}

-- A part of the position, in per cent.
abbrev pub PctFits : Option Decimal → Type 0
PctFits none = Unit
PctFits (some v) = (zero_dec ≺ v) × (v ≼ of_nat 100)

abbrev pub LevelFits : TakeProfitLevel → Type 0
LevelFits t = (1 ≤ t.index) × (t.index ≤ 5) × PctFits t.size_pct

take_profit_level-LevelFits :
    (index : ℕ) (price : Decimal) (pct : Option Decimal) (t : TakeProfitLevel)
    → take_profit_level index price pct ≡ ok t
    → LevelFits t
unfolding take_profit_level pct_bounds
take_profit_level-LevelFits index price none t e = ground arith
take_profit_level-LevelFits index price (some v) t e = ground arith

level_of-LevelFits :
    (g : Groups) (price : Option Decimal) (t : TakeProfitLevel)
    → level_of g price ≡ ok (some t)
    → LevelFits t
unfolding level_of
level_of-LevelFits g none t e = absurd (ground arith)
level_of-LevelFits g (some price) t e =
    let (u, made, same) = bind_answered _ _ _ e in
    let u≡t : u ≡ t = cc same in rw u≡t at (take_profit_level-LevelFits _ price _ u made)

pub levels_of-LevelFits :
    (gs : List Groups) (ts : List TakeProfitLevel) → levels_of gs ≡ ok ts → All LevelFits ts
unfolding levels_of
levels_of-LevelFits [] ts e = rw (← e') tt
  where
    e' : [] ≡ ts
    e' = ground arith
levels_of-LevelFits (g ∷ gs) ts e =
    let (level, first, e') = bind_answered _ _ _ e in
    let (levels, later, e'') = bind_answered _ _ _ e' in
    let fit = levels_of-LevelFits gs levels later in added level first levels fit (ground arith)
  where
    added :
        (level : Option TakeProfitLevel)
        → level_of g (to_decimal (group_text "price" g)) ≡ ok level
        → (levels : List TakeProfitLevel) → All LevelFits levels
        → prepend level levels ≡ ts
        → All LevelFits ts
    added none first levels fit same = rw (← same) fit
    added (some t) first levels fit same = rw (← same) (level_of-LevelFits g _ t first, fit)

-- Sorted by index, none twice.
abbrev pub IsAscending : List TakeProfitLevel → Type 0
IsAscending [] = Unit
IsAscending (t ∷ ts) = All (λ (u : TakeProfitLevel). t.index < u.index) ts × IsAscending ts

abbrev IsSorted : List TakeProfitLevel → Type 0
IsSorted [] = Unit
IsSorted (t ∷ ts) = All (λ (u : TakeProfitLevel). t.index ≤ u.index) ts × IsSorted ts

module _ {κ} (P : TakeProfitLevel → Type κ) where
  All-insert_level :
      (t : TakeProfitLevel) (ts : List TakeProfitLevel) → P t → All P ts → All P (insert_level t ts)
  unfolding insert_level
  All-insert_level t [] p ps = (p, tt)
  All-insert_level t (u ∷ us) p ps = elim (Bool-cases (leb t.index u.index)) [
    | inl before ↦ rw before (p, ps)
    | inr after ↦ rw after (ps.0, All-insert_level t us p ps.1)
  ]

  pub All-sort_levels : (ts : List TakeProfitLevel) → All P ts → All P (sort_levels ts)
  unfolding sort_levels
  All-sort_levels [] ps = tt
  All-sort_levels (t ∷ ts) ps = All-insert_level t (sort_levels ts) ps.0 (All-sort_levels ts ps.1)

All-le :
    (a b : ℕ) (us : List TakeProfitLevel)
    → a ≤ b
    → All (λ (u : TakeProfitLevel). b ≤ u.index) us
    → All (λ (u : TakeProfitLevel). a ≤ u.index) us
All-le a b [] h k = tt
All-le a b (u ∷ us) h k = (omega arith, All-le a b us h k.1)

insert_level-IsSorted :
    (t : TakeProfitLevel) (ts : List TakeProfitLevel) → IsSorted ts → IsSorted (insert_level t ts)
unfolding insert_level
insert_level-IsSorted t [] s = (tt, tt)
insert_level-IsSorted t (u ∷ us) s = elim (Bool-cases (leb t.index u.index)) [
  | inl before ↦
      let le : t.index ≤ u.index = ground arith in
      rw before ((le, All-le t.index u.index us le s.0), s)
  | inr after ↦ rw after (
    All-insert_level (λ v. u.index ≤ v.index) t us (ground arith) s.0,
    insert_level-IsSorted t us s.1,
  )
]

sort_levels-IsSorted : (ts : List TakeProfitLevel) → IsSorted (sort_levels ts)
unfolding sort_levels
sort_levels-IsSorted [] = tt
sort_levels-IsSorted (t ∷ ts) = insert_level-IsSorted t (sort_levels ts) (sort_levels-IsSorted ts)

abbrev pub indices : List TakeProfitLevel → List ℕ
indices = map (λ (tp : TakeProfitLevel). tp.index)

All-lt :
    (a : ℕ) (us : List TakeProfitLevel)
    → All (λ (u : TakeProfitLevel). a ≤ u.index) us
    → All (λ (b : ℕ). a ≢ b) (indices us)
    → All (λ (u : TakeProfitLevel). a < u.index) us
All-lt a [] h k = tt
All-lt a (u ∷ us) h k = (ground arith, All-lt a us h.1 k.1)

sorted-IsAscending :
    (ts : List TakeProfitLevel) → IsSorted ts → NoRepeats (indices ts) → IsAscending ts
sorted-IsAscending [] s n = tt
sorted-IsAscending (t ∷ ts) s n = (All-lt t.index ts s.0 n.0, sorted-IsAscending ts s.1 n.1)

pub sort_levels-IsAscending :
    (ts : List TakeProfitLevel)
    → NoRepeats (indices (sort_levels ts))
    → IsAscending (sort_levels ts)
sort_levels-IsAscending ts n = sorted-IsAscending _ (sort_levels-IsSorted ts) n

insert_level-perm :
    (t : TakeProfitLevel) (ts : List TakeProfitLevel) → Perm (insert_level t ts) (t ∷ ts)
unfolding insert_level
insert_level-perm t [] = Perm.refl _
insert_level-perm t (u ∷ us) = elim (Bool-cases (leb t.index u.index)) [
  | inl before ↦ rw before (Perm.refl _)
  | inr after ↦ rw after (Perm.trans (Perm.cons u (insert_level-perm t us)) (Perm.swap t u us))
]

pub sort_levels-perm : (ts : List TakeProfitLevel) → Perm (sort_levels ts) ts
unfolding sort_levels
sort_levels-perm [] = Perm.refl []
sort_levels-perm (t ∷ ts) =
    Perm.trans (insert_level-perm t (sort_levels ts)) (Perm.cons t (sort_levels-perm ts))
