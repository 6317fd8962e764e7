-- ===== src/Parsers/Regex/Greedy.antt =====
-- How a run of the matcher goes on characters that are known only by their class.
use Prim.Native.Char.{Char}
use safe_signal_trader_v.Prelude.{
  Bool, true, false, Option, none, some, [], ◌∷◌, ◌≡◌, refl, arith, All,
}
use safe_signal_trader_v.Parsers.Text.{Text, is_newline}
use safe_signal_trader_v.Parsers.Regex.{
  Regex, Groups, Match, run_many, match_at, search_from, search_text, find_from, find_all,
}

-- every character has the property
abbrev pub Each : (Char → Bool) → Text → Type 0
Each p = All (λ (c : Char). p c ≡ true)

module _ {R : Type 0} (p : Char → Bool) (k : Text → Groups → Option R) (g : Groups) where
  -- A repetition takes all, if the rest of the pattern fits the end.
  pub run_many-all : (w : Text) (x : R) → Each p w → k [] g ≡ some x → run_many p k w g ≡ some x
  unfolding run_many
  run_many-all [] x fit e = e
  run_many-all (c ∷ w) x fit e = let more = run_many-all w x fit.1 e in ground (arith, fit.0, more)

  -- It takes nothing, where the next character is another.
  pub run_many-none : (c : Char) (s : Text) → p c ≡ false → run_many p k (c ∷ s) g ≡ k (c ∷ s) g
  unfolding run_many
  run_many-none c s e = ground arith

abbrev pub IsOneLine : Text → Type 0
IsOneLine = All (λ (c : Char). is_newline c ≡ false)

-- Within a line no pattern is found.
pub search_from-within : (r : Regex) (s : Text) → IsOneLine s → search_from r false s ≡ none
unfolding search_from match_at
search_from-within r [] one_line = refl
search_from-within r (c ∷ s) one_line = rw one_line.0 (search_from-within r s one_line.1)

pub find_from-within : (r : Regex) (s : Text) → IsOneLine s → find_from r false 0 s ≡ []
unfolding find_from match_at
find_from-within r [] one_line = refl
find_from-within r (c ∷ s) one_line = rw one_line.0 (find_from-within r s one_line.1)

-- A text of one line, at whose start the pattern does not fit, holds it nowhere.
pub search_text-line :
    (r : Regex) (s : Text)
    → match_at r true s ≡ none
    → IsOneLine s
    → (search_text r s ≡ none) × (find_all r s ≡ [])
unfolding search_text search_from find_all find_from
search_text-line r [] e one_line = (e, ground (arith, e))
search_text-line r (c ∷ s) e one_line =
    let here = one_line.0 in
    let later = search_from-within r s one_line.1 in
    let others = find_from-within r s one_line.1 in
    (ground (arith, e, here, later), ground (arith, e, here, others))

-- A pattern that fits the start of a text is found there.
pub search_text-start :
    (r : Regex) (s : Text) (m : Match) → match_at r true s ≡ some m → search_text r s ≡ some m
unfolding search_text search_from
search_text-start r [] m e = e
search_text-start r (c ∷ s) m e = ground (arith, e)
