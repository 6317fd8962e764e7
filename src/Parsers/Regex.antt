-- ===== src/Parsers/Regex.antt =====
-- Python's `re` with MULTILINE, as far as the parser uses it: classes of characters, greedy
-- repetition of a class, sequence, alternatives, optional parts, named groups and `$`. Every pattern
-- begins with `^`, which is part of the search. The matcher backtracks in Python's order: a
-- repetition takes as much as it can, an optional part is tried first, and alternatives from the left.
pub mod Matching
pub mod Greedy
use Prim.Native.Char.{Char, code}
use Prim.Native.String.{String}
use safe_signal_trader_v.Prelude.{
  ℕ, zero, suc, ◌+◌, ◌-◌, Bool, true, false, Option, none, some, List, [], ◌∷◌, ◌==◌, if◌then◌else◌,
  length,
}
use safe_signal_trader_v.Prelude.Eq.{string_eq}
use safe_signal_trader_v.Prelude.Dict
use safe_signal_trader_v.Prelude.Dict.{Dict}
use safe_signal_trader_v.Parsers.Text.{Text, is_newline, upper_char}

pub data Regex : Type 0 where
  empty : Regex
  one : (Char → Bool) → Regex
  many : (Char → Bool) → Regex
  seq : Regex → Regex → Regex
  alt : Regex → Regex → Regex
  optional : Regex → Regex
  group : String → Regex → Regex
  line_end : Regex

-- the groups that took part so far
abbrev pub Groups : Type 0
Groups = Dict String Text

-- `[…]+`
abbrev pub some_of : (Char → Bool) → Regex
some_of p = seq (one p) (many p)

-- a letter of a pattern, under IGNORECASE
abbrev pub letter : Char → Char → Bool
letter a c = code (upper_char c) == code (upper_char a)

abbrev pub word : Text → Regex
word [] = empty
word (a ∷ s) = seq (one (letter a)) (word s)

-- `$`
unfoldable pub at_line_end : Text → Bool
at_line_end [] = true
at_line_end (c ∷ _) = is_newline c

-- the text up to `rest`
unfoldable pub taken : ℕ → Text → Text
taken zero s = []
taken (suc n) [] = []
taken (suc n) (c ∷ s) = c ∷ taken n s

module _ {R : Type 0} where
  unfoldable pub run_many : (Char → Bool) → (Text → Groups → Option R) → Text → Groups → Option R
  run_many p k [] g = k [] g
  run_many p k (c ∷ s) g = elim (p c) [
    | true ↦ elim (run_many p k s g) [ some r ↦ some r | none ↦ k (c ∷ s) g ]
    | false ↦ k (c ∷ s) g
  ]

  -- Match a pattern at the head of a text, and go on with what is left.
  unfoldable pub run : Regex → (Text → Groups → Option R) → Text → Groups → Option R
  run empty k s g = k s g
  run (one p) k [] g = none
  run (one p) k (c ∷ s) g = if p c then k s g else none
  run (many p) k s g = run_many p k s g
  run (seq a b) k s g = run a (run b k) s g
  run (alt a b) k s g = elim (run a k s g) [ some r ↦ some r | none ↦ run b k s g ]
  run (optional a) k s g = elim (run a k s g) [ some r ↦ some r | none ↦ k s g ]
  run (group n a) k s g =
      run a (λ rest g'. k rest (Dict.put n (taken (length s - length rest) s) g')) s g
  run line_end k s g = if at_line_end s then k s g else none

-- A match: its groups, and the text after it.
abbrev pub Match : Type 0
Match = Groups × Text

abbrev pub finish : Text → Groups → Option Match
finish rest g = some (g, rest)

-- `^` holds at the start of the text and after every newline.
unfoldable pub match_at : Regex → Bool → Text → Option Match
match_at r start s = if start then run r finish s [] else none

unfoldable pub search_from : Regex → Bool → Text → Option Match
search_from r start [] = match_at r start []
search_from r start (c ∷ s) = elim (match_at r start (c ∷ s)) [
  | some m ↦ some m
  | none ↦ search_from r (is_newline c) s
]

-- `re.search`
unfoldable pub search_text : Regex → Text → Option Match
unfolding search_from
search_text r s = search_from r true s

-- `re.finditer`: after a match the search goes on behind it; `skip` counts the characters of the
-- last match that are still to come.
unfoldable pub find_from : Regex → Bool → ℕ → Text → List Groups
find_from r start skip [] = elim (match_at r start []) [ some (g, _) ↦ g ∷ [] | none ↦ [] ]
find_from r start (suc n) (c ∷ s) = find_from r (is_newline c) n s
find_from r start zero (c ∷ s) = elim (match_at r start (c ∷ s)) [
  | some (g, rest) ↦ g ∷ find_from r (is_newline c) (length s - length rest) s
  | none ↦ find_from r (is_newline c) zero s
]

unfoldable pub find_all : Regex → Text → List Groups
unfolding find_from
find_all r s = find_from r true zero s
