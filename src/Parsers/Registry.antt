-- ===== src/Parsers/Registry.antt =====
-- parsers/registry.py: what it lists, and the parser that it finds for a text. `register` and `get`
-- stand in Ingestion. `id(p)`, the identity of an object, is an argument.
pub mod Resolving
mod Tests
use safe_signal_trader_v.Prelude.{
  ℕ, String, str_eq, Bool, true, false, not, ◌&&◌, Option, none, some, List, [], ◌∷◌, map, any,
  ◌==◌, if◌then◌else◌,
}
use safe_signal_trader_v.Prelude.Dict.{values}
use safe_signal_trader_v.Prelude.Sorted.{sorted_set}
use safe_signal_trader_v.Ingestion.{SignalParser, ParserRegistry, get}

unfoldable pub list_ids : ParserRegistry → List String
list_ids reg = sorted_set (map (λ (p : SignalParser). p.parser_id) (values reg))

-- the first parser that takes the text
unfoldable pub first_taking : String → List SignalParser → Option SignalParser
first_taking text [] = none
first_taking text (p ∷ ps) = if p.can_parse text then some p else first_taking text ps

-- the preferred parser, where it takes the text
abbrev pub if_taking : String → Option SignalParser → Option SignalParser
if_taking text none = none
if_taking text (some p) = if p.can_parse text then some p else none

-- `if preferred_id:`
abbrev pub preferred : String → Option String → ParserRegistry → Option SignalParser
preferred text none reg = none
preferred text (some id) reg = if str_eq id "" then none else if_taking text (get id none reg)

abbrev pub or_first : Option SignalParser → Option SignalParser → Option SignalParser
or_first none q = q
or_first (some p) q = some p

module _ (identity : SignalParser → ℕ) where
  -- the loop of `_unique_parsers`, with the identities that were seen
  unfoldable pub unique_from : List ℕ → List SignalParser → List SignalParser
  unique_from seen [] = []
  unique_from seen (p ∷ ps) =
      let i = identity p in
      let known = any (λ j. j == i) seen in
      let rest = unique_from (if known then seen else i ∷ seen) ps in
      if known then rest else p ∷ rest

  unfoldable pub unique_parsers : ParserRegistry → List SignalParser
  unfolding unique_from
  unique_parsers reg = unique_from [] (values reg)

  unfoldable pub resolve_for_text : String → Option String → ParserRegistry → Option SignalParser
  unfolding unique_parsers first_taking
  resolve_for_text text preferred_id reg =
      or_first (preferred text preferred_id reg) (first_taking text (unique_parsers reg))
