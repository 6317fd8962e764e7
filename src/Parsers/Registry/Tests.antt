-- ===== src/Parsers/Registry/Tests.antt =====
-- A registry of two parsers.
use safe_signal_trader_v.Prelude.{
  ℕ, ◌≡◌, refl, sym, ap, ◌∙◌, arith, inr, if◌then◌else◌, ◌⊎◌, inl, true, false, Bool, All, none,
  some, [], ◌∷◌,
}
use safe_signal_trader_v.Prelude.Eq.{string_eq}
use safe_signal_trader_v.Prelude.Dict
use safe_signal_trader_v.Prelude.Dict.{values}
use safe_signal_trader_v.Versioned
use safe_signal_trader_v.Outcome.{ok}
use safe_signal_trader_v.Ingestion.{SignalParser, ParserRegistry, get}
use safe_signal_trader_v.Parsers.Registry.{resolve_for_text}
use safe_signal_trader_v.Parsers.Registry.Resolving.{
  IsPreferred, IsFirst, Refuses, Identifies, resolve_for_text_cases,
}

-- `never` takes no text, `always` takes any
abbrev parser : Bool → SignalParser
parser takes = record {
  parser_id = "p";
  parser_version = "1.0.0";
  can_parse = λ text. takes;
  parse = λ text source message hash. ok none;
  validate = λ signal. ok signal;
}

abbrev two_parsers : ParserRegistry
two_parsers = ("a", parser false) ∷ ("p", parser true) ∷ []

-- the two objects differ in what they take
abbrev identity : SignalParser → ℕ
identity p = if p.can_parse "" then 1 else 0

two-Identifies : Identifies identity (values two_parsers)
two-Identifies p q (inl e) (inl f) same = sym e ∙ f
two-Identifies p q (inl e) (inr (inl f)) same =
    absurd (ground (arith, ap identity e, ap identity f))
two-Identifies p q (inr (inl e)) (inl f) same =
    absurd (ground (arith, ap identity e, ap identity f))
two-Identifies p q (inr (inl e)) (inr (inl f)) same = sym e ∙ f
two-Identifies p q (inl e) (inr (inr other)) same = elim other [ ]
two-Identifies p q (inr (inl e)) (inr (inr other)) same = elim other [ ]
two-Identifies p q (inr (inr other)) _ same = elim other [ ]

resolve_for_text_cases_example :
    ((p : SignalParser) × (resolve_for_text identity "BUY" (some "a") two_parsers ≡ some p)
      × (IsPreferred "BUY" (some "a") two_parsers p
          ⊎ (((q : SignalParser) → ¬ IsPreferred "BUY" (some "a") two_parsers q)
              × IsFirst "BUY" (values two_parsers) p)))
    ⊎ ((resolve_for_text identity "BUY" (some "a") two_parsers ≡ none)
        × All (Refuses "BUY") (values two_parsers))
resolve_for_text_cases_example =
    resolve_for_text_cases identity "BUY" (some "a") two_parsers two-Identifies

-- the preferred parser does not take the text, and the other one is found
resolve-other : resolve_for_text identity "BUY" (some "a") two_parsers ≡ some (parser true)
unfolding resolve_for_text get Versioned.find Dict.get
resolve-other = refl
