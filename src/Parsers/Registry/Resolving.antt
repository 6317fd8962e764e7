-- ===== src/Parsers/Registry/Resolving.antt =====
-- The parser that is found for a text, and the ids that are listed.
use mathlib.Core.Option.{some-injective}
use safe_signal_trader_v.Prelude.{
  ◌++◌, ◌≢◌, eq_iff, ℕ, String, str_eq, Bool, true, false, Option, none, some, List, [], ◌∷◌, map,
  any, All, ◌||◌, ◌≡◌, ◌⊎◌, inl, inr, refl, ap, ◌∙◌, arith, ◌==◌, Bool-cases, Option-cases,
}
use safe_signal_trader_v.Prelude.Eq.{==_iff}
use safe_signal_trader_v.Prelude.Dict
use safe_signal_trader_v.Prelude.Dict.{values}
use safe_signal_trader_v.Prelude.Eq.{string_eq}
use safe_signal_trader_v.Versioned
use safe_signal_trader_v.Prelude.Sorted.{
  IsAscending, is_in, sorted_set-IsAscending, is_in-sorted_set,
}
use safe_signal_trader_v.Ingestion.{SignalParser, ParserRegistry, get}
use safe_signal_trader_v.Parsers.Registry.{
  list_ids, first_taking, if_taking, preferred, unique_from, resolve_for_text,
}

abbrev pub Listed : SignalParser → List SignalParser → Type 0
Listed p [] = ⊥
Listed p (q ∷ qs) = (q ≡ p) ⊎ Listed p qs

-- Entries with one identity are one object.
abbrev pub Identifies : (SignalParser → ℕ) → List SignalParser → Type 0
Identifies identity ps =
    (p q : SignalParser) → Listed p ps → Listed q ps → identity p ≡ identity q → p ≡ q

module _ (identity : SignalParser → ℕ) (text : String) (entries : List SignalParser)
    (identifies : Identifies identity entries) where
  -- No entry with one of these identities takes the text.
  abbrev NoneTakes : List ℕ → Type 0
  NoneTakes seen =
      (p : SignalParser)
      → Listed p entries
      → any (λ j. j == identity p) seen ≡ true
      → p.can_parse text ≡ false

  add_seen :
      (p : SignalParser) (seen : List ℕ)
      → Listed p entries
      → p.can_parse text ≡ false
      → NoneTakes seen
      → NoneTakes (identity p ∷ seen)
  add_seen p seen here refuses none_takes q there known =
      elim (Bool-cases (identity p == identity q)) [
        | inl same ↦ rw (← identifies p q here there ((==_iff _ _).0 same)) refuses
        | inr other ↦ none_takes q there (ground arith)
      ]

  -- Trying each object once finds what trying all would find.
  first_taking-unique_from :
      (seen : List ℕ) (ps : List SignalParser)
      → ((p : SignalParser) → Listed p ps → Listed p entries)
      → NoneTakes seen
      → first_taking text (unique_from identity seen ps) ≡ first_taking text ps
  unfolding first_taking unique_from
  first_taking-unique_from seen [] among none_takes = refl
  first_taking-unique_from seen (p ∷ ps) among none_takes =
      let here : Listed p entries = among p (inl refl) in
      let later : (q : SignalParser) → Listed q ps → Listed q entries = λ q l. among q (inr l) in
      elim (Bool-cases (any (λ j. j == identity p) seen)) [
        | inl known ↦
            rw (known, none_takes p here known) (first_taking-unique_from seen ps later none_takes)
        | inr new ↦ elim (Bool-cases (p.can_parse text)) [
          | inl takes ↦ rw (new, takes) refl
          | inr refuses ↦
              rw (new, refuses)
                (first_taking-unique_from (identity p ∷ seen) ps later
                  (add_seen p seen here refuses none_takes))
        ]
      ]

abbrev pub Refuses : String → SignalParser → Type 0
Refuses text p = p.can_parse text ≡ false

-- A parser of the list that takes the text is found first, or none of them takes it.
abbrev pub Found : String → List SignalParser → SignalParser → Type 0
Found text ps p = (p.can_parse text ≡ true) × Listed p ps

first_taking_cases :
    (text : String) (ps : List SignalParser)
    → ((p : SignalParser) × (first_taking text ps ≡ some p) × Found text ps p)
      ⊎ ((first_taking text ps ≡ none) × All (Refuses text) ps)
unfolding first_taking
first_taking_cases text [] = inr (refl, tt)
first_taking_cases text (p ∷ ps) = elim (Bool-cases (p.can_parse text)) [
  | inl takes ↦ inl (p, rw takes refl, (takes, inl refl))
  | inr refuses ↦ elim (first_taking_cases text ps) [
    | inl (q, found, (takes, listed)) ↦ inl (q, rw refuses found, (takes, inr listed))
    | inr (nothing, rest) ↦ inr (rw refuses nothing, (refuses, rest))
  ]
]

Listed-get :
    (id : String) (reg : ParserRegistry) (p : SignalParser)
    → Dict.get id reg ≡ some p
    → Listed p (values reg)
unfolding Dict.get
Listed-get id [] p e = absurd (ground arith)
Listed-get id ((j, q) ∷ reg) p e = elim (Bool-cases (str_eq j id)) [
  | inl here ↦ inl (ground arith)
  | inr later ↦ inr (Listed-get id reg p (ground arith))
]

if_taking-Found :
    (text : String) (found : Option SignalParser) (ps : List SignalParser) (p : SignalParser)
    → ((q : SignalParser) → found ≡ some q → Listed q ps)
    → if_taking text found ≡ some p
    → Found text ps p
if_taking-Found text none ps p listed e = absurd (ground arith)
if_taking-Found text (some q) ps p listed e = elim (Bool-cases (q.can_parse text)) [
  | inl takes ↦ let same : q ≡ p = ground arith in rw (← same) (takes, listed q refl)
  | inr refuses ↦ absurd (ground arith)
]

preferred-Found :
    (text : String) (id : Option String) (reg : ParserRegistry) (p : SignalParser)
    → preferred text id reg ≡ some p
    → Found text (values reg) p
unfolding get Versioned.find
preferred-Found text none reg p e = absurd (ground arith)
preferred-Found text (some id) reg p e = elim (Bool-cases (str_eq id "")) [
  | inl unnamed ↦ absurd (ground arith)
  | inr named ↦
      if_taking-Found text (Dict.get id reg) (values reg) p (λ q. Listed-get id reg q)
        (rw named at e)
]

-- The preferred parser takes the text: an id is preferred that is not empty, a parser is registered
-- under it, and this parser takes the text.
abbrev pub IsPreferred : String → Option String → ParserRegistry → SignalParser → Type 0
IsPreferred text preferred_id reg p =
    (id : String) × (preferred_id ≡ some id)
    × (id ≢ "")
    × (Dict.get id reg ≡ some p)
    × (p.can_parse text ≡ true)

preferred-IsPreferred :
    (text : String) (preferred_id : Option String) (reg : ParserRegistry) (p : SignalParser)
    → preferred text preferred_id reg ≡ some p
    → IsPreferred text preferred_id reg p
unfolding get Versioned.find
preferred-IsPreferred text none reg p e = absurd (ground arith)
preferred-IsPreferred text (some id) reg p e = elim (Bool-cases (str_eq id "")) [
  | inl unnamed ↦ absurd (ground arith)
  | inr named ↦ elim (Option-cases (Dict.get id reg)) [
    | inl missing ↦ absurd (ground arith)
    | inr (q, found) ↦ elim (Bool-cases (q.can_parse text)) [
      | inr refuses ↦ absurd (ground arith)
      | inl takes ↦
          let same : q ≡ p = ground arith in
          (id, refl, λ e'. cc (named, (eq_iff id "").1 e'), rw (← same) found, rw (← same) takes)
    ]
  ]
]

IsPreferred-preferred :
    (text : String) (preferred_id : Option String) (reg : ParserRegistry) (p : SignalParser)
    → IsPreferred text preferred_id reg p
    → preferred text preferred_id reg ≡ some p
unfolding get Versioned.find
IsPreferred-preferred text none reg p (id, named, _, _, _) = cc named
IsPreferred-preferred text (some i) reg p (id, named, nonempty, found, takes) =
    let same : i ≡ id = some-injective _ _ named in ground (arith, eq_iff id "")

-- The first parser of a list that takes a text.
abbrev pub IsFirst : String → List SignalParser → SignalParser → Type 0
IsFirst text ps p =
    (before : List SignalParser) × (after : List SignalParser) × (ps ≡ before ++ (p ∷ after))
    × All (Refuses text) before
    × (p.can_parse text ≡ true)

first_taking-IsFirst :
    (text : String) (ps : List SignalParser) (p : SignalParser)
    → first_taking text ps ≡ some p
    → IsFirst text ps p
unfolding first_taking
first_taking-IsFirst text [] p e = absurd (ground arith)
first_taking-IsFirst text (q ∷ ps) p e = elim (Bool-cases (q.can_parse text)) [
  | inl takes ↦
      let same : q ≡ p = ground arith in
      ([], ps, ap (λ (x : SignalParser). x ∷ ps) same, tt, rw (← same) takes)
  | inr refuses ↦
      let (before, after, whole, all, takes) = first_taking-IsFirst text ps p (rw refuses at e) in
      (q ∷ before, after, ap (λ (xs : List SignalParser). q ∷ xs) whole, (refuses, all), takes)
]

-- What is found for a text: the parser that is registered under the preferred id, if an id that is not
-- empty is preferred and this parser takes the text; if there is no such parser, the first entry of
-- the registry that takes it; or nothing, and then no entry of the registry takes it.
pub resolve_for_text_cases :
    (identity : SignalParser → ℕ) (text : String) (preferred_id : Option String)
    (reg : ParserRegistry)
    → Identifies identity (values reg)
    → ((p : SignalParser) × (resolve_for_text identity text preferred_id reg ≡ some p)
        × (IsPreferred text preferred_id reg p
            ⊎ (((q : SignalParser) → ¬ IsPreferred text preferred_id reg q)
                × IsFirst text (values reg) p)))
      ⊎ ((resolve_for_text identity text preferred_id reg ≡ none) × All (Refuses text) (values reg))
unfolding resolve_for_text
resolve_for_text_cases identity text preferred_id reg identifies =
    elim (Option-cases (preferred text preferred_id reg)) [
      | inr (p, best) ↦
          inl (p, rw best refl, inl (preferred-IsPreferred text preferred_id reg p best))
      | inl nothing ↦
          let no_other : (q : SignalParser) → ¬ IsPreferred text preferred_id reg q =
            λ q it. cc (nothing, IsPreferred-preferred text preferred_id reg q it) in
          elim (first_taking_cases text (values reg)) [
            | inl (p, found, it) ↦ inl (
              p,
              rw (nothing, once) found,
              inr (no_other, first_taking-IsFirst text (values reg) p found),
            )
            | inr (none_found, all) ↦ inr (rw (nothing, once) none_found, all)
          ]
    ]
  where
    once : first_taking text (unique_from identity [] (values reg)) ≡ first_taking text (values reg)
    once =
        first_taking-unique_from identity text (values reg) identifies [] (values reg)
          (λ p listed. listed) (λ p listed known. cc)

-- `list_ids` is in ascending order with nothing twice, and lists an id exactly if some entry of the
-- registry has it.
pub list_ids-exact :
    (reg : ParserRegistry) (id : String)
    → IsAscending (list_ids reg)
      × (is_in id (list_ids reg) ≡ any (λ (p : SignalParser). str_eq p.parser_id id) (values reg))
unfolding list_ids
list_ids-exact reg id =
    let ids = map (λ (p : SignalParser). p.parser_id) (values reg) in
    (sorted_set-IsAscending ids, is_in-sorted_set id ids ∙ in_map (values reg))
  where
    in_map :
        (ps : List SignalParser)
        → is_in id (map (λ (p : SignalParser). p.parser_id) ps)
          ≡ any (λ (p : SignalParser). str_eq p.parser_id id) ps
    in_map [] = refl
    in_map (p ∷ ps) = ap (λ (b : Bool). str_eq p.parser_id id || b) (in_map ps)
