-- ===== src/Parsers/Structured/Acceptance.antt =====
-- Which texts the parser takes.
use safe_signal_trader_v.Prelude.{
  ◌≤◌, true, not, Option, none, some, ◌≡◌, ◌≢◌, ◌↔◌, refl, arith, length, is_none,
}
use safe_signal_trader_v.Parsers.Text.{Text, strip}
use safe_signal_trader_v.Parsers.Regex.{Groups, search_text}
use safe_signal_trader_v.Parsers.Regex.Matching.{Occurs, search_text_iff}
use safe_signal_trader_v.Parsers.Patterns.{signal_re}
use safe_signal_trader_v.Parsers.Structured.{can_parse}

is_none_iff {ℓ} : {A : Type ℓ} (o : Option A) → (not (is_none o) ≡ true) ↔ (o ≢ none)
is_none_iff none = (λ e. cc, λ h. absurd (h refl))
is_none_iff (some a) = (λ _ e. cc, λ _. refl)

-- The parser takes a text, by these patterns, exactly if eight characters are left of it without the white space around
-- it, and the line of a signal, read as a relation on texts, holds from the start of some line.
pub can_parse_iff :
    (text : Text)
    → (can_parse text ≡ true)
      ↔ ((8 ≤ length (strip text)) × (t : Text) × (h : Groups) × Occurs signal_re true text t h)
unfolding can_parse
can_parse_iff text =
    let present = is_none_iff (search_text signal_re text) in
    let found = search_text_iff signal_re text in
    (
      λ e.
          let long_enough : 8 ≤ length (strip text) = ground arith in
          let (t, h, o) = found.0 (present.0 (ground arith)) in (long_enough, t, h, o),
      λ (long_enough, t, h, o).
          let hit : not (is_none (search_text signal_re text)) ≡ true =
            present.1 (found.1 (t, h, o)) in
          ground arith,
    )
