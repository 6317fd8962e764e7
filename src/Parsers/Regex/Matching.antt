-- ===== src/Parsers/Regex/Matching.antt =====
-- The backtracking matcher finds a match exactly where the pattern, read as a relation on texts, has
-- one.
use Prim.Native.Char.{Char}
use safe_signal_trader_v.Prelude.{
  ◌-◌, Bool, true, false, Option, none, some, [], ◌∷◌, ◌++◌, ◌≡◌, ◌≢◌, ◌↔◌, ◌⊎◌, inl, inr, refl, ap,
  ◌∙◌, arith, All, Bool-cases, Option-cases, length,
}
use safe_signal_trader_v.Prelude.Eq.{string_eq}
use safe_signal_trader_v.Prelude.Dict
use safe_signal_trader_v.Parsers.Text.{Text, is_newline}
use safe_signal_trader_v.Parsers.Regex.{
  Regex, Groups, run, run_many, taken, at_line_end, finish, match_at, search_from, search_text,
}

-- The pattern can take the text from `s` down to `t`, and the groups from `g` to `h`.
abbrev pub Takes : Regex → Text → Groups → Text → Groups → Type 0
Takes Regex.empty s g t h = (s ≡ t) × (g ≡ h)
Takes (Regex.one p) s g t h = (c : Char) × (s ≡ c ∷ t) × (p c ≡ true) × (g ≡ h)
Takes (Regex.many p) s g t h =
    (w : Text) × (s ≡ w ++ t) × All (λ (c : Char). p c ≡ true) w × (g ≡ h)
Takes (Regex.seq a b) s g t h =
    (middle : Text) × (j : Groups) × Takes a s g middle j × Takes b middle j t h
Takes (Regex.alt a b) s g t h = Takes a s g t h ⊎ Takes b s g t h
Takes (Regex.optional a) s g t h = Takes a s g t h ⊎ ((s ≡ t) × (g ≡ h))
Takes (Regex.group n a) s g t h =
    (j : Groups) × Takes a s g t j × (h ≡ Dict.put n (taken (length s - length t) s) j)
Takes Regex.line_end s g t h = (s ≡ t) × (g ≡ h) × (at_line_end s ≡ true)

module _ {R : Type 0} where
  -- What a run that succeeds has found.
  abbrev Found : Regex → (Text → Groups → Option R) → Text → Groups → R → Type 0
  Found r k s g x = (t : Text) × (h : Groups) × Takes r s g t h × (k t h ≡ some x)

  run_many-Found :
      (p : Char → Bool) (k : Text → Groups → Option R) (s : Text) (g : Groups) (x : R)
      → run_many p k s g ≡ some x
      → Found (Regex.many p) k s g x
  unfolding run_many
  run_many-Found p k [] g x e = ([], g, ([], refl, tt, refl), e)
  run_many-Found p k (c ∷ s) g x e = elim (Bool-cases (p c)) [
    | inl fits ↦ elim (Option-cases (run_many p k s g)) [
      | inl stuck ↦ (c ∷ s, g, ([], refl, tt, refl), ground (arith, stuck))
      | inr (y, more) ↦
          let same : y ≡ x = ground arith in
          let (t, h, (w, split, fit, eq), done) = run_many-Found p k s g x (more ∙ ap some same) in
          (t, h, (c ∷ w, ap (λ (u : Text). c ∷ u) split, (fits, fit), eq), done)
    ]
    | inr other ↦ (c ∷ s, g, ([], refl, tt, refl), ground arith)
  ]

  run-Found :
      (r : Regex) (k : Text → Groups → Option R) (s : Text) (g : Groups) (x : R)
      → run r k s g ≡ some x
      → Found r k s g x
  unfolding run
  run-Found Regex.empty k s g x e = (s, g, (refl, refl), e)
  run-Found (Regex.one p) k [] g x e = absurd (ground arith)
  run-Found (Regex.one p) k (c ∷ s) g x e = (s, g, (c, refl, ground arith, refl), ground arith)
  run-Found (Regex.many p) k s g x e = run_many-Found p k s g x e
  run-Found (Regex.seq a b) k s g x e =
      let (middle, j, first, e') = run-Found a (run b k) s g x e in
      let (t, h, second, e'') = run-Found b k middle j x e' in
      (t, h, (middle, j, first, second), e'')
  run-Found (Regex.alt a b) k s g x e = elim (Option-cases (run a k s g)) [
    | inl left ↦
        let (t, h, takes, done) = run-Found b k s g x (ground arith) in (t, h, inr takes, done)
    | inr (y, left) ↦
        let (t, h, takes, done) = run-Found a k s g x (ground arith) in (t, h, inl takes, done)
  ]
  run-Found (Regex.optional a) k s g x e = elim (Option-cases (run a k s g)) [
    | inl left ↦ (s, g, inr (refl, refl), ground arith)
    | inr (y, left) ↦
        let (t, h, takes, done) = run-Found a k s g x (ground arith) in (t, h, inl takes, done)
  ]
  run-Found (Regex.group n a) k s g x e =
      let (t, j, takes, done) = run-Found a _ s g x e in (t, _, (j, takes, refl), done)
  run-Found Regex.line_end k s g x e = (s, g, (refl, refl, ground arith), ground arith)

  run_many-total :
      (p : Char → Bool) (k : Text → Groups → Option R) (w t : Text) (g : Groups)
      → All (λ (c : Char). p c ≡ true) w
      → k t g ≢ none
      → run_many p k (w ++ t) g ≢ none
  unfolding run_many
  run_many-total p k [] [] g fit ok = ok
  run_many-total p k [] (c ∷ t) g fit ok = ground arith
  run_many-total p k (c ∷ w) t g fit ok = ground (arith, run_many-total p k w t g fit.1 ok)

  run-total :
      (r : Regex) (k : Text → Groups → Option R) (s : Text) (g : Groups) (t : Text) (h : Groups)
      → Takes r s g t h
      → k t h ≢ none
      → run r k s g ≢ none
  unfolding run
  run-total Regex.empty k s g t h (e, e') ok = rw (e, e') ok
  run-total (Regex.one p) k s g t h (c, e, fit, e') ok = rw (e, e', run) (ground arith)
  run-total (Regex.many p) k s g t h (w, e, fit, e') ok =
      rw (e, e') (run_many-total p k w t h fit ok)
  run-total (Regex.seq a b) k s g t h (middle, j, first, second) ok =
      run-total a (run b k) s g middle j first (run-total b k middle j t h second ok)
  run-total (Regex.alt a b) k s g t h (inl takes) ok =
      ground (arith, run-total a k s g t h takes ok)
  run-total (Regex.alt a b) k s g t h (inr takes) ok =
      ground (arith, run-total b k s g t h takes ok)
  run-total (Regex.optional a) k s g t h (inl takes) ok =
      ground (arith, run-total a k s g t h takes ok)
  run-total (Regex.optional a) k s g t h (inr (e, e')) ok = rw (e, e') (ground arith)
  run-total (Regex.group n a) k s g t h (j, takes, e) ok = run-total a _ s g t j takes (rw (← e) ok)
  run-total Regex.line_end k s g t h (e, e', end) ok =
      let fits : at_line_end t ≡ true = rw e at end in rw (e, e') (ground (arith, ok))

-- A text at whose end a line starts, if one starts before it where `start` says so.
abbrev pub StartsLine : Bool → Text → Type 0
StartsLine start [] = start ≡ true
StartsLine start (c ∷ before) = StartsLine (is_newline c) before

-- The pattern occurs at the start of a line, with these groups and this text after it.
pub record Occurs (r : Regex) (start : Bool) (s : Text) (t : Text) (h : Groups) : Type 0 where
  pub before : Text
  pub from : Text
  pub split : s ≡ before ++ from
  pub starts : StartsLine start before
  pub takes : Takes r from [] t h

match_at-Takes :
    (r : Regex) (start : Bool) (s : Text) (h : Groups) (t : Text)
    → match_at r start s ≡ some (h, t)
    → (start ≡ true) × Takes r s [] t h
unfolding match_at
match_at-Takes r false s h t e = absurd (ground arith)
match_at-Takes r true s h t e =
    let (t', h', takes, done) = run-Found r finish s [] (h, t) e in
    let same : (t' ≡ t) × (h' ≡ h) = ground arith in (refl, rw (same.0, same.1) at takes)

match_at-total : (r : Regex) (s t : Text) (h : Groups) → Takes r s [] t h → match_at r true s ≢ none
unfolding match_at
match_at-total r s t h takes = run-total r finish s [] t h takes (λ e. cc)

pub search_from-Occurs :
    (r : Regex) (start : Bool) (s t : Text) (h : Groups)
    → search_from r start s ≡ some (h, t)
    → Occurs r start s t h
unfolding search_from
search_from-Occurs r start [] t h e =
    let (starts, takes) = match_at-Takes r start [] h t e in
    record { before = []; from = []; split = refl; starts = starts; takes = takes }
search_from-Occurs r start (c ∷ s) t h e = elim (Option-cases (match_at r start (c ∷ s))) [
  | inl missed ↦
      let later = search_from-Occurs r (is_newline c) s t h (ground arith) in
      record {
        before = c ∷ later.before;
        from = later.from;
        split = ap (λ (u : Text). c ∷ u) later.split;
        starts = later.starts;
        takes = later.takes;
      }
  | inr (m, hit) ↦
      let (starts, takes) = match_at-Takes r start (c ∷ s) h t (ground arith) in
      record { before = []; from = c ∷ s; split = refl; starts = starts; takes = takes }
]

search_from-total :
    (r : Regex) (start : Bool) (before from t : Text) (h : Groups)
    → StartsLine start before
    → Takes r from [] t h
    → search_from r start (before ++ from) ≢ none
unfolding search_from
search_from-total r start [] [] t h starts takes = rw starts (match_at-total r [] t h takes)
search_from-total r start [] (c ∷ from) t h starts takes =
    let hit : match_at r start (c ∷ from) ≢ none =
      rw starts (match_at-total r (c ∷ from) t h takes) in
    ground arith
search_from-total r start (c ∷ before) from t h starts takes =
    ground (arith, search_from-total r (is_newline c) before from t h starts takes)

-- `re.search` finds something exactly if the pattern, read as a relation, holds from the start of
-- some line of the text.
pub search_text_iff :
    (r : Regex) (s : Text)
    → (search_text r s ≢ none) ↔ ((t : Text) × (h : Groups) × Occurs r true s t h)
unfolding search_text
search_text_iff r s =
    (found, λ (t, h, o). rw o.split (search_from-total r true o.before o.from t h o.starts o.takes))
  where
    found : search_text r s ≢ none → (t : Text) × (h : Groups) × Occurs r true s t h
    found some_match = elim (Option-cases (search_from r true s)) [
      | inl nothing ↦ absurd (some_match nothing)
      | inr ((h, t), hit) ↦ (t, h, search_from-Occurs r true s t h hit)
    ]
