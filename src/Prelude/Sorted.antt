-- ===== src/Prelude/Sorted.antt =====
-- Texts in the order of their code points, and `sorted` of a set of texts.
use Prim.Native.Char.{code}
use Prim.Native.String.{String}
use mathlib.Core.Path.{◌≡◌, refl}
use mathlib.Core.Logic.{inl, inr}
use mathlib.Core.Bool.{Bool, true, false, ◌&&◌, ◌||◌}
use mathlib.Core.List.{List, [], ◌∷◌}
use native.Mathlib.Omega.{arith}
use text.Mathlib.Text.{◌==◌ as str_eq}
use text.Mathlib.TextEquality.{Char-path}
use safe_signal_trader_v.Prelude.Tests.{ltb, ◌==◌, if◌then◌else◌, Bool-cases}
use safe_signal_trader_v.Prelude.Lists.{any, All}

-- `s < t`
unfoldable pub precedes : String → String → Bool
precedes String.[] String.[] = false
precedes String.[] (String.◌∷◌ d t) = true
precedes (String.◌∷◌ c s) String.[] = false
precedes (String.◌∷◌ c s) (String.◌∷◌ d t) =
    ltb (code c) (code d) || (code c == code d && precedes s t)

pub precedes_trans :
    (s t u : String) → precedes s t ≡ true → precedes t u ≡ true → precedes s u ≡ true
unfolding precedes
precedes_trans String.[] String.[] u h k = absurd (ground arith)
precedes_trans String.[] (String.◌∷◌ d t) String.[] h k = absurd (ground arith)
precedes_trans String.[] (String.◌∷◌ d t) (String.◌∷◌ e u) h k = refl
precedes_trans (String.◌∷◌ c s) String.[] u h k = absurd (ground arith)
precedes_trans (String.◌∷◌ c s) (String.◌∷◌ d t) String.[] h k = absurd (ground arith)
precedes_trans (String.◌∷◌ c s) (String.◌∷◌ d t) (String.◌∷◌ e u) h k =
    ground (arith, precedes_trans s t u)

pub precedes_total : (s t : String) → precedes s t ≡ false → precedes t s ≡ false → s ≡ t
unfolding precedes
precedes_total String.[] String.[] h k = refl
precedes_total String.[] (String.◌∷◌ d t) h k = absurd (ground arith)
precedes_total (String.◌∷◌ c s) String.[] h k = absurd (ground arith)
precedes_total (String.◌∷◌ c s) (String.◌∷◌ d t) h k =
    let same : c ≡ d = Char-path c d (ground arith) in
    let rest : s ≡ t = precedes_total s t (ground arith) (ground arith) in
    λ i. String.◌∷◌ (same i) (rest i)

-- a text put into its place, unless it is there
unfoldable pub insert_text : String → List String → List String
insert_text x [] = x ∷ []
insert_text x (y ∷ ys) =
    if precedes x y
    then x ∷ y ∷ ys
    else (let rest = insert_text x ys in if precedes y x then y ∷ rest else y ∷ ys)

-- `sorted({…})` over the texts
unfoldable pub sorted_set : List String → List String
unfolding insert_text
sorted_set [] = []
sorted_set (x ∷ xs) = insert_text x (sorted_set xs)

abbrev pub IsAscending : List String → Type 0
IsAscending [] = Unit
IsAscending (x ∷ xs) = All (λ (y : String). precedes x y ≡ true) xs × IsAscending xs

-- `x in xs`
abbrev pub is_in : String → List String → Bool
is_in x xs = any (λ (y : String). str_eq y x) xs

after_all :
    (x y : String) (zs : List String)
    → precedes x y ≡ true
    → All (λ (z : String). precedes y z ≡ true) zs
    → All (λ (z : String). precedes x z ≡ true) zs
after_all x y [] h k = tt
after_all x y (z ∷ zs) h k = (precedes_trans x y z h k.0, after_all x y zs h k.1)

All-insert_text {κ} :
    (P : String → Type κ) (x : String) (ys : List String)
    → P x
    → All P ys
    → All P (insert_text x ys)
unfolding insert_text
All-insert_text P x [] p ps = (p, tt)
All-insert_text P x (y ∷ ys) p ps = elim (Bool-cases (precedes x y)) [
  | inl first ↦ rw first (p, ps)
  | inr later ↦ elim (Bool-cases (precedes y x)) [
    | inl on ↦ rw (later, on) (ps.0, All-insert_text P x ys p ps.1)
    | inr same ↦ rw (later, same) ps
  ]
]

insert_text-IsAscending :
    (x : String) (ys : List String) → IsAscending ys → IsAscending (insert_text x ys)
unfolding insert_text
insert_text-IsAscending x [] h = (tt, tt)
insert_text-IsAscending x (y ∷ ys) h = elim (Bool-cases (precedes x y)) [
  | inl first ↦ rw first ((first, after_all x y ys first h.0), h)
  | inr later ↦ elim (Bool-cases (precedes y x)) [
    | inl on ↦
        rw (later, on)
          (
            All-insert_text (λ (z : String). precedes y z ≡ true) x ys on h.0,
            insert_text-IsAscending x ys h.1,
          )
    | inr same ↦ rw (later, same) h
  ]
]

is_in-insert_text :
    (z x : String) (ys : List String) → is_in z (insert_text x ys) ≡ (str_eq x z || is_in z ys)
unfolding insert_text
is_in-insert_text z x [] = refl
is_in-insert_text z x (y ∷ ys) = elim (Bool-cases (precedes x y)) [
  | inl first ↦ rw first refl
  | inr later ↦ elim (Bool-cases (precedes y x)) [
    | inl on ↦ rw (later, on) (ground (arith, is_in-insert_text z x ys))
    | inr same ↦ rw (later, same, precedes_total x y later same) (ground arith)
  ]
]

pub sorted_set-IsAscending : (xs : List String) → IsAscending (sorted_set xs)
unfolding sorted_set
sorted_set-IsAscending [] = tt
sorted_set-IsAscending (x ∷ xs) =
    insert_text-IsAscending x (sorted_set xs) (sorted_set-IsAscending xs)

pub is_in-sorted_set : (z : String) (xs : List String) → is_in z (sorted_set xs) ≡ is_in z xs
unfolding sorted_set
is_in-sorted_set z [] = refl
is_in-sorted_set z (x ∷ xs) =
    ground (arith, is_in-insert_text z x (sorted_set xs), is_in-sorted_set z xs)
