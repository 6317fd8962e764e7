-- ===== src/Parsers/Text.antt =====
-- Texts as lists of characters, and the methods of `str` that the parser calls. Letters and digits are
-- those of ASCII: Python's `upper`, `\d` and IGNORECASE also know others, which are left out.
use Prim.Native.Char.{Char, char, code, IsScalar}
use Prim.Native.Nat.{compare, Ordering}
use Prim.Native.String.{String}
use safe_signal_trader_v.Prelude.{
  ℕ, ◌-◌, Bool, true, false, ◌&&◌, ◌||◌, List, [], ◌∷◌, leb, ◌==◌, ◌≡◌, refl, arith, if◌then◌else◌,
}

abbrev pub Text : Type 0
Text = List Char

unfoldable pub chars : String → Text
chars String.[] = []
chars (String.◌∷◌ c s) = c ∷ chars s

unfoldable pub string_of : Text → String
string_of [] = String.[]
string_of (c ∷ s) = String.◌∷◌ c (string_of s)

-- `\s`, and what `strip` removes: `str.isspace`
unfoldable pub is_space : Char → Bool
is_space c =
    let n = code c in
    (leb 9 n && leb n 13)
    || (leb 28 n && leb n 32)
    || n == 0x85
    || n == 0xa0
    || n == 0x1680
    || (leb 0x2000 n && leb n 0x200a)
    || n == 0x2028
    || n == 0x2029
    || n == 0x202f
    || n == 0x205f
    || n == 0x3000

unfoldable pub is_newline : Char → Bool
is_newline c = code c == 10

unfoldable pub is_digit : Char → Bool
is_digit c = leb b'0' (code c) && leb (code c) b'9'

abbrev pub is_lower : ℕ → Bool
is_lower n = leb b'a' n && leb n b'z'

abbrev pub is_upper : ℕ → Bool
is_upper n = leb b'A' n && leb n b'Z'

-- `[A-Za-z0-9]`
unfoldable pub is_alnum : Char → Bool
unfolding is_digit
is_alnum c = is_digit c || is_upper (code c) || is_lower (code c)

-- `[\d.]`
unfoldable pub is_amount : Char → Bool
unfolding is_digit
is_amount c = is_digit c || code c == b'.'

scalar_of_ordering : (n : ℕ) (o : Ordering) → compare n 55296 ≡ o → o ≡ Ordering.lt → IsScalar n
scalar_of_ordering n o e h = rw (e, h) tt

scalar_below : (n : ℕ) → is_lower n ≡ true → IsScalar (n - 32)
scalar_below n h = scalar_of_ordering (n - 32) (compare (n - 32) 55296) refl (ground arith)

unfoldable pub upper_by : (n : ℕ) → IsScalar n → (b : Bool) → is_lower n ≡ b → Char
unfolding scalar_below scalar_of_ordering
upper_by n p true low = char (n - 32) (scalar_below n low)
upper_by n p false other = char n p

-- `upper` of one letter
unfoldable pub upper_char : Char → Char
unfolding upper_by
upper_char (char n p) = upper_by n p (is_lower n) refl

unfoldable pub upper : Text → Text
unfolding upper_char
upper [] = []
upper (c ∷ s) = upper_char c ∷ upper s

unfoldable pub drop_spaces : Text → Text
drop_spaces [] = []
drop_spaces (c ∷ s) = if is_space c then drop_spaces s else c ∷ s

unfoldable pub is_blank : Text → Bool
is_blank [] = true
is_blank (c ∷ s) = is_space c && is_blank s

unfoldable pub drop_trailing_spaces : Text → Text
drop_trailing_spaces [] = []
drop_trailing_spaces (c ∷ s) =
    let rest = drop_trailing_spaces s in if is_space c && is_blank s then [] else c ∷ rest

-- `s.strip()`
unfoldable pub strip : Text → Text
unfolding drop_spaces is_blank drop_trailing_spaces
strip s = drop_trailing_spaces (drop_spaces s)

-- equality of texts
unfoldable pub same : Text → Text → Bool
same [] [] = true
same (c ∷ s) (d ∷ t) = code c == code d && same s t
same _ _ = false

-- `s.endswith(t)`
unfoldable pub ends_with : Text → Text → Bool
unfolding same
ends_with [] t = same [] t
ends_with (c ∷ s) t = same (c ∷ s) t || ends_with s t
