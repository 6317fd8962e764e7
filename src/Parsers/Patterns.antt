-- ===== src/Parsers/Patterns.antt =====
-- parsers/generic_structured.py: its regular expressions.
use Prim.Native.Char.{Char, code}
use Prim.Native.String.{String}
use safe_signal_trader_v.Prelude.{Bool, leb, ◌==◌, ◌&&◌}
use safe_signal_trader_v.Parsers.Text.{Text, chars, is_space, is_digit, is_alnum, is_amount}
use safe_signal_trader_v.Parsers.Regex.{
  Regex, seq, many, alt, optional, group, one, line_end, some_of, word,
}

-- ^\s* … \s*$
abbrev pub line : Regex → Regex
line r = seq (many is_space) (seq r (seq (many is_space) line_end))

-- a keyword, white space, and what follows
abbrev pub after_word : Text → Regex → Regex
after_word w r = seq (word w) (seq (some_of is_space) r)

abbrev pub amount : String → Regex
amount name = group name (some_of is_amount)

abbrev pub side_word : Regex
side_word =
    alt (word (chars "LONG"))
      (alt (word (chars "SHORT")) (alt (word (chars "BUY")) (word (chars "SELL"))))

-- `_SIGNAL_RE`
abbrev pub signal_re : Regex
signal_re = line (
    after_word (chars "SIGNAL")
      (seq (group "side" side_word) (seq (some_of is_space) (group "symbol" (some_of is_alnum)))))

-- `_ENTRY_RE`
abbrev pub entry_re : Regex
entry_re = line (after_word (chars "ENTRY") (amount "price"))

-- `_SL_RE`
abbrev pub sl_re : Regex
sl_re = line (after_word (chars "SL") (amount "price"))

-- [1-5]
unfoldable pub is_index : Char → Bool
is_index c = leb b'1' (code c) && leb (code c) b'5'

unfoldable pub is_percent : Char → Bool
is_percent c = code c == b'%'

-- `_TP_RE`
abbrev pub tp_re : Regex
tp_re = line (
    seq (word (chars "TP")) (
      seq (group "idx" (one is_index)) (
        seq (some_of is_space) (
          seq (amount "price")
            (optional (seq (some_of is_space) (seq (amount "pct") (optional (one is_percent)))))))))

-- `_LEV_RE`
abbrev pub lev_re : Regex
lev_re = line (
    seq (word (chars "LEV")) (
      seq (optional (word (chars "ERAGE")))
        (seq (some_of is_space) (group "lev" (some_of is_digit)))))
