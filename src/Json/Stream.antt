-- ===== src/Json/Stream.antt =====
-- The `std::stringstream` of the parser, seen from its reads.
--
-- `live bs`: `good()` holds and `bs` is unread. `spent`: a read has met the end, so `good()` does
-- not hold any more; each later `peek` and `get` gives EOF and `tellg` gives -1. No code clears
-- the state, and the text is not written to, so this is all that the parser can observe.
use ss_logger_cpp.Prelude.{
  ℕ, Bool, false, not, ◌||◌, ◌&&◌, Option, none, some, [], ◌∷◌, Bytes, ◌==◌, leb, if◌then◌else◌,
}
use ss_logger_cpp.Json.Result.{Result, ok, throws, out_of_range}

pub data Stream : Type 0 where
  live : Bytes → Stream
  spent : Stream

-- `ss.peek()`; `none` is EOF, -1.
unfoldable pub peek : Stream → Option ℕ × Stream
peek (live []) = (none, spent)
peek (live (c ∷ r)) = (some c, live (c ∷ r))
peek spent = (none, spent)

-- `ss.get()`.
unfoldable pub get : Stream → Option ℕ × Stream
get (live []) = (none, spent)
get (live (c ∷ r)) = (some c, live r)
get spent = (none, spent)

-- A comparison of what a read gave with a character literal.
abbrev pub is : ℕ → Option ℕ → Bool
is c none = false
is c (some d) = d == c

-- The conversion of what a read gave to `char`; EOF is -1, the byte 255.
abbrev pub to_char : Option ℕ → ℕ
to_char none = 255
to_char (some c) = c

-- `ss.str().substr(ss.tellg())`: a copy of the unread text. On a stream that is not good `tellg`
-- is -1, above the length of every text, and `substr` throws.
unfoldable pub unread : Stream → Result Bytes
unread (live bs) = ok bs
unread spent = throws out_of_range

abbrev pub is_space : ℕ → Bool
is_space c = c == b' ' || c == b'\n' || c == b'\t' || c == b'\r'

-- `isdigit` and `isalpha` of the "C" locale.
abbrev pub is_digit : ℕ → Bool
is_digit c = leb b'0' c && leb c b'9'

abbrev pub is_alpha : ℕ → Bool
is_alpha c = leb b'A' c && leb c b'Z' || leb b'a' c && leb c b'z'

-- `while (test(ss.peek())) value += ss.get();` for a test that fails at EOF.
unfoldable pub read_text : (ℕ → Bool) → Bytes → Bytes × Stream
read_text test [] = ([], spent)
read_text test (c ∷ r) =
    let (value, s) = read_text test r in if test c then (c ∷ value, s) else ([], live (c ∷ r))

unfoldable pub read_while : (ℕ → Bool) → Stream → Bytes × Stream
unfolding read_text
read_while test (live bs) = read_text test bs
read_while test spent = ([], spent)

-- `JSON::SkipWhitespace`.
unfoldable pub skip_whitespace : Stream → Stream
unfolding read_while
skip_whitespace s = (read_while is_space s).1

-- `while (ss.peek() != ',' && ss.peek() != -1) ss.get();`.
unfoldable pub skip_to_comma : Stream → Stream
unfolding read_while
skip_to_comma s = (read_while (λ c. not (c == b',')) s).1
