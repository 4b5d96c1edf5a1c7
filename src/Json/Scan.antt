-- ===== src/Json/Scan.antt =====
-- The loops over the stream that skip or collect bytes, on a text that is given in pieces.
use ss_logger_cpp.Prelude.{
  ℕ, ◌≤◌, Bool, false, not, ◌≡◌, refl, ap, arith, [], ◌∷◌, ◌++◌, Bytes, All, length, ◌==◌,
  Bool-cases, inl, inr,
}
use ss_logger_cpp.Json.Stream.{
  Stream, live, spent, peek, get, is_space, read_text, read_while, skip_whitespace, skip_to_comma,
}

abbrev pub not_comma : ℕ → Bool
not_comma c = not (c == b',')

abbrev pub not_quote : ℕ → Bool
not_quote c = not (c == b'"')

module _ (test : ℕ → Bool) where
  pub read_text_stop :
      (xs : Bytes) (c : ℕ) (r : Bytes)
      → All test xs
      → test c ≡ false
      → read_text test (xs ++ c ∷ r) ≡ (xs, live (c ∷ r))
  unfolding read_text
  read_text_stop [] c r h e = rw e
  read_text_stop (x ∷ xs) c r h e = rw (h.0, read_text_stop xs c r h.1 e)

  pub read_text_end : (xs : Bytes) → All test xs → read_text test xs ≡ (xs, spent)
  unfolding read_text
  read_text_end [] h = refl
  read_text_end (x ∷ xs) h = rw (h.0, read_text_end xs h.1)

  pub read_while_stop :
      (xs : Bytes) (c : ℕ) (r : Bytes)
      → All test xs
      → test c ≡ false
      → read_while test (live (xs ++ c ∷ r)) ≡ (xs, live (c ∷ r))
  unfolding read_while
  read_while_stop xs c r h e = read_text_stop xs c r h e

-- Whitespace in front of a byte that is none is skipped.
pub skip_whitespace_stop :
    (w : Bytes) (c : ℕ) (r : Bytes)
    → All is_space w
    → is_space c ≡ false
    → skip_whitespace (live (w ++ c ∷ r)) ≡ live (c ∷ r)
unfolding skip_whitespace
skip_whitespace_stop w c r h e =
    ap (λ (p : Bytes × Stream). p.1) (read_text_stop is_space w c r h e)

pub skip_whitespace_end : (w : Bytes) → All is_space w → skip_whitespace (live w) ≡ spent
unfolding skip_whitespace
skip_whitespace_end w h = ap (λ (p : Bytes × Stream). p.1) (read_text_end is_space w h)

pub skip_to_comma_stop :
    (xs r : Bytes) → All not_comma xs → skip_to_comma (live (xs ++ b',' ∷ r)) ≡ live (b',' ∷ r)
unfolding skip_to_comma
skip_to_comma_stop xs r h =
    ap (λ (p : Bytes × Stream). p.1) (read_text_stop not_comma xs b',' r h refl)

pub skip_to_comma_end : (xs : Bytes) → All not_comma xs → skip_to_comma (live xs) ≡ spent
unfolding skip_to_comma
skip_to_comma_end xs h = ap (λ (p : Bytes × Stream). p.1) (read_text_end not_comma xs h)

-- The number of bytes that are left to read.
abbrev pub size : Stream → ℕ
size (live bs) = length bs
size spent = 0

pub size-read_text : (test : ℕ → Bool) (bs : Bytes) → size (read_text test bs).1 ≤ length bs
unfolding read_text
size-read_text test [] = omega arith
size-read_text test (c ∷ r) = elim (Bool-cases (test c)) [
  | inl e ↦ rw e (omega (arith, size-read_text test r))
  | inr e ↦ rw e (omega arith)
]

pub size-skip_whitespace : (s : Stream) → size (skip_whitespace s) ≤ size s
unfolding skip_whitespace
size-skip_whitespace (live bs) = size-read_text is_space bs
size-skip_whitespace spent = omega arith

pub size-skip_to_comma : (s : Stream) → size (skip_to_comma s) ≤ size s
unfolding skip_to_comma
size-skip_to_comma (live bs) = size-read_text not_comma bs
size-skip_to_comma spent = omega arith

pub size-get : (s : Stream) → size (get s).1 ≤ size s
unfolding get
size-get (live []) = omega arith
size-get (live (c ∷ r)) = omega arith
size-get spent = omega arith

pub size-peek : (s : Stream) → size (peek s).1 ≤ size s
unfolding peek
size-peek (live []) = omega arith
size-peek (live (c ∷ r)) = omega arith
size-peek spent = omega arith
