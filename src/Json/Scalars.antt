-- ===== src/Json/Scalars.antt =====
-- Values that are no objects, in front of a delimiter.
use ss_logger_cpp.Prelude.{
  ℕ, suc, Bool, true, false, ◌||◌, ◌≡◌, refl, ap, arith, [], ◌∷◌, ◌++◌, Bytes, length,
  length-append, ◌==◌, ◌∙◌, All, codes, equal, append_assoc,
}
use ss_logger_cpp.Json.Result.{Result, ok}
use ss_logger_cpp.Json.Stream.{live, peek, is_space, is_digit, is_alpha}
use ss_logger_cpp.Json.Value.{Json, new_nil, new_string, new_number, new_bool}
use ss_logger_cpp.Json.Parser.{parse_bool, parse_null, parse_number, value_of, parse_step, parse}
use ss_logger_cpp.Json.Scan.{not_comma, not_quote, skip_whitespace_stop, read_while_stop}
use ss_logger_cpp.Json.Strings.{parse_string_closed}
use ss_logger_cpp.Json.Fuel.{parse_lem}

-- A numeral, with its first byte apart and the number that it stands for, a string with no
-- escapes, a Boolean, or null.
pub data Scalar (D : Type 0) : Type 0 where
  numeral : ℕ → Bytes → D → Scalar D
  text : Bytes → Scalar D
  truth : Bool → Scalar D
  null : Scalar D

abbrev pub number_byte : ℕ → Bool
number_byte c = is_digit c || c == b'.' || c == b'-'

abbrev pub bool_text : Bool → Bytes
bool_text true = codes "true"
bool_text false = codes "false"

module _ {D : Type 0} where
  abbrev pub show : Scalar D → Bytes
  show (numeral c more d) = c ∷ more
  show (text s) = b'"' ∷ (s ++ b'"' ∷ [])
  show (truth b) = bool_text b
  show null = codes "null"

  unfoldable pub json_of : Scalar D → Json D
  json_of (numeral c more d) = new_number d
  json_of (text s) = new_string s
  json_of (truth b) = new_bool b
  json_of null = new_nil

  -- The text is of the form that the parser reads whole; `stod` gives the number of a numeral.
  abbrev pub IsScalar : (Bytes → Result D) → Scalar D → Type 0
  IsScalar stod (numeral c more d) =
      (is_digit c || c == b'-' ≡ true) × All number_byte more × (stod (c ∷ more) ≡ ok d)
  IsScalar stod (text s) = All not_quote s × All not_comma s
  IsScalar stod (truth b) = Unit
  IsScalar stod null = Unit

-- What may stand behind a value.
abbrev pub is_delimiter : ℕ → Bool
is_delimiter c = is_space c || c == b',' || c == b'}'

delimiter_lem : (c : ℕ) → is_delimiter c ≡ true → (number_byte c ≡ false) × (is_alpha c ≡ false)
delimiter_lem c h = ground arith

number_start :
    (c : ℕ)
    → is_digit c || c == b'-' ≡ true
    → (is_space c ≡ false) × (c == b'{' ≡ false) × (c == b'"' ≡ false) × (number_byte c ≡ true)
number_start c h = ground arith

bool_text-alpha : (b : Bool) → All is_alpha (bool_text b)
bool_text-alpha true = (refl, (refl, (refl, (refl, tt))))
bool_text-alpha false = (refl, (refl, (refl, (refl, (refl, tt)))))

module _ {D : Type 0} where
  parse_bool_lem :
      (b : Bool) (d : ℕ) (r : Bytes)
      → is_alpha d ≡ false
      → parse_bool {D = D} (live (bool_text b ++ d ∷ r)) ≡ ok (new_bool b, live (d ∷ r))
  unfolding parse_bool equal
  parse_bool_lem true d r h =
      rw (read_while_stop is_alpha (codes "true") d r (bool_text-alpha true) h)
  parse_bool_lem false d r h =
      rw (read_while_stop is_alpha (codes "false") d r (bool_text-alpha false) h)

  parse_null_lem :
      (d : ℕ) (r : Bytes)
      → is_alpha d ≡ false
      → parse_null {D = D} (live (codes "null" ++ d ∷ r)) ≡ ok (new_nil, live (d ∷ r))
  unfolding parse_null equal
  parse_null_lem d r h =
      rw (read_while_stop is_alpha (codes "null") d r (refl, (refl, (refl, (refl, tt)))) h)

module _ {D : Type 0} (stod : Bytes → Result D) where
  parse_number_lem :
      (c : ℕ) (more : Bytes) (d : ℕ) (r : Bytes) (n : D)
      → number_byte c ≡ true
      → All number_byte more
      → number_byte d ≡ false
      → stod (c ∷ more) ≡ ok n
      → parse_number stod (live (c ∷ (more ++ d ∷ r))) ≡ ok (new_number n, live (d ∷ r))
  unfolding parse_number
  parse_number_lem c more d r n h hs hd e =
      rw (read_while_stop number_byte (c ∷ more) d r (h, hs) hd, e)

  -- A string is read up to its closing quote.
  pub parse_text :
      (s r : Bytes) → All not_quote s → parse stod (b'"' ∷ (s ++ b'"' ∷ r)) ≡ ok (new_string s)
  unfolding parse_step peek
  parse_text s r h =
      let content = b'"' ∷ (s ++ b'"' ∷ r) in
      parse_lem stod (suc (length content)) content (omega arith)
      ∙ rw (skip_whitespace_stop [] b'"' (s ++ b'"' ∷ r) tt refl) (
          ap (λ q. value_of q)
            (parse_string_closed (suc (length content)) b'"' s r h
              (omega (arith, length-append s (b'"' ∷ r)))))

  -- A numeral that `std::stod` takes, a string with neither quotes nor commas, a Boolean or null in
  -- front of whitespace, a comma or a closing brace is read as that value, and behind the delimiter
  -- nothing is read.
  pub parse_scalar :
      (s : Scalar D) (d : ℕ) (r : Bytes)
      → IsScalar stod s
      → is_delimiter d ≡ true
      → parse stod (show s ++ d ∷ r) ≡ ok (json_of s)
  unfolding parse_step peek json_of
  parse_scalar (numeral c more n) d r (h, hs, e) hd =
      let content = c ∷ (more ++ d ∷ r) in
      let (space, brace, quote, number) = number_start c h in
      parse_lem stod (suc (length content)) content (omega arith)
      ∙ rw (skip_whitespace_stop [] c (more ++ d ∷ r) tt space, brace, quote, h)
          (ap (λ q. value_of q) (parse_number_lem c more d r n number hs (delimiter_lem d hd).0 e))
  parse_scalar (text s) d r (h, _) hd =
      rw (append_assoc s (b'"' ∷ []) (d ∷ r)) (parse_text s (d ∷ r) h)
  parse_scalar (truth true) d r h hd =
      let content = codes "true" ++ d ∷ r in
      parse_lem stod (suc (length content)) content (omega arith)
      ∙ rw (skip_whitespace_stop [] b't' (codes "rue" ++ d ∷ r) tt refl)
          (ap (λ q. value_of q) (parse_bool_lem true d r (delimiter_lem d hd).1))
  parse_scalar (truth false) d r h hd =
      let content = codes "false" ++ d ∷ r in
      parse_lem stod (suc (length content)) content (omega arith)
      ∙ rw (skip_whitespace_stop [] b'f' (codes "alse" ++ d ∷ r) tt refl)
          (ap (λ q. value_of q) (parse_bool_lem false d r (delimiter_lem d hd).1))
  parse_scalar null d r h hd =
      let content = codes "null" ++ d ∷ r in
      parse_lem stod (suc (length content)) content (omega arith)
      ∙ rw (skip_whitespace_stop [] b'n' (codes "ull" ++ d ∷ r) tt refl)
          (ap (λ q. value_of q) (parse_null_lem d r (delimiter_lem d hd).1))
