-- ===== src/Json/Flat.antt =====
-- Objects whose values are no objects, and their printed form.
pub mod RoundTrip
pub mod Trailing
use ss_logger_cpp.Prelude.{
  ℕ, ◌+◌, ◌<◌, Bool, true, false, ◌≡◌, refl, sym, ap, arith, List, [], ◌∷◌, ◌++◌, Bytes, Option,
  none, some, ◌∙◌, All, All-append, append_assoc, append-nil, equal, equal_iff, if◌then◌else◌, ◌==◌,
  ◌||◌,
}
use ss_logger_cpp.Json.Result.{Result, ok, ◌>>=◌}
use ss_logger_cpp.Json.Stream.{is_space, is_digit}
use ss_logger_cpp.Json.Value.{
  Json, Members, empty, new_kind, object, set_member, find, with_members, find-set_member,
  get_object_value,
}
use ss_logger_cpp.Json.Parser.{parse}
use ss_logger_cpp.Json.Scan.{not_comma, not_quote}
use ss_logger_cpp.Json.Items.{
  Item, IsItem, AreItems, text_of, render, render_rest, collect, parse-items, starts_value,
}
use ss_logger_cpp.Json.Scalars.{
  Scalar, numeral, text, truth, null, show, json_of, IsScalar, is_delimiter, number_byte, bool_text,
  parse_scalar,
}

-- `lead "key" gap : space value trail`, all but the key and the value whitespace.
pub record Field (D : Type 0) : Type 0 where
  pub lead : Bytes
  pub key : Bytes
  pub gap : Bytes
  pub space : Bytes
  pub value : Scalar D
  pub trail : Bytes

module _ {D : Type 0} where
  pub record IsField (stod : Bytes → Result D) (f : Field D) : Type 0 where
    pub lead_space : All is_space f.lead
    pub key_plain : All not_quote f.key
    pub gap_space : All is_space f.gap
    pub space_space : All is_space f.space
    pub value_plain : IsScalar stod f.value
    pub trail_space : All is_space f.trail

  abbrev pub AreFields : (Bytes → Result D) → List (Field D) → Type 0
  AreFields stod [] = Unit
  AreFields stod (f ∷ fs) = IsField stod f × AreFields stod fs

  abbrev pub print_field : Field D → Bytes → Bytes
  print_field f rest =
      f.lead
      ++ b'"' ∷ (f.key ++ b'"' ∷ (f.gap ++ b':' ∷ (f.space ++ (show f.value ++ (f.trail ++ rest)))))

  -- The fields that follow one, and the closing brace.
  abbrev pub print_rest : List (Field D) → Bytes
  print_rest [] = b'}' ∷ []
  print_rest (f ∷ fs) = b',' ∷ print_field f (print_rest fs)

  abbrev pub print : Field D → List (Field D) → Bytes
  print f fs = b'{' ∷ print_field f (print_rest fs)

  -- The members of the fields, in order; a later field with the same key replaces the value.
  pub to_members : Members D → List (Field D) → Members D
  to_members obj [] = obj
  to_members obj (f ∷ fs) = to_members (set_member f.key (json_of f.value) obj) fs

  -- The value of the last field with a key.
  pub last_value : Bytes → List (Field D) → Option (Json D) → Option (Json D)
  last_value key [] before = before
  last_value key (f ∷ fs) before =
      last_value key fs (if equal f.key key then some (json_of f.value) else before)

  pub find-to_members :
      (key : Bytes) (fs : List (Field D)) (obj : Members D)
      → find key (to_members obj fs) ≡ last_value key fs (find key obj)
  unfolding to_members last_value
  find-to_members key [] obj = refl
  find-to_members key (f ∷ fs) obj =
      find-to_members key fs (set_member f.key (json_of f.value) obj)
      ∙ ap (last_value key fs) (find-set_member f.key key (json_of f.value) obj)

  -- A field as an item of the chain that the parser sees; `close` is the brace behind the last.
  pub show_first : Scalar D → ℕ
  show_first (numeral c more d) = c
  show_first (text s) = b'"'
  show_first (truth true) = b't'
  show_first (truth false) = b'f'
  show_first null = b'n'

  pub show_more : Scalar D → Bytes
  show_more (numeral c more d) = more
  show_more (text s) = s ++ b'"' ∷ []
  show_more (truth true) = b'r' ∷ b'u' ∷ b'e' ∷ []
  show_more (truth false) = b'a' ∷ b'l' ∷ b's' ∷ b'e' ∷ []
  show_more null = b'u' ∷ b'l' ∷ b'l' ∷ []

  pub show_split : (s : Scalar D) → show s ≡ show_first s ∷ show_more s
  unfolding show_first show_more
  show_split (numeral c more d) = refl
  show_split (text s) = refl
  show_split (truth true) = refl
  show_split (truth false) = refl
  show_split null = refl

  pub item : Field D → Bytes → Item
  item f close = record {
    lead = f.lead;
    key = f.key;
    gap = f.gap;
    space = f.space;
    first = show_first f.value;
    more = show_more f.value ++ (f.trail ++ close);
  }

  first_item : Field D → List (Field D) → Item
  first_item f [] = item f (b'}' ∷ [])
  first_item f (g ∷ gs) = item f []

  rest_items : List (Field D) → List Item
  rest_items [] = []
  rest_items (g ∷ gs) = first_item g gs ∷ rest_items gs
