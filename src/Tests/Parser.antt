-- ===== src/Tests/Parser.antt =====
-- The theorems on the parser at concrete texts.
use ss_logger_cpp.Prelude.{ℕ, ◌≡◌, ◌++◌, refl, arith, [], ◌∷◌, none, Bytes, codes}
use ss_logger_cpp.Json.Result.{ok, throws, timeout, out_of_range, ◌>>=◌}
use ss_logger_cpp.Json.Value.{empty, new_kind, object, with_members, find}
use ss_logger_cpp.Json.Parser.{parse, parse_with}
use ss_logger_cpp.Json.Items.{Item, IsItem, collect, parse-items}
use ss_logger_cpp.Json.Scalars.{numeral, text}
use ss_logger_cpp.Json.Flat.{Field, IsField, to_members, last_value}
use ss_logger_cpp.Json.Flat.Trailing.{parse-trailing}
use ss_logger_cpp.Json.Flat.RoundTrip.{parse-print}
use ss_logger_cpp.Json.Commas.{parse-comma}
use ss_logger_cpp.Tests.Decimal.{decimal}

-- ` "a" : 1` and `"a":"x"`.
abbrev number_field : Field ℕ
number_field = record {
  lead = codes " ";
  key = codes "a";
  gap = codes " ";
  space = codes " ";
  value = numeral b'1' [] 1;
  trail = [];
}

abbrev text_field : Field ℕ
text_field = record {
  lead = [];
  key = codes "a";
  gap = [];
  space = [];
  value = text (codes "x");
  trail = codes " ";
}

number_field-IsField : IsField decimal number_field
number_field-IsField = record {
  lead_space = (refl, tt);
  key_plain = (refl, tt);
  gap_space = (refl, tt);
  space_space = (refl, tt);
  value_plain = (refl, tt, unfold decimal in refl);
  trail_space = tt;
}

text_field-IsField : IsField decimal text_field
text_field-IsField = record {
  lead_space = tt;
  key_plain = (refl, tt);
  gap_space = tt;
  space_space = tt;
  value_plain = ((refl, tt), (refl, tt));
  trail_space = (refl, tt);
}

parse-print_example :
    (parse decimal (codes " {" ++ codes " \"a\" : 1,\"a\":\"x\" }")
      ≡ ok (with_members (to_members empty (number_field ∷ text_field ∷ [])) (new_kind object)))
    × ((key : Bytes)
        → find key (to_members empty (number_field ∷ text_field ∷ []))
          ≡ last_value key (number_field ∷ text_field ∷ []) none)
parse-print_example =
    parse-print decimal (codes " ") number_field (text_field ∷ []) (refl, tt)
      (number_field-IsField, (text_field-IsField, tt))

parse-trailing_example :
    parse_with decimal 40 (codes " {" ++ codes " \"a\" : 1,\"a\":\"x\" ,}") ≡ timeout
parse-trailing_example =
    parse-trailing decimal (codes " ") number_field (text_field ∷ []) (codes "}") (refl, tt)
      (number_field-IsField, (text_field-IsField, tt)) (refl, tt) 40 (omega arith)

-- `"a":{"b":1` and `"c":2}}`.
abbrev nested_item : Item
nested_item = record {
  lead = [];
  key = codes "a";
  gap = [];
  space = [];
  first = b'{';
  more = codes "\"b\":1";
}

abbrev last_item : Item
last_item = record {
  lead = [];
  key = codes "c";
  gap = [];
  space = [];
  first = b'2';
  more = codes "}}";
}

nested_item-IsItem : IsItem nested_item
nested_item-IsItem = record {
  lead_space = tt;
  key_plain = (refl, tt);
  gap_space = tt;
  space_space = tt;
  first_value = refl;
  more_plain = (refl, (refl, (refl, (refl, (refl, tt)))));
}

last_item-IsItem : IsItem last_item
last_item-IsItem = record {
  lead_space = tt;
  key_plain = (refl, tt);
  gap_space = tt;
  space_space = tt;
  first_value = refl;
  more_plain = (refl, (refl, tt));
}

parse-items_example : parse decimal (codes "{\"a\":{\"b\":1,\"c\":2}}") ≡ (
    collect (parse decimal) empty (nested_item ∷ last_item ∷ []) >>= λ m.
    ok (with_members m (new_kind object)))
parse-items_example =
    parse-items decimal [] nested_item (last_item ∷ []) tt
      (nested_item-IsItem, (last_item-IsItem, tt))

parse-comma_example : parse decimal (codes "{\"k\":\"x, y\"}") ≡ throws out_of_range
parse-comma_example =
    parse-comma (codes " ") b'y' [] (refl, tt) refl tt decimal (codes "k") (codes "x") (refl, tt)
      (refl, tt) (refl, tt) refl
