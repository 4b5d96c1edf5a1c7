-- ===== src/Json/Flat/RoundTrip.antt =====
-- The printed object as a chain of items, and what `Parse` reads from it.
use ss_logger_cpp.Prelude.{
  ℕ, true, false, ◌≡◌, refl, ap, arith, List, [], ◌∷◌, ◌++◌, Bytes, none, ◌∙◌, All, All-append,
  append_assoc, ◌==◌, ◌||◌,
}
use ss_logger_cpp.Json.Result.{Result, ok}
use ss_logger_cpp.Json.Stream.{is_space, is_digit}
use ss_logger_cpp.Json.Value.{Members, empty, new_kind, object, set_member, find, with_members}
use ss_logger_cpp.Json.Parser.{parse}
use ss_logger_cpp.Json.Scan.{not_comma}
use ss_logger_cpp.Json.Items.{
  IsItem, AreItems, text_of, render, render_rest, collect, parse-items, starts_value,
}
use ss_logger_cpp.Json.Scalars.{
  Scalar, numeral, text, truth, null, show, json_of, IsScalar, is_delimiter, number_byte,
  parse_scalar,
}
use ss_logger_cpp.Json.Flat.{
  Field, IsField, AreFields, print_field, print_rest, print, to_members, last_value,
  find-to_members, show_first, show_more, show_split, item, first_item, rest_items,
}

module _ {D : Type 0} where
  first_item-key : (f : Field D) (fs : List (Field D)) → (first_item f fs).key ≡ f.key
  unfolding first_item item
  first_item-key f [] = refl
  first_item-key f (g ∷ gs) = refl

  pub text_of-item :
      (f : Field D) (close rest : Bytes)
      → text_of (item f close) rest ≡ show f.value ++ (f.trail ++ (close ++ rest))
  unfolding item
  text_of-item f close rest = simp (show_split f.value, append_assoc)

  pub print_field-render :
      (f : Field D) (close rest : Bytes)
      → print_field f (close ++ rest) ≡ render (item f close) rest
  unfolding item
  print_field-render f close rest = simp (show_split f.value, append_assoc)

  print-render :
      (f : Field D) (fs : List (Field D))
      → print_field f (print_rest fs) ≡ render (first_item f fs) (render_rest (rest_items fs))
  unfolding first_item rest_items
  print-render f [] = print_field-render f (b'}' ∷ []) []
  print-render f (g ∷ gs) =
      ap (λ r. print_field f (b',' ∷ r)) (print-render g gs)
      ∙ print_field-render f [] (render_rest (rest_items (g ∷ gs)))

space_lem : (c : ℕ) → is_space c ≡ true → (not_comma c ≡ true) × (is_delimiter c ≡ true)
space_lem c h = ground arith

spaces-not_comma : (w : Bytes) → All is_space w → All not_comma w
spaces-not_comma [] h = tt
spaces-not_comma (c ∷ w) h = ((space_lem c h.0).0, spaces-not_comma w h.1)

number_byte_lem : (c : ℕ) → number_byte c ≡ true → not_comma c ≡ true
number_byte_lem c h = ground arith

numbers-not_comma : (w : Bytes) → All number_byte w → All not_comma w
numbers-not_comma [] h = tt
numbers-not_comma (c ∷ w) h = (number_byte_lem c h.0, numbers-not_comma w h.1)

numeral_first : (c : ℕ) → is_digit c || c == b'-' ≡ true → starts_value c ≡ true
numeral_first c h = ground arith

module _ {D : Type 0} (stod : Bytes → Result D) where
  pub show_first-starts : (s : Scalar D) → IsScalar stod s → starts_value (show_first s) ≡ true
  unfolding show_first
  show_first-starts (numeral c more d) h = numeral_first c h.0
  show_first-starts (text s) h = refl
  show_first-starts (truth true) h = refl
  show_first-starts (truth false) h = refl
  show_first-starts null h = refl

  pub show_more-plain : (s : Scalar D) → IsScalar stod s → All not_comma (show_more s)
  unfolding show_more
  show_more-plain (numeral c more d) h = numbers-not_comma more h.1
  show_more-plain (text s) h = All-append not_comma s (b'"' ∷ []) h.1 (refl, tt)
  show_more-plain (truth true) h = (refl, (refl, (refl, tt)))
  show_more-plain (truth false) h = (refl, (refl, (refl, (refl, tt))))
  show_more-plain null h = (refl, (refl, (refl, tt)))

  pub item-IsItem :
      (f : Field D) (close : Bytes) → IsField stod f → All not_comma close → IsItem (item f close)
  unfolding item
  item-IsItem f close h k = record {
    lead_space = h.lead_space;
    key_plain = h.key_plain;
    gap_space = h.gap_space;
    space_space = h.space_space;
    first_value = show_first-starts f.value h.value_plain;
    more_plain =
        All-append not_comma (show_more f.value) _ (show_more-plain f.value h.value_plain)
          (All-append not_comma f.trail close (spaces-not_comma f.trail h.trail_space) k);
  }

  first_item-IsItem :
      (f : Field D) (fs : List (Field D)) → IsField stod f → IsItem (first_item f fs)
  unfolding first_item
  first_item-IsItem f [] h = item-IsItem f (b'}' ∷ []) h (refl, tt)
  first_item-IsItem f (g ∷ gs) h = item-IsItem f [] h tt

  rest_items-AreItems : (fs : List (Field D)) → AreFields stod fs → AreItems (rest_items fs)
  unfolding rest_items
  rest_items-AreItems [] hs = tt
  rest_items-AreItems (g ∷ gs) hs = (first_item-IsItem g gs hs.0, rest_items-AreItems gs hs.1)

  pub parse_field :
      (f : Field D) (d : ℕ) (r : Bytes)
      → IsField stod f
      → is_delimiter d ≡ true
      → parse stod (show f.value ++ (f.trail ++ d ∷ r)) ≡ ok (json_of f.value)
  parse_field f d r h hd = go f.trail h.trail_space
    where
      go :
          (w : Bytes)
          → All is_space w
          → parse stod (show f.value ++ (w ++ d ∷ r)) ≡ ok (json_of f.value)
      go [] hw = parse_scalar stod f.value d r h.value_plain hd
      go (c ∷ w) hw = parse_scalar stod f.value c (w ++ d ∷ r) h.value_plain (space_lem c hw.0).1

  -- Behind every field stands a comma or the closing brace.
  parse-first_item :
      (f : Field D) (fs : List (Field D))
      → IsField stod f
      → parse stod (text_of (first_item f fs) (render_rest (rest_items fs))) ≡ ok (json_of f.value)
  unfolding first_item rest_items
  parse-first_item f [] h = rw (text_of-item f (b'}' ∷ []) []) (parse_field f b'}' [] h refl)
  parse-first_item f (g ∷ gs) h =
      rw (text_of-item f [] (render_rest (rest_items (g ∷ gs)))) (parse_field f b',' _ h refl)

  collect-to_members :
      (obj : Members D) (f : Field D) (fs : List (Field D))
      → AreFields stod (f ∷ fs)
      → collect (parse stod) obj (first_item f fs ∷ rest_items fs) ≡ ok (to_members obj (f ∷ fs))
  unfolding collect to_members rest_items
  collect-to_members obj f [] hs = rw (parse-first_item f [] hs.0, first_item-key f [])
  collect-to_members obj f (g ∷ gs) hs =
      rw (parse-first_item f (g ∷ gs) hs.0, first_item-key f (g ∷ gs))
        (collect-to_members (set_member f.key (json_of f.value) obj) g gs hs.1)

  -- A printed object with at least one field, whose keys hold no quote, each value a numeral (a
  -- digit or `-`, then bytes that `ParseNumber` reads on) that `std::stod` takes, a string with
  -- neither quotes nor commas, a Boolean or null, with any whitespace between the parts, is read
  -- back by `Parse` as the object that has, for each key, the value of the last field with that
  -- key.
  pub parse-print :
      (w : Bytes) (f : Field D) (fs : List (Field D))
      → All is_space w
      → AreFields stod (f ∷ fs)
      → let m = to_members empty (f ∷ fs) in
        (parse stod (w ++ print f fs) ≡ ok (with_members m (new_kind object)))
        × ((key : Bytes) → find key m ≡ last_value key (f ∷ fs) none)
  parse-print w f fs hw hs = (read, λ key. find-to_members key (f ∷ fs) empty ∙ unfold find in refl)
    where
      read :
          parse stod (w ++ print f fs)
          ≡ ok (with_members (to_members empty (f ∷ fs)) (new_kind object))
      read = rw (print-render f fs) (
          parse-items stod w (first_item f fs) (rest_items fs) hw
            (first_item-IsItem f fs hs.0, rest_items-AreItems fs hs.1)
          ∙ rw (collect-to_members empty f fs hs))
