-- ===== src/Json/Flat/Trailing.antt =====
-- A comma behind the last field of an object.
use ss_logger_cpp.Prelude.{
  ℕ, zero, suc, ◌+◌, ◌<◌, ◌≤◌, true, false, ◌≡◌, refl, ap, arith, List, [], ◌∷◌, ◌++◌, Bytes,
  length, length-append, ◌∙◌, All, ◌==◌, Bool-cases, inl, inr,
}
use ss_logger_cpp.Json.Result.{Result, ok, timeout}
use ss_logger_cpp.Json.Stream.{live, peek, get, is_space, read_text, skip_whitespace}
use ss_logger_cpp.Json.Value.{Json, Members, empty, set_member, new_kind, get_object_value}
use ss_logger_cpp.Json.Parser.{
  next_item, round, read_item, object_loop, parse_object, parse_string, parse_step, parse_with,
  parse,
}
use ss_logger_cpp.Json.Scan.{not_quote, skip_whitespace_stop, skip_whitespace_end}
use ss_logger_cpp.Json.Strings.{parse_string_open, parse_string_spent}
use ss_logger_cpp.Json.Items.{text_of, read_item_lem, next_item_stop, starts_value_lem}
use ss_logger_cpp.Json.Fuel.{parse_lem, parse-fuel}
use ss_logger_cpp.Json.Scalars.{show, json_of}
use ss_logger_cpp.Json.Flat.{Field, IsField, AreFields, print_field, item}
use ss_logger_cpp.Json.Flat.RoundTrip.{text_of-item, print_field-render, item-IsItem, parse_field}

read_one :
    (c : ℕ) (bs : Bytes)
    → is_space c ≡ true
    → (read_text is_space (c ∷ bs)).1 ≡ (read_text is_space bs).1
unfolding read_text
read_one c bs e = rw e refl

skip_one :
    (c : ℕ) (bs : Bytes)
    → is_space c ≡ true
    → skip_whitespace (live (c ∷ bs)) ≡ skip_whitespace (live bs)
skip_one c bs e = unfold skip_whitespace in read_one c bs e

module _ {D : Type 0} where
  -- Fields with a comma behind each of them, and what follows.
  abbrev pub print_open : List (Field D) → Bytes → Bytes
  print_open [] rest = rest
  print_open (f ∷ fs) rest = print_field f (b',' ∷ print_open fs rest)

  abbrev KeysBelow : ℕ → List (Field D) → Type 0
  KeysBelow n [] = Unit
  KeysBelow n (f ∷ fs) = (length f.key < n) × KeysBelow n fs

  -- Where no quote is left, `ParseString` does not end.
  skip_whitespace-open :
      (f : ℕ) (bs : Bytes)
      → All not_quote bs
      → parse_string {D = D} f (skip_whitespace (live bs)) ≡ timeout
  skip_whitespace-open f [] h = rw (skip_whitespace_end [] tt) (parse_string_spent f)
  skip_whitespace-open f (c ∷ bs) h = elim (Bool-cases (is_space c)) [
    | inl e ↦ rw (skip_one c bs e) (skip_whitespace-open f bs h.1)
    | inr e ↦ rw (skip_whitespace_stop [] c bs tt e) (parse_string_open f c bs h.1)
  ]

  module _ (stod : Bytes → Result D) (m : ℕ) (rest : Bytes) (plain : All not_quote rest) where
    read_item-open :
        (p : Bytes → Result (Json D)) (obj : Members D) → read_item m p obj (live rest) ≡ timeout
    unfolding read_item
    read_item-open p obj = rw (skip_whitespace-open m rest plain) refl

    read_item-field :
        (f : Field D) (obj : Members D) (more : Bytes)
        → IsField stod f
        → length f.key < m
        → read_item m (parse stod) obj (live (print_field f (b',' ∷ more)))
          ≡ ok (set_member f.key (json_of f.value) obj, live (text_of (item f []) (b',' ∷ more)))
    unfolding item
    read_item-field f obj more h lt =
        let value : parse stod (text_of (item f []) (b',' ∷ more)) ≡ ok (json_of f.value) =
          ap (parse stod) (text_of-item f [] (b',' ∷ more)) ∙ parse_field stod f b',' more h refl in
        rw (print_field-render f [] (b',' ∷ more)) (
          read_item_lem m (parse stod) obj (item f []) (b',' ∷ more) (item-IsItem stod f [] h tt) lt
          ∙ rw value refl)

    -- The loop goes on behind the comma of a field.
    to_comma :
        (f : Field D) (more : Bytes)
        → IsField stod f
        → ((item f []).first == b'}' ≡ false)
          × (next_item false (live (text_of (item f []) (b',' ∷ more))) ≡ (true, live more))
    to_comma f more h =
        let i = item-IsItem stod f [] h tt in
        let (_, comma, brace) = starts_value_lem (item f []).first i.first_value in
        (
          brace,
          next_item_stop ((item f []).first ∷ (item f []).more) more
              (rw comma (refl, i.more_plain)),
        )

    -- From inside the value of a field to the end of the text.
    object_loop-open :
        (n : ℕ) (obj : Members D) (f : Field D) (fs : List (Field D))
        → IsField stod f
        → AreFields stod fs
        → KeysBelow m fs
        → object_loop m n
            (parse stod)
            false
            obj
            (live (text_of (item f []) (b',' ∷ print_open fs rest)))
          ≡ timeout
    unfolding object_loop peek
    object_loop-open zero obj f fs h hs ks = refl
    object_loop-open (suc n) obj f [] h hs ks =
        let (brace, step) = to_comma f rest h in
        rw brace (ap (round obj _) step ∙ rw (read_item-open (parse stod) obj) refl)
    object_loop-open (suc n) obj f (g ∷ gs) h hs ks =
        let (brace, step) = to_comma f (print_open (g ∷ gs) rest) h in
        rw brace (
          ap (round obj _) step
          ∙ rw (read_item-field g obj (print_open gs rest) hs.0 ks.0)
              (object_loop-open n (set_member g.key (json_of g.value) obj) g gs hs.0 hs.1 ks.1))

  length-print_field :
      (f : Field D) (more : Bytes) → length f.key + length more ≤ length (print_field f more)
  length-print_field f more = omega (
    arith,
    length-append f.lead (
        b'"'
        ∷ (f.key ++ b'"' ∷ (f.gap ++ b':' ∷ (f.space ++ (show f.value ++ (f.trail ++ more)))))),
    length-append f.key (b'"' ∷ (f.gap ++ b':' ∷ (f.space ++ (show f.value ++ (f.trail ++ more))))),
    length-append f.gap (b':' ∷ (f.space ++ (show f.value ++ (f.trail ++ more)))),
    length-append f.space (show f.value ++ (f.trail ++ more)),
    length-append (show f.value) (f.trail ++ more),
    length-append f.trail more,
  )

  print_open-KeysBelow :
      (m : ℕ) (fs : List (Field D)) (rest : Bytes)
      → length (print_open fs rest) < m
      → KeysBelow m fs
  print_open-KeysBelow m [] rest lt = tt
  print_open-KeysBelow m (f ∷ fs) rest lt =
      let size = length-print_field f (b',' ∷ print_open fs rest) in
      (omega arith, print_open-KeysBelow m fs rest (omega arith))

  module _ (stod : Bytes → Result D) where
    object_loop-first :
        (m n : ℕ) (f : Field D) (fs : List (Field D)) (rest : Bytes)
        → IsField stod (record f { lead = [] })
        → AreFields stod fs
        → All not_quote rest
        → KeysBelow m (f ∷ fs)
        → object_loop m n
            (parse stod)
            true
            empty
            (live (print_field (record f { lead = [] }) (b',' ∷ print_open fs rest)))
          ≡ timeout
    unfolding object_loop peek next_item item
    object_loop-first m zero f fs rest h hs plain ks = refl
    object_loop-first m (suc n) f fs rest h hs plain ks =
        rw
          (read_item-field stod m rest plain (record f { lead = [] }) empty (print_open fs rest) h
            ks.0)
          (object_loop-open stod m rest plain n (set_member f.key (json_of f.value) empty)
            (record f { lead = [] }) fs h hs ks.1)

    parse-open_list :
        (w : Bytes) (f : Field D) (fs : List (Field D)) (rest : Bytes)
        → All is_space w
        → AreFields stod (f ∷ fs)
        → All not_quote rest
        → parse stod (w ++ b'{' ∷ print_open (f ∷ fs) rest) ≡ timeout
    unfolding parse_step parse_object peek get get_object_value new_kind
    parse-open_list w f fs rest hw (h, hs) plain =
        let text = b'{' ∷ print_open (f ∷ fs) rest in
        let m = suc (length (w ++ text)) in
        let keys = print_open-KeysBelow m (f ∷ fs) rest (omega (arith, length-append w text)) in
        parse_lem stod m (w ++ text) (omega arith)
        ∙ rw
            (
              skip_whitespace_stop w b'{' (print_open (f ∷ fs) rest) hw refl,
              skip_whitespace_stop f.lead b'"' _ h.lead_space refl,
              object_loop-first m m f fs rest (without_lead h) hs plain keys,
            )
            refl
      where
        without_lead : {f : Field D} → IsField stod f → IsField stod (record f { lead = [] })
        without_lead h = record {
          lead_space = tt;
          key_plain = h.key_plain;
          gap_space = h.gap_space;
          space_space = h.space_space;
          value_plain = h.value_plain;
          trail_space = h.trail_space;
        }

    -- On an object of at least one field, whose keys hold no quote, each value a numeral (a digit
    -- or `-`, then bytes that `ParseNumber` reads on) that `std::stod` takes, a string with neither
    -- quotes nor commas, a Boolean or null, with a comma behind each field and then any text
    -- without a quote, such as the closing brace, `Parse` does not end: with any fuel above the
    -- length of the text it runs out of it.
    pub parse-trailing :
        (w : Bytes) (f : Field D) (fs : List (Field D)) (rest : Bytes)
        → All is_space w
        → AreFields stod (f ∷ fs)
        → All not_quote rest
        → (n : ℕ) → length (w ++ b'{' ∷ print_open (f ∷ fs) rest) < n
        → parse_with stod n (w ++ b'{' ∷ print_open (f ∷ fs) rest) ≡ timeout
    parse-trailing w f fs rest hw hs plain n lt =
        parse-fuel stod n (w ++ b'{' ∷ print_open (f ∷ fs) rest) lt
        ∙ parse-open_list w f fs rest hw hs plain
