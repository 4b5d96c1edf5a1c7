-- ===== src/Json/Items.antt =====
-- What the loop of `ParseObject` reads from a text that is cut at its commas.
--
-- A value is parsed from a copy of the rest, and the stream stays in front of it; the next round
-- skips to the next comma, wherever that stands. So the loop sees a text as a chain of items, each
-- a key and all that follows up to a comma, closing braces included.
use ss_logger_cpp.Prelude.{
  ℕ, zero, suc, ◌+◌, ◌-◌, ◌<◌, ◌≤◌, Bool, true, false, ◌≡◌, refl, sym, ap, arith, List, [], ◌∷◌,
  ◌++◌, Bytes, length, length-append, ◌==◌, if◌then◌else◌, ◌∙◌, All, append-nil,
}
use ss_logger_cpp.Json.Result.{Result, ok, ◌>>=◌, >>=-cong, >>=-assoc}
use ss_logger_cpp.Json.Stream.{live, spent, peek, get, is, is_space, unread}
use ss_logger_cpp.Json.Value.{
  Json, Members, empty, new_string, new_kind, object, set_member, get_string_value,
  get_object_value, with_members,
}
use ss_logger_cpp.Json.Parser.{
  next_item, round, read_item, object_loop, parse_object, value_of, parse_step, parse,
}
use ss_logger_cpp.Json.Scan.{
  not_comma, not_quote, skip_whitespace_stop, skip_to_comma_stop, skip_to_comma_end,
}
use ss_logger_cpp.Json.Strings.{parse_string_closed}
use ss_logger_cpp.Json.Fuel.{parse_lem}

-- `lead "key" gap : space first more`, with whitespace in `lead`, `gap` and `space`; the value
-- begins with the byte `first`.
pub record Item : Type 0 where
  pub lead : Bytes
  pub key : Bytes
  pub gap : Bytes
  pub space : Bytes
  pub first : ℕ
  pub more : Bytes

abbrev pub starts_value : ℕ → Bool
starts_value c =
    if is_space c then false else if c == b',' then false else if c == b'}' then false else true

pub record IsItem (i : Item) : Type 0 where
  pub lead_space : All is_space i.lead
  pub key_plain : All not_quote i.key
  pub gap_space : All is_space i.gap
  pub space_space : All is_space i.space
  pub first_value : starts_value i.first ≡ true
  pub more_plain : All not_comma i.more

abbrev pub AreItems : List Item → Type 0
AreItems [] = Unit
AreItems (i ∷ is) = IsItem i × AreItems is

-- An item in front of `rest`, from its key on and with what leads it.
abbrev pub text_of : Item → Bytes → Bytes
text_of i rest = i.first ∷ (i.more ++ rest)

abbrev pub from_key : Item → Bytes → Bytes
from_key i rest = b'"' ∷ (i.key ++ b'"' ∷ (i.gap ++ b':' ∷ (i.space ++ text_of i rest)))

abbrev pub render : Item → Bytes → Bytes
render i rest = i.lead ++ from_key i rest

-- The items that follow another one.
abbrev pub render_rest : List Item → Bytes
render_rest [] = []
render_rest (i ∷ is) = b',' ∷ render i (render_rest is)

-- The keys of all items are shorter than a bound.
abbrev pub KeysBelow : ℕ → List Item → Type 0
KeysBelow f [] = Unit
KeysBelow f (i ∷ is) = (length i.key < f) × KeysBelow f is

pub next_item_stop :
    (xs r : Bytes) → All not_comma xs → next_item false (live (xs ++ b',' ∷ r)) ≡ (true, live r)
unfolding next_item peek get
next_item_stop xs r h = ground (arith, skip_to_comma_stop xs r h)

next_item_end : (xs : Bytes) → All not_comma xs → next_item false (live xs) ≡ (false, spent)
unfolding next_item peek
next_item_end xs h = ground (arith, skip_to_comma_end xs h)

-- What the first byte of a value is not.
pub starts_value_lem :
    (c : ℕ)
    → starts_value c ≡ true
    → (is_space c ≡ false) × (c == b',' ≡ false) × (c == b'}' ≡ false)
starts_value_lem c h = ground arith

length-render : (i : Item) (rest : Bytes) → length i.key + length rest + 4 ≤ length (render i rest)
length-render i rest = omega (
  arith,
  length-append i.lead (from_key i rest),
  length-append i.key (b'"' ∷ (i.gap ++ b':' ∷ (i.space ++ text_of i rest))),
  length-append i.gap (b':' ∷ (i.space ++ text_of i rest)),
  length-append i.space (text_of i rest),
  length-append i.more rest,
)

KeysBelow-mono : {f g : ℕ} (js : List Item) → f ≤ g → KeysBelow f js → KeysBelow g js
KeysBelow-mono [] le h = tt
KeysBelow-mono (j ∷ js) le h = (omega arith, KeysBelow-mono js le h.1)

KeysBelow-render :
    (f : ℕ) (js : List Item) → length (render_rest js) < f → KeysBelow f js × (length js < f)
KeysBelow-render f [] lt = (tt, lt)
KeysBelow-render f (j ∷ js) lt =
    let n = length-render j (render_rest js) in
    let (ks, l) = KeysBelow-render (f - 1) js (omega arith) in
    ((omega arith, KeysBelow-mono js (omega arith) ks), omega arith)

without_lead : (i : Item) → IsItem i → IsItem (record i { lead = [] })
without_lead i h = record {
  lead_space = tt;
  key_plain = h.key_plain;
  gap_space = h.gap_space;
  space_space = h.space_space;
  first_value = h.first_value;
  more_plain = h.more_plain;
}

module _ {D : Type 0} where
  -- The members that the items give, in order; `value` parses a text that begins with a value and
  -- goes on to the end of the whole text.
  unfoldable pub collect : (Bytes → Result (Json D)) → Members D → List Item → Result (Members D)
  collect value obj [] = ok obj
  collect value obj (i ∷ is) = do
    v ← value (text_of i (render_rest is))
    collect value (set_member i.key v obj) is

  pub read_item_lem :
      (f : ℕ) (p : Bytes → Result (Json D)) (obj : Members D) (i : Item) (rest : Bytes)
      → IsItem i
      → length i.key < f
      → read_item f p obj (live (render i rest))
        ≡ (p (text_of i rest) >>= λ v. ok (set_member i.key v obj, live (text_of i rest)))
  unfolding read_item peek get unread
  read_item_lem f p obj i rest h lt =
      let (space, comma, brace) = starts_value_lem i.first h.first_value in
      rw
        (
          skip_whitespace_stop i.lead b'"' _ h.lead_space refl,
          parse_string_closed f b'"' i.key _ h.key_plain lt,
          skip_whitespace_stop i.gap b':' _ h.gap_space refl,
          skip_whitespace_stop i.space i.first (i.more ++ rest) h.space_space space,
          skip_whitespace_stop [] i.first (i.more ++ rest) tt space,
          comma,
        )
        (unfold get_string_value new_string in refl)

  -- From inside the value of one item to the end of the text.
  object_loop_rest :
      (f n : ℕ) (p : Bytes → Result (Json D)) (obj : Members D) (i : Item) (is : List Item)
      → IsItem i
      → AreItems is
      → KeysBelow f is
      → length is < n
      → object_loop f n p false obj (live (text_of i (render_rest is)))
        ≡ (collect p obj is >>= λ m. ok (m, spent))
  unfolding object_loop peek get collect
  object_loop_rest f zero p obj i js h hs ks lt = absurd (omega arith)
  object_loop_rest f (suc n) p obj i [] h hs ks lt =
      let (_, plain, brace) = starts_value_lem i.first h.first_value in
      rw (brace, append-nil)
        (ap (round obj _) (next_item_end (i.first ∷ i.more) (rw plain (refl, h.more_plain))))
  object_loop_rest f (suc n) p obj i (j ∷ js) h hs ks lt =
      let (_, plain, brace) = starts_value_lem i.first h.first_value in
      let step =
        next_item_stop (i.first ∷ i.more) (render j (render_rest js))
          (rw plain (refl, h.more_plain)) in
      rw brace (
        ap (round obj _) step
        ∙ rw (read_item_lem f p obj j (render_rest js) hs.0 ks.0) (
            >>=-assoc (p (text_of j (render_rest js))) _ _
            ∙ >>=-cong _ _ _ _ refl (λ v _.
              object_loop_rest f n p (set_member j.key v obj) j js hs.0 hs.1 ks.1 (omega arith))
            ∙ sym (>>=-assoc (p (text_of j (render_rest js))) _ _)))

  object_loop_items :
      (f n : ℕ) (p : Bytes → Result (Json D)) (obj : Members D) (i : Item) (js : List Item)
      → AreItems (i ∷ js)
      → KeysBelow f (i ∷ js)
      → length js < n
      → object_loop f (suc n) p true obj (live (from_key i (render_rest js)))
        ≡ (collect p obj (i ∷ js) >>= λ m. ok (m, spent))
  unfolding object_loop next_item peek collect
  object_loop_items f n p obj i js hs ks lt =
      rw
        (read_item_lem f p obj (record i { lead = [] }) (render_rest js) (without_lead i hs.0) ks.0)
        (>>=-assoc (p (text_of i (render_rest js))) _ _
          ∙ >>=-cong _ _ _ _ refl
              (λ v _. object_loop_rest f n p (set_member i.key v obj) i js hs.0 hs.1 ks.1 lt)
          ∙ sym (>>=-assoc (p (text_of i (render_rest js))) _ _))

  parse_object_items :
      (f : ℕ) (p : Bytes → Result (Json D)) (i : Item) (js : List Item)
      → AreItems (i ∷ js)
      → length (render i (render_rest js)) + 1 < f
      → value_of (parse_object f p (live (b'{' ∷ render i (render_rest js))))
        ≡ (collect p empty (i ∷ js) >>= λ m. ok (with_members m (new_kind object)))
  unfolding parse_object get get_object_value new_kind
  parse_object_items zero p i js hs lt = absurd (omega arith)
  parse_object_items (suc f) p i js hs lt =
      let n = length-render i (render_rest js) in
      let (ks, l) = KeysBelow-render f js (omega arith) in
      rw
        (
          skip_whitespace_stop i.lead b'"' _ hs.0.lead_space refl,
          object_loop_items (suc f) f p empty i js hs
              (omega arith, KeysBelow-mono js (omega arith) ks) l,
        )
        (simp >>=-assoc)

module _ {D : Type 0} (stod : Bytes → Result D) where
  -- A text that begins an object, behind any whitespace, and in which each piece between two
  -- commas, the first and the last piece included, is an item is read as a chain of items: an item
  -- is a key in quotes that itself holds no quote, a colon, and a text whose first byte is neither
  -- whitespace, a comma nor a closing brace, with any whitespace before the key, before the colon
  -- and behind it. The result is the object with the members of all items, each value parsed from
  -- its first byte to the end of the whole text; where one of these values is not parsed, the whole
  -- is not, with the same result. Brackets play no part.
  pub parse-items :
      (w : Bytes) (i : Item) (js : List Item)
      → All is_space w
      → AreItems (i ∷ js)
      → parse stod (w ++ b'{' ∷ render i (render_rest js))
        ≡ (collect (parse stod) empty (i ∷ js) >>= λ m. ok (with_members m (new_kind object)))
  parse-items w i js hw hs =
      let text = b'{' ∷ render i (render_rest js) in
      let f = length (w ++ text) + 1 in
      parse_lem stod f (w ++ text) (omega arith)
      ∙ unfold parse_step peek in
        rw (skip_whitespace_stop w b'{' (render i (render_rest js)) hw refl)
          (parse_object_items f (parse stod) i js hs (omega (arith, length-append w text)))
