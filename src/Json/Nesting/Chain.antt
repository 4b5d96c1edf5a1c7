-- ===== src/Json/Nesting/Chain.antt =====
-- The whole text of nested objects, and the members of the chain of its entries.
use ss_logger_cpp.Prelude.{
  true, ◌≡◌, ◌≢◌, refl, sym, List, [], ◌∷◌, ◌++◌, Bytes, ◌∙◌, All, All-append,
}
use ss_logger_cpp.Json.Result.{Result, ok}
use ss_logger_cpp.Json.Stream.{is_space}
use ss_logger_cpp.Json.Value.{Members, empty, new_kind, object, with_members}
use ss_logger_cpp.Json.Parser.{parse}
use ss_logger_cpp.Json.Scan.{not_comma}
use ss_logger_cpp.Json.Items.{
  Item, IsItem, AreItems, text_of, render_rest, collect, parse-items, starts_value,
}
use ss_logger_cpp.Json.Scalars.{Scalar, show, json_of, IsScalar, parse_scalar}
use ss_logger_cpp.Json.Flat.{show_split}
use ss_logger_cpp.Json.Flat.RoundTrip.{show_first-starts, show_more-plain}
use ss_logger_cpp.Json.Nesting.{
  Key, IsKey, AreKeys, Entry, IsEntry, AreEntries, is_close, print_entry, print_entries, first_key,
  chain_value, chain_members,
}
use ss_logger_cpp.Json.Nesting.Entries.{
  item, item_of, items_of, value_first, value_more, text_of_scalar, text_of_object,
  print_entries-render, close_lem, closes-plain, key-plain, starts-not_comma,
}

module _ {D : Type 0} (stod : Bytes → Result D) where
  show-plain : (v : Scalar D) → IsScalar stod v → All not_comma (show v)
  show-plain v h =
      rw (show_split v) (starts-not_comma _ (show_first-starts stod v h), show_more-plain stod v h)

  first_key-IsKey : (os : List Key) (k : Key) → AreKeys os → IsKey k → IsKey (first_key os k)
  first_key-IsKey [] k hs h = h
  first_key-IsKey (o ∷ os) k hs h = hs.0

  module _ (k : Key) (v : Scalar D) (close : Bytes) (hk : IsKey k) (hv : IsScalar stod v)
      (hc : All is_close close) where
    entry-plain : (os : List Key) → AreKeys os → All not_comma (print_entry os k v close [])
    entry-plain [] hs = key-plain k _ hk (
        All-append not_comma (show v) _ (show-plain v hv)
          (All-append not_comma close [] (closes-plain close hc) tt))
    entry-plain (o ∷ os) hs = key-plain o _ hs.0 (refl, entry-plain os hs.1)

    item-IsItem : (os : List Key) → AreKeys os → IsItem (item os k v close)
    unfolding value_first value_more
    item-IsItem os hs =
        let first = first_key-IsKey os k hs hk in
        record {
          lead_space = first.lead_space;
          key_plain = first.name_plain;
          gap_space = first.gap_space;
          space_space = first.space_space;
          first_value = starts os;
          more_plain = plain os hs;
        }
      where
        starts : (os : List Key) → starts_value (value_first os v) ≡ true
        starts [] = show_first-starts stod v hv
        starts (o ∷ os) = refl

        plain : (os : List Key) → AreKeys os → All not_comma (value_more os k v close)
        plain [] hs =
            All-append not_comma _ close (show_more-plain stod v hv) (closes-plain close hc)
        plain (o ∷ os) hs = entry-plain os hs.1

    -- A value is followed by what closes objects, then by a comma or the end of the text.
    scalar_value :
        (js : List Item)
        → (js ≡ [] → close ≢ [])
        → parse stod (show v ++ (close ++ render_rest js)) ≡ ok (json_of v)
    scalar_value js ends = go close hc js ends
      where
        go :
            (cs : Bytes)
            → All is_close cs
            → (js : List Item) → (js ≡ [] → cs ≢ [])
            → parse stod (show v ++ (cs ++ render_rest js)) ≡ ok (json_of v)
        go [] h [] e = absurd (e refl refl)
        go [] h (j ∷ js) e = parse_scalar stod v b',' _ hv refl
        go (c ∷ cs) h js e = parse_scalar stod v c _ hv (close_lem c h.0).1

    parse-value :
        (os : List Key) (js : List Item) (rest : Members D → Members D)
        → AreKeys os
        → (js ≡ [] → close ≢ [])
        → AreItems js
        → ((m : Members D) → collect (parse stod) m js ≡ ok (rest m))
        → parse stod (text_of (item os k v close) (render_rest js)) ≡ ok (chain_value os k v rest)
    unfolding chain_value collect
    parse-value [] js rest ho ends hj h =
        rw (text_of_scalar k v close (render_rest js)) (scalar_value js ends)
    parse-value (o ∷ os) js rest ho ends hj h =
        rw (text_of_object o os k v close (render_rest js)) (
          parse-items stod [] (item os k v close) js tt (item-IsItem os ho.1, hj)
          ∙ rw (parse-value os js rest ho.1 ends hj h, h))

  items_of-AreItems :
      (e : Entry D) (es : List (Entry D)) → AreEntries stod e es → AreItems (items_of (e ∷ es))
  unfolding items_of
  items_of-AreItems e [] (h, _) = (
    item-IsItem e.key e.value e.close h.key_plain h.value_plain h.close_plain e.outer h.outer_keys,
    tt,
  )
  items_of-AreItems e (f ∷ es) (h, hs) = (
    item-IsItem e.key e.value e.close h.key_plain h.value_plain h.close_plain e.outer h.outer_keys,
    items_of-AreItems f es hs,
  )

  collect-chain :
      (e : Entry D) (es : List (Entry D))
      → AreEntries stod e es
      → (m : Members D) → collect (parse stod) m (items_of (e ∷ es)) ≡ ok (chain_members m (e ∷ es))
  unfolding collect items_of chain_members
  collect-chain e [] (h, ends) m = rw (
      parse-value e.key e.value e.close h.key_plain h.value_plain h.close_plain e.outer [] (λ x. x)
        h.outer_keys (λ _. ends) tt (λ x. refl))
  collect-chain e (f ∷ es) (h, hs) m =
      rw
        (parse-value e.key e.value e.close h.key_plain h.value_plain h.close_plain e.outer
          (items_of (f ∷ es)) (λ x. chain_members x (f ∷ es)) h.outer_keys (λ x. cc)
          (items_of-AreItems f es hs) (collect-chain f es hs))
        (collect-chain f es hs _)

  -- The text of an object of any depth, cut into entries at its commas, whose keys and strings hold
  -- neither quotes nor commas, whose numerals `std::stod` takes and in which no object is empty, is
  -- read as the object with the members of the chain: the result does not depend on how many braces
  -- stand behind an entry that is not the last.
  pub parse-chain :
      (w : Bytes) (e : Entry D) (es : List (Entry D))
      → All is_space w
      → AreEntries stod e es
      → parse stod (w ++ b'{' ∷ print_entries e es)
        ≡ ok (with_members (chain_members empty (e ∷ es)) (new_kind object))
  parse-chain w e es hw hs =
      rw (print_entries-render e es)
        (parse-items stod w (item_of e) (items_of es) hw (items e es hs) ∙ rw (collected e es hs))
    where
      items :
          (e : Entry D) (es : List (Entry D))
          → AreEntries stod e es
          → AreItems (item_of e ∷ items_of es)
      items e es hs = unfold items_of in items_of-AreItems e es hs

      collected :
          (e : Entry D) (es : List (Entry D))
          → AreEntries stod e es
          → collect (parse stod) empty (item_of e ∷ items_of es) ≡ ok (chain_members empty (e ∷ es))
      collected e es hs = unfold items_of in collect-chain e es hs empty

  -- Where an entry that is not the last closes other objects, or none, the result of `Parse` is the
  -- same: it is not the braces that end an object.
  pub parse-braces :
      (w : Bytes) (e f : Entry D) (es : List (Entry D)) (close : Bytes)
      → All is_space w
      → AreEntries stod e (f ∷ es)
      → All is_close close
      → parse stod (w ++ b'{' ∷ print_entries (record e { close = close }) (f ∷ es))
        ≡ parse stod (w ++ b'{' ∷ print_entries e (f ∷ es))
  unfolding chain_members
  parse-braces w e f es close hw (h, hs) hc =
      parse-chain w (record e { close = close }) (f ∷ es) hw (reclosed, hs)
      ∙ sym (parse-chain w e (f ∷ es) hw (h, hs))
    where
      reclosed : IsEntry stod (record e { close = close })
      reclosed = record {
        outer_keys = h.outer_keys;
        key_plain = h.key_plain;
        value_plain = h.value_plain;
        close_plain = hc;
      }
