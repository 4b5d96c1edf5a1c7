-- ===== src/Json/Nesting/Entries.antt =====
-- The entries of a text as the items that the parser sees.
use ss_logger_cpp.Prelude.{
  ℕ, true, ◌≡◌, refl, ap, arith, List, [], ◌∷◌, ◌++◌, Bytes, ◌∙◌, All, All-append, append_assoc,
}
use ss_logger_cpp.Json.Stream.{is_space}
use ss_logger_cpp.Json.Scan.{not_comma}
use ss_logger_cpp.Json.Items.{Item, text_of, render, render_rest, starts_value}
use ss_logger_cpp.Json.Scalars.{Scalar, show, is_delimiter}
use ss_logger_cpp.Json.Flat.{show_first, show_more, show_split}
use ss_logger_cpp.Json.Nesting.{
  Key, IsKey, Entry, is_close, print_key, print_entry, print_entries, first_key,
}

pub close_lem : (c : ℕ) → is_close c ≡ true → (not_comma c ≡ true) × (is_delimiter c ≡ true)
close_lem c h = ground arith

space-not_comma : (c : ℕ) → is_space c ≡ true → not_comma c ≡ true
space-not_comma c h = ground arith

pub starts-not_comma : (c : ℕ) → starts_value c ≡ true → not_comma c ≡ true
starts-not_comma c h = ground arith

spaces-plain : (w : Bytes) → All is_space w → All not_comma w
spaces-plain [] h = tt
spaces-plain (c ∷ w) h = (space-not_comma c h.0, spaces-plain w h.1)

pub closes-plain : (w : Bytes) → All is_close w → All not_comma w
closes-plain [] h = tt
closes-plain (c ∷ w) h = ((close_lem c h.0).0, closes-plain w h.1)

pub key-plain :
    (k : Key) (rest : Bytes) → IsKey k → All not_comma rest → All not_comma (print_key k rest)
key-plain k rest h hr = All-append not_comma k.lead _ (spaces-plain k.lead h.lead_space) (
  refl,
  All-append not_comma k.name _ h.name_comma (
    refl,
    All-append not_comma k.gap _ (spaces-plain k.gap h.gap_space)
        (refl, All-append not_comma k.space rest (spaces-plain k.space h.space_space) hr),
  ),
)

module _ {D : Type 0} where
  -- The first byte of the value of the first key of an entry, and what follows that byte.
  unfoldable pub value_first : List Key → Scalar D → ℕ
  value_first [] v = show_first v
  value_first (o ∷ os) v = b'{'

  unfoldable pub value_more : List Key → Key → Scalar D → Bytes → Bytes
  value_more [] k v close = show_more v ++ close
  value_more (o ∷ os) k v close = print_entry os k v close []

  abbrev pub item : List Key → Key → Scalar D → Bytes → Item
  item os k v close = record {
    lead = (first_key os k).lead;
    key = (first_key os k).name;
    gap = (first_key os k).gap;
    space = (first_key os k).space;
    first = value_first os v;
    more = value_more os k v close;
  }

  abbrev pub item_of : Entry D → Item
  item_of e = item e.outer e.key e.value e.close

  unfoldable pub items_of : List (Entry D) → List Item
  items_of [] = []
  items_of (e ∷ es) = item_of e ∷ items_of es

  print_entry-append :
      (os : List Key) (k : Key) (v : Scalar D) (close rest : Bytes)
      → print_entry os k v close [] ++ rest ≡ print_entry os k v close rest
  print_entry-append [] k v close rest = simp append_assoc
  print_entry-append (o ∷ os) k v close rest = simp (append_assoc, print_entry-append os)

  print_entry-render :
      (os : List Key) (k : Key) (v : Scalar D) (close rest : Bytes)
      → print_entry os k v close rest ≡ render (item os k v close) rest
  unfolding value_first value_more
  print_entry-render [] k v close rest = simp (show_split v, append_assoc)
  print_entry-render (o ∷ os) k v close rest = simp (print_entry-append os)

  pub print_entries-render :
      (e : Entry D) (es : List (Entry D))
      → print_entries e es ≡ render (item_of e) (render_rest (items_of es))
  unfolding items_of
  print_entries-render e [] = print_entry-render e.outer e.key e.value e.close []
  print_entries-render e (f ∷ es) =
      ap (λ r. print_entry e.outer e.key e.value e.close (b',' ∷ r)) (print_entries-render f es)
      ∙ print_entry-render e.outer e.key e.value e.close _

  pub text_of_scalar :
      (k : Key) (v : Scalar D) (close rest : Bytes)
      → text_of (item [] k v close) rest ≡ show v ++ (close ++ rest)
  unfolding value_first value_more
  text_of_scalar k v close rest = simp (show_split v, append_assoc)

  pub text_of_object :
      (o : Key) (os : List Key) (k : Key) (v : Scalar D) (close rest : Bytes)
      → text_of (item (o ∷ os) k v close) rest ≡ b'{' ∷ render (item os k v close) rest
  unfolding value_first value_more
  text_of_object o os k v close rest =
      ap (λ (r : Bytes). b'{' ∷ r)
        (print_entry-append os k v close rest ∙ print_entry-render os k v close rest)
