-- ===== src/Json/Commas.antt =====
-- A string with a comma inside it, as the value of a member.
use ss_logger_cpp.Prelude.{
  ℕ, suc, ◌+◌, ◌<◌, ◌≤◌, true, false, ◌≡◌, refl, ap, arith, [], ◌∷◌, ◌++◌, Bytes, ◌∙◌, All,
  All-append, append_assoc, length, length-append,
}
use ss_logger_cpp.Json.Result.{Result, ok, throws, out_of_range}
use ss_logger_cpp.Json.Stream.{live, peek, get, unread, is_space}
use ss_logger_cpp.Json.Value.{
  Json, Members, empty, new_kind, get_object_value, new_string, set_member,
}
use ss_logger_cpp.Json.Parser.{
  next_item, round, read_item, object_loop, parse_object, parse_step, parse,
}
use ss_logger_cpp.Json.Scan.{not_comma, not_quote, skip_whitespace_stop, skip_whitespace_end}
use ss_logger_cpp.Json.Strings.{parse_string_closed}
use ss_logger_cpp.Json.Fuel.{parse_lem}
use ss_logger_cpp.Json.Items.{Item, IsItem, read_item_lem, next_item_stop}
use ss_logger_cpp.Json.Scalars.{parse_text}

-- The text behind the comma, up to the end: whitespace, a byte, more bytes, and the closing quote
-- and brace.
abbrev tail_text : Bytes → ℕ → Bytes → Bytes
tail_text w q body = w ++ q ∷ (body ++ b'"' ∷ b'}' ∷ [])

-- `{"k":"x,wqb"}`.
abbrev pub comma_text : Bytes → Bytes → Bytes → ℕ → Bytes → Bytes
comma_text k x w q body = b'{' ∷ b'"' ∷ (k ++ b'"' ∷ b':' ∷ b'"' ∷ (x ++ b',' ∷ tail_text w q body))

value_item : Bytes → Bytes → Item
value_item k x = record { lead = []; key = k; gap = []; space = []; first = b'"'; more = x }

value_item-IsItem : (k x : Bytes) → All not_quote k → All not_comma x → IsItem (value_item k x)
unfolding value_item
value_item-IsItem k x hk hx = record {
  lead_space = tt;
  key_plain = hk;
  gap_space = tt;
  space_space = tt;
  first_value = refl;
  more_plain = hx;
}

space-not_quote : (c : ℕ) → is_space c ≡ true → not_quote c ≡ true
space-not_quote c h = ground arith

regroup :
    (x w : Bytes) (q : ℕ) (body : Bytes)
    → b'"' ∷ (x ++ b',' ∷ tail_text w q body)
      ≡ b'"' ∷ ((x ++ b',' ∷ (w ++ q ∷ body)) ++ b'"' ∷ b'}' ∷ [])
regroup x w q body = simp append_assoc

sizes :
    (k x w : Bytes) (q : ℕ) (body : Bytes)
    → length k + length body ≤ length (comma_text k x w q body)
sizes k x w q body = omega (
  arith,
  length-append k (b'"' ∷ b':' ∷ b'"' ∷ (x ++ b',' ∷ tail_text w q body)),
  length-append x (b',' ∷ tail_text w q body),
  length-append w (q ∷ (body ++ b'"' ∷ b'}' ∷ [])),
  length-append body (b'"' ∷ b'}' ∷ []),
)

spaces-not_quote : (w : Bytes) → All is_space w → All not_quote w
spaces-not_quote [] h = tt
spaces-not_quote (c ∷ w) h = (space-not_quote c h.0, spaces-not_quote w h.1)

module _ {D : Type 0} (w : Bytes) (q : ℕ) (body : Bytes) (hw : All is_space w)
    (hq : is_space q ≡ false) (hb : All not_quote body) where
  -- What follows the comma is taken for a key, and the end of the text comes before its value.
  read_item_tail :
      (f : ℕ) (p : Bytes → Result (Json D)) (obj : Members D)
      → length body < f
      → read_item f p obj (live (tail_text w q body)) ≡ throws out_of_range
  unfolding read_item get unread
  read_item_tail f p obj lt = rw (
    skip_whitespace_stop w q (body ++ b'"' ∷ b'}' ∷ []) hw hq,
    parse_string_closed f q body (b'}' ∷ []) hb lt,
    skip_whitespace_stop [] b'}' [] tt refl,
    skip_whitespace_end [] tt,
  )

  loop_tail :
      (f n : ℕ) (p : Bytes → Result (Json D)) (obj : Members D) (x : Bytes)
      → All not_comma x
      → length body < f
      → object_loop f (suc n) p false obj (live (b'"' ∷ (x ++ b',' ∷ tail_text w q body)))
        ≡ throws out_of_range
  unfolding object_loop peek
  loop_tail f n p obj x hx lt =
      ap (round obj _) (next_item_stop (b'"' ∷ x) (tail_text w q body) (refl, hx))
      ∙ rw (read_item_tail f p obj lt)

  loop_comma :
      (f n : ℕ) (p : Bytes → Result (Json D)) (obj : Members D) (k x : Bytes) (v : Json D)
      → All not_quote k
      → All not_comma x
      → length k < f
      → length body < f
      → p (b'"' ∷ (x ++ b',' ∷ tail_text w q body)) ≡ ok v
      → object_loop f
          (suc (suc n))
          p
          true
          obj
          (live (b'"' ∷ (k ++ b'"' ∷ b':' ∷ b'"' ∷ (x ++ b',' ∷ tail_text w q body))))
        ≡ throws out_of_range
  unfolding object_loop next_item peek value_item
  loop_comma f n p obj k x v hk hx lk lb e =
      rw
        (
          read_item_lem f p obj (value_item k x) (b',' ∷ tail_text w q body)
              (value_item-IsItem k x hk hx) lk,
          e,
        )
        (loop_tail f n p (set_member k v obj) x hx lb)

  module _ (stod : Bytes → Result D) where
    whole_value :
        (x : Bytes)
        → All not_quote x
        → not_quote q ≡ true
        → parse stod (b'"' ∷ (x ++ b',' ∷ tail_text w q body))
          ≡ ok (new_string (x ++ b',' ∷ (w ++ q ∷ body)))
    whole_value x hx nq =
        let plain =
          All-append not_quote x (b',' ∷ (w ++ q ∷ body)) hx
            (refl, All-append not_quote w (q ∷ body) (spaces-not_quote w hw) (nq, hb)) in
        rw (regroup x w q body) (parse_text stod (x ++ b',' ∷ (w ++ q ∷ body)) (b'}' ∷ []) plain)

    -- On `{"k":"x,y"}`, where `k` holds no quote, `x` neither quotes nor commas, and `y` no quote
    -- but a byte that is no whitespace, the parser throws `std::out_of_range`.
    pub parse-comma :
        (k x : Bytes)
        → All not_quote k
        → All not_quote x
        → All not_comma x
        → not_quote q ≡ true
        → parse stod (comma_text k x w q body) ≡ throws out_of_range
    unfolding parse_step parse_object peek get get_object_value new_kind
    parse-comma k x hk hx hx' nq =
        let content = comma_text k x w q body in
        let f = suc (suc (length content)) in
        let value : Bytes = x ++ b',' ∷ (w ++ q ∷ body) in
        parse_lem stod f content (omega arith)
        ∙ rw (
          skip_whitespace_stop [] b'{' _ tt refl,
          skip_whitespace_stop [] b'"' _ tt refl,
          loop_comma f (length content) (parse stod) empty k x (new_string value) hk hx'
              (omega (arith, sizes k x w q body)) (omega (arith, sizes k x w q body))
              (whole_value x hx nq),
        )
