-- ===== src/Json/Parser.antt =====
-- The static member functions of `JSON`. `stod` is `std::stod`, which may throw.
--
-- The fuel bounds the rounds of each loop and the depth of the calls of `parse` inside one
-- another; `parse` gives more than the length of the text.
use ss_logger_cpp.Prelude.{
  ℕ, zero, suc, Bool, true, false, ◌||◌, none, some, [], ◌∷◌, ◌++◌, Bytes, codes, ◌==◌, equal,
  length, if◌then◌else◌,
}
use ss_logger_cpp.Json.Result.{Result, ok, throws, timeout, ◌>>=◌, runtime_error}
use ss_logger_cpp.Json.Stream.{
  Stream, live, peek, get, is, to_char, unread, is_digit, is_alpha, read_while, skip_whitespace,
  skip_to_comma,
}
use ss_logger_cpp.Json.Value.{
  Json, Members, object, new_nil, new_kind, new_string, new_number, new_bool, set_member,
  get_object_value, get_string_value, with_members,
}

-- `while (ss.peek() != '"') value += ss.get();`.
unfoldable pub string_loop : ℕ → Bytes → Stream → Result (Bytes × Stream)
string_loop zero value s = timeout
string_loop (suc f) value s =
    let (c, s) = peek s in
    let (d, r) = get s in
    let more = string_loop f (value ++ to_char d ∷ []) r in
    if is b'"' c then ok (value, s) else more

-- The `if (firstItem)` of the loop of `ParseObject`; `false` is its `break`.
unfoldable pub next_item : Bool → Stream → Bool × Stream
next_item true s = (true, s)
next_item false s =
    let (c, s) = peek (skip_to_comma s) in elim c [ none ↦ (false, s) | some _ ↦ (true, (get s).1) ]

module _ {D : Type 0} where
  -- `JSON::ParseString`.
  unfoldable pub parse_string : ℕ → Stream → Result (Json D × Stream)
  parse_string f s = do (value, s) ← string_loop f [] (get s).1; ok (new_string value, (get s).1)

  -- `JSON::ParseBool`.
  unfoldable pub parse_bool : Stream → Result (Json D × Stream)
  parse_bool s =
      let (value, s) = read_while is_alpha s in
      if equal value (codes "true")
      then ok (new_bool true, s)
      else if equal value (codes "false")
      then ok (new_bool false, s)
      else throws runtime_error

  -- `JSON::ParseNull`.
  unfoldable pub parse_null : Stream → Result (Json D × Stream)
  parse_null s =
      let (value, s) = read_while is_alpha s in
      if equal value (codes "null") then ok (new_nil, s) else throws runtime_error

  -- The lines of the loop behind it, up to the end of the round.
  unfoldable pub read_item :
      ℕ → (Bytes → Result (Json D)) → Members D → Stream → Result (Members D × Stream)
  read_item f parse_rest obj s = do
    (key, s) ← parse_string f (skip_whitespace s)
    let s = skip_whitespace (get (skip_whitespace s)).1
    content ← unread s
    value ← parse_rest content
    let (c, s) = peek (skip_whitespace s)
    let s = if is b',' c then skip_whitespace (get s).1 else s
    ok (set_member (get_string_value key) value obj, s)

  -- The rest of a round, unless `break` has left the loop.
  abbrev pub round :
      Members D
      → (Stream → Result (Members D × Stream))
      → Bool × Stream
      → Result (Members D × Stream)
  round obj body (false, s) = ok (obj, s)
  round obj body (true, s) = body s

  -- The loop of `ParseObject`.
  unfoldable pub object_loop :
      ℕ → ℕ → (Bytes → Result (Json D)) → Bool → Members D → Stream → Result (Members D × Stream)
  object_loop f zero parse_rest first_item obj s = timeout
  object_loop f (suc n) parse_rest first_item obj s =
      let (c, s) = peek s in
      if is b'}' c
      then ok (obj, s)
      else round obj
          (λ s. do (obj, s) ← read_item f parse_rest obj s; object_loop f n parse_rest false obj s)
          (next_item first_item s)

  -- `JSON::ParseObject`; `parse_rest` is the call of `Parse` on the copied rest.
  unfoldable pub parse_object : ℕ → (Bytes → Result (Json D)) → Stream → Result (Json D × Stream)
  parse_object f parse_rest s = do
    let obj = new_kind object
    (members, s) ←
        object_loop f f parse_rest true (get_object_value obj) (skip_whitespace (get s).1)
    ok (with_members members obj, (get s).1)

  -- A value with no stream: the one that `Parse` reads is local to it.
  abbrev pub value_of : Result (Json D × Stream) → Result (Json D)
  value_of r = do (value, _) ← r; ok value

module _ {D : Type 0} (stod : Bytes → Result D) where
  -- `JSON::ParseNumber`.
  unfoldable pub parse_number : Stream → Result (Json D × Stream)
  parse_number s =
      let (value, s) = read_while (λ c. is_digit c || c == b'.' || c == b'-') s in
      do d ← stod value; ok (new_number d, s)

  -- The body of `JSON::Parse`.
  unfoldable pub parse_step : ℕ → (Bytes → Result (Json D)) → Bytes → Result (Json D)
  parse_step f parse_rest content =
      let (d, s) = peek (skip_whitespace (live content)) in
      let c = to_char d in
      if c == b'{'
      then value_of (parse_object f parse_rest s)
      else if c == b'"'
      then value_of (parse_string f s)
      else if is_digit c || c == b'-'
      then value_of (parse_number s)
      else if c == b't' || c == b'f'
      then value_of (parse_bool s)
      else if c == b'n'
      then value_of (parse_null s)
      else throws runtime_error

  unfoldable pub parse_with : ℕ → Bytes → Result (Json D)
  parse_with zero content = timeout
  parse_with (suc f) content = parse_step (suc f) (parse_with f) content

  -- `JSON::Parse`.
  unfoldable pub parse : Bytes → Result (Json D)
  parse content = parse_with (suc (length content)) content
