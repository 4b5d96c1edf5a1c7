-- ===== src/Json/Types.antt =====
-- The tag of a `JSON` and the members that are set, and what `Parse` gives.
use ss_logger_cpp.Prelude.{
  ℕ, zero, suc, Bool, true, false, Option, none, some, Bytes, [], ◌≡◌, refl, ◌≢◌, ◌∙◌, subst, equal,
  equal_iff, Bool-cases, inl, inr, length, arith, if◌then◌else◌, ◌||◌, ◌==◌, codes,
}
use mathlib.Core.Option.{some_inj}
use ss_logger_cpp.Json.Result.{Result, ok, throws, timeout, undefined, ◌>>=◌}
use ss_logger_cpp.Json.Stream.{
  Stream, live, spent, peek, get, is, is_alpha, is_digit, to_char, read_while, unread,
  skip_whitespace,
}
use ss_logger_cpp.Json.Value.{
  Json, json, Members, empty, member, Kind, object, string, number, bool, nil, find, set_member,
  find-set_member, with_members, new_kind, new_string, new_number, new_bool, new_nil, get_type,
  get_object_value, get_string_value, get_number_value,
}
use ss_logger_cpp.Json.Parser.{
  string_loop, next_item, round, parse_string, parse_bool, parse_null, parse_number, read_item,
  object_loop, parse_object, parse_step, parse_with, parse, value_of,
}

module _ {D : Type 0} where
  -- The members that the constructor for a kind sets, the others as they are initialised.
  abbrev pub Sets : Kind → Members D → Bytes → Option D → Option Bool → Type 0
  Sets object m s n b = (s ≡ []) × (n ≡ none) × (b ≡ none)
  Sets string m s n b = (m ≡ empty) × (n ≡ none) × (b ≡ none)
  Sets number m s n b = (m ≡ empty) × (s ≡ []) × ((d : D) × (n ≡ some d)) × (b ≡ none)
  Sets bool m s n b = (m ≡ empty) × (s ≡ []) × (n ≡ none) × ((v : Bool) × (b ≡ some v))
  Sets nil m s n b = (m ≡ empty) × (s ≡ []) × (n ≡ none) × (b ≡ none)

  mutual
    -- The tag of each value in it says which member is set; no object has a key twice.
    pub IsTyped : Json D → Type 0
    IsTyped (json t m s n b) = Sets t m s n b × AreTyped m

    pub AreTyped : Members D → Type 0
    AreTyped empty = Unit
    AreTyped (member k v m) = IsTyped v × (find k m ≡ none) × AreTyped m

  set_member-AreTyped :
      (key : Bytes) (v : Json D) (m : Members D)
      → IsTyped v
      → AreTyped m
      → AreTyped (set_member key v m)
  unfolding set_member find AreTyped
  set_member-AreTyped key v empty h t = (h, refl, tt)
  set_member-AreTyped key v (member k w m) h (a, b, c) = elim (Bool-cases (equal k key)) [
    | inl e ↦ rw e (h, b, c)
    | inr e ↦ rw e (
      a,
      find-set_member key k v m ∙ ground (arith, equal_iff key k, equal_iff k key),
      set_member-AreTyped key v m h c,
    )
  ]

  pub get_object_value-AreTyped : (v : Json D) → IsTyped v → AreTyped (get_object_value v)
  unfolding get_object_value IsTyped
  get_object_value-AreTyped (json t m s n b) h = h.1

  pub find-IsTyped :
      (key : Bytes) (m : Members D) {v : Json D} → AreTyped m → find key m ≡ some v → IsTyped v
  unfolding find AreTyped
  find-IsTyped key empty t e = cc
  find-IsTyped key (member k w m) (a, b, c) e = elim (Bool-cases (equal k key)) [
    | inl h ↦ subst IsTyped ((some_inj {A = Json D}).0 (rw h at e)) a
    | inr h ↦ find-IsTyped key m c (rw h at e)
  ]

-- A condition on the value of a call that returns one; undefined behaviour is ruled out.
abbrev pub Returns : {A : Type 0} → (A → Type 0) → Result A → Type 0
Returns P (ok a) = P a
Returns P (throws e) = Unit
Returns P timeout = Unit
Returns P undefined = ⊥

Returns-bind :
    {A B : Type 0} (P : A → Type 0) (Q : B → Type 0) (r : Result A) (f : A → Result B)
    → Returns P r
    → ((a : A) → P a → Returns Q (f a))
    → Returns Q (r >>= f)
Returns-bind P Q (ok a) f h k = k a h
Returns-bind P Q (throws e) f h k = tt
Returns-bind P Q timeout f h k = tt
Returns-bind P Q undefined f h k = absurd h

Returns-if :
    {A : Type 0} (P : A → Type 0) (b : Bool) (r q : Result A)
    → Returns P r
    → Returns P q
    → Returns P (if b then r else q)
Returns-if P true r q h k = h
Returns-if P false r q h k = k

-- A call without a condition on its value.
abbrev pub IsDefined : {A : Type 0} → Result A → Type 0
IsDefined r = Returns (λ _. Unit) r

string_loop-IsDefined : (f : ℕ) (value : Bytes) (s : Stream) → IsDefined (string_loop f value s)
unfolding string_loop
string_loop-IsDefined zero value s = tt
string_loop-IsDefined (suc f) value s =
    Returns-if (λ _. Unit) (is b'"' (peek s).0) _ _ tt (string_loop-IsDefined f _ _)

unread-IsDefined : (s : Stream) → IsDefined (unread s)
unfolding unread
unread-IsDefined (live bs) = tt
unread-IsDefined spent = tt

abbrev IsValue : {D : Type 0} → Json D × Stream → Type 0
IsValue x = IsTyped x.0

module _ (D : Type 0) where
  parse_string-IsTyped : (f : ℕ) (s : Stream) → Returns IsValue (parse_string {D = D} f s)
  unfolding parse_string new_string IsTyped AreTyped
  parse_string-IsTyped f s =
      Returns-bind (λ _. Unit) IsValue (string_loop f [] (get s).1) _
        (string_loop-IsDefined f [] (get s).1) (λ a _. ((refl, refl, refl), tt))

  parse_bool-IsTyped : (s : Stream) → Returns IsValue (parse_bool {D = D} s)
  unfolding parse_bool new_bool IsTyped AreTyped
  parse_bool-IsTyped s =
      let (value, _) = read_while is_alpha s in
      Returns-if IsValue (equal value (codes "true")) _ _ ((refl, refl, refl, (true, refl)), tt)
        (Returns-if IsValue (equal value (codes "false")) _ _
          ((refl, refl, refl, (false, refl)), tt) tt)

  parse_null-IsTyped : (s : Stream) → Returns IsValue (parse_null {D = D} s)
  unfolding parse_null new_nil IsTyped AreTyped
  parse_null-IsTyped s =
      Returns-if IsValue (equal (read_while is_alpha s).0 (codes "null")) _ _
        ((refl, refl, refl, refl), tt) tt

  module _ (p : Bytes → Result (Json D)) (h : (c : Bytes) → Returns IsTyped (p c)) where
    abbrev AreMembers : Members D × Stream → Type 0
    AreMembers x = AreTyped x.0

    read_item-IsTyped :
        (f : ℕ) (obj : Members D) (s : Stream)
        → AreTyped obj
        → Returns AreMembers (read_item f p obj s)
    unfolding read_item unread
    read_item-IsTyped f obj s t =
        Returns-bind IsValue AreMembers (parse_string f (skip_whitespace s)) _
          (parse_string-IsTyped f (skip_whitespace s))
          (λ x _.
            Returns-bind (λ _. Unit) AreMembers
              (unread (skip_whitespace (get (skip_whitespace x.1)).1)) _
              (unread-IsDefined (skip_whitespace (get (skip_whitespace x.1)).1))
              (λ c _.
                Returns-bind IsTyped AreMembers (p c) _ (h c)
                  (λ v typed. set_member-AreTyped (get_string_value x.0) v obj typed t)))

    round-IsTyped :
        (obj : Members D) (body : Stream → Result (Members D × Stream)) (q : Bool × Stream)
        → AreTyped obj
        → ((s : Stream) → Returns AreMembers (body s))
        → Returns AreMembers (round obj body q)
    round-IsTyped obj body (false, s) t k = t
    round-IsTyped obj body (true, s) t k = k s

    object_loop-IsTyped :
        (f n : ℕ) (first : Bool) (obj : Members D) (s : Stream)
        → AreTyped obj
        → Returns AreMembers (object_loop f n p first obj s)
    unfolding object_loop
    object_loop-IsTyped f zero first obj s t = tt
    object_loop-IsTyped f (suc n) first obj s t = Returns-if AreMembers (is b'}' (peek s).0) _ _ t (
        round-IsTyped obj _ (next_item first (peek s).1) t (λ s.
          Returns-bind AreMembers AreMembers (read_item f p obj s) _ (read_item-IsTyped f obj s t)
            (λ x typed. object_loop-IsTyped f n false x.0 x.1 typed)))

    parse_object-IsTyped : (f : ℕ) (s : Stream) → Returns IsValue (parse_object f p s)
    unfolding parse_object new_kind with_members get_object_value IsTyped AreTyped
    parse_object-IsTyped f s =
        Returns-bind AreMembers IsValue _ _
          (object_loop-IsTyped f f true empty (skip_whitespace (get s).1) tt)
          (λ x typed. ((refl, refl, refl), typed))

    value_of-IsTyped :
        (r : Result (Json D × Stream)) → Returns IsValue r → Returns IsTyped (value_of r)
    value_of-IsTyped r k = Returns-bind IsValue IsTyped r _ k (λ x typed. typed)

module _ {D : Type 0} (stod : Bytes → Result D)
    (stod-IsDefined : (c : Bytes) → IsDefined (stod c)) where
  parse_number-IsTyped : (s : Stream) → Returns IsValue (parse_number stod s)
  unfolding parse_number new_number IsTyped AreTyped
  parse_number-IsTyped s =
      let (value, _) = read_while (λ c. is_digit c || c == b'.' || c == b'-') s in
      Returns-bind (λ _. Unit) IsValue (stod value) _ (stod-IsDefined value)
        (λ d _. ((refl, refl, (d, refl), refl), tt))

  parse_step-IsTyped :
      (f : ℕ) (p : Bytes → Result (Json D))
      → ((c : Bytes) → Returns IsTyped (p c))
      → (content : Bytes) → Returns IsTyped (parse_step stod f p content)
  unfolding parse_step
  parse_step-IsTyped f p h content =
      let s : Stream = (peek (skip_whitespace (live content))).1 in
      let c : ℕ = to_char (peek (skip_whitespace (live content))).0 in
      Returns-if IsTyped (c == b'{') _ _ (value_of-IsTyped D p h _ (parse_object-IsTyped D p h f s))
        (Returns-if IsTyped (c == b'"') _ _ (value_of-IsTyped D p h _ (parse_string-IsTyped D f s))
          (Returns-if IsTyped (is_digit c || c == b'-') _ _
            (value_of-IsTyped D p h _ (parse_number-IsTyped s))
            (Returns-if IsTyped (c == b't' || c == b'f') _ _
              (value_of-IsTyped D p h _ (parse_bool-IsTyped D s))
              (Returns-if IsTyped (c == b'n') _ _
                (value_of-IsTyped D p h _ (parse_null-IsTyped D s)) tt))))

  parse_with-IsTyped : (f : ℕ) (content : Bytes) → Returns IsTyped (parse_with stod f content)
  unfolding parse_with
  parse_with-IsTyped zero content = tt
  parse_with-IsTyped (suc f) content =
      parse_step-IsTyped (suc f) (parse_with stod f) (parse_with-IsTyped f) content

  pub parse-IsTyped : (content : Bytes) → Returns IsTyped (parse stod content)
  unfolding parse
  parse-IsTyped content = parse_with-IsTyped (suc (length content)) content

-- What `get_number_value` gives of a value with consistent members.
module _ {D : Type 0} where
  pub other_kind-undefined :
      (v : Json D) → IsTyped v → get_type v ≢ number → get_number_value v ≡ undefined
  unfolding IsTyped get_type get_number_value
  other_kind-undefined (json number m s n b) t h = absurd (h refl)
  other_kind-undefined (json object m s n b) ((_, e, _), _) h = rw e
  other_kind-undefined (json string m s n b) ((_, e, _), _) h = rw e
  other_kind-undefined (json bool m s n b) ((_, _, e, _), _) h = rw e
  other_kind-undefined (json nil m s n b) ((_, _, e, _), _) h = rw e
