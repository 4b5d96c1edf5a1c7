-- ===== src/Json/Fuel.antt =====
-- The fuel of the parser and the length of the text.
use ss_logger_cpp.Prelude.{
  ℕ, zero, suc, ◌<◌, ◌≤◌, Bool, true, false, ◌≡◌, refl, sym, ap, arith, [], Bytes, length,
  Bool-cases, inl, inr, ◌∙◌,
}
use ss_logger_cpp.Json.Result.{Result, ok, >>=-eq-ok, >>=-cong}
use ss_logger_cpp.Json.Stream.{
  Stream, live, spent, peek, get, is, unread, skip_whitespace, skip_to_comma,
}
use ss_logger_cpp.Json.Value.{Json, Members}
use ss_logger_cpp.Json.Parser.{
  string_loop, parse_string, next_item, round, read_item, object_loop, parse_object, parse_step,
  parse_with, parse,
}
use ss_logger_cpp.Json.Scan.{size, size-skip_whitespace, size-skip_to_comma, size-get, size-peek}
use ss_logger_cpp.Json.Strings.{string_loop_enough, string_loop_shrinks}

size-next_item : (b : Bool) (s : Stream) → size (next_item b s).1 ≤ size s
unfolding next_item
size-next_item true s = omega arith
size-next_item false s =
    ground (
      arith,
      size-skip_to_comma s,
      size-peek (skip_to_comma s),
      size-get (peek (skip_to_comma s)).1,
    )

size-unread : (s : Stream) {c : Bytes} → unread s ≡ ok c → length c ≤ size s
unfolding unread
size-unread (live bs) h = ground arith
size-unread spent h = cc

-- Where the value of an item starts.
abbrev value_start : Stream → Stream
value_start s = skip_whitespace (get (skip_whitespace s)).1

size-value_start : (s : Stream) → size (value_start s) ≤ size s
size-value_start s = omega (
  arith,
  size-skip_whitespace s,
  size-get (skip_whitespace s),
  size-skip_whitespace (get (skip_whitespace s)).1,
)

module _ {D : Type 0} where
  parse_string_enough :
      (f g : ℕ) (s : Stream) → size s < f → size s < g → parse_string {D = D} f s ≡ parse_string g s
  unfolding parse_string
  parse_string_enough f g s h k =
      >>=-cong _ _ _ _
        (string_loop_enough f g [] (get s).1 (omega (arith, size-get s))
          (omega (arith, size-get s)))
        (λ a e. refl)

  parse_string_shrinks :
      (f : ℕ) (s : Stream) {v : Json D} {t : Stream}
      → parse_string f s ≡ ok (v, t)
      → size t < size s
  unfolding parse_string
  parse_string_shrinks f s {v} {t} h =
      let ((value, r), e, e') = >>=-eq-ok (string_loop f [] (get s).1) _ h in
      ground (arith, string_loop_shrinks f [] (get s).1 e, size-get s)

  rest-lt :
      (f : ℕ) (s : Stream) (x : Json D × Stream)
      → parse_string f (skip_whitespace s) ≡ ok x
      → (c : Bytes) → unread (value_start x.1) ≡ ok c
      → length c < size s
  rest-lt f s x e c e' = omega (
    arith,
    parse_string_shrinks f (skip_whitespace s) {v = x.0} {t = x.1} e,
    size-skip_whitespace s,
    size-unread (value_start x.1) e',
    size-value_start x.1,
  )

  -- Two ways to parse a rest, the same on all texts below a length.
  abbrev Agree : ℕ → (Bytes → Result (Json D)) → (Bytes → Result (Json D)) → Type 0
  Agree n p q = (c : Bytes) → length c < n → p c ≡ q c

  Agree-below : {m n : ℕ} (p q : Bytes → Result (Json D)) → m ≤ n → Agree n p q → Agree m p q
  Agree-below p q h a c lt = a c (omega arith)

  module _ (p q : Bytes → Result (Json D)) where
    read_item_enough :
        (f g : ℕ) (obj : Members D) (s : Stream)
        → size s < f
        → size s < g
        → Agree (size s) p q
        → read_item f p obj s ≡ read_item g q obj s
    unfolding read_item
    read_item_enough f g obj s h k a =
        >>=-cong _ _ _ _
          (parse_string_enough f g (skip_whitespace s) (omega (arith, size-skip_whitespace s))
            (omega (arith, size-skip_whitespace s)))
          (λ x e.
            >>=-cong _ _ _ _ refl
              (λ c e'. >>=-cong _ _ _ _ (a c (rest-lt f s x e c e')) (λ v e''. refl)))

  read_item_shrinks :
      (f : ℕ) (p : Bytes → Result (Json D)) (obj : Members D) (s : Stream) {o : Members D}
      {t : Stream}
      → read_item f p obj s ≡ ok (o, t)
      → size t < size s
  unfolding read_item
  read_item_shrinks f p obj s {o} {t} h =
      let (x, e, h₁) = >>=-eq-ok (parse_string f (skip_whitespace s)) _ h in
      let (c, e', h₂) = >>=-eq-ok (unread (value_start x.1)) _ h₁ in
      let (v, _, h₃) = >>=-eq-ok (p c) _ h₂ in
      let after : Stream = skip_whitespace (value_start x.1) in
      ground (
        arith,
        h₃,
        parse_string_shrinks f (skip_whitespace s) {v = x.0} {t = x.1} e,
        size-skip_whitespace s,
        size-value_start x.1,
        size-skip_whitespace (value_start x.1),
        size-peek after,
        size-get (peek after).1,
        size-skip_whitespace (get (peek after).1).1,
      )

  round-cong :
      (obj : Members D) (j k : Stream → Result (Members D × Stream)) (q : Bool × Stream)
      → ((s : Stream) → q ≡ (true, s) → j s ≡ k s)
      → round obj j q ≡ round obj k q
  round-cong obj j k (false, s) h = refl
  round-cong obj j k (true, s) h = h s refl

  object_loop_enough :
      (f g n m : ℕ) (p q : Bytes → Result (Json D)) (b : Bool) (obj : Members D) (s : Stream)
      → size s < f
      → size s < g
      → size s < n
      → size s < m
      → Agree (size s) p q
      → object_loop f n p b obj s ≡ object_loop g m q b obj s
  unfolding object_loop
  object_loop_enough f g zero m p q b obj s hf hg hn hm a = absurd (omega arith)
  object_loop_enough f g (suc n) zero p q b obj s hf hg hn hm a = absurd (omega arith)
  object_loop_enough f g (suc n) (suc m) p q b obj s hf hg hn hm a =
      elim (Bool-cases (is b'}' (peek s).0)) [
        | inl e ↦ rw e refl
        | inr e ↦ rw e (
            round-cong obj _ _ (next_item b (peek s).1) (λ t e'.
              let le : size t ≤ size s = omega (
                arith,
                size-next_item b (peek s).1,
                ap (λ (x : Bool × Stream). size x.1) e',
                size-peek s,
              ) in
              >>=-cong _ _ _ _
                (read_item_enough p q f g obj t (omega arith) (omega arith)
                  (Agree-below {m = size t} p q le a))
                (λ x e''.
                  let lt = read_item_shrinks f p obj t {o = x.0} {t = x.1} e'' in
                  object_loop_enough f g n m p q false x.0 x.1 (omega arith) (omega arith)
                    (omega arith) (omega arith) (Agree-below {m = size x.1} p q (omega arith) a))))
      ]

  parse_object_enough :
      (f g : ℕ) (p q : Bytes → Result (Json D)) (s : Stream)
      → size s < f
      → size s < g
      → Agree (size s) p q
      → parse_object f p s ≡ parse_object g q s
  unfolding parse_object
  parse_object_enough f g p q s hf hg a =
      let le : size (skip_whitespace (get s).1) ≤ size s =
        omega (arith, size-skip_whitespace (get s).1, size-get s) in
      >>=-cong _ _ _ _
        (object_loop_enough f g f g p q true _ (skip_whitespace (get s).1) (omega arith)
          (omega arith) (omega arith) (omega arith)
          (Agree-below {m = size (skip_whitespace (get s).1)} p q le a))
        (λ x e. refl)

module _ {D : Type 0} (stod : Bytes → Result D) where
  parse_step_enough :
      (f g : ℕ) (p q : Bytes → Result (Json D)) (c : Bytes)
      → length c < f
      → length c < g
      → Agree (length c) p q
      → parse_step stod f p c ≡ parse_step stod g q c
  unfolding parse_step
  parse_step_enough f g p q c hf hg a =
      let s : Stream = (peek (skip_whitespace (live c))).1 in
      let le : size s ≤ length c =
        omega (arith, size-peek (skip_whitespace (live c)), size-skip_whitespace (live c)) in
      rw (
        parse_object_enough f g p q s (omega arith) (omega arith)
            (Agree-below {m = size s} p q le a),
        parse_string_enough {D = D} f g s (omega arith) (omega arith),
      )

  parse_with_enough :
      (f g : ℕ) (c : Bytes)
      → length c < f
      → length c < g
      → parse_with stod f c ≡ parse_with stod g c
  unfolding parse_with
  parse_with_enough zero g c hf hg = absurd (omega arith)
  parse_with_enough (suc f) zero c hf hg = absurd (omega arith)
  parse_with_enough (suc f) (suc g) c hf hg =
      parse_step_enough (suc f) (suc g) _ _ c hf hg
        (λ d lt. parse_with_enough f g d (omega arith) (omega arith))

  -- Any fuel above the length of the text gives the result of `parse`, a `timeout` included: the
  -- fuel cuts off no run of the code that ends, and no run of it depends on the fuel.
  pub parse-fuel :
      (f : ℕ) (content : Bytes)
      → length content < f
      → parse_with stod f content ≡ parse stod content
  unfolding parse
  parse-fuel f content lt = parse_with_enough f (suc (length content)) content lt (omega arith)

  -- `parse` is its body with `parse` itself for the rests.
  pub parse_lem :
      (f : ℕ) (content : Bytes)
      → length content < f
      → parse stod content ≡ parse_step stod f (parse stod) content
  parse_lem f content lt =
      sym (parse-fuel (suc (length content)) content (omega arith))
      ∙ unfold parse_with in
        parse_step_enough (suc (length content)) f _ _ content (omega arith) lt
          (λ d l. parse-fuel (length content) d l)
