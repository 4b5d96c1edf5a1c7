-- ===== src/Json/Strings.antt =====
-- `ParseString` on strings that are closed and on strings that are not.
use ss_logger_cpp.Prelude.{
  ℕ, zero, suc, ◌<◌, ◌≡◌, refl, sym, arith, [], ◌∷◌, ◌++◌, Bytes, All, length, ◌==◌, append-nil,
  append_assoc, Bool-cases, inl, inr, ◌∙◌,
}
use ss_logger_cpp.Json.Result.{ok, timeout}
use ss_logger_cpp.Json.Stream.{Stream, live, spent, peek, get}
use ss_logger_cpp.Json.Value.{new_string}
use ss_logger_cpp.Json.Parser.{string_loop, parse_string}
use ss_logger_cpp.Json.Scan.{not_quote, size}

string_loop_closed :
    (f : ℕ) (value body r : Bytes)
    → All not_quote body
    → length body < f
    → string_loop f value (live (body ++ b'"' ∷ r)) ≡ ok (value ++ body, live (b'"' ∷ r))
unfolding string_loop peek get
string_loop_closed zero value body r h lt = absurd (omega arith)
string_loop_closed (suc f) value [] r h lt = rw append-nil
string_loop_closed (suc f) value (c ∷ cs) r h lt = ground (
  arith,
  string_loop_closed f (value ++ c ∷ []) cs r h.1 (omega arith),
  append_assoc value (c ∷ []) cs,
)

string_loop_spent : (f : ℕ) (value : Bytes) → string_loop f value spent ≡ timeout
unfolding string_loop peek get
string_loop_spent zero value = refl
string_loop_spent (suc f) value = string_loop_spent f _

string_loop_open :
    (f : ℕ) (value body : Bytes) → All not_quote body → string_loop f value (live body) ≡ timeout
unfolding string_loop peek get
string_loop_open zero value body h = refl
string_loop_open (suc f) value [] h = string_loop_spent f _
string_loop_open (suc f) value (c ∷ cs) h =
    ground (arith, string_loop_open f (value ++ c ∷ []) cs h.1)

module _ {D : Type 0} where
  -- `ParseString` skips one byte, reads up to the next quote, whatever stands before it, and leaves
  -- the stream behind that quote.
  pub parse_string_closed :
      (f q : ℕ) (body r : Bytes)
      → All not_quote body
      → length body < f
      → parse_string {D = D} f (live (q ∷ (body ++ b'"' ∷ r))) ≡ ok (new_string body, live r)
  unfolding parse_string get
  parse_string_closed f q body r h lt = rw (string_loop_closed f [] body r h lt)

  -- If no quote follows the first byte, no number of rounds is enough: the loop does not end.
  pub parse_string_open :
      (f q : ℕ) (body : Bytes)
      → All not_quote body
      → parse_string {D = D} f (live (q ∷ body)) ≡ timeout
  unfolding parse_string get
  parse_string_open f q body h = rw (string_loop_open f [] body h)

  pub parse_string_spent : (f : ℕ) → parse_string {D = D} f spent ≡ timeout
  unfolding parse_string get
  parse_string_spent f = rw (string_loop_spent f [])

-- More rounds than bytes are as good as any larger number of rounds.
pub string_loop_enough :
    (f g : ℕ) (value : Bytes) (s : Stream)
    → size s < f
    → size s < g
    → string_loop f value s ≡ string_loop g value s
unfolding string_loop peek get
string_loop_enough f g value spent h k = string_loop_spent f value ∙ sym (string_loop_spent g value)
string_loop_enough f g value (live []) h k =
    string_loop_open f value [] tt ∙ sym (string_loop_open g value [] tt)
string_loop_enough zero g value (live (c ∷ r)) h k = absurd (omega arith)
string_loop_enough (suc f) zero value (live (c ∷ r)) h k = absurd (omega arith)
string_loop_enough (suc f) (suc g) value (live (c ∷ r)) h k =
    rw (string_loop_enough f g (value ++ c ∷ []) (live r) (omega arith) (omega arith))

pub string_loop_shrinks :
    (f : ℕ) (value : Bytes) (s : Stream) {v : Bytes} {t : Stream}
    → string_loop f value s ≡ ok (v, t)
    → size (get t).1 < size s
unfolding string_loop peek get
string_loop_shrinks zero value s h = cc
string_loop_shrinks (suc f) value spent h = cc (string_loop_spent f (value ++ 255 ∷ []))
string_loop_shrinks (suc f) value (live []) h = cc (string_loop_spent f (value ++ 255 ∷ []))
string_loop_shrinks (suc f) value (live (c ∷ r)) {v} {t} h = elim (Bool-cases (c == b'"')) [
  | inl e ↦ ground arith
  | inr e ↦
      let rest : string_loop f (value ++ c ∷ []) (live r) ≡ ok (v, t) = rw e at h in
      omega (arith, string_loop_shrinks f (value ++ c ∷ []) (live r) rest)
]
