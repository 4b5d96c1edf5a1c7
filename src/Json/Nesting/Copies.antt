-- ===== src/Json/Nesting/Copies.antt =====
-- How many scalars the value of a text has: the members behind a nested object are in it too.
use ss_logger_cpp.Prelude.{
  ℕ, suc, ◌+◌, ◌*◌, ◌^◌, ◌≤◌, Bool, true, false, ◌||◌, none, ◌≡◌, refl, sym, ◌∙◌, arith, List, [],
  ◌∷◌, ◌++◌, Bytes, length, All, equal, equal_iff, Bool-cases, inl, inr, ap,
}
use native.Mathlib.Numerals.{unary_clauses}
use ss_logger_cpp.Json.Result.{Result, ok}
use ss_logger_cpp.Json.Stream.{is_space}
use ss_logger_cpp.Json.Value.{
  Json, json, Members, empty, member, object, string, number, bool, nil, new_kind, find, set_member,
  find-set_member, with_members, new_nil, new_string, new_number, new_bool,
}
use ss_logger_cpp.Json.Parser.{parse}
use ss_logger_cpp.Json.Scalars.{Scalar, numeral, text, truth, null, json_of}
use ss_logger_cpp.Json.Nesting.{
  Key, Entry, AreEntries, print_entries, first_key, chain_value, chain_members,
}
use ss_logger_cpp.Json.Nesting.Chain.{parse-chain}

-- The number of the values in it, at every depth, that are no objects.
unfoldable mutual
  pub scalars : {D : Type 0} → Json D → ℕ
  scalars (json object m s n b) = scalars_in m
  scalars (json string m s n b) = 1
  scalars (json number m s n b) = 1
  scalars (json bool m s n b) = 1
  scalars (json nil m s n b) = 1

  pub scalars_in : {D : Type 0} → Members D → ℕ
  scalars_in empty = 0
  scalars_in (member k v m) = scalars v + scalars_in m

abbrev pub opens : List Key → ℕ
opens [] = 0
opens (o ∷ os) = 1

suc-times : (a n : ℕ) → (a + 1) * n ≡ a * n + n
suc-times a n = omega arith

doubles :
    (os : List Key) (n c : ℕ) → 2 ^ n ≤ 1 + c → 2 ^ (n + opens os) ≤ 1 + (1 + (length os + 1) * c)
doubles [] n c h = simp unary_clauses (omega arith)
doubles (o ∷ os) n c h =
    simp unary_clauses (omega (arith, suc-times (suc (length os)) c, suc-times (length os) c))

module _ {D : Type 0} where
  -- Whether an entry begins with the key.
  unfoldable pub is_first : Bytes → List (Entry D) → Bool
  is_first name [] = false
  is_first name (e ∷ es) = equal (first_key e.outer e.key).name name || is_first name es

  -- No entry begins with one of the keys.
  abbrev pub AreUnused : List Key → List (Entry D) → Type 0
  AreUnused [] es = Unit
  AreUnused (k ∷ ks) es = (is_first k.name es ≡ false) × AreUnused ks es

  -- No entry begins with a key that an entry before it has.
  abbrev pub AreApart : List (Entry D) → Type 0
  AreApart [] = Unit
  AreApart (e ∷ es) = (is_first e.key.name es ≡ false) × AreUnused e.outer es × AreApart es

  -- An entry that opens `d` objects has one scalar, and the others behind it `d + 1` times.
  unfoldable pub copies : List (Entry D) → ℕ
  copies [] = 0
  copies (e ∷ es) = 1 + (length e.outer + 1) * copies es

  -- The number of the entries that open an object.
  unfoldable pub nested : List (Entry D) → ℕ
  nested [] = 0
  nested (e ∷ es) = nested es + opens e.outer

  json_of-scalars : (v : Scalar D) → scalars (json_of v) ≡ 1
  unfolding json_of scalars new_nil new_string new_number new_bool
  json_of-scalars (numeral c more d) = refl
  json_of-scalars (text s) = refl
  json_of-scalars (truth b) = refl
  json_of-scalars null = refl

  set_member-scalars :
      (key : Bytes) (v : Json D) (m : Members D)
      → find key m ≡ none
      → scalars_in (set_member key v m) ≡ scalars_in m + scalars v
  unfolding scalars set_member find
  set_member-scalars key v empty h = omega arith
  set_member-scalars key v (member k w m) h = elim (Bool-cases (equal k key)) [
    | inl e ↦ absurd (cc (rw e at h))
    | inr e ↦ rw e (omega (arith, set_member-scalars key v m (rw e at h)))
  ]

  -- No entry begins with a key of the object.
  abbrev IsFresh : Members D → List (Entry D) → Type 0
  IsFresh m es = (name : Bytes) → is_first name es ≡ true → find name m ≡ none

  IsFresh-set_member :
      (key : Bytes) (v : Json D) (m : Members D) (es : List (Entry D))
      → is_first key es ≡ false
      → IsFresh m es
      → IsFresh (set_member key v m) es
  IsFresh-set_member key v m es h fresh name e =
      find-set_member key name v m ∙ elim (Bool-cases (equal key name)) [
        | inl f ↦ absurd (cc (sym e ∙ ap (λ k. is_first k es) (sym ((equal_iff key name).0 f)) ∙ h))
        | inr f ↦ rw f (fresh name e)
      ]

  object-scalars : (m : Members D) → scalars (with_members m (new_kind object)) ≡ scalars_in m
  unfolding with_members new_kind scalars
  object-scalars m = refl

  first_key-apart :
      (os : List Key) (k : Key) (es : List (Entry D))
      → is_first k.name es ≡ false
      → AreUnused os es
      → is_first (first_key os k).name es ≡ false
  first_key-apart [] k es hk ho = hk
  first_key-apart (o ∷ os) k es hk ho = ho.0

  -- A key that opens `d` objects gets one scalar, and `d` times those behind it.
  chain_value-scalars :
      (os : List Key) (k : Key) (v : Scalar D) (rest : Members D → Members D) (es : List (Entry D))
      (n : ℕ)
      → is_first k.name es ≡ false
      → AreUnused os es
      → ((m : Members D) → IsFresh m es → scalars_in (rest m) ≡ scalars_in m + n)
      → scalars (chain_value os k v rest) ≡ 1 + length os * n
  unfolding chain_value find scalars
  chain_value-scalars [] k v rest es n hk ho h = omega (arith, json_of-scalars v)
  chain_value-scalars (o ∷ os) k v rest es n hk ho h =
      let inner = chain_value os k v rest in
      let name = (first_key os k).name in
      let apart = first_key-apart os k es hk ho.1 in
      object-scalars _
      ∙ omega (
        arith,
        h (set_member name inner empty)
            (IsFresh-set_member name inner empty es apart (λ _ _. refl)),
        set_member-scalars name inner empty refl,
        chain_value-scalars os k v rest es n hk ho.1 h,
        suc-times (length os) n,
      )

  chain_members-scalars :
      (es : List (Entry D)) (m : Members D)
      → AreApart es
      → IsFresh m es
      → scalars_in (chain_members m es) ≡ scalars_in m + copies es
  unfolding chain_members copies is_first
  chain_members-scalars [] m h fresh = omega arith
  chain_members-scalars (e ∷ es) m (hk, ho, ha) fresh =
      let name = (first_key e.outer e.key).name in
      let value = chain_value e.outer e.key e.value (λ x. chain_members x es) in
      let apart = first_key-apart e.outer e.key es hk ho in
      chain_members-scalars es (set_member name value m) ha
        (IsFresh-set_member name value m es apart (λ other h. fresh other (later other h)))
      ∙ omega (
        arith,
        set_member-scalars name value m (fresh name begins),
        chain_value-scalars e.outer e.key e.value (λ x. chain_members x es) es (copies es) hk ho
            (λ x hx. chain_members-scalars es x ha hx),
        suc-times (length e.outer) (copies es),
      )
    where
      later : (name : Bytes) → is_first name es ≡ true → is_first name (e ∷ es) ≡ true
      later name h = ground arith

      begins : is_first (first_key e.outer e.key).name (e ∷ es) ≡ true
      begins =
          ground (arith, equal_iff (first_key e.outer e.key).name (first_key e.outer e.key).name)

  nested_le : (es : List (Entry D)) → 2 ^ nested es ≤ 1 + copies es
  unfolding nested copies
  nested_le [] = omega arith
  nested_le (e ∷ es) = doubles e.outer (nested es) (copies es) (nested_le es)

  -- The text of an object of any depth, cut into entries at its commas, whose keys and strings hold
  -- neither quotes nor commas, whose numerals `std::stod` takes and in which no object is empty,
  -- where no entry begins with a key that an entry before it has: it is read as a value in which an
  -- entry that opens `d` objects has one scalar, and all scalars behind it `d + 1` times; so with
  -- `n` entries that open an object there are at least `2 ^ n - 1` scalars.
  pub parse-copies :
      (stod : Bytes → Result D) (w : Bytes) (e : Entry D) (es : List (Entry D))
      → All is_space w
      → AreEntries stod e es
      → AreApart (e ∷ es)
      → (v : Json D) × (parse stod (w ++ b'{' ∷ print_entries e es) ≡ ok v)
        × (scalars v ≡ copies (e ∷ es))
        × (2 ^ nested (e ∷ es) ≤ 1 + scalars v)
  parse-copies stod w e es hw hs ha =
      let count = object-scalars (chain_members empty (e ∷ es)) ∙ counted (e ∷ es) ha in
      (
        with_members (chain_members empty (e ∷ es)) (new_kind object),
        parse-chain stod w e es hw hs,
        count,
        omega (arith, count, nested_le (e ∷ es)),
      )
    where
      counted :
          (es : List (Entry D)) → AreApart es → scalars_in (chain_members empty es) ≡ copies es
      counted es ha =
          unfold scalars_in in
          omega (arith, chain_members-scalars es empty ha (λ _ _. unfold find in refl))
