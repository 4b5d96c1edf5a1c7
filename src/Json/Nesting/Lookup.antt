-- ===== src/Json/Nesting/Lookup.antt =====
-- What a look-up by two keys finds in the value of a text.
use ss_logger_cpp.Prelude.{
  false, ◌≡◌, refl, ◌∙◌, arith, List, [], ◌∷◌, ◌++◌, Bytes, All, some, equal_iff,
}
use ss_logger_cpp.Json.Result.{Result, ok}
use ss_logger_cpp.Json.Stream.{is_space}
use ss_logger_cpp.Json.Value.{
  Json, Members, empty, object, new_kind, find, set_member, find-set_member, with_members,
  get_object_value,
}
use ss_logger_cpp.Json.Parser.{parse}
use ss_logger_cpp.Json.Scalars.{json_of}
use ss_logger_cpp.Json.Nesting.{
  Key, Entry, AreEntries, print_entries, first_key, chain_value, chain_members,
}
use ss_logger_cpp.Json.Nesting.Copies.{is_first}
use ss_logger_cpp.Json.Nesting.Chain.{parse-chain}

module _ {D : Type 0} where
  -- The value of the first key of an entry with others behind it.
  value_before : Entry D → List (Entry D) → Json D
  value_before e es = chain_value e.outer e.key e.value (λ m. chain_members m es)

  find-unlisted :
      (name : Bytes) (es : List (Entry D)) (m : Members D)
      → is_first name es ≡ false
      → find name (chain_members m es) ≡ find name m
  unfolding chain_members is_first value_before find
  find-unlisted name [] m h = refl
  find-unlisted name (e ∷ es) m h =
      let first = (first_key e.outer e.key).name in
      find-unlisted name es _ (ground arith)
      ∙ find-set_member first name (value_before e es) m
      ∙ ground arith

  find-last :
      (name : Bytes) (es : List (Entry D)) (f : Entry D) (more : List (Entry D)) (m : Members D)
      → (first_key f.outer f.key).name ≡ name
      → is_first name more ≡ false
      → find name (chain_members m (es ++ f ∷ more)) ≡ some (value_before f more)
  unfolding chain_members value_before
  find-last name [] f more m e h =
      find-unlisted name more _ h
      ∙ find-set_member (first_key f.outer f.key).name name (value_before f more) m
      ∙ rw ((equal_iff (first_key f.outer f.key).name name).1 e) refl
  find-last name (x ∷ es) f more m e h = find-last name es f more _ e h

  object-members : (m : Members D) → get_object_value (with_members m (new_kind object)) ≡ m
  unfolding get_object_value with_members new_kind
  object-members m = refl

  -- In the value of the text of an object of any depth, cut into entries at its commas, whose keys
  -- and strings hold neither quotes nor commas, whose numerals `std::stod` takes and in which no
  -- object is empty: take an entry whose first key opens an object, where no later entry begins
  -- with this key, and a later entry that is a key and a scalar, where no entry behind that begins
  -- with its key. Then the first key is found in the value, and in what it has the second key is
  -- found with the scalar, whether or not the object is closed before that entry: of two members
  -- with one name the last of the whole text is read.
  pub parse-lookup :
      (stod : Bytes → Result D) (w : Bytes) (e : Entry D) (es : List (Entry D))
      → All is_space w
      → AreEntries stod e es
      → (before between more : List (Entry D)) (section f : Entry D) (o : Key) (os : List Key)
      → e ∷ es ≡ before ++ section ∷ (between ++ f ∷ more)
      → section.outer ≡ o ∷ os
      → f.outer ≡ []
      → is_first o.name (between ++ f ∷ more) ≡ false
      → is_first f.key.name more ≡ false
      → (v u : Json D) × (parse stod (w ++ b'{' ∷ print_entries e es) ≡ ok v)
        × (find o.name (get_object_value v) ≡ some u)
        × (find f.key.name (get_object_value u) ≡ some (json_of f.value))
  unfolding chain_value value_before
  parse-lookup stod w e es hw hs before between more section f o os split he hf ho hm =
      let rest = between ++ f ∷ more in
      let inner =
        set_member (first_key os section.key).name
          (chain_value os section.key section.value (λ m. chain_members m rest)) empty in
      let named : (first_key section.outer section.key).name ≡ o.name = rw he refl in
      (
        with_members (chain_members empty (e ∷ es)) (new_kind object),
        with_members (chain_members inner rest) (new_kind object),
        parse-chain stod w e es hw hs,
        rw
            (
              object-members (chain_members empty (e ∷ es)),
              split,
              find-last o.name before section rest empty named ho,
              he,
            )
            refl,
        rw
            (
              object-members (chain_members inner rest),
              find-last f.key.name between f more inner (rw hf refl) hm,
              hf,
            )
            refl,
      )
