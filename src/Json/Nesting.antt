-- ===== src/Json/Nesting.antt =====
-- Objects inside objects, at any depth. A nested value is parsed up to the end of the whole text
-- and is not consumed, so the members of an object are not bounded by its braces.
mod Entries
pub mod Chain
pub mod Copies
pub mod Lookup
use ss_logger_cpp.Prelude.{Bool, List, [], ◌∷◌, ◌++◌, Bytes, All, ◌==◌, ◌||◌, ℕ, ◌≡◌, ◌≢◌}
use ss_logger_cpp.Json.Result.{Result}
use ss_logger_cpp.Json.Stream.{is_space}
use ss_logger_cpp.Json.Value.{Json, Members, empty, new_kind, object, set_member, with_members}
use ss_logger_cpp.Json.Scan.{not_comma, not_quote}
use ss_logger_cpp.Json.Scalars.{Scalar, show, json_of, IsScalar}

-- `lead "name" gap : space`.
pub record Key : Type 0 where
  pub lead : Bytes
  pub name : Bytes
  pub gap : Bytes
  pub space : Bytes

pub record IsKey (k : Key) : Type 0 where
  pub lead_space : All is_space k.lead
  pub name_plain : All not_quote k.name
  pub name_comma : All not_comma k.name
  pub gap_space : All is_space k.gap
  pub space_space : All is_space k.space

abbrev pub AreKeys : List Key → Type 0
AreKeys [] = Unit
AreKeys (k ∷ ks) = IsKey k × AreKeys ks

-- The text between two commas: the keys of the objects that it opens, a key and a value that is no
-- object, and what closes objects.
pub record Entry (D : Type 0) : Type 0 where
  pub outer : List Key
  pub key : Key
  pub value : Scalar D
  pub close : Bytes

-- Whitespace and closing braces.
abbrev pub is_close : ℕ → Bool
is_close c = is_space c || c == b'}'

abbrev pub print_key : Key → Bytes → Bytes
print_key k rest = k.lead ++ b'"' ∷ (k.name ++ b'"' ∷ (k.gap ++ b':' ∷ (k.space ++ rest)))

-- The key that an entry begins with.
abbrev pub first_key : List Key → Key → Key
first_key [] k = k
first_key (o ∷ os) k = o

module _ {D : Type 0} where
  pub record IsEntry (stod : Bytes → Result D) (e : Entry D) : Type 0 where
    pub outer_keys : AreKeys e.outer
    pub key_plain : IsKey e.key
    pub value_plain : IsScalar stod e.value
    pub close_plain : All is_close e.close

  -- The last entry closes at least one object.
  abbrev pub AreEntries : (Bytes → Result D) → Entry D → List (Entry D) → Type 0
  AreEntries stod e [] = IsEntry stod e × (e.close ≢ [])
  AreEntries stod e (f ∷ es) = IsEntry stod e × AreEntries stod f es

  abbrev pub print_entry : List Key → Key → Scalar D → Bytes → Bytes → Bytes
  print_entry [] k v close rest = print_key k (show v ++ (close ++ rest))
  print_entry (o ∷ os) k v close rest = print_key o (b'{' ∷ print_entry os k v close rest)

  abbrev pub print_entries : Entry D → List (Entry D) → Bytes
  print_entries e [] = print_entry e.outer e.key e.value e.close []
  print_entries e (f ∷ es) = print_entry e.outer e.key e.value e.close (b',' ∷ print_entries f es)

  -- The value of the first key of an entry; `rest` adds the members of the entries behind it. A key
  -- that opens an object gets all of them, wherever that object is closed.
  unfoldable pub chain_value : List Key → Key → Scalar D → (Members D → Members D) → Json D
  chain_value [] k v rest = json_of v
  chain_value (o ∷ os) k v rest =
      with_members (rest (set_member (first_key os k).name (chain_value os k v rest) empty))
        (new_kind object)

  -- The members that a chain of entries adds to an object: one for the first key of each.
  unfoldable pub chain_members : Members D → List (Entry D) → Members D
  unfolding chain_value
  chain_members obj [] = obj
  chain_members obj (e ∷ es) =
      chain_members
        (set_member (first_key e.outer e.key).name
          (chain_value e.outer e.key e.value (λ m. chain_members m es)) obj)
        es
