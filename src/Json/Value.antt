-- ===== src/Json/Value.antt =====
-- The class `JSON`: a tag and four members of which a constructor sets some. `none` in a numeric
-- or a Boolean member is an indeterminate value. `D` is the type `double`.
use ss_logger_cpp.Prelude.{
  Bool, Option, none, some, Bytes, [], equal, if◌then◌else◌, ◌≡◌, refl, arith, equal_iff,
}
use ss_logger_cpp.Json.Result.{Result, ok, throws, undefined, out_of_range}

-- `JSON::Type`.
pub data Kind : Type 0 where
  object string number bool nil : Kind

mutual
  pub data Json (D : Type 0) : Type 0 where
    json : Kind → Members D → Bytes → Option D → Option Bool → Json D

  -- `std::unordered_map<std::string, JSON>`, as an association list with distinct keys.
  pub data Members (D : Type 0) : Type 0 where
    empty : Members D
    member : Bytes → Json D → Members D → Members D

-- To read an indeterminate member is undefined behaviour.
abbrev pub initialised {ℓ} : {A : Type ℓ} → Option A → Result A
initialised none = undefined
initialised (some a) = ok a

-- The five constructors of the class.
module _ {D : Type 0} where
  unfoldable pub new_nil : Json D
  new_nil = json nil empty [] none none

  unfoldable pub new_kind : Kind → Json D
  new_kind t = json t empty [] none none

  unfoldable pub new_string : Bytes → Json D
  new_string value = json string empty value none none

  unfoldable pub new_number : D → Json D
  new_number value = json number empty [] (some value) none

  unfoldable pub new_bool : Bool → Json D
  new_bool value = json bool empty [] none (some value)

  -- The five accessors.
  unfoldable pub get_type : Json D → Kind
  get_type (json t m s n b) = t

  unfoldable pub get_object_value : Json D → Members D
  get_object_value (json t m s n b) = m

  unfoldable pub get_string_value : Json D → Bytes
  get_string_value (json t m s n b) = s

  unfoldable pub get_number_value : Json D → Result D
  get_number_value (json t m s n b) = initialised n

  unfoldable pub get_bool_value : Json D → Result Bool
  get_bool_value (json t m s n b) = initialised b

  -- `m_object_value[key] = value`.
  unfoldable pub set_member : Bytes → Json D → Members D → Members D
  set_member key value empty = member key value empty
  set_member key value (member k v m) =
      if equal k key then member k value m else member k v (set_member key value m)

  -- `find`, behind `count` and `at`.
  unfoldable pub find : Bytes → Members D → Option (Json D)
  find key empty = none
  find key (member k v m) = if equal k key then some v else find key m

  -- `obj.m_object_value`, assigned to an object.
  unfoldable pub with_members : Members D → Json D → Json D
  with_members m (json t _ s n b) = json t m s n b

  -- `at(key)`, which throws where there is no such key.
  unfoldable pub at : Bytes → Members D → Result (Json D)
  unfolding find
  at key m = elim (find key m) [ none ↦ throws out_of_range | some v ↦ ok v ]

  pub find-set_member :
      (key k : Bytes) (value : Json D) (m : Members D)
      → find k (set_member key value m) ≡ (if equal key k then some value else find k m)
  unfolding find set_member
  find-set_member key k value empty = refl
  find-set_member key k value (member j v m) =
      ground (arith, equal_iff j key, equal_iff j k, equal_iff key k, find-set_member key k value m)
