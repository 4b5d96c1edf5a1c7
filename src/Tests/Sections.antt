-- ===== src/Tests/Sections.antt =====
-- A document of two sections with members of the same names.
use ss_logger_cpp.Prelude.{ℕ, ◌≡◌, refl, List, [], ◌∷◌, Bytes, All, codes, some, equal}
use ss_logger_cpp.Json.Result.{ok}
use ss_logger_cpp.Json.Value.{Json, find, get_object_value, new_number}
use ss_logger_cpp.Json.Parser.{parse}
use ss_logger_cpp.Json.Scan.{not_comma, not_quote}
use ss_logger_cpp.Json.Scalars.{IsScalar, numeral, json_of}
use ss_logger_cpp.Json.Nesting.{Key, IsKey, Entry, IsEntry, AreKeys, is_close}
use ss_logger_cpp.Json.Nesting.Copies.{is_first}
use ss_logger_cpp.Json.Nesting.Lookup.{parse-lookup}
use ss_logger_cpp.Tests.Decimal.{decimal}

abbrev named : Bytes → Key
named name = record { lead = []; name = name; gap = []; space = [] }

named-IsKey : (name : Bytes) → All not_quote name → All not_comma name → IsKey (named name)
named-IsKey name hq hc = record {
  lead_space = tt;
  name_plain = hq;
  name_comma = hc;
  gap_space = tt;
  space_space = tt;
}

-- A key with a number of one digit, behind the keys of the objects that it opens.
abbrev entry : List Key → Bytes → ℕ → ℕ → Bytes → Entry ℕ
entry outer name c d close = record {
  outer = outer;
  key = named name;
  value = numeral c [] d;
  close = close;
}

entry-IsEntry :
    (outer : List Key) (name : Bytes) (c d : ℕ) (close : Bytes)
    → AreKeys outer
    → All not_quote name
    → All not_comma name
    → IsScalar decimal (numeral c [] d)
    → All is_close close
    → IsEntry decimal (entry outer name c d close)
entry-IsEntry outer name c d close ho hq hc hv hs = record {
  outer_keys = ho;
  key_plain = named-IsKey name hq hc;
  value_plain = hv;
  close_plain = hs;
}

-- `"a":{"b":1`, `"c":2}`, `"d":{"b":3` and `"c":4}}`.
abbrev opens_a : Entry ℕ
opens_a = entry (named (codes "a") ∷ []) (codes "b") b'1' 1 []

abbrev closes_a : Entry ℕ
closes_a = entry [] (codes "c") b'2' 2 (codes "}")

abbrev opens_d : Entry ℕ
opens_d = entry (named (codes "d") ∷ []) (codes "b") b'3' 3 []

abbrev closes_d : Entry ℕ
closes_d = entry [] (codes "c") b'4' 4 (codes "}}")

-- The member `c` of `a` is 2 in the text, and 4 in the value.
parse-lookup_example :
    (v u : Json ℕ) × (parse decimal (codes "{\"a\":{\"b\":1,\"c\":2},\"d\":{\"b\":3,\"c\":4}}")
      ≡ ok v)
    × (find (codes "a") (get_object_value v) ≡ some u)
    × (find (codes "c") (get_object_value u) ≡ some (new_number 4))
unfolding is_first equal json_of decimal
parse-lookup_example =
    parse-lookup decimal [] opens_a (closes_a ∷ opens_d ∷ closes_d ∷ []) tt
      (
        entry-IsEntry _ (codes "b") b'1' 1 [] (named-IsKey (codes "a") (refl, tt) (refl, tt), tt)
            (refl, tt) (refl, tt) (refl, tt, refl) tt,
        (
          entry-IsEntry [] (codes "c") b'2' 2 (codes "}") tt (refl, tt) (refl, tt) (refl, tt, refl)
              (refl, tt),
          (
            entry-IsEntry _ (codes "b") b'3' 3 []
                (named-IsKey (codes "d") (refl, tt) (refl, tt), tt) (refl, tt) (refl, tt)
                (refl, tt, refl) tt,
            (
              entry-IsEntry [] (codes "c") b'4' 4 (codes "}}") tt (refl, tt) (refl, tt)
                  (refl, tt, refl) (refl, (refl, tt)),
              (λ e. cc),
            ),
          ),
        ),
      )
      [] (closes_a ∷ opens_d ∷ []) [] opens_a closes_d (named (codes "a")) [] refl refl refl refl
      refl
