-- ===== src/Tests/Documents.antt =====
-- Nested documents: the theorems on the parser at objects inside objects.
use ss_logger_cpp.Prelude.{ℕ, ◌+◌, ◌≤◌, ◌≡◌, ◌≢◌, refl, [], ◌∷◌, codes, equal}
use ss_logger_cpp.Json.Result.{ok}
use ss_logger_cpp.Json.Value.{Json, empty, new_kind, object, with_members}
use ss_logger_cpp.Json.Parser.{parse}
use ss_logger_cpp.Json.Scalars.{numeral}
use ss_logger_cpp.Json.Nesting.{Key, IsKey, Entry, IsEntry, chain_members}
use ss_logger_cpp.Json.Nesting.Chain.{parse-chain}
use ss_logger_cpp.Json.Nesting.Copies.{is_first, copies, nested, scalars, parse-copies}
use ss_logger_cpp.Tests.Decimal.{decimal}

abbrev key_a : Key
key_a = record { lead = []; name = codes "a"; gap = []; space = [] }

abbrev key_b : Key
key_b = record { lead = []; name = codes "b"; gap = []; space = [] }

key_a-IsKey : IsKey key_a
key_a-IsKey = record {
  lead_space = tt;
  name_plain = (refl, tt);
  name_comma = (refl, tt);
  gap_space = tt;
  space_space = tt;
}

key_b-IsKey : IsKey key_b
key_b-IsKey = record {
  lead_space = tt;
  name_plain = (refl, tt);
  name_comma = (refl, tt);
  gap_space = tt;
  space_space = tt;
}

-- `"a":{"b":1}` and `"b":2}`.
abbrev inner : Entry ℕ
inner = record { outer = key_a ∷ []; key = key_b; value = numeral b'1' [] 1; close = codes "}" }

abbrev last : Entry ℕ
last = record { outer = []; key = key_b; value = numeral b'2' [] 2; close = codes "}" }

inner-IsEntry : IsEntry decimal inner
inner-IsEntry = record {
  outer_keys = (key_a-IsKey, tt);
  key_plain = key_b-IsKey;
  value_plain = (refl, tt, unfold decimal in refl);
  close_plain = (refl, tt);
}

last-IsEntry : IsEntry decimal last
last-IsEntry = record {
  outer_keys = tt;
  key_plain = key_b-IsKey;
  value_plain = (refl, tt, unfold decimal in refl);
  close_plain = (refl, tt);
}

close-last : last.close ≢ []
close-last e = cc

parse-chain_example :
    parse decimal (codes "{\"a\":{\"b\":1},\"b\":2}")
    ≡ ok (with_members (chain_members empty (inner ∷ last ∷ [])) (new_kind object))
parse-chain_example =
    parse-chain decimal [] inner (last ∷ []) tt (inner-IsEntry, (last-IsEntry, close-last))

abbrev key_c : Key
key_c = record { lead = []; name = codes "c"; gap = []; space = [] }

-- `"c":{"b":3}}`.
abbrev section : Entry ℕ
section = record { outer = key_c ∷ []; key = key_b; value = numeral b'3' [] 3; close = codes "}}" }

section-IsEntry : IsEntry decimal section
section-IsEntry = record {
  outer_keys = (key_c-IsKey, tt);
  key_plain = key_b-IsKey;
  value_plain = (refl, tt, unfold decimal in refl);
  close_plain = (refl, (refl, tt));
}
  where
    key_c-IsKey : IsKey key_c
    key_c-IsKey = record {
      lead_space = tt;
      name_plain = (refl, tt);
      name_comma = (refl, tt);
      gap_space = tt;
      space_space = tt;
    }

-- Of the two scalars of the text, that of `c` is in `a` too.
parse-copies_example :
    (v : Json ℕ) × (parse decimal (codes "{\"a\":{\"b\":1},\"c\":{\"b\":3}}") ≡ ok v)
    × (scalars v ≡ 3)
    × (4 ≤ 1 + scalars v)
unfolding copies nested is_first equal
parse-copies_example =
    parse-copies decimal [] inner (section ∷ []) tt (inner-IsEntry, (section-IsEntry, (λ e. cc)))
      (refl, (refl, tt), (refl, (refl, tt), tt))
