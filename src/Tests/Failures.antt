-- ===== src/Tests/Failures.antt =====
-- A quoted number in a configuration.
use ss_logger_cpp.Prelude.{
  equal, ℕ, ℤ, pos, [], ◌∷◌, Bool-cases, inl, inr, ◌≡◌, ◌≢◌, refl, arith, ap, Bytes, codes, Option,
  some,
}
use ss_logger_cpp.Json.Result.{ok, undefined}
use ss_logger_cpp.Json.Stream.{
  is_digit, peek, get, unread, read_while, skip_whitespace, skip_to_comma,
}
use ss_logger_cpp.Json.Value.{
  Json, Kind, number, member, empty, new_kind, object, new_string, with_members, set_member, find,
  get_object_value, get_string_value, get_type,
}
use ss_logger_cpp.Json.Parser.{
  string_loop, next_item, parse_string, read_item, object_loop, parse_object, parse_step,
  parse_with, parse,
}
use ss_logger_cpp.Json.Types.{IsDefined}
use ss_logger_cpp.Config.Defs.{read_config}
use ss_logger_cpp.Config.Failures.{read_config-quoted}
use ss_logger_cpp.Tests.Decimal.{decimal}

decimal-IsDefined : (c : Bytes) → IsDefined (decimal c)
unfolding decimal
decimal-IsDefined [] = tt
decimal-IsDefined (c ∷ r) = elim (Bool-cases (is_digit c)) [ inl e ↦ rw e tt | inr e ↦ rw e tt ]

abbrev to_int : ℕ → Option ℤ
to_int n = some (pos n)

abbrev quoted : Bytes
quoted = codes "{\"root\":{\"Server\":{\"listenerport\":\"25000\"}}}"

abbrev port : Json ℕ
port = new_string (codes "25000")

abbrev section : Json ℕ
section = with_members (member (codes "listenerport") port empty) (new_kind object)

abbrev root : Json ℕ
root = with_members (member (codes "Server") section empty) (new_kind object)

abbrev quoted_document : Json ℕ
quoted_document = with_members (member (codes "root") root empty) (new_kind object)

parse-quoted : parse decimal quoted ≡ ok quoted_document
unfolding parse parse_with parse_step parse_object object_loop read_item parse_string next_item
    string_loop peek get unread read_while skip_whitespace skip_to_comma set_member with_members
    new_kind new_string get_object_value get_string_value
parse-quoted = refl

abbrev kind_number : Kind → ℕ
kind_number number = 1
kind_number _ = 0

port-kind : get_type port ≢ number
unfolding get_type new_string
port-kind e = absurd (omega (arith, ap kind_number e))

read_config-quoted_example : read_config to_int decimal (some quoted) ≡ undefined
unfolding get_object_value with_members new_kind find equal
read_config-quoted_example =
    read_config-quoted to_int decimal decimal-IsDefined quoted quoted_document root section port
      parse-quoted refl refl refl port-kind
