-- ===== src/Tests/Settings.antt =====
-- The theorems on the configuration at concrete documents.
use ss_logger_cpp.Prelude.{
  ℕ, ℤ, ◌+◌, ◌<◌, arith, ◌∷◌, pos, ◌≡◌, refl, [], some, Option, codes, equal,
}
use ss_logger_cpp.Json.Result.{ok}
use ss_logger_cpp.Json.Value.{
  Json, member, empty, new_kind, object, new_number, with_members, find, get_object_value,
}
use ss_logger_cpp.Config.Defs.{default_config, parse_json, read_config}
use ss_logger_cpp.Config.Document.{
  Number, Values, Layout, IsLayout, IsNumber, AreValues, config_of, document,
}
use ss_logger_cpp.Config.Document.Read.{read_config-document}
use ss_logger_cpp.Tests.Decimal.{decimal}
use ss_logger_cpp.Config.Settings.{document_settings, parse_json-settings}

abbrev root : Json ℕ
root =
    with_members
      (member (codes "time")
        (with_members (member (codes "Period_time") (new_number 60) empty) (new_kind object)) empty)
      (new_kind object)

abbrev small_document : Json ℕ
small_document = with_members (member (codes "root") root empty) (new_kind object)

parse_json-settings_example :
    parse_json (λ n. some (pos n)) small_document (default_config, [])
    ≡ document_settings (λ n. some (pos n)) (some root) default_config []
unfolding find get_object_value with_members new_kind equal
parse_json-settings_example =
    parse_json-settings (λ n. some (pos n)) small_document default_config []

abbrev pub number : ℕ → Number ℕ
number n = record { first = b'0' + n; more = []; value = n; int = pos n }

abbrev pub values : Values ℕ
values = record {
  server_name = codes "s";
  display_name = codes "d";
  port = record { first = b'8'; more = codes "0"; value = 80; int = pos 80 };
  address = codes "a";
  blocking = number 1;
  socket_timeout = number 2;
  filename = codes "f";
  log_level = number 3;
  flush = number 0;
  period = number 4;
  threads = number 5;
}

-- A line break in front of each key, and a space behind each colon.
abbrev pub layout : Layout
layout = record { lead = λ _. codes "\n"; gap = λ _. []; space = λ _. codes " "; trail = λ _. [] }

abbrev pub to_int : ℕ → Option ℤ
to_int n = some (pos n)

pub layout-IsLayout : IsLayout layout
layout-IsLayout = record {
  lead_space = λ _. (refl, tt);
  gap_space = λ _. tt;
  space_space = λ _. (refl, tt);
  trail_space = λ _. tt;
}

number-IsNumber :
    (n : ℕ) → n < 10 → decimal ((b'0' + n) ∷ []) ≡ ok n → IsNumber decimal to_int (number n)
number-IsNumber n h e = record {
  first_byte = ground arith;
  more_bytes = tt;
  read_as = e;
  converted = refl;
}

pub values-AreValues : AreValues decimal to_int values
unfolding decimal
values-AreValues = record {
  server_name = ((refl, tt), (refl, tt));
  display_name = ((refl, tt), (refl, tt));
  port = record { first_byte = refl; more_bytes = (refl, tt); read_as = refl; converted = refl };
  address = ((refl, tt), (refl, tt));
  blocking = number-IsNumber 1 (omega arith) refl;
  socket_timeout = number-IsNumber 2 (omega arith) refl;
  filename = ((refl, tt), (refl, tt));
  log_level = number-IsNumber 3 (omega arith) refl;
  flush = number-IsNumber 0 (omega arith) refl;
  period = number-IsNumber 4 (omega arith) refl;
  threads = number-IsNumber 5 (omega arith) refl;
}

read_config-document_example :
    read_config to_int decimal (some (document layout values)) ≡ ok (config_of values, [])
read_config-document_example =
    read_config-document layout layout-IsLayout decimal to_int values values-AreValues
