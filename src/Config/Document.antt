-- ===== src/Config/Document.antt =====
-- A file with all settings, in the order of the class, each section an object inside `root`.
pub mod Read
use ss_logger_cpp.Prelude.{
  ℕ, ℤ, ◌≡◌, ◌≢◌, refl, arith, Bytes, codes, List, [], ◌∷◌, ◌++◌, Option, some, ◌∙◌, ◌==◌, ◌||◌,
  All, All-append, equal, Bool, true, if◌then◌else◌,
}
use ss_logger_cpp.Json.Result.{Result, ok, ◌>>=◌}
use ss_logger_cpp.Json.Stream.{is_space, is_digit}
use ss_logger_cpp.Json.Value.{
  Json, Members, empty, find, new_kind, new_string, new_number, object, with_members, set_member,
  get_object_value, get_string_value, get_number_value, initialised,
}
use ss_logger_cpp.Json.Scan.{not_quote, not_comma}
use ss_logger_cpp.Json.Scalars.{Scalar, numeral, text, IsScalar, number_byte, json_of}
use ss_logger_cpp.Json.Nesting.{
  Key, IsKey, Entry, IsEntry, AreEntries, AreKeys, is_close, print_entries, chain_members,
  chain_value,
}
use ss_logger_cpp.Json.Nesting.Chain.{parse-chain}
use ss_logger_cpp.Config.Defs.{Config, default_config, read_config, int_of}
use ss_logger_cpp.Config.Settings.{
  settings, warnings, parse_json-root, server_of, communication_of, logging_of, time_of,
  thread_pool_of,
}

-- A number in the file: its text, the `double` and the `int` that it stands for.
pub record Number (D : Type 0) : Type 0 where
  pub first : ℕ
  pub more : Bytes
  pub value : D
  pub int : ℤ

pub record Values (D : Type 0) : Type 0 where
  pub server_name : Bytes
  pub display_name : Bytes
  pub port : Number D
  pub address : Bytes
  pub blocking : Number D
  pub socket_timeout : Number D
  pub filename : Bytes
  pub log_level : Number D
  pub flush : Number D
  pub period : Number D
  pub threads : Number D

-- Whitespace in front of each key, on both sides of each colon, and in front of each closing brace.
pub record Layout : Type 0 where
  pub lead : ℕ → Bytes
  pub gap : ℕ → Bytes
  pub space : ℕ → Bytes
  pub trail : ℕ → Bytes

pub record IsLayout (l : Layout) : Type 0 where
  pub lead_space : (i : ℕ) → All is_space (l.lead i)
  pub gap_space : (i : ℕ) → All is_space (l.gap i)
  pub space_space : (i : ℕ) → All is_space (l.space i)
  pub trail_space : (i : ℕ) → All is_space (l.trail i)

-- No quote and no comma.
abbrev pub IsPlain : Bytes → Type 0
IsPlain s = All not_quote s × All not_comma s

module _ {D : Type 0} where
  pub record IsNumber (stod : Bytes → Result D) (to_int : D → Option ℤ) (n : Number D)
      : Type 0 where
    pub first_byte : is_digit n.first || n.first == b'-' ≡ true
    pub more_bytes : All number_byte n.more
    pub read_as : stod (n.first ∷ n.more) ≡ ok n.value
    pub converted : to_int n.value ≡ some n.int

  pub record AreValues (stod : Bytes → Result D) (to_int : D → Option ℤ) (v : Values D)
      : Type 0 where
    pub server_name : IsPlain v.server_name
    pub display_name : IsPlain v.display_name
    pub port : IsNumber stod to_int v.port
    pub address : IsPlain v.address
    pub blocking : IsNumber stod to_int v.blocking
    pub socket_timeout : IsNumber stod to_int v.socket_timeout
    pub filename : IsPlain v.filename
    pub log_level : IsNumber stod to_int v.log_level
    pub flush : IsNumber stod to_int v.flush
    pub period : IsNumber stod to_int v.period
    pub threads : IsNumber stod to_int v.threads

  abbrev pub config_of : Values D → Config
  config_of v = record {
    server = record {
      server_name = v.server_name;
      server_display_name = v.display_name;
      listener_port = v.port.int;
      ip_address = v.address;
    };
    communication_settings = record {
      blocking = v.blocking.int;
      socket_timeout = v.socket_timeout.int;
    };
    logging = record { filename = v.filename; log_level = v.log_level.int; flush = v.flush.int };
    time = record { period_time = v.period.int };
    thread_pool = record { max_working_threads = v.threads.int };
  }

  abbrev number_scalar : Number D → Scalar D
  number_scalar n = numeral n.first n.more n.value

module _ (l : Layout) where
  abbrev key_at : ℕ → Bytes → Key
  key_at i name = record { lead = l.lead i; name = name; gap = l.gap i; space = l.space i }

  abbrev braces : ℕ → Bytes → Bytes
  braces i more = l.trail i ++ b'}' ∷ more

  module _ {D : Type 0} (v : Values D) where
    abbrev pub first_entry : Entry D
    first_entry = record {
      outer = key_at 0 (codes "root") ∷ key_at 1 (codes "Server") ∷ [];
      key = key_at 2 (codes "servername");
      value = text v.server_name;
      close = l.trail 0;
    }

    abbrev plain : ℕ → Bytes → Scalar D → Bytes → Entry D
    plain i name s close = record { outer = []; key = key_at i name; value = s; close = close }

    abbrev opens : ℕ → Bytes → ℕ → Bytes → Scalar D → Bytes → Entry D
    opens i section j name s close = record {
      outer = key_at i section ∷ [];
      key = key_at j name;
      value = s;
      close = close;
    }

    -- The section on communication begins with one, and the others follow it.
    abbrev pub blocking_entry : Entry D
    blocking_entry =
        opens 6 (codes "communicationsettings") 7 (codes "blocking") (number_scalar v.blocking)
          (l.trail 4)

    abbrev pub later_entries : List (Entry D)
    later_entries =
        plain 8 (codes "socket_timeout") (number_scalar v.socket_timeout) (braces 5 [])
        ∷ opens 9 (codes "logging") 10 (codes "filename") (text v.filename) (l.trail 6)
        ∷ plain 11 (codes "LogLevel") (number_scalar v.log_level) (l.trail 7)
        ∷ plain 12 (codes "flush") (number_scalar v.flush) (braces 8 [])
        ∷ opens 13 (codes "time") 14 (codes "Period_time") (number_scalar v.period) (braces 9 [])
        ∷ opens 15 (codes "threadpool") 16 (codes "maxworkingthreads") (number_scalar v.threads)
            (braces 10 (codes "}}"))
        ∷ []

    abbrev pub more_entries : List (Entry D)
    more_entries =
        plain 3 (codes "serverdisplayname") (text v.display_name) (l.trail 1)
        ∷ plain 4 (codes "listenerport") (number_scalar v.port) (l.trail 2)
        ∷ plain 5 (codes "ipaddress") (text v.address) (braces 3 [])
        ∷ blocking_entry
        ∷ later_entries

    -- The text of the file.
    abbrev pub document : Bytes
    document = l.lead 17 ++ b'{' ∷ print_entries first_entry more_entries
