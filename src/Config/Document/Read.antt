-- ===== src/Config/Document/Read.antt =====
-- The constructor of `Config` on such a file.
use ss_logger_cpp.Prelude.{
  ℕ, ℤ, ◌≡◌, ◌≢◌, refl, arith, Bytes, codes, List, [], ◌∷◌, ◌++◌, Option, some, ◌∙◌, ◌&&◌, All,
  All-append, equal, Bool, true,
}
use ss_logger_cpp.Json.Result.{Result, ok}
use ss_logger_cpp.Json.Stream.{is_space}
use ss_logger_cpp.Json.Value.{
  Json, empty, find, new_kind, new_string, new_number, with_members, set_member, get_object_value,
  get_string_value, get_number_value,
}
use ss_logger_cpp.Json.Scan.{not_quote, not_comma}
use ss_logger_cpp.Json.Scalars.{Scalar, text, IsScalar, json_of}
use ss_logger_cpp.Json.Nesting.{
  Key, IsKey, IsEntry, AreEntries, AreKeys, is_close, chain_members, chain_value,
}
use ss_logger_cpp.Json.Nesting.Chain.{parse-chain}
use ss_logger_cpp.Config.Defs.{default_config, read_config, int_of}
use ss_logger_cpp.Config.Settings.{
  settings, warnings, parse_json-root, server_of, communication_of, logging_of, time_of,
  thread_pool_of,
}
use ss_logger_cpp.Config.Document.{
  Number, Values, Layout, IsLayout, IsNumber, AreValues, config_of, number_scalar, key_at, braces,
  first_entry, more_entries, blocking_entry, later_entries, document,
}

-- To compute that all bytes pass.
all : (ℕ → Bool) → Bytes → Bool
all p [] = true
all p (c ∷ s) = p c && all p s

all-All : (p : ℕ → Bool) (s : Bytes) → all p s ≡ true → All p s
unfolding all
all-All p [] h = tt
all-All p (c ∷ s) h = ground (arith, all-All p s)

space-is_close : (s : Bytes) → All is_space s → All is_close s
space-is_close [] h = tt
space-is_close (c ∷ s) h = (ground arith, space-is_close s h.1)

module _ (l : Layout) (hl : IsLayout l) where
  key_at-IsKey :
      (i : ℕ) (name : Bytes)
      → all not_quote name ≡ true
      → all not_comma name ≡ true
      → IsKey (key_at l i name)
  key_at-IsKey i name h k = record {
    lead_space = hl.lead_space i;
    name_plain = all-All not_quote name h;
    name_comma = all-All not_comma name k;
    gap_space = hl.gap_space i;
    space_space = hl.space_space i;
  }

  braces-close : (i : ℕ) (more : Bytes) → All is_close more → All is_close (braces l i more)
  braces-close i more h =
      All-append is_close (l.trail i) (b'}' ∷ more) (space-is_close (l.trail i) (hl.trail_space i))
        (refl, h)

  braces_lem : (i : ℕ) (more : Bytes) → braces l i more ≢ []
  braces_lem i more = go (l.trail i)
    where
      go : (w : Bytes) → w ++ b'}' ∷ more ≢ []
      go [] e = cc
      go (c ∷ w) e = cc

  module _ {D : Type 0} (stod : Bytes → Result D) (to_int : D → Option ℤ) (v : Values D)
      (hv : AreValues stod to_int v) where
    root : Json D
    root =
        chain_value (key_at l 0 (codes "root") ∷ key_at l 1 (codes "Server") ∷ [])
          (key_at l 2 (codes "servername")) (text v.server_name)
          (λ m. chain_members m (more_entries l v))

    find-root :
        find (codes "root") (chain_members empty (first_entry l v ∷ more_entries l v)) ≡ some root
    unfolding root chain_members chain_value find set_member equal get_object_value with_members
        new_kind
    find-root = refl

    settings-root : settings to_int (get_object_value root) default_config ≡ ok (config_of v)
    unfolding root chain_members chain_value find set_member equal get_object_value with_members
        new_kind settings server_of communication_of logging_of time_of thread_pool_of int_of
        get_number_value get_string_value json_of new_string new_number
    settings-root = rw (
      hv.port.converted, hv.blocking.converted, hv.socket_timeout.converted, hv.log_level.converted,
      hv.flush.converted, hv.period.converted, hv.threads.converted,
    )

    warnings-root : warnings (get_object_value root) [] ≡ []
    unfolding root chain_members chain_value find set_member equal get_object_value with_members
        new_kind warnings json_of new_string new_number
    warnings-root = refl

    printed-IsEntry :
        (outer : List Key) (i : ℕ) (name : Bytes) (s : Scalar D) (close : Bytes)
        → AreKeys outer
        → all not_quote name ≡ true
        → all not_comma name ≡ true
        → IsScalar stod s
        → All is_close close
        → IsEntry stod (record { outer = outer; key = key_at l i name; value = s; close = close })
    printed-IsEntry outer i name s close ho h k hs hc = record {
      outer_keys = ho;
      key_plain = key_at-IsKey i name h k;
      value_plain = hs;
      close_plain = hc;
    }

    number-IsScalar : (n : Number D) → IsNumber stod to_int n → IsScalar stod (number_scalar n)
    number-IsScalar n h = (h.first_byte, h.more_bytes, h.read_as)

    trail-close : (i : ℕ) → All is_close (l.trail i)
    trail-close i = space-is_close (l.trail i) (hl.trail_space i)

    blocking-IsEntry : IsEntry stod (blocking_entry l v)
    unfolding all
    blocking-IsEntry =
        printed-IsEntry (key_at l 6 (codes "communicationsettings") ∷ []) 7 (codes "blocking")
          (number_scalar v.blocking) (l.trail 4)
          (key_at-IsKey 6 (codes "communicationsettings") refl refl, tt) refl refl
          (number-IsScalar v.blocking hv.blocking) (trail-close 4)

    later_entries-AreEntries : AreEntries stod (blocking_entry l v) (later_entries l v)
    unfolding all
    later_entries-AreEntries =
        let timeout =
          printed-IsEntry [] 8 (codes "socket_timeout") (number_scalar v.socket_timeout)
            (braces l 5 []) tt refl refl (number-IsScalar v.socket_timeout hv.socket_timeout)
            (braces-close 5 [] tt) in
        let filename =
          printed-IsEntry (key_at l 9 (codes "logging") ∷ []) 10 (codes "filename")
            (text v.filename) (l.trail 6) (key_at-IsKey 9 (codes "logging") refl refl, tt) refl refl
            hv.filename (trail-close 6) in
        let level =
          printed-IsEntry [] 11 (codes "LogLevel") (number_scalar v.log_level) (l.trail 7) tt refl
            refl (number-IsScalar v.log_level hv.log_level) (trail-close 7) in
        let flush =
          printed-IsEntry [] 12 (codes "flush") (number_scalar v.flush) (braces l 8 []) tt refl refl
            (number-IsScalar v.flush hv.flush) (braces-close 8 [] tt) in
        let period =
          printed-IsEntry (key_at l 13 (codes "time") ∷ []) 14 (codes "Period_time")
            (number_scalar v.period) (braces l 9 []) (key_at-IsKey 13 (codes "time") refl refl, tt)
            refl refl (number-IsScalar v.period hv.period) (braces-close 9 [] tt) in
        let threads =
          printed-IsEntry (key_at l 15 (codes "threadpool") ∷ []) 16 (codes "maxworkingthreads")
            (number_scalar v.threads) (braces l 10 (codes "}}"))
            (key_at-IsKey 15 (codes "threadpool") refl refl, tt) refl refl
            (number-IsScalar v.threads hv.threads)
            (braces-close 10 (codes "}}") (refl, (refl, tt))) in
        (
          blocking-IsEntry,
          (timeout, (filename, (level, (flush, (period, (threads, braces_lem 10 (codes "}}"))))))),
        )

    entries-AreEntries : AreEntries stod (first_entry l v) (more_entries l v)
    unfolding all
    entries-AreEntries =
        let name =
          printed-IsEntry (key_at l 0 (codes "root") ∷ key_at l 1 (codes "Server") ∷ []) 2
            (codes "servername") (text v.server_name) (l.trail 0)
            (
              key_at-IsKey 0 (codes "root") refl refl,
              (key_at-IsKey 1 (codes "Server") refl refl, tt),
            )
            refl refl hv.server_name (trail-close 0) in
        let display =
          printed-IsEntry [] 3 (codes "serverdisplayname") (text v.display_name) (l.trail 1) tt refl
            refl hv.display_name (trail-close 1) in
        let port =
          printed-IsEntry [] 4 (codes "listenerport") (number_scalar v.port) (l.trail 2) tt refl
            refl (number-IsScalar v.port hv.port) (trail-close 2) in
        let address =
          printed-IsEntry [] 5 (codes "ipaddress") (text v.address) (braces l 3 []) tt refl refl
            hv.address (braces-close 3 [] tt) in
        (name, (display, (port, (address, later_entries-AreEntries))))

    -- A file with all settings, in the order of the class and with any whitespace between the
    -- parts, whose strings hold neither quotes nor commas and whose numbers `std::stod` takes and
    -- fit an `int`, is read as just these settings, with no warning.
    pub read_config-document : read_config to_int stod (some (document l v)) ≡ ok (config_of v, [])
    unfolding read_config get_object_value with_members new_kind
    read_config-document =
        rw
          (parse-chain stod (l.lead 17) (first_entry l v) (more_entries l v) (hl.lead_space 17)
            entries-AreEntries)
          (parse_json-root to_int _ root default_config [] find-root
            ∙ rw (settings-root, warnings-root))
