-- ===== src/Config/Settings.antt =====
-- What a document says of each setting.
use ss_logger_cpp.Prelude.{
  ℤ, Bytes, codes, List, [], ◌∷◌, ◌++◌, Option, none, some, Option-cases, inl, inr, ◌≡◌, refl,
}
use ss_logger_cpp.Json.Result.{Result, ok, undefined, throws, out_of_range, ◌>>=◌, >>=-assoc}
use ss_logger_cpp.Json.Value.{
  Json, json, initialised, Members, find, at, get_object_value, get_string_value, get_number_value,
}
use ss_logger_cpp.Config.Defs.{
  Config, Server, CommunicationSettings, Logging, Time, ThreadPool, Line, cout, notify_default,
  get_text, get_int, int_of, text_from, int_from, server_from, communication_from, logging_from,
  time_from, thread_pool_from, parse_server_config, parse_communication_settings,
  parse_logging_config, parse_time_config, parse_thread_pool_config, parse_json,
}

-- The line that announces a default.
abbrev pub warning : Bytes → Line
warning key = cout (codes "Warning: " ++ (key ++ codes " is set to default value."))

module _ {D : Type 0} where
  -- The member that holds a setting: of the section, where the root has that section.
  abbrev pub member_of : Option (Json D) → Bytes → Option (Json D)
  member_of none key = none
  member_of (some s) key = find key (get_object_value s)

  abbrev pub text_or : Option (Json D) → Bytes → Bytes
  text_or none default_value = default_value
  text_or (some (json _ _ text _ _)) default_value = text

  abbrev pub warn_if : Option (Json D) → Bytes → List Line → List Line
  warn_if none key out = out ++ warning key ∷ []
  warn_if (some v) key out = out

  -- A warning for each key that an object lacks, in order.
  abbrev pub warn_missing : Members D → List Bytes → List Line → List Line
  warn_missing obj [] out = out
  warn_missing obj (k ∷ ks) out = warn_missing obj ks (warn_if (find k obj) k out)

  -- One warning for a section that the root lacks, otherwise one for each key that it lacks.
  abbrev pub warn_section : Option (Json D) → Bytes → List Bytes → List Line → List Line
  warn_section none name keys out = out ++ warning name ∷ []
  warn_section (some s) name keys out = warn_missing (get_object_value s) keys out

  -- The warnings of a whole document, over its root object.
  unfoldable pub warnings : Members D → List Line → List Line
  warnings root out =
      warn_section (find (codes "threadpool") root) (codes "ThreadPool")
        (codes "maxworkingthreads" ∷ [])
        (warn_section (find (codes "time") root) (codes "Time") (codes "Period_time" ∷ []) (
          warn_section (find (codes "logging") root) (codes "Logging")
            (codes "filename" ∷ codes "LogLevel" ∷ codes "flush" ∷ [])
            (warn_section (find (codes "communicationsettings") root)
              (codes "CommunicationSettings") (codes "blocking" ∷ codes "socket_timeout" ∷ [])
              (warn_section (find (codes "Server") root) (codes "Server")
                (codes "servername"
                  ∷ codes "serverdisplayname"
                  ∷ codes "listenerport"
                  ∷ codes "ipaddress"
                  ∷ [])
                out))))

  text_from-warns :
      (v : Option (Json D)) (key d : Bytes) (out : List Line)
      → text_from v key d out ≡ (text_or v d, warn_if v key out)
  unfolding notify_default get_string_value
  text_from-warns none key d out = refl
  text_from-warns (some (json _ _ _ _ _)) key d out = refl

module _ {D : Type 0} (to_int : D → Option ℤ) where
  -- The integer of a value: the conversion of its number, where the value has one.
  abbrev pub integer : Json D → Result ℤ
  integer (json _ _ _ none _) = undefined
  integer (json _ _ _ (some d) _) = elim (to_int d) [ none ↦ undefined | some n ↦ ok n ]

  pub int_of-integer : (v : Json D) → int_of to_int v ≡ integer v
  unfolding int_of get_number_value
  int_of-integer (json _ _ _ none _) = refl
  int_of-integer (json _ _ _ (some d) _) = go (to_int d)
    where
      go : (r : Option ℤ) → initialised r ≡ elim r [ none ↦ undefined | some n ↦ ok n ]
      go none = refl
      go (some n) = refl

  -- An integer setting: the default where it is absent, otherwise the converted number.
  abbrev pub int_or : Option (Json D) → ℤ → Result ℤ
  int_or none default_value = ok default_value
  int_or (some v) default_value = integer v

  int_from-warns :
      (v : Option (Json D)) (key : Bytes) (d : ℤ) (out : List Line)
      → int_from to_int v key d out ≡ (int_or v d >>= λ n. ok (n, warn_if v key out))
  unfolding notify_default
  int_from-warns none key d out = refl
  int_from-warns (some v) key d out = rw (int_of-integer v) refl

  -- The five sections, each from what the root has under its name.
  unfoldable pub server_of : Option (Json D) → Server → Result Server
  server_of s d = do
    port ← int_or (member_of s (codes "listenerport")) d.listener_port
    ok (record {
      server_name = text_or (member_of s (codes "servername")) d.server_name;
      server_display_name = text_or (member_of s (codes "serverdisplayname")) d.server_display_name;
      listener_port = port;
      ip_address = text_or (member_of s (codes "ipaddress")) d.ip_address;
    })

  unfoldable pub communication_of :
      Option (Json D) → CommunicationSettings → Result CommunicationSettings
  communication_of s d = do
    blocking ← int_or (member_of s (codes "blocking")) d.blocking
    timeout ← int_or (member_of s (codes "socket_timeout")) d.socket_timeout
    ok (record { blocking = blocking; socket_timeout = timeout })

  unfoldable pub logging_of : Option (Json D) → Logging → Result Logging
  logging_of s d = do
    level ← int_or (member_of s (codes "LogLevel")) d.log_level
    flush ← int_or (member_of s (codes "flush")) d.flush
    ok (record {
      filename = text_or (member_of s (codes "filename")) d.filename;
      log_level = level;
      flush = flush;
    })

  unfoldable pub time_of : Option (Json D) → Time → Result Time
  time_of s d = do
    period ← int_or (member_of s (codes "Period_time")) d.period_time
    ok (record { period_time = period })

  unfoldable pub thread_pool_of : Option (Json D) → ThreadPool → Result ThreadPool
  thread_pool_of s d = do
    threads ← int_or (member_of s (codes "maxworkingthreads")) d.max_working_threads
    ok (record { max_working_threads = threads })

  server_from_lem :
      (s : Option (Json D)) (c : Config) (out : List Line)
      → server_from to_int s (c, out) ≡ (
          server_of s c.server >>= λ v. ok (
            record c { server = v },
            warn_section s
                (codes "Server")
                (codes "servername"
                  ∷ codes "serverdisplayname"
                  ∷ codes "listenerport"
                  ∷ codes "ipaddress"
                  ∷ [])
                out,
          ))
  unfolding server_of get_text get_int
  server_from_lem none c out = unfold notify_default in refl
  server_from_lem (some s) c out = simp (text_from-warns, int_from-warns, >>=-assoc)

  communication_from_lem :
      (s : Option (Json D)) (c : Config) (out : List Line)
      → communication_from to_int s (c, out) ≡ (
          communication_of s c.communication_settings >>= λ v. ok (
            record c { communication_settings = v },
            warn_section s
                (codes "CommunicationSettings")
                (codes "blocking" ∷ codes "socket_timeout" ∷ [])
                out,
          ))
  unfolding communication_of get_int
  communication_from_lem none c out = unfold notify_default in refl
  communication_from_lem (some s) c out = simp (int_from-warns, >>=-assoc)

  logging_from_lem :
      (s : Option (Json D)) (c : Config) (out : List Line)
      → logging_from to_int s (c, out) ≡ (
          logging_of s c.logging >>= λ v. ok (
            record c { logging = v },
            warn_section s
                (codes "Logging")
                (codes "filename" ∷ codes "LogLevel" ∷ codes "flush" ∷ [])
                out,
          ))
  unfolding logging_of get_text get_int
  logging_from_lem none c out = unfold notify_default in refl
  logging_from_lem (some s) c out = simp (text_from-warns, int_from-warns, >>=-assoc)

  time_from_lem :
      (s : Option (Json D)) (c : Config) (out : List Line)
      → time_from to_int s (c, out) ≡ (
          time_of s c.time >>= λ v.
          ok (record c { time = v }, warn_section s (codes "Time") (codes "Period_time" ∷ []) out))
  unfolding time_of get_int
  time_from_lem none c out = unfold notify_default in refl
  time_from_lem (some s) c out = simp (int_from-warns, >>=-assoc)

  thread_pool_from_lem :
      (s : Option (Json D)) (c : Config) (out : List Line)
      → thread_pool_from to_int s (c, out) ≡ (
          thread_pool_of s c.thread_pool >>= λ v. ok (
            record c { thread_pool = v },
            warn_section s (codes "ThreadPool") (codes "maxworkingthreads" ∷ []) out,
          ))
  unfolding thread_pool_of get_int
  thread_pool_from_lem none c out = unfold notify_default in refl
  thread_pool_from_lem (some s) c out = simp (int_from-warns, >>=-assoc)

  unfoldable pub settings : Members D → Config → Result Config
  settings root d = do
    server ← server_of (find (codes "Server") root) d.server
    communication ←
        communication_of (find (codes "communicationsettings") root) d.communication_settings
    logging ← logging_of (find (codes "logging") root) d.logging
    time ← time_of (find (codes "time") root) d.time
    pool ← thread_pool_of (find (codes "threadpool") root) d.thread_pool
    ok (record {
      server = server;
      communication_settings = communication;
      logging = logging;
      time = time;
      thread_pool = pool;
    })

  pub parse_json-root :
      (document root : Json D) (c : Config) (out : List Line)
      → find (codes "root") (get_object_value document) ≡ some root
      → parse_json to_int document (c, out)
        ≡ (settings (get_object_value root) c >>= λ d. ok (d, warnings (get_object_value root) out))
  unfolding parse_json parse_server_config parse_communication_settings parse_logging_config
      parse_time_config parse_thread_pool_config at settings warnings
  parse_json-root document root c out e =
      rw (e, at)
        (simp (
          server_from_lem, communication_from_lem, logging_from_lem, time_from_lem,
          thread_pool_from_lem, >>=-assoc,
        ))

  parse_json-rootless :
      (document : Json D) (c : Config) (out : List Line)
      → find (codes "root") (get_object_value document) ≡ none
      → parse_json to_int document (c, out) ≡ throws out_of_range
  unfolding parse_json at
  parse_json-rootless document c out e = rw (e, at)

  -- What the root object says, where the document has one.
  abbrev pub document_settings : Option (Json D) → Config → List Line → Result (Config × List Line)
  document_settings none c out = throws out_of_range
  document_settings (some root) c out = do
    d ← settings (get_object_value root) c
    ok (d, warnings (get_object_value root) out)

  -- `ParseJSON` on any document: without a member `root` it throws `std::out_of_range`; otherwise
  -- each setting is the member of that name in its section of the root object, its text or the
  -- conversion of its number to `int`, or keeps its value where the section or the member is
  -- missing; each missing section or member of a section is announced by the line `Warning: ... is
  -- set to default value.`, in order; the behaviour is undefined exactly where one of the members
  -- that are read as integers has no number or one that cannot be converted.
  pub parse_json-settings :
      (document : Json D) (c : Config) (out : List Line)
      → parse_json to_int document (c, out)
        ≡ document_settings (find (codes "root") (get_object_value document)) c out
  parse_json-settings document c out =
      elim (Option-cases (find (codes "root") (get_object_value document))) [
        | inl e ↦ rw e (parse_json-rootless document c out e)
        | inr (root, e) ↦ rw e (parse_json-root document root c out e)
      ]
