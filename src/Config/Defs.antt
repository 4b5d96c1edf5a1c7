-- ===== src/Config/Defs.antt =====
-- The class `Config`: its settings, and the functions that read them from a document.
use ss_logger_cpp.Prelude.{ℤ, pos, Bytes, codes, List, [], ◌∷◌, ◌++◌, Option, none, some}
use ss_logger_cpp.Json.Result.{Result, ok, ◌>>=◌}
use ss_logger_cpp.Json.Value.{
  Json, Members, find, at, get_object_value, get_string_value, get_number_value, initialised,
}
use ss_logger_cpp.Json.Parser.{parse}

pub record Server : Type 0 where
  pub server_name : Bytes
  pub server_display_name : Bytes
  pub listener_port : ℤ
  pub ip_address : Bytes

pub record CommunicationSettings : Type 0 where
  pub blocking : ℤ
  pub socket_timeout : ℤ

pub record Logging : Type 0 where
  pub filename : Bytes
  pub log_level : ℤ
  pub flush : ℤ

pub record Time : Type 0 where
  pub period_time : ℤ

pub record ThreadPool : Type 0 where
  pub max_working_threads : ℤ

pub record Config : Type 0 where
  pub server : Server
  pub communication_settings : CommunicationSettings
  pub logging : Logging
  pub time : Time
  pub thread_pool : ThreadPool

-- The default member initialisers.
abbrev pub default_config : Config
default_config = record {
  server = record {
    server_name = codes "DefaultServer";
    server_display_name = codes "DefaultServerDisplayName";
    listener_port = pos 25000;
    ip_address = codes "127.0.0.1";
  };
  communication_settings = record { blocking = pos 0; socket_timeout = pos 5 };
  logging = record { filename = codes "serverlog.txt"; log_level = pos 2; flush = pos 0 };
  time = record { period_time = pos 30 };
  thread_pool = record { max_working_threads = pos 10 };
}

-- A line on `std::cout` or on `std::cerr`.
pub data Line : Type 0 where
  cout cerr : Bytes → Line

-- `NotifyDefault`.
unfoldable pub notify_default : Bytes → List Line → List Line
notify_default property out =
    out ++ cout (codes "Warning: " ++ (property ++ codes " is set to default value.")) ∷ []

module _ {D : Type 0} where
  -- What `obj.count(key)` and `obj.at(key)` find, handed on.
  abbrev pub text_from : Option (Json D) → Bytes → Bytes → List Line → Bytes × List Line
  text_from none key default_value out = (default_value, notify_default key out)
  text_from (some value) key default_value out = (get_string_value value, out)

  -- `GetValueOrDefault<std::string>`.
  unfoldable pub get_text : Members D → Bytes → Bytes → List Line → Bytes × List Line
  get_text obj key default_value out = text_from (find key obj) key default_value out

module _ {D : Type 0} (to_int : D → Option ℤ) where
  -- `static_cast<int>(value_json.get_number_value())`.
  unfoldable pub int_of : Json D → Result ℤ
  int_of value = do d ← get_number_value value; initialised (to_int d)

  abbrev pub int_from : Option (Json D) → Bytes → ℤ → List Line → Result (ℤ × List Line)
  int_from none key default_value out = ok (default_value, notify_default key out)
  int_from (some value) key default_value out = do n ← int_of value; ok (n, out)

  -- `GetValueOrDefault<int>`.
  unfoldable pub get_int : Members D → Bytes → ℤ → List Line → Result (ℤ × List Line)
  get_int obj key default_value out = int_from (find key obj) key default_value out

  abbrev pub server_from : Option (Json D) → Config × List Line → Result (Config × List Line)
  server_from none (c, out) = ok (c, notify_default (codes "Server") out)
  server_from (some section) (c, out) = do
    let obj = get_object_value section
    let (name, out) = get_text obj (codes "servername") c.server.server_name out
    let (display, out) = get_text obj (codes "serverdisplayname") c.server.server_display_name out
    (port, out) ← get_int obj (codes "listenerport") c.server.listener_port out
    let (address, out) = get_text obj (codes "ipaddress") c.server.ip_address out
    let server : Server = record {
      server_name = name;
      server_display_name = display;
      listener_port = port;
      ip_address = address;
    }
    ok (record c { server = server }, out)

  unfoldable pub parse_server_config : Members D → Config × List Line → Result (Config × List Line)
  parse_server_config root s = server_from (find (codes "Server") root) s

  abbrev pub communication_from : Option (Json D) → Config × List Line → Result (Config × List Line)
  communication_from none (c, out) = ok (c, notify_default (codes "CommunicationSettings") out)
  communication_from (some section) (c, out) = do
    let obj = get_object_value section
    let settings = c.communication_settings
    (blocking, out) ← get_int obj (codes "blocking") settings.blocking out
    (timeout, out) ← get_int obj (codes "socket_timeout") settings.socket_timeout out
    let settings : CommunicationSettings = record { blocking = blocking; socket_timeout = timeout }
    ok (record c { communication_settings = settings }, out)

  unfoldable pub parse_communication_settings :
      Members D → Config × List Line → Result (Config × List Line)
  parse_communication_settings root s =
      communication_from (find (codes "communicationsettings") root) s

  abbrev pub logging_from : Option (Json D) → Config × List Line → Result (Config × List Line)
  logging_from none (c, out) = ok (c, notify_default (codes "Logging") out)
  logging_from (some section) (c, out) = do
    let obj = get_object_value section
    let (filename, out) = get_text obj (codes "filename") c.logging.filename out
    (level, out) ← get_int obj (codes "LogLevel") c.logging.log_level out
    (flush, out) ← get_int obj (codes "flush") c.logging.flush out
    let logging : Logging = record { filename = filename; log_level = level; flush = flush }
    ok (record c { logging = logging }, out)

  unfoldable pub parse_logging_config : Members D → Config × List Line → Result (Config × List Line)
  parse_logging_config root s = logging_from (find (codes "logging") root) s

  abbrev pub time_from : Option (Json D) → Config × List Line → Result (Config × List Line)
  time_from none (c, out) = ok (c, notify_default (codes "Time") out)
  time_from (some section) (c, out) = do
    let obj = get_object_value section
    (period, out) ← get_int obj (codes "Period_time") c.time.period_time out
    let time : Time = record { period_time = period }
    ok (record c { time = time }, out)

  unfoldable pub parse_time_config : Members D → Config × List Line → Result (Config × List Line)
  parse_time_config root s = time_from (find (codes "time") root) s

  abbrev pub thread_pool_from : Option (Json D) → Config × List Line → Result (Config × List Line)
  thread_pool_from none (c, out) = ok (c, notify_default (codes "ThreadPool") out)
  thread_pool_from (some section) (c, out) = do
    let obj = get_object_value section
    (threads, out) ← get_int obj (codes "maxworkingthreads") c.thread_pool.max_working_threads out
    let pool : ThreadPool = record { max_working_threads = threads }
    ok (record c { thread_pool = pool }, out)

  unfoldable pub parse_thread_pool_config :
      Members D → Config × List Line → Result (Config × List Line)
  parse_thread_pool_config root s = thread_pool_from (find (codes "threadpool") root) s

  -- `ParseJSON`.
  unfoldable pub parse_json : Json D → Config × List Line → Result (Config × List Line)
  parse_json document s = do
    root ← at (codes "root") (get_object_value document)
    let root = get_object_value root
    s ← parse_server_config root s
    s ← parse_communication_settings root s
    s ← parse_logging_config root s
    s ← parse_time_config root s
    parse_thread_pool_config root s

  -- The constructor; `none` is a file that cannot be opened.
  unfoldable pub read_config : (Bytes → Result D) → Option Bytes → Result (Config × List Line)
  read_config stod none = ok (
    default_config,
    cerr (codes "Warning: Could not open filename. Settings are set to default values") ∷ [],
  )
  read_config stod (some content) = do
    document ← parse stod content
    parse_json document (default_config, [])
