-- ===== src/Config/Failures.antt =====
-- The integers that the constructor of `Config` reads from a document that `Parse` gave.
use ss_logger_cpp.Prelude.{ℤ, Bytes, codes, Option, some, ◌≡◌, ◌≢◌, refl, sym, ◌∙◌, subst, []}
use ss_logger_cpp.Json.Result.{Result, ok, undefined}
use ss_logger_cpp.Json.Value.{Json, Members, number, find, get_object_value, get_type}
use ss_logger_cpp.Json.Parser.{parse}
use ss_logger_cpp.Json.Types.{
  IsTyped, AreTyped, Returns, IsDefined, parse-IsTyped, find-IsTyped, get_object_value-AreTyped,
  other_kind-undefined,
}
use ss_logger_cpp.Config.Settings.{server_of, integer, int_of-integer, settings, parse_json-root}
use ss_logger_cpp.Config.Defs.{Server, Config, int_of, read_config, default_config}

module _ {D : Type 0} (to_int : D → Option ℤ) where
  server_of-undefined :
      (section port : Json D) (d : Server)
      → IsTyped section
      → find (codes "listenerport") (get_object_value section) ≡ some port
      → get_type port ≢ number
      → server_of to_int (some section) d ≡ undefined
  unfolding server_of int_of
  server_of-undefined section port d t e h =
      let typed =
        find-IsTyped (codes "listenerport") (get_object_value section)
          (get_object_value-AreTyped section t) e in
      let fails : integer to_int port ≡ undefined =
        sym (int_of-integer to_int port)
        ∙ unfold int_of in rw (other_kind-undefined port typed h) refl in
      rw (e, fails) refl

  settings-undefined :
      (root : Members D) (section port : Json D) (c : Config)
      → AreTyped root
      → find (codes "Server") root ≡ some section
      → find (codes "listenerport") (get_object_value section) ≡ some port
      → get_type port ≢ number
      → settings to_int root c ≡ undefined
  unfolding settings
  settings-undefined root section port c t e f h =
      let typed = find-IsTyped (codes "Server") root t e in
      rw (e, server_of-undefined section port c.server typed f h) refl

  -- If `std::stod` is defined on every text: where the document that `Parse` gives has the members
  -- `root`, in it `Server`, in it `listenerport`, and the last is a value of any other kind than a
  -- number, the constructor of `Config` reads a member that was not initialised.
  pub read_config-quoted :
      (stod : Bytes → Result D)
      → ((c : Bytes) → IsDefined (stod c))
      → (content : Bytes) (document root section port : Json D) → parse stod content ≡ ok document
      → find (codes "root") (get_object_value document) ≡ some root
      → find (codes "Server") (get_object_value root) ≡ some section
      → find (codes "listenerport") (get_object_value section) ≡ some port
      → get_type port ≢ number
      → read_config to_int stod (some content) ≡ undefined
  unfolding read_config
  read_config-quoted stod defined content document root section port e f g h k =
      let typed = subst (Returns IsTyped) e (parse-IsTyped stod defined content) in
      let in_document = get_object_value-AreTyped document typed in
      let in_root =
        get_object_value-AreTyped root
          (find-IsTyped (codes "root") (get_object_value document) in_document f) in
      rw
        (
          e,
          parse_json-root to_int document root default_config [] f,
          settings-undefined (get_object_value root) section port default_config in_root g h k,
        )
        refl
