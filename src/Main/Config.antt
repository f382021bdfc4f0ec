-- ===== src/Main/Config.antt =====
-- main.c and json.c: the configuration file, read once at the start and written back at the end.
use modbusd.Prelude.{
  ℕ, ◌+◌, ◌≡◌, Option, none, some, List, [], ◌∷◌, ◌++◌, Bool, true, CString, c_str, length,
}
use modbusd.Prelude.Int.{ℤ, to_unsigned}
use modbusd.Env.{Env, parsed, syntax_error}
use modbusd.Env.Laws.{HashLaws, JsonLaws}
use modbusd.Daemon.{Daemon, ok, stop, null_pointer, exit_failure, ◌>>=◌}
use modbusd.Daemon.Exec.{Returned, Returned-mono}
use modbusd.Json.{parse_block, parse_file, file_to_json, json_to_file}
use modbusd.Json.Fields.{
  HasInt, HasText, json_get_int-HasInt, json_get_char-HasText, json_get_int-missing,
}
use modbusd.Command.{uint32_mod}
use modbusd.Api.Implementation.{modbusd_c, modbusd_c-KeepsRegistry}
use modbusd.Main.{load_config, save_config, serve}
use modbusd.Main.Keeps.{Serves, serve-Serves}

module _ {E : Env} (fname : CString) (s : Daemon E) where
  -- A file that cannot be read: the program exits, in every state.
  pub load_config_missing :
      E.read_file fname s.world ≡ none → load_config E fname s ≡ stop exit_failure
  unfolding load_config file_to_json ◌>>=◌
  load_config_missing e = rw (e, file_to_json)

  -- The block for a file of these bytes: the bytes, and one more that nothing has written.
  abbrev pub block : List ℕ → List ℕ
  block content =
      content ++ E.fresh_byte (E.malloc (length content + 1) s.world).1 (length content) ∷ []

  module _ (content : List ℕ) (there : E.read_file fname s.world ≡ some content)
      (got : (E.malloc (length content + 1) s.world).0 ≡ true) where
    -- A file that cJSON cannot parse: the test of `outJson` in file_to_json lets it pass, and
    -- `load_config` dereferences NULL. It does not leave by `exit`.
    pub load_config_unparsable :
        JsonLaws E
        → E.cjson_parse (block content) ≡ syntax_error
        → load_config E fname s ≡ stop null_pointer
    unfolding load_config file_to_json parse_file parse_block ◌>>=◌
    load_config_unparsable json e =
        rw (there, file_to_json)
          (rw got (
            rw (e, parse_block)
              (rw
                (json_get_int-missing E none (c_str "syslog") (json.item-null (c_str "syslog"))))))

    -- A file with the four settings: each goes to its variable, the timeout modulo 2^32, and the
    -- parsed object is kept for the end.
    pub load_config_loads :
        (j : E.Json) (syslog usec : ℤ) (sub publ : CString)
        → E.cjson_parse (block content) ≡ parsed j
        → HasInt E (some j) (c_str "syslog") syslog
        → HasText E (some j) (c_str "ipc_sub") sub
        → HasText E (some j) (c_str "ipc_pub") publ
        → HasInt E (some j) (c_str "mbtcp_connect_timeout") usec
        → load_config E fname s
          ≡ ok (
            tt,
            record s {
              enable_syslog = syslog;
              config_json = some j;
              ipc_sub = some sub;
              ipc_pub = some publ;
              tcp_conn_timeout_usec = to_unsigned uint32_mod usec;
              world = (E.malloc (length content + 1) s.world).1;
            },
          )
    unfolding load_config file_to_json parse_file parse_block ◌>>=◌
    load_config_loads j syslog usec sub publ e has_syslog has_sub has_pub has_usec =
        rw (there, file_to_json)
          (rw got (
            rw (e, parse_block)
              (rw (
                json_get_int-HasInt E (some j) (c_str "syslog") syslog has_syslog,
                json_get_char-HasText E (some j) (c_str "ipc_sub") sub has_sub,
                json_get_char-HasText E (some j) (c_str "ipc_pub") publ has_pub,
                json_get_int-HasInt E (some j) (c_str "mbtcp_connect_timeout") usec has_usec,
              ))))

  -- What the end of the program writes: the printed configuration. If the file cannot be opened,
  -- nothing is written, and either way the function returns.
  pub save_config_writes :
      (j : E.Json) (w : E.World)
      → (E.write_file fname (E.cjson_print j) s.world ≡ some w
          → save_config E fname (some j) s ≡ ok (tt, record s { world = w }))
        × (E.write_file fname (E.cjson_print j) s.world ≡ none
            → save_config E fname (some j) s ≡ ok (tt, s))
  unfolding save_config json_to_file ◌>>=◌
  save_config_writes j w = (λ e. rw (e, json_to_file), λ e. rw (e, json_to_file))

-- For every sequence of messages that the loop gets through: what is saved at the end is the
-- configuration that was loaded at the start.
pub serve-config :
    {E : Env} (hash : HashLaws E) (publisher : Bool) (received : List (Option (List CString)))
    (s : Daemon E)
    → Returned (λ _ t. t.config_json ≡ s.config_json) (serve (modbusd_c E) publisher received s)
serve-config {E} hash publisher received s =
    Returned-mono (λ _ t. Serves s t) _ _ (λ _ t g. g.config)
      ((serve-Serves (modbusd_c E) (modbusd_c-KeepsRegistry hash) publisher received).at s)
