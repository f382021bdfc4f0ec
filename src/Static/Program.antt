-- ===== src/Static/Program.antt =====
-- The comments of the static functions of main.c as contracts.
use modbusd.Prelude.{
  ℕ, ◌+◌, ◌≡◌, Option, none, some, List, [], ◌∷◌, ◌++◌, Bool, true, false, CString, c_str, length,
}
use modbusd.Prelude.Int.{ℤ, to_unsigned}
use modbusd.Env.{Env, parsed}
use modbusd.Daemon.{Daemon, M, ok, stop, exit_failure, pure, ◌>>◌}
use modbusd.Json.Fields.{HasInt, HasText}
use modbusd.Json.Header.{IsPrintable}
use modbusd.Command.{uint32_mod}
use modbusd.Main.Config.{block}

module _ (E : Env) where
  -- The daemon after it has loaded these settings.
  abbrev pub with_settings : E.Json → ℤ → CString → CString → ℤ → E.World → Daemon E → Daemon E
  with_settings j syslog sub publ usec w s = record s {
    enable_syslog = syslog;
    config_json = some j;
    ipc_sub = some sub;
    ipc_pub = some publ;
    tcp_conn_timeout_usec = to_unsigned uint32_mod usec;
    world = w;
  }

  -- "Load configuration file. @param ptr_config Pointer to config cJSON object": the object and its
  -- four settings, each in its variable; the program exits if the file cannot be read.
  abbrev pub LoadConfigContract : (CString → M E (Unit {0})) → Type 0
  LoadConfigContract f =
      (fname : CString) (s : Daemon E)
      → (E.read_file fname s.world ≡ none → f fname s ≡ stop exit_failure)
        × ((content : List ℕ) (j : E.Json) (syslog usec : ℤ) (sub publ : CString)
            → E.read_file fname s.world ≡ some content
            → (E.malloc (length content + 1) s.world).0 ≡ true
            → E.cjson_parse (block fname s content) ≡ parsed j
            → HasInt E (some j) (c_str "syslog") syslog
            → HasText E (some j) (c_str "ipc_sub") sub
            → HasText E (some j) (c_str "ipc_pub") publ
            → HasInt E (some j) (c_str "mbtcp_connect_timeout") usec
            → f fname s
              ≡ ok (
                tt,
                with_settings j syslog sub publ usec (E.malloc (length content + 1) s.world).1 s,
              ))

  -- "Save configuration to file": what is saved, `load` loads again, in any later state of the daemon
  -- with the file as it is then.
  abbrev pub SaveConfigContract :
      (CString → M E (Unit {0})) → (CString → Option E.Json → M E (Unit {0})) → Type 0
  SaveConfigContract load f =
      (fname : CString) (j : E.Json)
      → IsPrintable E fname j
      → (syslog usec : ℤ) (sub publ : CString) → HasInt E (some j) (c_str "syslog") syslog
      → HasText E (some j) (c_str "ipc_sub") sub
      → HasText E (some j) (c_str "ipc_pub") publ
      → HasInt E (some j) (c_str "mbtcp_connect_timeout") usec
      → (s : Daemon E)
      → (w v : E.World) × (f fname (some j) s ≡ ok (tt, record s { world = w }))
        × ((t : Daemon E)
            → t.world ≡ w
            → load fname t ≡ ok (tt, with_settings j syslog sub publ usec v t))

  -- The responses of a list, sent one after the other.
  unfoldable pub send_all :
      (CString → CString → M E (Unit {0})) → List (CString × CString) → M E (Unit {0})
  send_all send [] = pure tt
  send_all send ((mode, json_resp) ∷ rest) = do send mode json_resp; send_all send rest

  -- "Generic zmq response sender for modbus. @param pub Zmq publisher. @param mode Request mode. @param
  -- json_resp Response string in JSON format.": with a publisher, responses that are sent one after
  -- the other are published behind the earlier ones in that order, each with its mode, and nothing
  -- else changes; without one, nothing changes at all.
  abbrev pub SendContract : (Bool → CString → CString → M E (Unit {0})) → Type 0
  SendContract f =
      (responses : List (CString × CString)) (s : Daemon E)
      → (send_all (f true) responses s ≡ ok (tt, record s { sent = s.sent ++ responses }))
        × (send_all (f false) responses s ≡ ok (tt, s))
