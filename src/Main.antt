-- ===== src/Main.antt =====
-- main.c: the configuration, the dispatch of a message, the loop and the entry.
pub mod Holds
pub mod Keeps
pub mod Entry
pub mod Faults
pub mod Config
pub mod Dispatch
pub mod Delivery
pub mod Progress
pub mod Run
pub mod Restart
pub mod Part
pub mod Traffic
pub mod Abstract
pub mod Silent
use modbusd.Prelude.{
  Option, none, some, List, [], ◌∷◌, ◌++◌, Bool, true, false, CString, c_str, str_eq, if◌then◌else◌,
}
use modbusd.Prelude.Int.{ℤ, pos, ltb_ℤ, to_unsigned}
use modbusd.Env.{Env}
use modbusd.Daemon.{
  Daemon, M, Outcome, ok, stop, exit_failure, missing_frame, pure, fail, not_null, gets, call,
  modify, effect, ◌>>=◌, ◌>>◌,
}
use modbusd.Json.{json_get_char, json_get_int, file_to_json, json_to_file, parse_block}
use modbusd.Api.{Modbusd}
use modbusd.Command.{uint32_mod}

-- argv[1], if there is one.
unfoldable pub config_name : Option CString → CString
config_name (some argument) = argument
config_name none = c_str "./modbusd.json"

module _ (E : Env) where
  -- `config_json` is written through the pointer that the function is given.
  unfoldable pub load_config : CString → M E (Unit {0})
  load_config fname = do
    config ← gets (λ s. s.config_json)
    (code, json) ← file_to_json E fname config
    modify (λ s. record s { config_json = json })
    if ltb_ℤ code (pos 0) then fail exit_failure else (do
      syslog ← json_get_int E json (c_str "syslog")
      modify (λ s. record s { enable_syslog = syslog })
      sub ← json_get_char E json (c_str "ipc_sub")
      modify (λ s. record s { ipc_sub = sub })
      publ ← json_get_char E json (c_str "ipc_pub")
      modify (λ s. record s { ipc_pub = publ })
      usec ← json_get_int E json (c_str "mbtcp_connect_timeout")
      modify (λ s. record s { tcp_conn_timeout_usec = to_unsigned uint32_mod usec }))

  unfoldable pub save_config : CString → Option E.Json → M E (Unit {0})
  save_config fname config = do json_to_file E fname config; pure tt

  -- `publisher` says whether the socket is there.
  unfoldable pub send_modbus_zmq_resp : Bool → CString → CString → M E (Unit {0})
  send_modbus_zmq_resp true mode json_resp =
      modify (λ s. record s { sent = s.sent ++ (mode, json_resp) ∷ [] })
  send_modbus_zmq_resp false mode json_resp = pure tt

  -- The two sockets: whether the publisher is there.
  unfoldable pub setup_zmq : M E Bool
  setup_zmq = do
    sub ← gets (λ s. s.ipc_sub)
    sub_name ← not_null sub
    effect E (E.zsocket_bind_sub sub_name)
    publisher ← call E E.zsocket_new_pub
    publ ← gets (λ s. s.ipc_pub)
    pub_name ← not_null publ
    effect E (E.zsocket_bind_pub pub_name)
    pure publisher

module _ {E : Env} (api : Modbusd E) where
  -- The response to a tcp request, by its command.
  unfoldable pub tcp_response : ℤ → Option E.Json → CString → M E CString
  tcp_response tid req cmd =
      if str_eq cmd (c_str "fc1")
      then api.mbtcp_cmd_hanlder req api.mbtcp_fc1_req
      else if str_eq cmd (c_str "fc2")
      then api.mbtcp_cmd_hanlder req api.mbtcp_fc2_req
      else if str_eq cmd (c_str "fc3")
      then api.mbtcp_cmd_hanlder req api.mbtcp_fc3_req
      else if str_eq cmd (c_str "fc4")
      then api.mbtcp_cmd_hanlder req api.mbtcp_fc4_req
      else if str_eq cmd (c_str "fc5")
      then api.mbtcp_cmd_hanlder req api.mbtcp_fc5_req
      else if str_eq cmd (c_str "fc6")
      then api.mbtcp_cmd_hanlder req api.mbtcp_fc6_req
      else if str_eq cmd (c_str "fc15")
      then api.mbtcp_cmd_hanlder req api.mbtcp_fc15_req
      else if str_eq cmd (c_str "fc16")
      then api.mbtcp_cmd_hanlder req api.mbtcp_fc16_req
      else if str_eq cmd (c_str "timeout")
      then (do
        timeout_val ← json_get_int E req (c_str "data")
        api.mbtcp_set_response_timeout tid timeout_val)
      else pure (api.modbus_set_error_resp tid (c_str "unsupport request"))

  -- A request that cJSON could parse, by its mode. `cmd` may be NULL; strcmp dereferences it.
  unfoldable pub handle_request : Bool → CString → ℤ → Option E.Json → M E (Unit {0})
  handle_request publisher mode tid req = do
    cmd ← json_get_char E req (c_str "cmd")
    if str_eq mode (c_str "tcp")
        then (do
          command ← not_null cmd
          resp ← tcp_response tid req command
          send_modbus_zmq_resp E publisher mode resp)
        else if str_eq mode (c_str "rtu")
        then pure tt
        else send_modbus_zmq_resp E publisher mode
            (api.modbus_set_error_resp tid (c_str "unsupport mode"))

  abbrev pub parse_failed : Bool → CString → ℤ → M E (Unit {0})
  parse_failed publisher mode tid =
      send_modbus_zmq_resp E publisher mode
        (api.modbus_set_error_resp tid (c_str "Fail to parse command string"))

  -- From the parsed request on: `tid` is read before the test for NULL.
  unfoldable pub handle_json : Bool → CString → Option E.Json → M E (Unit {0})
  handle_json publisher mode req = do
    tid ← json_get_int E req (c_str "tid")
    elim req [
      | some r ↦ handle_request publisher mode tid (some r)
      | none ↦ parse_failed publisher mode tid
    ]

  -- A message is its frames; zmsg_pop of an empty one gives NULL, which zframe_strdup does not take.
  unfoldable pub handle_message : Bool → List CString → M E (Unit {0})
  handle_message publisher [] = fail missing_frame
  handle_message publisher (mode ∷ []) = fail missing_frame
  handle_message publisher (mode ∷ req_json_string ∷ more) = do
    req ← parse_block E (req_json_string ++ 0 ∷ [])
    handle_json publisher mode req

  -- The loop, over what zmsg_recv returns until the interrupt; `none` is NULL.
  unfoldable pub serve : Bool → List (Option (List CString)) → M E (Unit {0})
  serve publisher [] = pure tt
  serve publisher (none ∷ rest) = serve publisher rest
  serve publisher (some frames ∷ rest) = do handle_message publisher frames; serve publisher rest

  unfoldable pub main : Option CString → List (Option (List CString)) → M E (Unit {0})
  main argument received = do
    load_config E (config_name argument)
    publisher ← setup_zmq E
    serve publisher received
    config ← gets (λ s. s.config_json)
    save_config E (config_name argument) config
