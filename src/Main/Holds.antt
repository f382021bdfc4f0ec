-- ===== src/Main/Holds.antt =====
-- main.c: a property of plain actions, and that publishing and the commands have, the handling
-- of a message and the loop have too.
use modbusd.Prelude.{Option, none, some, List, [], ◌∷◌, Bool, CString, c_str}
use modbusd.Prelude.Int.{ℤ}
use modbusd.Env.{Env}
use modbusd.Daemon.Closed.{Property, Plain, Holds, Holds-bind, plain_rules}
use modbusd.Json.Holds.{json_get_char-Holds, json_get_int-Holds, parse_block-Holds}
use modbusd.Api.{Modbusd, Function, fc1, fc2, fc3, fc4, fc5, fc6, fc15, fc16, handler}
use modbusd.Main.{
  send_modbus_zmq_resp, tcp_response, handle_request, handle_json, handle_message, serve,
}

module _ {E : Env} {P : Property E} (plain : Plain P) where
  module _ (api : Modbusd E)
      (commands : (f : Function) (req : Option E.Json)
        → Holds P (api.mbtcp_cmd_hanlder req (handler api f)))
      (timeouts : (tid timeout : ℤ) → Holds P (api.mbtcp_set_response_timeout tid timeout)) where
    pub tcp_response-Holds :
        (tid : ℤ) (req : Option E.Json) (cmd : CString) → Holds P (tcp_response api tid req cmd)
    unfolding tcp_response
    tcp_response-Holds tid req cmd =
        let reads = json_get_int-Holds plain in
        let by : (f : Function) → Holds P (api.mbtcp_cmd_hanlder req (handler api f)) =
          λ f. commands f req in
        let f1 : (u : Unit {0}) → Holds P (api.mbtcp_cmd_hanlder req api.mbtcp_fc1_req) =
          λ u. by fc1 in
        let f2 : (u : Unit {0}) → Holds P (api.mbtcp_cmd_hanlder req api.mbtcp_fc2_req) =
          λ u. by fc2 in
        let f3 : (u : Unit {0}) → Holds P (api.mbtcp_cmd_hanlder req api.mbtcp_fc3_req) =
          λ u. by fc3 in
        let f4 : (u : Unit {0}) → Holds P (api.mbtcp_cmd_hanlder req api.mbtcp_fc4_req) =
          λ u. by fc4 in
        let f5 : (u : Unit {0}) → Holds P (api.mbtcp_cmd_hanlder req api.mbtcp_fc5_req) =
          λ u. by fc5 in
        let f6 : (u : Unit {0}) → Holds P (api.mbtcp_cmd_hanlder req api.mbtcp_fc6_req) =
          λ u. by fc6 in
        let f15 : (u : Unit {0}) → Holds P (api.mbtcp_cmd_hanlder req api.mbtcp_fc15_req) =
          λ u. by fc15 in
        let f16 : (u : Unit {0}) → Holds P (api.mbtcp_cmd_hanlder req api.mbtcp_fc16_req) =
          λ u. by fc16 in
        search (plain_rules, plain, reads, timeouts, f1, f2, f3, f4, f5, f6, f15, f16) depth 15

  module _ (api : Modbusd E)
      (sends : (publisher : Bool) (mode resp : CString)
        → Holds P (send_modbus_zmq_resp E publisher mode resp))
      (responds : (tid : ℤ) (req : Option E.Json) (cmd : CString)
        → Holds P (tcp_response api tid req cmd)) where
    handle_request-Holds :
        (publisher : Bool) (mode : CString) (tid : ℤ) (req : Option E.Json)
        → Holds P (handle_request api publisher mode tid req)
    unfolding handle_request
    handle_request-Holds publisher mode tid req =
        let reads = json_get_char-Holds plain in
        search (plain_rules, plain, reads, sends, responds) depth 9

    handle_json-Holds :
        (publisher : Bool) (mode : CString) (req : Option E.Json)
        → Holds P (handle_json api publisher mode req)
    unfolding handle_json
    handle_json-Holds publisher mode none =
        Holds-bind plain _ _ (json_get_int-Holds plain none (c_str "tid"))
          λ tid. sends publisher mode _
    handle_json-Holds publisher mode (some r) =
        Holds-bind plain _ _ (json_get_int-Holds plain (some r) (c_str "tid"))
          λ tid. handle_request-Holds publisher mode tid (some r)

    pub handle_message-Holds :
        (publisher : Bool) (frames : List CString) → Holds P (handle_message api publisher frames)
    unfolding handle_message
    handle_message-Holds publisher [] = search (plain_rules, plain)
    handle_message-Holds publisher (mode ∷ []) = search (plain_rules, plain)
    handle_message-Holds publisher (mode ∷ text ∷ more) =
        Holds-bind plain _ _ (parse_block-Holds plain _) (handle_json-Holds publisher mode)

    pub serve-Holds :
        (publisher : Bool) (received : List (Option (List CString)))
        → Holds P (serve api publisher received)
    unfolding serve
    serve-Holds publisher [] = search (plain_rules, plain)
    serve-Holds publisher (none ∷ rest) = serve-Holds publisher rest
    serve-Holds publisher (some frames ∷ rest) =
        Holds-bind plain _ _ (handle_message-Holds publisher frames) λ u. serve-Holds publisher rest
