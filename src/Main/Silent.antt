-- ===== src/Main/Silent.antt =====
-- main.c without its publisher: send_modbus_zmq_resp tests the socket and does nothing without it.
use modbusd.Prelude.{◌≡◌, refl, Option, none, some, List, [], ◌∷◌, true, false, CString, c_str}
use modbusd.Prelude.Int.{ℤ}
use modbusd.Env.{Env}
use modbusd.Daemon.{Daemon, ◌>>=◌}
use modbusd.Daemon.Closed.{Closed}
use modbusd.Daemon.Blind.{
  relabelled, Unread, Blind, Mirrors, Mirrors-bind, Mirrors-of_Blind, Blind-Closed,
  set_connected-Blind, mirrors_rules,
}
use modbusd.Key.{Key}
use modbusd.Json.{json_get_char, json_get_int}
use modbusd.Handle.{with_handle, add_handle}
use modbusd.Json.Holds.{json_get_char-Holds, json_get_int-Holds}
use modbusd.Handle.Holds.{lazy_init_mbtcp_handle-Holds}
use modbusd.Command.{mbtcp_set_response_timeout}
use modbusd.Command.Holds.{mbtcp_cmd_hanlder-Holds}
use modbusd.Json.Holds.{parse_block-Holds}
use modbusd.Main.Holds.{tcp_response-Holds}
use modbusd.Api.Implementation.{modbusd_c, handler-Holds}
use modbusd.Main.{
  send_modbus_zmq_resp, tcp_response, handle_request, handle_json, handle_message, serve,
}

module _ (E : Env) where
  send-Mirrors :
      (mode json_resp : CString)
      → Mirrors
          (send_modbus_zmq_resp E true mode json_resp)
          (send_modbus_zmq_resp E false mode json_resp)
  unfolding send_modbus_zmq_resp ◌>>=◌
  send-Mirrors mode json_resp = record { at = λ s l. refl }

  add_handle-Blind : (key : Key) (ctx : E.Ctx) → Blind (add_handle E key ctx)
  unfolding add_handle with_handle ◌>>=◌
  add_handle-Blind key ctx = record { at = λ s l. refl }

  timeout-Blind : (tid timeout : ℤ) → Blind (mbtcp_set_response_timeout E tid timeout)
  unfolding mbtcp_set_response_timeout ◌>>=◌
  timeout-Blind tid timeout = record { at = λ s l. refl }

  closed : Closed (Unread {E = E})
  closed = Blind-Closed E

  tcp_response-Blind :
      (tid : ℤ) (req : Option E.Json) (cmd : CString)
      → Blind (tcp_response (modbusd_c E) tid req cmd)
  tcp_response-Blind =
      let init =
        lazy_init_mbtcp_handle-Holds closed (set_connected-Blind E)
          (λ key _. add_handle-Blind key) in
      tcp_response-Holds closed.plain (modbusd_c E)
        (λ f req.
          mbtcp_cmd_hanlder-Holds closed (set_connected-Blind E) init req _
            (λ p. handler-Holds closed p (set_connected-Blind E p) f req))
        timeout-Blind

  reads_text : (req : Option E.Json) (key : CString) → Blind (json_get_char E req key)
  reads_text = json_get_char-Holds closed.plain

  tid-Mirrors :
      (req : Option E.Json)
      → Mirrors (json_get_int E req (c_str "tid")) (json_get_int E req (c_str "tid"))
  tid-Mirrors req = Mirrors-of_Blind _ (json_get_int-Holds closed.plain req (c_str "tid"))

  handle_request-Mirrors :
      (mode : CString) (tid : ℤ) (req : Option E.Json)
      → Mirrors
          (handle_request (modbusd_c E) true mode tid req)
          (handle_request (modbusd_c E) false mode tid req)
  unfolding handle_request
  handle_request-Mirrors mode tid req =
      search (mirrors_rules, closed.plain, reads_text, tcp_response-Blind, send-Mirrors) depth 12

  handle_json-Mirrors :
      (mode : CString) (req : Option E.Json)
      → Mirrors (handle_json (modbusd_c E) true mode req) (handle_json (modbusd_c E) false mode req)
  unfolding handle_json
  handle_json-Mirrors mode none = Mirrors-bind _ _ _ _ (tid-Mirrors none) λ tid. send-Mirrors mode _
  handle_json-Mirrors mode (some r) =
      Mirrors-bind _ _ _ _ (tid-Mirrors (some r)) λ tid. handle_request-Mirrors mode tid (some r)

  handle_message-Mirrors :
      (frames : List CString)
      → Mirrors
          (handle_message (modbusd_c E) true frames)
          (handle_message (modbusd_c E) false frames)
  unfolding handle_message
  handle_message-Mirrors [] = search (mirrors_rules, closed.plain)
  handle_message-Mirrors (mode ∷ []) = search (mirrors_rules, closed.plain)
  handle_message-Mirrors (mode ∷ text ∷ more) =
      Mirrors-bind _ _ _ _ (Mirrors-of_Blind _ (parse_block-Holds closed.plain _))
        (handle_json-Mirrors mode)

  serve-Mirrors :
      (received : List (Option (List CString)))
      → Mirrors (serve (modbusd_c E) true received) (serve (modbusd_c E) false received)
  unfolding serve
  serve-Mirrors [] = search (mirrors_rules, closed.plain)
  serve-Mirrors (none ∷ rest) = serve-Mirrors rest
  serve-Mirrors (some frames ∷ rest) =
      Mirrors-bind _ _ _ _ (handle_message-Mirrors frames) λ u. serve-Mirrors rest

  -- Without the publisher's socket the loop does, from every state and for every sequence of messages,
  -- what it does with the socket but for what is published: it stops for the same reason, or it returns
  -- in the same state with what had been published before, whatever that is, and nothing more.
  pub serve_silent :
      (received : List (Option (List CString))) (s : Daemon E) (l : List (CString × CString))
      → serve (modbusd_c E) false received (record s { sent = l })
        ≡ relabelled l (serve (modbusd_c E) true received s)
  serve_silent received s l = (serve-Mirrors received).at s l
