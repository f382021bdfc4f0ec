-- ===== src/Main/Dispatch.antt =====
-- main.c, the loop's body: which response a well formed message gets, by its mode and its command.
use modbusd.Prelude.{
  ◌≡◌, ◌≢◌, ◌∙◌, inl, inr, none, some, List, [], ◌∷◌, ◌++◌, true, CString, c_str, str_eq, str_eq-eq,
  str_eq_of_ne, Bool-cases,
}
use modbusd.Prelude.Int.{ℤ, to_unsigned}
use modbusd.Env.{Env, parsed}
use modbusd.Daemon.{Daemon, ok, stop, null_pointer, and_then, ◌>>=◌}
use modbusd.Json.{parse_block}
use modbusd.Json.Fields.{
  HasInt, HasText, json_get_int-HasInt, json_get_int-missing, json_get_char-HasText,
}
use modbusd.Response.{modbus_set_error_resp, set_modbus_no_data_ok_resp}
use modbusd.Api.{Function, fc1, fc2, fc3, fc4, fc5, fc6, fc15, fc16, name, handler}
use modbusd.Api.Implementation.{modbusd_c}
use modbusd.Command.{uint32_mod, mbtcp_cmd_hanlder, mbtcp_set_response_timeout}
use modbusd.Main.{send_modbus_zmq_resp, tcp_response, handle_request, handle_json, handle_message}

module _ (E : Env) where
  -- The daemon after a response in this mode.
  abbrev pub published : CString → CString → Daemon E → Daemon E
  published mode resp t = record t { sent = t.sent ++ (mode, resp) ∷ [] }

  -- The text of a message: a request with a number and a command.
  pub record IsMessage (text : CString) (req : E.Json) (tid : ℤ) (cmd : CString) : Type 0 where
    pub parses : E.cjson_parse (text ++ 0 ∷ []) ≡ parsed req
    pub has_tid : HasInt E (some req) (c_str "tid") tid
    pub has_cmd : HasText E (some req) (c_str "cmd") cmd

-- A text that is an object with a number is handled as a request.
pub to_handle_request :
    {E : Env} (mode text : CString) (more : List CString) (req : E.Json) (tid : ℤ)
    → E.cjson_parse (text ++ 0 ∷ []) ≡ parsed req
    → HasInt E (some req) (c_str "tid") tid
    → (s : Daemon E)
    → handle_message (modbusd_c E) true (mode ∷ text ∷ more) s
      ≡ handle_request (modbusd_c E) true mode tid (some req) s
unfolding handle_message handle_json parse_block ◌>>=◌
to_handle_request {E} mode text more req tid parses has_tid s =
    rw (parses, parse_block) (rw (json_get_int-HasInt E (some req) (c_str "tid") tid has_tid s))

module _ {E : Env} (text : CString) (more : List CString) (req : E.Json) (tid : ℤ) (cmd : CString)
    (m : IsMessage E text req tid cmd) (s : Daemon E) where
  to_request :
      (mode : CString)
      → handle_message (modbusd_c E) true (mode ∷ text ∷ more) s
        ≡ handle_request (modbusd_c E) true mode tid (some req) s
  to_request mode = to_handle_request mode text more req tid m.parses m.has_tid s

  to_tcp :
      handle_message (modbusd_c E) true (c_str "tcp" ∷ text ∷ more) s
      ≡ and_then
          (tcp_response (modbusd_c E) tid (some req) cmd s)
          (send_modbus_zmq_resp E true (c_str "tcp"))
  unfolding handle_request ◌>>=◌
  to_tcp =
      to_request (c_str "tcp")
      ∙ rw (json_get_char-HasText E (some req) (c_str "cmd") cmd m.has_cmd s)

  -- A message for a mode other than tcp gets its answer whatever its command: none for rtu, an error
  -- response for every other mode. Only the published messages change.
  pub other_modes :
      (mode : CString)
      → mode ≢ c_str "tcp"
      → (mode ≡ c_str "rtu" → handle_message (modbusd_c E) true (mode ∷ text ∷ more) s ≡ ok (tt, s))
        × (mode ≢ c_str "rtu"
            → handle_message (modbusd_c E) true (mode ∷ text ∷ more) s
              ≡ ok (tt, published E mode (modbus_set_error_resp E tid (c_str "unsupport mode")) s))
  unfolding handle_request send_modbus_zmq_resp ◌>>=◌
  other_modes mode n =
      let no = json_get_char-HasText E (some req) (c_str "cmd") cmd m.has_cmd s in
      elim (Bool-cases (str_eq mode (c_str "tcp"))) [
        | inl e ↦ absurd (n (str_eq-eq mode _ e))
        | inr e ↦ (
          λ i. to_request mode ∙ rw (no, i),
          λ k. elim (Bool-cases (str_eq mode (c_str "rtu"))) [
            | inl f ↦ absurd (k (str_eq-eq mode _ f))
            | inr f ↦ to_request mode ∙ rw (no, e, f)
          ],
        )
      ]

  -- The command "timeout" in the mode tcp with a number as its data: the variable gets the number
  -- modulo 2^32, and the answer is "ok".
  pub timeout_message :
      (usec : ℤ)
      → cmd ≡ c_str "timeout"
      → HasInt E (some req) (c_str "data") usec
      → handle_message (modbusd_c E) true (c_str "tcp" ∷ text ∷ more) s
        ≡ ok (
          tt,
          published E
              (c_str "tcp")
              (set_modbus_no_data_ok_resp E tid)
              (record s { tcp_conn_timeout_usec = to_unsigned uint32_mod usec }),
        )
  unfolding tcp_response send_modbus_zmq_resp mbtcp_set_response_timeout ◌>>=◌
  timeout_message usec e has_data =
      to_tcp ∙ rw (e, json_get_int-HasInt E (some req) (c_str "data") usec has_data s)

  -- With no member "data" the command "timeout" dereferences NULL.
  pub no_data_stops :
      cmd ≡ c_str "timeout"
      → E.cjson_get_object_item (some req) (c_str "data") ≡ none
      → handle_message (modbusd_c E) true (c_str "tcp" ∷ text ∷ more) s ≡ stop null_pointer
  unfolding tcp_response ◌>>=◌
  no_data_stops e missing =
      to_tcp ∙ rw (e, json_get_int-missing E (some req) (c_str "data") missing s)

  -- A command of the mode tcp that is neither a function code's nor "timeout" is answered by an error
  -- response, and only the published messages change.
  pub unsupported_message :
      ((f : Function) → cmd ≢ name f)
      → cmd ≢ c_str "timeout"
      → handle_message (modbusd_c E) true (c_str "tcp" ∷ text ∷ more) s
        ≡ ok (
          tt,
          published E (c_str "tcp") (modbus_set_error_resp E tid (c_str "unsupport request")) s,
        )
  unfolding tcp_response send_modbus_zmq_resp ◌>>=◌
  unsupported_message n k =
      to_tcp
      ∙ rw (
        str_eq_of_ne cmd (c_str "fc1") (n fc1),
        str_eq_of_ne cmd (c_str "fc2") (n fc2),
        str_eq_of_ne cmd (c_str "fc3") (n fc3),
        str_eq_of_ne cmd (c_str "fc4") (n fc4),
        str_eq_of_ne cmd (c_str "fc5") (n fc5),
        str_eq_of_ne cmd (c_str "fc6") (n fc6),
        str_eq_of_ne cmd (c_str "fc15") (n fc15),
        str_eq_of_ne cmd (c_str "fc16") (n fc16),
        str_eq_of_ne cmd (c_str "timeout") k,
      )

-- The command of a function code in the mode tcp runs that function code's handler, and publishes
-- under tcp what it answers; if the command stops, so does the message.
pub function_message :
    {E : Env} (text : CString) (more : List CString) (req : E.Json) (tid : ℤ) (f : Function)
    (m : IsMessage E text req tid (name f)) (s : Daemon E)
    → handle_message (modbusd_c E) true (c_str "tcp" ∷ text ∷ more) s
      ≡ and_then
          (mbtcp_cmd_hanlder E (some req) (handler (modbusd_c E) f) s)
          (λ resp t. ok (tt, published E (c_str "tcp") resp t))
unfolding tcp_response send_modbus_zmq_resp ◌>>=◌
function_message text more req tid fc1 m s = to_tcp text more req tid (name fc1) m s
function_message text more req tid fc2 m s = to_tcp text more req tid (name fc2) m s
function_message text more req tid fc3 m s = to_tcp text more req tid (name fc3) m s
function_message text more req tid fc4 m s = to_tcp text more req tid (name fc4) m s
function_message text more req tid fc5 m s = to_tcp text more req tid (name fc5) m s
function_message text more req tid fc6 m s = to_tcp text more req tid (name fc6) m s
function_message text more req tid fc15 m s = to_tcp text more req tid (name fc15) m s
function_message text more req tid fc16 m s = to_tcp text more req tid (name fc16) m s
