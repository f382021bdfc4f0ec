-- ===== src/Main/Part.antt =====
-- main.c, `send_modbus_zmq_resp` and the dispatch by mode and command: what one request publishes.
use modbusd.Prelude.{
  ◌≡◌, refl, ap, inl, inr, Option, [], ◌∷◌, ◌++◌, true, CString, c_str, str_eq, str_eq-eq,
  Bool-cases, Option-cases, if◌then◌else◌,
}
use modbusd.Prelude.Int.{ℤ, IsInt32}
use modbusd.Env.{Env}
use modbusd.Daemon.{Daemon, ◌>>=◌}
use modbusd.Daemon.Exec.{Returned, Returned-mono, Returned-both, Returned-bind, Gives, gives_rules}
use modbusd.Json.{json_get_char}
use modbusd.Json.Fields.{HasInt}
use modbusd.Response.Readback.{Answers, IsReply}
use modbusd.Handle.Registry.{Grows}
use modbusd.Api.{Modbusd, fc1, fc2, fc3, fc4, fc5, fc6, fc15, fc16}
use modbusd.Api.Contract.{FcGives, KeepsRegistry, Replies}
use modbusd.Main.{send_modbus_zmq_resp, tcp_response, handle_request}
use modbusd.Main.Keeps.{tcp_response-Grows}

module _ {E : Env} where
  -- One response of this transaction is published, under this mode, behind the earlier ones.
  abbrev pub Publishes : CString → ℤ → Daemon E → Daemon E → Type 0
  Publishes mode tid s t =
      (text : CString) × (t.sent ≡ s.sent ++ (mode, text) ∷ []) × Answers E tid text

  -- A message's part in the traffic: nothing for the mode rtu, else one response.
  abbrev pub Part : CString → ℤ → Daemon E → Daemon E → Type 0
  Part mode tid s t = if str_eq mode (c_str "rtu") then t.sent ≡ s.sent else Publishes mode tid s t

module _ {E : Env} (api : Modbusd E) (keeps : KeepsRegistry api) (laws : Replies api) (tid : ℤ)
    (small : IsInt32 tid) (req : Option E.Json) (has_tid : HasInt E req (c_str "tid") tid) where
  timeout-Gives : (v : ℤ) → Gives (Answers E tid) (api.mbtcp_set_response_timeout tid v)
  timeout-Gives v = record {
    at = λ s.
        Returned-mono (λ r _. IsReply E tid (c_str "ok") r) _
          (api.mbtcp_set_response_timeout tid v s) (λ r _ h. (c_str "ok", h))
          ((laws.timeout_gives tid small v).at s);
  }

  error-Reply : (reason : CString) → Answers E tid (api.modbus_set_error_resp tid reason)
  error-Reply reason = (reason, laws.error_reply tid small reason)

  tcp_response-Gives : (cmd : CString) → Gives (Answers E tid) (tcp_response api tid req cmd)
  unfolding tcp_response
  tcp_response-Gives cmd =
      let by = laws.cmd_gives tid small req has_tid in
      let f1 : FcGives tid req api.mbtcp_fc1_req = laws.handler_gives fc1 tid small req has_tid in
      let f2 : FcGives tid req api.mbtcp_fc2_req = laws.handler_gives fc2 tid small req has_tid in
      let f3 : FcGives tid req api.mbtcp_fc3_req = laws.handler_gives fc3 tid small req has_tid in
      let f4 : FcGives tid req api.mbtcp_fc4_req = laws.handler_gives fc4 tid small req has_tid in
      let f5 : FcGives tid req api.mbtcp_fc5_req = laws.handler_gives fc5 tid small req has_tid in
      let f6 : FcGives tid req api.mbtcp_fc6_req = laws.handler_gives fc6 tid small req has_tid in
      let f15 : FcGives tid req api.mbtcp_fc15_req =
        laws.handler_gives fc15 tid small req has_tid in
      let f16 : FcGives tid req api.mbtcp_fc16_req =
        laws.handler_gives fc16 tid small req has_tid in
      search (by, gives_rules, timeout-Gives, f1, f2, f3, f4, f5, f6, f15, f16, error-Reply) depth
        15

  -- The response is made without publishing anything.
  tcp_response-at :
      (cmd : CString) (s : Daemon E)
      → Returned (λ text t. (t.sent ≡ s.sent) × Answers E tid text) (tcp_response api tid req cmd s)
  tcp_response-at cmd s =
      Returned-both (λ _ t. t.sent ≡ s.sent) (λ text _. Answers E tid text) _
        (Returned-mono (λ _ t. Grows s t) _ (tcp_response api tid req cmd s) (λ _ t g. g.quiet)
          ((tcp_response-Grows api keeps tid req cmd).at s))
        ((tcp_response-Gives cmd).at s)

  send-Publishes :
      (mode text : CString) (s t : Daemon E)
      → t.sent ≡ s.sent
      → Answers E tid text
      → Returned (λ _ u. Publishes mode tid s u) (send_modbus_zmq_resp E true mode text t)
  unfolding send_modbus_zmq_resp ◌>>=◌
  send-Publishes mode text s t e h = (text, ap (λ l. l ++ (mode, text) ∷ []) e, h)

  tcp-Part :
      (mode : CString) (s t : Daemon E)
      → str_eq mode (c_str "tcp") ≡ true
      → Publishes mode tid s t
      → Part mode tid s t
  tcp-Part mode s t e h = let is_tcp = str_eq-eq mode (c_str "tcp") e in rw is_tcp (rw is_tcp at h)

  pub handle_request-Part :
      (mode : CString) (s : Daemon E)
      → Returned (λ _ t. Part mode tid s t) (handle_request api true mode tid req s)
  unfolding handle_request json_get_char ◌>>=◌
  handle_request-Part mode s = elim (Option-cases (E.cjson_get_object_item req (c_str "cmd"))) [
    | inl e ↦ rw e tt
    | inr (j, e) ↦ elim (Bool-cases (str_eq mode (c_str "tcp"))) [
      | inr f ↦ elim (Bool-cases (str_eq mode (c_str "rtu"))) [
        | inl g ↦ rw (e, f, g) refl
        | inr g ↦ rw (e, f, g) (send-Publishes mode _ s s refl (error-Reply _))
      ]
      | inl f ↦ elim (Option-cases (E.valuestring j)) [
        | inl g ↦ rw (e, f, g) tt
        | inr (cmd, g) ↦
            rw (e, f, g)
              (Returned-bind (λ text t. (t.sent ≡ s.sent) × Answers E tid text) _
                (tcp_response api tid req cmd s) _ (tcp_response-at cmd s)
                (λ text t h.
                  Returned-mono (λ _ u. Publishes mode tid s u) _ _ (λ _ u. tcp-Part mode s u f)
                    (send-Publishes mode text s t h.0 h.1)))
      ]
    ]
  ]
