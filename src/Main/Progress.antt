-- ===== src/Main/Progress.antt =====
-- The loop gets through every sequence of well formed messages.
use modbusd.Prelude.{
  ◌≡◌, ◌≢◌, refl, ap, ◌∙◌, inl, inr, Option, none, some, List, [], ◌∷◌, ◌++◌, true, arith, CString,
  c_str, str_eq, str_eq-eq, Bool-cases, All,
}
use modbusd.Prelude.Int.{ℤ}
use modbusd.Env.{Env}
use modbusd.Env.Laws.{HashLaws, ModbusLaws, JsonLaws}
use modbusd.Daemon.{Daemon, ok, ◌>>=◌}
use modbusd.Json.Fields.{HasInt}
use modbusd.Handle.Registry.{IsRegistry}
use modbusd.Request.Total.{
  HasMemory, Total, ReadArguments, WriteArguments, MultiArguments, read_bit-Total, read_reg-Total,
  single_write-Total, multi_write-Total,
}
use modbusd.Command.{
  mbtcp_fc1_req, mbtcp_fc2_req, mbtcp_fc3_req, mbtcp_fc4_req, mbtcp_fc5_req, mbtcp_fc6_req,
  mbtcp_fc15_req, mbtcp_fc16_req,
}
use modbusd.Command.Connection.{IsCommand}
use modbusd.Command.Progress.{command_returns}
use modbusd.Main.{handle_message, serve}
use modbusd.Main.Keeps.{Serves, handle_message-Serves}
use modbusd.Main.Traffic.{Traffic, serve-Traffic}
use modbusd.Api.{Function, fc1, fc2, fc3, fc4, fc5, fc6, fc15, fc16, name, handler}
use modbusd.Api.Implementation.{modbusd_c, modbusd_c-KeepsRegistry}
use modbusd.Main.Dispatch.{
  published, IsMessage, other_modes, timeout_message, unsupported_message, function_message,
}

module _ (E : Env) where
  -- The arguments that a function code needs.
  abbrev pub HasArguments : Function → Option E.Json → Type 0
  HasArguments fc1 req = ReadArguments E 2000 req
  HasArguments fc2 req = ReadArguments E 2000 req
  HasArguments fc3 req = ReadArguments E 125 req
  HasArguments fc4 req = ReadArguments E 125 req
  HasArguments fc5 req = WriteArguments E req
  HasArguments fc6 req = WriteArguments E req
  HasArguments fc15 req = MultiArguments E req
  HasArguments fc16 req = MultiArguments E req

  -- A receive that the daemon can serve: an empty one; a message for another mode than tcp; the
  -- timeout with its number; a command that is not known; a function code with an endpoint that a key
  -- can hold and its arguments.
  pub data IsServable : Option (List CString) → Type 0 where
    empty : IsServable none
    elsewhere :
        (mode text : CString) (more : List CString) (req : E.Json) (tid : ℤ) (cmd : CString)
        → IsMessage E text req tid cmd
        → mode ≢ c_str "tcp"
        → IsServable (some (mode ∷ text ∷ more))
    timeout :
        (text : CString) (more : List CString) (req : E.Json) (tid usec : ℤ)
        → IsMessage E text req tid (c_str "timeout")
        → HasInt E (some req) (c_str "data") usec
        → IsServable (some (c_str "tcp" ∷ text ∷ more))
    unknown :
        (text : CString) (more : List CString) (req : E.Json) (tid : ℤ) (cmd : CString)
        → IsMessage E text req tid cmd
        → ((f : Function) → cmd ≢ name f)
        → cmd ≢ c_str "timeout"
        → IsServable (some (c_str "tcp" ∷ text ∷ more))
    function :
        (f : Function) (text : CString) (more : List CString) (req : E.Json) (tid slave : ℤ)
        (ip port : CString)
        → IsMessage E text req tid (name f)
        → IsCommand E (some req) tid slave ip port
        → HasArguments f (some req)
        → IsServable (some (c_str "tcp" ∷ text ∷ more))

module _ {E : Env} (hash : HashLaws E) (modbus : ModbusLaws E) (json : JsonLaws E)
    (memory : HasMemory E) where
  pub handler-Total :
      (f : Function) (req : Option E.Json) (tid : ℤ)
      → HasInt E req (c_str "tid") tid
      → HasArguments E f req
      → Total E (handler (modbusd_c E) f) req
  unfolding mbtcp_fc1_req mbtcp_fc2_req mbtcp_fc3_req mbtcp_fc4_req mbtcp_fc5_req mbtcp_fc6_req
      mbtcp_fc15_req mbtcp_fc16_req
  handler-Total fc1 req tid h a = read_bit-Total req tid h modbus 1 E.modbus_read_bits refl a
  handler-Total fc2 req tid h a = read_bit-Total req tid h modbus 2 E.modbus_read_input_bits refl a
  handler-Total fc3 req tid h a = read_reg-Total req tid h modbus 3 E.modbus_read_registers refl a
  handler-Total fc4 req tid h a =
      read_reg-Total req tid h modbus 4 E.modbus_read_input_registers refl a
  handler-Total fc5 req tid h a = (single_write-Total req tid h a).0
  handler-Total fc6 req tid h a = (single_write-Total req tid h a).1
  handler-Total fc15 req tid h a = (multi_write-Total req tid h json memory a).0
  handler-Total fc16 req tid h a = (multi_write-Total req tid h json memory a).1

  message_returns :
      (frames : List CString) (s : Daemon E)
      → IsRegistry s
      → IsServable E (some frames)
      → (t : Daemon E) × (handle_message (modbusd_c E) true frames s ≡ ok (tt, t))
  message_returns frames s r (elsewhere mode text more req tid cmd m n) =
      elim (Bool-cases (str_eq mode (c_str "rtu"))) [
        | inl e ↦
            (_, (other_modes text more req tid cmd m s mode n).0 (str_eq-eq mode (c_str "rtu") e))
        | inr e ↦ (
          _,
          (other_modes text more req tid cmd m s mode n).1
              (λ i. ground (arith, ap (λ x. str_eq x (c_str "rtu")) i)),
        )
      ]
  message_returns frames s r (timeout text more req tid usec m has_data) =
      (_, timeout_message text more req tid (c_str "timeout") m s usec refl has_data)
  message_returns frames s r (unknown text more req tid cmd m n k) =
      (_, unsupported_message text more req tid cmd m s n k)
  message_returns frames s r (function f text more req tid slave ip port m c a) =
      let ((resp, t), e) =
        command_returns memory (some req) tid slave ip port c (handler (modbusd_c E) f)
          (handler-Total f (some req) tid c.has_tid a) s r in
      (published E (c_str "tcp") resp t, function_message text more req tid f m s ∙ rw e)

  -- The loop returns on every sequence of receives that the daemon can serve, from every state with
  -- a sound registry, if memory is never short: it reaches no fault, whatever the slaves do.
  serve_returns :
      (received : List (Option (List CString))) (s : Daemon E)
      → IsRegistry s
      → All (IsServable E) received
      → (t : Daemon E) × (serve (modbusd_c E) true received s ≡ ok (tt, t))
  unfolding serve ◌>>=◌
  serve_returns [] s r servable = (s, refl)
  serve_returns (none ∷ rest) s r (_, servable) = serve_returns rest s r servable
  serve_returns (some frames ∷ rest) s r (here, servable) =
      let (t, e) = message_returns frames s r here in
      let served : Serves s t =
        rw e at
          ((handle_message-Serves (modbusd_c E) (modbusd_c-KeepsRegistry hash) true frames).at s) in
      let (u, f) = serve_returns rest t (served.registry r) servable in (u, rw e f)

  -- From a state with a sound registry, with memory that is never short, and on every sequence of
  -- receives that the daemon can serve, the loop returns, and what it publishes is the traffic of the
  -- messages: one response for each message but those for the mode rtu, in the messages' order, under
  -- the message's mode and with its number.
  pub serve_answers :
      (received : List (Option (List CString))) (s : Daemon E)
      → IsRegistry s
      → All (IsServable E) received
      → (t : Daemon E) × (out : List (CString × CString)) × (serve (modbusd_c E) true received s
          ≡ ok (tt, t))
        × (t.sent ≡ s.sent ++ out)
        × Traffic E received out
  serve_answers received s r servable =
      let (t, e) = serve_returns received s r servable in
      let (out, sent, traffic) : (out : List (CString × CString)) × (t.sent ≡ s.sent ++ out)
          × Traffic E received out =
        rw e at (serve-Traffic hash json received s) in
      (t, out, e, sent, traffic)
