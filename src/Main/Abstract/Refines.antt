-- ===== src/Main/Abstract/Refines.antt =====
-- main.c: the loop refines the abstract daemon.
use modbusd.Prelude.{
  ◌≡◌, refl, ap, inl, inr, Option, none, some, List, [], ◌∷◌, ◌++◌, true, false, All, CString,
  c_str, str_eq, str_eq-eq, str_eq-ne, Bool-cases, Option-cases,
}
use modbusd.Prelude.Int.{ℤ, IsInt32}
use modbusd.Env.{Env, parsed}
use modbusd.Env.Laws.{HashLaws, JsonLaws}
use modbusd.Daemon.{Daemon, ◌>>=◌}
use modbusd.Daemon.Exec.{Returned, Returned-mono, Returned-both, Returned-bind}
use modbusd.Json.{json_get_char}
use modbusd.Json.Fields.{HasInt}
use modbusd.Handle.Registry.{IsRegistry}
use modbusd.Handle.Pool.{pool}
use modbusd.Handle.Endpoint.{IsPlain}
use modbusd.Command.{mbtcp_cmd_hanlder}
use modbusd.Api.{Function, name, handler}
use modbusd.Api.Implementation.{modbusd_c, modbusd_c-KeepsRegistry}
use modbusd.Main.{handle_request, handle_message, send_modbus_zmq_resp, serve}
use modbusd.Main.Keeps.{Serves, handle_message-Serves}
use modbusd.Main.Dispatch.{
  IsMessage, to_handle_request, function_message, timeout_message, no_data_stops,
  unsupported_message,
}
use modbusd.Main.Traffic.{IsRequest, Parse-cases}
use modbusd.Main.Faults.{unparsable_stops, no_tid_stops, overrun_stops}
use modbusd.Main.Abstract.Commands.{Command-cases, Requested, command-Requested}
use modbusd.Main.Abstract.{
  view, Step, empty, ignored, wrong_mode, wrong_command, timed, requested, Run, finished, next,
}

-- The address and the port of a message are C strings.
abbrev pub IsPlainMessage : (E : Env) → Option (List CString) → Type 0
IsPlainMessage E (some (mode ∷ text ∷ more)) =
    (req : E.Json) → E.cjson_parse (text ++ 0 ∷ []) ≡ parsed req → IsPlain E (some req)
IsPlainMessage E _ = Unit

-- A message moves the abstract daemon by one step.
abbrev Steps : {E : Env} → CString → CString → List CString → Daemon E → Daemon E → Type 0
Steps {E} mode text more s t = Step E (some (mode ∷ text ∷ more)) (view E s) (view E t)

-- A request of another mode than tcp.
elsewhere-Steps :
    {E : Env} (mode text : CString) (more : List CString) (req : E.Json) (tid : ℤ) (s : Daemon E)
    → IsRequest E text tid
    → (j : E.Json) → E.cjson_get_object_item (some req) (c_str "cmd") ≡ some j
    → str_eq mode (c_str "tcp") ≡ false
    → Returned
        (λ _ t. Steps mode text more s t)
        (handle_request (modbusd_c E) true mode tid (some req) s)
unfolding handle_request json_get_char send_modbus_zmq_resp pool ◌>>=◌
elsewhere-Steps {E} mode text more req tid s r j e f =
    elim (Bool-cases (str_eq mode (c_str "rtu"))) [
      | inl g ↦ rw (e, f, g) (ignored mode text more tid (view E s) (str_eq-eq mode _ g) r)
      | inr g ↦
          rw (e, f, g)
            (wrong_mode mode text more tid (view E s) (str_eq-ne mode _ f) (str_eq-ne mode _ g) r)
    ]

module _ {E : Env} (hash : HashLaws E) (json : JsonLaws E) (text : CString) (more : List CString)
    (req : E.Json) (tid : ℤ) (small : IsInt32 tid) (has_tid : HasInt E (some req) (c_str "tid") tid)
    (plain : IsPlain E (some req)) (s : Daemon E) (registry : IsRegistry s) where
  function-Steps :
      (f : Function)
      → IsMessage E text req tid (name f)
      → Returned
          (λ _ t. Steps (c_str "tcp") text more s t)
          (handle_message (modbusd_c E) true (c_str "tcp" ∷ text ∷ more) s)
  unfolding pool
  function-Steps f m = rw (function_message text more req tid f m s) (
      Returned-bind (Requested hash json (some req) tid small has_tid plain f s registry) _
        (mbtcp_cmd_hanlder E (some req) (handler (modbusd_c E) f) s) _
        (command-Requested hash json (some req) tid small has_tid plain f s registry)
        (λ reply t (ip, port, has_ip, has_port, i, j, touches, answers, timeout, quiet).
          requested (c_str "tcp") text more req tid f ip port reply (view E s) _ refl m has_ip
            has_port i j touches answers timeout (ap (λ l. l ++ (c_str "tcp", reply) ∷ []) quiet)))

  tcp-Steps :
      (cmd : CString)
      → IsMessage E text req tid cmd
      → Returned
          (λ _ t. Steps (c_str "tcp") text more s t)
          (handle_message (modbusd_c E) true (c_str "tcp" ∷ text ∷ more) s)
  unfolding pool
  tcp-Steps cmd m = elim (Command-cases cmd) [
    | inl (f, e) ↦ function-Steps f (rw e at m)
    | inr (inl e) ↦ elim (Option-cases (E.cjson_get_object_item (some req) (c_str "data"))) [
      | inl missing ↦ rw (no_data_stops text more req tid cmd m s e missing) tt
      | inr (d, there) ↦
          rw (timeout_message text more req tid cmd m s (E.valueint d) e (d, there, refl)) (
            timed (c_str "tcp") text more req tid (E.valueint d) (view E s) refl (rw e at m)
              (d, there, refl))
    ]
    | inr (inr (n, k)) ↦
        rw (unsupported_message text more req tid cmd m s n k)
          (wrong_command (c_str "tcp") text more req tid cmd (view E s) refl m n k)
  ]

module _ {E : Env} (hash : HashLaws E) (json : JsonLaws E) where
  -- An object with a number: its mode and its command decide.
  object-Steps :
      (mode text : CString) (more : List CString) (req : E.Json) (tid : ℤ)
      → IsInt32 tid
      → E.cjson_parse (text ++ 0 ∷ []) ≡ parsed req
      → HasInt E (some req) (c_str "tid") tid
      → IsPlain E (some req)
      → (s : Daemon E) → IsRegistry s
      → Returned
          (λ _ t. Steps mode text more s t)
          (handle_message (modbusd_c E) true (mode ∷ text ∷ more) s)
  unfolding handle_request json_get_char ◌>>=◌
  object-Steps mode text more req tid small parses has_tid plain s registry =
      elim (Option-cases (E.cjson_get_object_item (some req) (c_str "cmd"))) [
        | inl e ↦ rw (to_handle_request mode text more req tid parses has_tid s) (rw e tt)
        | inr (j, e) ↦ elim (Bool-cases (str_eq mode (c_str "tcp"))) [
          | inr f ↦
              rw (to_handle_request mode text more req tid parses has_tid s)
                (elsewhere-Steps mode text more req tid s (req, parses, has_tid) j e f)
          | inl f ↦ elim (Option-cases (E.valuestring j)) [
            | inl v ↦
                rw (to_handle_request mode text more req tid parses has_tid s) (rw (e, f, v) tt)
            | inr (cmd, v) ↦
                let m : IsMessage E text req tid cmd = record {
                  parses = parses;
                  has_tid = has_tid;
                  has_cmd = (j, e, v);
                } in
                rw (str_eq-eq mode _ f)
                  (tcp-Steps hash json text more req tid small has_tid plain s registry cmd m)
          ]
        ]
      ]

  handle_message-Steps :
      (mode text : CString) (more : List CString)
      → IsPlainMessage E (some (mode ∷ text ∷ more))
      → (s : Daemon E) → IsRegistry s
      → Returned
          (λ _ t. Steps mode text more s t)
          (handle_message (modbusd_c E) true (mode ∷ text ∷ more) s)
  handle_message-Steps mode text more plain s registry =
      elim (Parse-cases (E.cjson_parse (text ++ 0 ∷ []))) [
        | inl (req, e) ↦ elim (Option-cases (E.cjson_get_object_item (some req) (c_str "tid"))) [
          | inl missing ↦ rw (no_tid_stops true mode text more s req e missing) tt
          | inr (j, there) ↦
              object-Steps mode text more req (E.valueint j) (json.valueint-IsInt32 j) e
                (j, there, refl) (plain req e) s registry
        ]
        | inr (inl e) ↦ rw (unparsable_stops true mode text more s json e) tt
        | inr (inr e) ↦ rw (overrun_stops true mode text more s e) tt
      ]

  -- From a state with a sound registry, for every sequence of messages whose addresses and ports are
  -- C strings and that the loop gets through: the loop refines the abstract daemon, which makes one
  -- step for each receive on its pool of endpoints, its timeout and what it publishes.
  pub serve-Run :
      (received : List (Option (List CString))) (s : Daemon E)
      → All (IsPlainMessage E) received
      → IsRegistry s
      → Returned (λ _ t. Run E received (view E s) (view E t)) (serve (modbusd_c E) true received s)
  unfolding serve handle_message ◌>>=◌
  serve-Run [] s plain registry = finished (view E s)
  serve-Run (none ∷ rest) s (p, plain) registry =
      Returned-mono (λ _ t. Run E rest (view E s) (view E t)) _ (serve (modbusd_c E) true rest s)
        (λ _ t run. next none rest (view E s) (view E s) (view E t) (empty (view E s)) run)
        (serve-Run rest s plain registry)
  serve-Run (some [] ∷ rest) s plain registry = tt
  serve-Run (some (mode ∷ []) ∷ rest) s plain registry = tt
  serve-Run (some (mode ∷ text ∷ more) ∷ rest) s (p, plain) registry =
      let message = handle_message (modbusd_c E) true (mode ∷ text ∷ more) s in
      Returned-bind (λ _ t. Steps mode text more s t × Serves s t) _ message
        (λ _. serve (modbusd_c E) true rest)
        (Returned-both (λ _ t. Steps mode text more s t) (λ _ t. Serves s t) message
          (handle_message-Steps mode text more p s registry)
          ((handle_message-Serves (modbusd_c E) (modbusd_c-KeepsRegistry hash) true
              (mode ∷ text ∷ more)).at
            s))
        (λ _ t (step, serves).
          Returned-mono (λ _ u. Run E rest (view E t) (view E u)) _
            (serve (modbusd_c E) true rest t)
            (λ _ u run.
              next (some (mode ∷ text ∷ more)) rest (view E s) (view E t) (view E u) step run)
            (serve-Run rest t plain (serves.registry registry)))
