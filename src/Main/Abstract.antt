-- ===== src/Main/Abstract.antt =====
-- main.c: an abstract daemon, which the loop refines. Its state is the pool of endpoints, the timeout
-- for new ones and what is published; it has no addresses, bytes, hash table or libraries' states.
pub mod Commands
pub mod Refines
pub mod Runs
pub mod Loop
pub mod Whole
use modbusd.Prelude.{ℕ, ◌≡◌, ◌≢◌, Option, none, some, List, [], ◌∷◌, ◌++◌, CString, c_str}
use modbusd.Prelude.Int.{ℤ, to_unsigned}
use modbusd.Env.{Env}
use modbusd.Key.Layout.{IsField}
use modbusd.Daemon.{Daemon}
use modbusd.Json.Fields.{HasInt, HasText}
use modbusd.Response.{modbus_set_error_resp, set_modbus_no_data_ok_resp}
use modbusd.Response.Readback.{Answers}
use modbusd.Handle.Pool.{Pool, Status, pool}
use modbusd.Command.{uint32_mod}
use modbusd.Api.{Function, name}
use modbusd.Api.Isolation.Touches.{Touches}
use modbusd.Main.Dispatch.{IsMessage}
use modbusd.Main.Traffic.{IsRequest}

module _ (E : Env) where
  pub record View : Type 0 where
    pub endpoints : Pool (Status E)
    pub timeout : ℕ
    pub published : List (CString × CString)

  abbrev pub view : Daemon E → View
  view s = record { endpoints = pool s; timeout = s.tcp_conn_timeout_usec; published = s.sent }

  -- One more response, under this mode.
  abbrev pub answer : View → CString → CString → View
  answer v mode reply = record v { published = v.published ++ (mode, reply) ∷ [] }

  -- What the abstract daemon does on one receive.
  pub data Step : Option (List CString) → View → View → Type 0 where
    -- Nothing was received.
    empty : (v : View) → Step none v v
    -- The mode rtu is not served.
    ignored :
        (mode text : CString) (more : List CString) (tid : ℤ) (v : View)
        → mode ≡ c_str "rtu"
        → IsRequest E text tid
        → Step (some (mode ∷ text ∷ more)) v v
    wrong_mode :
        (mode text : CString) (more : List CString) (tid : ℤ) (v : View)
        → mode ≢ c_str "tcp"
        → mode ≢ c_str "rtu"
        → IsRequest E text tid
        → Step
            (some (mode ∷ text ∷ more))
            v
            (answer v mode (modbus_set_error_resp E tid (c_str "unsupport mode")))
    wrong_command :
        (mode text : CString) (more : List CString) (req : E.Json) (tid : ℤ) (cmd : CString)
        (v : View)
        → mode ≡ c_str "tcp"
        → IsMessage E text req tid cmd
        → ((f : Function) → cmd ≢ name f)
        → cmd ≢ c_str "timeout"
        → Step
            (some (mode ∷ text ∷ more))
            v
            (answer v mode (modbus_set_error_resp E tid (c_str "unsupport request")))
    -- The timeout for the endpoints that are opened from now on.
    timed :
        (mode text : CString) (more : List CString) (req : E.Json) (tid usec : ℤ) (v : View)
        → mode ≡ c_str "tcp"
        → IsMessage E text req tid (c_str "timeout")
        → HasInt E (some req) (c_str "data") usec
        → Step
            (some (mode ∷ text ∷ more))
            v
            (record (answer v mode (set_modbus_no_data_ok_resp E tid)) {
              timeout = to_unsigned uint32_mod usec;
            })
    -- A request to an endpoint: one response with its number.
    requested :
        (mode text : CString) (more : List CString) (req : E.Json) (tid : ℤ) (f : Function)
        (ip port reply : CString) (v v' : View)
        → mode ≡ c_str "tcp"
        → IsMessage E text req tid (name f)
        → HasText E (some req) (c_str "ip") ip
        → HasText E (some req) (c_str "port") port
        → IsField ip
        → IsField port
        → Touches E tid ip port v.endpoints v'.endpoints reply
        → Answers E tid reply
        → v'.timeout ≡ v.timeout
        → v'.published ≡ v.published ++ (mode, reply) ∷ []
        → Step (some (mode ∷ text ∷ more)) v v'

  -- A run of the abstract daemon: one step for each receive.
  pub data Run : List (Option (List CString)) → View → View → Type 0 where
    finished : (v : View) → Run [] v v
    next :
        (message : Option (List CString)) (rest : List (Option (List CString))) (v v' v'' : View)
        → Step message v v'
        → Run rest v' v''
        → Run (message ∷ rest) v v''
