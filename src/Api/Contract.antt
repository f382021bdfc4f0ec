-- ===== src/Api/Contract.antt =====
-- What main.c counts on in the operations of modbusd.h: the registry of handles stays sound and only
-- grows, nothing is published, and what is returned is a response.
use modbusd.Prelude.{Option, CString, c_str}
use modbusd.Prelude.Int.{ℤ, IsInt32}
use modbusd.Env.{Env}
use modbusd.Daemon.{Ptr}
use modbusd.Daemon.Exec.{Gives}
use modbusd.Daemon.Moves.{Moves}
use modbusd.Json.Fields.{HasInt}
use modbusd.Response.Readback.{IsReply, Answers}
use modbusd.Handle.Registry.{Grows}
use modbusd.Api.{Modbusd, MbtcpFc, Function, handler}

module _ {E : Env} where
  -- A handler that keeps the registry, and one that answers a request with this number.
  abbrev pub FcGrows : MbtcpFc E → Type 0
  FcGrows fc = (p : Ptr) (req : Option E.Json) → Moves Grows (fc p req)

  abbrev pub FcGives : ℤ → Option E.Json → MbtcpFc E → Type 0
  FcGives tid req fc = (p : Ptr) → Gives (Answers E tid) (fc p req)

  -- The operations that main.c calls keep the registry: the command handler if its handler does.
  pub record KeepsRegistry (api : Modbusd E) : Type 0 where
    pub cmd_grows :
        (req : Option E.Json) (fc : MbtcpFc E)
        → FcGrows fc
        → Moves Grows (api.mbtcp_cmd_hanlder req fc)
    pub timeout_grows : (tid usec : ℤ) → Moves Grows (api.mbtcp_set_response_timeout tid usec)
    pub handler_grows : (f : Function) → FcGrows (handler api f)

  -- The responses that main.c relies on: whatever is returned is a response with the request's number.
  pub record Replies (api : Modbusd E) : Type 0 where
    pub error_reply :
        (tid : ℤ)
        → IsInt32 tid
        → (reason : CString) → IsReply E tid reason (api.modbus_set_error_resp tid reason)
    pub cmd_gives :
        (tid : ℤ)
        → IsInt32 tid
        → (req : Option E.Json) → HasInt E req (c_str "tid") tid
        → (fc : MbtcpFc E) → FcGives tid req fc
        → Gives (Answers E tid) (api.mbtcp_cmd_hanlder req fc)
    pub timeout_gives :
        (tid : ℤ)
        → IsInt32 tid
        → (usec : ℤ) → Gives (IsReply E tid (c_str "ok")) (api.mbtcp_set_response_timeout tid usec)
    pub handler_gives :
        (f : Function) (tid : ℤ)
        → IsInt32 tid
        → (req : Option E.Json) → HasInt E req (c_str "tid") tid
        → FcGives tid req (handler api f)
