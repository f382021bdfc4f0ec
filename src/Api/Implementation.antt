-- ===== src/Api/Implementation.antt =====
-- modbusd.c as an implementation of modbusd.h.
use modbusd.Prelude.{ℕ, ◌≡◌, Option, none, some, Bool, arith, c_str, get_elem?}
use modbusd.Prelude.Int.{ℤ, IsInt32}
use modbusd.Env.{Env}
use modbusd.Env.Laws.{HashLaws, JsonLaws}
use modbusd.Daemon.{Daemon, Ptr, stop, null_pointer, load, set_connected}
use modbusd.Daemon.Moves.{Moves-Closed}
use modbusd.Daemon.Closed.{Property, Closed, Holds}
use modbusd.Json.Fields.{HasInt}
use modbusd.Response.{modbus_set_error_resp}
use modbusd.Response.Readback.{modbus_set_error_resp-IsReply}
use modbusd.Handle.{
  mbtcp_init_handle, mbtcp_get_handle, mbtcp_list_handles, mbtcp_do_connect,
  mbtcp_get_connection_status,
}
use modbusd.Handle.Registry.{Grows-Neutral}
use modbusd.Handle.Keeps.{set_connected-Grows}
use modbusd.Command.{
  mbtcp_cmd_hanlder, mbtcp_set_response_timeout, mbtcp_fc1_req, mbtcp_fc2_req, mbtcp_fc3_req,
  mbtcp_fc4_req, mbtcp_fc5_req, mbtcp_fc6_req, mbtcp_fc15_req, mbtcp_fc16_req,
}
use modbusd.Command.Holds.{
  fc1-Holds, fc2-Holds, fc3-Holds, fc4-Holds, fc5-Holds, fc6-Holds, fc15-Holds, fc16-Holds,
}
use modbusd.Command.Keeps.{mbtcp_cmd_hanlder-Grows, mbtcp_set_response_timeout-Grows}
use modbusd.Command.Replies.{cmd_hanlder-Gives, fcs-Gives, mbtcp_set_response_timeout-Gives}
use modbusd.Api.{Modbusd, Function, fc1, fc2, fc3, fc4, fc5, fc6, fc15, fc16, handler}
use modbusd.Api.Contract.{Replies, KeepsRegistry, FcGrows, FcGives}

abbrev pub modbusd_c : (E : Env) → Modbusd E
modbusd_c E = record {
  modbus_set_error_resp = modbus_set_error_resp E;
  mbtcp_init_handle = mbtcp_init_handle E;
  mbtcp_get_handle = mbtcp_get_handle E;
  mbtcp_list_handles = mbtcp_list_handles E;
  mbtcp_do_connect = mbtcp_do_connect E;
  mbtcp_get_connection_status = mbtcp_get_connection_status E;
  mbtcp_cmd_hanlder = mbtcp_cmd_hanlder E;
  mbtcp_set_response_timeout = mbtcp_set_response_timeout E;
  mbtcp_fc1_req = mbtcp_fc1_req E;
  mbtcp_fc2_req = mbtcp_fc2_req E;
  mbtcp_fc3_req = mbtcp_fc3_req E;
  mbtcp_fc4_req = mbtcp_fc4_req E;
  mbtcp_fc5_req = mbtcp_fc5_req E;
  mbtcp_fc6_req = mbtcp_fc6_req E;
  mbtcp_fc15_req = mbtcp_fc15_req E;
  mbtcp_fc16_req = mbtcp_fc16_req E;
}

pub load_missing :
    {E : Env} (s : Daemon E) (p : ℕ)
    → get_elem? s.handles p ≡ none
    → load E (some p) s ≡ stop null_pointer
unfolding load
load_missing s p e = ground arith

-- A property of setting its handle's flag is one of each of the eight handlers.
module _ {E : Env} {P : Property E} (closed : Closed P) (p : Ptr)
    (sets : (b : Bool) → Holds P (set_connected E p b)) where
  pub handler-Holds : (f : Function) (req : Option E.Json) → Holds P (handler (modbusd_c E) f p req)
  handler-Holds fc1 req = fc1-Holds closed p sets req
  handler-Holds fc2 req = fc2-Holds closed p sets req
  handler-Holds fc3 req = fc3-Holds closed p sets req
  handler-Holds fc4 req = fc4-Holds closed p sets req
  handler-Holds fc5 req = fc5-Holds closed p sets req
  handler-Holds fc6 req = fc6-Holds closed p sets req
  handler-Holds fc15 req = fc15-Holds closed p sets req
  handler-Holds fc16 req = fc16-Holds closed p sets req

handler-Grows : (E : Env) (f : Function) → FcGrows (handler (modbusd_c E) f)
handler-Grows E f p req =
    handler-Holds (Moves-Closed Grows-Neutral) p (set_connected-Grows E p) f req

handler-Gives :
    {E : Env} (json : JsonLaws E) (f : Function) (tid : ℤ) (small : IsInt32 tid)
    (req : Option E.Json) (has_tid : HasInt E req (c_str "tid") tid)
    → FcGives tid req (handler (modbusd_c E) f)
handler-Gives json fc1 tid small req has_tid = (fcs-Gives json tid small req has_tid).0
handler-Gives json fc2 tid small req has_tid = (fcs-Gives json tid small req has_tid).1
handler-Gives json fc3 tid small req has_tid = (fcs-Gives json tid small req has_tid).2
handler-Gives json fc4 tid small req has_tid = (fcs-Gives json tid small req has_tid).3
handler-Gives json fc5 tid small req has_tid = (fcs-Gives json tid small req has_tid).4
handler-Gives json fc6 tid small req has_tid = (fcs-Gives json tid small req has_tid).5
handler-Gives json fc15 tid small req has_tid = (fcs-Gives json tid small req has_tid).6
handler-Gives json fc16 tid small req has_tid = (fcs-Gives json tid small req has_tid).7

pub modbusd_c-KeepsRegistry : {E : Env} → HashLaws E → KeepsRegistry (modbusd_c E)
modbusd_c-KeepsRegistry {E} hash = record {
  cmd_grows = mbtcp_cmd_hanlder-Grows E hash;
  timeout_grows = mbtcp_set_response_timeout-Grows E;
  handler_grows = handler-Grows E;
}

pub modbusd_c-Replies : {E : Env} → JsonLaws E → Replies (modbusd_c E)
modbusd_c-Replies json = record {
  error_reply = modbus_set_error_resp-IsReply json;
  cmd_gives = cmd_hanlder-Gives json;
  timeout_gives = mbtcp_set_response_timeout-Gives json;
  handler_gives = handler-Gives json;
}
