-- ===== src/Api.antt =====
-- modbusd.h: the operations that modbusd.c offers and main.c calls.
pub mod Contract
pub mod Implementation
pub mod Codes
pub mod Promises
pub mod Kept
pub mod Isolation
use modbusd.Prelude.{Bool, Option, List, CString, c_str}
use modbusd.Prelude.Int.{ℤ}
use modbusd.Env.{Env}
use modbusd.Daemon.{Ptr, M}

-- mbtcp_fc, a pointer to a handler.
abbrev pub MbtcpFc : Env → Type 0
MbtcpFc E = Ptr → Option E.Json → M E CString

-- The prototypes. A result by reference is part of the result: `*ptr_handle`, `*reason`, and the
-- lines that `mbtcp_list_handles` prints.
pub record Modbusd (E : Env) : Type 0 where
  pub modbus_set_error_resp : ℤ → CString → CString
  pub mbtcp_init_handle : Ptr → Option CString → Option CString → M E (Bool × Ptr)
  pub mbtcp_get_handle : Option CString → Option CString → M E (Bool × Ptr)
  pub mbtcp_list_handles : M E (List (CString × CString))
  pub mbtcp_do_connect : Ptr → Option CString → M E (Bool × Option CString)
  pub mbtcp_get_connection_status : Ptr → M E Bool
  pub mbtcp_cmd_hanlder : Option E.Json → MbtcpFc E → M E CString
  pub mbtcp_set_response_timeout : ℤ → ℤ → M E CString
  pub mbtcp_fc1_req : MbtcpFc E
  pub mbtcp_fc2_req : MbtcpFc E
  pub mbtcp_fc3_req : MbtcpFc E
  pub mbtcp_fc4_req : MbtcpFc E
  pub mbtcp_fc5_req : MbtcpFc E
  pub mbtcp_fc6_req : MbtcpFc E
  pub mbtcp_fc15_req : MbtcpFc E
  pub mbtcp_fc16_req : MbtcpFc E

-- The function codes that the daemon serves, with the command that selects each.
pub data Function : Type 0 where
  fc1 fc2 fc3 fc4 fc5 fc6 fc15 fc16 : Function

abbrev pub name : Function → CString
name fc1 = c_str "fc1"
name fc2 = c_str "fc2"
name fc3 = c_str "fc3"
name fc4 = c_str "fc4"
name fc5 = c_str "fc5"
name fc6 = c_str "fc6"
name fc15 = c_str "fc15"
name fc16 = c_str "fc16"

abbrev pub handler : {E : Env} → Modbusd E → Function → MbtcpFc E
handler api fc1 = api.mbtcp_fc1_req
handler api fc2 = api.mbtcp_fc2_req
handler api fc3 = api.mbtcp_fc3_req
handler api fc4 = api.mbtcp_fc4_req
handler api fc5 = api.mbtcp_fc5_req
handler api fc6 = api.mbtcp_fc6_req
handler api fc15 = api.mbtcp_fc15_req
handler api fc16 = api.mbtcp_fc16_req
