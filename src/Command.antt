-- ===== src/Command.antt =====
-- modbusd.c: the commands that main.c dispatches to.
pub mod Holds
pub mod Settings
pub mod Keeps
pub mod Connection
pub mod Flow
pub mod Replies
pub mod Progress
use modbusd.Prelude.{ℕ, Option, none, some, CString, c_str, ◌^◌, if◌then◌else◌}
use modbusd.Prelude.Int.{ℤ, to_unsigned}
use modbusd.Env.{Env}
use modbusd.Daemon.{
  Daemon, Handle, Ptr, M, Outcome, ok, stop, pure, not_null, modify, effect, load, ◌>>=◌, ◌>>◌,
}
pub use modbusd.Api.{MbtcpFc}
use modbusd.Json.{json_get_int}
use modbusd.Response.{modbus_set_error_resp, set_modbus_no_data_ok_resp}
use modbusd.Handle.{lazy_init_mbtcp_handle, lazy_mbtcp_connect}
use modbusd.Request.{
  mbtcp_read_bit_req, mbtcp_read_reg_req, mbtcp_single_write_req, mbtcp_multi_write_req,
}

-- The number of values of uint32_t.
abbrev pub uint32_mod : ℕ
uint32_mod = 2 ^ 32

module _ (E : Env) where
  unfoldable pub mbtcp_fc1_req : MbtcpFc E
  mbtcp_fc1_req handle req = mbtcp_read_bit_req E 1 handle req

  unfoldable pub mbtcp_fc2_req : MbtcpFc E
  mbtcp_fc2_req handle req = mbtcp_read_bit_req E 2 handle req

  unfoldable pub mbtcp_fc3_req : MbtcpFc E
  mbtcp_fc3_req handle req = mbtcp_read_reg_req E 3 handle req

  unfoldable pub mbtcp_fc4_req : MbtcpFc E
  mbtcp_fc4_req handle req = mbtcp_read_reg_req E 4 handle req

  unfoldable pub mbtcp_fc5_req : MbtcpFc E
  mbtcp_fc5_req handle req = mbtcp_single_write_req E 5 handle req

  unfoldable pub mbtcp_fc6_req : MbtcpFc E
  mbtcp_fc6_req handle req = mbtcp_single_write_req E 6 handle req

  unfoldable pub mbtcp_fc15_req : MbtcpFc E
  mbtcp_fc15_req handle req = mbtcp_multi_write_req E 15 handle req

  unfoldable pub mbtcp_fc16_req : MbtcpFc E
  mbtcp_fc16_req handle req = mbtcp_multi_write_req E 16 handle req

  -- On a connected handle: set the slave, then the handler.
  unfoldable pub request_on : Ptr → Option E.Json → MbtcpFc E → M E CString
  request_on handle req fc = do
    slave ← json_get_int E req (c_str "slave")
    h ← load E handle
    effect E (E.modbus_set_slave h.ctx slave)
    fc handle req

  unfoldable pub mbtcp_cmd_hanlder : Option E.Json → MbtcpFc E → M E CString
  mbtcp_cmd_hanlder req fc = do
    tid ← json_get_int E req (c_str "tid")
    (ready, handle) ← lazy_init_mbtcp_handle E req
    if ready
        then (do
          (connected, reason) ← lazy_mbtcp_connect E handle none
          if connected
              then request_on handle req fc
              else (do r ← not_null reason; pure (modbus_set_error_resp E tid r)))
        else pure (modbus_set_error_resp E tid (c_str "init modbus tcp handle fail"))

  unfoldable pub mbtcp_set_response_timeout : ℤ → ℤ → M E CString
  mbtcp_set_response_timeout tid timeout = do
    modify (λ s. record s { tcp_conn_timeout_usec = to_unsigned uint32_mod timeout })
    pure (set_modbus_no_data_ok_resp E tid)
