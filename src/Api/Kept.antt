-- ===== src/Api/Kept.antt =====
-- modbusd.c keeps the promises of modbusd.h.
use modbusd.Prelude.{ℕ, ◌^◌, ◌≡◌, refl, Option, none, some, true, false, CString, c_str, length}
use modbusd.Prelude.Int.{ℤ, IsInt32, to_unsigned}
use modbusd.Env.{Env}
use modbusd.Env.Laws.{HashLaws, ModbusLaws, JsonLaws}
use modbusd.Key.Layout.{IsField}
use modbusd.Daemon.{Daemon, Ptr, ok, ◌>>=◌}
use modbusd.Response.Readback.{
  IsReply, modbus_set_error_resp-IsReply, set_modbus_no_data_ok_resp-IsReply,
}
use modbusd.Handle.{
  mbtcp_init_handle, mbtcp_get_handle, mbtcp_do_connect, mbtcp_get_connection_status, register,
  find_handle,
}
use modbusd.Handle.Connect.{connection_status-at, mbtcp_do_connect-at}
use modbusd.Handle.Lookup.{
  FoundAt, IsNew, with_endpoint, fresh_handle, fill_key-fits, make_handle-eq,
}
use modbusd.Handle.Listing.{mbtcp_list_handles_all}
use modbusd.Command.{mbtcp_set_response_timeout}
use modbusd.Command.Flow.{
  command_connected, command_disconnected, command_no_context, command_first_accepted,
  command_first_refused, command_second_accepted,
}
use modbusd.Api.Codes.{handler_read, handler_write, handler_multi}
use modbusd.Api.Promises.{Makes, IsModbusd}
use modbusd.Api.Implementation.{modbusd_c}

module _ {E : Env} (ip port : CString) (f : IsField ip) (g : IsField port) (s : Daemon E)
    (new : IsNew ip port s) (ptr : Ptr) where
  init_fails :
      let made = E.modbus_new_tcp_pi (some ip) (some port) s.world in
      made.0 ≡ none
      → mbtcp_init_handle E ptr (some ip) (some port) s
        ≡ ok ((false, ptr), record s { world = made.1 })
  unfolding mbtcp_init_handle ◌>>=◌
  init_fails e = rw e

  init_new :
      (ctx : E.Ctx)
      → Makes ip port s ctx
      → mbtcp_init_handle E ptr (some ip) (some port) s
        ≡ ok ((true, some (length s.handles)), with_endpoint ip port s ctx)
  unfolding mbtcp_init_handle register fresh_handle ◌>>=◌
  init_new ctx (made, got) = rw (made, got) (make_handle-eq ip port f g ctx _)

  get_new : mbtcp_get_handle E (some ip) (some port) s ≡ ok ((false, none), s)
  unfolding mbtcp_get_handle find_handle ◌>>=◌
  get_new = rw (fill_key-fits E ip port f g s, new, find_handle)

get_found :
    {E : Env} (ip port : CString) (ip_fits : IsField ip) (port_fits : IsField port) (s : Daemon E)
    (p : ℕ)
    → FoundAt ip port s p
    → mbtcp_get_handle E (some ip) (some port) s ≡ ok ((true, some p), s)
unfolding mbtcp_get_handle find_handle ◌>>=◌
get_found {E} ip port ip_fits port_fits s p e =
    rw (fill_key-fits E ip port ip_fits port_fits s, e, find_handle)

connect_null :
    {E : Env} (reason : Option CString) (s : Daemon E)
    → (why : CString) × (mbtcp_do_connect E none reason s ≡ ok ((false, some why), s))
unfolding mbtcp_do_connect ◌>>=◌
connect_null reason s = (c_str "NULL handle", refl)

status_null : {E : Env} (s : Daemon E) → mbtcp_get_connection_status E none s ≡ ok (false, s)
unfolding mbtcp_get_connection_status ◌>>=◌
status_null s = refl

sets_timeout :
    {E : Env} (json : JsonLaws E) (tid : ℤ)
    → IsInt32 tid
    → (usec : ℤ) (s : Daemon E)
    → (reply : CString) × IsReply E tid (c_str "ok") reply
      × (mbtcp_set_response_timeout E tid usec s
          ≡ ok (reply, record s { tcp_conn_timeout_usec = to_unsigned (2 ^ 32) usec }))
unfolding mbtcp_set_response_timeout ◌>>=◌
sets_timeout json tid small usec s = (_, set_modbus_no_data_ok_resp-IsReply json tid small, refl)

-- modbusd.c keeps the promises of modbusd.h, for requests with the members that they need, endpoints
-- that a key can hold and handles that are there. Initialising an endpoint makes its handle and
-- tries to connect; getting a handle, listing the handles, connecting one and its status are exact in
-- result and state; a command on a connected endpoint, or on one that accepts the connection, is the
-- handler that it is given, after the slave was set, and otherwise an error response; the timeout is
-- set modulo 2^32; and each of the eight handlers, for a length in its range, and for several writes
-- with at most as many items as the length says and memory for the buffer, is the one call of
-- libmodbus for its function code, with the request's arguments, and answers its result.
pub modbusd_c-IsModbusd :
    {E : Env} → HashLaws E → ModbusLaws E → (json : JsonLaws E) → IsModbusd json (modbusd_c E)
modbusd_c-IsModbusd hash modbus json = record {
  error_reply = modbus_set_error_resp-IsReply json;
  init_fails = λ ptr ip port f g s new. init_fails ip port f g s new ptr;
  init = λ ptr ip port f g s new. init_new ip port f g s new ptr;
  get = λ ip port f g s. (get_found ip port f g s, λ new. get_new ip port f g s new none);
  list = mbtcp_list_handles_all;
  connect_null = connect_null;
  connect = λ reason s p h at. mbtcp_do_connect-at s p h at reason;
  status = λ s. (status_null s, connection_status-at s);
  cmd_connected = λ req tid slave ip port c fc s p h found at up.
      command_connected req tid slave ip port c fc s p h found at up;
  cmd_disconnected = λ req tid slave ip port c fc s p h found at down.
      command_disconnected req tid slave ip port c fc s p h found at down;
  cmd_new = λ req tid slave ip port c fc s new. (
    λ e. (_, command_no_context req tid slave ip port c fc s new e),
    λ ctx m accepted. command_first_accepted req tid slave ip port c fc s ctx new m.0 m.1 accepted,
  );
  cmd_refused = λ req tid slave ip port c fc s new ctx m refused. (
    λ again. command_first_refused req tid slave ip port c fc s ctx new m.0 m.1 refused again,
    λ accepted.
        command_second_accepted req tid slave ip port c fc s ctx new m.0 m.1 refused accepted,
  );
  timeout = sets_timeout json;
  reads = λ kind req addr tid n has_addr has_len has_tid few s p h at.
      handler_read modbus req addr tid n has_addr has_len has_tid s p h at kind few;
  writes = λ kind req addr tid value has_addr has_tid has_data s p h at.
      handler_write req addr tid value has_addr has_tid has_data s p h at kind;
  multi_writes = λ kind req s addr tid n small has_addr has_len has_tid items has_data p h at.
      handler_multi json req s addr tid n small has_addr has_len has_tid items has_data p h at kind;
}
