-- ===== src/Command/Flow.antt =====
-- modbusd.c, `mbtcp_cmd_hanlder`: the way from a request to its handler, by the state of the
-- connection to the request's endpoint.
use modbusd.Prelude.{
  ℕ, ◌≡◌, ◌≢◌, Option, none, some, true, false, not, arith, CString, c_str, length, get_elem?, set,
  get_elem?-append_end,
}
use modbusd.Prelude.Int.{ℤ, negsuc, eqb_ℤ, eqb_ℤ_iff}
use modbusd.Env.{Env}
use modbusd.Key.Layout.{endpoint_key}
use modbusd.Daemon.{Daemon, Handle, ok, ◌>>=◌}
use modbusd.Json.Fields.{json_get_int-HasInt}
use modbusd.Response.{modbus_set_error_resp}
use modbusd.Handle.{handle_size, get_or_init}
use modbusd.Handle.Lookup.{
  FoundAt, IsNew, connection, with_endpoint, get_or_init-found, get_or_init-fresh,
  get_or_init-no_context,
}
use modbusd.Command.{MbtcpFc, mbtcp_cmd_hanlder}
use modbusd.Command.Connection.{
  IsCommand, lazy_init-eq, lazy_connect-connected, lazy_connect-fails, command_not_connected,
  command_ready, command_connects,
}

module _ {E : Env} (req : Option E.Json) (tid slave : ℤ) (ip port : CString)
    (c : IsCommand E req tid slave ip port) (fc : MbtcpFc E) (s : Daemon E) where
  module _ (p : ℕ) (h : Handle E) (found : FoundAt ip port s p)
      (at : get_elem? s.handles p ≡ some h) where
    -- The endpoint has a handle that is connected: the slave is set and the handler runs on that
    -- handle. There is no attempt to connect and no new handle.
    pub command_connected :
        h.connected ≡ true
        → mbtcp_cmd_hanlder E req fc s
          ≡ fc (some p) req (record s { world = E.modbus_set_slave h.ctx slave s.world })
    command_connected up =
        command_ready req tid slave ip port c fc s p h s s
          (get_or_init-found ip port c.ip_fits c.port_fits s p found)
          (lazy_connect-connected req s p h at up) at

    -- The endpoint has a handle that is not connected: one attempt to connect. If it fails, the
    -- answer is libmodbus's text for errno, the handler does not run, and no handle changes. If it
    -- succeeds, the handler runs as on a connected handle, with the flag set.
    pub command_disconnected :
        h.connected ≡ false
        → let r = E.modbus_connect h.ctx s.world in
          ((r.0 ≡ negsuc 0)
            → mbtcp_cmd_hanlder E req fc s
              ≡ ok (
                modbus_set_error_resp E tid (E.modbus_strerror (E.errno r.1)),
                record s { world = r.1 },
              ))
          × ((r.0 ≢ negsuc 0)
              → mbtcp_cmd_hanlder E req fc s
                ≡ fc (some p) req (record s {
                  handles = set s.handles p (record h { connected = true });
                  world = E.modbus_set_slave h.ctx slave r.1;
                }))
    command_disconnected down =
        let got = get_or_init-found ip port c.ip_fits c.port_fits s p found in
        (
          λ e.
              command_not_connected req tid slave ip port c fc s p _ s _ got
                (lazy_connect-fails req s p h at down e),
          command_connects req tid slave ip port c fc s p h s got at down,
        )

  -- libmodbus gives no context for a new endpoint: the answer says so and nothing is registered.
  pub command_no_context :
      IsNew ip port s
      → (E.modbus_new_tcp_pi (some ip) (some port) s.world).0 ≡ none
      → mbtcp_cmd_hanlder E req fc s
        ≡ ok (
          modbus_set_error_resp E tid (c_str "init modbus tcp handle fail"),
          record s { world = (E.modbus_new_tcp_pi (some ip) (some port) s.world).1 },
        )
  unfolding mbtcp_cmd_hanlder ◌>>=◌
  command_no_context new none_made = rw (
    json_get_int-HasInt E req (c_str "tid") tid c.has_tid s,
    lazy_init-eq req tid slave ip port c fc s,
    get_or_init-no_context ip port c.ip_fits c.port_fits s new none_made,
  )

  module _ (ctx : E.Ctx) (new : IsNew ip port s)
      (made : (E.modbus_new_tcp_pi (some ip) (some port) s.world).0 ≡ some ctx)
      (got : (E.malloc handle_size (
          E.modbus_set_response_timeout ctx 0 s.tcp_conn_timeout_usec
            (E.modbus_new_tcp_pi (some ip) (some port) s.world).1)).0
        ≡ true) where
    new_handle : Handle E
    new_handle = record {
      key = endpoint_key ip port;
      connected = not (eqb_ℤ (connection ip port s ctx).0 (negsuc 0));
      ctx = ctx;
    }

    there : get_elem? (with_endpoint ip port s ctx).handles (length s.handles) ≡ some new_handle
    unfolding new_handle
    there = get_elem?-append_end s.handles _

    got_new :
        get_or_init E (some ip) (some port) s
        ≡ ok ((true, some (length s.handles)), with_endpoint ip port s ctx)
    got_new = get_or_init-fresh ip port c.ip_fits c.port_fits s ctx new made got

    -- The first request for an endpoint that refuses connections tries to connect twice: once when
    -- the handle is made, and again because the handle is not connected. If the second attempt fails
    -- too, its errno is answered; the handle stays registered, not connected.
    pub command_first_refused :
        let first = connection ip port s ctx in
        let second = E.modbus_connect ctx first.1 in
        first.0 ≡ negsuc 0
        → second.0 ≡ negsuc 0
        → mbtcp_cmd_hanlder E req fc s
          ≡ ok (
            modbus_set_error_resp E tid (E.modbus_strerror (E.errno second.1)),
            record (with_endpoint ip port s ctx) { world = second.1 },
          )
    unfolding new_handle
    command_first_refused refused again =
        command_not_connected req tid slave ip port c fc s (length s.handles) _ _ _ got_new (
          lazy_connect-fails req (with_endpoint ip port s ctx) (length s.handles) new_handle there
            (rw refused) again)

    -- The first request for an endpoint that accepts the connection: the handler runs on the new
    -- handle, which is connected, after that one attempt.
    pub command_first_accepted :
        let first = connection ip port s ctx in
        first.0 ≢ negsuc 0
        → mbtcp_cmd_hanlder E req fc s
          ≡ fc (some (length s.handles)) req (record (with_endpoint ip port s ctx) {
            world = E.modbus_set_slave ctx slave first.1;
          })
    unfolding new_handle
    command_first_accepted accepted =
        command_ready req tid slave ip port c fc s (length s.handles) new_handle _ _ got_new
          (lazy_connect-connected req (with_endpoint ip port s ctx) (length s.handles) new_handle
            there (ground (arith, eqb_ℤ_iff (connection ip port s ctx).0 (negsuc 0))))
          there

    -- The first request for an endpoint whose first attempt to connect fails and whose second one
    -- succeeds: the handler runs on the new handle, with the flag set.
    pub command_second_accepted :
        let first = connection ip port s ctx in
        let second = E.modbus_connect ctx first.1 in
        first.0 ≡ negsuc 0
        → second.0 ≢ negsuc 0
        → mbtcp_cmd_hanlder E req fc s
          ≡ fc (some (length s.handles)) req (record (with_endpoint ip port s ctx) {
            handles =
                set
                  (with_endpoint ip port s ctx).handles
                  (length s.handles)
                  (record { key = endpoint_key ip port; connected = true; ctx = ctx });
            world = E.modbus_set_slave ctx slave second.1;
          })
    unfolding new_handle
    command_second_accepted refused accepted =
        command_connects req tid slave ip port c fc s (length s.handles) new_handle _ got_new there
          (rw refused) accepted
