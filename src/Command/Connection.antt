-- ===== src/Command/Connection.antt =====
-- modbusd.c, `mbtcp_cmd_hanlder`: the steps from a request to its handler, for a handle in memory.
use modbusd.Prelude.{
  ℕ, ◌≡◌, ◌≢◌, Option, none, some, true, false, CString, c_str, get_elem?, set, get_elem?-lt,
  get_elem?-set_self,
}
use modbusd.Prelude.Int.{ℤ, negsuc}
use modbusd.Env.{Env}
use modbusd.Key.Layout.{IsField}
use modbusd.Daemon.{Daemon, Handle, ok, ◌>>=◌}
use modbusd.Json.Fields.{HasInt, HasText, json_get_int-HasInt, json_get_char-HasText}
use modbusd.Response.{modbus_set_error_resp}
use modbusd.Handle.{get_or_init, lazy_init_mbtcp_handle, lazy_mbtcp_connect}
use modbusd.Handle.Connect.{load-at, connection_status-at, mbtcp_do_connect-at}
use modbusd.Command.{MbtcpFc, request_on, mbtcp_cmd_hanlder}

module _ {E : Env} (req : Option E.Json) (s : Daemon E) (p : ℕ) (h : Handle E)
    (at : get_elem? s.handles p ≡ some h) where
  pub lazy_connect-connected :
      h.connected ≡ true → lazy_mbtcp_connect E (some p) none s ≡ ok ((true, none), s)
  unfolding lazy_mbtcp_connect ◌>>=◌
  lazy_connect-connected c = rw (connection_status-at s p h at, c)

  pub lazy_connect-fails :
      h.connected ≡ false
      → let r = E.modbus_connect h.ctx s.world in
        r.0 ≡ negsuc 0
        → lazy_mbtcp_connect E (some p) none s
          ≡ ok ((false, some (E.modbus_strerror (E.errno r.1))), record s { world = r.1 })
  unfolding lazy_mbtcp_connect ◌>>=◌
  lazy_connect-fails c e =
      rw (connection_status-at s p h at, c) ((mbtcp_do_connect-at s p h at none).0 e)

  pub lazy_connect-connects :
      h.connected ≡ false
      → let r = E.modbus_connect h.ctx s.world in
        r.0 ≢ negsuc 0
        → lazy_mbtcp_connect E (some p) none s
          ≡ ok (
            (true, none),
            record s { handles = set s.handles p (record h { connected = true }); world = r.1 },
          )
  unfolding lazy_mbtcp_connect ◌>>=◌
  lazy_connect-connects c e =
      rw (connection_status-at s p h at, c) ((mbtcp_do_connect-at s p h at none).1 e)

  request_on-at :
      (slave : ℤ) (fc : MbtcpFc E)
      → HasInt E req (c_str "slave") slave
      → request_on E (some p) req fc s
        ≡ fc (some p) req (record s { world = E.modbus_set_slave h.ctx slave s.world })
  unfolding request_on ◌>>=◌
  request_on-at slave fc has_slave =
      rw (json_get_int-HasInt E req (c_str "slave") slave has_slave s, load-at s p h at)

-- A request with the members that every modbus command needs, and an endpoint that a key can hold.
pub record IsCommand (E : Env) (req : Option E.Json) (tid slave : ℤ) (ip port : CString)
    : Type 0 where
  pub has_tid : HasInt E req (c_str "tid") tid
  pub has_slave : HasInt E req (c_str "slave") slave
  pub has_ip : HasText E req (c_str "ip") ip
  pub has_port : HasText E req (c_str "port") port
  pub ip_fits : IsField ip
  pub port_fits : IsField port

module _ {E : Env} (req : Option E.Json) (tid slave : ℤ) (ip port : CString)
    (c : IsCommand E req tid slave ip port) (fc : MbtcpFc E) (s : Daemon E) where
  pub lazy_init-eq : lazy_init_mbtcp_handle E req s ≡ get_or_init E (some ip) (some port) s
  unfolding lazy_init_mbtcp_handle ◌>>=◌
  lazy_init-eq = rw (
    json_get_char-HasText E req (c_str "ip") ip c.has_ip s,
    json_get_char-HasText E req (c_str "port") port c.has_port s,
  )

  -- A handle and no connection: the reason is answered.
  pub command_not_connected :
      (p : ℕ) (reason : CString) (t u : Daemon E)
      → get_or_init E (some ip) (some port) s ≡ ok ((true, some p), t)
      → lazy_mbtcp_connect E (some p) none t ≡ ok ((false, some reason), u)
      → mbtcp_cmd_hanlder E req fc s ≡ ok (modbus_set_error_resp E tid reason, u)
  unfolding mbtcp_cmd_hanlder ◌>>=◌
  command_not_connected p reason t u got refused =
      rw (json_get_int-HasInt E req (c_str "tid") tid c.has_tid s, lazy_init-eq, got, refused)

  -- A handle and a connection: the slave is set, and the handler runs on the handle.
  pub command_ready :
      (p : ℕ) (h : Handle E) (t u : Daemon E)
      → get_or_init E (some ip) (some port) s ≡ ok ((true, some p), t)
      → lazy_mbtcp_connect E (some p) none t ≡ ok ((true, none), u)
      → get_elem? u.handles p ≡ some h
      → mbtcp_cmd_hanlder E req fc s
        ≡ fc (some p) req (record u { world = E.modbus_set_slave h.ctx slave u.world })
  unfolding mbtcp_cmd_hanlder ◌>>=◌
  command_ready p h t u got connects at =
      rw (json_get_int-HasInt E req (c_str "tid") tid c.has_tid s, lazy_init-eq, got, connects)
        (request_on-at req u p h at slave fc c.has_slave)

  -- A handle that is not connected and whose attempt to connect succeeds.
  pub command_connects :
      (p : ℕ) (h : Handle E) (t : Daemon E)
      → get_or_init E (some ip) (some port) s ≡ ok ((true, some p), t)
      → get_elem? t.handles p ≡ some h
      → h.connected ≡ false
      → let r = E.modbus_connect h.ctx t.world in
        r.0 ≢ negsuc 0
        → mbtcp_cmd_hanlder E req fc s
          ≡ fc (some p) req (record t {
            handles = set t.handles p (record h { connected = true });
            world = E.modbus_set_slave h.ctx slave r.1;
          })
  command_connects p h t got at down accepted =
      command_ready p (record h { connected = true }) t _ got
        (lazy_connect-connects req t p h at down accepted)
        (get_elem?-set_self t.handles p (record h { connected = true })
          (get_elem?-lt t.handles p at))
