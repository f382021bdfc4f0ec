-- ===== src/Handle/Connect.antt =====
-- modbusd.c: what connecting does to a handle, and when the connection flag changes.
use modbusd.Prelude.{ℕ, ◌≡◌, ◌≢◌, Option, some, Bool, true, false, arith, CString, get_elem?, set}
use modbusd.Prelude.Int.{negsuc}
use modbusd.Env.{Env}
use modbusd.Daemon.{Daemon, Handle, ok, load, set_connected, ◌>>=◌}
use modbusd.Handle.{mbtcp_get_connection_status, mbtcp_do_connect}

module _ {E : Env} (s : Daemon E) (p : ℕ) (h : Handle E) (at : get_elem? s.handles p ≡ some h) where
  pub load-at : load E (some p) s ≡ ok (h, s)
  unfolding load
  load-at = ground arith

  pub set_connected-at :
      (b : Bool)
      → set_connected E (some p) b s
        ≡ ok (tt, record s { handles = set s.handles p (record h { connected = b }) })
  unfolding set_connected ◌>>=◌
  set_connected-at b = ground arith

  pub connection_status-at : mbtcp_get_connection_status E (some p) s ≡ ok (h.connected, s)
  unfolding mbtcp_get_connection_status ◌>>=◌
  connection_status-at = ground (arith, load-at)

  -- On a handle that is there, `mbtcp_do_connect` connects its context. If libmodbus returns -1 it
  -- fails with libmodbus's text for errno and no handle changes; otherwise it succeeds, leaves
  -- `reason` alone and sets the flag of this handle.
  pub mbtcp_do_connect-at :
      (reason : Option CString)
      → let r = E.modbus_connect h.ctx s.world in
        ((r.0 ≡ negsuc 0)
          → mbtcp_do_connect E (some p) reason s
            ≡ ok ((false, some (E.modbus_strerror (E.errno r.1))), record s { world = r.1 }))
        × ((r.0 ≢ negsuc 0)
            → mbtcp_do_connect E (some p) reason s
              ≡ ok (
                (true, reason),
                record s { handles = set s.handles p (record h { connected = true }); world = r.1 },
              ))
  unfolding mbtcp_do_connect set_connected ◌>>=◌
  mbtcp_do_connect-at reason = (λ e. ground (arith, load-at), λ n. ground (arith, load-at))
