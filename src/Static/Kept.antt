-- ===== src/Static/Kept.antt =====
-- The static functions of modbusd.c and main.c keep their contracts.
use modbusd.Prelude.{
  ℕ, List, ◌≡◌, refl, ◌∙◌, Option, none, some, true, false, CString, c_str, get_elem?,
}
use modbusd.Env.{Env}
use modbusd.Env.Laws.{ModbusLaws, JsonLaws}
use modbusd.Daemon.{Daemon, Handle, ok, ◌>>=◌}
use modbusd.Json.Fields.{HasText, json_get_char-HasText}
use modbusd.Response.{set_modbus_no_data_ok_resp, set_modbus_with_data_ok_resp, data_object}
use modbusd.Response.Readback.{
  modbus_set_error_resp-IsReply, set_modbus_no_data_ok_resp-IsReply, data_object-members,
}
use modbusd.Handle.{
  get_or_init, lazy_init_mbtcp_handle, lazy_mbtcp_connect, mbtcp_get_connection_status,
  mbtcp_do_connect,
}
use modbusd.Handle.Connect.{connection_status-at, mbtcp_do_connect-at}
use modbusd.Handle.Lookup.{get_or_init-found, get_or_init-fresh, get_or_init-no_context}
use modbusd.Request.{
  set_modbus_errno_resp, mbtcp_read_bit_req, mbtcp_read_reg_req, mbtcp_single_write_req,
  mbtcp_multi_write_req,
}
use modbusd.Request.Answer.{set_modbus_errno_resp-at}
use modbusd.Static.Handlers.{
  read_bit-Contract, read_reg-Contract, single_write-Contract, multi_write-Contract,
}
use modbusd.Static.{
  LazyInitContract, LazyConnectContract, ErrnoContract, NoDataContract, WithDataContract,
  ReadBitContract, ReadRegContract, SingleWriteContract, MultiWriteContract,
}

module _ {E : Env} where
  lazy_init-eq :
      (req : Option E.Json) (ip port : CString)
      → HasText E req (c_str "ip") ip
      → HasText E req (c_str "port") port
      → (s : Daemon E) → lazy_init_mbtcp_handle E req s ≡ get_or_init E (some ip) (some port) s
  unfolding lazy_init_mbtcp_handle ◌>>=◌
  lazy_init-eq req ip port has_ip has_port s = rw (
    json_get_char-HasText E req (c_str "ip") ip has_ip s,
    json_get_char-HasText E req (c_str "port") port has_port s,
  )

  lazy_init-Contract : LazyInitContract E (lazy_init_mbtcp_handle E)
  lazy_init-Contract req ip port has_ip has_port f g s =
      rw (lazy_init-eq req ip port has_ip has_port s) (
        λ p found. get_or_init-found ip port f g s p found,
        λ new made. get_or_init-no_context ip port f g s new made,
        λ new ctx m. get_or_init-fresh ip port f g s ctx new m.0 m.1,
      )

  module _ (reason : Option CString) (s : Daemon E) where
    connect_null :
        (why : CString) × (lazy_mbtcp_connect E none reason s ≡ ok ((false, some why), s))
    unfolding lazy_mbtcp_connect mbtcp_get_connection_status mbtcp_do_connect ◌>>=◌
    connect_null = (_, refl)

    module _ (p : ℕ) (h : Handle E) (at : get_elem? s.handles p ≡ some h) where
      connect_up :
          h.connected ≡ true → lazy_mbtcp_connect E (some p) reason s ≡ ok ((true, reason), s)
      unfolding lazy_mbtcp_connect ◌>>=◌
      connect_up up = rw (connection_status-at s p h at, up)

      connect_down :
          h.connected ≡ false
          → lazy_mbtcp_connect E (some p) reason s ≡ mbtcp_do_connect E (some p) reason s
      unfolding lazy_mbtcp_connect ◌>>=◌
      connect_down down = rw (connection_status-at s p h at, down)

  lazy_connect-Contract : LazyConnectContract E (lazy_mbtcp_connect E)
  lazy_connect-Contract reason s = (
    connect_null reason s,
    λ p h at. (
      connect_up reason s p h at,
      λ down e. connect_down reason s p h at down ∙ (mbtcp_do_connect-at s p h at reason).0 e,
      λ down e. connect_down reason s p h at down ∙ (mbtcp_do_connect-at s p h at reason).1 e,
    ),
  )

module _ {E : Env} (json : JsonLaws E) where
  errno-Contract : ErrnoContract E (set_modbus_errno_resp E)
  errno-Contract tid small errnum s p h at = (
    _,
    modbus_set_error_resp-IsReply json tid small (E.modbus_strerror errnum),
    set_modbus_errno_resp-at s p h at tid errnum,
  )

  with_data-Contract : WithDataContract E (set_modbus_with_data_ok_resp E)
  unfolding set_modbus_with_data_ok_resp
  with_data-Contract tid small json_arr =
      let (t, d, st) = data_object-members json tid small json_arr in
      (
        record {
          object = data_object E tid json_arr;
          printed = refl;
          has_tid = t;
          has_status = st;
        },
        d,
      )

module _ {E : Env} (modbus : ModbusLaws E) (json : JsonLaws E) where
  -- The nine static functions of modbusd.c keep the contracts that their comments state, for the
  -- arguments that each contract names. Getting or making a handle, connecting it if it is not, and
  -- answering an error number, which clears the handle's flag if it is 104, are exact in result and
  -- state. The responses have what they announce. Each request handler is, for its own two function
  -- codes and for lengths in its range, the one call of libmodbus with the request's arguments; it
  -- refuses, and changes nothing, for every other function code and, if it reads, beyond its limit.
  pub modbusd_statics :
      LazyInitContract E (lazy_init_mbtcp_handle E)
      × LazyConnectContract E (lazy_mbtcp_connect E)
      × ErrnoContract E (set_modbus_errno_resp E)
      × NoDataContract E (set_modbus_no_data_ok_resp E)
      × WithDataContract E (set_modbus_with_data_ok_resp E)
      × ReadBitContract E (mbtcp_read_bit_req E)
      × ReadRegContract E (mbtcp_read_reg_req E)
      × SingleWriteContract E (mbtcp_single_write_req E)
      × MultiWriteContract E json (mbtcp_multi_write_req E)
  modbusd_statics = (
    lazy_init-Contract,
    lazy_connect-Contract,
    errno-Contract json,
    set_modbus_no_data_ok_resp-IsReply json,
    with_data-Contract json,
    read_bit-Contract modbus json,
    read_reg-Contract modbus json,
    single_write-Contract json,
    multi_write-Contract json,
  )
