-- ===== src/Api/Promises.antt =====
-- What the comments of modbusd.h promise of its operations, as equations: what each returns, and in
-- which state, for the arguments that the law names.
use modbusd.Prelude.{
  ℕ, suc, ◌*◌, ◌^◌, ◌<◌, ◌≤◌, ◌≡◌, ◌≢◌, Option, none, some, List, true, false, CString, c_str,
  get_elem?, length, map, set,
}
use modbusd.Prelude.Int.{ℤ, pos, negsuc, IsInt32, to_unsigned}
use modbusd.Env.{Env}
use modbusd.Env.Laws.{JsonLaws}
use modbusd.Daemon.{Daemon, Handle, Ptr, ok}
use modbusd.Json.Fields.{HasInt}
use modbusd.Key.Layout.{IsField, endpoint_key}
use modbusd.Response.Readback.{IsReply}
use modbusd.Handle.{handle_size}
use modbusd.Handle.Registry.{IsRegistry}
use modbusd.Handle.Lookup.{FoundAt, IsNew, connection, with_endpoint}
use modbusd.Handle.Listing.{shown}
use modbusd.Request.Reads.{Reader, served}
use modbusd.Request.Writes.{IsBuffer, written}
use modbusd.Command.Connection.{IsCommand}
use modbusd.Api.{Modbusd, MbtcpFc, Function, handler}
use modbusd.Api.Codes.{ReadCode, WriteCode, MultiCode}

module _ {E : Env} where
  -- libmodbus makes the context, and there is memory for the handle.
  abbrev pub Makes : CString → CString → Daemon E → E.Ctx → Type 0
  Makes ip port s ctx =
      let made = E.modbus_new_tcp_pi (some ip) (some port) s.world in
      (made.0 ≡ some ctx)
      × ((E.malloc handle_size
            (E.modbus_set_response_timeout ctx 0 s.tcp_conn_timeout_usec made.1)).0
          ≡ true)

  pub record IsModbusd (laws : JsonLaws E) (api : Modbusd E) : Type 0 where
    -- "Generic modbus (TCP/RTU) error response handler."
    pub error_reply :
        (tid : ℤ)
        → IsInt32 tid
        → (reason : CString) → IsReply E tid reason (api.modbus_set_error_resp tid reason)
    -- "Init mbtcp handle (to hashtable) and try to connect", for a new endpoint that a key can hold:
    -- it fails without a context; else the handle is in the table, after one attempt to connect, with
    -- the result of the attempt in its flag.
    pub init_fails :
        (ptr : Ptr) (ip port : CString)
        → IsField ip
        → IsField port
        → (s : Daemon E) → IsNew ip port s
        → let made = E.modbus_new_tcp_pi (some ip) (some port) s.world in
          made.0 ≡ none
          → api.mbtcp_init_handle ptr (some ip) (some port) s
            ≡ ok ((false, ptr), record s { world = made.1 })
    pub init :
        (ptr : Ptr) (ip port : CString)
        → IsField ip
        → IsField port
        → (s : Daemon E) → IsNew ip port s
        → (ctx : E.Ctx) → Makes ip port s ctx
        → api.mbtcp_init_handle ptr (some ip) (some port) s
          ≡ ok ((true, some (length s.handles)), with_endpoint ip port s ctx)
    -- "Get mbtcp handle from hashtable": it succeeds if and only if the table has the endpoint.
    pub get :
        (ip port : CString)
        → IsField ip
        → IsField port
        → (s : Daemon E)
        → ((p : ℕ)
            → FoundAt ip port s p
            → api.mbtcp_get_handle (some ip) (some port) s ≡ ok ((true, some p), s))
          × (IsNew ip port s → api.mbtcp_get_handle (some ip) (some port) s ≡ ok ((false, none), s))
    -- "List all handles in mbtcp hash table".
    pub list :
        (s : Daemon E) → IsRegistry s → api.mbtcp_list_handles s ≡ ok (map (shown s) s.handles, s)
    -- "Connect to mbtcp slave via mbtcp hashed handle", with a "fail reason string": NULL is refused;
    -- else it is one call of modbus_connect on the handle's context.
    pub connect_null :
        (reason : Option CString) (s : Daemon E)
        → (why : CString) × (api.mbtcp_do_connect none reason s ≡ ok ((false, some why), s))
    pub connect :
        (reason : Option CString) (s : Daemon E) (p : ℕ) (h : Handle E)
        → get_elem? s.handles p ≡ some h
        → let r = E.modbus_connect h.ctx s.world in
          (r.0 ≡ negsuc 0
            → api.mbtcp_do_connect (some p) reason s
              ≡ ok ((false, some (E.modbus_strerror (E.errno r.1))), record s { world = r.1 }))
          × (r.0 ≢ negsuc 0
              → api.mbtcp_do_connect (some p) reason s
                ≡ ok (
                  (true, reason),
                  record s {
                    handles = set s.handles p (record h { connected = true });
                    world = r.1;
                  },
                ))
    -- "Get mbtcp handle's connection status", false for NULL.
    pub status :
        (s : Daemon E)
        → (api.mbtcp_get_connection_status none s ≡ ok (false, s))
          × ((p : ℕ) (h : Handle E)
              → get_elem? s.handles p ≡ some h
              → api.mbtcp_get_connection_status (some p) s ≡ ok (h.connected, s))
    -- "Generic mbtcp command handler": on an endpoint with a connected handle it sets the slave and is
    -- the handler that it is given; if the handle is not connected, one attempt to connect decides.
    pub cmd_connected :
        (req : Option E.Json) (tid slave : ℤ) (ip port : CString)
        → IsCommand E req tid slave ip port
        → (fc : MbtcpFc E) (s : Daemon E) (p : ℕ) (h : Handle E) → FoundAt ip port s p
        → get_elem? s.handles p ≡ some h
        → h.connected ≡ true
        → api.mbtcp_cmd_hanlder req fc s
          ≡ fc (some p) req (record s { world = E.modbus_set_slave h.ctx slave s.world })
    pub cmd_disconnected :
        (req : Option E.Json) (tid slave : ℤ) (ip port : CString)
        → IsCommand E req tid slave ip port
        → (fc : MbtcpFc E) (s : Daemon E) (p : ℕ) (h : Handle E) → FoundAt ip port s p
        → get_elem? s.handles p ≡ some h
        → h.connected ≡ false
        → let r = E.modbus_connect h.ctx s.world in
          (r.0 ≡ negsuc 0
            → api.mbtcp_cmd_hanlder req fc s
              ≡ ok (
                api.modbus_set_error_resp tid (E.modbus_strerror (E.errno r.1)),
                record s { world = r.1 },
              ))
          × (r.0 ≢ negsuc 0
              → api.mbtcp_cmd_hanlder req fc s
                ≡ fc (some p) req (record s {
                  handles = set s.handles p (record h { connected = true });
                  world = E.modbus_set_slave h.ctx slave r.1;
                }))
    -- On a new endpoint it is an error response without a context, and with one the handler on the
    -- new handle if the connection is accepted.
    pub cmd_new :
        (req : Option E.Json) (tid slave : ℤ) (ip port : CString)
        → IsCommand E req tid slave ip port
        → (fc : MbtcpFc E) (s : Daemon E) → IsNew ip port s
        → let made = E.modbus_new_tcp_pi (some ip) (some port) s.world in
          (made.0 ≡ none
            → (why : CString) × (api.mbtcp_cmd_hanlder req fc s
                ≡ ok (api.modbus_set_error_resp tid why, record s { world = made.1 })))
          × ((ctx : E.Ctx)
              → Makes ip port s ctx
              → (connection ip port s ctx).0 ≢ negsuc 0
              → api.mbtcp_cmd_hanlder req fc s
                ≡ fc (some (length s.handles)) req (record (with_endpoint ip port s ctx) {
                  world = E.modbus_set_slave ctx slave (connection ip port s ctx).1;
                }))
    -- If it is refused, a second attempt decides.
    pub cmd_refused :
        (req : Option E.Json) (tid slave : ℤ) (ip port : CString)
        → IsCommand E req tid slave ip port
        → (fc : MbtcpFc E) (s : Daemon E) → IsNew ip port s
        → (ctx : E.Ctx) → Makes ip port s ctx
        → let first = connection ip port s ctx in
          let second = E.modbus_connect ctx first.1 in
          first.0 ≡ negsuc 0
          → (second.0 ≡ negsuc 0
              → api.mbtcp_cmd_hanlder req fc s
                ≡ ok (
                  api.modbus_set_error_resp tid (E.modbus_strerror (E.errno second.1)),
                  record (with_endpoint ip port s ctx) { world = second.1 },
                ))
            × (second.0 ≢ negsuc 0
                → api.mbtcp_cmd_hanlder req fc s
                  ≡ fc (some (length s.handles)) req (record (with_endpoint ip port s ctx) {
                    handles =
                        set
                          (with_endpoint ip port s ctx).handles
                          (length s.handles)
                          (record { key = endpoint_key ip port; connected = true; ctx = ctx });
                    world = E.modbus_set_slave ctx slave second.1;
                  }))
    -- "Set mbtcp response timeout in usec", with the answer "ok".
    pub timeout :
        (tid : ℤ)
        → IsInt32 tid
        → (usec : ℤ) (s : Daemon E)
        → (reply : CString) × IsReply E tid (c_str "ok") reply
          × (api.mbtcp_set_response_timeout tid usec s
              ≡ ok (reply, record s { tcp_conn_timeout_usec = to_unsigned (2 ^ 32) usec }))
    -- "Modbus TCP Read coils.", "… discrete input.", "… holding registers.", "… input registers.": one
    -- call of libmodbus's function for the code, and its result as the response.
    pub reads :
        {f : Function} {limit : ℕ} {read : Reader E} {array : List ℕ → ℤ → E.Json}
        → ReadCode E f limit read array
        → (req : Option E.Json) (addr tid : ℤ) (n : ℕ) → HasInt E req (c_str "addr") addr
        → HasInt E req (c_str "len") (pos (suc n))
        → HasInt E req (c_str "tid") tid
        → suc n ≤ limit
        → (s : Daemon E) (p : ℕ) (h : Handle E) → get_elem? s.handles p ≡ some h
        → handler api f (some p) req s
          ≡ served s addr tid (suc n) p h (λ v. array v (pos (suc n))) read
    -- "Modbus TCP Write single coil.", "… single register."
    pub writes :
        {f : Function} {write : E.Ctx → ℤ → ℤ → E.World → ℤ × E.World}
        → WriteCode E f write
        → (req : Option E.Json) (addr tid value : ℤ) → HasInt E req (c_str "addr") addr
        → HasInt E req (c_str "tid") tid
        → HasInt E req (c_str "data") value
        → (s : Daemon E) (p : ℕ) (h : Handle E) → get_elem? s.handles p ≡ some h
        → handler api f (some p) req s ≡ written s tid p h (λ c. write c addr value)
    -- "Modbus TCP Write multiple coils.", "… multiple registers.": one call, with the request's items.
    pub multi_writes :
        {f : Function} {width m : ℕ} {write : E.Ctx → ℤ → ℤ → List ℕ → E.World → ℤ × E.World}
        → MultiCode E f width m write
        → (req : Option E.Json) (s : Daemon E) (addr tid : ℤ) (n : ℕ) (small : n < 2 ^ 31)
        → (has_addr : HasInt E req (c_str "addr") addr)
        → (has_len : HasInt E req (c_str "len") (pos n))
        → (has_tid : HasInt E req (c_str "tid") tid) (items : E.Json)
        → (has_data : E.cjson_get_object_item req (c_str "data") ≡ some items) (p : ℕ)
          (h : Handle E)
        → get_elem? s.handles p ≡ some h
        → (E.malloc (n * width) s.world).0 ≡ true
        → E.cjson_get_array_size items ≤ n
        → (b : List ℕ) × IsBuffer laws req s addr tid n small has_addr has_len has_tid items
            has_data m b
          × (handler api f (some p) req s
              ≡ written
                  (record s { world = (E.malloc (n * width) s.world).1 })
                  tid
                  p
                  h
                  (λ c. write c addr (pos n) b))
