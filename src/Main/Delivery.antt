-- ===== src/Main/Delivery.antt =====
-- main.c and modbusd.c together: from the text of a message to the one call of libmodbus that it asks
-- for, and back to the response that is published.
use modbusd.Prelude.{ℕ, suc, ◌≤◌, ◌≡◌, ◌∙◌, some, List, ◌∷◌, true, CString, c_str, get_elem?}
use modbusd.Prelude.Int.{ℤ, pos}
use modbusd.Env.{Env}
use modbusd.Env.Laws.{ModbusLaws}
use modbusd.Key.{memset_zero}
use modbusd.Daemon.{Daemon, Handle, ok}
use modbusd.Json.Fields.{HasInt}
use modbusd.Response.{set_modbus_no_data_ok_resp, set_modbus_with_data_ok_resp}
use modbusd.Handle.Lookup.{FoundAt}
use modbusd.Request.Answer.{answer, settled}
use modbusd.Request.Reads.{Reader}
use modbusd.Api.{Function, name, handler}
use modbusd.Api.Implementation.{modbusd_c}
use modbusd.Api.Codes.{ReadCode, WriteCode, handler_read, handler_write}
use modbusd.Command.Connection.{IsCommand}
use modbusd.Command.Flow.{command_connected}
use modbusd.Main.{handle_message}
use modbusd.Main.Dispatch.{published, IsMessage, function_message}

-- A message of the mode tcp that reads a positive number of bits or registers, no more than its code
-- allows, from an endpoint with a connected handle: the daemon sets the slave on the handle's
-- context, calls libmodbus's function for the code once, with the message's address and length, and
-- publishes under tcp what was read or, if the call fails, libmodbus's text for errno. The flag of
-- the handle is cleared if the peer has reset the connection; no other state of the daemon's own
-- changes.
pub read_delivers :
    {E : Env} (laws : ModbusLaws E) {f : Function} {limit : ℕ} {read : Reader E}
    {array : List ℕ → ℤ → E.Json} (kind : ReadCode E f limit read array) (text : CString)
    (more : List CString) (req : E.Json) (addr tid slave : ℤ) (n : ℕ) (ip port : CString)
    (m : IsMessage E text req tid (name f)) (c : IsCommand E (some req) tid slave ip port)
    (has_addr : HasInt E (some req) (c_str "addr") addr)
    (has_len : HasInt E (some req) (c_str "len") (pos (suc n))) (few : suc n ≤ limit) (s : Daemon E)
    (p : ℕ) (h : Handle E) (found : FoundAt ip port s p) (at : get_elem? s.handles p ≡ some h)
    (up : h.connected ≡ true)
    → let selected = E.modbus_set_slave h.ctx slave s.world in
      let (ret, values, w) = read h.ctx addr (pos (suc n)) (memset_zero (suc n)) selected in
      let data_read = set_modbus_with_data_ok_resp E tid (array values (pos (suc n))) in
      handle_message (modbusd_c E) true (c_str "tcp" ∷ text ∷ more) s
      ≡ ok (tt, published E (c_str "tcp") (answer E tid ret w data_read) (settled E s p h ret w))
read_delivers {E} laws {f} kind text more req addr tid slave n ip port m c has_addr has_len few s p
      h found at up =
    function_message text more req tid f m s
    ∙ rw
        (command_connected (some req) tid slave ip port c (handler (modbusd_c E) f) s p h found at
          up)
        (rw (
          handler_read laws (some req) addr tid n has_addr has_len m.has_tid
            (record s { world = E.modbus_set_slave h.ctx slave s.world }) p h at kind few))

-- A message of the mode tcp that writes one coil or register of an endpoint with a connected handle:
-- the daemon sets the slave on the handle's context, calls libmodbus's function for the code once,
-- with the message's address and value, and publishes under tcp the plain answer "ok" or, if the call
-- fails, libmodbus's text for errno. The flag of the handle is cleared if the peer has reset the
-- connection; no other state of the daemon's own changes.
pub write_delivers :
    {E : Env} {f : Function} {write : E.Ctx → ℤ → ℤ → E.World → ℤ × E.World}
    (kind : WriteCode E f write) (text : CString) (more : List CString) (req : E.Json)
    (addr tid slave value : ℤ) (ip port : CString) (m : IsMessage E text req tid (name f))
    (c : IsCommand E (some req) tid slave ip port)
    (has_addr : HasInt E (some req) (c_str "addr") addr)
    (has_data : HasInt E (some req) (c_str "data") value) (s : Daemon E) (p : ℕ) (h : Handle E)
    (found : FoundAt ip port s p) (at : get_elem? s.handles p ≡ some h) (up : h.connected ≡ true)
    → let selected = E.modbus_set_slave h.ctx slave s.world in
      let (ret, w) = write h.ctx addr value selected in
      handle_message (modbusd_c E) true (c_str "tcp" ∷ text ∷ more) s
      ≡ ok (
        tt,
        published E
            (c_str "tcp")
            (answer E tid ret w (set_modbus_no_data_ok_resp E tid))
            (settled E s p h ret w),
      )
write_delivers {E} {f} kind text more req addr tid slave value ip port m c has_addr has_data s p h
      found at up =
    function_message text more req tid f m s
    ∙ rw
        (command_connected (some req) tid slave ip port c (handler (modbusd_c E) f) s p h found at
          up)
        (rw (
          handler_write (some req) addr tid value has_addr m.has_tid has_data
            (record s { world = E.modbus_set_slave h.ctx slave s.world }) p h at kind))
