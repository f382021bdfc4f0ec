-- ===== src/Static.antt =====
-- The comments of the static functions of modbusd.c as contracts: what each comment
-- promises, of a function with that prototype.
pub mod Program
pub mod Handlers
pub mod Kept
use modbusd.Prelude.{
  ℕ, suc, ◌+◌, ◌*◌, ◌^◌, ◌<◌, ◌≤◌, ◌≡◌, ◌≢◌, Option, none, some, List, [], ◌∷◌, ◌++◌, Bool, true,
  false, CString, c_str, get_elem?, length, set, Has, if◌then◌else◌,
}
use modbusd.Prelude.Int.{ℤ, pos, negsuc, IsInt32, eqb_ℤ, to_unsigned}
use modbusd.Env.{Env, parsed}
use modbusd.Env.Laws.{JsonLaws}
use modbusd.Daemon.{Daemon, Handle, Ptr, M, ok, stop, exit_failure, pure, ◌>>=◌, ◌>>◌}
use modbusd.Json.Fields.{HasInt, HasText}
use modbusd.Key.Layout.{IsField}
use modbusd.Response.Readback.{IsReply}
use modbusd.Handle.Lookup.{FoundAt, IsNew, with_endpoint}
use modbusd.Request.{uint8_mod, uint16_mod}
use modbusd.Request.Reads.{Reader, served}
use modbusd.Request.Writes.{IsBuffer, written}
use modbusd.Command.{uint32_mod}
use modbusd.Api.Promises.{Makes}
use modbusd.Main.Config.{block}
use modbusd.Json.Header.{IsPrintable}

module _ (E : Env) where
  -- "Combo function: get or init mbtcp handle. @return Success or not": the endpoint's handle, if the
  -- table has it; else a new one, and a failure if libmodbus gives no context for it.
  abbrev pub LazyInitContract : (Option E.Json → M E (Bool × Ptr)) → Type 0
  LazyInitContract f =
      (req : Option E.Json) (ip port : CString)
      → HasText E req (c_str "ip") ip
      → HasText E req (c_str "port") port
      → IsField ip
      → IsField port
      → (s : Daemon E)
      → ((p : ℕ) → FoundAt ip port s p → f req s ≡ ok ((true, some p), s))
        × (IsNew ip port s
            → let made = E.modbus_new_tcp_pi (some ip) (some port) s.world in
              made.0 ≡ none → f req s ≡ ok ((false, none), record s { world = made.1 }))
        × (IsNew ip port s
            → (ctx : E.Ctx) → Makes ip port s ctx
            → f req s ≡ ok ((true, some (length s.handles)), with_endpoint ip port s ctx))

  -- "Combo function: check mbtcp connection status, if not connected, try to connect to slave.
  -- @param reason Pointer to fail reason string. @return Success or not": a connected handle is let
  -- be; for any other it is one call of modbus_connect; NULL is refused.
  abbrev pub LazyConnectContract : (Ptr → Option CString → M E (Bool × Option CString)) → Type 0
  LazyConnectContract f =
      (reason : Option CString) (s : Daemon E)
      → ((why : CString) × (f none reason s ≡ ok ((false, some why), s)))
        × ((p : ℕ) (h : Handle E)
            → get_elem? s.handles p ≡ some h
            → let r = E.modbus_connect h.ctx s.world in
              (h.connected ≡ true → f (some p) reason s ≡ ok ((true, reason), s))
              × (h.connected ≡ false
                  → r.0 ≡ negsuc 0
                  → f (some p) reason s
                    ≡ ok
                        ((false, some (E.modbus_strerror (E.errno r.1))), record s { world = r.1 }))
              × (h.connected ≡ false
                  → r.0 ≢ negsuc 0
                  → f (some p) reason s
                    ≡ ok (
                      (true, reason),
                      record s {
                        handles = set s.handles p (record h { connected = true });
                        world = r.1;
                      },
                    )))

  -- "Generic mbtcp error number handler. @return Modbus error response string in JSON format": with
  -- libmodbus's text for the number; the number 104 clears the flag of the handle.
  abbrev pub ErrnoContract : (ℤ → Ptr → ℤ → M E CString) → Type 0
  ErrnoContract f =
      (tid : ℤ)
      → IsInt32 tid
      → (errnum : ℤ) (s : Daemon E) (p : ℕ) (h : Handle E) → get_elem? s.handles p ≡ some h
      → (reply : CString) × IsReply E tid (E.modbus_strerror errnum) reply
        × (f tid (some p) errnum s
            ≡ ok (
              reply,
              record s {
                handles = set s.handles p (record h {
                  connected = if eqb_ℤ errnum (pos 104) then false else h.connected;
                });
              },
            ))

  -- "Generic mbtcp ok response without data (i.e., write func). @return Modbus ok response string in
  -- JSON format".
  abbrev pub NoDataContract : (ℤ → CString) → Type 0
  NoDataContract f = (tid : ℤ) → IsInt32 tid → IsReply E tid (c_str "ok") (f tid)

  -- "Generic mbtcp ok response with data (i.e., read func). @param json_arr cJSON pointer to data
  -- array": the object printed has the array under "data".
  abbrev pub WithDataContract : (ℤ → E.Json → CString) → Type 0
  WithDataContract f =
      (tid : ℤ)
      → IsInt32 tid
      → (json_arr : E.Json)
      → (reply : IsReply E tid (c_str "ok") (f tid json_arr)) × (E.cjson_get_object_item
            (some reply.object) (c_str "data")
          ≡ some json_arr)

  -- An error response with this number, in the same state.
  abbrev pub Refused : ℤ → M E CString → Daemon E → Type 0
  Refused tid m s =
      (reason text : CString) × (reason ≢ c_str "ok")
      × IsReply E tid reason text
      × (m s ≡ ok (text, s))

  -- A read handler for two function codes: for a length from 1 to the limit it is the one call of
  -- the function of libmodbus for the code, with its result as the response; any other code, and any
  -- longer length, is refused.
  abbrev pub ReadContract :
      ℕ
      → ℕ
      → Reader E
      → ℕ
      → Reader E
      → (List ℕ → ℤ → E.Json)
      → (ℕ → Ptr → Option E.Json → M E CString)
      → Type 0
  ReadContract limit first read second read' array f =
      (tid : ℤ)
      → IsInt32 tid
      → (req : Option E.Json) (addr : ℤ) (n : ℕ) → HasInt E req (c_str "addr") addr
      → HasInt E req (c_str "len") (pos (suc n))
      → HasInt E req (c_str "tid") tid
      → (s : Daemon E)
      → (suc n ≤ limit
          → (p : ℕ) (h : Handle E) → get_elem? s.handles p ≡ some h
          → (f first (some p) req s
              ≡ served s addr tid (suc n) p h (λ v. array v (pos (suc n))) read)
            × (f second (some p) req s
                ≡ served s addr tid (suc n) p h (λ v. array v (pos (suc n))) read'))
        × (suc n ≤ limit
            → (fc : ℕ) (p : Ptr) → ¬ Has fc (first ∷ second ∷ [])
            → Refused tid (f fc p req) s)
        × (limit < suc n → (fc : ℕ) (p : Ptr) → Refused tid (f fc p req) s)

  -- "Help function. FC1, FC2 request handler. @fc Function code 1 and 2 only."
  abbrev pub ReadBitContract : (ℕ → Ptr → Option E.Json → M E CString) → Type 0
  ReadBitContract f =
      ReadContract 2000 1 E.modbus_read_bits 2 E.modbus_read_input_bits E.cjson_create_uint8_array f

  -- "Help function. FC3, FC4 request handler. @fc Function code 3 and 4 only."
  abbrev pub ReadRegContract : (ℕ → Ptr → Option E.Json → M E CString) → Type 0
  ReadRegContract f =
      ReadContract 125 3 E.modbus_read_registers 4 E.modbus_read_input_registers
        E.cjson_create_uint16_array f

  -- "Help function. FC5, FC6 request handler. @fc Function code 5 and 6 only."
  abbrev pub SingleWriteContract : (ℕ → Ptr → Option E.Json → M E CString) → Type 0
  SingleWriteContract f =
      (tid : ℤ)
      → IsInt32 tid
      → (req : Option E.Json) (addr value : ℤ) → HasInt E req (c_str "addr") addr
      → HasInt E req (c_str "tid") tid
      → HasInt E req (c_str "data") value
      → (s : Daemon E)
      → ((p : ℕ) (h : Handle E)
          → get_elem? s.handles p ≡ some h
          → (f 5 (some p) req s ≡ written s tid p h (λ c. E.modbus_write_bit c addr value))
            × (f 6 (some p) req s ≡ written s tid p h (λ c. E.modbus_write_register c addr value)))
        × ((fc : ℕ) (p : Ptr) → ¬ Has fc (5 ∷ 6 ∷ []) → Refused tid (f fc p req) s)

  -- "Help function. FC15, FC16 request handler. @fc Function code 15 and 16 only.": for at most as many
  -- items as the length says, and with memory for the buffer, one call with the items.
  abbrev pub MultiWriteContract : JsonLaws E → (ℕ → Ptr → Option E.Json → M E CString) → Type 0
  MultiWriteContract laws f =
      (tid : ℤ)
      → IsInt32 tid
      → (req : Option E.Json) (addr : ℤ) (n : ℕ) (small : n < 2 ^ 31)
      → (has_addr : HasInt E req (c_str "addr") addr)
      → (has_len : HasInt E req (c_str "len") (pos n))
      → (has_tid : HasInt E req (c_str "tid") tid) (items : E.Json)
      → (has_data : E.cjson_get_object_item req (c_str "data") ≡ some items) (s : Daemon E)
      → (E.cjson_get_array_size items ≤ n
          → (p : ℕ) (h : Handle E) → get_elem? s.handles p ≡ some h
          → ((E.malloc (n * 1) s.world).0 ≡ true
              → (b : List ℕ) × IsBuffer laws req s addr tid n small has_addr has_len has_tid items
                  has_data uint8_mod b
                × (f 15 (some p) req s
                    ≡ written (record s { world = (E.malloc (n * 1) s.world).1 }) tid p h
                        (λ c. E.modbus_write_bits c addr (pos n) b)))
            × ((E.malloc (n * 2) s.world).0 ≡ true
                → (b : List ℕ) × IsBuffer laws req s addr tid n small has_addr has_len has_tid items
                    has_data uint16_mod b
                  × (f 16 (some p) req s
                      ≡ written (record s { world = (E.malloc (n * 2) s.world).1 }) tid p h
                          (λ c. E.modbus_write_registers c addr (pos n) b))))
        × ((fc : ℕ) (p : Ptr) → ¬ Has fc (15 ∷ 16 ∷ []) → Refused tid (f fc p req) s)
