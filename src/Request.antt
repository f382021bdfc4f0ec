-- ===== src/Request.antt =====
-- modbusd.c: the handlers of the function codes, by four functions that take the code as a number.
pub mod Holds
pub mod Payload
pub mod Answer
pub mod Reads
pub mod Writes
pub mod Total
use modbusd.Prelude.{
  ℕ, zero, suc, ◌*◌, ◌%◌, ◌^◌, Option, none, some, List, [], ◌∷◌, Bool, false, ◌==◌, CString, c_str,
  length, set, replicate, ltb, if◌then◌else◌,
}
use modbusd.Prelude.Int.{ℤ, pos, negsuc, ltb_ℤ, eqb_ℤ, to_unsigned}
use modbusd.Env.{Env}
use modbusd.Key.{memset_zero}
use modbusd.Daemon.{
  Daemon, Handle, Ptr, M, Outcome, ok, stop, null_pointer, buffer_overflow, bad_array_size, pure,
  fail, not_null, gets, call, call_buffer, load, set_connected, ◌>>=◌, ◌>>◌,
}
use modbusd.Json.{json_get_int}
use modbusd.Response.{
  modbus_set_error_resp, set_modbus_no_data_ok_resp, set_modbus_with_data_ok_resp,
}

-- libmodbus's limits on one read.
abbrev pub modbus_max_read_bits : ℕ
modbus_max_read_bits = 2000

abbrev pub modbus_max_read_registers : ℕ
modbus_max_read_registers = 125

-- The number of values of uint8_t, uint16_t and size_t.
abbrev pub uint8_mod : ℕ
uint8_mod = 2 ^ 8

abbrev pub uint16_mod : ℕ
uint16_mod = 2 ^ 16

abbrev pub size_mod : ℕ
size_mod = 2 ^ 64

-- ECONNRESET
abbrev pub connection_reset : ℤ
connection_reset = pos 104

module _ (E : Env) where
  unfoldable pub get_errno : M E ℤ
  get_errno = gets (λ s. E.errno s.world)

  unfoldable pub set_modbus_errno_resp : ℤ → Ptr → ℤ → M E CString
  set_modbus_errno_resp tid handle errnum = do
    if eqb_ℤ errnum connection_reset then set_connected E handle false else pure tt
    pure (modbus_set_error_resp E tid (E.modbus_strerror errnum))

  -- A variable length array, set to zero.
  unfoldable pub zeroed_array : ℤ → M E (List ℕ)
  zeroed_array (pos zero) = fail bad_array_size
  zeroed_array (pos (suc n)) = pure (memset_zero (suc n))
  zeroed_array (negsuc n) = fail bad_array_size

  -- malloc (len * width) and memset to zero: the elements. memset of NULL is undefined.
  unfoldable pub zeroed_block : ℤ → ℕ → M E (List ℕ)
  zeroed_block len width = do
    got ← call E (E.malloc (to_unsigned size_mod len * width % size_mod))
    if got then pure (memset_zero (to_unsigned size_mod len)) else fail null_pointer

  -- What follows the switch of a read: the error, or the array of values. The debugging loop reads
  -- the elements below `ret`.
  unfoldable pub read_reply : Ptr → ℤ → ℤ → (List ℕ → E.Json) → ℤ × List ℕ → M E CString
  read_reply handle tid len to_array (ret, values) =
      if ltb_ℤ ret (pos 0)
      then (do errnum ← get_errno; set_modbus_errno_resp tid handle errnum)
      else if ltb_ℤ len ret
      then fail buffer_overflow
      else pure (set_modbus_with_data_ok_resp E tid (to_array values))

  -- What follows the switch of a write.
  unfoldable pub write_reply : Ptr → ℤ → ℤ → M E CString
  write_reply handle tid ret =
      if ltb_ℤ ret (pos 0)
      then (do errnum ← get_errno; set_modbus_errno_resp tid handle errnum)
      else pure (set_modbus_no_data_ok_resp E tid)

  abbrev pub wrong_function_code : ℤ → M E CString
  wrong_function_code tid = pure (modbus_set_error_resp E tid (c_str "Wrong function code"))

  unfoldable pub mbtcp_read_bit_req : ℕ → Ptr → Option E.Json → M E CString
  mbtcp_read_bit_req fc handle req = do
    addr ← json_get_int E req (c_str "addr")
    len ← json_get_int E req (c_str "len")
    tid ← json_get_int E req (c_str "tid")
    if ltb_ℤ (pos modbus_max_read_bits) len
        then pure (modbus_set_error_resp E tid (c_str "Too many bits requested"))
        else (do
          bits ← zeroed_array len
          if fc == 1
              then (do
                h ← load E handle
                r ← call_buffer E (E.modbus_read_bits h.ctx addr len bits)
                read_reply handle tid len (λ v. E.cjson_create_uint8_array v len) r)
              else if fc == 2
              then (do
                h ← load E handle
                r ← call_buffer E (E.modbus_read_input_bits h.ctx addr len bits)
                read_reply handle tid len (λ v. E.cjson_create_uint8_array v len) r)
              else wrong_function_code tid)

  unfoldable pub mbtcp_read_reg_req : ℕ → Ptr → Option E.Json → M E CString
  mbtcp_read_reg_req fc handle req = do
    addr ← json_get_int E req (c_str "addr")
    len ← json_get_int E req (c_str "len")
    tid ← json_get_int E req (c_str "tid")
    if ltb_ℤ (pos modbus_max_read_registers) len
        then pure (modbus_set_error_resp E tid (c_str "Too many registers requested"))
        else (do
          regs ← zeroed_array len
          if fc == 3
              then (do
                h ← load E handle
                r ← call_buffer E (E.modbus_read_registers h.ctx addr len regs)
                read_reply handle tid len (λ v. E.cjson_create_uint16_array v len) r)
              else if fc == 4
              then (do
                h ← load E handle
                r ← call_buffer E (E.modbus_read_input_registers h.ctx addr len regs)
                read_reply handle tid len (λ v. E.cjson_create_uint16_array v len) r)
              else wrong_function_code tid)

  unfoldable pub mbtcp_single_write_req : ℕ → Ptr → Option E.Json → M E CString
  mbtcp_single_write_req fc handle req = do
    addr ← json_get_int E req (c_str "addr")
    tid ← json_get_int E req (c_str "tid")
    value ← json_get_int E req (c_str "data")
    if fc == 5
        then (do
          h ← load E handle
          ret ← call E (E.modbus_write_bit h.ctx addr value)
          write_reply handle tid ret)
        else if fc == 6
        then (do
          h ← load E handle
          ret ← call E (E.modbus_write_register h.ctx addr value)
          write_reply handle tid ret)
        else wrong_function_code tid

  -- The loop over the items `i`, `i + 1`, … of `data`, with the rounds that are left: each is
  -- converted to an unsigned type of `m` values and written to the buffer.
  unfoldable pub copy_items : ℕ → E.Json → ℕ → ℕ → List ℕ → M E (List ℕ)
  copy_items m items zero i buffer = pure buffer
  copy_items m items (suc rounds) i buffer = do
    item ← not_null (E.cjson_get_array_item items i)
    let rest = copy_items m items rounds (suc i) (set buffer i (to_unsigned m (E.valueint item)))
    if ltb i (length buffer) then rest else fail buffer_overflow

  -- The buffer with the request's items: the block, and the loop up to cJSON_GetArraySize.
  unfoldable pub payload : ℕ → ℕ → ℤ → Option E.Json → M E (List ℕ)
  payload m width len req = do
    block ← zeroed_block len width
    items ← not_null (E.cjson_get_object_item req (c_str "data"))
    copy_items m items (E.cjson_get_array_size items) 0 block

  unfoldable pub mbtcp_multi_write_req : ℕ → Ptr → Option E.Json → M E CString
  mbtcp_multi_write_req fc handle req = do
    addr ← json_get_int E req (c_str "addr")
    len ← json_get_int E req (c_str "len")
    tid ← json_get_int E req (c_str "tid")
    if fc == 15
        then (do
          bits ← payload uint8_mod 1 len req
          h ← load E handle
          ret ← call E (E.modbus_write_bits h.ctx addr len bits)
          write_reply handle tid ret)
        else if fc == 16
        then (do
          regs ← payload uint16_mod 2 len req
          h ← load E handle
          ret ← call E (E.modbus_write_registers h.ctx addr len regs)
          write_reply handle tid ret)
        else wrong_function_code tid
