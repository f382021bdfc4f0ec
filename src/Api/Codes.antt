-- ===== src/Api/Codes.antt =====
-- The function codes and the functions of libmodbus that serve them.
use modbusd.Prelude.{
  ℕ, suc, ◌*◌, ◌≤◌, ◌<◌, ◌≡◌, refl, Option, some, List, c_str, get_elem?, ◌^◌, true,
}
use modbusd.Prelude.Int.{ℤ, pos}
use modbusd.Env.{Env}
use modbusd.Env.Laws.{ModbusLaws, JsonLaws}
use modbusd.Daemon.{Daemon, Handle}
use modbusd.Json.Fields.{HasInt}
use modbusd.Request.{uint8_mod, uint16_mod}
use modbusd.Request.Reads.{Reader, served, read_bit_answers, read_reg_answers}
use modbusd.Request.Writes.{
  written, single_write_answers, IsBuffer, multi_write_bits_answers, multi_write_registers_answers,
}
use modbusd.Command.{
  mbtcp_fc1_req, mbtcp_fc2_req, mbtcp_fc3_req, mbtcp_fc4_req, mbtcp_fc5_req, mbtcp_fc6_req,
  mbtcp_fc15_req, mbtcp_fc16_req,
}
use modbusd.Api.{Function, fc1, fc2, fc3, fc4, fc5, fc6, fc15, fc16, handler}
use modbusd.Api.Implementation.{modbusd_c}

module _ (E : Env) where
  -- The function codes that read: how many items at most, libmodbus's function, and the array that the
  -- response has.
  pub data ReadCode : Function → ℕ → Reader E → (List ℕ → ℤ → E.Json) → Type 0 where
    coils : ReadCode fc1 2000 E.modbus_read_bits E.cjson_create_uint8_array
    inputs : ReadCode fc2 2000 E.modbus_read_input_bits E.cjson_create_uint8_array
    holding : ReadCode fc3 125 E.modbus_read_registers E.cjson_create_uint16_array
    input_registers : ReadCode fc4 125 E.modbus_read_input_registers E.cjson_create_uint16_array

module _ (E : Env) where
  -- The function codes that write one item, with libmodbus's function.
  pub data WriteCode : Function → (E.Ctx → ℤ → ℤ → E.World → ℤ × E.World) → Type 0 where
    coil : WriteCode fc5 E.modbus_write_bit
    register : WriteCode fc6 E.modbus_write_register

module _ (E : Env) where
  -- The function codes that write several items: the size of an item, its range, and libmodbus's
  -- function.
  pub data MultiCode
      : Function → ℕ → ℕ → (E.Ctx → ℤ → ℤ → List ℕ → E.World → ℤ × E.World) → Type 0 where
    several_coils : MultiCode fc15 1 uint8_mod E.modbus_write_bits
    several_registers : MultiCode fc16 2 uint16_mod E.modbus_write_registers

module _ {E : Env} (laws : ModbusLaws E) (req : Option E.Json) (addr tid : ℤ) (n : ℕ)
    (has_addr : HasInt E req (c_str "addr") addr)
    (has_len : HasInt E req (c_str "len") (pos (suc n))) (has_tid : HasInt E req (c_str "tid") tid)
    (s : Daemon E) (p : ℕ) (h : Handle E) (at : get_elem? s.handles p ≡ some h) where
  pub handler_read :
      {f : Function} {limit : ℕ} {read : Reader E} {array : List ℕ → ℤ → E.Json}
      → ReadCode E f limit read array
      → suc n ≤ limit
      → handler (modbusd_c E) f (some p) req s
        ≡ served s addr tid (suc n) p h (λ v. array v (pos (suc n))) read
  unfolding mbtcp_fc1_req mbtcp_fc2_req mbtcp_fc3_req mbtcp_fc4_req
  handler_read coils few =
      read_bit_answers laws 1 req s addr tid n has_addr has_len has_tid p h at _ few refl
  handler_read inputs few =
      read_bit_answers laws 2 req s addr tid n has_addr has_len has_tid p h at _ few refl
  handler_read holding few =
      read_reg_answers laws 3 req s addr tid n has_addr has_len has_tid p h at _ few refl
  handler_read input_registers few =
      read_reg_answers laws 4 req s addr tid n has_addr has_len has_tid p h at _ few refl

module _ {E : Env} (req : Option E.Json) (addr tid value : ℤ)
    (has_addr : HasInt E req (c_str "addr") addr) (has_tid : HasInt E req (c_str "tid") tid)
    (has_data : HasInt E req (c_str "data") value) (s : Daemon E) (p : ℕ) (h : Handle E)
    (at : get_elem? s.handles p ≡ some h) where
  pub handler_write :
      {f : Function} {write : E.Ctx → ℤ → ℤ → E.World → ℤ × E.World}
      → WriteCode E f write
      → handler (modbusd_c E) f (some p) req s ≡ written s tid p h (λ c. write c addr value)
  unfolding mbtcp_fc5_req mbtcp_fc6_req
  handler_write coil =
      (single_write_answers req s addr tid value has_addr has_tid has_data p h at).0
  handler_write register =
      (single_write_answers req s addr tid value has_addr has_tid has_data p h at).1

module _ {E : Env} (laws : JsonLaws E) (req : Option E.Json) (s : Daemon E) (addr tid : ℤ) (n : ℕ)
    (small : n < 2 ^ 31) (has_addr : HasInt E req (c_str "addr") addr)
    (has_len : HasInt E req (c_str "len") (pos n)) (has_tid : HasInt E req (c_str "tid") tid)
    (items : E.Json) (has_data : E.cjson_get_object_item req (c_str "data") ≡ some items) (p : ℕ)
    (h : Handle E) (at : get_elem? s.handles p ≡ some h) where
  pub handler_multi :
      {f : Function} {width m : ℕ} {write : E.Ctx → ℤ → ℤ → List ℕ → E.World → ℤ × E.World}
      → MultiCode E f width m write
      → (E.malloc (n * width) s.world).0 ≡ true
      → E.cjson_get_array_size items ≤ n
      → (b : List ℕ) × IsBuffer laws req s addr tid n small has_addr has_len has_tid items has_data
          m b
        × (handler (modbusd_c E) f (some p) req s
            ≡ written
                (record s { world = (E.malloc (n * width) s.world).1 })
                tid
                p
                h
                (λ c. write c addr (pos n) b))
  unfolding mbtcp_fc15_req mbtcp_fc16_req
  handler_multi several_coils got fits =
      multi_write_bits_answers laws req s addr tid n small has_addr has_len has_tid items has_data p
        h at got fits
  handler_multi several_registers got fits =
      multi_write_registers_answers laws req s addr tid n small has_addr has_len has_tid items
        has_data p h at got fits
