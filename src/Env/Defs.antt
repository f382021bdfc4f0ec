-- ===== src/Env/Defs.antt =====
-- What modbusd links against and does not implement: libmodbus, uthash, cJSON, czmq, the C library.
-- Every operation that modbusd.c, main.c and json.c call is a field here, at the type at which they
-- call it; `World` is the state behind those libraries (sockets, contexts, files, the allocator).
-- What the program relies on is stated in `Env/Laws.antt` and is no part of this record.
use modbusd.Prelude.{ℕ, Bool, Option, List}
use modbusd.Prelude.{CString}
use modbusd.Prelude.Int.{ℤ}

-- What cJSON_Parse does on a block: it gives a node, NULL, or reads on beyond the block.
pub data Parse (J : Type 0) : Type 0 where
  parsed : J → Parse J
  syntax_error : Parse J
  overrun : Parse J

pub record Env : Type 1 where
  pub World : Type 0
  -- A modbus_t, a cJSON node and a uthash head. A pointer that may be NULL is an `Option`.
  pub Ctx : Type 0
  pub Json : Type 0
  pub Table : Type 0
  -- libmodbus. A call gives its return value and, where it fills a buffer, the buffer.
  pub modbus_new_tcp_pi : Option CString → Option CString → World → Option Ctx × World
  pub modbus_set_response_timeout : Ctx → ℕ → ℕ → World → World
  pub modbus_set_slave : Ctx → ℤ → World → World
  pub modbus_connect : Ctx → World → ℤ × World
  pub modbus_read_bits : Ctx → ℤ → ℤ → List ℕ → World → ℤ × List ℕ × World
  pub modbus_read_input_bits : Ctx → ℤ → ℤ → List ℕ → World → ℤ × List ℕ × World
  pub modbus_read_registers : Ctx → ℤ → ℤ → List ℕ → World → ℤ × List ℕ × World
  pub modbus_read_input_registers : Ctx → ℤ → ℤ → List ℕ → World → ℤ × List ℕ × World
  pub modbus_write_bit : Ctx → ℤ → ℤ → World → ℤ × World
  pub modbus_write_register : Ctx → ℤ → ℤ → World → ℤ × World
  pub modbus_write_bits : Ctx → ℤ → ℤ → List ℕ → World → ℤ × World
  pub modbus_write_registers : Ctx → ℤ → ℤ → List ℕ → World → ℤ × World
  pub modbus_strerror : ℤ → CString
  -- uthash over the bytes of a key. An entry is the address of a handle.
  pub hash_nil : Table
  pub hash_find : List ℕ → Table → Option ℕ
  pub hash_add : List ℕ → ℕ → Table → Table
  -- The addresses from the head along `hh.next`.
  pub hash_order : Table → List ℕ
  -- cJSON. Nodes are values: `add_item` gives the object with its new last member. The parser
  -- reads a block of memory of which it does not know the length.
  pub cjson_parse : List ℕ → Parse Json
  pub cjson_get_object_item : Option Json → CString → Option Json
  pub cjson_get_array_size : Json → ℕ
  pub cjson_get_array_item : Json → ℕ → Option Json
  pub valueint : Json → ℤ
  pub valuestring : Json → Option CString
  pub cjson_create_object : Json
  pub cjson_create_number : ℤ → Json
  pub cjson_create_string : CString → Json
  pub cjson_create_uint8_array : List ℕ → ℤ → Json
  pub cjson_create_uint16_array : List ℕ → ℤ → Json
  pub cjson_add_item : Json → CString → Json → Json
  pub cjson_delete : Json → World → World
  pub cjson_print : Json → CString
  pub cjson_print_unformatted : Json → CString
  -- The C library: errno, malloc (whether it gives memory), the files, and the byte that a fresh
  -- block holds at an offset.
  pub errno : World → ℤ
  pub malloc : ℕ → World → Bool × World
  pub fresh_byte : World → ℕ → ℕ
  pub read_file : CString → World → Option (List ℕ)
  pub write_file : CString → CString → World → Option World
  -- czmq: whether the publisher's socket could be made, and the two binds.
  pub zsocket_new_pub : World → Bool × World
  pub zsocket_bind_sub : CString → World → World
  pub zsocket_bind_pub : CString → World → World
