-- ===== src/Tests/Requests.antt =====
-- Instances of the theorems on requests and responses.
use modbusd.Prelude.{ℕ, ◌≡◌, refl, Option, some, List, [], ◌∷◌, true, arith, c_str}
use modbusd.Prelude.Int.{pos}
use modbusd.Daemon.{ok, stop, buffer_overflow, bad_array_size}
use modbusd.Json.Fields.{HasInt}
use modbusd.Response.{set_modbus_no_data_ok_resp, set_modbus_with_data_ok_resp}
use modbusd.Request.{
  uint8_mod, uint16_mod, mbtcp_read_bit_req, mbtcp_read_reg_req, mbtcp_multi_write_req,
}
use modbusd.Request.Reads.{read_not_positive, read_bit_answers}
use modbusd.Request.Writes.{
  IsBuffer, multi_write_bits_answers, multi_write_registers_answers, multi_write_overflows,
}
use modbusd.Tests.Trees.{Node, number, array, numbers, request, arguments}
use modbusd.Tests.Toy.{toy, toy_modbus, toy_json}
use modbusd.Tests.States.{slave, the_handle, one_handle}

-- A request with these arguments.
abbrev asking : ℕ → Node → Option Node
asking len value = some (request (c_str "fc") (arguments 4 len value))

abbrev plain : Node
plain = number (pos 9)

abbrev three_items : Node
three_items = array (numbers (1 ∷ 0 ∷ 65537 ∷ []))

has_addr : (len : ℕ) (value : Node) → HasInt toy (asking len value) (c_str "addr") (pos 4)
has_addr len value = (number (pos 4), refl, refl)

has_tid : (len : ℕ) (value : Node) → HasInt toy (asking len value) (c_str "tid") (pos 7)
has_tid len value = (number (pos 7), refl, refl)

read_not_positive_example :
    (mbtcp_read_bit_req toy 1 (some 0) (asking 0 plain) (one_handle slave true)
      ≡ stop bad_array_size)
    × (mbtcp_read_reg_req toy 1 (some 0) (asking 0 plain) (one_handle slave true)
        ≡ stop bad_array_size)
read_not_positive_example =
    read_not_positive 1 (asking 0 plain) (one_handle slave true) (pos 4) (pos 0) (pos 7)
      (has_addr 0 plain) (number (pos 0), refl, refl) (has_tid 0 plain) (some 0) refl

read_bit_answers_example :
    mbtcp_read_bit_req toy 2 (some 0) (asking 3 plain) (one_handle slave true)
    ≡ ok (
      set_modbus_with_data_ok_resp toy (pos 7) (array (numbers (1 ∷ 2 ∷ 3 ∷ []))),
      one_handle (record slave { calls = 1 }) true,
    )
read_bit_answers_example =
    read_bit_answers toy_modbus 2 (asking 3 plain) (one_handle slave true) (pos 4) (pos 7) 2
      (has_addr 3 plain) (number (pos 3), refl, refl) (has_tid 3 plain) 0 (the_handle true) refl
      toy.modbus_read_input_bits (omega arith) refl

multi_write_bits_answers_example :
    (b : List ℕ) × IsBuffer toy_json
      (asking 4 three_items)
      (one_handle slave true)
      (pos 4)
      (pos 7)
      4
      (omega arith)
      (has_addr 4 three_items)
      (number (pos 4), refl, refl)
      (has_tid 4 three_items)
      three_items
      refl
      uint8_mod
      b
    × (mbtcp_multi_write_req toy 15 (some 0) (asking 4 three_items) (one_handle slave true)
        ≡ ok (set_modbus_no_data_ok_resp toy (pos 7), one_handle (record slave { calls = 1 }) true))
multi_write_bits_answers_example =
    multi_write_bits_answers toy_json (asking 4 three_items) (one_handle slave true) (pos 4) (pos 7)
      4 (omega arith) (has_addr 4 three_items) (number (pos 4), refl, refl) (has_tid 4 three_items)
      three_items refl 0 (the_handle true) refl refl (omega arith)

multi_write_registers_answers_example :
    (b : List ℕ) × IsBuffer toy_json
      (asking 4 three_items)
      (one_handle slave true)
      (pos 4)
      (pos 7)
      4
      (omega arith)
      (has_addr 4 three_items)
      (number (pos 4), refl, refl)
      (has_tid 4 three_items)
      three_items
      refl
      uint16_mod
      b
    × (mbtcp_multi_write_req toy 16 (some 0) (asking 4 three_items) (one_handle slave true)
        ≡ ok (set_modbus_no_data_ok_resp toy (pos 7), one_handle (record slave { calls = 1 }) true))
multi_write_registers_answers_example =
    multi_write_registers_answers toy_json (asking 4 three_items) (one_handle slave true) (pos 4)
      (pos 7) 4 (omega arith) (has_addr 4 three_items) (number (pos 4), refl, refl)
      (has_tid 4 three_items) three_items refl 0 (the_handle true) refl refl (omega arith)

multi_write_overflows_example :
    ((true ≡ true)
      → mbtcp_multi_write_req toy 15 (some 0) (asking 2 three_items) (one_handle slave true)
        ≡ stop buffer_overflow)
    × ((true ≡ true)
        → mbtcp_multi_write_req toy 16 (some 0) (asking 2 three_items) (one_handle slave true)
          ≡ stop buffer_overflow)
multi_write_overflows_example =
    multi_write_overflows toy_json (asking 2 three_items) (one_handle slave true) (pos 4) (pos 7) 2
      (omega arith) (has_addr 2 three_items) (number (pos 2), refl, refl) (has_tid 2 three_items)
      three_items refl (some 0) (omega arith)
