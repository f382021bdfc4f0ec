-- ===== src/Tests/Commands.antt =====
-- Instances of the theorems on keys, handles and commands.
use modbusd.Prelude.{◌≡◌, ◌≢◌, refl, some, true, false, c_str, arith, length}
use modbusd.Prelude.Int.{pos, negsuc}
use modbusd.Key.{Key, key_bytes}
use modbusd.Handle.Keys.{fill_key-separates}
use modbusd.Daemon.{ok}
use modbusd.Response.{modbus_set_error_resp}
use modbusd.Handle.{get_or_init, fill_key}
use modbusd.Handle.Lookup.{get_or_init-fresh}
use modbusd.Command.{mbtcp_cmd_hanlder, mbtcp_fc1_req}
use modbusd.Command.Flow.{command_connected, command_disconnected, command_first_refused}
use modbusd.Tests.Trees.{read_coils}
use modbusd.Tests.Toy.{toy}
use modbusd.Tests.States.{
  slave, unreachable, address, service, the_handle, start, one_handle, found, address-IsField,
  service-IsField, read-IsCommand,
}

-- "1" and "23", and "12" and "3": the same bytes if they were not padded.
fill_key-separates_example :
    (k k' : Key) × (fill_key toy (some (c_str "1")) (some (c_str "23")) (start slave)
      ≡ ok (k, start slave))
    × (fill_key toy (some (c_str "12")) (some (c_str "3")) (start slave) ≡ ok (k', start slave))
    × (length (key_bytes k) ≡ 100)
    × (length (key_bytes k') ≡ 100)
    × (key_bytes k ≢ key_bytes k')
fill_key-separates_example =
    fill_key-separates toy (c_str "1") (c_str "23") (c_str "12") (c_str "3")
      (record { text = omega arith; fits = omega arith })
      (record { text = omega arith; fits = omega arith })
      (record { text = omega arith; fits = omega arith })
      (record { text = omega arith; fits = omega arith }) (λ h. ground (arith, h.0)) (start slave)
      (start slave)

get_or_init-fresh_example :
    get_or_init toy (some address) (some service) (start slave)
    ≡ ok ((true, some 0), record (one_handle slave true) { world = record slave { connects = 1 } })
get_or_init-fresh_example =
    get_or_init-fresh address service address-IsField service-IsField (start slave) 0 refl refl refl

command_connected_example :
    mbtcp_cmd_hanlder toy (some read_coils) (mbtcp_fc1_req toy) (one_handle slave true)
    ≡ mbtcp_fc1_req toy (some 0) (some read_coils) (one_handle slave true)
command_connected_example =
    command_connected (some read_coils) (pos 7) (pos 1) address service read-IsCommand
      (mbtcp_fc1_req toy) (one_handle slave true) 0 (the_handle true) (found slave true) refl refl

command_disconnected_example :
    ((pos 0 ≡ negsuc 0)
      → mbtcp_cmd_hanlder toy (some read_coils) (mbtcp_fc1_req toy) (one_handle slave false)
        ≡ ok (
          modbus_set_error_resp toy (pos 7) (c_str "error"),
          record (one_handle slave false) { world = record slave { connects = 1 } },
        ))
    × ((pos 0 ≢ negsuc 0)
        → mbtcp_cmd_hanlder toy (some read_coils) (mbtcp_fc1_req toy) (one_handle slave false)
          ≡ mbtcp_fc1_req toy
              (some 0)
              (some read_coils)
              (record (one_handle slave true) { world = record slave { connects = 1 } }))
command_disconnected_example =
    command_disconnected (some read_coils) (pos 7) (pos 1) address service read-IsCommand
      (mbtcp_fc1_req toy) (one_handle slave false) 0 (the_handle false) (found slave false) refl
      refl

command_first_refused_example :
    mbtcp_cmd_hanlder toy (some read_coils) (mbtcp_fc1_req toy) (start unreachable)
    ≡ ok (
      modbus_set_error_resp toy (pos 7) (c_str "error"),
      record (one_handle unreachable false) { world = record unreachable { connects = 2 } },
    )
command_first_refused_example =
    command_first_refused (some read_coils) (pos 7) (pos 1) address service read-IsCommand
      (mbtcp_fc1_req toy) (start unreachable) 0 refl refl refl refl refl
