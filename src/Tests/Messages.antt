-- ===== src/Tests/Messages.antt =====
-- Instances of the theorems on the loop, the messages, the configuration and the log.
use modbusd.Prelude.{
  ◌≡◌, refl, Option, none, some, List, [], ◌∷◌, ◌++◌, true, arith, CString, c_str,
}
use modbusd.Prelude.Int.{pos}
use modbusd.Daemon.{ok, stop, null_pointer, buffer_overflow, and_then}
use modbusd.Daemon.Exec.{Returned}
use modbusd.Handle.Registry.{IsRegistry}
use modbusd.Command.{mbtcp_cmd_hanlder, mbtcp_fc1_req}
use modbusd.Api.Implementation.{modbusd_c}
use modbusd.Main.{handle_message, serve}
use modbusd.Main.Keeps.{serve-IsRegistry}
use modbusd.Main.Traffic.{Traffic, serve-Traffic}
use modbusd.Main.Faults.{unparsable_stops, long_ip_stops}
use modbusd.Api.{fc1}
use modbusd.Main.Dispatch.{published, IsMessage, function_message}
use modbusd.Main.Delivery.{read_delivers, write_delivers}
use modbusd.Api.Codes.{coils, coil}
use modbusd.Response.{set_modbus_no_data_ok_resp, set_modbus_with_data_ok_resp}
use modbusd.Tests.Trees.{
  Node, array, numbers, number, string, object, member, end, read_coils, write_coil,
}
use modbusd.Tests.Toy.{toy, toy_hash, toy_modbus, toy_json}
use modbusd.Tests.States.{
  slave, start, start-IsRegistry, one_handle, the_handle, found, read-IsCommand, request-IsCommand,
  address, service,
}

abbrev tcp : CString
tcp = c_str "tcp"

abbrev messages : List (Option (List CString))
messages =
    some (tcp ∷ c_str "read" ∷ [])
    ∷ none
    ∷ some (c_str "rtu" ∷ c_str "read" ∷ [])
    ∷ some (tcp ∷ c_str "timeout" ∷ c_str "more" ∷ [])
    ∷ []

serve-Traffic_example :
    Returned
      (λ _ t. (out : List (CString × CString)) × (t.sent ≡ [] ++ out) × Traffic toy messages out)
      (serve (modbusd_c toy) true messages (start slave))
serve-Traffic_example = serve-Traffic toy_hash toy_json messages (start slave)

serve-IsRegistry_example :
    Returned (λ _ t. IsRegistry t) (serve (modbusd_c toy) true messages (start slave))
serve-IsRegistry_example =
    serve-IsRegistry toy_hash true messages (start slave) (start-IsRegistry slave)

read-IsMessage : IsMessage toy (c_str "read") read_coils (pos 7) (c_str "fc1")
read-IsMessage = record {
  parses = refl;
  has_tid = (number (pos 7), refl, refl);
  has_cmd = (string (c_str "fc1"), refl, refl);
}

function_message_example :
    handle_message (modbusd_c toy) true (tcp ∷ c_str "read" ∷ []) (start slave)
    ≡ and_then
        (mbtcp_cmd_hanlder toy (some read_coils) (mbtcp_fc1_req toy) (start slave))
        (λ resp t. ok (tt, published toy tcp resp t))
function_message_example =
    function_message (c_str "read") [] read_coils (pos 7) fc1 read-IsMessage (start slave)

-- The toy slave gives 1, 2 and 3 for the three coils.
read_delivers_example :
    handle_message (modbusd_c toy) true (tcp ∷ c_str "read" ∷ []) (one_handle slave true)
    ≡ ok (
      tt,
      published toy tcp
          (set_modbus_with_data_ok_resp toy (pos 7) (array (numbers (1 ∷ 2 ∷ 3 ∷ []))))
          (one_handle (record slave { calls = 1 }) true),
    )
read_delivers_example =
    read_delivers toy_modbus coils (c_str "read") [] read_coils (pos 4) (pos 7) (pos 1) 2 address
      service read-IsMessage read-IsCommand (number (pos 4), refl, refl)
      (number (pos 3), refl, refl) (omega arith) (one_handle slave true) 0 (the_handle true)
      (found slave true) refl refl

write-IsMessage : IsMessage toy (c_str "write") write_coil (pos 7) (c_str "fc5")
write-IsMessage = record {
  parses = refl;
  has_tid = (number (pos 7), refl, refl);
  has_cmd = (string (c_str "fc5"), refl, refl);
}

write_delivers_example :
    handle_message (modbusd_c toy) true (tcp ∷ c_str "write" ∷ []) (one_handle slave true)
    ≡ ok (
      tt,
      published toy tcp
          (set_modbus_no_data_ok_resp toy (pos 7))
          (one_handle (record slave { calls = 1 }) true),
    )
write_delivers_example =
    write_delivers coil (c_str "write") [] write_coil (pos 4) (pos 7) (pos 1) (pos 1) address
      service write-IsMessage (request-IsCommand _ _) (number (pos 4), refl, refl)
      (number (pos 1), refl, refl) (one_handle slave true) 0 (the_handle true) (found slave true)
      refl refl

unparsable_stops_example :
    handle_message (modbusd_c toy) true (tcp ∷ c_str "junk" ∷ []) (start slave) ≡ stop null_pointer
unparsable_stops_example = unparsable_stops true tcp (c_str "junk") [] (start slave) toy_json refl

abbrev long_address : CString
long_address = c_str "aaaaaaaaaabbbbbbbbbbccccccccccddddddddddeeeeeeeeee"

abbrev long_request : Option Node
long_request = some (
    object (
      member (c_str "ip") (string long_address)
        (member (c_str "port") (string service) (member (c_str "tid") (number (pos 7)) end))))

long_ip_stops_example :
    mbtcp_cmd_hanlder toy long_request (mbtcp_fc1_req toy) (start slave) ≡ stop buffer_overflow
long_ip_stops_example =
    long_ip_stops long_request (pos 7) (number (pos 7), refl, refl) (start slave) long_address
      service (mbtcp_fc1_req toy) (string long_address, refl, refl) (string service, refl, refl)
      (omega arith)
