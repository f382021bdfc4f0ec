-- ===== src/Tests/Calls.antt =====
-- Instances of the theorems on the calls of libmodbus.
use modbusd.Prelude.{◌≡◌, refl, Option, some, none, List, [], ◌∷◌, true, c_str, CString, arith}
use modbusd.Prelude.Int.{pos}
use modbusd.Env.{Env}
use modbusd.Env.Ledger.{
  Ledger, Call, opens, sets_timeout, sets_slave, connects, requests, read_bits,
}
use modbusd.Env.Recorder.{recorded, recording, recorded_ledger}
use modbusd.Daemon.{Daemon, Outcome, ok, stop, initial}
use modbusd.Daemon.Exec.{Returned}
use modbusd.Api.Implementation.{modbusd_c}
use modbusd.Key.{strcpy, key_bytes}
use modbusd.Daemon.{load, store, set_connected, ◌>>=◌}
use modbusd.Json.{parse_block, json_get_int, json_get_char}
use modbusd.Handle.{
  lazy_init_mbtcp_handle, get_or_init, mbtcp_get_handle, find_handle, fill_key, copy_field,
  mbtcp_init_handle, register, make_handle, add_handle, with_handle, mbtcp_do_connect,
  mbtcp_get_connection_status, lazy_mbtcp_connect,
}
use modbusd.Request.{mbtcp_read_bit_req, zeroed_array, read_reply}
use modbusd.Response.{set_modbus_with_data_ok_resp, data_object}
use modbusd.Command.{mbtcp_cmd_hanlder, request_on, mbtcp_fc1_req}
use modbusd.Main.{
  serve, main, handle_message, handle_json, handle_request, tcp_response, send_modbus_zmq_resp,
}
use modbusd.Protocol.{Protocol, idle, IsSound}
use modbusd.Protocol.Run.{main-Protocol, serve-IsSound}
use modbusd.Tests.Toy.{toy}
use modbusd.Tests.States.{slave}

abbrev toys : Env
toys = recorded toy

abbrev ledger : Ledger toys
ledger = recorded_ledger toy

abbrev first : Daemon toys
first = initial toys (recording toy slave)

first-IsSound : IsSound ledger first
unfolding recorded_ledger
first-IsSound = record {
  protocol = idle;
  backed = record {
    known = λ p h e. ground arith;
    own = λ p q h g e f i. ground arith;
    flag_up = λ p h e on. ground arith;
    flag_down = λ p h e off. ground arith;
  };
}

abbrev reads : List (Option (List CString))
reads = some (c_str "tcp" ∷ c_str "read" ∷ []) ∷ none ∷ some (c_str "tcp" ∷ c_str "read" ∷ []) ∷ []

serve-IsSound_example : Returned (λ _ t. IsSound ledger t) (serve (modbusd_c toys) true reads first)
serve-IsSound_example = serve-IsSound ledger true reads first first-IsSound

main-Protocol_example :
    Returned
      (λ _ t. Protocol (ledger.calls t.world))
      (main (modbusd_c toys) (some (c_str "a.json")) reads first)
unfolding recorded_ledger
main-Protocol_example =
    main-Protocol ledger (some (c_str "a.json")) reads (recording toy slave) refl

abbrev calls_of : {A : Type 0} → Outcome (A × Daemon toys) → List (Call toys.Ctx)
calls_of (ok (a, t)) = t.world.calls
calls_of (stop e) = []

-- Two reads of one endpoint: it is opened and connected once.
two_reads_calls :
    calls_of (serve (modbusd_c toys) true reads first)
    ≡ requests (0, 0) (read_bits (pos 4) (pos 3)) (pos 3) (pos 111)
      ∷ sets_slave (0, 0) (pos 1)
      ∷ requests (0, 0) (read_bits (pos 4) (pos 3)) (pos 3) (pos 111)
      ∷ sets_slave (0, 0) (pos 1)
      ∷ connects (0, 0) (pos 0)
      ∷ sets_timeout (0, 0) 0 200000
      ∷ opens (0, 0)
      ∷ []
unfolding serve handle_message handle_json handle_request tcp_response send_modbus_zmq_resp ◌>>=◌
    parse_block json_get_int json_get_char mbtcp_cmd_hanlder lazy_init_mbtcp_handle get_or_init
    mbtcp_get_handle find_handle fill_key copy_field strcpy key_bytes mbtcp_init_handle register
    make_handle add_handle with_handle mbtcp_do_connect mbtcp_get_connection_status
    lazy_mbtcp_connect load store set_connected request_on mbtcp_fc1_req mbtcp_read_bit_req
    zeroed_array read_reply set_modbus_with_data_ok_resp data_object
two_reads_calls = refl
