-- ===== src/Tests/Contracts.antt =====
-- Instances of the theorems on the two headers, the static functions and the pool.
use modbusd.Prelude.{◌≡◌, some, [], ◌∷◌, true, false, c_str, map}
use modbusd.Daemon.{ok}
use modbusd.Daemon.Exec.{Returned}
use modbusd.Response.{set_modbus_no_data_ok_resp, set_modbus_with_data_ok_resp}
use modbusd.Handle.{get_or_init, lazy_init_mbtcp_handle, lazy_mbtcp_connect, mbtcp_list_handles}
use modbusd.Handle.Listing.{shown, mbtcp_list_handles_all}
use modbusd.Handle.Pool.{pool, Evolves}
use modbusd.Handle.Pool.Opens.{Opens, get_or_init-Opens}
use modbusd.Request.{
  set_modbus_errno_resp, mbtcp_read_bit_req, mbtcp_read_reg_req, mbtcp_single_write_req,
  mbtcp_multi_write_req,
}
use modbusd.Prelude.Int.{pos}
use modbusd.Command.{mbtcp_cmd_hanlder}
use modbusd.Api.{fc1, handler}
use modbusd.Api.Isolation.Touches.{Touches, command-Touches}
use modbusd.Api.Promises.{IsModbusd}
use modbusd.Api.Implementation.{modbusd_c}
use modbusd.Api.Kept.{modbusd_c-IsModbusd}
use modbusd.Main.{serve}
use modbusd.Main.Keeps.{serve-Evolves}
use modbusd.Static.{
  LazyInitContract, LazyConnectContract, ErrnoContract, NoDataContract, WithDataContract,
  ReadBitContract, ReadRegContract, SingleWriteContract, MultiWriteContract,
}
use modbusd.Static.Kept.{modbusd_statics}
use modbusd.Tests.Trees.{read_coils}
use modbusd.Tests.Toy.{toy, toy_hash, toy_modbus, toy_json}
use modbusd.Tests.States.{
  slave, start, one_handle, start-IsRegistry, one_handle-IsRegistry, address, service,
  address-IsField, service-IsField, read-IsCommand,
}

modbusd_c-IsModbusd_example : IsModbusd toy_json (modbusd_c toy)
modbusd_c-IsModbusd_example = modbusd_c-IsModbusd toy_hash toy_modbus toy_json

modbusd_statics_example :
    LazyInitContract toy (lazy_init_mbtcp_handle toy)
    × LazyConnectContract toy (lazy_mbtcp_connect toy)
    × ErrnoContract toy (set_modbus_errno_resp toy)
    × NoDataContract toy (set_modbus_no_data_ok_resp toy)
    × WithDataContract toy (set_modbus_with_data_ok_resp toy)
    × ReadBitContract toy (mbtcp_read_bit_req toy)
    × ReadRegContract toy (mbtcp_read_reg_req toy)
    × SingleWriteContract toy (mbtcp_single_write_req toy)
    × MultiWriteContract toy toy_json (mbtcp_multi_write_req toy)
modbusd_statics_example = modbusd_statics toy_modbus toy_json

get_or_init-Opens_example :
    Returned
      (λ r t. Opens address service r.0 (pool (start slave)) (pool t))
      (get_or_init toy (some address) (some service) (start slave))
get_or_init-Opens_example =
    get_or_init-Opens toy_hash (start slave) (start-IsRegistry slave) address service
      address-IsField service-IsField

mbtcp_list_handles_all_example :
    mbtcp_list_handles toy (one_handle slave true)
    ≡ ok
        (map (shown (one_handle slave true)) (one_handle slave true).handles, one_handle slave true)
mbtcp_list_handles_all_example =
    mbtcp_list_handles_all (one_handle slave true) (one_handle-IsRegistry slave true)

serve-Evolves_example :
    Returned
      (λ _ t. Evolves (pool (one_handle slave true)) (pool t))
      (serve
        (modbusd_c toy)
        true
        (some (c_str "tcp" ∷ c_str "read" ∷ []) ∷ [])
        (one_handle slave true))
serve-Evolves_example =
    serve-Evolves toy_hash true (some (c_str "tcp" ∷ c_str "read" ∷ []) ∷ [])
      (one_handle slave true) (one_handle-IsRegistry slave true)

command-Touches_example :
    Returned
      (λ reply t.
        Touches toy (pos 7) address service (pool (one_handle slave false)) (pool t) reply)
      (mbtcp_cmd_hanlder toy
        (some read_coils)
        (handler (modbusd_c toy) fc1)
        (one_handle slave false))
command-Touches_example =
    command-Touches toy_hash (some read_coils) (pos 7) address service read-IsCommand.has_tid
      read-IsCommand.has_ip read-IsCommand.has_port address-IsField service-IsField fc1
      (one_handle slave false) (one_handle-IsRegistry slave false)
