-- ===== src/Tests/Session.antt =====
-- A session: messages of several kinds, served in an environment whose memory is never short.
use modbusd.Prelude.{
  ◌≡◌, refl, ap, sym, ◌∙◌, str_eq_refl, Option, none, some, List, [], ◌∷◌, ◌++◌, true, arith,
  CString, c_str, str_eq, ltb, ◌^◌, lt→ltb, All,
}
use modbusd.Prelude.Int.{ℤ, pos, to_unsigned}
use modbusd.Env.{Env}
use modbusd.Env.Laws.{HashLaws, ModbusLaws, JsonLaws}
use modbusd.Daemon.{Daemon, ok, initial}
use modbusd.Handle.Registry.{IsRegistry}
use modbusd.Command.{uint32_mod, mbtcp_cmd_hanlder, mbtcp_fc1_req}
use modbusd.Command.Connection.{IsCommand}
use modbusd.Command.Progress.{command_returns}
use modbusd.Api.Implementation.{modbusd_c}
use modbusd.Main.{serve, main}
use modbusd.Main.Run.{IsConfig, Saved, main_runs}
use modbusd.Main.Restart.{LoadsSame, main_restarts}
use modbusd.Json.Header.{FileLaws, IsPrintable, json_c, json_c_restores}
use modbusd.Json.Fields.{HasInt, HasText}
use modbusd.Api.{fc1}
use modbusd.Main.Dispatch.{IsMessage}
use modbusd.Main.Traffic.{Traffic}
use modbusd.Main.Progress.{
  HasArguments, IsServable, empty, elsewhere, timeout, function, handler-Total, serve_answers,
}
use modbusd.Main.Abstract.{view, Run}
use modbusd.Main.Abstract.Whole.{opening, main-Run}
use modbusd.Tests.Abstract.{plain}
use modbusd.Tests.Trees.{Node, number, string, request, arguments, read_coils, config_file}
use modbusd.Tests.Toy.{Slave, toy, toy_hash, toy_modbus, toy_json, find_file}
use modbusd.Tests.States.{slave, address, service, address-IsField, service-IsField}

abbrev rich : Env
rich = record toy { malloc = λ n w. (ltb n (2 ^ 63), w) }

rich_hash : HashLaws rich
rich_hash = record {
  find-nil = toy_hash.find-nil;
  find-add_self = toy_hash.find-add_self;
  find-add_ne = toy_hash.find-add_ne;
  order-nil = toy_hash.order-nil;
  order-add = toy_hash.order-add;
}

rich_modbus : ModbusLaws rich
rich_modbus = record {
  read_bits = toy_modbus.read_bits;
  read_input_bits = toy_modbus.read_input_bits;
  read_registers = toy_modbus.read_registers;
  read_input_registers = toy_modbus.read_input_registers;
}

rich_json : JsonLaws rich
rich_json = record {
  item-null = toy_json.item-null;
  item-create = toy_json.item-create;
  item-add_self = toy_json.item-add_self;
  item-add_ne = toy_json.item-add_ne;
  valueint-create = toy_json.valueint-create;
  valueint-IsInt32 = toy_json.valueint-IsInt32;
  valuestring-create = toy_json.valuestring-create;
  array_item = toy_json.array_item;
}

abbrev session : List (Option (List CString))
session =
    some (c_str "tcp" ∷ c_str "read" ∷ [])
    ∷ none
    ∷ some (c_str "rtu" ∷ c_str "read" ∷ [])
    ∷ some (c_str "tcp" ∷ c_str "timeout" ∷ [])
    ∷ []

read-IsMessage : IsMessage rich (c_str "read") read_coils (pos 7) (c_str "fc1")
read-IsMessage = record {
  parses = refl;
  has_tid = (number (pos 7), refl, refl);
  has_cmd = (string (c_str "fc1"), refl, refl);
}

timeout-IsMessage :
    IsMessage rich
      (c_str "timeout")
      (request (c_str "timeout") (arguments 0 0 (number (pos 250000))))
      (pos 7)
      (c_str "timeout")
timeout-IsMessage = record {
  parses = refl;
  has_tid = (number (pos 7), refl, refl);
  has_cmd = (string (c_str "timeout"), refl, refl);
}

rich-IsCommand : IsCommand rich (some read_coils) (pos 7) (pos 1) address service
rich-IsCommand = record {
  has_tid = (number (pos 7), refl, refl);
  has_slave = (number (pos 1), refl, refl);
  has_ip = (string address, refl, refl);
  has_port = (string service, refl, refl);
  ip_fits = address-IsField;
  port_fits = service-IsField;
}

read-HasArguments : HasArguments rich fc1 (some read_coils)
read-HasArguments = record {
  addr = pos 4;
  n = 2;
  few = omega arith;
  has_addr = (number (pos 4), refl, refl);
  has_len = (number (pos 3), refl, refl);
}

session-IsServable : All (IsServable rich) session
session-IsServable = (
  function fc1 (c_str "read") [] read_coils (pos 7) (pos 1) address service read-IsMessage
      rich-IsCommand read-HasArguments,
  (
    empty,
    (
      elsewhere (c_str "rtu") (c_str "read") [] read_coils (pos 7) (c_str "fc1") read-IsMessage
          (λ e. ground (arith, ap (str_eq (c_str "rtu")) e)),
      (
        timeout (c_str "timeout") []
            (request (c_str "timeout") (arguments 0 0 (number (pos 250000)))) (pos 7) (pos 250000)
            timeout-IsMessage (number (pos 250000), refl, refl),
        tt,
      ),
    ),
  ),
)

rich-IsRegistry : IsRegistry (initial rich slave)
rich-IsRegistry = record {
  registered = λ p h e. ground arith;
  present = λ k p e. ground arith;
  order = refl;
}

serve_answers_example :
    (t : Daemon rich) × (out : List (CString × CString)) × (serve
        (modbusd_c rich)
        true
        session
        (initial rich slave)
      ≡ ok (tt, t))
    × (t.sent ≡ [] ++ out)
    × Traffic rich session out
serve_answers_example =
    serve_answers rich_hash rich_modbus rich_json (λ n w h. lt→ltb n (2 ^ 63) h) session
      (initial rich slave) rich-IsRegistry session-IsServable

command_returns_example :
    (r : CString × Daemon rich) × (mbtcp_cmd_hanlder rich
        (some read_coils)
        (mbtcp_fc1_req rich)
        (initial rich slave)
      ≡ ok r)
command_returns_example =
    command_returns (λ n w h. lt→ltb n (2 ^ 63) h) (some read_coils) (pos 7) (pos 1) address service
      rich-IsCommand (mbtcp_fc1_req rich)
      (handler-Total rich_hash rich_modbus rich_json (λ n w h. lt→ltb n (2 ^ 63) h) fc1
        (some read_coils) (pos 7) (number (pos 7), refl, refl) read-HasArguments)
      (initial rich slave) rich-IsRegistry

config_file-IsConfig : IsConfig rich (c_str "a.json") slave config_file
config_file-IsConfig = record {
  content = c_str "config";
  syslog = pos 0;
  usec = pos 300000;
  sub = c_str "ipc:///a";
  publ = c_str "ipc:///b";
  there = refl;
  short = omega arith;
  parses = refl;
  has_syslog = (number (pos 0), refl, refl);
  has_sub = (string (c_str "ipc:///a"), refl, refl);
  has_pub = (string (c_str "ipc:///b"), refl, refl);
  has_usec = (number (pos 300000), refl, refl);
}

main_runs_example :
    (t : Daemon rich) × (main (modbusd_c rich) (some (c_str "a.json")) session (initial rich slave)
      ≡ ok (tt, t))
    × Traffic rich session t.sent
    × Saved rich (c_str "a.json") slave config_file t.world
main_runs_example =
    main_runs rich_hash rich_modbus rich_json (λ n w h. lt→ltb n (2 ^ 63) h) (λ w. refl)
      (c_str "a.json") slave config_file config_file-IsConfig session session-IsServable

rich_files : FileLaws rich
rich_files = record {
  read_written = λ fname text w v e.
      ap (λ u. elim u [ none ↦ none | some x ↦ find_file fname x.files ]) (sym e)
      ∙ rw (str_eq_refl fname) refl;
}

config_file-IsPrintable : IsPrintable rich (c_str "a.json") config_file
config_file-IsPrintable = record {
  short = omega arith;
  parses_back = λ b. refl;
  opens = λ w e. ground arith;
}

main_restarts_example :
    (t u : Daemon rich) × (main
        (modbusd_c rich)
        (some (c_str "a.json"))
        session
        (initial rich slave)
      ≡ ok (tt, t))
    × (main (modbusd_c rich) (some (c_str "a.json")) session (initial rich t.world) ≡ ok (tt, u))
    × Traffic rich session t.sent
    × Traffic rich session u.sent
    × LoadsSame rich (c_str "a.json") slave t.world
main_restarts_example =
    main_restarts rich_hash rich_modbus rich_json (λ n w h. lt→ltb n (2 ^ 63) h) (λ w. refl)
      rich_files (c_str "a.json") slave config_file config_file-IsConfig config_file-IsPrintable
      session session session-IsServable session-IsServable

main-Run_example :
    (t : Daemon rich) × (main (modbusd_c rich) (some (c_str "a.json")) session (initial rich slave)
      ≡ ok (tt, t))
    × Run rich session
        (opening rich (to_unsigned uint32_mod config_file-IsConfig.usec))
        (view rich t)
main-Run_example =
    main-Run rich_hash rich_modbus rich_json (λ n w h. lt→ltb n (2 ^ 63) h) (λ w. refl)
      (c_str "a.json") slave config_file config_file-IsConfig session session-IsServable plain

json_c_restores_example :
    let api = json_c rich in
    (w v : Slave) × (api.json_to_file (c_str "a.json") (some config_file) (initial rich slave)
      ≡ ok (pos 0, record (initial rich slave) { world = w }))
    × ((out : Option Node) (t : Daemon rich)
        → t.world ≡ w
        → (loaded : Option Node) × (api.file_to_json (c_str "a.json") out t
            ≡ ok ((pos 0, loaded), record t { world = v }))
          × ((key : CString) (n : ℤ)
              → HasInt rich (some config_file) key n
              → (u : Daemon rich) → api.json_get_int loaded key u ≡ ok (n, u))
          × ((key text : CString)
              → HasText rich (some config_file) key text
              → (u : Daemon rich) → api.json_get_char loaded key u ≡ ok (some text, u)))
json_c_restores_example =
    json_c_restores rich_files (λ n w h. lt→ltb n (2 ^ 63) h) (c_str "a.json") config_file
      config_file-IsPrintable (initial rich slave)
