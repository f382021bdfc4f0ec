-- ===== src/Main/Faults.antt =====
-- Messages that end the daemon, and requests that it refuses.
use modbusd.Prelude.{
  ◌≤◌, ◌≡◌, Option, none, some, List, [], ◌∷◌, ◌++◌, Bool, CString, c_str, length,
}
use modbusd.Prelude.Int.{ℤ}
use modbusd.Env.{Env, parsed, syntax_error, overrun}
use modbusd.Env.Laws.{JsonLaws}
use modbusd.Key.{field_size}
use modbusd.Daemon.{Daemon, stop, null_pointer, buffer_overflow, ◌>>=◌}
use modbusd.Json.{parse_block}
use modbusd.Json.Fields.{
  HasInt, HasText, json_get_int-HasInt, json_get_int-missing, json_get_char-HasText,
}
use modbusd.Handle.{mbtcp_get_handle, get_or_init, lazy_init_mbtcp_handle}
use modbusd.Handle.Lookup.{fill_key-overflows}
use modbusd.Command.{MbtcpFc, mbtcp_cmd_hanlder}
use modbusd.Api.Implementation.{modbusd_c}
use modbusd.Main.{handle_json, handle_message}

module _ {E : Env} (publisher : Bool) (mode text : CString) (more : List CString)
    (s : Daemon E) where
  -- A text that cJSON cannot parse: the daemon dereferences NULL, whatever the mode and the state. The
  -- branch that answers "Fail to parse command string" is not reached.
  pub unparsable_stops :
      JsonLaws E
      → E.cjson_parse (text ++ 0 ∷ []) ≡ syntax_error
      → handle_message (modbusd_c E) publisher (mode ∷ text ∷ more) s ≡ stop null_pointer
  unfolding handle_message handle_json parse_block ◌>>=◌
  unparsable_stops json e =
      rw (e, parse_block)
        (rw (json_get_int-missing E none (c_str "tid") (json.item-null (c_str "tid")) s))

  -- So does a request with no number, in every mode.
  pub no_tid_stops :
      (req : E.Json)
      → E.cjson_parse (text ++ 0 ∷ []) ≡ parsed req
      → E.cjson_get_object_item (some req) (c_str "tid") ≡ none
      → handle_message (modbusd_c E) publisher (mode ∷ text ∷ more) s ≡ stop null_pointer
  unfolding handle_message handle_json parse_block ◌>>=◌
  no_tid_stops req e missing =
      rw (e, parse_block) (rw (json_get_int-missing E (some req) (c_str "tid") missing s))

  -- A text that cJSON reads beyond its end stops the run.
  pub overrun_stops :
      E.cjson_parse (text ++ 0 ∷ []) ≡ overrun
      → handle_message (modbusd_c E) publisher (mode ∷ text ∷ more) s ≡ stop buffer_overflow
  unfolding handle_message parse_block ◌>>=◌
  overrun_stops e = rw (e, parse_block)

module _ {E : Env} (req : Option E.Json) (tid : ℤ) (has_tid : HasInt E req (c_str "tid") tid)
    (s : Daemon E) where
  -- An address of 50 bytes or more is copied beyond the key's char[50], in every command and every
  -- state.
  pub long_ip_stops :
      (ip port : CString) (fc : MbtcpFc E)
      → HasText E req (c_str "ip") ip
      → HasText E req (c_str "port") port
      → field_size ≤ length ip
      → mbtcp_cmd_hanlder E req fc s ≡ stop buffer_overflow
  unfolding mbtcp_cmd_hanlder lazy_init_mbtcp_handle get_or_init mbtcp_get_handle ◌>>=◌
  long_ip_stops ip port fc has_ip has_port long = rw (
    json_get_int-HasInt E req (c_str "tid") tid has_tid s,
    json_get_char-HasText E req (c_str "ip") ip has_ip s,
    json_get_char-HasText E req (c_str "port") port has_port s,
    fill_key-overflows E ip port long s,
  )
