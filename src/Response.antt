-- ===== src/Response.antt =====
-- modbusd.c: the responses, objects that cJSON prints without white space.
pub mod Readback
use modbusd.Prelude.{Option, none, some, CString, c_str}
use modbusd.Prelude.Int.{ℤ}
use modbusd.Env.{Env}

module _ (E : Env) where
  -- The macros cJSON_AddNumberToObject and cJSON_AddStringToObject.
  abbrev pub add_number : E.Json → CString → ℤ → E.Json
  add_number object name n = E.cjson_add_item object name (E.cjson_create_number n)

  abbrev pub add_string : E.Json → CString → CString → E.Json
  add_string object name s = E.cjson_add_item object name (E.cjson_create_string s)

  -- The object `{"tid": tid, "status": status}`.
  unfoldable pub status_object : ℤ → CString → E.Json
  status_object tid status =
      add_string (add_number E.cjson_create_object (c_str "tid") tid) (c_str "status") status

  -- The object `{"tid": tid, "data": array, "status": "ok"}`.
  unfoldable pub data_object : ℤ → E.Json → E.Json
  data_object tid json_arr =
      add_string
        (E.cjson_add_item (add_number E.cjson_create_object (c_str "tid") tid) (c_str "data")
          json_arr)
        (c_str "status") (c_str "ok")

  unfoldable pub modbus_set_error_resp : ℤ → CString → CString
  modbus_set_error_resp tid reason = E.cjson_print_unformatted (status_object tid reason)

  unfoldable pub set_modbus_no_data_ok_resp : ℤ → CString
  set_modbus_no_data_ok_resp tid = E.cjson_print_unformatted (status_object tid (c_str "ok"))

  unfoldable pub set_modbus_with_data_ok_resp : ℤ → E.Json → CString
  set_modbus_with_data_ok_resp tid json_arr = E.cjson_print_unformatted (data_object tid json_arr)
