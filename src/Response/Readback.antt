-- ===== src/Response/Readback.antt =====
-- What a client finds in the objects that the responses print.
use modbusd.Prelude.{◌≡◌, ◌≢◌, refl, ◌∙◌, none, some, arith, CString, c_str, length}
use modbusd.Prelude.Int.{ℤ, IsInt32}
use modbusd.Env.{Env}
use modbusd.Env.Laws.{JsonLaws}
use modbusd.Json.Fields.{HasInt, HasText}
use modbusd.Response.{
  add_number, status_object, data_object, modbus_set_error_resp, set_modbus_no_data_ok_resp,
  set_modbus_with_data_ok_resp,
}

module _ (E : Env) where
  -- A response: the printed form of an object with the transaction's number and this status.
  pub record IsReply (tid : ℤ) (status text : CString) : Type 0 where
    pub object : E.Json
    pub printed : text ≡ E.cjson_print_unformatted object
    pub has_tid : HasInt E (some object) (c_str "tid") tid
    pub has_status : HasText E (some object) (c_str "status") status

module _ {E : Env} (laws : JsonLaws E) (tid : ℤ) (small : IsInt32 tid) where
  tid_object : E.Json
  tid_object = add_number E E.cjson_create_object (c_str "tid") tid

  tid_there :
      E.cjson_get_object_item (some tid_object) (c_str "tid") ≡ some (E.cjson_create_number tid)
  unfolding tid_object
  tid_there = laws.item-add_self _ _ _ (laws.item-create (c_str "tid"))

  other_absent : (k : CString) → 3 ≢ length k → E.cjson_get_object_item (some tid_object) k ≡ none
  unfolding tid_object
  other_absent k n = laws.item-add_ne _ _ (c_str "tid") k n ∙ laws.item-create k

  -- An error response has the transaction's number, and the reason as its status.
  pub modbus_set_error_resp-IsReply :
      (reason : CString) → IsReply E tid reason (modbus_set_error_resp E tid reason)
  unfolding modbus_set_error_resp status_object tid_object
  modbus_set_error_resp-IsReply reason = record {
    object = status_object E tid reason;
    printed = refl;
    has_tid = (
      E.cjson_create_number tid,
      laws.item-add_ne _ _ (c_str "status") (c_str "tid") (omega arith) ∙ tid_there,
      laws.valueint-create tid small,
    );
    has_status = (
      E.cjson_create_string reason,
      laws.item-add_self _ _ _ (other_absent (c_str "status") (omega arith)),
      laws.valuestring-create reason,
    );
  }

  pub set_modbus_no_data_ok_resp-IsReply :
      IsReply E tid (c_str "ok") (set_modbus_no_data_ok_resp E tid)
  unfolding set_modbus_no_data_ok_resp modbus_set_error_resp
  set_modbus_no_data_ok_resp-IsReply = modbus_set_error_resp-IsReply (c_str "ok")

  -- A response with data has the transaction's number, the array under "data", and the status "ok".
  pub data_object-members :
      (json_arr : E.Json)
      → HasInt E (some (data_object E tid json_arr)) (c_str "tid") tid
        × (E.cjson_get_object_item (some (data_object E tid json_arr)) (c_str "data")
            ≡ some json_arr)
        × HasText E (some (data_object E tid json_arr)) (c_str "status") (c_str "ok")
  unfolding data_object tid_object
  data_object-members json_arr = (
    (
      E.cjson_create_number tid,
      laws.item-add_ne _ _ (c_str "status") (c_str "tid") (omega arith)
          ∙ (laws.item-add_ne _ _ (c_str "data") (c_str "tid") (omega arith) ∙ tid_there),
      laws.valueint-create tid small,
    ),
    laws.item-add_ne _ _ (c_str "status") (c_str "data") (omega arith)
        ∙ laws.item-add_self _ _ _ (other_absent (c_str "data") (omega arith)),
    (
      E.cjson_create_string (c_str "ok"),
      laws.item-add_self _ _ _ (
          laws.item-add_ne _ _ (c_str "data") (c_str "status") (omega arith)
          ∙ other_absent (c_str "status") (omega arith)),
      laws.valuestring-create (c_str "ok"),
    ),
  )

  pub set_modbus_with_data_ok_resp-IsReply :
      (json_arr : E.Json) → IsReply E tid (c_str "ok") (set_modbus_with_data_ok_resp E tid json_arr)
  unfolding set_modbus_with_data_ok_resp
  set_modbus_with_data_ok_resp-IsReply json_arr =
      let (t, _, st) = data_object-members json_arr in
      record { object = data_object E tid json_arr; printed = refl; has_tid = t; has_status = st }

-- A response to this transaction, with some status.
abbrev pub Answers : (E : Env) → ℤ → CString → Type 0
Answers E tid text = (status : CString) × IsReply E tid status text
