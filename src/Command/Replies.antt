-- ===== src/Command/Replies.antt =====
-- Every command that returns answers with an object that has the transaction's number and a status.
use modbusd.Prelude.{ℕ, Option, List, CString, c_str}
use modbusd.Prelude.Int.{ℤ, IsInt32}
use modbusd.Env.{Env}
use modbusd.Env.Laws.{JsonLaws}
use modbusd.Daemon.{Ptr, M, ◌>>=◌}
use modbusd.Daemon.Exec.{Gives, gives_rules}
use modbusd.Json.{json_get_int}
use modbusd.Json.Fields.{HasInt, json_get_int-HasInt}
use modbusd.Response.{modbus_set_error_resp, set_modbus_with_data_ok_resp}
use modbusd.Response.Readback.{
  Answers, IsReply, modbus_set_error_resp-IsReply, set_modbus_no_data_ok_resp-IsReply,
  set_modbus_with_data_ok_resp-IsReply,
}
use modbusd.Request.{
  set_modbus_errno_resp, read_reply, write_reply, mbtcp_read_bit_req, mbtcp_read_reg_req,
  mbtcp_single_write_req, mbtcp_multi_write_req,
}
use modbusd.Command.{
  MbtcpFc, request_on, mbtcp_cmd_hanlder, mbtcp_set_response_timeout, mbtcp_fc1_req, mbtcp_fc2_req,
  mbtcp_fc3_req, mbtcp_fc4_req, mbtcp_fc5_req, mbtcp_fc6_req, mbtcp_fc15_req, mbtcp_fc16_req,
}

module _ {E : Env} (laws : JsonLaws E) (tid : ℤ) (small : IsInt32 tid) where
  pub error-Answers : (reason : CString) → Answers E tid (modbus_set_error_resp E tid reason)
  error-Answers reason = (reason, modbus_set_error_resp-IsReply laws tid small reason)

  data-Answers : (a : E.Json) → Answers E tid (set_modbus_with_data_ok_resp E tid a)
  data-Answers a = (c_str "ok", set_modbus_with_data_ok_resp-IsReply laws tid small a)

  set_modbus_errno_resp-Gives :
      (p : Ptr) (errnum : ℤ) → Gives (Answers E tid) (set_modbus_errno_resp E tid p errnum)
  unfolding set_modbus_errno_resp
  set_modbus_errno_resp-Gives p errnum = search (gives_rules, error-Answers)

  write_reply-Gives : (p : Ptr) (ret : ℤ) → Gives (Answers E tid) (write_reply E p tid ret)
  unfolding write_reply
  write_reply-Gives p ret =
      let fine = set_modbus_no_data_ok_resp-IsReply laws tid small in
      search (gives_rules, set_modbus_errno_resp-Gives, fine)

  read_reply-Gives :
      (p : Ptr) (len : ℤ) (to_array : List ℕ → E.Json) (r : ℤ × List ℕ)
      → Gives (Answers E tid) (read_reply E p tid len to_array r)
  unfolding read_reply
  read_reply-Gives p len to_array (ret, values) =
      search (gives_rules, set_modbus_errno_resp-Gives, data-Answers)

  -- The timeout command answers "ok" whatever the value.
  pub mbtcp_set_response_timeout-Gives :
      (timeout : ℤ) → Gives (IsReply E tid (c_str "ok")) (mbtcp_set_response_timeout E tid timeout)
  unfolding mbtcp_set_response_timeout
  mbtcp_set_response_timeout-Gives timeout =
      let fine = set_modbus_no_data_ok_resp-IsReply laws tid small in search (gives_rules, fine)

  module _ (req : Option E.Json) (has_tid : HasInt E req (c_str "tid") tid) where
    -- The handlers read the number again, and find the same.
    pub tid_again :
        {P : CString → Type 0} (k : ℤ → M E CString)
        → Gives P (k tid)
        → Gives P (json_get_int E req (c_str "tid") >>= k)
    unfolding ◌>>=◌
    tid_again {P} k h = record {
      at = λ s. rw (json_get_int-HasInt E req (c_str "tid") tid has_tid s) (h.at s);
    }

    ruleset reply_rules =
        (tid_again, gives_rules, read_reply-Gives, write_reply-Gives, error-Answers)

    pub read_bit-Gives : (fc : ℕ) (p : Ptr) → Gives (Answers E tid) (mbtcp_read_bit_req E fc p req)
    unfolding mbtcp_read_bit_req
    read_bit-Gives fc p = search reply_rules depth 14

    pub read_reg-Gives : (fc : ℕ) (p : Ptr) → Gives (Answers E tid) (mbtcp_read_reg_req E fc p req)
    unfolding mbtcp_read_reg_req
    read_reg-Gives fc p = search reply_rules depth 14

    pub single_write-Gives :
        (fc : ℕ) (p : Ptr) → Gives (Answers E tid) (mbtcp_single_write_req E fc p req)
    unfolding mbtcp_single_write_req
    single_write-Gives fc p = search reply_rules depth 14

    pub multi_write-Gives :
        (fc : ℕ) (p : Ptr) → Gives (Answers E tid) (mbtcp_multi_write_req E fc p req)
    unfolding mbtcp_multi_write_req
    multi_write-Gives fc p = search reply_rules depth 14

    -- A handler that answers this request.
    abbrev pub FcGives : MbtcpFc E → Type 0
    FcGives fc = (p : Ptr) → Gives (Answers E tid) (fc p req)

    pub cmd_hanlder-Gives :
        (fc : MbtcpFc E) → FcGives fc → Gives (Answers E tid) (mbtcp_cmd_hanlder E req fc)
    unfolding mbtcp_cmd_hanlder request_on
    cmd_hanlder-Gives fc h = search (reply_rules, h) depth 14

    pub fcs-Gives :
        FcGives (mbtcp_fc1_req E)
        × FcGives (mbtcp_fc2_req E)
        × FcGives (mbtcp_fc3_req E)
        × FcGives (mbtcp_fc4_req E)
        × FcGives (mbtcp_fc5_req E)
        × FcGives (mbtcp_fc6_req E)
        × FcGives (mbtcp_fc15_req E)
        × FcGives (mbtcp_fc16_req E)
    unfolding mbtcp_fc1_req mbtcp_fc2_req mbtcp_fc3_req mbtcp_fc4_req mbtcp_fc5_req mbtcp_fc6_req
        mbtcp_fc15_req mbtcp_fc16_req
    fcs-Gives = (
      read_bit-Gives 1,
      read_bit-Gives 2,
      read_reg-Gives 3,
      read_reg-Gives 4,
      single_write-Gives 5,
      single_write-Gives 6,
      multi_write-Gives 15,
      multi_write-Gives 16,
    )
