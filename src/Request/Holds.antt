-- ===== src/Request/Holds.antt =====
-- What the requests have in common: a property of actions that is closed, and that setting the flag of
-- the request's handle has, the request has too.
use modbusd.Prelude.{ℕ, zero, suc, Option, List, Bool}
use modbusd.Prelude.Int.{ℤ, pos, negsuc}
use modbusd.Env.{Env}
use modbusd.Daemon.{Ptr, set_connected}
use modbusd.Daemon.Closed.{Property, Plain, Closed, Holds, plain_rules, holds_rules}
use modbusd.Json.Holds.{json_get_int-Holds}
use modbusd.Request.{
  get_errno, set_modbus_errno_resp, zeroed_array, zeroed_block, read_reply, write_reply,
  mbtcp_read_bit_req, mbtcp_read_reg_req, mbtcp_single_write_req, copy_items, payload,
  mbtcp_multi_write_req,
}

module _ {E : Env} {P : Property E} (plain : Plain P) where
  pub zeroed_array-Holds : (len : ℤ) → Holds P (zeroed_array E len)
  unfolding zeroed_array
  zeroed_array-Holds (pos zero) = search (plain_rules, plain)
  zeroed_array-Holds (pos (suc n)) = search (plain_rules, plain)
  zeroed_array-Holds (negsuc n) = search (plain_rules, plain)

  zeroed_block-Holds : (len : ℤ) (width : ℕ) → Holds P (zeroed_block E len width)
  unfolding zeroed_block
  zeroed_block-Holds len width = search (plain_rules, plain)

  ruleset part_rules = (plain_rules, json_get_int-Holds, zeroed_array-Holds, zeroed_block-Holds)

  copy_items-Holds :
      (m : ℕ) (items : E.Json) (rounds i : ℕ) (buffer : List ℕ)
      → Holds P (copy_items E m items rounds i buffer)
  unfolding copy_items
  copy_items-Holds m items zero i buffer = search (plain_rules, plain)
  copy_items-Holds m items (suc rounds) i buffer =
      let ih = copy_items-Holds m items rounds (suc i) in search (plain_rules, plain, ih)

  pub payload-Holds :
      (m width : ℕ) (len : ℤ) (req : Option E.Json) → Holds P (payload E m width len req)
  unfolding payload
  payload-Holds m width len req = search (part_rules, plain, copy_items-Holds)

module _ {E : Env} {P : Property E} (plain : Plain P) (p : Ptr)
    (sets : (b : Bool) → Holds P (set_connected E p b)) where
  get_errno-Holds : Holds P (get_errno E)
  unfolding get_errno
  get_errno-Holds = plain.of_gets λ w _ _. E.errno w

  pub set_modbus_errno_resp-Holds :
      (tid : ℤ) (errnum : ℤ) → Holds P (set_modbus_errno_resp E tid p errnum)
  unfolding set_modbus_errno_resp
  set_modbus_errno_resp-Holds tid errnum = search (plain_rules, plain, sets)

  ruleset reply_rules = (plain_rules, get_errno-Holds, set_modbus_errno_resp-Holds)

  pub read_reply-Holds :
      (tid len : ℤ) (to_array : List ℕ → E.Json) (r : ℤ × List ℕ)
      → Holds P (read_reply E p tid len to_array r)
  unfolding read_reply
  read_reply-Holds tid len to_array (ret, values) = search (reply_rules, plain)

  pub write_reply-Holds : (tid ret : ℤ) → Holds P (write_reply E p tid ret)
  unfolding write_reply
  write_reply-Holds tid ret = search (reply_rules, plain)

ruleset request_rules = (
  holds_rules, json_get_int-Holds, zeroed_array-Holds, zeroed_block-Holds, payload-Holds,
  read_reply-Holds, write_reply-Holds,
)

module _ {E : Env} {P : Property E} (closed : Closed P) (p : Ptr)
    (sets : (b : Bool) → Holds P (set_connected E p b)) where
  pub mbtcp_read_bit_req-Holds :
      (fc : ℕ) (req : Option E.Json) → Holds P (mbtcp_read_bit_req E fc p req)
  unfolding mbtcp_read_bit_req
  mbtcp_read_bit_req-Holds fc req = search (request_rules, closed, closed.plain, sets) depth 12

  pub mbtcp_read_reg_req-Holds :
      (fc : ℕ) (req : Option E.Json) → Holds P (mbtcp_read_reg_req E fc p req)
  unfolding mbtcp_read_reg_req
  mbtcp_read_reg_req-Holds fc req = search (request_rules, closed, closed.plain, sets) depth 12

  pub mbtcp_single_write_req-Holds :
      (fc : ℕ) (req : Option E.Json) → Holds P (mbtcp_single_write_req E fc p req)
  unfolding mbtcp_single_write_req
  mbtcp_single_write_req-Holds fc req = search (request_rules, closed, closed.plain, sets) depth 12

  pub mbtcp_multi_write_req-Holds :
      (fc : ℕ) (req : Option E.Json) → Holds P (mbtcp_multi_write_req E fc p req)
  unfolding mbtcp_multi_write_req
  mbtcp_multi_write_req-Holds fc req = search (request_rules, closed, closed.plain, sets) depth 12
