-- ===== src/Command/Holds.antt =====
-- What the handlers of the function codes and the commands have in common, as the requests.
use modbusd.Prelude.{Option, Bool, c_str}
use modbusd.Env.{Env}
use modbusd.Daemon.{Ptr, set_connected}
use modbusd.Daemon.Closed.{
  Property, Closed, Holds, Holds-bind, Holds-load, Holds-effect, holds_rules,
}
use modbusd.Handle.{lazy_init_mbtcp_handle}
use modbusd.Json.Holds.{json_get_int-Holds}
use modbusd.Handle.Holds.{lazy_mbtcp_connect-Holds}
use modbusd.Request.Holds.{
  mbtcp_read_bit_req-Holds, mbtcp_read_reg_req-Holds, mbtcp_single_write_req-Holds,
  mbtcp_multi_write_req-Holds,
}
use modbusd.Command.{
  MbtcpFc, request_on, mbtcp_cmd_hanlder, mbtcp_fc1_req, mbtcp_fc2_req, mbtcp_fc3_req,
  mbtcp_fc4_req, mbtcp_fc5_req, mbtcp_fc6_req, mbtcp_fc15_req, mbtcp_fc16_req,
}

module _ {E : Env} {P : Property E} (closed : Closed P) (p : Ptr) where
  pub request_on-Holds :
      (req : Option E.Json) (fc : MbtcpFc E) → Holds P (fc p req) → Holds P (request_on E p req fc)
  unfolding request_on
  request_on-Holds req fc h =
      Holds-bind closed.plain _ _ (json_get_int-Holds closed.plain req (c_str "slave")) λ slave.
        Holds-bind closed.plain _ _ (Holds-load closed.plain p)
          λ handle. Holds-bind closed.plain _ _ (Holds-effect closed _) λ u. h

  module _ (sets : (b : Bool) → Holds P (set_connected E p b)) where
    pub fc1-Holds : (req : Option E.Json) → Holds P (mbtcp_fc1_req E p req)
    unfolding mbtcp_fc1_req
    fc1-Holds req = mbtcp_read_bit_req-Holds closed p sets 1 req

    pub fc2-Holds : (req : Option E.Json) → Holds P (mbtcp_fc2_req E p req)
    unfolding mbtcp_fc2_req
    fc2-Holds req = mbtcp_read_bit_req-Holds closed p sets 2 req

    pub fc3-Holds : (req : Option E.Json) → Holds P (mbtcp_fc3_req E p req)
    unfolding mbtcp_fc3_req
    fc3-Holds req = mbtcp_read_reg_req-Holds closed p sets 3 req

    pub fc4-Holds : (req : Option E.Json) → Holds P (mbtcp_fc4_req E p req)
    unfolding mbtcp_fc4_req
    fc4-Holds req = mbtcp_read_reg_req-Holds closed p sets 4 req

    pub fc5-Holds : (req : Option E.Json) → Holds P (mbtcp_fc5_req E p req)
    unfolding mbtcp_fc5_req
    fc5-Holds req = mbtcp_single_write_req-Holds closed p sets 5 req

    pub fc6-Holds : (req : Option E.Json) → Holds P (mbtcp_fc6_req E p req)
    unfolding mbtcp_fc6_req
    fc6-Holds req = mbtcp_single_write_req-Holds closed p sets 6 req

    pub fc15-Holds : (req : Option E.Json) → Holds P (mbtcp_fc15_req E p req)
    unfolding mbtcp_fc15_req
    fc15-Holds req = mbtcp_multi_write_req-Holds closed p sets 15 req

    pub fc16-Holds : (req : Option E.Json) → Holds P (mbtcp_fc16_req E p req)
    unfolding mbtcp_fc16_req
    fc16-Holds req = mbtcp_multi_write_req-Holds closed p sets 16 req

-- A property of setting a flag and of finding or making a handle is one of a command.
module _ {E : Env} {P : Property E} (closed : Closed P)
    (sets : (p : Ptr) (b : Bool) → Holds P (set_connected E p b))
    (init : (req : Option E.Json) → Holds P (lazy_init_mbtcp_handle E req)) where
  pub mbtcp_cmd_hanlder-Holds :
      (req : Option E.Json) (fc : MbtcpFc E)
      → ((p : Ptr) → Holds P (fc p req))
      → Holds P (mbtcp_cmd_hanlder E req fc)
  unfolding mbtcp_cmd_hanlder
  mbtcp_cmd_hanlder-Holds req fc h =
      let reads = json_get_int-Holds closed.plain in
      let connect = λ (p : Ptr). lazy_mbtcp_connect-Holds closed p (sets p) in
      let run = λ (p : Ptr). request_on-Holds closed p req fc (h p) in
      search (holds_rules, closed, closed.plain, reads, init, connect, run) depth 12
