-- ===== src/Protocol/Commands.antt =====
-- modbusd.c, the commands: a handler runs on a handle that is connected, after the slave was set.
use modbusd.Prelude.{
  ℕ, ◌≡◌, refl, sym, subst, Option, none, some, Bool, true, false, CString, c_str, get_elem?, inl,
  inr, Bool-cases, Option-cases, arith, if◌then◌else◌,
}
use modbusd.Prelude.Int.{ℤ}
use modbusd.Env.{Env}
use modbusd.Env.Ledger.{Ledger}
use modbusd.Daemon.{Daemon, Handle, Ptr, ok, load, effect, pure, not_null, ◌>>=◌, ◌>>◌}
use modbusd.Daemon.Exec.{Returned, Returned-bind}
use modbusd.Daemon.Closed.{Holds, Plain, plain_rules}
use modbusd.Daemon.Between.{Between, Between-Plain, made, Between-bind}
use modbusd.Json.Holds.{json_get_int-Holds}
use modbusd.Handle.{mbtcp_get_connection_status, mbtcp_do_connect, lazy_mbtcp_connect}
use modbusd.Handle.Connect.{load-at}
use modbusd.Response.{modbus_set_error_resp}
use modbusd.Command.{
  MbtcpFc, request_on, mbtcp_cmd_hanlder, mbtcp_fc1_req, mbtcp_fc2_req, mbtcp_fc3_req,
  mbtcp_fc4_req, mbtcp_fc5_req, mbtcp_fc6_req, mbtcp_fc15_req, mbtcp_fc16_req,
}
use modbusd.Api.{Function, fc1, fc2, fc3, fc4, fc5, fc6, fc15, fc16, handler}
use modbusd.Api.Implementation.{modbusd_c, load_missing}
use modbusd.Protocol.{IsSound}
use modbusd.Protocol.Connects.{IsSound-world, IsSound-Plain, IsConnected, mbtcp_do_connect-IsSound}
use modbusd.Protocol.Opens.{lazy_init_mbtcp_handle-IsSound}
use modbusd.Protocol.Requests.{
  Requesting, mbtcp_read_bit_req-Requesting, mbtcp_read_reg_req-Requesting,
  mbtcp_single_write_req-Requesting, mbtcp_multi_write_req-Requesting,
}

module _ {E : Env} (ledger : Ledger E) where
  -- Sound, and the pointer is one to a connected handle.
  record IsReady (p : Ptr) (s : Daemon E) : Type 0 where
    sound : IsSound ledger s
    connected : IsConnected ledger p s

  connect_null :
      (reason : Option CString) (s : Daemon E)
      → lazy_mbtcp_connect E none reason s ≡ ok ((false, some (c_str "NULL handle")), s)
  unfolding lazy_mbtcp_connect mbtcp_get_connection_status mbtcp_do_connect ◌>>=◌
  connect_null reason s = refl

  lazy_connect_at :
      (p : Ptr) (reason : Option CString) (s : Daemon E)
      → IsSound ledger s
      → Returned
          (λ r t. IsSound ledger t × (r.0 ≡ true → IsConnected ledger p t))
          (lazy_mbtcp_connect E p reason s)
  unfolding lazy_mbtcp_connect mbtcp_get_connection_status ◌>>=◌
  lazy_connect_at none reason s sound = rw (connect_null reason s) (sound, λ f. ground arith)
  lazy_connect_at (some p) reason s sound = elim (Option-cases (get_elem? s.handles p)) [
    | inl e ↦ rw (load_missing s p e) tt
    | inr (h, at) ↦ elim (Bool-cases h.connected) [
      | inl on ↦ rw (load-at s p h at) (rw on (sound, λ _. (p, h, refl, at, on)))
      | inr off ↦
          rw (load-at s p h at) (rw off (mbtcp_do_connect-IsSound ledger s sound p h at off reason))
    ]
  ]

  IsReady-Plain : (p : Ptr) → Plain (Between (IsReady p) (IsReady p))
  IsReady-Plain p = Between-Plain λ n s r. record {
    sound = IsSound-world ledger s _ (ledger.of_malloc n s.world) r.sound;
    connected = r.connected;
  }

  module _ (req : Option E.Json) (fc : MbtcpFc E)
      (requesting : (q : ℕ) → Requesting ledger q (fc (some q) req)) where
    selected_at :
        (slave : ℤ) (q : ℕ) (h : Handle E) (s : Daemon E)
        → get_elem? s.handles q ≡ some h
        → h.connected ≡ true
        → IsSound ledger s
        → Returned
            (λ _ t. IsSound ledger t)
            ((load E (some q) >>= λ g. effect E (E.modbus_set_slave g.ctx slave) >> fc (some q) req)
              s)
    unfolding ◌>>=◌
    selected_at slave q h s at on sound = rw (load-at s q h at) (
        (requesting q).at.run (record s { world = E.modbus_set_slave h.ctx slave s.world })
          (record {
            handle = h;
            at = at;
            slave = slave;
            earlier = ledger.calls s.world;
            log = ledger.of_slave h.ctx slave s.world;
            up = sound.backed.flag_up q h at on;
            protocol = sound.protocol;
            backed = sound.backed;
          }))

    select_run :
        (p : Ptr) (slave : ℤ)
        → Holds
            (Between (IsReady p) (IsSound ledger))
            (load E p >>= λ g. effect E (E.modbus_set_slave g.ctx slave) >> fc p req)
    select_run p slave = made λ s r.
        let (q, h, e, at, on) = r.connected in
        subst
          (λ x.
            Returned (λ _ t. IsSound ledger t)
              ((load E x >>= λ g. effect E (E.modbus_set_slave g.ctx slave) >> fc x req) s))
          (sym e) (selected_at slave q h s at on r.sound)

    request_on_run :
        (p : Ptr) → Holds (Between (IsReady p) (IsSound ledger)) (request_on E p req fc)
    unfolding request_on
    request_on_run p =
        Between-bind _ _ (json_get_int-Holds (IsReady-Plain p) req (c_str "slave")) (select_run p)

    branch :
        (p : Ptr) (tid : ℤ) (connected : Bool) (reason : Option CString) (t : Daemon E)
        → IsSound ledger t
        → (connected ≡ true → IsConnected ledger p t)
        → Returned
            (λ _ u. IsSound ledger u)
            ((if connected
                then request_on E p req fc
                else (not_null reason >>= λ r. pure (modbus_set_error_resp E tid r)))
              t)
    branch p tid true reason t sound up =
        (request_on_run p).at.run t (record { sound = sound; connected = up refl })
    branch p tid false reason t sound up = (refusal reason).at.run t sound
      where
        refusal :
            (o : Option CString)
            → Holds
                (Between (IsSound ledger) (IsSound ledger))
                (not_null o >>= λ r. pure (modbus_set_error_resp E tid r))
        refusal o = let plain = IsSound-Plain ledger in search (plain_rules, plain)

    connect_run :
        (p : Ptr) (tid : ℤ)
        → Holds (Between (IsSound ledger) (IsSound ledger)) (
            lazy_mbtcp_connect E p none >>= λ r.
            if r.0
            then request_on E p req fc
            else (not_null r.1 >>= λ why. pure (modbus_set_error_resp E tid why)))
    unfolding ◌>>=◌
    connect_run p tid = made λ s sound.
        Returned-bind (λ r t. IsSound ledger t × (r.0 ≡ true → IsConnected ledger p t)) _
          (lazy_mbtcp_connect E p none s) _ (lazy_connect_at p none s sound)
          (λ r t h. branch p tid r.0 r.1 t h.0 h.1)

    pub mbtcp_cmd_hanlder-IsSound :
        Holds (Between (IsSound ledger) (IsSound ledger)) (mbtcp_cmd_hanlder E req fc)
    unfolding mbtcp_cmd_hanlder
    mbtcp_cmd_hanlder-IsSound =
        let plain = IsSound-Plain ledger in
        let init = lazy_init_mbtcp_handle-IsSound ledger in
        search (plain_rules, plain, json_get_int-Holds, init, connect_run) depth 12

  handler-Requesting :
      (f : Function) (req : Option E.Json) (q : ℕ)
      → Requesting ledger q (handler (modbusd_c E) f (some q) req)
  unfolding mbtcp_fc1_req mbtcp_fc2_req mbtcp_fc3_req mbtcp_fc4_req mbtcp_fc5_req mbtcp_fc6_req
      mbtcp_fc15_req mbtcp_fc16_req
  handler-Requesting fc1 req q = mbtcp_read_bit_req-Requesting ledger q 1 req
  handler-Requesting fc2 req q = mbtcp_read_bit_req-Requesting ledger q 2 req
  handler-Requesting fc3 req q = mbtcp_read_reg_req-Requesting ledger q 3 req
  handler-Requesting fc4 req q = mbtcp_read_reg_req-Requesting ledger q 4 req
  handler-Requesting fc5 req q = mbtcp_single_write_req-Requesting ledger q 5 req
  handler-Requesting fc6 req q = mbtcp_single_write_req-Requesting ledger q 6 req
  handler-Requesting fc15 req q = mbtcp_multi_write_req-Requesting ledger q 15 req
  handler-Requesting fc16 req q = mbtcp_multi_write_req-Requesting ledger q 16 req

  pub command-IsSound :
      (f : Function) (req : Option E.Json)
      → Holds
          (Between (IsSound ledger) (IsSound ledger))
          (mbtcp_cmd_hanlder E req (handler (modbusd_c E) f))
  command-IsSound f req =
      mbtcp_cmd_hanlder-IsSound req (handler (modbusd_c E) f) (handler-Requesting f req)
