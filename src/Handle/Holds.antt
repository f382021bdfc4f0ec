-- ===== src/Handle/Holds.antt =====
-- What the functions of the connections have in common: a property of actions that is closed, and that
-- setting the flag of a handle and adding a handle have, they have too.
use modbusd.Prelude.{
  ◌≡◌, refl, fun_ext, true, Option, none, some, Bool, false, CString, inl, inr, Option-cases,
}
use modbusd.Env.{Env}
use modbusd.Key.{Key, key_bytes}
use modbusd.Key.Layout.{IsFilled}
use modbusd.Daemon.{Ptr, pure, gets, set_connected, ◌>>=◌}
use modbusd.Handle.Fill.{fill_key-result}
use modbusd.Daemon.Closed.{
  Property, Plain, Closed, Holds, bind-fail, bind-pure, Holds-bind, Holds-call, Holds-pure,
  holds_rules,
}
use modbusd.Json.Holds.{json_get_char-Holds}
use modbusd.Handle.{
  add_handle, make_handle, register, mbtcp_init_handle, find_handle, mbtcp_get_handle, get_or_init,
  lazy_init_mbtcp_handle, mbtcp_get_connection_status, mbtcp_do_connect, lazy_mbtcp_connect,
}

-- What the lookup makes of the table's answer.
found : Ptr → Bool × Ptr
found none = (false, none)
found (some p) = (true, some p)

find_handle-gets :
    (E : Env) (key : Key)
    → find_handle E key ≡ gets (λ s. found (E.hash_find (key_bytes key) s.mbtcp_htable))
unfolding find_handle found ◌>>=◌
find_handle-gets E key = fun_ext λ s.
    elim (Option-cases (E.hash_find (key_bytes key) s.mbtcp_htable)) [
      | inl e ↦ rw (e, find_handle) refl
      | inr (p, e) ↦ rw (e, find_handle) refl
    ]

module _ {E : Env} {P : Property E} (plain : Plain P) where
  find_handle-Holds : (key : Key) → Holds P (find_handle E key)
  unfolding find_handle
  find_handle-Holds key =
      rw (find_handle-gets E key)
        (plain.of_gets λ _ table _. found (E.hash_find (key_bytes key) table))

  pub mbtcp_get_handle-Holds : (ip port : Option CString) → Holds P (mbtcp_get_handle E ip port)
  unfolding mbtcp_get_handle
  mbtcp_get_handle-Holds ip port = elim (fill_key-result E ip port) [
    | inl (e, p) ↦ rw (p, bind-fail) (plain.of_fail e)
    | inr (key, filled, p) ↦ rw (p, bind-pure) (find_handle-Holds key)
  ]

module _ {E : Env} {P : Property E} (closed : Closed P) where
  pub mbtcp_get_connection_status-Holds : (p : Ptr) → Holds P (mbtcp_get_connection_status E p)
  unfolding mbtcp_get_connection_status
  mbtcp_get_connection_status-Holds none = search (holds_rules, closed, closed.plain)
  mbtcp_get_connection_status-Holds (some p) = search (holds_rules, closed, closed.plain)

  connect_error-Holds :
      Holds {A = Bool × Option CString} P
        (gets (λ s. (false, some (E.modbus_strerror (E.errno s.world)))))
  connect_error-Holds = closed.plain.of_gets λ w _ _. (false, some (E.modbus_strerror (E.errno w)))

  pub mbtcp_do_connect-Holds :
      (p : Ptr)
      → ((b : Bool) → Holds P (set_connected E p b))
      → (reason : Option CString) → Holds P (mbtcp_do_connect E p reason)
  unfolding mbtcp_do_connect
  mbtcp_do_connect-Holds none sets reason = search (holds_rules, closed, closed.plain)
  mbtcp_do_connect-Holds (some p) sets reason =
      search (holds_rules, closed, closed.plain, sets, connect_error-Holds) depth 9

  pub lazy_mbtcp_connect-Holds :
      (p : Ptr)
      → ((b : Bool) → Holds P (set_connected E p b))
      → (reason : Option CString) → Holds P (lazy_mbtcp_connect E p reason)
  unfolding lazy_mbtcp_connect
  lazy_mbtcp_connect-Holds p sets reason =
      let connect = mbtcp_do_connect-Holds p sets in
      search (holds_rules, closed, closed.plain, mbtcp_get_connection_status-Holds, connect) depth 9

  module _ (sets : (p : Ptr) (b : Bool) → Holds P (set_connected E p b))
      (adds : (key : Key) → IsFilled key → (ctx : E.Ctx) → Holds P (add_handle E key ctx)) where
    make_handle-Holds :
        (ctx : E.Ctx) (ip port : Option CString) → Holds P (make_handle E ctx ip port)
    unfolding make_handle
    make_handle-Holds ctx ip port = elim (fill_key-result E ip port) [
      | inl (e, p) ↦ rw (p, bind-fail) (closed.plain.of_fail e)
      | inr (key, filled, p) ↦
          let connect = λ (p : Ptr). mbtcp_do_connect-Holds p (sets p) in
          rw (p, bind-pure)
            (Holds-bind closed.plain _ _ (adds key filled ctx)
              λ q. search (holds_rules, closed, closed.plain, connect))
    ]

    timeout-Holds : Holds P (gets (λ s. s.tcp_conn_timeout_usec))
    timeout-Holds = closed.plain.of_gets λ _ _ usec. usec

    register-Holds : (ctx : E.Ctx) (ip port : Option CString) → Holds P (register E ctx ip port)
    unfolding register
    register-Holds ctx ip port =
        search (holds_rules, closed, closed.plain, timeout-Holds, make_handle-Holds) depth 9

    with_context-Holds :
        (ptr : Ptr) (ip port : Option CString) (ctx : Option E.Ctx)
        → Holds {A = Bool × Ptr} P
            (elim ctx [ none ↦ pure (false, ptr) | some c ↦ register E c ip port ])
    with_context-Holds ptr ip port none = Holds-pure closed.plain _
    with_context-Holds ptr ip port (some c) = register-Holds c ip port

    pub mbtcp_init_handle-Holds :
        (ptr : Ptr) (ip port : Option CString) → Holds P (mbtcp_init_handle E ptr ip port)
    unfolding mbtcp_init_handle
    mbtcp_init_handle-Holds ptr ip port =
        Holds-bind closed.plain _ _ (Holds-call closed _) (with_context-Holds ptr ip port)

    pub get_or_init-Holds : (ip port : Option CString) → Holds P (get_or_init E ip port)
    unfolding get_or_init
    get_or_init-Holds ip port =
        search (holds_rules, closed, closed.plain, mbtcp_get_handle-Holds, mbtcp_init_handle-Holds)
          depth 9

    pub lazy_init_mbtcp_handle-Holds :
        (req : Option E.Json) → Holds P (lazy_init_mbtcp_handle E req)
    unfolding lazy_init_mbtcp_handle
    lazy_init_mbtcp_handle-Holds req =
        search (holds_rules, closed, closed.plain, json_get_char-Holds, get_or_init-Holds)
