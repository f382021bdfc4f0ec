-- ===== src/Protocol/Opens.antt =====
-- modbusd.c, the functions that make a handle: a new context gets its timeout and is connected.
use modbusd.Prelude.{
  ℕ, ◌≡◌, refl, sym, ap, ◌∙◌, subst, Option, none, some, List, ◌∷◌, false, CString, length,
  get_elem?-append_end, Has, inl, inr, Bool-cases, Option-cases,
}
use modbusd.Env.{Env}
use modbusd.Env.Ledger.{Call, opens, sets_timeout, opened, Ledger}
use modbusd.Key.{Key}
use modbusd.Daemon.{Daemon, Ptr, ◌>>=◌}
use modbusd.Daemon.Exec.{Returned, Returned-mono, Returned-bind}
use modbusd.Daemon.Closed.{Holds, plain_rules}
use modbusd.Daemon.Between.{Between, made}
use modbusd.Json.Holds.{json_get_char-Holds}
use modbusd.Handle.{
  mbtcp_do_connect, with_handle, add_handle, make_handle, register, mbtcp_init_handle, get_or_init,
  lazy_init_mbtcp_handle, handle_size,
}
use modbusd.Handle.Holds.{mbtcp_get_handle-Holds}
use modbusd.Handle.Fill.{fill_key-result}
use modbusd.Protocol.{Protocol, opened_with, Backed, IsSound}
use modbusd.Protocol.Handles.{Backed-add}
use modbusd.Protocol.Connects.{IsSound-world, IsSound-Plain, mbtcp_do_connect-IsSound}

module _ {E : Env} (ledger : Ledger E) (ip port : Option CString) where
  -- Before a handle is made for the new context: these calls, then its opening and its timeout.
  record IsOpening (c : E.Ctx) (s : Daemon E) : Type 0 where
    earlier : List (Call E.Ctx)
    usec : ℕ
    log : ledger.calls s.world ≡ sets_timeout c 0 usec ∷ opens c ∷ earlier
    new : ¬ Has (opens c) earlier
    protocol : Protocol earlier
    backed : Backed s.handles earlier

  with_handle-IsSound :
      (c : E.Ctx) (s : Daemon E)
      → IsOpening c s
      → (key : Key) → IsSound ledger (with_handle E key c s)
  unfolding with_handle
  with_handle-IsSound c s o key = record {
    protocol = subst Protocol (sym o.log) (opened_with c o.usec o.new o.protocol);
    backed = subst (Backed _) (sym o.log) (Backed-add o.backed key c o.usec o.protocol o.new);
  }

  connect_new :
      (c : E.Ctx) (s : Daemon E)
      → IsOpening c s
      → (key : Key)
      → Returned
          (λ _ t. IsSound ledger t)
          (mbtcp_do_connect E (some (length s.handles)) none (with_handle E key c s))
  unfolding with_handle
  connect_new c s o key =
      Returned-mono (λ r t. IsSound ledger t × _) _ _ (λ r t h. h.0)
        (mbtcp_do_connect-IsSound ledger (with_handle E key c s) (with_handle-IsSound c s o key)
          (length s.handles) (record { key = key; connected = false; ctx = c })
          (get_elem?-append_end s.handles _) refl none)

  make_handle_at :
      (c : E.Ctx) (s : Daemon E)
      → IsOpening c s
      → Returned (λ _ t. IsSound ledger t) (make_handle E c ip port s)
  unfolding make_handle add_handle ◌>>=◌
  make_handle_at c s o = elim (fill_key-result E ip port) [
    | inl (e, p) ↦ rw p tt
    | inr (key, _, p) ↦ rw p (
        Returned-bind (λ _ t. IsSound ledger t) (λ _ t. IsSound ledger t)
          (mbtcp_do_connect E (some (length s.handles)) none (with_handle E key c s)) _
          (connect_new c s o key) (λ _ t h. h))
  ]

  module _ (s : Daemon E) (sound : IsSound ledger s) (c : E.Ctx)
      (gives : (E.modbus_new_tcp_pi ip port s.world).0 ≡ some c) where
    abbrev made_world : E.World
    made_world = (E.modbus_new_tcp_pi ip port s.world).1

    abbrev timed_world : E.World
    timed_world = E.modbus_set_response_timeout c 0 s.tcp_conn_timeout_usec made_world

    opening : IsOpening c (record s { world = (E.malloc handle_size timed_world).1 })
    opening = record {
      earlier = ledger.calls s.world;
      usec = s.tcp_conn_timeout_usec;
      log =
          ledger.of_malloc handle_size timed_world
          ∙ (ledger.of_timeout c 0 s.tcp_conn_timeout_usec made_world
              ∙ ap (λ l. sets_timeout c 0 s.tcp_conn_timeout_usec ∷ l)
                  (ledger.of_new ip port s.world
                    ∙ ap (λ o. opened o (ledger.calls s.world)) gives));
      new = ledger.fresh ip port s.world c gives;
      protocol = sound.protocol;
      backed = sound.backed;
    }

    register_at :
        Returned (λ _ t. IsSound ledger t) (register E c ip port (record s { world = made_world }))
    unfolding register ◌>>=◌
    register_at = elim (Bool-cases (E.malloc handle_size timed_world).0) [
      | inl got ↦ rw got (make_handle_at c _ opening)
      | inr out ↦ rw out tt
    ]

  init_at :
      (ptr : Ptr) (s : Daemon E)
      → IsSound ledger s
      → Returned (λ _ t. IsSound ledger t) (mbtcp_init_handle E ptr ip port s)
  unfolding mbtcp_init_handle ◌>>=◌
  init_at ptr s sound = elim (Option-cases (E.modbus_new_tcp_pi ip port s.world).0) [
    | inl e ↦
        let log = ledger.of_new ip port s.world ∙ ap (λ o. opened o (ledger.calls s.world)) e in
        rw e (IsSound-world ledger s _ log sound)
    | inr (c, e) ↦ rw e (register_at s sound c e)
  ]

  mbtcp_init_handle-IsSound :
      (ptr : Ptr)
      → Holds (Between (IsSound ledger) (IsSound ledger)) (mbtcp_init_handle E ptr ip port)
  mbtcp_init_handle-IsSound ptr = made (init_at ptr)

  get_or_init-IsSound : Holds (Between (IsSound ledger) (IsSound ledger)) (get_or_init E ip port)
  unfolding get_or_init
  get_or_init-IsSound =
      let plain = IsSound-Plain ledger in
      search (plain_rules, plain, mbtcp_get_handle-Holds, mbtcp_init_handle-IsSound) depth 9

pub lazy_init_mbtcp_handle-IsSound :
    {E : Env} (ledger : Ledger E) (req : Option E.Json)
    → Holds (Between (IsSound ledger) (IsSound ledger)) (lazy_init_mbtcp_handle E req)
unfolding lazy_init_mbtcp_handle
lazy_init_mbtcp_handle-IsSound ledger req =
    let plain = IsSound-Plain ledger in
    search (plain_rules, plain, json_get_char-Holds, get_or_init-IsSound) depth 9
