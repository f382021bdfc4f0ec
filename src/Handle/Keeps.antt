-- ===== src/Handle/Keeps.antt =====
-- No call of the functions of the table and of the connections breaks the registry.
use modbusd.Prelude.{
  ℕ, ap, ◌≡◌, inl, inr, Option, none, some, Bool, CString, get_elem?, Option-cases, Bool-cases,
}
use modbusd.Env.{Env}
use modbusd.Env.Laws.{HashLaws}
use modbusd.Key.{Key, key_bytes}
use modbusd.Daemon.{M, Daemon, Ptr, ok, load, set_connected, ◌>>=◌}
use modbusd.Daemon.Moves.{Moves-Closed, Moves, Moves-bind, Moves-pure, moves_rules}
use modbusd.Daemon.Exec.{Returned, Returned-mono}
use modbusd.Json.{json_get_char, json_get_int}
use modbusd.Handle.{
  fill_key, with_handle, add_handle, mbtcp_do_connect, handle_size, make_handle, register,
  mbtcp_init_handle, find_handle, mbtcp_get_handle, get_or_init, lazy_init_mbtcp_handle,
  lazy_mbtcp_connect,
}
use modbusd.Handle.Fill.{fill_key-result}
use modbusd.Json.Holds.{json_get_char-Holds, json_get_int-Holds}
use modbusd.Handle.Holds.{mbtcp_do_connect-Holds, lazy_mbtcp_connect-Holds}
use modbusd.Handle.Registry.{
  Grows, Grows-Neutral, Grows-world, Grows-refl, Grows-trans, Grows-set_connected,
  Grows-with_handle,
}

module _ (E : Env) where
  set_connected_at :
      (s : Daemon E) (p : ℕ) (b : Bool) → Returned (λ _ t. Grows s t) (set_connected E (some p) b s)
  unfolding set_connected ◌>>=◌
  set_connected_at s p b = elim (Option-cases (get_elem? s.handles p)) [
    | inl e ↦ rw (e, load) tt
    | inr (h, e) ↦ rw (e, load) (Grows-set_connected s p h e b)
  ]

  pub set_connected-Grows : (p : Ptr) (b : Bool) → Moves Grows (set_connected E p b)
  unfolding set_connected
  set_connected-Grows none b = search (moves_rules, Grows-Neutral)
  set_connected-Grows (some p) b = record { at = λ s. set_connected_at s p b }

  pub mbtcp_do_connect-Grows :
      (p : Ptr) (reason : Option CString) → Moves Grows (mbtcp_do_connect E p reason)
  mbtcp_do_connect-Grows p reason =
      mbtcp_do_connect-Holds (Moves-Closed Grows-Neutral) p (set_connected-Grows p) reason

  pub json_get_char-Grows :
      (req : Option E.Json) (key : CString) → Moves Grows (json_get_char E req key)
  json_get_char-Grows req key = json_get_char-Holds (Moves-Closed Grows-Neutral).plain req key

  pub json_get_int-Grows :
      (req : Option E.Json) (key : CString) → Moves Grows (json_get_int E req key)
  json_get_int-Grows req key = json_get_int-Holds (Moves-Closed Grows-Neutral).plain req key

  pub lazy_mbtcp_connect-Grows :
      (p : Ptr) (reason : Option CString) → Moves Grows (lazy_mbtcp_connect E p reason)
  lazy_mbtcp_connect-Grows p reason =
      lazy_mbtcp_connect-Holds (Moves-Closed Grows-Neutral) p (set_connected-Grows p) reason

  module _ (laws : HashLaws E) (ip port : Option CString) (key : Key)
      (filled : (s : Daemon E) → fill_key E ip port s ≡ ok (key, s)) where
    -- Whatever the state that the fresh handle is added to, its key is not there yet.
    make_handle_at :
        (s : Daemon E) (ctx : E.Ctx)
        → E.hash_find (key_bytes key) s.mbtcp_htable ≡ none
        → Returned (λ _ t. Grows s t) (make_handle E ctx ip port s)
    unfolding make_handle add_handle ◌>>=◌
    make_handle_at s ctx fresh = rw (filled s) (
        Returned-mono _ _ _ (λ a t g. Grows-trans s _ t (Grows-with_handle laws s key ctx fresh) g)
          ((Moves-bind Grows-Neutral _ _ (mbtcp_do_connect-Grows _ none)
              λ _. Moves-pure Grows-Neutral _).at
            (with_handle E key ctx s)))

    register_at :
        (s : Daemon E) (ctx : E.Ctx)
        → E.hash_find (key_bytes key) s.mbtcp_htable ≡ none
        → Returned (λ _ t. Grows s t) (register E ctx ip port s)
    unfolding register ◌>>=◌
    register_at s ctx fresh =
        let w = E.modbus_set_response_timeout ctx 0 s.tcp_conn_timeout_usec s.world in
        elim (Bool-cases (E.malloc handle_size w).0) [
          | inl e ↦ rw e (
              Returned-mono _ _ _ (λ a t g. Grows-trans s _ t (Grows-world s _) g)
                (make_handle_at (record s { world = (E.malloc handle_size w).1 }) ctx fresh))
          | inr e ↦ rw e tt
        ]

    pub mbtcp_init_handle_at :
        (s : Daemon E) (ptr : Ptr)
        → E.hash_find (key_bytes key) s.mbtcp_htable ≡ none
        → Returned (λ _ t. Grows s t) (mbtcp_init_handle E ptr ip port s)
    unfolding mbtcp_init_handle ◌>>=◌
    mbtcp_init_handle_at s ptr fresh =
        let w = (E.modbus_new_tcp_pi ip port s.world).1 in
        elim (Option-cases (E.modbus_new_tcp_pi ip port s.world).0) [
          | inl e ↦ rw e (Grows-world s w)
          | inr (ctx, e) ↦ rw e (
              Returned-mono _ _ _ (λ a t g. Grows-trans s _ t (Grows-world s w) g)
                (register_at (record s { world = w }) ctx fresh))
        ]

    get_or_init_at : (s : Daemon E) → Returned (λ _ t. Grows s t) (get_or_init E ip port s)
    unfolding get_or_init mbtcp_get_handle find_handle ◌>>=◌
    get_or_init_at s = elim (Option-cases (E.hash_find (key_bytes key) s.mbtcp_htable)) [
      | inl e ↦ rw (filled s, e, find_handle) (mbtcp_init_handle_at s none e)
      | inr (p, e) ↦ rw (filled s, e, find_handle) (Grows-refl s)
    ]

  module _ (laws : HashLaws E) where
    pub get_or_init-Grows : (ip port : Option CString) → Moves Grows (get_or_init E ip port)
    unfolding get_or_init mbtcp_get_handle ◌>>=◌
    get_or_init-Grows ip port = elim (fill_key-result E ip port) [
      | inl (e, p) ↦ record { at = λ s. rw (ap (λ (m : M E Key). m s) p) tt }
      | inr (k, _, p) ↦
          let filled : (s : Daemon E) → fill_key E ip port s ≡ ok (k, s) =
            λ s. ap (λ (m : M E Key). m s) p in
          record { at = λ s. get_or_init_at laws ip port k filled s }
    ]

    pub lazy_init_mbtcp_handle-Grows :
        (req : Option E.Json) → Moves Grows (lazy_init_mbtcp_handle E req)
    unfolding lazy_init_mbtcp_handle
    lazy_init_mbtcp_handle-Grows req =
        search (moves_rules, Grows-Neutral, json_get_char-Grows, get_or_init-Grows)
