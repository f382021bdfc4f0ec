-- ===== src/Handle/Pool/Opens.antt =====
-- modbusd.c, `lazy_init_mbtcp_handle`: as an operation on the abstract pool.
use modbusd.Prelude.{
  ℕ, ◌≡◌, refl, inl, inr, none, some, List, Bool, true, false, CString, Bool-cases, Option-cases,
}
use modbusd.Env.{Env}
use modbusd.Env.Laws.{HashLaws}
use modbusd.Key.{key_bytes}
use modbusd.Key.Layout.{IsField, endpoint_key}
use modbusd.Daemon.{Daemon}
use modbusd.Handle.Registry.{IsRegistry}
use modbusd.Daemon.Exec.{Returned}
use modbusd.Handle.{get_or_init, handle_size}
use modbusd.Handle.Lookup.{
  get_or_init-found, get_or_init-fresh, get_or_init-no_context, get_or_init-no_memory,
}
use modbusd.Handle.Pool.{Pool, update, Agree, pool, with_endpoint-update}

-- What `lazy_init_mbtcp_handle` may do to the pool: the endpoint was open and all is as it was; it was
-- not, and is now; or it was not, and the function fails.
pub data Opens {S : Type 0} (ip port : CString) : Bool → Pool S → Pool S → Type 0 where
  there : {f g : Pool S} (v : S) → f ip port ≡ some v → Agree g f → Opens ip port true f g
  opened :
      {f g : Pool S} (v : S)
      → f ip port ≡ none
      → Agree g (update f ip port v)
      → Opens ip port true f g
  refused : {f g : Pool S} → f ip port ≡ none → Agree g f → Opens ip port false f g

module _ {E : Env} (hash : HashLaws E) (s : Daemon E) (registry : IsRegistry s) (ip port : CString)
    (ip_fits : IsField ip) (port_fits : IsField port) where
  world_before : E.Ctx → E.World
  world_before ctx =
      E.modbus_set_response_timeout ctx 0 s.tcp_conn_timeout_usec
        (E.modbus_new_tcp_pi (some ip) (some port) s.world).1

  -- From a state with a sound registry, getting or making the handle of an endpoint that a key can
  -- hold, if it returns, refines the operation on the pool: its result says whether the endpoint is
  -- open afterwards, and no other endpoint changes.
  pub get_or_init-Opens :
      Returned (λ r t. Opens ip port r.0 (pool s) (pool t)) (get_or_init E (some ip) (some port) s)
  unfolding pool world_before
  get_or_init-Opens = elim (Option-cases (E.hash_find k s.mbtcp_htable)) [
    | inr (p, e) ↦
        let (h, at, _) = registry.present k p e in
        rw (get_or_init-found ip port ip_fits port_fits s p e)
          (there (h.connected, h.ctx) (rw (e, at) refl) (λ ip' port' f g. refl))
    | inl e ↦ elim (Option-cases (E.modbus_new_tcp_pi (some ip) (some port) s.world).0) [
      | inl made ↦
          rw (get_or_init-no_context ip port ip_fits port_fits s e made)
            (refused (rw e refl) (λ ip' port' f g. refl))
      | inr (ctx, made) ↦ elim (Bool-cases (E.malloc handle_size (world_before ctx)).0) [
        | inl got ↦ rw (get_or_init-fresh ip port ip_fits port_fits s ctx e made got) (
            opened _ (rw e refl)
              (with_endpoint-update hash s registry ip port ip_fits port_fits ctx e))
        | inr got ↦ rw (get_or_init-no_memory ip port ip_fits port_fits s ctx e made got) tt
      ]
    ]
  ]
    where
      k : List ℕ
      k = key_bytes (endpoint_key ip port)
