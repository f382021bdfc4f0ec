-- ===== src/Handle/Lookup.antt =====
-- modbusd.c, `lazy_init_mbtcp_handle`: one handle for each endpoint, made on its first request.
use modbusd.Prelude.{
  ℕ, ◌≤◌, ◌≡◌, Option, none, some, List, [], ◌∷◌, ◌++◌, Bool, true, false, not, arith, CString,
  length, get_elem?-append_end, set-append_end, inl, inr, Bool-cases, Option-cases,
}
use modbusd.Prelude.Int.{ℤ, negsuc, eqb_ℤ}
use modbusd.Env.{Env}
use modbusd.Env.Laws.{HashLaws}
use modbusd.Key.{key_bytes, field_size}
use modbusd.Key.Layout.{IsField, padded, endpoint_key, strcpy-fits, strcpy-overflows}
use modbusd.Daemon.{
  Daemon, Handle, ok, stop, null_pointer, buffer_overflow, and_then, load, set_connected, ◌>>=◌,
}
use modbusd.Handle.{
  copy_field, fill_key, with_handle, add_handle, mbtcp_do_connect, handle_size, make_handle,
  mbtcp_init_handle, find_handle, mbtcp_get_handle, get_or_init,
}

module _ (E : Env) where
  pub copy_field-fits :
      (t : CString) → IsField t → (s : Daemon E) → copy_field E (some t) s ≡ ok (padded t, s)
  unfolding copy_field
  copy_field-fits t f s = rw (strcpy-fits t f.fits, copy_field)

  pub copy_field-overflows :
      (t : CString)
      → field_size ≤ length t
      → (s : Daemon E) → copy_field E (some t) s ≡ stop buffer_overflow
  unfolding copy_field
  copy_field-overflows t h s = rw (strcpy-overflows t h, copy_field)

  pub fill_key-fits :
      (ip port : CString)
      → IsField ip
      → IsField port
      → (s : Daemon E) → fill_key E (some ip) (some port) s ≡ ok (endpoint_key ip port, s)
  unfolding fill_key endpoint_key ◌>>=◌
  fill_key-fits ip port f g s = rw (copy_field-fits ip f s, copy_field-fits port g s)

  pub fill_key-overflows :
      (ip port : CString)
      → field_size ≤ length ip
      → (s : Daemon E) → fill_key E (some ip) (some port) s ≡ stop buffer_overflow
  unfolding fill_key ◌>>=◌
  fill_key-overflows ip port h s = rw (copy_field-overflows ip h s)

module _ {E : Env} (ip port : CString) (s : Daemon E) where
  abbrev pub FoundAt : ℕ → Type 0
  FoundAt p = E.hash_find (key_bytes (endpoint_key ip port)) s.mbtcp_htable ≡ some p

  abbrev pub IsNew : Type 0
  IsNew = E.hash_find (key_bytes (endpoint_key ip port)) s.mbtcp_htable ≡ none

  -- The states of the libraries while a handle is made on the context `ctx`: after the new context
  -- has its timeout and the handle its memory, and after the attempt to connect.
  module _ (ctx : E.Ctx) where
    abbrev pub world_ready : E.World
    world_ready =
        (E.malloc handle_size (
          E.modbus_set_response_timeout ctx 0 s.tcp_conn_timeout_usec
            (E.modbus_new_tcp_pi (some ip) (some port) s.world).1)).1

    abbrev pub connection : ℤ × E.World
    connection = E.modbus_connect ctx world_ready

    -- The daemon with the new handle, whose flag says whether the attempt succeeded.
    abbrev pub with_endpoint : Daemon E
    with_endpoint = record s {
      handles =
          s.handles
          ++ record {
            key = endpoint_key ip port;
            connected = not (eqb_ℤ connection.0 (negsuc 0));
            ctx = ctx;
          }
            ∷ [];
      mbtcp_htable =
          E.hash_add (key_bytes (endpoint_key ip port)) (length s.handles) s.mbtcp_htable;
      world = connection.1;
    }

module _ {E : Env} (ip port : CString) (ip_fits : IsField ip) (port_fits : IsField port)
    (s : Daemon E) where
  pub get_or_init-found :
      (p : ℕ) → FoundAt ip port s p → get_or_init E (some ip) (some port) s ≡ ok ((true, some p), s)
  unfolding get_or_init mbtcp_get_handle find_handle ◌>>=◌
  get_or_init-found p e = rw (fill_key-fits E ip port ip_fits port_fits s, e, find_handle)

module _ {E : Env} (ip port : CString) (ip_fits : IsField ip) (port_fits : IsField port)
    (ctx : E.Ctx) where
  unfoldable pub fresh_handle : Bool → Handle E
  fresh_handle b = record { key = endpoint_key ip port; connected = b; ctx = ctx }

  connect_new :
      (r : Daemon E)
      → and_then {B = Bool × Option ℕ}
          (mbtcp_do_connect E
            (some (length r.handles))
            none
            (with_handle E (endpoint_key ip port) ctx r))
          (λ _ t. ok ((true, some (length r.handles)), t))
        ≡ ok (
          (true, some (length r.handles)),
          record r {
            handles =
                r.handles
                ++ fresh_handle (not (eqb_ℤ (E.modbus_connect ctx r.world).0 (negsuc 0))) ∷ [];
            mbtcp_htable =
                E.hash_add (key_bytes (endpoint_key ip port)) (length r.handles) r.mbtcp_htable;
            world = (E.modbus_connect ctx r.world).1;
          },
        )
  unfolding mbtcp_do_connect set_connected with_handle fresh_handle ◌>>=◌
  connect_new r =
      let p = length r.handles in
      let there = get_elem?-append_end r.handles (fresh_handle false) in
      let written = set-append_end r.handles (fresh_handle false) (fresh_handle true) in
      elim (Bool-cases (eqb_ℤ (E.modbus_connect ctx r.world).0 (negsuc 0))) [
        | inl e ↦ rw (there, load, e)
        | inr e ↦ rw (there, load, e) (rw (there, load) (rw written))
      ]

  pub make_handle-eq :
      (r : Daemon E)
      → make_handle E ctx (some ip) (some port) r
        ≡ ok (
          (true, some (length r.handles)),
          record r {
            handles =
                r.handles
                ++ fresh_handle (not (eqb_ℤ (E.modbus_connect ctx r.world).0 (negsuc 0))) ∷ [];
            mbtcp_htable =
                E.hash_add (key_bytes (endpoint_key ip port)) (length r.handles) r.mbtcp_htable;
            world = (E.modbus_connect ctx r.world).1;
          },
        )
  unfolding make_handle add_handle ◌>>=◌
  make_handle-eq r = rw (fill_key-fits E ip port ip_fits port_fits r) (connect_new r)

module _ {E : Env} (ip port : CString) (ip_fits : IsField ip) (port_fits : IsField port)
    (s : Daemon E) where
  -- The first request for an endpoint, if libmodbus gives a context and malloc gives memory: the
  -- context gets the current timeout, a handle with the endpoint's key and that context stands behind
  -- the others, the table has it under its key, one attempt to connect was made, and the flag of the
  -- handle says whether it succeeded. The function returns the new handle whether it did or not.
  pub get_or_init-fresh :
      (ctx : E.Ctx)
      → IsNew ip port s
      → (E.modbus_new_tcp_pi (some ip) (some port) s.world).0 ≡ some ctx
      → (E.malloc handle_size (
          E.modbus_set_response_timeout ctx 0 s.tcp_conn_timeout_usec
            (E.modbus_new_tcp_pi (some ip) (some port) s.world).1)).0
        ≡ true
      → get_or_init E (some ip) (some port) s
        ≡ ok ((true, some (length s.handles)), with_endpoint ip port s ctx)
  unfolding get_or_init mbtcp_get_handle find_handle mbtcp_init_handle fresh_handle ◌>>=◌
  get_or_init-fresh ctx e made got =
      rw (fill_key-fits E ip port ip_fits port_fits s, e, find_handle)
        (rw (made, got) (make_handle-eq ip port ip_fits port_fits ctx _))

  -- libmodbus gives no context: the function fails, nothing is added, no pointer is given.
  pub get_or_init-no_context :
      IsNew ip port s
      → (E.modbus_new_tcp_pi (some ip) (some port) s.world).0 ≡ none
      → get_or_init E (some ip) (some port) s
        ≡ ok (
          (false, none),
          record s { world = (E.modbus_new_tcp_pi (some ip) (some port) s.world).1 },
        )
  unfolding get_or_init mbtcp_get_handle find_handle mbtcp_init_handle ◌>>=◌
  get_or_init-no_context e made =
      rw (fill_key-fits E ip port ip_fits port_fits s, e, find_handle) (rw made)

  -- malloc gives no memory for the handle: the memset of NULL ends the run.
  pub get_or_init-no_memory :
      (ctx : E.Ctx)
      → IsNew ip port s
      → (E.modbus_new_tcp_pi (some ip) (some port) s.world).0 ≡ some ctx
      → (E.malloc handle_size (
          E.modbus_set_response_timeout ctx 0 s.tcp_conn_timeout_usec
            (E.modbus_new_tcp_pi (some ip) (some port) s.world).1)).0
        ≡ false
      → get_or_init E (some ip) (some port) s ≡ stop null_pointer
  unfolding get_or_init mbtcp_get_handle find_handle mbtcp_init_handle ◌>>=◌
  get_or_init-no_memory ctx e made got =
      rw (fill_key-fits E ip port ip_fits port_fits s, e, find_handle) (rw (made, got))

  -- Whatever way the function succeeds, the endpoint's key then leads to the handle that it returned.
  pub get_or_init-found_after :
      (laws : HashLaws E) (p : ℕ) (t : Daemon E)
      → get_or_init E (some ip) (some port) s ≡ ok ((true, some p), t)
      → FoundAt ip port t p
  get_or_init-found_after laws p t h = elim (Option-cases (E.hash_find k s.mbtcp_htable)) [
    | inr (q, e) ↦ ground (arith, get_or_init-found ip port ip_fits port_fits s q e)
    | inl e ↦ elim (Option-cases (E.modbus_new_tcp_pi (some ip) (some port) s.world).0) [
      | inl made ↦ ground (arith, get_or_init-no_context e made)
      | inr (ctx, made) ↦ elim (Bool-cases (E.malloc handle_size (w ctx)).0) [
        | inl got ↦ ground (
          arith,
          get_or_init-fresh ctx e made got,
          laws.find-add_self k (length s.handles) s.mbtcp_htable e,
        )
        | inr got ↦ ground (arith, get_or_init-no_memory ctx e made got)
      ]
    ]
  ]
    where
      k : List ℕ
      k = key_bytes (endpoint_key ip port)

      w : E.Ctx → E.World
      w ctx =
          E.modbus_set_response_timeout ctx 0 s.tcp_conn_timeout_usec
            (E.modbus_new_tcp_pi (some ip) (some port) s.world).1
