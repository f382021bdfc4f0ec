-- ===== src/Handle/Lazy.antt =====
-- modbusd.c, `lazy_init_mbtcp_handle`: whichever way it succeeds, the table has the endpoint.
use modbusd.Prelude.{
  ℕ, ◌≡◌, refl, inl, inr, Option, some, true, List, arith, CString, c_str, Bool-cases, Option-cases,
  length,
}
use modbusd.Env.{Env}
use modbusd.Env.Laws.{HashLaws}
use modbusd.Key.{key_bytes}
use modbusd.Key.Layout.{IsField, endpoint_key}
use modbusd.Daemon.{Daemon, ◌>>=◌}
use modbusd.Daemon.Exec.{Returned}
use modbusd.Json.Fields.{HasText, json_get_char-HasText}
use modbusd.Handle.{lazy_init_mbtcp_handle, handle_size}
use modbusd.Handle.Lookup.{
  FoundAt, get_or_init-found, get_or_init-fresh, get_or_init-no_context, get_or_init-no_memory,
}

module _ {E : Env} (hash : HashLaws E) where
  pub lazy_init_finds :
      (req : Option E.Json) (ip port : CString)
      → HasText E req (c_str "ip") ip
      → HasText E req (c_str "port") port
      → IsField ip
      → IsField port
      → (s : Daemon E)
      → Returned
          (λ r t. r.0 ≡ true → (p : ℕ) × (r.1 ≡ some p) × FoundAt ip port t p)
          (lazy_init_mbtcp_handle E req s)
  unfolding lazy_init_mbtcp_handle ◌>>=◌
  lazy_init_finds req ip port has_ip has_port f g s =
      rw
        (
          json_get_char-HasText E req (c_str "ip") ip has_ip s,
          json_get_char-HasText E req (c_str "port") port has_port s,
        )
        (elim (Option-cases (E.hash_find k s.mbtcp_htable)) [
          | inr (p, e) ↦ rw (get_or_init-found ip port f g s p e) (λ _. (p, refl, e))
          | inl e ↦ elim (Option-cases (E.modbus_new_tcp_pi (some ip) (some port) s.world).0) [
            | inl made ↦ rw (get_or_init-no_context ip port f g s e made) (λ i. ground arith)
            | inr (ctx, made) ↦ elim (Bool-cases (E.malloc handle_size (w ctx)).0) [
              | inl got ↦ rw (get_or_init-fresh ip port f g s ctx e made got) (λ _. (
                length s.handles,
                refl,
                hash.find-add_self k (length s.handles) s.mbtcp_htable e,
              ))
              | inr got ↦ rw (get_or_init-no_memory ip port f g s ctx e made got) tt
            ]
          ]
        ])
    where
      k : List ℕ
      k = key_bytes (endpoint_key ip port)

      w : E.Ctx → E.World
      w ctx =
          E.modbus_set_response_timeout ctx 0 s.tcp_conn_timeout_usec
            (E.modbus_new_tcp_pi (some ip) (some port) s.world).1
