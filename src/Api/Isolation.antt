-- ===== src/Api/Isolation.antt =====
-- modbusd.c: what a command for one endpoint does to the others, and to its own.
pub mod Touches
use modbusd.Prelude.{
  ℕ, ◌≡◌, ◌≢◌, refl, ap, sym, ◌∙◌, inl, inr, Option, none, some, Bool, true, arith, CString, c_str,
  get_elem?, get_elem?-set_ne, Bool-cases, Option-cases, if◌then◌else◌,
}
use modbusd.Prelude.Int.{ℤ}
use modbusd.Env.{Env}
use modbusd.Env.Laws.{HashLaws}
use modbusd.Key.{key_bytes}
use modbusd.Key.Layout.{IsField, endpoint_key, key_bytes-injective}
use modbusd.Daemon.{Daemon, Handle, Ptr, load, pure, not_null, set_connected, ◌>>=◌}
use modbusd.Daemon.Exec.{Returned, Returned-mono, Returned-both, Returned-bind}
use modbusd.Daemon.Moves.{Neutral, Moves, Moves-bind, Moves-if, Moves-pure, Moves-not_null}
use modbusd.Json.Fields.{json_get_int-HasInt}
use modbusd.Response.{modbus_set_error_resp}
use modbusd.Handle.{lazy_init_mbtcp_handle, lazy_mbtcp_connect}
use modbusd.Handle.Registry.{IsRegistry, Grows}
use modbusd.Handle.Lookup.{FoundAt}
use modbusd.Handle.Holds.{lazy_mbtcp_connect-Holds}
use modbusd.Handle.Keeps.{lazy_init_mbtcp_handle-Grows}
use modbusd.Handle.Pool.{Pool, pool, status_of, endpoint-cases}
use modbusd.Handle.Pool.Opens.{Opens, there, opened, refused, get_or_init-Opens}
use modbusd.Command.{MbtcpFc, request_on, mbtcp_cmd_hanlder}
use modbusd.Command.Connection.{IsCommand, lazy_init-eq}
use modbusd.Command.Holds.{request_on-Holds}
use modbusd.Api.{Function, fc1, fc2, fc3, fc4, fc5, fc6, fc15, fc16, handler}
use modbusd.Api.Implementation.{modbusd_c, handler-Holds}
use modbusd.Handle.Lazy.{lazy_init_finds}

module _ {E : Env} where
  -- At most the handle at `p` changes, and the table does not.
  pub record Only (p : ℕ) (s t : Daemon E) : Type 0 where
    pub table : t.mbtcp_htable ≡ s.mbtcp_htable
    pub others : (q : ℕ) → q ≢ p → get_elem? t.handles q ≡ get_elem? s.handles q

  pub Only-Neutral : (p : ℕ) → Neutral (Only p)
  Only-Neutral p = record {
    order = record {
      reflexive = λ s. record { table = refl; others = λ q n. refl };
      transitive = λ s t u a b. record {
        table = b.table ∙ a.table;
        others = λ q n. b.others q n ∙ a.others q n;
      };
    };
    world = λ s w. record { table = refl; others = λ q n. refl };
  }

  pub set_connected-Only : (p : ℕ) (b : Bool) → Moves (Only p) (set_connected E (some p) b)
  unfolding set_connected ◌>>=◌
  set_connected-Only p b = record {
    at = λ s. elim (Option-cases (get_elem? s.handles p)) [
      | inl e ↦ rw (e, load) tt
      | inr (h, e) ↦
          rw (e, load)
            (record {
              table = refl;
              others = λ q n. get_elem?-set_ne s.handles p q _ (λ same. n (sym same));
            })
    ];
  }

-- Two pools are the same for every other endpoint.
abbrev pub Others : {S : Type 0} → CString → CString → Pool S → Pool S → Type 0
Others ip port f g =
    (ip' port' : CString)
    → IsField ip'
    → IsField port'
    → ((ip ≡ ip') × (port ≡ port') → ⊥)
    → g ip' port' ≡ f ip' port'

pub Opens-Others :
    {S : Type 0} (ip port : CString) (b : Bool) (f g : Pool S)
    → Opens ip port b f g
    → Others ip port f g
Opens-Others ip port b f g (there v e same) ip' port' i j n = same ip' port' i j
Opens-Others ip port b f g (refused e same) ip' port' i j n = same ip' port' i j
Opens-Others ip port b f g (opened v e same) ip' port' i j n =
    elim (endpoint-cases ip port ip' port') [
      | inl (t, i', j') ↦ absurd (n (i', j'))
      | inr (t, other) ↦ same ip' port' i j ∙ rw t refl
    ]

module _ {E : Env} (hash : HashLaws E) (ip port : CString) (ip_fits : IsField ip)
    (port_fits : IsField port) where
  -- A change of an endpoint's own handle is no change for another endpoint.
  pub Only-Others :
      (s t : Daemon E) (p : ℕ)
      → IsRegistry s
      → FoundAt ip port s p
      → Only p s t
      → Others ip port (pool s) (pool t)
  unfolding pool
  Only-Others s t p registry found only ip' port' f g other =
      let k = key_bytes (endpoint_key ip' port') in
      rw only.table (elim (Option-cases (E.hash_find k s.mbtcp_htable)) [
        | inl e ↦ rw e refl
        | inr (q, e) ↦ rw e (ap status_of (only.others q (λ same. other (one_handle q same e))))
      ])
    where
      one_handle :
          (q : ℕ)
          → q ≡ p
          → E.hash_find (key_bytes (endpoint_key ip' port')) s.mbtcp_htable ≡ some q
          → (ip ≡ ip') × (port ≡ port')
      one_handle q same e =
          let (h, at, i) = registry.present _ p found in
          let (h', at', i') = registry.present _ q e in
          let whole : h ≡ h' = ground (arith, ap (get_elem? s.handles) same) in
          key_bytes-injective ip port ip' port' ip_fits port_fits f g
            (sym i ∙ (ap (λ (x : Handle E). key_bytes x.key) whole ∙ i'))
