-- ===== src/Handle/Pool.antt =====
-- The abstract view of the table: for each endpoint, whether it is open, and if so whether it is
-- connected and its libmodbus context. It forgets addresses, bytes and hashing.
pub mod Opens
use modbusd.Prelude.{
  ℕ, ◌+◌, ◌<◌, ◌≡◌, ◌≢◌, refl, ap, sym, ◌∙◌, ◌⊎◌, inl, inr, Option, none, some, List, [], ◌∷◌, ◌++◌,
  Bool, true, false, ◌&&◌, not, arith, CString, str_eq, str_eq-eq, str_eq_refl, length, get_elem?,
  get_elem?-lt, get_elem?-append_left, get_elem?-append_end, get_elem?-set_self, get_elem?-set_ne,
  set, Bool-cases, Option-cases, ◌==◌, ==_iff, if◌then◌else◌,
}
use modbusd.Prelude.Int.{negsuc, eqb_ℤ}
use modbusd.Env.{Env}
use modbusd.Env.Laws.{HashLaws}
use modbusd.Key.{key_bytes}
use modbusd.Key.Layout.{IsField, endpoint_key, key_bytes-injective}
use modbusd.Daemon.{Daemon, Handle, ok}
use modbusd.Handle.Registry.{IsRegistry, Stays}
use modbusd.Daemon.Exec.{Returned}
use modbusd.Handle.{get_or_init, handle_size}
use modbusd.Handle.Lookup.{
  FoundAt, IsNew, connection, with_endpoint, get_or_init-found, get_or_init-fresh,
  get_or_init-no_context, get_or_init-no_memory,
}

-- What a client can tell of an endpoint: nothing, or a status.
abbrev pub Pool : Type 0 → Type 0
Pool S = CString → CString → Option S

module _ {S : Type 0} where
  -- The pool with one endpoint changed.
  abbrev pub update : Pool S → CString → CString → S → Pool S
  update f ip port v ip' port' = if str_eq ip ip' && str_eq port port' then some v else f ip' port'

  -- Two pools are the same for every endpoint that a key can hold.
  abbrev pub Agree : Pool S → Pool S → Type 0
  Agree f g = (ip port : CString) → IsField ip → IsField port → f ip port ≡ g ip port

-- The flag and the context.
abbrev pub Status : Env → Type 0
Status E = Bool × E.Ctx

module _ {E : Env} where
  abbrev pub status_of : Option (Handle E) → Option (Status E)
  status_of none = none
  status_of (some h) = some (h.connected, h.ctx)

  abbrev pub status_at : List (Handle E) → Option ℕ → Option (Status E)
  status_at handles none = none
  status_at handles (some p) = status_of (get_elem? handles p)

  unfoldable pub pool : Daemon E → Pool (Status E)
  pool s ip port =
      status_at s.handles (E.hash_find (key_bytes (endpoint_key ip port)) s.mbtcp_htable)

module _ (ip port ip' port' : CString) where
  pub endpoint-cases :
      ((str_eq ip ip' && str_eq port port' ≡ true) × (ip ≡ ip') × (port ≡ port'))
      ⊎ ((str_eq ip ip' && str_eq port port' ≡ false) × ((ip ≡ ip') × (port ≡ port') → ⊥))
  endpoint-cases = elim (Bool-cases (str_eq ip ip' && str_eq port port')) [
    | inl e ↦
        let a : str_eq ip ip' ≡ true = ground arith in
        let b : str_eq port port' ≡ true = ground arith in
        inl (e, str_eq-eq ip ip' a, str_eq-eq port port' b)
    | inr e ↦ inr (
      e,
      λ (i, j).
          ground (arith, ap (str_eq ip) i, ap (str_eq port) j, str_eq_refl ip, str_eq_refl port),
    )
  ]

module _ {E : Env} (hash : HashLaws E) (s : Daemon E) (registry : IsRegistry s) (ip port : CString)
    (ip_fits : IsField ip) (port_fits : IsField port) where
  -- Making the handle of a new endpoint opens this endpoint in the pool, with the flag of the attempt
  -- to connect and the new context, and leaves every other endpoint as it was.
  pub with_endpoint-update :
      (ctx : E.Ctx)
      → IsNew ip port s
      → Agree
          (pool (with_endpoint ip port s ctx))
          (update (pool s) ip port (not (eqb_ℤ (connection ip port s ctx).0 (negsuc 0)), ctx))
  unfolding pool
  with_endpoint-update ctx new ip' port' f g = elim (endpoint-cases ip port ip' port') [
    | inl (e, i, j) ↦ rw e (
        rw (← i, ← j)
          (rw
            (hash.find-add_self (key_bytes (endpoint_key ip port)) (length s.handles) s.mbtcp_htable
              new)
            (ap status_of (get_elem?-append_end s.handles _))))
    | inr (e, n) ↦
        let k = key_bytes (endpoint_key ip' port') in
        let other : key_bytes (endpoint_key ip port) ≢ k =
          λ same. n (key_bytes-injective ip port ip' port' ip_fits port_fits f g same) in
        rw e (
          ap (status_at (with_endpoint ip port s ctx).handles) (
            hash.find-add_ne (key_bytes (endpoint_key ip port)) k (length s.handles) s.mbtcp_htable
              new other)
          ∙ kept k)
  ]
    where
      kept :
          (k : List ℕ)
          → status_at (with_endpoint ip port s ctx).handles (E.hash_find k s.mbtcp_htable)
            ≡ status_at s.handles (E.hash_find k s.mbtcp_htable)
      kept k = elim (Option-cases (E.hash_find k s.mbtcp_htable)) [
        | inl e ↦ rw e refl
        | inr (p, e) ↦
            let (h, at, _) = registry.present k p e in
            rw e (ap status_of (get_elem?-append_left s.handles _ p (get_elem?-lt s.handles p at)))
      ]

  -- Setting the flag of an endpoint's handle changes the endpoint's flag in the pool, and leaves its
  -- context and every other endpoint as they were.
  pub set_connected-update :
      (p : ℕ) (h : Handle E) (b : Bool)
      → FoundAt ip port s p
      → get_elem? s.handles p ≡ some h
      → Agree
          (pool (record s { handles = set s.handles p (record h { connected = b }) }))
          (update (pool s) ip port (b, h.ctx))
  unfolding pool
  set_connected-update p h b found at ip' port' f g = elim (endpoint-cases ip port ip' port') [
    | inl (e, i, j) ↦ rw e (
        rw (← i, ← j)
          (rw found
            (ap status_of (get_elem?-set_self s.handles p _ (get_elem?-lt s.handles p at)))))
    | inr (e, n) ↦ rw e (
        kept (key_bytes (endpoint_key ip' port'))
          (λ same. n (key_bytes-injective ip port ip' port' ip_fits port_fits f g same)))
  ]
    where
      same_handle :
          (p q : ℕ)
          → p ≡ q
          → (x y : Handle E) → get_elem? s.handles p ≡ some x
          → get_elem? s.handles q ≡ some y
          → x ≡ y
      same_handle p q same x y e f = ground (arith, ap (get_elem? s.handles) same)

      -- Another key leads to another address.
      kept :
          (k : List ℕ)
          → key_bytes (endpoint_key ip port) ≢ k
          → status_at (set s.handles p (record h { connected = b })) (E.hash_find k s.mbtcp_htable)
            ≡ status_at s.handles (E.hash_find k s.mbtcp_htable)
      kept k other = elim (Option-cases (E.hash_find k s.mbtcp_htable)) [
        | inl e ↦ rw e refl
        | inr (q, e) ↦
            let (h', at', i') = registry.present k q e in
            let (h'', at'', i'') = registry.present (key_bytes (endpoint_key ip port)) p found in
            rw e (
              ap status_of (
                get_elem?-set_ne s.handles p q _ (λ same. other (
                  sym i''
                  ∙ (ap (λ x. key_bytes x.key) (same_handle p q same h'' h' at'' at') ∙ i')))))
      ]

-- Every endpoint that is open stays open, on the same context; its flag may change.
abbrev pub Evolves : {C : Type 0} → Pool (Bool × C) → Pool (Bool × C) → Type 0
Evolves {C} f g =
    (ip port : CString) (b : Bool) (ctx : C)
    → f ip port ≡ some (b, ctx)
    → (b' : Bool) × (g ip port ≡ some (b', ctx))

module _ {E : Env} where
  -- An open endpoint has a handle.
  open_handle :
      (s : Daemon E) (k : List ℕ) (b : Bool) (ctx : E.Ctx)
      → status_at s.handles (E.hash_find k s.mbtcp_htable) ≡ some (b, ctx)
      → (p : ℕ) × (h : Handle E) × (E.hash_find k s.mbtcp_htable ≡ some p)
        × (get_elem? s.handles p ≡ some h)
        × (h.ctx ≡ ctx)
  open_handle s k b ctx e = elim (Option-cases (E.hash_find k s.mbtcp_htable)) [
    | inl f ↦ ground arith
    | inr (p, f) ↦ elim (Option-cases (get_elem? s.handles p)) [
      | inl g ↦ ground arith
      | inr (h, g) ↦ (p, h, f, g, ground arith)
    ]
  ]

  pub pool-Evolves :
      (s t : Daemon E) → IsRegistry s → IsRegistry t → Stays s t → Evolves (pool s) (pool t)
  unfolding pool
  pool-Evolves s t r r' stays ip port b ctx e =
      let k = key_bytes (endpoint_key ip port) in
      let (p, h, found, at, c) = open_handle s k b ctx e in
      let (h0, at0, i) = r.present k p found in
      let (h', at', j, c') = stays p h0 at0 in
      let whole : h0 ≡ h = ground (arith, at, at0) in
      let same : h0.ctx ≡ h.ctx = ap (λ (x : Handle E). x.ctx) whole in
      let found' : E.hash_find k t.mbtcp_htable ≡ some p = rw (← i, ← j) (r'.registered p h' at') in
      (h'.connected, rw (found', at') (ap (λ x. some (h'.connected, x)) (c' ∙ (same ∙ c))))
