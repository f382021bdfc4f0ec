-- ===== src/Protocol.antt =====
-- modbusd.c as libmodbus sees it: the order in which it opens, connects and uses contexts.
pub mod Handles
pub mod Connects
pub mod Opens
pub mod Answers
pub mod Requests
pub mod Commands
pub mod Run
use modbusd.Prelude.{
  ℕ, ◌≡◌, ◌≢◌, ◌↔◌, ◌⊎◌, inl, inr, subst, some, List, [], ◌∷◌, true, false, arith, get_elem?, Has,
}
use modbusd.Prelude.Int.{ℤ, pos, negsuc, ltb_ℤ}
use modbusd.Env.{Env}
use modbusd.Env.Ledger.{
  Operation, Call, opens, sets_timeout, sets_slave, connects, requests, Ledger,
}
use modbusd.Daemon.{Daemon, Handle}

module _ {Ctx : Type 0} where
  -- A connect of this context that does not return -1.
  abbrev pub Accepts : Ctx → Call Ctx → Type 0
  Accepts c e = (r : ℤ) × (r ≢ negsuc 0) × (e ≡ connects c r)

  -- A request on this context that fails with ECONNRESET.
  abbrev pub Resets : Ctx → Call Ctx → Type 0
  Resets c e =
      (op : Operation) × (r : ℤ) × (e ≡ requests c op r (pos 104)) × (ltb_ℤ r (pos 0) ≡ true)

  -- After these calls, the latest first, the context is connected: a connect was accepted, and no
  -- request has been reset since.
  abbrev pub Up : Ctx → List (Call Ctx) → Type 0
  Up c [] = ⊥
  Up c (e ∷ l) = Accepts c e ⊎ ((¬ Resets c e) × Up c l)

  -- The sequences of calls, the latest first, that keep to libmodbus's protocol: a context gets its
  -- timeout when it is opened, it is connected only when it is not, and a request is made only on a
  -- context that is connected, directly after the slave has been set on it.
  pub data Protocol : List (Call Ctx) → Type 0 where
    idle : Protocol []
    opened_with :
        {l : List (Call Ctx)} (c : Ctx) (usec : ℕ)
        → ¬ Has (opens c) l
        → Protocol l
        → Protocol (sets_timeout c 0 usec ∷ opens c ∷ l)
    tried :
        {l : List (Call Ctx)} (c : Ctx) (r : ℤ)
        → Has (opens c) l
        → ¬ Up c l
        → Protocol l
        → Protocol (connects c r ∷ l)
    unused :
        {l : List (Call Ctx)} (c : Ctx) (slave : ℤ)
        → Up c l
        → Protocol l
        → Protocol (sets_slave c slave ∷ l)
    used :
        {l : List (Call Ctx)} (c : Ctx) (slave : ℤ) (op : Operation) (r err : ℤ)
        → Up c l
        → Protocol l
        → Protocol (requests c op r err ∷ sets_slave c slave ∷ l)

  -- A call that neither accepts nor resets the context changes nothing for it.
  pub Up-other :
      (c : Ctx) (e : Call Ctx) (l : List (Call Ctx))
      → ¬ Accepts c e
      → ¬ Resets c e
      → Up c l ↔ Up c (e ∷ l)
  Up-other c e l not_accepts not_resets = (
    λ up. inr (not_resets, up),
    λ up. elim up [ inl accepts ↦ absurd (not_accepts accepts) | inr (_, before) ↦ before ],
  )

  pub Up-timeout :
      (c d : Ctx) (sec usec : ℕ) (l : List (Call Ctx)) → Up c l ↔ Up c (sets_timeout d sec usec ∷ l)
  Up-timeout c d sec usec l =
      Up-other c _ l (λ (r, _, e). ground arith) (λ (op, r, e, _). ground arith)

  pub Up-opens : (c d : Ctx) (l : List (Call Ctx)) → Up c l ↔ Up c (opens d ∷ l)
  Up-opens c d l = Up-other c _ l (λ (r, _, e). ground arith) (λ (op, r, e, _). ground arith)

  pub Up-slave :
      (c d : Ctx) (slave : ℤ) (l : List (Call Ctx)) → Up c l ↔ Up c (sets_slave d slave ∷ l)
  Up-slave c d slave l = Up-other c _ l (λ (r, _, e). ground arith) (λ (op, r, e, _). ground arith)

  -- Only an open context is connected.
  pub Up-opened : (c : Ctx) {l : List (Call Ctx)} → Protocol l → Up c l → Has (opens c) l
  Up-opened c idle up = absurd up
  Up-opened c (opened_with {l} d usec new p) up =
      let before = (Up-opens c d l).1 ((Up-timeout c d 0 usec (opens d ∷ l)).1 up) in
      inr (inr (Up-opened c p before))
  Up-opened c (tried {l} d r there down p) up = elim up [
    | inl (r', _, e) ↦
        let same : d ≡ c = ground arith in inr (subst (λ x. Has (opens x) l) same there)
    | inr (_, before) ↦ inr (Up-opened c p before)
  ]
  Up-opened c (unused {l} d slave there p) up = inr (Up-opened c p ((Up-slave c d slave l).1 up))
  Up-opened c (used {l} d slave op r err there p) up = elim up [
    | inl (r', _, e) ↦ ground arith
    | inr (_, before) ↦ inr (inr (Up-opened c p ((Up-slave c d slave l).1 before)))
  ]

-- The handles after these calls: each has a context of its own, which has been opened, and its flag
-- says whether that context is connected.
pub record Backed {E : Env} (handles : List (Handle E)) (l : List (Call E.Ctx)) : Type 0 where
  pub known : (p : ℕ) (h : Handle E) → get_elem? handles p ≡ some h → Has (opens h.ctx) l
  pub own :
      (p q : ℕ) (h g : Handle E)
      → get_elem? handles p ≡ some h
      → get_elem? handles q ≡ some g
      → h.ctx ≡ g.ctx
      → p ≡ q
  pub flag_up :
      (p : ℕ) (h : Handle E) → get_elem? handles p ≡ some h → h.connected ≡ true → Up h.ctx l
  pub flag_down :
      (p : ℕ) (h : Handle E) → get_elem? handles p ≡ some h → h.connected ≡ false → ¬ Up h.ctx l

-- The calls so far keep to the protocol, and the handles agree with them.
pub record IsSound {E : Env} (ledger : Ledger E) (s : Daemon E) : Type 0 where
  pub protocol : Protocol (ledger.calls s.world)
  pub backed : Backed s.handles (ledger.calls s.world)
