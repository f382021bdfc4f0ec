-- ===== src/Protocol/Answers.antt =====
-- modbusd.c, what follows a request: the flag of the handle falls when the connection was reset.
use modbusd.Prelude.{
  ℕ, ◌≡◌, sym, ap, ◌∙◌, subst, some, List, ◌∷◌, true, false, arith, get_elem?, set, inl, inr,
  Bool-cases,
}
use modbusd.Prelude.Int.{ℤ, pos, ltb_ℤ, eqb_ℤ, eqb_ℤ_iff}
use modbusd.Env.{Env}
use modbusd.Env.Ledger.{Operation, Call, sets_slave, requests, Ledger}
use modbusd.Daemon.{Daemon, Handle, ◌>>=◌}
use modbusd.Daemon.Exec.{Returned}
use modbusd.Daemon.Closed.{Plain}
use modbusd.Daemon.Between.{Between, Between-Plain}
use modbusd.Handle.Connect.{set_connected-at}
use modbusd.Request.{get_errno, set_modbus_errno_resp, read_reply, write_reply, connection_reset}
use modbusd.Protocol.{Up, Up-other, Up-slave, Resets, Protocol, unused, used, Backed, IsSound}
use modbusd.Protocol.Handles.{Backed-after, Backed-flag}

module _ {E : Env} (ledger : Ledger E) (p : ℕ) where
  -- The handle is connected, and the latest call has set the slave on its context.
  pub record IsSelected (s : Daemon E) : Type 0 where
    pub handle : Handle E
    pub at : get_elem? s.handles p ≡ some handle
    pub slave : ℤ
    pub earlier : List (Call E.Ctx)
    pub log : ledger.calls s.world ≡ sets_slave handle.ctx slave ∷ earlier
    pub up : Up handle.ctx earlier
    pub protocol : Protocol earlier
    pub backed : Backed s.handles earlier

  slave_set :
      (s : Daemon E) (i : IsSelected s)
      → Backed s.handles (sets_slave i.handle.ctx i.slave ∷ i.earlier)
  slave_set s i =
      Backed-after i.backed _ (λ c there. inr there)
        (λ c. Up-slave c i.handle.ctx i.slave i.earlier)

  pub IsSound-selected : (s : Daemon E) → IsSelected s → IsSound ledger s
  IsSound-selected s i = record {
    protocol = subst Protocol (sym i.log) (unused i.handle.ctx i.slave i.up i.protocol);
    backed = subst (Backed s.handles) (sym i.log) (slave_set s i);
  }

  pub IsSelected-Plain : Plain (Between IsSelected IsSelected)
  IsSelected-Plain = Between-Plain λ n s i. record {
    handle = i.handle;
    at = i.at;
    slave = i.slave;
    earlier = i.earlier;
    log = ledger.of_malloc n s.world ∙ i.log;
    up = i.up;
    protocol = i.protocol;
    backed = i.backed;
  }

  -- The request was made, with this result.
  module _ (s : Daemon E) (i : IsSelected s) (op : Operation) (ret : ℤ) (w : E.World)
      (made : ledger.calls w
        ≡ requests i.handle.ctx op ret (E.errno w) ∷ ledger.calls s.world) where
    abbrev request : Call E.Ctx
    request = requests i.handle.ctx op ret (E.errno w)

    abbrev before : List (Call E.Ctx)
    before = sets_slave i.handle.ctx i.slave ∷ i.earlier

    log_after : ledger.calls w ≡ request ∷ before
    log_after = made ∙ ap (λ l. request ∷ l) i.log

    Protocol-after : Protocol (ledger.calls w)
    Protocol-after =
        subst Protocol (sym log_after)
          (used i.handle.ctx i.slave op ret (E.errno w) i.up i.protocol)

    -- No reset: nothing changes.
    steady : ((c : E.Ctx) → ¬ Resets c request) → IsSound ledger (record s { world = w })
    steady no_reset = record {
      protocol = Protocol-after;
      backed = subst (Backed s.handles) (sym log_after) (
          Backed-after (slave_set s i) (request ∷ before) (λ c there. inr there)
            (λ c. Up-other c request before (λ (r, _, e). ground arith) (no_reset c)));
    }

    -- A reset: the flag of this handle falls.
    fallen :
        ltb_ℤ ret (pos 0) ≡ true
        → E.errno w ≡ pos 104
        → IsSound ledger (record s {
          handles = set s.handles p (record i.handle { connected = false });
          world = w;
        })
    fallen failed reset =
        let this : Resets i.handle.ctx request =
          (op, ret, ap (λ e. requests i.handle.ctx op ret e) reset, failed) in
        record {
          protocol = Protocol-after;
          backed =
              subst (Backed (set s.handles p (record i.handle { connected = false })))
                (sym log_after)
                (Backed-flag (slave_set s i) p i.handle i.at false (request ∷ before)
                  (λ c there. inr there)
                  (λ c other.
                    Up-other c request before (λ (r, _, e). ground arith)
                      (λ (o, r, e, _). ground arith))
                  (λ e. ground arith)
                  (λ _ up. elim up [
                    | inl (r, _, e) ↦ ground arith
                    | inr (none_of, _) ↦ none_of this
                  ]));
        }

    error_at :
        (tid : ℤ)
        → ltb_ℤ ret (pos 0) ≡ true
        → Returned
            (λ _ t. IsSound ledger t)
            ((get_errno E >>= λ errnum. set_modbus_errno_resp E tid (some p) errnum)
              (record s { world = w }))
    unfolding get_errno set_modbus_errno_resp ◌>>=◌
    error_at tid failed = elim (Bool-cases (eqb_ℤ (E.errno w) connection_reset)) [
      | inl e ↦ rw e (
          rw (set_connected-at (record s { world = w }) p i.handle i.at false)
            (fallen failed ((eqb_ℤ_iff _ _).0 e)))
      | inr e ↦
          rw e (steady λ c (o, r, same, _). ground (arith, eqb_ℤ_iff (E.errno w) connection_reset))
    ]

    pub write_reply_at :
        (tid : ℤ)
        → Returned
            (λ _ t. IsSound ledger t)
            (write_reply E (some p) tid ret (record s { world = w }))
    unfolding write_reply ◌>>=◌
    write_reply_at tid = elim (Bool-cases (ltb_ℤ ret (pos 0))) [
      | inl e ↦ rw e (error_at tid e)
      | inr e ↦ rw e (steady λ c (o, r, same, neg). ground arith)
    ]

    pub read_reply_at :
        (tid len : ℤ) (to_array : List ℕ → E.Json) (values : List ℕ)
        → Returned
            (λ _ t. IsSound ledger t)
            (read_reply E (some p) tid len to_array (ret, values) (record s { world = w }))
    unfolding read_reply ◌>>=◌
    read_reply_at tid len to_array values = elim (Bool-cases (ltb_ℤ ret (pos 0))) [
      | inl e ↦ rw e (error_at tid e)
      | inr e ↦ elim (Bool-cases (ltb_ℤ len ret)) [
        | inl f ↦ rw (e, f) tt
        | inr f ↦ rw (e, f) (steady λ c (o, r, same, neg). ground arith)
      ]
    ]
