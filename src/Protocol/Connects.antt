-- ===== src/Protocol/Connects.antt =====
-- modbusd.c, the functions of the connections: they open and connect contexts by the protocol.
use modbusd.Prelude.{
  ℕ, set, ◌≡◌, ◌≢◌, refl, sym, subst, Option, some, List, ◌∷◌, true, false, arith, CString,
  get_elem?, get_elem?-lt, get_elem?-set_self, inl, inr, Bool-cases,
}
use modbusd.Prelude.Int.{negsuc, eqb_ℤ, eqb_ℤ_iff}
use modbusd.Env.{Env}
use modbusd.Env.Ledger.{Call, connects, Ledger}
use modbusd.Daemon.{Daemon, Handle, Ptr}
use modbusd.Daemon.Exec.{Returned}
use modbusd.Daemon.Closed.{Plain}
use modbusd.Daemon.Between.{Between, Between-Plain}
use modbusd.Handle.{mbtcp_do_connect}
use modbusd.Handle.Connect.{mbtcp_do_connect-at}
use modbusd.Protocol.{Up-other, Protocol, tried, Backed, IsSound}
use modbusd.Protocol.Handles.{Backed-after, Backed-flag}

module _ {E : Env} (ledger : Ledger E) where
  -- A change of the libraries' state that makes no call.
  pub IsSound-world :
      (s : Daemon E) (w : E.World)
      → ledger.calls w ≡ ledger.calls s.world
      → IsSound ledger s
      → IsSound ledger (record s { world = w })
  IsSound-world s w e i = record {
    protocol = subst Protocol (sym e) i.protocol;
    backed = subst (Backed s.handles) (sym e) i.backed;
  }

  pub IsSound-Plain : Plain (Between (IsSound ledger) (IsSound ledger))
  IsSound-Plain = Between-Plain λ n s i. IsSound-world s _ (ledger.of_malloc n s.world) i

  -- The pointer is one to a handle whose flag is set.
  abbrev pub IsConnected : Ptr → Daemon E → Type 0
  IsConnected p t =
      (q : ℕ) × (h : Handle E) × (p ≡ some q)
      × (get_elem? t.handles q ≡ some h)
      × (h.connected ≡ true)

  module _ (s : Daemon E) (sound : IsSound ledger s) (p : ℕ) (h : Handle E)
      (at : get_elem? s.handles p ≡ some h) (down : h.connected ≡ false) where
    abbrev attempt : Call E.Ctx
    attempt = connects h.ctx (E.modbus_connect h.ctx s.world).0

    abbrev after : List (Call E.Ctx)
    after = attempt ∷ ledger.calls s.world

    tried_once : Protocol after
    tried_once =
        tried h.ctx _ (sound.backed.known p h at) (sound.backed.flag_down p h at down)
          sound.protocol

    refused :
        (E.modbus_connect h.ctx s.world).0 ≡ negsuc 0
        → IsSound ledger (record s { world = (E.modbus_connect h.ctx s.world).1 })
    refused e =
        let log = ledger.of_connect h.ctx s.world in
        record {
          protocol = subst Protocol (sym log) tried_once;
          backed = subst (Backed s.handles) (sym log) (
              Backed-after sound.backed after (λ c there. inr there)
                λ c.
                  Up-other c attempt (ledger.calls s.world) (λ (r, ne, i). ground arith)
                    (λ (op, r, i, _). ground arith));
        }

    accepted :
        (E.modbus_connect h.ctx s.world).0 ≢ negsuc 0
        → IsSound ledger (record s {
          handles = set s.handles p (record h { connected = true });
          world = (E.modbus_connect h.ctx s.world).1;
        })
    accepted ne =
        let log = ledger.of_connect h.ctx s.world in
        record {
          protocol = subst Protocol (sym log) tried_once;
          backed = subst (Backed (set s.handles p (record h { connected = true }))) (sym log) (
              Backed-flag sound.backed p h at true after (λ c there. inr there)
                (λ c other.
                  Up-other c attempt (ledger.calls s.world) (λ (r, _, i). ground arith)
                    (λ (op, r, i, _). ground arith))
                (λ _. inl (_, ne, refl)) (λ e. ground arith));
        }

    -- On a handle that is not connected, an attempt to connect it.
    pub mbtcp_do_connect-IsSound :
        (reason : Option CString)
        → Returned
            (λ r t. IsSound ledger t × (r.0 ≡ true → IsConnected (some p) t))
            (mbtcp_do_connect E (some p) reason s)
    mbtcp_do_connect-IsSound reason =
        elim (Bool-cases (eqb_ℤ (E.modbus_connect h.ctx s.world).0 (negsuc 0))) [
          | inl e ↦
              let failed = (eqb_ℤ_iff _ (negsuc 0)).0 e in
              rw ((mbtcp_do_connect-at s p h at reason).0 failed)
                (refused failed, λ f. ground arith)
          | inr e ↦
              let ne : (E.modbus_connect h.ctx s.world).0 ≢ negsuc 0 =
                λ i. ground (arith, eqb_ℤ_iff (E.modbus_connect h.ctx s.world).0 (negsuc 0)) in
              rw ((mbtcp_do_connect-at s p h at reason).1 ne) (
                accepted ne,
                λ _. (
                  p,
                  record h { connected = true },
                  refl,
                  get_elem?-set_self s.handles p _ (get_elem?-lt s.handles p at),
                  refl,
                ),
              )
        ]
