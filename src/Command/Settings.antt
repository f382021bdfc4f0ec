-- ===== src/Command/Settings.antt =====
-- Relations between states about the settings: the timeout for new handles.
use modbusd.Prelude.{◌≡◌, refl, ◌∙◌, Option, none, some, Bool, get_elem?, inl, inr, Option-cases}
use modbusd.Env.{Env}
use modbusd.Key.{Key}
use modbusd.Daemon.{Daemon, Ptr, load, set_connected, ◌>>=◌}
use modbusd.Daemon.Moves.{Moves-Closed, Neutral, Moves}
use modbusd.Handle.{with_handle, add_handle}
use modbusd.Handle.Holds.{lazy_init_mbtcp_handle-Holds}
use modbusd.Command.{MbtcpFc, mbtcp_cmd_hanlder}
use modbusd.Command.Holds.{mbtcp_cmd_hanlder-Holds}

module _ {E : Env} where
  -- The timeout for new handles is the same.
  pub record Steady (s t : Daemon E) : Type 0 where
    pub timeout : t.tcp_conn_timeout_usec ≡ s.tcp_conn_timeout_usec

  pub Steady-Neutral : Neutral Steady
  Steady-Neutral = record {
    order = record {
      reflexive = λ s. record { timeout = refl };
      transitive = λ s t u a b. record { timeout = b.timeout ∙ a.timeout };
    };
    world = λ s w. record { timeout = refl };
  }

  pub set_connected-Steady : (p : Ptr) (b : Bool) → Moves Steady (set_connected E p b)
  unfolding set_connected ◌>>=◌
  set_connected-Steady none b = record { at = λ s. tt }
  set_connected-Steady (some p) b = record {
    at = λ s. elim (Option-cases (get_elem? s.handles p)) [
      | inl e ↦ rw (e, load) tt
      | inr (h, e) ↦ rw (e, load) (record { timeout = refl })
    ];
  }

  pub add_handle-Steady : (key : Key) (ctx : E.Ctx) → Moves Steady (add_handle E key ctx)
  unfolding add_handle with_handle ◌>>=◌
  add_handle-Steady key ctx = record { at = λ s. record { timeout = refl } }

  pub mbtcp_cmd_hanlder-Steady :
      (req : Option E.Json) (fc : MbtcpFc E)
      → ((p : Ptr) → Moves Steady (fc p req))
      → Moves Steady (mbtcp_cmd_hanlder E req fc)
  mbtcp_cmd_hanlder-Steady =
      mbtcp_cmd_hanlder-Holds (Moves-Closed Steady-Neutral) set_connected-Steady (
        lazy_init_mbtcp_handle-Holds (Moves-Closed Steady-Neutral) set_connected-Steady
          (λ key _. add_handle-Steady key))
