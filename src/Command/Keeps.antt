-- ===== src/Command/Keeps.antt =====
-- No command breaks the registry of handles.
use modbusd.Prelude.{Option, refl}
use modbusd.Prelude.Int.{ℤ}
use modbusd.Env.{Env}
use modbusd.Env.Laws.{HashLaws}
use modbusd.Daemon.{Ptr, ◌>>=◌}
use modbusd.Daemon.Moves.{Moves-Closed, Moves}
use modbusd.Handle.Registry.{Grows, Grows-Neutral, Grows-same}
use modbusd.Handle.Keeps.{set_connected-Grows, lazy_init_mbtcp_handle-Grows}
use modbusd.Command.Holds.{mbtcp_cmd_hanlder-Holds}
use modbusd.Command.{MbtcpFc, mbtcp_cmd_hanlder, mbtcp_set_response_timeout}

module _ (E : Env) where
  -- A handler that keeps the registry.
  abbrev pub FcGrows : MbtcpFc E → Type 0
  FcGrows fc = (p : Ptr) (req : Option E.Json) → Moves Grows (fc p req)

  pub mbtcp_cmd_hanlder-Grows :
      HashLaws E
      → (req : Option E.Json) (fc : MbtcpFc E) → FcGrows fc
      → Moves Grows (mbtcp_cmd_hanlder E req fc)
  mbtcp_cmd_hanlder-Grows laws req fc h =
      mbtcp_cmd_hanlder-Holds (Moves-Closed Grows-Neutral) (set_connected-Grows E)
        (lazy_init_mbtcp_handle-Grows E laws) req fc (λ p. h p req)

  pub mbtcp_set_response_timeout-Grows :
      (tid timeout : ℤ) → Moves Grows (mbtcp_set_response_timeout E tid timeout)
  unfolding mbtcp_set_response_timeout ◌>>=◌
  mbtcp_set_response_timeout-Grows tid timeout = record {
    at = λ s. Grows-same s _ refl refl refl refl;
  }
