-- ===== src/Main/Abstract/Whole.antt =====
-- main.c, `main`: a whole run refines a run of the abstract daemon.
use modbusd.Prelude.{ℕ, ◌≡◌, ap, ◌∙◌, Option, none, some, List, [], true, All, CString}
use modbusd.Prelude.Int.{to_unsigned}
use modbusd.Env.{Env}
use modbusd.Env.Laws.{HashLaws, ModbusLaws, JsonLaws}
use modbusd.Key.{key_bytes}
use modbusd.Key.Layout.{endpoint_key}
use modbusd.Daemon.{Daemon, ok, initial}
use modbusd.Handle.Pool.{pool, status_at}
use modbusd.Request.Total.{HasMemory}
use modbusd.Command.{uint32_mod}
use modbusd.Api.Implementation.{modbusd_c}
use modbusd.Main.{main}
use modbusd.Main.Config.{serve-config}
use modbusd.Main.Progress.{IsServable, serve_answers}
use modbusd.Main.Run.{IsConfig, started, started-IsRegistry, main-eq, save_returns}
use modbusd.Main.Abstract.{View, view, Run}
use modbusd.Main.Abstract.Refines.{IsPlainMessage, serve-Run}

-- The abstract daemon when it starts: no endpoint is open and nothing is published.
abbrev pub opening : (E : Env) → ℕ → View E
opening E timeout = record { endpoints = λ ip port. none; timeout = timeout; published = [] }

started-opening :
    {E : Env} (hash : HashLaws E) (fname : CString) (w : E.World) (j : E.Json)
    (c : IsConfig E fname w j)
    → view E (started fname w j c) ≡ opening E (to_unsigned uint32_mod c.usec)
unfolding pool
started-opening {E} hash fname w j c =
    ap (λ f. record { endpoints = f; timeout = to_unsigned uint32_mod c.usec; published = [] })
      (λ i ip port. ap (status_at {E = E} []) (hash.find-nil (key_bytes (endpoint_key ip port))) i)

module _ {E : Env} (hash : HashLaws E) (modbus : ModbusLaws E) (json : JsonLaws E)
    (memory : HasMemory E) (socket : (w : E.World) → (E.zsocket_new_pub w).0 ≡ true) where
  -- A run on a good configuration file and a sequence of receives that the daemon can serve and whose
  -- addresses and ports are C strings, with memory that is never short and a publisher's socket that
  -- can be made: it returns, and it refines a run of the abstract daemon, from no open endpoint, the
  -- timeout of the configuration modulo 2^32, and nothing published.
  pub main-Run :
      (fname : CString) (w : E.World) (j : E.Json) (c : IsConfig E fname w j)
      (received : List (Option (List CString)))
      → All (IsServable E) received
      → All (IsPlainMessage E) received
      → (t : Daemon E) × (main (modbusd_c E) (some fname) received (initial E w) ≡ ok (tt, t))
        × Run E received (opening E (to_unsigned uint32_mod c.usec)) (view E t)
  unfolding pool
  main-Run fname w j c received servable plain =
      let start = started fname w j c in
      let registry = started-IsRegistry fname w j c hash in
      let (t, out, e, sent, traffic) =
        serve_answers hash modbus json memory received start registry servable in
      let kept : t.config_json ≡ some j = rw e at (serve-config hash true received start) in
      let run : Run E received (view E start) (view E t) =
        rw e at (serve-Run hash json received start plain registry) in
      let (u, saved, same, end) = save_returns E fname w j t in
      (
        u,
        main-eq fname w j c memory socket received ∙ rw e (rw kept saved),
        rw (same, ← started-opening hash fname w j c) run,
      )
