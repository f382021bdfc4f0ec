-- ===== src/Main/Abstract/Loop.antt =====
-- main.c: what the loop inherits from the abstract daemon.
use modbusd.Prelude.{◌≡◌, Option, List, true, CString, All}
use modbusd.Env.{Env}
use modbusd.Env.Laws.{HashLaws, JsonLaws}
use modbusd.Key.Layout.{IsField}
use modbusd.Daemon.{Daemon}
use modbusd.Daemon.Exec.{Returned, Returned-mono}
use modbusd.Handle.Registry.{IsRegistry}
use modbusd.Handle.Pool.{pool}
use modbusd.Api.Implementation.{modbusd_c}
use modbusd.Main.{serve}
use modbusd.Main.Abstract.{Run, view}
use modbusd.Main.Abstract.Runs.{Names, last_timeout, Run-spares, Run-timeout}
use modbusd.Main.Abstract.Refines.{IsPlainMessage, serve-Run}

module _ {E : Env} (hash : HashLaws E) (json : JsonLaws E) (received : List (Option (List CString)))
    (s : Daemon E) (plain : All (IsPlainMessage E) received) (registry : IsRegistry s) where
  -- From a state with a sound registry, for every sequence of messages whose addresses and ports are
  -- C strings and that the loop gets through: an endpoint that a key can hold and that none of the
  -- messages names is afterwards as it was before, whether open, whether connected, and on which
  -- libmodbus context.
  pub serve_spares :
      (ip port : CString)
      → IsField ip
      → IsField port
      → All (λ m. ¬ Names E ip port m) received
      → Returned (λ _ t. pool t ip port ≡ pool s ip port) (serve (modbusd_c E) true received s)
  serve_spares ip port f g spared =
      Returned-mono (λ _ t. Run E received (view E s) (view E t)) _
        (serve (modbusd_c E) true received s)
        (λ _ t run. Run-spares ip port f g received (view E s) (view E t) run spared)
        (serve-Run hash json received s plain registry)

  -- From a state with a sound registry, for every sequence of messages whose addresses and ports are
  -- C strings and that the loop gets through: the timeout for new handles is afterwards the number of
  -- the last message of the mode tcp with the command "timeout", modulo 2^32, or the one before if
  -- there is none. No other message changes it.
  pub serve_timeout :
      Returned
        (λ _ t. t.tcp_conn_timeout_usec ≡ last_timeout E s.tcp_conn_timeout_usec received)
        (serve (modbusd_c E) true received s)
  serve_timeout =
      Returned-mono (λ _ t. Run E received (view E s) (view E t)) _
        (serve (modbusd_c E) true received s)
        (λ _ t run. Run-timeout received (view E s) (view E t) run)
        (serve-Run hash json received s plain registry)
