-- ===== src/Protocol/Run.antt =====
-- main.c: whatever messages arrive, the daemon's calls of libmodbus keep to its protocol.
use modbusd.Prelude.{
  ◌≡◌, refl, sym, subst, Option, none, some, List, [], Bool, true, false, CString, arith, inl, inr,
  Option-cases,
}
use modbusd.Prelude.Int.{ℤ}
use modbusd.Env.{Env}
use modbusd.Env.Ledger.{Ledger}
use modbusd.Daemon.{Daemon, initial, ◌>>=◌}
use modbusd.Daemon.Exec.{Returned, Returned-mono}
use modbusd.Daemon.Closed.{Holds}
use modbusd.Daemon.Between.{Between, made}
use modbusd.Json.{json_to_file}
use modbusd.Command.{mbtcp_set_response_timeout}
use modbusd.Api.Implementation.{modbusd_c}
use modbusd.Main.{send_modbus_zmq_resp, serve, main}
use modbusd.Main.Holds.{tcp_response-Holds, serve-Holds}
use modbusd.Main.Entry.{Starts, main-Holds}
use modbusd.Protocol.{Protocol, idle, IsSound}
use modbusd.Protocol.Connects.{IsSound-world, IsSound-Plain}
use modbusd.Protocol.Commands.{command-IsSound}

module _ {E : Env} (ledger : Ledger E) where
  -- An assignment to a variable that is no handle.
  assigned :
      (s t : Daemon E)
      → t.world ≡ s.world
      → t.handles ≡ s.handles
      → IsSound ledger s
      → IsSound ledger t
  assigned s t e f i = record { protocol = rw e i.protocol; backed = rw (e, f) i.backed }

  send-IsSound :
      (publisher : Bool) (mode resp : CString)
      → Holds
          (Between (IsSound ledger) (IsSound ledger))
          (send_modbus_zmq_resp E publisher mode resp)
  unfolding send_modbus_zmq_resp ◌>>=◌
  send-IsSound true mode resp = made λ s i. assigned s _ refl refl i
  send-IsSound false mode resp = made λ s i. i

  timeout-IsSound :
      (tid timeout : ℤ)
      → Holds (Between (IsSound ledger) (IsSound ledger)) (mbtcp_set_response_timeout E tid timeout)
  unfolding mbtcp_set_response_timeout ◌>>=◌
  timeout-IsSound tid timeout = made λ s i. assigned s _ refl refl i

  serve_keeps :
      (received : List (Option (List CString))) (publisher : Bool)
      → Holds (Between (IsSound ledger) (IsSound ledger)) (serve (modbusd_c E) publisher received)
  serve_keeps received publisher =
      serve-Holds (IsSound-Plain ledger) (modbusd_c E) send-IsSound
        (tcp_response-Holds (IsSound-Plain ledger) (modbusd_c E) (command-IsSound ledger)
          timeout-IsSound)
        publisher received

  write_at :
      (fname : CString) (j : Option E.Json) (s : Daemon E)
      → IsSound ledger s
      → Returned (λ _ t. IsSound ledger t) (json_to_file E fname j s)
  unfolding json_to_file
  write_at fname none s i = elim (Option-cases (E.write_file fname [] s.world)) [
    | inl e ↦ rw (e, json_to_file) i
    | inr (w, e) ↦ rw (e, json_to_file) tt
  ]
  write_at fname (some j) s i = elim (Option-cases (E.write_file fname (E.cjson_print j) s.world)) [
    | inl e ↦ rw (e, json_to_file) i
    | inr (w, e) ↦
        rw (e, json_to_file) (IsSound-world ledger s w (ledger.of_write_file fname _ s.world w e) i)
  ]

  IsSound-Starts : Starts (Between (IsSound ledger) (IsSound ledger))
  unfolding ◌>>=◌
  IsSound-Starts = record {
    plain = IsSound-Plain ledger;
    reads = λ f. made (λ s i. i);
    config = λ x. made (λ s i. assigned s _ refl refl i);
    syslog = λ x. made (λ s i. assigned s _ refl refl i);
    sub = λ x. made (λ s i. assigned s _ refl refl i);
    publ = λ x. made (λ s i. assigned s _ refl refl i);
    timeout = λ n. made (λ s i. assigned s _ refl refl i);
    bind_sub = λ name. made (λ s i. IsSound-world ledger s _ (ledger.of_bind_sub name s.world) i);
    new_pub = made (λ s i. IsSound-world ledger s _ (ledger.of_new_pub s.world) i);
    bind_pub = λ name. made (λ s i. IsSound-world ledger s _ (ledger.of_bind_pub name s.world) i);
    write = λ fname j. made (write_at fname j);
  }

  -- From a state in which the calls so far keep to libmodbus's protocol and the handles agree with
  -- them, for every sequence of messages, well formed or not, that the loop gets through: so it is
  -- afterwards. In particular the flag of every handle still says whether its context is connected.
  pub serve-IsSound :
      (publisher : Bool) (received : List (Option (List CString))) (s : Daemon E)
      → IsSound ledger s
      → Returned (λ _ t. IsSound ledger t) (serve (modbusd_c E) publisher received s)
  serve-IsSound publisher received s = (serve_keeps received publisher).at.run s

  -- For every argument and every sequence of receives, well formed or not, from libraries that have
  -- seen no call: if the program returns, its calls of libmodbus have kept to the protocol. Each
  -- context gets its timeout when it is opened, is connected only when it is not, and gets a request
  -- only when it is connected, directly after the slave was set on it.
  pub main-Protocol :
      (argument : Option CString) (received : List (Option (List CString))) (w : E.World)
      → ledger.calls w ≡ []
      → Returned
          (λ _ t. Protocol (ledger.calls t.world))
          (main (modbusd_c E) argument received (initial E w))
  main-Protocol argument received w none_yet =
      let at_first : IsSound ledger (initial E w) = record {
        protocol = subst Protocol (sym none_yet) idle;
        backed = record {
          known = λ p h e. ground arith;
          own = λ p q h g e f i. ground arith;
          flag_up = λ p h e on. ground arith;
          flag_down = λ p h e off. ground arith;
        };
      } in
      Returned-mono (λ _ t. IsSound ledger t) _ (main (modbusd_c E) argument received (initial E w))
        (λ _ t i. i.protocol)
        ((main-Holds IsSound-Starts (modbusd_c E) received (serve_keeps received) argument).at.run
          (initial E w) at_first)
