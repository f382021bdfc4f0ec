-- ===== src/Main/Keeps.antt =====
-- Whatever messages arrive, the registry of handles is sound and only grows.
use modbusd.Prelude.{Option, ◌≡◌, refl, ◌∙◌, List, Bool, true, false, CString}
use modbusd.Prelude.Int.{ℤ}
use modbusd.Env.{Env}
use modbusd.Env.Laws.{HashLaws}
use modbusd.Daemon.{Daemon, M, ◌>>=◌}
use modbusd.Daemon.Moves.{Moves-Closed, Moves, Neutral}
use modbusd.Daemon.Exec.{Returned, Returned-mono}
use modbusd.Handle.Registry.{Grows, Grows-Neutral, Grows-refl, Grows-world, IsRegistry, Stays}
use modbusd.Handle.Pool.{pool, Evolves, pool-Evolves}
use modbusd.Api.{Modbusd, handler}
use modbusd.Api.Contract.{KeepsRegistry}
use modbusd.Api.Implementation.{modbusd_c, modbusd_c-KeepsRegistry}
use modbusd.Main.Holds.{tcp_response-Holds, handle_message-Holds, serve-Holds}
use modbusd.Main.{send_modbus_zmq_resp, tcp_response, handle_message, serve}

module _ {E : Env} where
  -- What a message may do to the daemon: the registry stays sound, handles stay, and the
  -- configuration is the same. It may publish.
  pub record Serves (s t : Daemon E) : Type 0 where
    pub registry : IsRegistry s → IsRegistry t
    pub stays : Stays s t
    pub config : t.config_json ≡ s.config_json

  Serves-of_Grows : (s t : Daemon E) → Grows s t → Serves s t
  Serves-of_Grows s t g = record { registry = g.registry; stays = g.stays; config = g.config }

  Serves-trans : (s t u : Daemon E) → Serves s t → Serves t u → Serves s u
  Serves-trans s t u v w = record {
    registry = λ r. w.registry (v.registry r);
    stays = λ p h e.
        let (h', e', k, c) = v.stays p h e in
        let (h'', e'', k', c') = w.stays p h' e' in (h'', e'', k' ∙ k, c' ∙ c);
    config = w.config ∙ v.config;
  }

  Serves-Neutral : Neutral Serves
  Serves-Neutral = record {
    order = record {
      reflexive = λ s. Serves-of_Grows s s (Grows-refl s);
      transitive = Serves-trans;
    };
    world = λ s w. Serves-of_Grows s _ (Grows-world s w);
  }

  Moves-of_Grows : {A : Type 0} (m : M E A) → Moves Grows m → Moves Serves m
  Moves-of_Grows m h = record {
    at = λ s. Returned-mono (λ _ t. Grows s t) _ (m s) (λ _ t g. Serves-of_Grows s t g) (h.at s);
  }

module _ (E : Env) where
  send-Serves :
      (publisher : Bool) (mode resp : CString)
      → Moves Serves (send_modbus_zmq_resp E publisher mode resp)
  unfolding send_modbus_zmq_resp ◌>>=◌
  send-Serves true mode resp = record {
    at = λ s. record {
      registry = λ r. record { registered = r.registered; present = r.present; order = r.order };
      stays = λ p h e. (h, e, refl, refl);
      config = refl;
    };
  }
  send-Serves false mode resp = record { at = Serves-Neutral.order.reflexive }

module _ {E : Env} (api : Modbusd E) (keeps : KeepsRegistry api) where
  pub tcp_response-Grows :
      (tid : ℤ) (req : Option E.Json) (cmd : CString) → Moves Grows (tcp_response api tid req cmd)
  tcp_response-Grows =
      tcp_response-Holds (Moves-Closed Grows-Neutral).plain api
        (λ f req. keeps.cmd_grows req (handler api f) (keeps.handler_grows f)) keeps.timeout_grows

  responds :
      (tid : ℤ) (req : Option E.Json) (cmd : CString) → Moves Serves (tcp_response api tid req cmd)
  responds tid req cmd = Moves-of_Grows _ (tcp_response-Grows tid req cmd)

  pub handle_message-Serves :
      (publisher : Bool) (frames : List CString)
      → Moves Serves (handle_message api publisher frames)
  handle_message-Serves =
      handle_message-Holds (Moves-Closed Serves-Neutral).plain api (send-Serves E) responds

  pub serve-Serves :
      (publisher : Bool) (received : List (Option (List CString)))
      → Moves Serves (serve api publisher received)
  serve-Serves = serve-Holds (Moves-Closed Serves-Neutral).plain api (send-Serves E) responds

module _ {E : Env} (laws : HashLaws E) where
  -- For every sequence of messages, well formed or not, that the loop gets through: if the table
  -- found each handle under its key and nothing else before, it does so afterwards.
  pub serve-IsRegistry :
      (publisher : Bool) (received : List (Option (List CString))) (s : Daemon E)
      → IsRegistry s
      → Returned (λ _ t. IsRegistry t) (serve (modbusd_c E) publisher received s)
  serve-IsRegistry publisher received s r =
      Returned-mono (λ _ t. Serves s t) _ _ (λ _ t g. g.registry r)
        ((serve-Serves (modbusd_c E) (modbusd_c-KeepsRegistry laws) publisher received).at s)

  -- For every sequence of messages that the loop gets through: each handle that was there keeps its
  -- address, its key and its libmodbus context.
  pub serve-Stays :
      (publisher : Bool) (received : List (Option (List CString))) (s : Daemon E)
      → Returned (λ _ t. Stays s t) (serve (modbusd_c E) publisher received s)
  serve-Stays publisher received s =
      Returned-mono (λ _ t. Serves s t) _ _ (λ _ t g. g.stays)
        ((serve-Serves (modbusd_c E) (modbusd_c-KeepsRegistry laws) publisher received).at s)

  -- For every sequence of messages that the loop gets through, from a state with a sound registry:
  -- each endpoint that was open is open afterwards, on the same libmodbus context.
  pub serve-Evolves :
      (publisher : Bool) (received : List (Option (List CString))) (s : Daemon E)
      → IsRegistry s
      → Returned (λ _ t. Evolves (pool s) (pool t)) (serve (modbusd_c E) publisher received s)
  serve-Evolves publisher received s r =
      Returned-mono (λ _ t. Serves s t) _ _ (λ _ t g. pool-Evolves s t r (g.registry r) g.stays)
        ((serve-Serves (modbusd_c E) (modbusd_c-KeepsRegistry laws) publisher received).at s)
