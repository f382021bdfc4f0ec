-- ===== src/Main/Abstract/Commands.antt =====
-- main.c: the commands, and what a command does to the abstract daemon.
use modbusd.Prelude.{
  ◌≡◌, ◌≢◌, ◌⊎◌, inl, inr, Option, List, [], ◌∷◌, All, CString, c_str, str_eq, str_eq-eq, str_eq-ne,
  Bool-cases,
}
use modbusd.Prelude.Int.{ℤ, IsInt32}
use modbusd.Env.{Env}
use modbusd.Env.Laws.{HashLaws, JsonLaws}
use modbusd.Key.Layout.{IsField}
use modbusd.Daemon.{Daemon, ◌>>=◌}
use modbusd.Daemon.Moves.{Moves-Closed}
use modbusd.Daemon.Exec.{Returned, Returned-mono, Returned-both}
use modbusd.Json.Fields.{HasInt, HasText, json_get_int-HasInt}
use modbusd.Response.Readback.{Answers}
use modbusd.Handle.Registry.{IsRegistry, Grows}
use modbusd.Handle.Pool.{pool}
use modbusd.Handle.Endpoint.{IsPlain, Endpoint-cases}
use modbusd.Command.{mbtcp_cmd_hanlder}
use modbusd.Command.Settings.{
  Steady, Steady-Neutral, set_connected-Steady, mbtcp_cmd_hanlder-Steady,
}
use modbusd.Api.{Function, fc1, fc2, fc3, fc4, fc5, fc6, fc15, fc16, name, handler}
use modbusd.Api.Implementation.{
  modbusd_c, modbusd_c-Replies, modbusd_c-KeepsRegistry, handler-Holds,
}
use modbusd.Api.Isolation.Touches.{Touches, command-Touches}

-- A command by its name: one of these functions', or none of theirs.
Name-cases :
    (cmd : CString) (fs : List Function)
    → ((f : Function) × (cmd ≡ name f)) ⊎ All (λ f. cmd ≢ name f) fs
Name-cases cmd [] = inr tt
Name-cases cmd (f ∷ fs) = elim (Bool-cases (str_eq cmd (name f))) [
  | inl e ↦ inl (f, str_eq-eq cmd (name f) e)
  | inr e ↦ elim (Name-cases cmd fs) [
    | inl found ↦ inl found
    | inr none_of ↦ inr (str_eq-ne cmd (name f) e, none_of)
  ]
]

abbrev functions : List Function
functions = fc1 ∷ fc2 ∷ fc3 ∷ fc4 ∷ fc5 ∷ fc6 ∷ fc15 ∷ fc16 ∷ []

every : (P : Function → Type 0) → All P functions → (f : Function) → P f
every P (a, (b, (c, (d, (e, (f, (g, (h, _)))))))) fc1 = a
every P (a, (b, (c, (d, (e, (f, (g, (h, _)))))))) fc2 = b
every P (a, (b, (c, (d, (e, (f, (g, (h, _)))))))) fc3 = c
every P (a, (b, (c, (d, (e, (f, (g, (h, _)))))))) fc4 = d
every P (a, (b, (c, (d, (e, (f, (g, (h, _)))))))) fc5 = e
every P (a, (b, (c, (d, (e, (f, (g, (h, _)))))))) fc6 = f
every P (a, (b, (c, (d, (e, (f, (g, (h, _)))))))) fc15 = g
every P (a, (b, (c, (d, (e, (f, (g, (h, _)))))))) fc16 = h

-- The commands that main.c tells apart.
pub Command-cases :
    (cmd : CString)
    → ((f : Function) × (cmd ≡ name f))
      ⊎ ((cmd ≡ c_str "timeout") ⊎ (((f : Function) → cmd ≢ name f) × (cmd ≢ c_str "timeout")))
Command-cases cmd = elim (Name-cases cmd functions) [
  | inl found ↦ inl found
  | inr none_of ↦ elim (Bool-cases (str_eq cmd (c_str "timeout"))) [
    | inl e ↦ inr (inl (str_eq-eq cmd _ e))
    | inr e ↦ inr (inr (every (λ f. cmd ≢ name f) none_of, str_eq-ne cmd _ e))
  ]
]

module _ {E : Env} (hash : HashLaws E) (json : JsonLaws E) (req : Option E.Json) (tid : ℤ)
    (small : IsInt32 tid) (has_tid : HasInt E req (c_str "tid") tid) (plain : IsPlain E req)
    (f : Function) (s : Daemon E) (registry : IsRegistry s) where
  -- What a command does to the abstract state, with the endpoint that it names.
  abbrev pub Requested : CString → Daemon E → Type 0
  Requested reply t =
      (ip port : CString) × HasText E req (c_str "ip") ip
      × HasText E req (c_str "port") port
      × IsField ip
      × IsField port
      × Touches E tid ip port (pool s) (pool t) reply
      × Answers E tid reply
      × (t.tcp_conn_timeout_usec ≡ s.tcp_conn_timeout_usec)
      × (t.sent ≡ s.sent)

  pub command-Requested : Returned Requested (mbtcp_cmd_hanlder E req (handler (modbusd_c E) f) s)
  unfolding mbtcp_cmd_hanlder ◌>>=◌
  command-Requested = elim (Endpoint-cases {E = E} req plain) [
    | inl (e, stops) ↦ rw (json_get_int-HasInt E req (c_str "tid") tid has_tid s, stops s) tt
    | inr (ip, port, has_ip, has_port, ip_fits, port_fits) ↦
        let api = modbusd_c-Replies json in
        let keeps = modbusd_c-KeepsRegistry hash in
        let fc = handler (modbusd_c E) f in
        let run = mbtcp_cmd_hanlder E req fc s in
        let touches =
          command-Touches hash req tid ip port has_tid has_ip has_port ip_fits port_fits f s
            registry in
        let gives =
          (api.cmd_gives tid small req has_tid fc (api.handler_gives f tid small req has_tid)).at
            s in
        let grows = (keeps.cmd_grows req fc (keeps.handler_grows f)).at s in
        let steady =
          (mbtcp_cmd_hanlder-Steady req fc (λ p.
              handler-Holds (Moves-Closed Steady-Neutral) p (set_connected-Steady p) f req)).at
            s in
        Returned-mono
          (λ reply t.
            Touches E tid ip port (pool s) (pool t) reply
            × (Answers E tid reply × (Grows s t × Steady s t)))
          Requested run
          (λ reply t (touched, (answers, (g, st))).
            (ip, port, has_ip, has_port, ip_fits, port_fits, touched, answers, st.timeout, g.quiet))
          (Returned-both (λ reply t. Touches E tid ip port (pool s) (pool t) reply)
            (λ reply t. Answers E tid reply × (Grows s t × Steady s t)) run touches
            (Returned-both (λ reply _. Answers E tid reply) (λ _ t. Grows s t × Steady s t) run
              gives (Returned-both (λ _ t. Grows s t) (λ _ t. Steady s t) run grows steady)))
  ]
