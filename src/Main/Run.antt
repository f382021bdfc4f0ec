-- ===== src/Main/Run.antt =====
-- main.c, `main`: a whole run, from the configuration file to the saved configuration.
use modbusd.Prelude.{
  ℕ, ◌+◌, ◌^◌, ◌<◌, ◌≡◌, refl, ap, ◌∙◌, ◌⊎◌, inl, inr, Option, none, some, List, true, arith,
  CString, c_str, length, All, Option-cases,
}
use modbusd.Prelude.Int.{ℤ, to_unsigned}
use modbusd.Env.{Env, parsed}
use modbusd.Env.Laws.{HashLaws, ModbusLaws, JsonLaws}
use modbusd.Daemon.{Daemon, ok, initial, and_then, ◌>>=◌}
use modbusd.Json.Fields.{HasInt, HasText}
use modbusd.Handle.Registry.{IsRegistry}
use modbusd.Request.Total.{HasMemory}
use modbusd.Command.{uint32_mod}
use modbusd.Api.Implementation.{modbusd_c}
use modbusd.Main.{save_config, setup_zmq, config_name, serve, main}
use modbusd.Main.Config.{block, load_config_loads, save_config_writes, serve-config}
use modbusd.Main.Progress.{IsServable, serve_answers}
use modbusd.Main.Traffic.{Traffic}

-- The table is empty before `main`.
initial-IsRegistry : {E : Env} (hash : HashLaws E) (w : E.World) → IsRegistry (initial E w)
initial-IsRegistry hash w = record {
  registered = λ p h e. ground arith;
  present = λ k p e. ground (arith, hash.find-nil k);
  order = hash.order-nil;
}

module _ (E : Env) (fname : CString) (w : E.World) where
  -- A file that is there, whose size malloc can give, with the four settings.
  pub record IsConfig (j : E.Json) : Type 0 where
    pub content : List ℕ
    pub syslog : ℤ
    pub usec : ℤ
    pub sub : CString
    pub publ : CString
    pub there : E.read_file fname w ≡ some content
    pub short : length content + 1 < 2 ^ 63
    pub parses : E.cjson_parse (block fname (initial E w) content) ≡ parsed j
    pub has_syslog : HasInt E (some j) (c_str "syslog") syslog
    pub has_sub : HasText E (some j) (c_str "ipc_sub") sub
    pub has_pub : HasText E (some j) (c_str "ipc_pub") publ
    pub has_usec : HasInt E (some j) (c_str "mbtcp_connect_timeout") usec

  -- The end of a run: the configuration has been written to the file, or the file could not be opened.
  abbrev pub Saved : E.Json → E.World → Type 0
  Saved j v =
      (u : E.World) × ((E.write_file fname (E.cjson_print j) u ≡ some v)
        ⊎ ((E.write_file fname (E.cjson_print j) u ≡ none) × (u ≡ v)))

  pub save_returns :
      (j : E.Json) (s : Daemon E)
      → (t : Daemon E) × (save_config E fname (some j) s ≡ ok (tt, t))
        × (t ≡ record s { world = t.world })
        × Saved j t.world
  save_returns j s = elim (Option-cases (E.write_file fname (E.cjson_print j) s.world)) [
    | inl e ↦ (s, (save_config_writes fname s j s.world).1 e, refl, (s.world, inr (e, refl)))
    | inr (v, e) ↦
        (record s { world = v }, (save_config_writes fname s j v).0 e, refl, (s.world, inl e))
  ]

module _ {E : Env} (fname : CString) (w : E.World) (j : E.Json) (c : IsConfig E fname w j) where
  -- The state in which the loop starts.
  abbrev pub started : Daemon E
  started = record (initial E w) {
    enable_syslog = c.syslog;
    config_json = some j;
    ipc_sub = some c.sub;
    ipc_pub = some c.publ;
    tcp_conn_timeout_usec = to_unsigned uint32_mod c.usec;
    world =
        E.zsocket_bind_pub c.publ
          (E.zsocket_new_pub (E.zsocket_bind_sub c.sub (E.malloc (length c.content + 1) w).1)).1;
  }

  pub started-IsRegistry : HashLaws E → IsRegistry started
  started-IsRegistry hash =
      let r = initial-IsRegistry hash w in
      record { registered = r.registered; present = r.present; order = r.order }

  -- The program is the loop from that state, and the saving of the configuration.
  pub main-eq :
      HasMemory E
      → ((v : E.World) → (E.zsocket_new_pub v).0 ≡ true)
      → (received : List (Option (List CString)))
      → main (modbusd_c E) (some fname) received (initial E w)
        ≡ and_then
            (serve (modbusd_c E) true received started)
            (λ _ t. save_config E fname t.config_json t)
  unfolding main setup_zmq config_name ◌>>=◌
  main-eq memory socket received =
      let loaded =
        load_config_loads fname (initial E w) c.content c.there (memory _ w c.short) j c.syslog
          c.usec c.sub c.publ c.parses c.has_syslog c.has_sub c.has_pub c.has_usec in
      rw loaded (rw (socket _) refl)

module _ {E : Env} (hash : HashLaws E) (modbus : ModbusLaws E) (json : JsonLaws E)
    (memory : HasMemory E) (socket : (w : E.World) → (E.zsocket_new_pub w).0 ≡ true) where
  -- A run on a good configuration file and a sequence of receives that the daemon can serve, with
  -- memory that is never short and a publisher's socket that can be made: it returns, what it has
  -- published is the traffic of the messages, and what it writes to the file at the end, if the file
  -- can be opened, is the printed configuration that it read at the start.
  pub main_runs :
      (fname : CString) (w : E.World) (j : E.Json)
      → IsConfig E fname w j
      → (received : List (Option (List CString))) → All (IsServable E) received
      → (t : Daemon E) × (main (modbusd_c E) (some fname) received (initial E w) ≡ ok (tt, t))
        × Traffic E received t.sent
        × Saved E fname w j t.world
  main_runs fname w j c received servable =
      let start = started fname w j c in
      let (t, out, e, sent, traffic) =
        serve_answers hash modbus json memory received start (started-IsRegistry fname w j c hash)
          servable in
      let kept : t.config_json ≡ some j = rw e at (serve-config hash true received start) in
      let (u, saved, quiet, end) = save_returns E fname w j t in
      let all : u.sent ≡ out = ap (λ (x : Daemon E). x.sent) quiet ∙ sent in
      (u, main-eq fname w j c memory socket received ∙ rw e (rw kept saved), rw all traffic, end)
