-- ===== src/Main/Restart.antt =====
-- main.c: a run that saves its configuration, and the next run, which loads it again.
use modbusd.Prelude.{◌+◌, ◌≡◌, refl, inl, inr, Option, some, List, true, CString, length, All}
use modbusd.Prelude.Int.{to_unsigned}
use modbusd.Env.{Env}
use modbusd.Env.Laws.{HashLaws, ModbusLaws, JsonLaws}
use modbusd.Daemon.{Daemon, ok, initial}
use modbusd.Json.Header.{FileLaws, IsPrintable}
use modbusd.Request.Total.{HasMemory}
use modbusd.Command.{uint32_mod}
use modbusd.Api.Implementation.{modbusd_c}
use modbusd.Main.{load_config, main}
use modbusd.Main.Config.{load_config_loads}
use modbusd.Main.Progress.{IsServable}
use modbusd.Main.Traffic.{Traffic}
use modbusd.Main.Run.{IsConfig, Saved, main_runs}

module _ (E : Env) where
  -- What a fresh process loads is the same from both worlds: the configuration and all settings.
  abbrev pub LoadsSame : CString → E.World → E.World → Type 0
  LoadsSame fname w w' =
      (s t : Daemon E) × (load_config E fname (initial E w) ≡ ok (tt, s))
      × (load_config E fname (initial E w') ≡ ok (tt, t))
      × (t ≡ record s { world = t.world })

module _ {E : Env} (files : FileLaws E) (fname : CString) (w : E.World) (j : E.Json)
    (c : IsConfig E fname w j) (p : IsPrintable E fname j) where
  Saved-text : (v : E.World) → Saved E fname w j v → E.read_file fname v ≡ some (E.cjson_print j)
  Saved-text v (u, inr (e, same)) = absurd (p.opens u e)
  Saved-text v (u, inl e) = files.read_written fname (E.cjson_print j) u v e

  -- After the saving, the file is a configuration file for the same object.
  abbrev saved_config : (v : E.World) → Saved E fname w j v → IsConfig E fname v j
  saved_config v saved = record {
    content = E.cjson_print j;
    syslog = c.syslog;
    usec = c.usec;
    sub = c.sub;
    publ = c.publ;
    there = Saved-text v saved;
    short = p.short;
    parses = p.parses_back _;
    has_syslog = c.has_syslog;
    has_sub = c.has_sub;
    has_pub = c.has_pub;
    has_usec = c.has_usec;
  }

module _ {E : Env} (memory : HasMemory E) (fname : CString) where
  -- What a configuration file loads to.
  loads :
      (w : E.World) (j : E.Json) (c : IsConfig E fname w j)
      → load_config E fname (initial E w)
        ≡ ok (
          tt,
          record (initial E w) {
            enable_syslog = c.syslog;
            config_json = some j;
            ipc_sub = some c.sub;
            ipc_pub = some c.publ;
            tcp_conn_timeout_usec = to_unsigned uint32_mod c.usec;
            world = (E.malloc (length c.content + 1) w).1;
          },
        )
  loads w j c =
      load_config_loads fname (initial E w) c.content c.there (memory _ w c.short) j c.syslog c.usec
        c.sub c.publ c.parses c.has_syslog c.has_sub c.has_pub c.has_usec

module _ {E : Env} (hash : HashLaws E) (modbus : ModbusLaws E) (json : JsonLaws E)
    (memory : HasMemory E) (socket : (w : E.World) → (E.zsocket_new_pub w).0 ≡ true)
    (files : FileLaws E) where
  -- A run on a good configuration file that can be written, with a configuration that cJSON reads
  -- back, is followed by another one: both serve their messages and return, each publishes the
  -- traffic of its own messages alone, and the configuration and the settings that are loaded from
  -- the saved file are those that were loaded before.
  pub main_restarts :
      (fname : CString) (w : E.World) (j : E.Json)
      → IsConfig E fname w j
      → IsPrintable E fname j
      → (received again : List (Option (List CString))) → All (IsServable E) received
      → All (IsServable E) again
      → (t u : Daemon E) × (main (modbusd_c E) (some fname) received (initial E w) ≡ ok (tt, t))
        × (main (modbusd_c E) (some fname) again (initial E t.world) ≡ ok (tt, u))
        × Traffic E received t.sent
        × Traffic E again u.sent
        × LoadsSame E fname w t.world
  main_restarts fname w j c p received again servable servable' =
      let (t, e, traffic, saved) =
        main_runs hash modbus json memory socket fname w j c received servable in
      let c' = saved_config files fname w j c p t.world saved in
      let (u, e', traffic', _) =
        main_runs hash modbus json memory socket fname t.world j c' again servable' in
      (
        t,
        u,
        e,
        e',
        traffic,
        traffic',
        (_, _, loads memory fname w j c, loads memory fname t.world j c', refl),
      )
