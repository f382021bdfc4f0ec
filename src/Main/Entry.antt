-- ===== src/Main/Entry.antt =====
-- main.c, `main`: a property of plain actions that the assignments of load_config, the sockets and the
-- files have, and that the loop has, is one of a whole run.
use modbusd.Prelude.{
  ℕ, ◌≡◌, refl, fun_ext, Option, none, some, List, Bool, CString, c_str, inl, inr, Option-cases,
}
use modbusd.Prelude.Int.{ℤ, pos, negsuc, ltb_ℤ, to_unsigned}
use modbusd.Env.{Env}
use modbusd.Daemon.{Daemon, M, pure, gets, call, effect, modify, ◌>>=◌, ◌>>◌}
use modbusd.Daemon.Closed.{
  Property, Plain, Holds, Holds-bind, Holds-malloc, Holds-if, Holds-pure, Holds-fail, plain_rules,
}
use modbusd.Json.{json_get_char, json_get_int, parse_file, file_to_json, json_to_file}
use modbusd.Json.Holds.{json_get_char-Holds, json_get_int-Holds, parse_block-Holds}
use modbusd.Command.{uint32_mod}
use modbusd.Api.{Modbusd}
use modbusd.Main.{serve, load_config, save_config, setup_zmq, config_name, main}

pub record Starts {E : Env} (P : Property E) : Type 1 where
  pub plain : Plain P
  pub reads : {A : Type 0} (f : Daemon E → A) → Holds P (gets f)
  pub config : (x : Option E.Json) → Holds P (modify {E = E} (λ s. record s { config_json = x }))
  pub syslog : (x : ℤ) → Holds P (modify {E = E} (λ s. record s { enable_syslog = x }))
  pub sub : (x : Option CString) → Holds P (modify {E = E} (λ s. record s { ipc_sub = x }))
  pub publ : (x : Option CString) → Holds P (modify {E = E} (λ s. record s { ipc_pub = x }))
  pub timeout :
      (n : ℤ)
      → Holds P
          (modify {E = E} (λ s. record s { tcp_conn_timeout_usec = to_unsigned uint32_mod n }))
  pub bind_sub : (name : CString) → Holds P (effect E (E.zsocket_bind_sub name))
  pub new_pub : Holds P (call E E.zsocket_new_pub)
  pub bind_pub : (name : CString) → Holds P (effect E (E.zsocket_bind_pub name))
  pub write : (fname : CString) (j : Option E.Json) → Holds P (json_to_file E fname j)

-- What file_to_json does with what it reads.
loaded : {E : Env} → Option E.Json → Option (List ℕ) → M E (ℤ × Option E.Json)
loaded out none = pure (negsuc 0, out)
loaded {E} out (some content) = parse_file E content

file_to_json-loaded :
    (E : Env) (fname : CString) (out : Option E.Json)
    → file_to_json E fname out ≡ (gets (λ s. E.read_file fname s.world) >>= loaded out)
unfolding file_to_json loaded ◌>>=◌
file_to_json-loaded E fname out = fun_ext λ s. elim (Option-cases (E.read_file fname s.world)) [
  | inl e ↦ rw (e, file_to_json) refl
  | inr (content, e) ↦ rw (e, file_to_json) refl
]

module _ {E : Env} {P : Property E} (starts : Starts P) where
  reads-Holds : {A : Type 0} (f : Daemon E → A) → Holds P (gets f)
  reads-Holds f = starts.reads f

  sets_config : (x : Option E.Json) → Holds P (modify {E = E} (λ s. record s { config_json = x }))
  sets_config x = starts.config x

  sets_syslog : (x : ℤ) → Holds P (modify {E = E} (λ s. record s { enable_syslog = x }))
  sets_syslog x = starts.syslog x

  sets_sub : (x : Option CString) → Holds P (modify {E = E} (λ s. record s { ipc_sub = x }))
  sets_sub x = starts.sub x

  sets_publ : (x : Option CString) → Holds P (modify {E = E} (λ s. record s { ipc_pub = x }))
  sets_publ x = starts.publ x

  sets_timeout :
      (n : ℤ)
      → Holds P
          (modify {E = E} (λ s. record s { tcp_conn_timeout_usec = to_unsigned uint32_mod n }))
  sets_timeout n = starts.timeout n

  binds_sub : (name : CString) → Holds P (effect E (E.zsocket_bind_sub name))
  binds_sub name = starts.bind_sub name

  makes_pub : Holds P (call E E.zsocket_new_pub)
  makes_pub = starts.new_pub

  binds_pub : (name : CString) → Holds P (effect E (E.zsocket_bind_pub name))
  binds_pub name = starts.bind_pub name

  writes : (fname : CString) (j : Option E.Json) → Holds P (json_to_file E fname j)
  writes fname j = starts.write fname j

  reads_config_json : Holds P (gets {E = E} (λ s. s.config_json))
  reads_config_json = starts.reads (λ s. s.config_json)

  reads_ipc_sub : Holds P (gets {E = E} (λ s. s.ipc_sub))
  reads_ipc_sub = starts.reads (λ s. s.ipc_sub)

  reads_ipc_pub : Holds P (gets {E = E} (λ s. s.ipc_pub))
  reads_ipc_pub = starts.reads (λ s. s.ipc_pub)

  parse_file-Holds : (content : List ℕ) → Holds P (parse_file E content)
  unfolding parse_file
  parse_file-Holds content = Holds-bind starts.plain _ _ (Holds-malloc starts.plain _) λ got.
      Holds-if starts.plain got _ _
        (Holds-bind starts.plain _ _ (reads-Holds _) λ last.
          Holds-bind starts.plain _ _ (parse_block-Holds starts.plain _)
            λ j. Holds-pure starts.plain _)
        (Holds-fail starts.plain _)

  loaded-Holds : (out : Option E.Json) (o : Option (List ℕ)) → Holds P (loaded out o)
  unfolding loaded
  loaded-Holds out none = starts.plain.of_pure _
  loaded-Holds out (some content) = parse_file-Holds content

  file_to_json-Holds : (fname : CString) (out : Option E.Json) → Holds P (file_to_json E fname out)
  file_to_json-Holds fname out =
      rw (file_to_json-loaded E fname out)
        (starts.plain.of_bind _ _ (reads-Holds _) (loaded-Holds out))

  next :
      {A B : Type 0} (m : M E A) (k : A → M E B)
      → Holds P m
      → ((a : A) → Holds P (k a))
      → Holds P (m >>= k)
  next m k hm hk = Holds-bind starts.plain m k hm hk

  settings-Holds :
      (json : Option E.Json)
      → Holds P (
          json_get_int E json (c_str "syslog") >>= λ syslog.
          modify (λ s. record s { enable_syslog = syslog })
          >> (json_get_char E json (c_str "ipc_sub") >>= λ sub.
              modify (λ s. record s { ipc_sub = sub })
              >> (json_get_char E json (c_str "ipc_pub") >>= λ publ.
                  modify (λ s. record s { ipc_pub = publ })
                  >> (json_get_int E json (c_str "mbtcp_connect_timeout") >>= λ usec.
                      modify
                        (λ s. record s { tcp_conn_timeout_usec = to_unsigned uint32_mod usec })))))
  settings-Holds json =
      let int = json_get_int-Holds starts.plain json in
      let char = json_get_char-Holds starts.plain json in
      next _ _ (int _) λ syslog. next _ _ (sets_syslog syslog) λ _. next _ _ (char _) λ sub.
        next _ _ (sets_sub sub) λ _.
          next _ _ (char _)
            λ publ. next _ _ (sets_publ publ) λ _. next _ _ (int _) λ usec. sets_timeout usec

  load_config-Holds : (fname : CString) → Holds P (load_config E fname)
  unfolding load_config
  load_config-Holds fname = next _ _ reads_config_json λ config.
      next _ _ (file_to_json-Holds fname config) λ r. next _ _ (sets_config r.1) λ _.
        Holds-if starts.plain (ltb_ℤ r.0 (pos 0)) _ _ (Holds-fail starts.plain _)
          (settings-Holds r.1)

  setup_zmq-Holds : Holds P (setup_zmq E)
  unfolding setup_zmq
  setup_zmq-Holds =
      let plain : Plain P = starts.plain in
      search (plain_rules, plain, reads_ipc_sub, reads_ipc_pub, binds_sub, makes_pub, binds_pub)
        depth 15

  save_config-Holds :
      (fname : CString) (config : Option E.Json) → Holds P (save_config E fname config)
  unfolding save_config ◌>>=◌
  save_config-Holds fname config =
      let plain : Plain P = starts.plain in search (plain_rules, plain, writes)

  pub main-Holds :
      (api : Modbusd E) (received : List (Option (List CString)))
      → ((publisher : Bool) → Holds P (serve api publisher received))
      → (argument : Option CString) → Holds P (main api argument received)
  unfolding main
  main-Holds api received serves argument = next _ _ (load_config-Holds (config_name argument)) λ _.
      next _ _ setup_zmq-Holds λ publisher.
        next _ _ (serves publisher)
          λ _. next _ _ reads_config_json λ config. save_config-Holds (config_name argument) config
