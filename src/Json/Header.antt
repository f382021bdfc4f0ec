-- ===== src/Json/Header.antt =====
-- json.h: the operations that json.c offers, and that what one of them saves another one loads.
use modbusd.Prelude.{
  ℕ, ◌+◌, ◌^◌, ◌<◌, ◌≡◌, ◌≢◌, inl, inr, Option, none, some, List, [], ◌∷◌, ◌++◌, true, CString,
  length, Option-cases,
}
use modbusd.Prelude.Int.{ℤ, pos}
use modbusd.Env.{Env, parsed}
use modbusd.Daemon.{Daemon, M, ok, ◌>>=◌}
use modbusd.Json.{
  json_get_char, json_get_int, parse_block, parse_file, file_to_json, json_to_file, json_release,
}
use modbusd.Json.Fields.{HasInt, HasText, json_get_int-HasInt, json_get_char-HasText}
use modbusd.Request.Total.{HasMemory}

-- The prototypes; `*outJson` is part of the result of `file_to_json`.
pub record JsonHeader (E : Env) : Type 0 where
  pub json_get_char : Option E.Json → CString → M E (Option CString)
  pub json_get_int : Option E.Json → CString → M E ℤ
  pub file_to_json : CString → Option E.Json → M E (ℤ × Option E.Json)
  pub json_to_file : CString → Option E.Json → M E ℤ
  pub json_release : Option E.Json → M E (Unit {0})

abbrev pub json_c : (E : Env) → JsonHeader E
json_c E = record {
  json_get_char = json_get_char E;
  json_get_int = json_get_int E;
  file_to_json = file_to_json E;
  json_to_file = json_to_file E;
  json_release = json_release E;
}

module _ (E : Env) where
  -- A file that has been written has the text.
  pub record FileLaws : Type 0 where
    pub read_written :
        (fname text : CString) (w v : E.World)
        → E.write_file fname text w ≡ some v
        → E.read_file fname v ≡ some text

  -- A configuration whose text cJSON reads back, whatever byte follows it in memory, as it does for
  -- an object, where parsing ends at the brace; and the file can be opened for writing.
  pub record IsPrintable (fname : CString) (j : E.Json) : Type 0 where
    pub short : length (E.cjson_print j) + 1 < 2 ^ 63
    pub parses_back : (b : ℕ) → E.cjson_parse (E.cjson_print j ++ b ∷ []) ≡ parsed j
    pub opens : (w : E.World) → E.write_file fname (E.cjson_print j) w ≢ none

module _ {E : Env} (fname : CString) (j : E.Json) where
  file_loads :
      (out : Option E.Json) (s : Daemon E) (content : List ℕ)
      → E.read_file fname s.world ≡ some content
      → let r = E.malloc (length content + 1) s.world in
        r.0 ≡ true
        → E.cjson_parse (content ++ E.fresh_byte r.1 (length content) ∷ []) ≡ parsed j
        → file_to_json E fname out s ≡ ok ((pos 0, some j), record s { world = r.1 })
  unfolding file_to_json parse_file parse_block ◌>>=◌
  file_loads out s content there got e = rw (there, file_to_json) (rw got (rw (e, parse_block)))

  file_saves :
      (s : Daemon E) (w : E.World)
      → E.write_file fname (E.cjson_print j) s.world ≡ some w
      → json_to_file E fname (some j) s ≡ ok (pos 0, record s { world = w })
  unfolding json_to_file
  file_saves s w e = rw (e, json_to_file)

-- With files that keep what is written to them and memory that is never short: an object that cJSON
-- reads back is saved to a file that can be opened, with the code 0, and in any later state with the
-- file as it is then the load gives the code 0 and the object, whatever the output held before, and
-- the two getters find in it the members of the saved object.
pub json_c_restores :
    {E : Env} (files : FileLaws E) (memory : HasMemory E) (fname : CString) (j : E.Json)
    (c : IsPrintable E fname j) (s : Daemon E)
    → let api = json_c E in
      (w v : E.World) × (api.json_to_file fname (some j) s ≡ ok (pos 0, record s { world = w }))
      × ((out : Option E.Json) (t : Daemon E)
          → t.world ≡ w
          → (loaded : Option E.Json) × (api.file_to_json fname out t
              ≡ ok ((pos 0, loaded), record t { world = v }))
            × ((key : CString) (n : ℤ)
                → HasInt E (some j) key n
                → (u : Daemon E) → api.json_get_int loaded key u ≡ ok (n, u))
            × ((key text : CString)
                → HasText E (some j) key text
                → (u : Daemon E) → api.json_get_char loaded key u ≡ ok (some text, u)))
json_c_restores {E} files memory fname j c s =
    elim (Option-cases (E.write_file fname (E.cjson_print j) s.world)) [
      | inl e ↦ absurd (c.opens s.world e)
      | inr (w, e) ↦
          let content = E.cjson_print j in
          (
            w,
            (E.malloc (length content + 1) w).1,
            file_saves fname j s w e,
            λ out t same. (
              some j,
              rw (← same) (
                  file_loads fname j out t content
                    (rw same (files.read_written fname content s.world w e))
                    (memory _ t.world c.short) (c.parses_back _)),
              λ key n has u. json_get_int-HasInt E (some j) key n has u,
              λ key text has u. json_get_char-HasText E (some j) key text has u,
            ),
          )
    ]
