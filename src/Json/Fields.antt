-- ===== src/Json/Fields.antt =====
-- The members of a request: what the getters of json.c return when a member is there, and that a
-- missing member ends the run.
use modbusd.Prelude.{Option, none, some, ◌≡◌, arith, CString}
use modbusd.Prelude.Int.{ℤ}
use modbusd.Env.{Env}
use modbusd.Daemon.{Daemon, ok, stop, null_pointer, ◌>>=◌}
use modbusd.Json.{json_get_char, json_get_int}

module _ (E : Env) where
  -- The object has a member of this name whose number, or whose text, is this.
  abbrev pub HasInt : Option E.Json → CString → ℤ → Type 0
  HasInt req key n = (j : E.Json) × (E.cjson_get_object_item req key ≡ some j) × (E.valueint j ≡ n)

  abbrev pub HasText : Option E.Json → CString → CString → Type 0
  HasText req key t =
      (j : E.Json) × (E.cjson_get_object_item req key ≡ some j) × (E.valuestring j ≡ some t)

  pub json_get_int-HasInt :
      (req : Option E.Json) (key : CString) (n : ℤ)
      → HasInt req key n
      → (s : Daemon E) → json_get_int E req key s ≡ ok (n, s)
  unfolding json_get_int ◌>>=◌
  json_get_int-HasInt req key n (j, e, v) s = ground arith

  pub json_get_char-HasText :
      (req : Option E.Json) (key : CString) (t : CString)
      → HasText req key t
      → (s : Daemon E) → json_get_char E req key s ≡ ok (some t, s)
  unfolding json_get_char ◌>>=◌
  json_get_char-HasText req key t (j, e, v) s = ground arith

  pub json_get_int-missing :
      (req : Option E.Json) (key : CString)
      → E.cjson_get_object_item req key ≡ none
      → (s : Daemon E) → json_get_int E req key s ≡ stop null_pointer
  unfolding json_get_int ◌>>=◌
  json_get_int-missing req key e s = ground arith

  pub json_get_char-missing :
      (req : Option E.Json) (key : CString)
      → E.cjson_get_object_item req key ≡ none
      → (s : Daemon E) → json_get_char E req key s ≡ stop null_pointer
  unfolding json_get_char ◌>>=◌
  json_get_char-missing req key e s = ground arith
