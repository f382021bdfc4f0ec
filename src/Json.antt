-- ===== src/Json.antt =====
-- json.c: the wrappers of cJSON. The two getters dereference what cJSON_GetObjectItem returns.
pub mod Holds
pub mod Fields
pub mod Header
use modbusd.Prelude.{
  ℕ, suc, Option, none, some, List, [], ◌∷◌, ◌++◌, CString, length, ◌+◌, if◌then◌else◌,
}
use modbusd.Prelude.Int.{ℤ, pos, negsuc}
use modbusd.Env.{Env, Parse, parsed, syntax_error, overrun}
use modbusd.Daemon.{
  Daemon, M, Outcome, ok, stop, null_pointer, buffer_overflow, pure, fail, not_null, call, effect,
  gets, ◌>>=◌, ◌>>◌,
}

module _ (E : Env) where
  unfoldable pub json_get_char : Option E.Json → CString → M E (Option CString)
  json_get_char in_json key = do
    item ← not_null (E.cjson_get_object_item in_json key)
    pure (E.valuestring item)

  unfoldable pub json_get_int : Option E.Json → CString → M E ℤ
  json_get_int in_json key = do
    item ← not_null (E.cjson_get_object_item in_json key)
    pure (E.valueint item)

  -- cJSON_Parse on a block of memory.
  unfoldable pub parse_block : List ℕ → M E (Option E.Json)
  parse_block block s = elim (E.cjson_parse block) [
    | parsed j ↦ ok (some j, s)
    | syntax_error ↦ ok (none, s)
    | overrun ↦ stop buffer_overflow
  ]

  -- The block of `len + 1` bytes: fread fills the first `len`, and nothing writes the last.
  unfoldable pub parse_file : List ℕ → M E (ℤ × Option E.Json)
  parse_file content = do
    got ← call E (E.malloc (length content + 1))
    if got
        then (do
          last ← gets (λ s. E.fresh_byte s.world (length content))
          json ← parse_block (content ++ last ∷ [])
          pure (pos 0, json))
        else fail null_pointer

  -- The returned code and `*out_json`. The final test is of `out_json`, which is never NULL.
  unfoldable pub file_to_json : CString → Option E.Json → M E (ℤ × Option E.Json)
  unfolding parse_file parse_block
  file_to_json fname out_json s = elim (E.read_file fname s.world) [
    | some content ↦ parse_file content s
    | none ↦ ok ((negsuc 0, out_json), s)
  ]

  -- fprintf of NULL, which cJSON_Print gives for NULL, is undefined.
  unfoldable pub json_to_file : CString → Option E.Json → M E ℤ
  json_to_file fname none s = elim (E.write_file fname [] s.world) [
    | some w ↦ stop null_pointer
    | none ↦ ok (negsuc 0, s)
  ]
  json_to_file fname (some j) s = elim (E.write_file fname (E.cjson_print j) s.world) [
    | some w ↦ ok (pos 0, record s { world = w })
    | none ↦ ok (negsuc 0, s)
  ]

  -- cJSON_Delete of NULL does nothing.
  unfoldable pub json_release : Option E.Json → M E (Unit {0})
  json_release none = pure tt
  json_release (some j) = effect E (E.cjson_delete j)
