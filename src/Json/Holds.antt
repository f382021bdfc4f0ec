-- ===== src/Json/Holds.antt =====
-- json.c: a property of plain actions is one of the getters and of parsing a block.
use modbusd.Prelude.{◌≡◌, fun_ext, ℕ, Option, none, some, List, CString, arith}
use modbusd.Env.{Env, Parse, parsed, syntax_error, overrun}
use modbusd.Daemon.{M, buffer_overflow, pure, fail, ◌>>=◌}
use modbusd.Daemon.Closed.{Property, Plain, Holds, plain_rules}
use modbusd.Json.{json_get_char, json_get_int, parse_block}

-- What the wrapper of cJSON_Parse makes of its result.
result : {E : Env} → Parse E.Json → M E (Option E.Json)
result (parsed j) = pure (some j)
result syntax_error = pure none
result overrun = fail buffer_overflow

parse_block-result : (E : Env) (block : List ℕ) → parse_block E block ≡ result (E.cjson_parse block)
unfolding parse_block result ◌>>=◌
parse_block-result E block = fun_ext λ s. ground arith

module _ {E : Env} {P : Property E} (plain : Plain P) where
  pub json_get_char-Holds :
      (req : Option E.Json) (key : CString) → Holds P (json_get_char E req key)
  unfolding json_get_char
  json_get_char-Holds req key = search (plain_rules, plain)

  pub json_get_int-Holds : (req : Option E.Json) (key : CString) → Holds P (json_get_int E req key)
  unfolding json_get_int
  json_get_int-Holds req key = search (plain_rules, plain)

  result-Holds : (o : Parse E.Json) → Holds P (result o)
  unfolding result
  result-Holds (parsed j) = plain.of_pure (some j)
  result-Holds syntax_error = plain.of_pure none
  result-Holds overrun = plain.of_fail buffer_overflow

  pub parse_block-Holds : (block : List ℕ) → Holds P (parse_block E block)
  parse_block-Holds block = rw (parse_block-result E block) (result-Holds (E.cjson_parse block))
