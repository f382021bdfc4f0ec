-- ===== src/Tests/Abstract.antt =====
-- Instances of the theorems on the abstract daemon and on runs without a publisher.
use modbusd.Prelude.{
  ◌≡◌, refl, sym, ap, ◌∙◌, Option, none, some, List, [], ◌∷◌, true, false, All, arith, CString,
  c_str, str_eq,
}
use modbusd.Prelude.Int.{pos}
use modbusd.Env.{Parse, parsed}
use modbusd.Daemon.Exec.{Returned}
use modbusd.Json.Fields.{HasText}
use modbusd.Key.Layout.{IsField}
use modbusd.Handle.Pool.{pool}
use modbusd.Handle.Endpoint.{IsPlain}
use modbusd.Api.Implementation.{modbusd_c}
use modbusd.Daemon.Blind.{relabelled}
use modbusd.Main.{serve}
use modbusd.Main.Silent.{serve_silent}
use modbusd.Main.Abstract.{Run, view}
use modbusd.Main.Abstract.Runs.{Names}
use modbusd.Main.Abstract.Refines.{IsPlainMessage, serve-Run}
use modbusd.Main.Abstract.Loop.{serve_spares, serve_timeout}
use modbusd.Tests.Trees.{Node, string, text_of, number, request, arguments, read_coils}
use modbusd.Tests.Toy.{toy, toy_hash, toy_json}
use modbusd.Tests.States.{
  slave, start, one_handle, one_handle-IsRegistry, start-IsRegistry, address, service,
  address-IsField, service-IsField,
}

abbrev received : List (Option (List CString))
received =
    some (c_str "tcp" ∷ c_str "read" ∷ [])
    ∷ none
    ∷ some (c_str "rtu" ∷ c_str "read" ∷ [])
    ∷ some (c_str "tcp" ∷ c_str "timeout" ∷ [])
    ∷ []

abbrev object_of : Parse Node → Node
object_of (parsed j) = j
object_of _ = number (pos 0)

abbrev string_of : Option CString → CString
string_of (some t) = t
string_of none = []

abbrev node_of : Option Node → Node
node_of (some j) = j
node_of none = number (pos 0)

-- The only string under a name.
the_text :
    (req : Node) (key a t : CString)
    → toy.cjson_get_object_item (some req) key ≡ some (string a)
    → HasText toy (some req) key t
    → a ≡ t
the_text req key a t e (j, f, v) =
    let same : string a ≡ j = ap node_of (sym e ∙ f) in ap string_of (ap text_of same ∙ v)

-- The requests of these messages have the same address and port.
both-IsPlain :
    (req : Node)
    → toy.cjson_get_object_item (some req) (c_str "ip") ≡ some (string address)
    → toy.cjson_get_object_item (some req) (c_str "port") ≡ some (string service)
    → IsPlain toy (some req)
both-IsPlain req e f = (
  λ t h. rw (← the_text req (c_str "ip") address t e h) address-IsField.text,
  λ t h. rw (← the_text req (c_str "port") service t f h) service-IsField.text,
)

pub plain : All (IsPlainMessage toy) received
plain = (
  λ req e. rw (← ap object_of e) (both-IsPlain read_coils refl refl),
  (
    tt,
    (
      λ req e. rw (← ap object_of e) (both-IsPlain read_coils refl refl),
      (
        λ req e. rw (← ap object_of e) (
            both-IsPlain (request (c_str "timeout") (arguments 0 0 (number (pos 250000)))) refl
              refl),
        tt,
      ),
    ),
  ),
)

serve-Run_example :
    Returned
      (λ _ t. Run toy received (view toy (start slave)) (view toy t))
      (serve (modbusd_c toy) true received (start slave))
serve-Run_example =
    serve-Run toy_hash toy_json received (start slave) plain (start-IsRegistry slave)

serve_timeout_example :
    Returned
      (λ _ t. t.tcp_conn_timeout_usec ≡ 250000)
      (serve (modbusd_c toy) true received (start slave))
serve_timeout_example =
    serve_timeout toy_hash toy_json received (start slave) plain (start-IsRegistry slave)

abbrev elsewhere : CString
elsewhere = c_str "10.0.0.2"

elsewhere-IsField : IsField elsewhere
elsewhere-IsField = record { text = omega arith; fits = omega arith }

not_elsewhere :
    (req : Node)
    → toy.cjson_get_object_item (some req) (c_str "ip") ≡ some (string address)
    → ¬ HasText toy (some req) (c_str "ip") elsewhere
not_elsewhere req e h =
    ground (arith, ap (str_eq address) (the_text req (c_str "ip") address elsewhere e h))

spared : All (λ m. ¬ Names toy elsewhere service m) received
spared = (
  λ (req, e, has_ip, has_port). not_elsewhere req (rw (← ap object_of e) refl) has_ip,
  (
    λ n. n,
    (
      λ (req, e, has_ip, has_port). not_elsewhere req (rw (← ap object_of e) refl) has_ip,
      (λ (req, e, has_ip, has_port). not_elsewhere req (rw (← ap object_of e) refl) has_ip, tt),
    ),
  ),
)

serve_spares_example :
    Returned
      (λ _ t. pool t elsewhere service ≡ pool (one_handle slave true) elsewhere service)
      (serve (modbusd_c toy) true received (one_handle slave true))
serve_spares_example =
    serve_spares toy_hash toy_json received (one_handle slave true) plain
      (one_handle-IsRegistry slave true) elsewhere service elsewhere-IsField service-IsField spared

-- One pair of frames, published before.
abbrev before : List (CString × CString)
before = (c_str "tcp", c_str "{}") ∷ []

serve_silent_example :
    serve (modbusd_c toy) false received (record (start slave) { sent = before })
    ≡ relabelled before (serve (modbusd_c toy) true received (start slave))
serve_silent_example = serve_silent toy received (start slave) before
