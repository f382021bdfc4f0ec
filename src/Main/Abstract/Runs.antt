-- ===== src/Main/Abstract/Runs.antt =====
-- What holds of every run of the abstract daemon.
use modbusd.Prelude.{
  ℕ, ◌≡◌, refl, ap, sym, ◌∙◌, Option, none, some, List, [], ◌∷◌, ◌++◌, Bool, true, false, All,
  CString, c_str, str_eq, str_eq_of_ne, if◌then◌else◌,
}
use modbusd.Prelude.Int.{ℤ, to_unsigned}
use modbusd.Env.{Env, Parse, parsed}
use modbusd.Key.Layout.{IsField}
use modbusd.Json.Fields.{HasInt, HasText}
use modbusd.Command.{uint32_mod}
use modbusd.Api.{Function, fc1, fc2, fc3, fc4, fc5, fc6, fc15, fc16, name}
use modbusd.Api.Isolation.Touches.{Touches, unopened, reused, first_use}
use modbusd.Main.Dispatch.{IsMessage}
use modbusd.Main.Abstract.{
  View, Step, empty, ignored, wrong_mode, wrong_command, timed, requested, Run, finished, next,
}

module _ (E : Env) where
  -- The message is an object with this address and this port.
  abbrev pub Names : CString → CString → Option (List CString) → Type 0
  Names ip port (some (mode ∷ text ∷ more)) =
      (req : E.Json) × (E.cjson_parse (text ++ 0 ∷ []) ≡ parsed req)
      × HasText E (some req) (c_str "ip") ip
      × HasText E (some req) (c_str "port") port
  Names ip port _ = ⊥

  -- The object has the command "timeout".
  abbrev is_timeout : E.Json → Bool
  is_timeout req = elim (E.cjson_get_object_item (some req) (c_str "cmd")) [
    | none ↦ false
    | some j ↦ elim (E.valuestring j) [ none ↦ false | some cmd ↦ str_eq cmd (c_str "timeout") ]
  ]

  -- The timeout that a request sets, or the one that is set.
  abbrev requested_timeout : ℕ → E.Json → ℕ
  requested_timeout old req =
      if is_timeout req
      then elim (E.cjson_get_object_item (some req) (c_str "data")) [
        | none ↦ old
        | some d ↦ to_unsigned uint32_mod (E.valueint d)
      ]
      else old

  abbrev parsed_timeout : ℕ → Parse E.Json → ℕ
  parsed_timeout old (parsed req) = requested_timeout old req
  parsed_timeout old _ = old

  -- The timeout after a receive.
  abbrev pub timeout_after : ℕ → Option (List CString) → ℕ
  timeout_after old (some (mode ∷ text ∷ more)) =
      if str_eq mode (c_str "tcp") then parsed_timeout old (E.cjson_parse (text ++ 0 ∷ [])) else old
  timeout_after old _ = old

  -- The timeout after a run: that of the last command "timeout" of the mode tcp.
  abbrev pub last_timeout : ℕ → List (Option (List CString)) → ℕ
  last_timeout old [] = old
  last_timeout old (message ∷ rest) = last_timeout (timeout_after old message) rest

name_no_timeout : (f : Function) → str_eq (name f) (c_str "timeout") ≡ false
name_no_timeout fc1 = refl
name_no_timeout fc2 = refl
name_no_timeout fc3 = refl
name_no_timeout fc4 = refl
name_no_timeout fc5 = refl
name_no_timeout fc6 = refl
name_no_timeout fc15 = refl
name_no_timeout fc16 = refl

module _ {E : Env} (ip port : CString) (ip_fits : IsField ip) (port_fits : IsField port) where
  Touches-spares :
      (tid : ℤ) (ip' port' : CString) (v v' : View E) (reply : CString)
      → ((ip' ≡ ip) × (port' ≡ port) → ⊥)
      → Touches E tid ip' port' v.endpoints v'.endpoints reply
      → v'.endpoints ip port ≡ v.endpoints ip port
  Touches-spares tid ip' port' v v' reply n (unopened e same r) = same ip port ip_fits port_fits
  Touches-spares tid ip' port' v v' reply n (reused b b' ctx e e' others) =
      others ip port ip_fits port_fits n
  Touches-spares tid ip' port' v v' reply n (first_use b' ctx e e' others) =
      others ip port ip_fits port_fits n

  Step-spares :
      (message : Option (List CString)) (v v' : View E)
      → Step E message v v'
      → ¬ Names E ip port message
      → v'.endpoints ip port ≡ v.endpoints ip port
  Step-spares _ _ _ (empty v) n = refl
  Step-spares _ _ _ (ignored mode text more tid v m r) n = refl
  Step-spares _ _ _ (wrong_mode mode text more tid v m m' r) n = refl
  Step-spares _ _ _ (wrong_command mode text more req tid cmd v m r k k') n = refl
  Step-spares _ _ _ (timed mode text more req tid usec v m r d) n = refl
  Step-spares _ _ _
        (requested mode text more req tid f ip' port' reply v v' m r has_ip has_port i j t a e e')
        n =
      Touches-spares tid ip' port' v v' reply
        (λ (same, same'). n (req, r.parses, rw (← same) has_ip, rw (← same') has_port)) t

  -- A run without a message for an endpoint leaves the endpoint as it was.
  pub Run-spares :
      (received : List (Option (List CString))) (v v' : View E)
      → Run E received v v'
      → All (λ m. ¬ Names E ip port m) received
      → v'.endpoints ip port ≡ v.endpoints ip port
  Run-spares _ _ _ (finished v) spared = refl
  Run-spares _ _ _ (next message rest v t v'' step run) (n, spared) =
      Run-spares rest t v'' run spared ∙ Step-spares message v t step n

is_timeout-eq :
    (E : Env) (req : E.Json) (cmd : CString)
    → HasText E (some req) (c_str "cmd") cmd
    → is_timeout E req ≡ str_eq cmd (c_str "timeout")
is_timeout-eq E req cmd (j, e, t) = rw (e, is_timeout) (rw t refl)

module _ {E : Env} where
  -- What a message of the mode tcp does to the timeout, by its command.
  after_command :
      (mode text : CString) (more : List CString) (req : E.Json) (tid : ℤ) (cmd : CString) (old : ℕ)
      → mode ≡ c_str "tcp"
      → IsMessage E text req tid cmd
      → (str_eq cmd (c_str "timeout") ≡ false
          → timeout_after E old (some (mode ∷ text ∷ more)) ≡ old)
        × ((usec : ℤ)
            → str_eq cmd (c_str "timeout") ≡ true
            → HasInt E (some req) (c_str "data") usec
            → timeout_after E old (some (mode ∷ text ∷ more)) ≡ to_unsigned uint32_mod usec)
  after_command mode text more req tid cmd old m r = (
    λ no. rw m (rw (r.parses, parsed_timeout) (rw (is_timeout-eq E req cmd r.has_cmd ∙ no) refl)),
    λ usec yes (d, e, t). rw m (
        rw (r.parses, parsed_timeout)
          (rw (is_timeout-eq E req cmd r.has_cmd ∙ yes) (rw (e, t) refl))),
  )

  Step-timeout :
      (message : Option (List CString)) (v v' : View E)
      → Step E message v v'
      → v'.timeout ≡ timeout_after E v.timeout message
  Step-timeout _ _ _ (empty v) = refl
  Step-timeout _ _ _ (ignored mode text more tid v m r) = rw m refl
  Step-timeout _ _ _ (wrong_mode mode text more tid v m m' r) =
      rw (str_eq_of_ne mode (c_str "tcp") m) refl
  Step-timeout _ _ _ (wrong_command mode text more req tid cmd v m r k k') = sym (
      (after_command mode text more req tid cmd v.timeout m r).0
        (str_eq_of_ne cmd (c_str "timeout") k'))
  Step-timeout _ _ _ (timed mode text more req tid usec v m r d) =
      sym ((after_command mode text more req tid (c_str "timeout") v.timeout m r).1 usec refl d)
  Step-timeout _ _ _
        (requested mode text more req tid f ip' port' reply v v' m r has_ip has_port i j t a e e') =
      e ∙ sym ((after_command mode text more req tid (name f) v.timeout m r).0 (name_no_timeout f))

  -- The timeout at the end of a run is that of its last command "timeout".
  pub Run-timeout :
      (received : List (Option (List CString))) (v v' : View E)
      → Run E received v v'
      → v'.timeout ≡ last_timeout E v.timeout received
  Run-timeout _ _ _ (finished v) = refl
  Run-timeout _ _ _ (next message rest v t v'' step run) =
      Run-timeout rest t v'' run ∙ ap (λ n. last_timeout E n rest) (Step-timeout message v t step)
