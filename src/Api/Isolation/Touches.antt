-- ===== src/Api/Isolation/Touches.antt =====
-- modbusd.c, `mbtcp_cmd_hanlder`: a command as an operation on the abstract pool.
use modbusd.Prelude.{
  ℕ, ◌≡◌, refl, ◌∙◌, ◌⊎◌, inl, inr, Option, none, some, Bool, true, false, arith, CString, c_str,
  str_eq_refl, Bool-cases, if◌then◌else◌,
}
use modbusd.Prelude.Int.{ℤ}
use modbusd.Env.{Env}
use modbusd.Env.Laws.{HashLaws}
use modbusd.Key.Layout.{IsField}
use modbusd.Daemon.{Daemon, Ptr, pure, not_null, set_connected, ◌>>=◌}
use modbusd.Daemon.Moves.{
  Moves-Closed, Neutral, Moves, Moves-bind, Moves-if, Moves-pure, Moves-not_null,
}
use modbusd.Daemon.Exec.{Returned, Returned-mono, Returned-both, Returned-bind}
use modbusd.Json.Fields.{HasInt, HasText, json_get_int-HasInt, json_get_char-HasText}
use modbusd.Response.{modbus_set_error_resp}
use modbusd.Handle.{get_or_init, lazy_init_mbtcp_handle, lazy_mbtcp_connect}
use modbusd.Handle.Registry.{IsRegistry, Grows, Grows-Neutral}
use modbusd.Handle.Lookup.{FoundAt}
use modbusd.Handle.Holds.{lazy_mbtcp_connect-Holds}
use modbusd.Handle.Keeps.{set_connected-Grows, lazy_init_mbtcp_handle-Grows}
use modbusd.Handle.Pool.{Pool, Agree, Status, pool, pool-Evolves}
use modbusd.Handle.Pool.Opens.{Opens, there, opened, refused, get_or_init-Opens}
use modbusd.Command.{MbtcpFc, request_on, mbtcp_cmd_hanlder}
use modbusd.Command.Holds.{request_on-Holds}
use modbusd.Api.{Function, handler}
use modbusd.Api.Implementation.{modbusd_c, handler-Holds}
use modbusd.Api.Isolation.{
  Only, Only-Neutral, set_connected-Only, Others, Opens-Others, Only-Others,
}
use modbusd.Handle.Lazy.{lazy_init_finds}

module _ (E : Env) (tid : ℤ) (ip port : CString) where
  -- What a command for an endpoint may do to the pool, with its response: the endpoint cannot be
  -- opened, nothing changes and the response says so; or it is open afterwards, on the context that it
  -- had if it was open before, and every other endpoint is as it was.
  pub data Touches (f g : Pool (Status E)) (reply : CString) : Type 0 where
    unopened :
        f ip port ≡ none
        → Agree g f
        → reply ≡ modbus_set_error_resp E tid (c_str "init modbus tcp handle fail")
        → Touches f g reply
    reused :
        (b b' : Bool) (ctx : E.Ctx)
        → f ip port ≡ some (b, ctx)
        → g ip port ≡ some (b', ctx)
        → Others ip port f g
        → Touches f g reply
    first_use :
        (b' : Bool) (ctx : E.Ctx)
        → f ip port ≡ none
        → g ip port ≡ some (b', ctx)
        → Others ip port f g
        → Touches f g reply

module _ {S : Type 0} (ip port : CString) (f g : Pool S) where
  -- An operation that fails found the endpoint closed, and leaves all as it was.
  Opens-fails : (b : Bool) → Opens ip port b f g → b ≡ false → (f ip port ≡ none) × Agree g f
  Opens-fails b (there v e same) x = ground arith
  Opens-fails b (opened v e same) x = ground arith
  Opens-fails b (refused e same) x = (e, same)

  -- One that succeeds leaves the endpoint open, with its status if it was open before.
  Opens-succeeds :
      (b : Bool)
      → Opens ip port b f g
      → b ≡ true
      → IsField ip
      → IsField port
      → (v : S) × (g ip port ≡ some v) × ((f ip port ≡ some v) ⊎ (f ip port ≡ none))
  Opens-succeeds b (there v e same) x i j = (v, same ip port i j ∙ e, inl e)
  Opens-succeeds b (opened v e same) x i j =
      (v, same ip port i j ∙ rw (str_eq_refl ip, str_eq_refl port) refl, inr e)
  Opens-succeeds b (refused e same) x i j = ground arith

-- What follows when the handle is there, as the request.
module _ {E : Env} {R : Daemon E → Daemon E → Type 0} (neutral : Neutral R) (p : Ptr)
    (sets : (b : Bool) → Moves R (set_connected E p b)) (tid : ℤ) (req : Option E.Json)
    (fc : MbtcpFc E) where
  on_handle-Moves :
      Moves R (fc p req)
      → Moves R (
          lazy_mbtcp_connect E p none >>= λ (connected, reason).
          if connected
          then request_on E p req fc
          else (not_null reason >>= λ r. pure (modbus_set_error_resp E tid r)))
  on_handle-Moves h =
      Moves-bind neutral _ _ (lazy_mbtcp_connect-Holds (Moves-Closed neutral) p sets none)
        λ (connected, reason).
          Moves-if neutral connected _ _ (request_on-Holds (Moves-Closed neutral) p req fc h)
            (Moves-bind neutral _ _ (Moves-not_null neutral reason) λ r. Moves-pure neutral _)

module _ {E : Env} (hash : HashLaws E) (req : Option E.Json) (tid : ℤ) (ip port : CString)
    (has_tid : HasInt E req (c_str "tid") tid) (has_ip : HasText E req (c_str "ip") ip)
    (has_port : HasText E req (c_str "port") port) (ip_fits : IsField ip) (port_fits : IsField port)
    (f : Function) (s : Daemon E) (registry : IsRegistry s) where
  lazy_init-eq : lazy_init_mbtcp_handle E req s ≡ get_or_init E (some ip) (some port) s
  unfolding lazy_init_mbtcp_handle ◌>>=◌
  lazy_init-eq = rw (
    json_get_char-HasText E req (c_str "ip") ip has_ip s,
    json_get_char-HasText E req (c_str "port") port has_port s,
  )

  -- After the handle was found or made.
  abbrev Opened : Bool × Ptr → Daemon E → Type 0
  Opened r t = Opens ip port r.0 (pool s) (pool t)

  abbrev Found : Bool × Ptr → Daemon E → Type 0
  Found r t = r.0 ≡ true → (p : ℕ) × (r.1 ≡ some p) × FoundAt ip port t p

  abbrev Ready : Bool × Ptr → Daemon E → Type 0
  Ready r t = Opened r t × (Grows s t × Found r t)

  lazy_init-Ready : Returned Ready (lazy_init_mbtcp_handle E req s)
  lazy_init-Ready =
      Returned-both Opened (λ r t. Grows s t × Found r t) (lazy_init_mbtcp_handle E req s)
        (rw lazy_init-eq (get_or_init-Opens hash s registry ip port ip_fits port_fits))
        (Returned-both (λ r t. Grows s t) Found (lazy_init_mbtcp_handle E req s)
          ((lazy_init_mbtcp_handle-Grows E hash req).at s)
          (lazy_init_finds hash req ip port has_ip has_port ip_fits port_fits s))

  -- From the state `t` with the endpoint's handle at `p`, on to the state `u`.
  on_handle-Touches :
      (t u : Daemon E) (p : ℕ) (reply : CString)
      → Opens ip port true (pool s) (pool t)
      → Grows s t
      → FoundAt ip port t p
      → Only p t u
      → Grows t u
      → Touches E tid ip port (pool s) (pool u) reply
  on_handle-Touches t u p reply o g found only g' =
      let r = g.registry registry in
      let ((b, ctx), e, before) =
        Opens-succeeds ip port (pool s) (pool t) true o refl ip_fits port_fits in
      let (b', e') = pool-Evolves t u r (g'.registry r) g'.stays ip port b ctx e in
      let others : Others ip port (pool s) (pool u) = λ ip' port' i j n.
        Only-Others hash ip port ip_fits port_fits t u p r found only ip' port' i j n
        ∙ Opens-Others ip port true (pool s) (pool t) o ip' port' i j n in
      elim before [
        | inl was ↦ reused b b' ctx was e' others
        | inr was ↦ first_use b' ctx was e' others
      ]

  -- A command with a number and an endpoint that a key can hold, with any of the eight function codes
  -- and from a state with a sound registry, if it returns: either the endpoint cannot be opened,
  -- nothing changes and the response says so, or the endpoint is open afterwards, on the context that
  -- it had if it was open before. Every other endpoint is as it was: whether open, whether connected,
  -- and on which libmodbus context.
  pub command-Touches :
      Returned
        (λ reply t. Touches E tid ip port (pool s) (pool t) reply)
        (mbtcp_cmd_hanlder E req (handler (modbusd_c E) f) s)
  unfolding mbtcp_cmd_hanlder ◌>>=◌
  command-Touches = rw (json_get_int-HasInt E req (c_str "tid") tid has_tid s) (
      Returned-bind Ready _ (lazy_init_mbtcp_handle E req s) _ lazy_init-Ready
        (λ (ready, handle) t (o, (g, found)). elim (Bool-cases ready) [
          | inl e ↦
              let (p, at, leads) = found e in
              let opens : Opens ip port true (pool s) (pool t) = rw e at o in
              let only =
                on_handle-Moves (Only-Neutral p) (some p) (set_connected-Only p) tid req
                  (handler (modbusd_c E) f)
                  (handler-Holds (Moves-Closed (Only-Neutral p)) (some p) (set_connected-Only p) f
                    req) in
              let grows =
                on_handle-Moves Grows-Neutral (some p) (set_connected-Grows E (some p)) tid req
                  (handler (modbusd_c E) f)
                  (handler-Holds (Moves-Closed Grows-Neutral) (some p)
                    (set_connected-Grows E (some p)) f req) in
              rw (e, at)
                (Returned-mono (λ _ u. Only p t u × Grows t u)
                  (λ reply u. Touches E tid ip port (pool s) (pool u) reply) _
                  (λ reply u (a, b). on_handle-Touches t u p reply opens g leads a b)
                  (Returned-both (λ _ u. Only p t u) (λ _ u. Grows t u) _ (only.at t) (grows.at t)))
          | inr e ↦
              let (closed, same) = Opens-fails ip port (pool s) (pool t) ready o e in
              rw e (unopened closed same refl)
        ]))
