-- ===== src/Command/Progress.antt =====
-- Commands that return: with well formed arguments, a sound registry and memory, no fault is reached.
use modbusd.Prelude.{
  ℕ, ◌≡◌, ◌≢◌, ◌∙◌, ◌⊎◌, Option, none, some, true, arith, CString, length, get_elem?, set,
  get_elem?-lt, get_elem?-set_self, get_elem?-append_end, inl, inr, Bool-cases, Option-cases,
}
use modbusd.Prelude.Int.{ℤ, negsuc, eqb_ℤ, eqb_ℤ_iff}
use modbusd.Env.{Env}
use modbusd.Key.{key_bytes}
use modbusd.Key.Layout.{endpoint_key}
use modbusd.Daemon.{Daemon, Handle, ok}
use modbusd.Handle.{handle_size}
use modbusd.Handle.Registry.{IsRegistry}
use modbusd.Handle.Lookup.{connection, with_endpoint}
use modbusd.Request.Total.{HasMemory, Total}
use modbusd.Command.{MbtcpFc, mbtcp_cmd_hanlder}
use modbusd.Command.Connection.{IsCommand}
use modbusd.Command.Flow.{
  command_connected, command_disconnected, command_no_context, command_first_refused,
  command_first_accepted, command_second_accepted,
}

module _ {E : Env} (memory : HasMemory E) (req : Option E.Json) (tid slave : ℤ) (ip port : CString)
    (c : IsCommand E req tid slave ip port) (fc : MbtcpFc E) (total : Total E fc req)
    (s : Daemon E) where
  abbrev Returns : Type 0
  Returns = (r : CString × Daemon E) × (mbtcp_cmd_hanlder E req fc s ≡ ok r)

  refused_or_not : (n : ℤ) → (n ≡ negsuc 0) ⊎ (n ≢ negsuc 0)
  refused_or_not n = elim (Bool-cases (eqb_ℤ n (negsuc 0))) [
    | inl e ↦ inl ((eqb_ℤ_iff n (negsuc 0)).0 e)
    | inr e ↦ inr (λ i. ground (arith, eqb_ℤ_iff n (negsuc 0)))
  ]

  found_returns :
      (p : ℕ) (h : Handle E)
      → E.hash_find (key_bytes (endpoint_key ip port)) s.mbtcp_htable ≡ some p
      → get_elem? s.handles p ≡ some h
      → Returns
  found_returns p h found at = elim (Bool-cases h.connected) [
    | inl up ↦
        let (r, e) = total p h (record s { world = E.modbus_set_slave h.ctx slave s.world }) at in
        (r, command_connected req tid slave ip port c fc s p h found at up ∙ e)
    | inr down ↦
        let flow = command_disconnected req tid slave ip port c fc s p h found at down in
        elim (refused_or_not (E.modbus_connect h.ctx s.world).0) [
          | inl e ↦ (_, flow.0 e)
          | inr n ↦
              let (r, e) =
                total p (record h { connected = true })
                  (record s {
                    handles = set s.handles p (record h { connected = true });
                    world = E.modbus_set_slave h.ctx slave (E.modbus_connect h.ctx s.world).1;
                  })
                  (get_elem?-set_self s.handles p (record h { connected = true })
                    (get_elem?-lt s.handles p at)) in
              (r, flow.1 n ∙ e)
        ]
  ]

  module _ (new : E.hash_find (key_bytes (endpoint_key ip port)) s.mbtcp_htable ≡ none)
      (ctx : E.Ctx) (made : (E.modbus_new_tcp_pi (some ip) (some port) s.world).0 ≡ some ctx) where
    first_returns : Returns
    first_returns =
        let t = with_endpoint ip port s ctx in
        let p = length s.handles in
        let first = connection ip port s ctx in
        let second = E.modbus_connect ctx first.1 in
        let got = memory handle_size _ (omega arith) in
        let there = get_elem?-append_end s.handles _ in
        elim (refused_or_not first.0) [
          | inr n ↦
              let (r, e) =
                total p _ (record t { world = E.modbus_set_slave ctx slave first.1 }) there in
              (r, command_first_accepted req tid slave ip port c fc s ctx new made got n ∙ e)
          | inl refused ↦ elim (refused_or_not second.0) [
            | inl again ↦ (
              _,
              command_first_refused req tid slave ip port c fc s ctx new made got refused again,
            )
            | inr n ↦
                let up : Handle E = record {
                  key = endpoint_key ip port;
                  connected = true;
                  ctx = ctx;
                } in
                let (r, e) =
                  total p up
                    (record t {
                      handles = set t.handles p up;
                      world = E.modbus_set_slave ctx slave second.1;
                    })
                    (get_elem?-set_self t.handles p up (get_elem?-lt t.handles p there)) in
                (
                  r,
                  command_second_accepted req tid slave ip port c fc s ctx new made got refused n
                      ∙ e,
                )
          ]
        ]

  -- A command with the members that every command needs, whose handler returns on every handle, does
  -- return, if the registry is sound and memory is never short: whether or not the endpoint has a
  -- handle, whether or not libmodbus gives a context, and however the attempts to connect end.
  pub command_returns :
      IsRegistry s → (r : CString × Daemon E) × (mbtcp_cmd_hanlder E req fc s ≡ ok r)
  command_returns registry =
      elim (Option-cases (E.hash_find (key_bytes (endpoint_key ip port)) s.mbtcp_htable)) [
        | inr (p, found) ↦
            let (h, at, _) = registry.present (key_bytes (endpoint_key ip port)) p found in
            found_returns p h found at
        | inl new ↦ elim (Option-cases (E.modbus_new_tcp_pi (some ip) (some port) s.world).0) [
          | inl made ↦ (_, command_no_context req tid slave ip port c fc s new made)
          | inr (ctx, made) ↦ first_returns new ctx made
        ]
      ]
