-- ===== src/Request/Writes.antt =====
-- modbusd.c: the write requests (function codes 5, 6, 15 and 16).
use modbusd.Prelude.{
  ℕ, ◌*◌, ◌^◌, ◌≤◌, ◌<◌, ◌≡◌, refl, inl, inr, Option, some, List, true, CString, c_str, get_elem?,
  length,
}
use modbusd.Prelude.Int.{ℤ, pos}
use modbusd.Env.{Env}
use modbusd.Env.Laws.{JsonLaws}
use modbusd.Daemon.{Daemon, Handle, Outcome, ok, stop, buffer_overflow, load, call, ◌>>=◌}
use modbusd.Json.Fields.{HasInt, json_get_int-HasInt}
use modbusd.Response.{set_modbus_no_data_ok_resp}
use modbusd.Handle.Connect.{load-at}
use modbusd.Request.{
  uint8_mod, uint16_mod, write_reply, mbtcp_single_write_req, mbtcp_multi_write_req,
}
use modbusd.Request.Answer.{answer, settled, write_reply-at}
use modbusd.Request.Payload.{Converted, payload-fits, payload-overflows}

module _ {E : Env} (s : Daemon E) (tid : ℤ) (p : ℕ) (h : Handle E) where
  -- What one call of libmodbus on the handle's context leads to: the plain answer "ok" or
  -- libmodbus's text for errno; nothing but the handle's flag may change.
  abbrev pub written : (E.Ctx → E.World → ℤ × E.World) → Outcome (CString × Daemon E)
  written write =
      let (ret, w) = write h.ctx s.world in
      ok (answer E tid ret w (set_modbus_no_data_ok_resp E tid), settled E s p h ret w)

  run :
      (write : E.Ctx → E.World → ℤ × E.World)
      → get_elem? s.handles p ≡ some h
      → ◌>>=◌ {E = E}
          (load E (some p))
          (λ g. ◌>>=◌ {E = E} (call E (write g.ctx)) (λ ret. write_reply E (some p) tid ret))
          s
        ≡ written write
  unfolding ◌>>=◌
  run write at =
      let (ret, w) = write h.ctx s.world in
      rw (load-at s p h at) (write_reply-at E tid p h s w at ret)

module _ {E : Env} (req : Option E.Json) (s : Daemon E) (addr tid value : ℤ)
    (has_addr : HasInt E req (c_str "addr") addr) (has_tid : HasInt E req (c_str "tid") tid)
    (has_data : HasInt E req (c_str "data") value) (p : ℕ) (h : Handle E)
    (at : get_elem? s.handles p ≡ some h) where
  -- A single write with function code 5 or 6 never stops: it is one call of libmodbus's function for
  -- the code, with the request's address and value as they are.
  pub single_write_answers :
      (mbtcp_single_write_req E 5 (some p) req s
        ≡ written s tid p h (λ c. E.modbus_write_bit c addr value))
      × (mbtcp_single_write_req E 6 (some p) req s
          ≡ written s tid p h (λ c. E.modbus_write_register c addr value))
  unfolding mbtcp_single_write_req ◌>>=◌
  single_write_answers = (
    rw
        (
          json_get_int-HasInt E req _ addr has_addr s,
          json_get_int-HasInt E req _ tid has_tid s,
          json_get_int-HasInt E req _ value has_data s,
        )
        (run s tid p h (λ c. E.modbus_write_bit c addr value) at),
    rw
        (
          json_get_int-HasInt E req _ addr has_addr s,
          json_get_int-HasInt E req _ tid has_tid s,
          json_get_int-HasInt E req _ value has_data s,
        )
        (run s tid p h (λ c. E.modbus_write_register c addr value) at),
  )

module _ {E : Env} (laws : JsonLaws E) (req : Option E.Json) (s : Daemon E) (addr tid : ℤ) (n : ℕ)
    (small : n < 2 ^ 31) (has_addr : HasInt E req (c_str "addr") addr)
    (has_len : HasInt E req (c_str "len") (pos n)) (has_tid : HasInt E req (c_str "tid") tid)
    (items : E.Json) (has_data : E.cjson_get_object_item req (c_str "data") ≡ some items) where
  -- The daemon after malloc of the buffer.
  abbrev pub allocated : ℕ → Daemon E
  allocated width = record s { world = (E.malloc (n * width) s.world).1 }

  -- The buffer that libmodbus is given: the items, converted, then zeros up to `len`.
  pub record IsBuffer (m : ℕ) (b : List ℕ) : Type 0 where
    pub size : length b ≡ n
    pub filled : (j : ℕ) → j < E.cjson_get_array_size items → Converted laws m items b j
    pub padding : (j : ℕ) → E.cjson_get_array_size items ≤ j → j < n → get_elem? b j ≡ some 0

  -- A write of `len` coils with at most `len` items, if there is memory for the buffer, is one call
  -- of modbus_write_bits with the request's address and length and a buffer of that length, which
  -- holds the items modulo 2^8 in order and then zeros.
  pub multi_write_bits_answers :
      (p : ℕ) (h : Handle E)
      → get_elem? s.handles p ≡ some h
      → (E.malloc (n * 1) s.world).0 ≡ true
      → E.cjson_get_array_size items ≤ n
      → (b : List ℕ) × IsBuffer uint8_mod b
        × (mbtcp_multi_write_req E 15 (some p) req s
            ≡ written (allocated 1) tid p h (λ c. E.modbus_write_bits c addr (pos n) b))
  unfolding mbtcp_multi_write_req ◌>>=◌
  multi_write_bits_answers p h at got fits =
      let (b, filling, size, filled, padding) =
        payload-fits laws uint8_mod 1 n (inl refl) small req s items has_data got fits in
      (
        b,
        record { size = size; filled = filled; padding = padding },
        rw
            (
              json_get_int-HasInt E req _ addr has_addr s,
              json_get_int-HasInt E req _ _ has_len s,
              json_get_int-HasInt E req _ tid has_tid s,
              filling,
            )
            (run (allocated 1) tid p h (λ c. E.modbus_write_bits c addr (pos n) b) at),
      )

  -- A write of `len` registers with at most `len` items, if there is memory for the buffer, is one
  -- call of modbus_write_registers with the request's address and length and a buffer of that length,
  -- which holds the items modulo 2^16 in order and then zeros.
  pub multi_write_registers_answers :
      (p : ℕ) (h : Handle E)
      → get_elem? s.handles p ≡ some h
      → (E.malloc (n * 2) s.world).0 ≡ true
      → E.cjson_get_array_size items ≤ n
      → (b : List ℕ) × IsBuffer uint16_mod b
        × (mbtcp_multi_write_req E 16 (some p) req s
            ≡ written (allocated 2) tid p h (λ c. E.modbus_write_registers c addr (pos n) b))
  unfolding mbtcp_multi_write_req ◌>>=◌
  multi_write_registers_answers p h at got fits =
      let (b, filling, size, filled, padding) =
        payload-fits laws uint16_mod 2 n (inr refl) small req s items has_data got fits in
      (
        b,
        record { size = size; filled = filled; padding = padding },
        rw
            (
              json_get_int-HasInt E req _ addr has_addr s,
              json_get_int-HasInt E req _ _ has_len s,
              json_get_int-HasInt E req _ tid has_tid s,
              filling,
            )
            (run (allocated 2) tid p h (λ c. E.modbus_write_registers c addr (pos n) b) at),
      )

  -- More items than `len` says: both kinds of writes run over the end of the buffer, whatever the
  -- handle, if there is memory for the buffer.
  pub multi_write_overflows :
      (handle : Option ℕ)
      → n < E.cjson_get_array_size items
      → ((E.malloc (n * 1) s.world).0 ≡ true
          → mbtcp_multi_write_req E 15 handle req s ≡ stop buffer_overflow)
        × ((E.malloc (n * 2) s.world).0 ≡ true
            → mbtcp_multi_write_req E 16 handle req s ≡ stop buffer_overflow)
  unfolding mbtcp_multi_write_req ◌>>=◌
  multi_write_overflows handle more = (
    λ got. rw (
      json_get_int-HasInt E req _ addr has_addr s,
      json_get_int-HasInt E req _ _ has_len s,
      json_get_int-HasInt E req _ tid has_tid s,
      payload-overflows laws uint8_mod 1 n (inl refl) small req s items has_data got more,
    ),
    λ got. rw (
      json_get_int-HasInt E req _ addr has_addr s,
      json_get_int-HasInt E req _ _ has_len s,
      json_get_int-HasInt E req _ tid has_tid s,
      payload-overflows laws uint16_mod 2 n (inr refl) small req s items has_data got more,
    ),
  )
