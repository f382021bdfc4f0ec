-- ===== src/Request/Reads.antt =====
-- modbusd.c: the read requests (function codes 1 to 4) on every kind of `len`.
use modbusd.Prelude.{
  ℕ, zero, suc, ◌≤◌, ◌≡◌, refl, ap, ◌∙◌, Option, none, some, List, true, false, arith, CString,
  c_str, get_elem?, le→ltb, inl, inr, Bool-cases, ◌==◌, if◌then◌else◌,
}
use modbusd.Prelude.Int.{ℤ, pos, negsuc, ltb_ℤ}
use modbusd.Env.{Env}
use modbusd.Env.Laws.{ModbusLaws, IsRead}
use modbusd.Key.{memset_zero}
use modbusd.Daemon.{Daemon, Handle, Outcome, ok, stop, bad_array_size, load, call_buffer, ◌>>=◌}
use modbusd.Json.Fields.{HasInt, json_get_int-HasInt}
use modbusd.Response.{modbus_set_error_resp, set_modbus_with_data_ok_resp}
use modbusd.Handle.Connect.{load-at}
use modbusd.Request.{zeroed_array, read_reply, mbtcp_read_bit_req, mbtcp_read_reg_req}
use modbusd.Request.Answer.{answer, settled, read_reply-at}

module _ (E : Env) where
  -- libmodbus's function for a function code that reads bits, or registers.
  abbrev pub Reader : Type 0
  Reader = E.Ctx → ℤ → ℤ → List ℕ → E.World → ℤ × List ℕ × E.World

  abbrev pub bit_reader : ℕ → Option Reader
  bit_reader fc =
      if fc == 1
      then some E.modbus_read_bits
      else if fc == 2
      then some E.modbus_read_input_bits
      else none

  abbrev pub register_reader : ℕ → Option Reader
  register_reader fc =
      if fc == 3
      then some E.modbus_read_registers
      else if fc == 4
      then some E.modbus_read_input_registers
      else none

module _ {E : Env} (fc : ℕ) (req : Option E.Json) (s : Daemon E) (addr len tid : ℤ)
    (has_addr : HasInt E req (c_str "addr") addr) (has_len : HasInt E req (c_str "len") len)
    (has_tid : HasInt E req (c_str "tid") tid) where
  -- A request for more than 2000 bits is refused before anything else happens, whatever the code and
  -- the handle.
  pub read_bit_too_many :
      (handle : Option ℕ)
      → ltb_ℤ (pos 2000) len ≡ true
      → mbtcp_read_bit_req E fc handle req s
        ≡ ok (modbus_set_error_resp E tid (c_str "Too many bits requested"), s)
  unfolding mbtcp_read_bit_req ◌>>=◌
  read_bit_too_many handle h = rw (
    json_get_int-HasInt E req _ addr has_addr s,
    json_get_int-HasInt E req _ len has_len s,
    json_get_int-HasInt E req _ tid has_tid s,
    h,
  )

  -- A request for more than 125 registers is refused before anything else happens, whatever the code
  -- and the handle.
  pub read_reg_too_many :
      (handle : Option ℕ)
      → ltb_ℤ (pos 125) len ≡ true
      → mbtcp_read_reg_req E fc handle req s
        ≡ ok (modbus_set_error_resp E tid (c_str "Too many registers requested"), s)
  unfolding mbtcp_read_reg_req ◌>>=◌
  read_reg_too_many handle h = rw (
    json_get_int-HasInt E req _ addr has_addr s,
    json_get_int-HasInt E req _ len has_len s,
    json_get_int-HasInt E req _ tid has_tid s,
    h,
  )

  not_positive : ltb_ℤ (pos 0) len ≡ false → zeroed_array E len s ≡ stop bad_array_size
  unfolding zeroed_array ◌>>=◌
  not_positive h = go len h
    where
      go : (l : ℤ) → ltb_ℤ (pos 0) l ≡ false → zeroed_array E l s ≡ stop bad_array_size
      go (pos zero) e = refl
      go (pos (suc n)) e = ground arith
      go (negsuc n) e = refl

  read_bit_not_positive :
      (handle : Option ℕ)
      → ltb_ℤ (pos 0) len ≡ false
      → ltb_ℤ (pos 2000) len ≡ false
      → mbtcp_read_bit_req E fc handle req s ≡ stop bad_array_size
  unfolding mbtcp_read_bit_req ◌>>=◌
  read_bit_not_positive handle h k = rw (
    json_get_int-HasInt E req _ addr has_addr s,
    json_get_int-HasInt E req _ len has_len s,
    json_get_int-HasInt E req _ tid has_tid s,
    k,
    not_positive h,
  )

  read_reg_not_positive :
      (handle : Option ℕ)
      → ltb_ℤ (pos 0) len ≡ false
      → ltb_ℤ (pos 125) len ≡ false
      → mbtcp_read_reg_req E fc handle req s ≡ stop bad_array_size
  unfolding mbtcp_read_reg_req ◌>>=◌
  read_reg_not_positive handle h k = rw (
    json_get_int-HasInt E req _ addr has_addr s,
    json_get_int-HasInt E req _ len has_len s,
    json_get_int-HasInt E req _ tid has_tid s,
    k,
    not_positive h,
  )

  -- A request for no items, or for a negative number of them, passes the guard of both kinds of reads
  -- and declares an array of that size: undefined behaviour, whatever the code and the handle.
  pub read_not_positive :
      (handle : Option ℕ)
      → ltb_ℤ (pos 0) len ≡ false
      → (mbtcp_read_bit_req E fc handle req s ≡ stop bad_array_size)
        × (mbtcp_read_reg_req E fc handle req s ≡ stop bad_array_size)
  read_not_positive handle h =
      (read_bit_not_positive handle h (below len h), read_reg_not_positive handle h (below' len h))
    where
      below : (l : ℤ) → ltb_ℤ (pos 0) l ≡ false → ltb_ℤ (pos 2000) l ≡ false
      below (pos n) e = ground arith
      below (negsuc n) e = refl

      below' : (l : ℤ) → ltb_ℤ (pos 0) l ≡ false → ltb_ℤ (pos 125) l ≡ false
      below' (pos n) e = ground arith
      below' (negsuc n) e = refl

-- One call of a reader on a handle, from the buffer on.
module _ {E : Env} (s : Daemon E) (addr tid : ℤ) (n : ℕ) (p : ℕ) (h : Handle E)
    (to_array : List ℕ → E.Json) where
  -- What the read leads to: the reader is called once, on the handle's context, with the address,
  -- the length and a zeroed buffer of that length. The answer has the buffer's elements, or
  -- libmodbus's text for errno; nothing but the handle's flag may change.
  abbrev pub served : Reader E → Outcome (CString × Daemon E)
  served read =
      let (ret, values, w) = read h.ctx addr (pos n) (memset_zero n) s.world in
      ok (
        answer E tid ret w (set_modbus_with_data_ok_resp E tid (to_array values)),
        settled E s p h ret w,
      )

  run :
      (read : Reader E)
      → get_elem? s.handles p ≡ some h
      → IsRead E read
      → ◌>>=◌ {E = E}
          (load E (some p))
          (λ g.
            ◌>>=◌ {E = E}
              (call_buffer E (read g.ctx addr (pos n) (memset_zero n)))
              (λ r. read_reply E (some p) tid (pos n) to_array r))
          s
        ≡ served read
  unfolding ◌>>=◌
  run read at keeps =
      let (ret, values, w) = read h.ctx addr (pos n) (memset_zero n) s.world in
      rw (load-at s p h at) (
        read_reply-at E tid p h s w at (pos n) to_array ret values
          (keeps h.ctx addr n (memset_zero n) s.world).1)

module _ {E : Env} (laws : ModbusLaws E) (fc : ℕ) (req : Option E.Json) (s : Daemon E)
    (addr tid : ℤ) (n : ℕ) (has_addr : HasInt E req (c_str "addr") addr)
    (has_len : HasInt E req (c_str "len") (pos (suc n))) (has_tid : HasInt E req (c_str "tid") tid)
    (p : ℕ) (h : Handle E) (at : get_elem? s.handles p ≡ some h) (read : Reader E) where
  bit_array : List ℕ → E.Json
  bit_array values = E.cjson_create_uint8_array values (pos (suc n))

  register_array : List ℕ → E.Json
  register_array values = E.cjson_create_uint16_array values (pos (suc n))

  -- A read of 1 to 2000 bits never stops: it is the one call of libmodbus's function for the code,
  -- with the request's address and length.
  pub read_bit_answers :
      suc n ≤ 2000
      → bit_reader E fc ≡ some read
      → mbtcp_read_bit_req E fc (some p) req s
        ≡ served s addr tid (suc n) p h (λ v. E.cjson_create_uint8_array v (pos (suc n))) read
  unfolding mbtcp_read_bit_req zeroed_array bit_array ◌>>=◌
  read_bit_answers few reader =
      rw
        (
          json_get_int-HasInt E req _ addr has_addr s,
          json_get_int-HasInt E req _ _ has_len s,
          json_get_int-HasInt E req _ tid has_tid s,
          le→ltb 2000 (suc n) few,
        )
        (elim (Bool-cases (fc == 1)) [
          | inl e ↦
              let same : E.modbus_read_bits ≡ read = ground arith in
              rw e (
                run s addr tid (suc n) p h bit_array E.modbus_read_bits at laws.read_bits
                ∙ ap (served s addr tid (suc n) p h bit_array) same)
          | inr e ↦ elim (Bool-cases (fc == 2)) [
            | inl f ↦
                let same : E.modbus_read_input_bits ≡ read = ground arith in
                rw (e, f)
                  (run s addr tid (suc n) p h bit_array E.modbus_read_input_bits at
                      laws.read_input_bits
                    ∙ ap (served s addr tid (suc n) p h bit_array) same)
            | inr f ↦ absurd (ground arith)
          ]
        ])

  -- A read of 1 to 125 registers never stops: it is the one call of libmodbus's function for the code,
  -- with the request's address and length.
  pub read_reg_answers :
      suc n ≤ 125
      → register_reader E fc ≡ some read
      → mbtcp_read_reg_req E fc (some p) req s
        ≡ served s addr tid (suc n) p h (λ v. E.cjson_create_uint16_array v (pos (suc n))) read
  unfolding mbtcp_read_reg_req zeroed_array register_array ◌>>=◌
  read_reg_answers few reader =
      rw
        (
          json_get_int-HasInt E req _ addr has_addr s,
          json_get_int-HasInt E req _ _ has_len s,
          json_get_int-HasInt E req _ tid has_tid s,
          le→ltb 125 (suc n) few,
        )
        (elim (Bool-cases (fc == 3)) [
          | inl e ↦
              let same : E.modbus_read_registers ≡ read = ground arith in
              rw e (
                run s addr tid (suc n) p h register_array E.modbus_read_registers at
                  laws.read_registers
                ∙ ap (served s addr tid (suc n) p h register_array) same)
          | inr e ↦ elim (Bool-cases (fc == 4)) [
            | inl f ↦
                let same : E.modbus_read_input_registers ≡ read = ground arith in
                rw (e, f)
                  (run s addr tid (suc n) p h register_array E.modbus_read_input_registers at
                      laws.read_input_registers
                    ∙ ap (served s addr tid (suc n) p h register_array) same)
            | inr f ↦ absurd (ground arith)
          ]
        ])
