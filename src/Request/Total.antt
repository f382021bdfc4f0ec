-- ===== src/Request/Total.antt =====
-- Requests with well formed arguments: each handler returns on every handle that is there.
use modbusd.Prelude.{
  ℕ, suc, ◌*◌, ◌^◌, ◌≤◌, ◌<◌, ◌≡◌, Option, some, true, arith, CString, c_str, get_elem?,
}
use modbusd.Prelude.Int.{ℤ, pos}
use modbusd.Env.{Env}
use modbusd.Env.Laws.{JsonLaws, ModbusLaws}
use modbusd.Daemon.{Daemon, Handle, Outcome, ok}
use modbusd.Json.Fields.{HasInt}
use modbusd.Request.{
  mbtcp_read_bit_req, mbtcp_read_reg_req, mbtcp_single_write_req, mbtcp_multi_write_req,
}
use modbusd.Request.Reads.{Reader, bit_reader, register_reader, read_bit_answers, read_reg_answers}
use modbusd.Request.Writes.{
  single_write_answers, multi_write_bits_answers, multi_write_registers_answers,
}

module _ (E : Env) where
  -- A read of at least one item and at most `limit`.
  pub record ReadArguments (limit : ℕ) (req : Option E.Json) : Type 0 where
    pub addr : ℤ
    pub n : ℕ
    pub few : suc n ≤ limit
    pub has_addr : HasInt E req (c_str "addr") addr
    pub has_len : HasInt E req (c_str "len") (pos (suc n))

  -- A write of one value.
  pub record WriteArguments (req : Option E.Json) : Type 0 where
    pub addr : ℤ
    pub value : ℤ
    pub has_addr : HasInt E req (c_str "addr") addr
    pub has_data : HasInt E req (c_str "data") value

  -- A write of no more items than `len`.
  pub record MultiArguments (req : Option E.Json) : Type 0 where
    pub addr : ℤ
    pub n : ℕ
    pub values : E.Json
    pub small : n < 2 ^ 31
    pub fits : E.cjson_get_array_size values ≤ n
    pub has_addr : HasInt E req (c_str "addr") addr
    pub has_len : HasInt E req (c_str "len") (pos n)
    pub has_data : E.cjson_get_object_item req (c_str "data") ≡ some values

  -- malloc has memory for every block below 2^63 bytes.
  abbrev pub HasMemory : Type 0
  HasMemory = (n : ℕ) (w : E.World) → n < 2 ^ 63 → (E.malloc n w).0 ≡ true

  -- A handler that returns on every handle that is there.
  abbrev pub Total :
      (Option ℕ → Option E.Json → Daemon E → Outcome (CString × Daemon E)) → Option E.Json → Type 0
  Total fc req =
      (p : ℕ) (h : Handle E) (s : Daemon E)
      → get_elem? s.handles p ≡ some h
      → (r : CString × Daemon E) × (fc (some p) req s ≡ ok r)

module _ {E : Env} (req : Option E.Json) (tid : ℤ) (has_tid : HasInt E req (c_str "tid") tid) where
  module _ (modbus : ModbusLaws E) where
    pub read_bit-Total :
        (fc : ℕ) (read : Reader E)
        → bit_reader E fc ≡ some read
        → ReadArguments E 2000 req
        → Total E (mbtcp_read_bit_req E fc) req
    read_bit-Total fc read reads a p h s at = (
      _,
      read_bit_answers modbus fc req s a.addr tid a.n a.has_addr a.has_len has_tid p h at read a.few
          reads,
    )

    pub read_reg-Total :
        (fc : ℕ) (read : Reader E)
        → register_reader E fc ≡ some read
        → ReadArguments E 125 req
        → Total E (mbtcp_read_reg_req E fc) req
    read_reg-Total fc read reads a p h s at = (
      _,
      read_reg_answers modbus fc req s a.addr tid a.n a.has_addr a.has_len has_tid p h at read a.few
          reads,
    )

  pub single_write-Total :
      WriteArguments E req
      → Total E (mbtcp_single_write_req E 5) req × Total E (mbtcp_single_write_req E 6) req
  single_write-Total a = (
    λ p h s at.
        (_, (single_write_answers req s a.addr tid a.value a.has_addr has_tid a.has_data p h at).0),
    λ p h s at.
        (_, (single_write_answers req s a.addr tid a.value a.has_addr has_tid a.has_data p h at).1),
  )

  pub multi_write-Total :
      JsonLaws E
      → HasMemory E
      → MultiArguments E req
      → Total E (mbtcp_multi_write_req E 15) req × Total E (mbtcp_multi_write_req E 16) req
  multi_write-Total json memory a =
      let m : a.n < 2 ^ 31 = a.small in
      (
        λ p h s at.
            let (b, _, e) =
              multi_write_bits_answers json req s a.addr tid a.n a.small a.has_addr a.has_len
                has_tid a.values a.has_data p h at (memory (a.n * 1) s.world (omega arith))
                a.fits in
            (_, e),
        λ p h s at.
            let (b, _, e) =
              multi_write_registers_answers json req s a.addr tid a.n a.small a.has_addr a.has_len
                has_tid a.values a.has_data p h at (memory (a.n * 2) s.world (omega arith))
                a.fits in
            (_, e),
      )
