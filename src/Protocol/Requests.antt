-- ===== src/Protocol/Requests.antt =====
-- modbusd.c, the requests: each makes at most one request, on the context on which the slave was set.
use modbusd.Prelude.{ℕ, if◌then◌else◌, ◌≡◌, some, Option, List, ◌∷◌, Bool}
use modbusd.Prelude.Int.{ℤ}
use modbusd.Env.{Env}
use modbusd.Env.Ledger.{
  Operation, requests, Ledger, read_bits, read_input_bits, read_registers, read_input_registers,
  write_bit, write_register, write_bits, write_registers,
}
use modbusd.Daemon.{M, load, call, call_buffer, pure, ◌>>=◌}
use modbusd.Daemon.Closed.{Holds}
use modbusd.Daemon.Between.{Between, made, Between-bind, Between-pure, Between-if}
use modbusd.Json.Holds.{json_get_int-Holds}
use modbusd.Handle.Connect.{load-at}
use modbusd.Request.{
  read_reply, write_reply, mbtcp_read_bit_req, mbtcp_read_reg_req, mbtcp_single_write_req,
  mbtcp_multi_write_req,
}
use modbusd.Request.Holds.{zeroed_array-Holds, payload-Holds}
use modbusd.Protocol.{IsSound}
use modbusd.Protocol.Answers.{
  IsSelected, IsSound-selected, IsSelected-Plain, write_reply_at, read_reply_at,
}

module _ {E : Env} (ledger : Ledger E) (p : ℕ) where
  -- From a handle that is selected to handles that agree with the calls.
  abbrev pub Requesting : {A : Type 0} → M E A → Type 0
  Requesting m = Holds (Between (IsSelected ledger p) (IsSound ledger)) m

  read_call :
      (f : E.Ctx → E.World → ℤ × List ℕ × E.World) (op : Operation)
      → ((c : E.Ctx) (w : E.World)
          → ledger.calls (f c w).2 ≡ requests c op (f c w).0 (E.errno (f c w).2) ∷ ledger.calls w)
      → (tid len : ℤ) (to_array : List ℕ → E.Json)
      → Requesting (
          load E (some p) >>= λ h.
          call_buffer E (f h.ctx) >>= λ r. read_reply E (some p) tid len to_array r)
  unfolding ◌>>=◌
  read_call f op law tid len to_array = made λ s i. rw (load-at s p i.handle i.at) (
      read_reply_at ledger p s i op (f i.handle.ctx s.world).0 (f i.handle.ctx s.world).2
        (law i.handle.ctx s.world) tid len to_array (f i.handle.ctx s.world).1)

  write_call :
      (f : E.Ctx → E.World → ℤ × E.World) (op : Operation)
      → ((c : E.Ctx) (w : E.World)
          → ledger.calls (f c w).1 ≡ requests c op (f c w).0 (E.errno (f c w).1) ∷ ledger.calls w)
      → (tid : ℤ)
      → Requesting
          (load E (some p) >>= λ h. call E (f h.ctx) >>= λ ret. write_reply E (some p) tid ret)
  unfolding ◌>>=◌
  write_call f op law tid = made λ s i. rw (load-at s p i.handle i.at) (
      write_reply_at ledger p s i op (f i.handle.ctx s.world).0 (f i.handle.ctx s.world).1
        (law i.handle.ctx s.world) tid)

  refused : {A : Type 0} (a : A) → Requesting (pure {E = E} a)
  refused a = Between-pure a (IsSound-selected ledger p)

  prepared :
      {A B : Type 0} (m : M E A) (k : A → M E B)
      → Holds (Between (IsSelected ledger p) (IsSelected ledger p)) m
      → ((a : A) → Requesting (k a))
      → Requesting (m >>= k)
  prepared m k hm hk = Between-bind m k hm hk

  either :
      {A : Type 0} (b : Bool) (m k : M E A)
      → Requesting m
      → Requesting k
      → Requesting (if b then m else k)
  either b m k hm hk = Between-if b m k hm hk

  ruleset prepare_rules =
      (prepared, either, refused, json_get_int-Holds, zeroed_array-Holds, payload-Holds)

  bits_call :
      (addr len tid : ℤ) (bits : List ℕ)
      → Requesting (
          load E (some p) >>= λ h. call_buffer E (E.modbus_read_bits h.ctx addr len bits) >>= λ r.
          read_reply E (some p) tid len (λ v. E.cjson_create_uint8_array v len) r)
  bits_call addr len tid bits =
      read_call (λ c. E.modbus_read_bits c addr len bits) (read_bits addr len)
        (λ c w. ledger.of_read_bits c addr len bits w) tid len _

  input_bits_call :
      (addr len tid : ℤ) (bits : List ℕ)
      → Requesting (
          load E (some p) >>= λ h.
          call_buffer E (E.modbus_read_input_bits h.ctx addr len bits) >>= λ r.
          read_reply E (some p) tid len (λ v. E.cjson_create_uint8_array v len) r)
  input_bits_call addr len tid bits =
      read_call (λ c. E.modbus_read_input_bits c addr len bits) (read_input_bits addr len)
        (λ c w. ledger.of_read_input_bits c addr len bits w) tid len _

  pub mbtcp_read_bit_req-Requesting :
      (fc : ℕ) (req : Option E.Json) → Requesting (mbtcp_read_bit_req E fc (some p) req)
  unfolding mbtcp_read_bit_req
  mbtcp_read_bit_req-Requesting fc req =
      let plain = IsSelected-Plain ledger p in
      search (bits_call, input_bits_call, prepare_rules, plain) depth 12

  registers_call :
      (addr len tid : ℤ) (regs : List ℕ)
      → Requesting (
          load E (some p) >>= λ h.
          call_buffer E (E.modbus_read_registers h.ctx addr len regs) >>= λ r.
          read_reply E (some p) tid len (λ v. E.cjson_create_uint16_array v len) r)
  registers_call addr len tid regs =
      read_call (λ c. E.modbus_read_registers c addr len regs) (read_registers addr len)
        (λ c w. ledger.of_read_registers c addr len regs w) tid len _

  input_registers_call :
      (addr len tid : ℤ) (regs : List ℕ)
      → Requesting (
          load E (some p) >>= λ h.
          call_buffer E (E.modbus_read_input_registers h.ctx addr len regs) >>= λ r.
          read_reply E (some p) tid len (λ v. E.cjson_create_uint16_array v len) r)
  input_registers_call addr len tid regs =
      read_call (λ c. E.modbus_read_input_registers c addr len regs) (read_input_registers addr len)
        (λ c w. ledger.of_read_input_registers c addr len regs w) tid len _

  pub mbtcp_read_reg_req-Requesting :
      (fc : ℕ) (req : Option E.Json) → Requesting (mbtcp_read_reg_req E fc (some p) req)
  unfolding mbtcp_read_reg_req
  mbtcp_read_reg_req-Requesting fc req =
      let plain = IsSelected-Plain ledger p in
      search (registers_call, input_registers_call, prepare_rules, plain) depth 12

  bit_call :
      (addr value tid : ℤ)
      → Requesting (
          load E (some p) >>= λ h.
          call E (E.modbus_write_bit h.ctx addr value) >>= λ ret. write_reply E (some p) tid ret)
  bit_call addr value tid =
      write_call (λ c. E.modbus_write_bit c addr value) (write_bit addr value)
        (λ c w. ledger.of_write_bit c addr value w) tid

  register_call :
      (addr value tid : ℤ)
      → Requesting (
          load E (some p) >>= λ h. call E (E.modbus_write_register h.ctx addr value) >>= λ ret.
          write_reply E (some p) tid ret)
  register_call addr value tid =
      write_call (λ c. E.modbus_write_register c addr value) (write_register addr value)
        (λ c w. ledger.of_write_register c addr value w) tid

  pub mbtcp_single_write_req-Requesting :
      (fc : ℕ) (req : Option E.Json) → Requesting (mbtcp_single_write_req E fc (some p) req)
  unfolding mbtcp_single_write_req
  mbtcp_single_write_req-Requesting fc req =
      let plain = IsSelected-Plain ledger p in
      search (bit_call, register_call, prepare_rules, plain) depth 12

  write_bits_call :
      (addr len tid : ℤ) (bits : List ℕ)
      → Requesting (
          load E (some p) >>= λ h. call E (E.modbus_write_bits h.ctx addr len bits) >>= λ ret.
          write_reply E (some p) tid ret)
  write_bits_call addr len tid bits =
      write_call (λ c. E.modbus_write_bits c addr len bits) (write_bits addr len bits)
        (λ c w. ledger.of_write_bits c addr len bits w) tid

  write_registers_call :
      (addr len tid : ℤ) (regs : List ℕ)
      → Requesting (
          load E (some p) >>= λ h. call E (E.modbus_write_registers h.ctx addr len regs) >>= λ ret.
          write_reply E (some p) tid ret)
  write_registers_call addr len tid regs =
      write_call (λ c. E.modbus_write_registers c addr len regs) (write_registers addr len regs)
        (λ c w. ledger.of_write_registers c addr len regs w) tid

  pub mbtcp_multi_write_req-Requesting :
      (fc : ℕ) (req : Option E.Json) → Requesting (mbtcp_multi_write_req E fc (some p) req)
  unfolding mbtcp_multi_write_req
  mbtcp_multi_write_req-Requesting fc req =
      let plain = IsSelected-Plain ledger p in
      search (write_bits_call, write_registers_call, prepare_rules, plain) depth 12
