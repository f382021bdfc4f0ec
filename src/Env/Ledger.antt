-- ===== src/Env/Ledger.antt =====
-- The calls of libmodbus as a sequence: what an observer of the library sees of the daemon.
use modbusd.Prelude.{ℕ, ◌≡◌, Option, none, some, List, ◌∷◌, CString, Has}
use modbusd.Prelude.Int.{ℤ}
use modbusd.Env.{Env}

-- A request to a device: libmodbus's function, with its arguments but for the context.
pub data Operation : Type 0 where
  read_bits read_input_bits read_registers read_input_registers : ℤ → ℤ → Operation
  write_bit write_register : ℤ → ℤ → Operation
  write_bits write_registers : ℤ → ℤ → List ℕ → Operation

-- A call on a context. A request comes with what it returns and errno afterwards.
pub data Call (Ctx : Type 0) : Type 0 where
  opens : Ctx → Call Ctx
  sets_timeout : Ctx → ℕ → ℕ → Call Ctx
  sets_slave : Ctx → ℤ → Call Ctx
  connects : Ctx → ℤ → Call Ctx
  requests : Ctx → Operation → ℤ → ℤ → Call Ctx

module _ {Ctx : Type 0} where
  -- modbus_new_tcp_pi that gives NULL opens nothing.
  abbrev pub opened : Option Ctx → List (Call Ctx) → List (Call Ctx)
  opened none l = l
  opened (some c) l = opens c ∷ l

-- The calls that the libraries' state has seen, the latest first: each function of libmodbus adds its
-- call, the others that change the state add none, and modbus_new_tcp_pi gives a new context.
pub record Ledger (E : Env) : Type 0 where
  pub calls : E.World → List (Call E.Ctx)
  pub of_new :
      (ip port : Option CString) (w : E.World)
      → let r = E.modbus_new_tcp_pi ip port w in calls r.1 ≡ opened r.0 (calls w)
  pub fresh :
      (ip port : Option CString) (w : E.World) (c : E.Ctx)
      → (E.modbus_new_tcp_pi ip port w).0 ≡ some c
      → ¬ Has (opens c) (calls w)
  pub of_timeout :
      (c : E.Ctx) (sec usec : ℕ) (w : E.World)
      → calls (E.modbus_set_response_timeout c sec usec w) ≡ sets_timeout c sec usec ∷ calls w
  pub of_slave :
      (c : E.Ctx) (slave : ℤ) (w : E.World)
      → calls (E.modbus_set_slave c slave w) ≡ sets_slave c slave ∷ calls w
  pub of_connect :
      (c : E.Ctx) (w : E.World)
      → let r = E.modbus_connect c w in calls r.1 ≡ connects c r.0 ∷ calls w
  pub of_read_bits :
      (c : E.Ctx) (addr nb : ℤ) (dest : List ℕ) (w : E.World)
      → let (ret, _, v) = E.modbus_read_bits c addr nb dest w in
        calls v ≡ requests c (read_bits addr nb) ret (E.errno v) ∷ calls w
  pub of_read_input_bits :
      (c : E.Ctx) (addr nb : ℤ) (dest : List ℕ) (w : E.World)
      → let (ret, _, v) = E.modbus_read_input_bits c addr nb dest w in
        calls v ≡ requests c (read_input_bits addr nb) ret (E.errno v) ∷ calls w
  pub of_read_registers :
      (c : E.Ctx) (addr nb : ℤ) (dest : List ℕ) (w : E.World)
      → let (ret, _, v) = E.modbus_read_registers c addr nb dest w in
        calls v ≡ requests c (read_registers addr nb) ret (E.errno v) ∷ calls w
  pub of_read_input_registers :
      (c : E.Ctx) (addr nb : ℤ) (dest : List ℕ) (w : E.World)
      → let (ret, _, v) = E.modbus_read_input_registers c addr nb dest w in
        calls v ≡ requests c (read_input_registers addr nb) ret (E.errno v) ∷ calls w
  pub of_write_bit :
      (c : E.Ctx) (addr value : ℤ) (w : E.World)
      → let (ret, v) = E.modbus_write_bit c addr value w in
        calls v ≡ requests c (write_bit addr value) ret (E.errno v) ∷ calls w
  pub of_write_register :
      (c : E.Ctx) (addr value : ℤ) (w : E.World)
      → let (ret, v) = E.modbus_write_register c addr value w in
        calls v ≡ requests c (write_register addr value) ret (E.errno v) ∷ calls w
  pub of_write_bits :
      (c : E.Ctx) (addr nb : ℤ) (values : List ℕ) (w : E.World)
      → let (ret, v) = E.modbus_write_bits c addr nb values w in
        calls v ≡ requests c (write_bits addr nb values) ret (E.errno v) ∷ calls w
  pub of_write_registers :
      (c : E.Ctx) (addr nb : ℤ) (values : List ℕ) (w : E.World)
      → let (ret, v) = E.modbus_write_registers c addr nb values w in
        calls v ≡ requests c (write_registers addr nb values) ret (E.errno v) ∷ calls w
  pub of_malloc : (n : ℕ) (w : E.World) → calls (E.malloc n w).1 ≡ calls w
  pub of_write_file :
      (name text : CString) (w v : E.World) → E.write_file name text w ≡ some v → calls v ≡ calls w
  pub of_new_pub : (w : E.World) → calls (E.zsocket_new_pub w).1 ≡ calls w
  pub of_bind_sub : (name : CString) (w : E.World) → calls (E.zsocket_bind_sub name w) ≡ calls w
  pub of_bind_pub : (name : CString) (w : E.World) → calls (E.zsocket_bind_pub name w) ≡ calls w
