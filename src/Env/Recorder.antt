-- ===== src/Env/Recorder.antt =====
-- Every choice of libraries with a record of the calls of libmodbus beside its state: the ledger's laws
-- can be met whatever the libraries do.
use modbusd.Prelude.{
  ℕ, suc, ◌+◌, ◌<◌, ◌≡◌, refl, Option, none, some, List, [], ◌∷◌, arith, Has, inl, inr,
}
use modbusd.Prelude.Int.{ℤ}
use modbusd.Env.{Env}
use modbusd.Env.Ledger.{
  Operation, Call, opens, sets_timeout, sets_slave, connects, requests, opened, Ledger, read_bits,
  read_input_bits, read_registers, read_input_registers, write_bit, write_register, write_bits,
  write_registers,
}

module _ (E : Env) where
  -- A context with its number.
  abbrev Numbered : Type 0
  Numbered = ℕ × E.Ctx

  pub record Recorded : Type 0 where
    pub world : E.World
    pub calls : List (Call Numbered)

  abbrev pub recording : E.World → Recorded
  recording w = record { world = w; calls = [] }

  -- A number above those of the contexts that have been opened.
  abbrev next_number : List (Call Numbered) → ℕ
  next_number [] = 0
  next_number (opens (n, _) ∷ l) = suc n + next_number l
  next_number (_ ∷ l) = next_number l

  abbrev with_new : Option E.Ctx → E.World → List (Call Numbered) → Option Numbered × Recorded
  with_new none w l = (none, record { world = w; calls = l })
  with_new (some c) w l =
      let n = next_number l in (some (n, c), record { world = w; calls = opens (n, c) ∷ l })

  abbrev with_request : Numbered → Operation → ℤ → E.World → List (Call Numbered) → Recorded
  with_request c op ret w l = record { world = w; calls = requests c op ret (E.errno w) ∷ l }

  abbrev with_read :
      Numbered → Operation → ℤ × List ℕ × E.World → List (Call Numbered) → ℤ × List ℕ × Recorded
  with_read c op r l = (r.0, r.1, with_request c op r.0 r.2 l)

  abbrev with_write : Numbered → Operation → ℤ × E.World → List (Call Numbered) → ℤ × Recorded
  with_write c op r l = (r.0, with_request c op r.0 r.1 l)

  abbrev same_calls : {A : Type 0} → A × E.World → List (Call Numbered) → A × Recorded
  same_calls r l = (r.0, record { world = r.1; calls = l })

  abbrev written : Option E.World → List (Call Numbered) → Option Recorded
  written none l = none
  written (some w) l = some (record { world = w; calls = l })

  abbrev pub recorded : Env
  recorded = record {
    World = Recorded;
    Ctx = Numbered;
    Json = E.Json;
    Table = E.Table;
    modbus_new_tcp_pi =
        λ ip port s. let r = E.modbus_new_tcp_pi ip port s.world in with_new r.0 r.1 s.calls;
    modbus_set_response_timeout = λ c sec usec s. record {
      world = E.modbus_set_response_timeout c.1 sec usec s.world;
      calls = sets_timeout c sec usec ∷ s.calls;
    };
    modbus_set_slave = λ c slave s. record {
      world = E.modbus_set_slave c.1 slave s.world;
      calls = sets_slave c slave ∷ s.calls;
    };
    modbus_connect = λ c s.
        let r = E.modbus_connect c.1 s.world in
        (r.0, record { world = r.1; calls = connects c r.0 ∷ s.calls });
    modbus_read_bits = λ c addr nb dest s.
        with_read c (read_bits addr nb) (E.modbus_read_bits c.1 addr nb dest s.world) s.calls;
    modbus_read_input_bits = λ c addr nb dest s.
        with_read c (read_input_bits addr nb) (E.modbus_read_input_bits c.1 addr nb dest s.world)
          s.calls;
    modbus_read_registers = λ c addr nb dest s.
        with_read c (read_registers addr nb) (E.modbus_read_registers c.1 addr nb dest s.world)
          s.calls;
    modbus_read_input_registers = λ c addr nb dest s.
        with_read c (read_input_registers addr nb)
          (E.modbus_read_input_registers c.1 addr nb dest s.world) s.calls;
    modbus_write_bit = λ c addr value s.
        with_write c (write_bit addr value) (E.modbus_write_bit c.1 addr value s.world) s.calls;
    modbus_write_register = λ c addr value s.
        with_write c (write_register addr value) (E.modbus_write_register c.1 addr value s.world)
          s.calls;
    modbus_write_bits = λ c addr nb values s.
        with_write c (write_bits addr nb values) (E.modbus_write_bits c.1 addr nb values s.world)
          s.calls;
    modbus_write_registers = λ c addr nb values s.
        with_write c (write_registers addr nb values)
          (E.modbus_write_registers c.1 addr nb values s.world) s.calls;
    modbus_strerror = E.modbus_strerror;
    hash_nil = E.hash_nil;
    hash_find = E.hash_find;
    hash_add = E.hash_add;
    hash_order = E.hash_order;
    cjson_parse = E.cjson_parse;
    cjson_get_object_item = E.cjson_get_object_item;
    cjson_get_array_size = E.cjson_get_array_size;
    cjson_get_array_item = E.cjson_get_array_item;
    valueint = E.valueint;
    valuestring = E.valuestring;
    cjson_create_object = E.cjson_create_object;
    cjson_create_number = E.cjson_create_number;
    cjson_create_string = E.cjson_create_string;
    cjson_create_uint8_array = E.cjson_create_uint8_array;
    cjson_create_uint16_array = E.cjson_create_uint16_array;
    cjson_add_item = E.cjson_add_item;
    cjson_print = E.cjson_print;
    cjson_print_unformatted = E.cjson_print_unformatted;
    cjson_delete = λ j s. record s { world = E.cjson_delete j s.world };
    errno = λ s. E.errno s.world;
    malloc = λ n s. same_calls (E.malloc n s.world) s.calls;
    fresh_byte = λ s i. E.fresh_byte s.world i;
    read_file = λ name s. E.read_file name s.world;
    write_file = λ name text s. written (E.write_file name text s.world) s.calls;
    zsocket_new_pub = λ s. same_calls (E.zsocket_new_pub s.world) s.calls;
    zsocket_bind_sub = λ name s. record s { world = E.zsocket_bind_sub name s.world };
    zsocket_bind_pub = λ name s. record s { world = E.zsocket_bind_pub name s.world };
  }

  pub below_next :
      (n : ℕ) (c : E.Ctx) (l : List (Call Numbered)) → Has (opens (n, c)) l → n < next_number l
  below_next n c [] there = absurd there
  below_next n c (opens (m, d) ∷ l) (inl e) = ground arith
  below_next n c (opens (m, d) ∷ l) (inr there) = let ih = below_next n c l there in omega arith
  below_next n c (sets_timeout d sec usec ∷ l) (inl e) = ground arith
  below_next n c (sets_timeout d sec usec ∷ l) (inr there) = below_next n c l there
  below_next n c (sets_slave d slave ∷ l) (inl e) = ground arith
  below_next n c (sets_slave d slave ∷ l) (inr there) = below_next n c l there
  below_next n c (connects d r ∷ l) (inl e) = ground arith
  below_next n c (connects d r ∷ l) (inr there) = below_next n c l there
  below_next n c (requests d op r err ∷ l) (inl e) = ground arith
  below_next n c (requests d op r err ∷ l) (inr there) = below_next n c l there

  pub new_calls :
      (o : Option E.Ctx) (w : E.World) (l : List (Call Numbered))
      → (with_new o w l).1.calls ≡ opened (with_new o w l).0 l
  new_calls none w l = refl
  new_calls (some c) w l = refl

  pub new_fresh :
      (o : Option E.Ctx) (w : E.World) (l : List (Call Numbered)) (c : Numbered)
      → (with_new o w l).0 ≡ some c
      → ¬ Has (opens c) l
  new_fresh none w l c e there = ground arith
  new_fresh (some d) w l (n, c) e there =
      let same : next_number l ≡ n = ground arith in
      let below = below_next n c l there in omega arith

  pub written_calls :
      (o : Option E.World) (l : List (Call Numbered)) (v : Recorded)
      → written o l ≡ some v
      → v.calls ≡ l
  written_calls none l v e = ground arith
  written_calls (some w) l v e = ground arith

  unfoldable pub recorded_ledger : Ledger recorded
  recorded_ledger = record {
    calls = λ s. s.calls;
    of_new = λ ip port s. new_calls _ _ s.calls;
    fresh = λ ip port s c e. new_fresh _ _ s.calls c e;
    of_timeout = λ c sec usec s. refl;
    of_slave = λ c slave s. refl;
    of_connect = λ c s. refl;
    of_read_bits = λ c addr nb dest s. refl;
    of_read_input_bits = λ c addr nb dest s. refl;
    of_read_registers = λ c addr nb dest s. refl;
    of_read_input_registers = λ c addr nb dest s. refl;
    of_write_bit = λ c addr value s. refl;
    of_write_register = λ c addr value s. refl;
    of_write_bits = λ c addr nb values s. refl;
    of_write_registers = λ c addr nb values s. refl;
    of_malloc = λ n s. refl;
    of_write_file = λ name text s v e. written_calls _ s.calls v e;
    of_new_pub = λ s. refl;
    of_bind_sub = λ name s. refl;
    of_bind_pub = λ name s. refl;
  }
