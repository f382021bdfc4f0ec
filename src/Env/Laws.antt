-- ===== src/Env/Laws.antt =====
-- What modbusd relies on in the libraries, as their documentation states it. A theorem that needs
-- one of these records takes it as a hypothesis; `Tests/Toy.antt` has an environment that meets all.
use modbusd.Prelude.{
  ℕ, ◌^◌, ◌≤◌, ◌<◌, ◌≡◌, ◌≢◌, none, some, List, [], ◌∷◌, ◌++◌, false, CString, length,
}
use modbusd.Prelude.Int.{ℤ, pos, ltb_ℤ, IsInt32}
use modbusd.Env.Defs.{Env}

module _ (E : Env) where
  -- uthash: a key is added once; a table lists its entries in the order of their insertion.
  pub record HashLaws : Type 0 where
    pub find-nil : (k : List ℕ) → E.hash_find k E.hash_nil ≡ none
    pub find-add_self :
        (k : List ℕ) (p : ℕ) (t : E.Table)
        → E.hash_find k t ≡ none
        → E.hash_find k (E.hash_add k p t) ≡ some p
    pub find-add_ne :
        (k j : List ℕ) (p : ℕ) (t : E.Table)
        → E.hash_find k t ≡ none
        → k ≢ j
        → E.hash_find j (E.hash_add k p t) ≡ E.hash_find j t
    pub order-nil : E.hash_order E.hash_nil ≡ []
    pub order-add :
        (k : List ℕ) (p : ℕ) (t : E.Table)
        → E.hash_order (E.hash_add k p t) ≡ E.hash_order t ++ p ∷ []

  -- libmodbus: a read keeps within the buffer and returns at most the number of items asked for.
  abbrev pub IsRead : (E.Ctx → ℤ → ℤ → List ℕ → E.World → ℤ × List ℕ × E.World) → Type 0
  IsRead read =
      (ctx : E.Ctx) (addr : ℤ) (nb : ℕ) (dest : List ℕ) (w : E.World)
      → (length (read ctx addr (pos nb) dest w).1 ≡ length dest)
        × (ltb_ℤ (pos nb) (read ctx addr (pos nb) dest w).0 ≡ false)

  pub record ModbusLaws : Type 0 where
    pub read_bits : IsRead E.modbus_read_bits
    pub read_input_bits : IsRead E.modbus_read_input_bits
    pub read_registers : IsRead E.modbus_read_registers
    pub read_input_registers : IsRead E.modbus_read_input_registers

  -- cJSON: a member is found by its name, the first one of that name; names of different lengths
  -- are different; NULL has no members.
  pub record JsonLaws : Type 0 where
    pub item-null : (k : CString) → E.cjson_get_object_item none k ≡ none
    pub item-create : (k : CString) → E.cjson_get_object_item (some E.cjson_create_object) k ≡ none
    pub item-add_self :
        (o v : E.Json) (k : CString)
        → E.cjson_get_object_item (some o) k ≡ none
        → E.cjson_get_object_item (some (E.cjson_add_item o k v)) k ≡ some v
    pub item-add_ne :
        (o v : E.Json) (j k : CString)
        → length j ≢ length k
        → E.cjson_get_object_item (some (E.cjson_add_item o j v)) k
          ≡ E.cjson_get_object_item (some o) k
    pub valueint-create : (n : ℤ) → IsInt32 n → E.valueint (E.cjson_create_number n) ≡ n
    pub valueint-IsInt32 : (j : E.Json) → IsInt32 (E.valueint j)
    pub valuestring-create : (s : CString) → E.valuestring (E.cjson_create_string s) ≡ some s
    pub array_item :
        (d : E.Json) (i : ℕ)
        → i < E.cjson_get_array_size d
        → (j : E.Json) × (E.cjson_get_array_item d i ≡ some j)

  -- malloc: no block of 2^63 bytes or more.
  pub record MallocLaws : Type 0 where
    pub too_large : (n : ℕ) (w : E.World) → 2 ^ 63 ≤ n → (E.malloc n w).0 ≡ false
