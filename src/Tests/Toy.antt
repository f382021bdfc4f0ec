-- ===== src/Tests/Toy.antt =====
-- An environment in which every law of `Env/Laws.antt` holds: a slave whose registers count up, an
-- association list for a table, trees for JSON nodes.
use modbusd.Prelude.{
  ℕ, suc, ◌^◌, ◌≡◌, ◌≢◌, refl, sym, ap, ◌∙◌, inl, inr, Option, none, some, List, [], ◌∷◌, ◌++◌,
  Bool, true, false, ◌&&◌, arith, CString, c_str, str_eq, str_eq-eq, str_eq_refl, ltb, length, map,
  if◌then◌else◌, Bool-cases,
}
use modbusd.Prelude.Int.{ℤ, pos, negsuc, ltb_ℤ}
use modbusd.Env.{Env}
use modbusd.Env.Laws.{HashLaws, ModbusLaws, JsonLaws, MallocLaws}
use modbusd.Tests.Trees.{
  Node, number, string, object, array, end, find_member, add_member, members, size_of, item_of,
  items, int_of, text_of, numbers, print_node, parse_word, find_add_self, find_add_ne, item_there,
  int_of-create, int_of-IsInt32,
}

-- The slave: whether it accepts connections, whether it resets them, and how often it was called.
pub record Slave : Type 0 where
  pub up : Bool
  pub resets : Bool
  pub connects : ℕ
  pub calls : ℕ
  pub memory : Bool
  pub files : List (CString × CString)

abbrev counting : ℕ → List ℕ → List ℕ
counting n [] = []
counting n (b ∷ bs) = n ∷ counting (suc n) bs

abbrev refused_or : Slave → ℤ → ℤ
refused_or w ret = if w.resets then negsuc 0 else ret

abbrev called : Slave → Slave
called w = record w { calls = suc w.calls }

-- On success the number of items asked for, if it is positive.
abbrev read : ℕ → ℤ → ℤ → List ℕ → Slave → ℤ × List ℕ × Slave
read ctx addr nb dest w = (refused_or w nb, if w.resets then dest else counting 1 dest, called w)

abbrev Entries : Type 0
Entries = List (List ℕ × ℕ)

abbrev pub find_entry : List ℕ → Entries → Option ℕ
find_entry k [] = none
find_entry k ((j, p) ∷ t) = if str_eq j k then some p else find_entry k t

abbrev second : List ℕ × ℕ → ℕ
second e = e.1

-- The file of a name that was written last.
abbrev pub find_file : CString → List (CString × CString) → Option CString
find_file name [] = none
find_file name ((written, text) ∷ rest) =
    if str_eq written name then some text else find_file name rest

abbrev pub toy : Env
toy = record {
  World = Slave;
  Ctx = ℕ;
  Json = Node;
  Table = Entries;
  modbus_new_tcp_pi = λ ip port w. (if w.memory then some 0 else none, w);
  modbus_set_response_timeout = λ c sec usec w. w;
  modbus_set_slave = λ c slave w. w;
  modbus_connect =
      λ c w. (if w.up then pos 0 else negsuc 0, record w { connects = suc w.connects });
  modbus_read_bits = read;
  modbus_read_input_bits = read;
  modbus_read_registers = read;
  modbus_read_input_registers = read;
  modbus_write_bit = λ c addr v w. (refused_or w (pos 1), called w);
  modbus_write_register = λ c addr v w. (refused_or w (pos 1), called w);
  modbus_write_bits = λ c addr nb b w. (refused_or w nb, called w);
  modbus_write_registers = λ c addr nb b w. (refused_or w nb, called w);
  modbus_strerror = λ e. c_str "error";
  hash_nil = [];
  hash_find = find_entry;
  hash_add = λ k p t. t ++ (k, p) ∷ [];
  hash_order = map second;
  cjson_parse = parse_word;
  cjson_get_object_item = λ o k. elim o [ none ↦ none | some j ↦ find_member (members j) k ];
  cjson_get_array_size = λ j. size_of (items j);
  cjson_get_array_item = λ j i. item_of (items j) i;
  valueint = int_of;
  valuestring = text_of;
  cjson_create_object = object end;
  cjson_create_number = number;
  cjson_create_string = string;
  cjson_create_uint8_array = λ v len. array (numbers v);
  cjson_create_uint16_array = λ v len. array (numbers v);
  cjson_add_item = λ o k v. object (add_member (members o) k v);
  cjson_delete = λ j w. w;
  cjson_print = print_node;
  cjson_print_unformatted = print_node;
  errno = λ w. if w.resets then pos 104 else pos 111;
  malloc = λ n w. (w.memory && ltb n (2 ^ 63), w);
  fresh_byte = λ w i. 0;
  read_file = λ name w. find_file name w.files;
  write_file = λ name text w. some (record w { files = (name, text) ∷ w.files });
  zsocket_new_pub = λ w. (true, w);
  zsocket_bind_sub = λ a w. w;
  zsocket_bind_pub = λ a w. w;
}

find_entry-append :
    (k j : List ℕ) (p : ℕ) (t : Entries)
    → find_entry k t ≡ none
    → find_entry j (t ++ (k, p) ∷ []) ≡ (if str_eq k j then some p else find_entry j t)
find_entry-append k j p [] e = refl
find_entry-append k j p ((i, q) ∷ t) e = elim (Bool-cases (str_eq i j)) [
  | inr f ↦ rw f (find_entry-append k j p t (ground arith))
  | inl f ↦ elim (Bool-cases (str_eq k j)) [
    | inr g ↦ rw (f, g)
    | inl g ↦
        let same : i ≡ k = str_eq-eq i j f ∙ sym (str_eq-eq k j g) in
        absurd (ground (arith, str_eq_refl k, ap (λ x. str_eq x k) same))
  ]
]

map-append_second :
    (k : List ℕ) (p : ℕ) (t : Entries) → map second (t ++ (k, p) ∷ []) ≡ map second t ++ p ∷ []
map-append_second k p [] = refl
map-append_second k p (e ∷ t) = ap (λ l. second e ∷ l) (map-append_second k p t)

str_eq_ne : (k j : List ℕ) → k ≢ j → str_eq k j ≡ false
str_eq_ne k j n = elim (Bool-cases (str_eq k j)) [
  | inl e ↦ absurd (n (str_eq-eq k j e))
  | inr e ↦ e
]

pub toy_hash : HashLaws toy
toy_hash = record {
  find-nil = λ k. refl;
  find-add_self = λ k p t e. ground (arith, find_entry-append k k p t e, str_eq_refl k);
  find-add_ne = λ k j p t e n. ground (arith, find_entry-append k j p t e, str_eq_ne k j n);
  order-nil = refl;
  order-add = map-append_second;
}

length-counting : (n : ℕ) (b : List ℕ) → length (counting n b) ≡ length b
length-counting n [] = refl
length-counting n (x ∷ b) = ap suc (length-counting (suc n) b)

read-IsRead :
    (ctx : ℕ) (addr : ℤ) (nb : ℕ) (dest : List ℕ) (w : Slave)
    → (length (read ctx addr (pos nb) dest w).1 ≡ length dest)
      × (ltb_ℤ (pos nb) (read ctx addr (pos nb) dest w).0 ≡ false)
read-IsRead ctx addr nb dest w = elim (Bool-cases w.resets) [
  | inl e ↦ (rw e, rw e)
  | inr e ↦ (rw e (length-counting 1 dest), rw e (ground arith))
]

pub toy_modbus : ModbusLaws toy
toy_modbus = record {
  read_bits = read-IsRead;
  read_input_bits = read-IsRead;
  read_registers = read-IsRead;
  read_input_registers = read-IsRead;
}

pub toy_json : JsonLaws toy
toy_json = record {
  item-null = λ k. refl;
  item-create = λ k. refl;
  item-add_self = λ o v k e. find_add_self (members o) k v e;
  item-add_ne = λ o v j k n. find_add_ne (members o) j k v (str_eq_ne j k (λ e. n (ap length e)));
  valueint-create = int_of-create;
  valueint-IsInt32 = int_of-IsInt32;
  valuestring-create = λ s. refl;
  array_item = λ d i h. item_there (items d) i h;
}

pub toy_malloc : MallocLaws toy
toy_malloc = record { too_large = λ n w h. ground arith }
