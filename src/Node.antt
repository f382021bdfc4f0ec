-- ===== src/Node.antt =====
-- The arrays of unsigned numbers, which the repository has added to its copy of cJSON ("taka add" in
-- json/cJSON.h and json/cJSON.c), on cJSON's nodes in memory. What these functions call of cJSON
-- itself is a parameter.
pub mod Chain
pub mod Update
pub mod Loop
pub mod Build
pub mod Array
pub mod Items
use modbusd.Prelude.{
  ℕ, zero, suc, ◌+◌, ◌%◌, ◌^◌, ◌<◌, ◌≡◌, ◌≢◌, Option, none, some, List, [], ◌∷◌, ◌++◌, CString,
  length, get_elem?, set,
}
use modbusd.Prelude.Int.{ℤ, pos, negsuc}
use modbusd.Daemon.{Outcome, ok, stop, null_pointer, buffer_overflow}

-- double, with the conversions that the additions use: from an unsigned integer, and to one of two
-- widths.
pub record Double : Type 1 where
  pub Value : Type 0
  pub zero_value : Value
  pub of_nat : ℕ → Value
  pub to_uint8 : Value → ℕ
  pub to_uint16 : Value → ℕ

-- An integer that a double holds exactly is converted back to itself.
pub record DoubleLaws (D : Double) : Type 0 where
  pub uint8_back : (n : ℕ) → n < 2 ^ 8 → D.to_uint8 (D.of_nat n) ≡ n
  pub uint16_back : (n : ℕ) → n < 2 ^ 16 → D.to_uint16 (D.of_nat n) ≡ n

-- A pointer to a node: its position in the heap.
abbrev pub NodePtr : Type 0
NodePtr = Option ℕ

-- struct cJSON.
pub record Cjson (D : Double) : Type 0 where
  pub next : NodePtr
  pub prev : NodePtr
  pub child : NodePtr
  pub type : ℕ
  pub valuestring : Option CString
  pub valueuint8 : ℕ
  pub valueuint16 : ℕ
  pub valueint : ℤ
  pub valuedouble : D.Value
  pub string : Option CString

-- cJSON_Number
abbrev pub cjson_number : ℕ
cjson_number = 2 ^ 3

-- cJSON_Array
abbrev pub cjson_array : ℕ
cjson_array = 2 ^ 5

-- A node after memset.
abbrev pub zeroed_node : (D : Double) → Cjson D
zeroed_node D = record {
  next = none;
  prev = none;
  child = none;
  type = 0;
  valuestring = none;
  valueuint8 = 0;
  valueuint16 = 0;
  valueint = pos 0;
  valuedouble = D.zero_value;
  string = none;
}

abbrev pub Heap : Double → Type 0
Heap D = List (Cjson D)

-- The functions of cJSON that the additions call.
pub record CjsonLib (D : Double) : Type 0 where
  pub new_item : Heap D → NodePtr × Heap D
  pub create_array : Heap D → NodePtr × Heap D
  pub delete : ℕ → Heap D → Heap D
  pub suffix_object : ℕ → ℕ → Heap D → Heap D

module _ {D : Double} where
  -- An assignment to the node at an address; no address outside the heap is dereferenced below.
  abbrev pub update : (Cjson D → Cjson D) → ℕ → Heap D → Heap D
  update f p heap = elim (get_elem? heap p) [ some node ↦ set heap p (f node) | none ↦ heap ]

  -- `if (item) { … } return item;`
  abbrev pub created : (Cjson D → Cjson D) → NodePtr × Heap D → NodePtr × Heap D
  created f (none, heap) = (none, heap)
  created f (some p, heap) = (some p, update f p heap)

module _ {D : Double} (lib : CjsonLib D) where
  unfoldable pub cjson_create_uint8 : D.Value → Heap D → NodePtr × Heap D
  cjson_create_uint8 num heap =
      created
        (λ item. record item {
          type = cjson_number;
          valuedouble = num;
          valueuint8 = D.to_uint8 num;
        })
        (lib.new_item heap)

  unfoldable pub cjson_create_uint16 : D.Value → Heap D → NodePtr × Heap D
  cjson_create_uint16 num heap =
      created
        (λ item. record item {
          type = cjson_number;
          valuedouble = num;
          valueuint16 = D.to_uint16 num;
        })
        (lib.new_item heap)

  -- `if (!i) a->child = n; else suffix_object (p, n);`
  abbrev pub attach : ℕ → ℕ → NodePtr → ℕ → Heap D → Outcome (Heap D)
  attach a zero p n heap = ok (update (λ item. record item { child = some n }) a heap)
  attach a (suc i) (some p) n heap = ok (lib.suffix_object p n heap)
  attach a (suc i) none n heap = stop null_pointer

  -- The loop from round `i` on, with the rounds that are left and the last node `p`: the returned
  -- pointer. `numbers[i]` is read from an array of that many numbers.
  module _ (create : D.Value → Heap D → NodePtr × Heap D) (numbers : List ℕ) (a : ℕ) where
    unfoldable pub link_items : ℕ → ℕ → NodePtr → Heap D → Outcome (NodePtr × Heap D)
    link_items zero i p heap = ok (some a, heap)
    link_items (suc rounds) i p heap = elim (get_elem? numbers i) [
      | none ↦ stop buffer_overflow
      | some number ↦
          let (n, made) = create (D.of_nat number) heap in
          elim n [
            | none ↦ ok (none, lib.delete a made)
            | some q ↦ elim (attach a i p q made) [
              | ok linked ↦ link_items rounds (suc i) (some q) linked
              | stop e ↦ stop e
            ]
          ]
    ]

  -- The rounds of `for (i = 0; i < count; i++)`.
  abbrev pub rounds_of : ℤ → ℕ
  rounds_of (pos n) = n
  rounds_of (negsuc n) = 0

  abbrev pub create_uint_array :
      (D.Value → Heap D → NodePtr × Heap D) → List ℕ → ℤ → Heap D → Outcome (NodePtr × Heap D)
  create_uint_array create numbers count heap =
      let (a, made) = lib.create_array heap in
      elim a [
        | none ↦ ok (none, made)
        | some p ↦ link_items create numbers p (rounds_of count) 0 none made
      ]

  unfoldable pub cjson_create_uint8_array : List ℕ → ℤ → Heap D → Outcome (NodePtr × Heap D)
  cjson_create_uint8_array numbers count heap =
      create_uint_array cjson_create_uint8 numbers count heap

  unfoldable pub cjson_create_uint16_array : List ℕ → ℤ → Heap D → Outcome (NodePtr × Heap D)
  cjson_create_uint16_array numbers count heap =
      create_uint_array cjson_create_uint16 numbers count heap
