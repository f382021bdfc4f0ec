-- ===== src/Tests/Nodes.antt =====
-- Instances of the theorems on cJSON's nodes, with a cJSON that never runs out of memory.
use modbusd.Prelude.{
  ℕ, suc, ◌+◌, ◌%◌, ◌^◌, ◌≡◌, refl, ◌⊎◌, inl, some, List, [], ◌∷◌, ◌++◌, arith, length, get_elem?,
  take,
}
use modbusd.Prelude.Int.{pos}
use modbusd.Daemon.{ok}
use modbusd.Node.{
  Double, DoubleLaws, Heap, CjsonLib, zeroed_node, cjson_array, update, link_items,
  cjson_create_uint8, cjson_create_uint16, cjson_create_uint8_array, cjson_create_uint16_array,
}
use modbusd.Node.Chain.{IsCjson, Carries, uint8_node, uint16_node, array_chain}
use modbusd.Node.Items.{uint_items}
use modbusd.Node.Loop.{Fails}
use modbusd.Node.Array.{uint_arrays-chain}

-- The doubles that occur: natural numbers.
abbrev double : Double
double = record {
  Value = ℕ;
  zero_value = 0;
  of_nat = λ n. n;
  to_uint8 = λ n. n % 2 ^ 8;
  to_uint16 = λ n. n % 2 ^ 16;
}

double_laws : DoubleLaws double
double_laws = record { uint8_back = λ n h. omega arith; uint16_back = λ n h. omega arith }

abbrev cjson : CjsonLib double
cjson = record {
  new_item = λ heap. (some (length heap), heap ++ zeroed_node double ∷ []);
  create_array =
      λ heap. (some (length heap), heap ++ record (zeroed_node double) { type = cjson_array } ∷ []);
  delete = λ p heap. heap;
  suffix_object = λ p q heap.
      update (λ item. record item { prev = some p }) q
        (update (λ item. record item { next = some q }) p heap);
}

cjson-IsCjson : IsCjson cjson
cjson-IsCjson = record {
  new_item = λ heap. inl refl;
  create_array = λ heap. inl refl;
  suffix_object = λ p q heap h h'. refl;
}

abbrev registers : List ℕ
registers = 7 ∷ 300 ∷ 9 ∷ 1 ∷ []

abbrev one_node : Heap double
one_node = zeroed_node double ∷ []

uint_arrays-chain_example :
    ((cjson_create_uint8_array cjson registers (pos 3) one_node
        ≡ ok (some 1, one_node ++ array_chain uint8_node 1 (take 3 registers)))
      ⊎ Fails cjson (cjson_create_uint8_array cjson registers (pos 3) one_node))
    × ((cjson_create_uint16_array cjson registers (pos 3) one_node
          ≡ ok (some 1, one_node ++ array_chain uint16_node 1 (take 3 registers)))
        ⊎ Fails cjson (cjson_create_uint16_array cjson registers (pos 3) one_node))
uint_arrays-chain_example = uint_arrays-chain cjson cjson-IsCjson registers 3 (omega arith) one_node

abbrev bytes_heap : Heap double
bytes_heap = one_node ++ array_chain uint8_node 1 (7 ∷ 300 ∷ 9 ∷ [])

abbrev words_heap : Heap double
words_heap = one_node ++ array_chain uint16_node 1 (7 ∷ 300 ∷ 9 ∷ [])

bytes_created : cjson_create_uint8_array cjson registers (pos 3) one_node ≡ ok (some 1, bytes_heap)
unfolding cjson_create_uint8_array link_items cjson_create_uint8
bytes_created = refl

words_created : cjson_create_uint16_array cjson registers (pos 3) one_node ≡ ok (some 1, words_heap)
unfolding cjson_create_uint16_array link_items cjson_create_uint16
words_created = refl

uint_items_example :
    Carries double_laws (λ item. item.valueuint8) (get_elem? bytes_heap (1 + suc 2)) 9
    × Carries double_laws (λ item. item.valueuint16) (get_elem? words_heap (1 + suc 1)) 300
uint_items_example =
    uint_items double_laws cjson cjson-IsCjson registers 3 one_node 1 1 bytes_heap words_heap
      (omega arith) bytes_created words_created 2 1 9 300 (omega arith) (omega arith) refl refl
      (omega arith) (omega arith)
