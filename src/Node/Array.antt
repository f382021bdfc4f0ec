-- ===== src/Node/Array.antt =====
-- json/cJSON.c, cJSON_CreateUInt8Array and cJSON_CreateUInt16Array: the loop builds the chain.
use modbusd.Prelude.{
  ℕ, ◌≤◌, ◌≡◌, refl, ap, ◌⊎◌, inl, inr, none, some, List, [], ◌∷◌, ◌++◌, length, take,
}
use modbusd.Prelude.Int.{pos}
use modbusd.Daemon.{ok}
use modbusd.Node.{
  Double, Heap, CjsonLib, zeroed_node, created, cjson_create_uint8, cjson_create_uint16,
  cjson_create_uint8_array, cjson_create_uint16_array,
}
use modbusd.Node.Update.{update-end}
use modbusd.Node.Chain.{uint8_node, uint16_node, array_chain, IsCjson}
use modbusd.Node.Loop.{Fails}
use modbusd.Node.Build.{array-chain}

module _ {D : Double} (lib : CjsonLib D) (laws : IsCjson lib) where
  creates_uint8 :
      (n : ℕ) (heap : Heap D)
      → (cjson_create_uint8 lib (D.of_nat n) heap
          ≡ (some (length heap), heap ++ uint8_node none n ∷ []))
        ⊎ ((cjson_create_uint8 lib (D.of_nat n) heap ≡ (none, heap))
            × (lib.new_item heap ≡ (none, heap)))
  unfolding cjson_create_uint8
  creates_uint8 n heap = elim (laws.new_item heap) [
    | inl e ↦
        inl
          (rw (e, created) (ap (λ l. (some (length heap), l)) (update-end _ heap (zeroed_node D))))
    | inr e ↦ inr (rw (e, created) refl, e)
  ]

  creates_uint16 :
      (n : ℕ) (heap : Heap D)
      → (cjson_create_uint16 lib (D.of_nat n) heap
          ≡ (some (length heap), heap ++ uint16_node none n ∷ []))
        ⊎ ((cjson_create_uint16 lib (D.of_nat n) heap ≡ (none, heap))
            × (lib.new_item heap ≡ (none, heap)))
  unfolding cjson_create_uint16
  creates_uint16 n heap = elim (laws.new_item heap) [
    | inl e ↦
        inl
          (rw (e, created) (ap (λ l. (some (length heap), l)) (update-end _ heap (zeroed_node D))))
    | inr e ↦ inr (rw (e, created) refl, e)
  ]

  module _ (numbers : List ℕ) (c : ℕ) (h : c ≤ length numbers) (heap : Heap D) where
    -- Both array functions, on a count that the array of numbers has, meet no fault. Unless an
    -- allocation fails, which gives NULL, the result is the chain built directly: behind the heap as
    -- it was, the array's node and then one node for each of the first `count` numbers, in order,
    -- with the links in both directions.
    pub uint_arrays-chain :
        ((cjson_create_uint8_array lib numbers (pos c) heap
            ≡ ok
                (some (length heap), heap ++ array_chain uint8_node (length heap) (take c numbers)))
          ⊎ Fails lib (cjson_create_uint8_array lib numbers (pos c) heap))
        × ((cjson_create_uint16_array lib numbers (pos c) heap
              ≡ ok (
                some (length heap),
                heap ++ array_chain uint16_node (length heap) (take c numbers),
              ))
            ⊎ Fails lib (cjson_create_uint16_array lib numbers (pos c) heap))
    unfolding cjson_create_uint8_array cjson_create_uint16_array
    uint_arrays-chain = (
      array-chain lib laws (cjson_create_uint8 lib) uint8_node creates_uint8 (λ p n. refl) numbers
          heap c h,
      array-chain lib laws (cjson_create_uint16 lib) uint16_node creates_uint16 (λ p n. refl)
          numbers heap c h,
    )
