-- ===== src/Node/Items.antt =====
-- json/cJSON.c: what the items of the created arrays hold.
use modbusd.Prelude.{
  ℕ, zero, suc, ◌+◌, ◌^◌, ◌<◌, ◌≤◌, ◌≡◌, refl, ap, ◌∙◌, ◌⊎◌, inl, inr, some, List, [], ◌∷◌, ◌++◌,
  arith, length, get_elem?, take,
}
use modbusd.Prelude.Int.{pos}
use modbusd.Daemon.{Outcome, ok}
use modbusd.Node.{
  Double, DoubleLaws, Cjson, NodePtr, Heap, CjsonLib, cjson_create_uint8_array,
  cjson_create_uint16_array,
}
use modbusd.Node.Chain.{
  uint8_node, uint16_node, array_chain, IsCjson, Carries, uint8_items, uint16_items,
}
use modbusd.Node.Loop.{Fails}
use modbusd.Node.Array.{uint_arrays-chain}

module _ {A : Type 0} where
  get_elem?-append_right :
      (xs ys : List A) (k i : ℕ) → k ≡ length xs + i → get_elem? (xs ++ ys) k ≡ get_elem? ys i
  get_elem?-append_right [] ys k i h = let same : k ≡ i = omega arith in ap (get_elem? ys) same
  get_elem?-append_right (x ∷ xs) ys zero i h = absurd (omega arith)
  get_elem?-append_right (x ∷ xs) ys (suc k) i h = get_elem?-append_right xs ys k i (omega arith)

  get_elem?-take : (xs : List A) (n i : ℕ) → i < n → get_elem? (take n xs) i ≡ get_elem? xs i
  get_elem?-take xs zero i h = absurd (omega arith)
  get_elem?-take [] (suc n) i h = refl
  get_elem?-take (x ∷ xs) (suc n) zero h = refl
  get_elem?-take (x ∷ xs) (suc n) (suc i) h = get_elem?-take xs n i (omega arith)

module _ {D : Double} (lib : CjsonLib D) where
  -- An array that was created is the chain.
  made :
      (heap : Heap D) (chain : List (Cjson D)) (o : Outcome (NodePtr × Heap D))
      → (o ≡ ok (some (length heap), heap ++ chain)) ⊎ Fails lib o
      → (a : ℕ) (out : Heap D) → o ≡ ok (some a, out)
      → (a ≡ length heap) × (out ≡ heap ++ chain)
  made heap chain o (inl e) a out f = (ground arith, ground arith)
  made heap chain o (inr (h, e, _, _)) a out f = ground arith

module _ {D : Double} (doubles : DoubleLaws D) (lib : CjsonLib D) (laws : IsCjson lib) where
  -- The item at place `i` of a created array, for any chain of nodes that carry their numbers.
  item_at :
      (field : Cjson D → ℕ) (heap : Heap D) (numbers : List ℕ) (c : ℕ)
      (node : NodePtr → ℕ → Cjson D)
      → (o : Outcome (NodePtr × Heap D))
      → (o ≡ ok (some (length heap), heap ++ array_chain node (length heap) (take c numbers)))
        ⊎ Fails lib o
      → (a : ℕ) (out : Heap D) → o ≡ ok (some a, out)
      → (i n : ℕ)
      → Carries doubles field
          (get_elem? (array_chain node (length heap) (take c numbers)) (suc i))
          n
      → Carries doubles field (get_elem? out (a + suc i)) n
  item_at field heap numbers c node o built a out e i n carries =
      let chain = array_chain node (length heap) (take c numbers) in
      let (at, whole) = made lib heap chain o built a out e in
      let place : get_elem? (heap ++ chain) (a + suc i) ≡ get_elem? chain (suc i) =
        get_elem?-append_right heap chain (a + suc i) (suc i) (omega arith) in
      rw (whole, place) carries

  -- Both array functions, when they give an array: behind its node, the item for each place below the
  -- count carries the number of that place, as its double and in the field of its width, for numbers
  -- of that width. Its `valueint`, which `json_get_int` reads, is 0.
  pub uint_items :
      (numbers : List ℕ) (c : ℕ) (heap : Heap D) (a b : ℕ) (out8 out16 : Heap D)
      → c ≤ length numbers
      → cjson_create_uint8_array lib numbers (pos c) heap ≡ ok (some a, out8)
      → cjson_create_uint16_array lib numbers (pos c) heap ≡ ok (some b, out16)
      → (i j n m : ℕ) → i < c
      → j < c
      → get_elem? numbers i ≡ some n
      → get_elem? numbers j ≡ some m
      → n < 2 ^ 8
      → m < 2 ^ 16
      → Carries doubles (λ item. item.valueuint8) (get_elem? out8 (a + suc i)) n
        × Carries doubles (λ item. item.valueuint16) (get_elem? out16 (b + suc j)) m
  uint_items numbers c heap a b out8 out16 h e8 e16 i j n m hi hj at8 at16 small8 small16 =
      let (built8, built16) = uint_arrays-chain lib laws numbers c h heap in
      (
        item_at (λ item. item.valueuint8) heap numbers c uint8_node _ built8 a out8 e8 i n
            (uint8_items doubles (take c numbers) (length heap) i n
              (get_elem?-take numbers c i hi ∙ at8) small8),
        item_at (λ item. item.valueuint16) heap numbers c uint16_node _ built16 b out16 e16 j m
            (uint16_items doubles (take c numbers) (length heap) j m
              (get_elem?-take numbers c j hj ∙ at16) small16),
      )
