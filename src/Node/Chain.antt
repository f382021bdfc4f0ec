-- ===== src/Node/Chain.antt =====
-- The chain of nodes that an array of numbers is meant to be, built directly, and what is relied on
-- in cJSON's own functions.
use modbusd.Prelude.{
  ℕ, zero, suc, ◌^◌, ◌<◌, ◌≡◌, refl, ◌⊎◌, Option, none, some, List, [], ◌∷◌, ◌++◌, arith, length,
  get_elem?,
}
use modbusd.Prelude.Int.{pos}
use modbusd.Node.{
  Double, DoubleLaws, Cjson, NodePtr, Heap, CjsonLib, zeroed_node, cjson_number, cjson_array,
  update,
}

module _ {D : Double} where
  -- The node of a number, behind `prev`.
  abbrev pub uint8_node : NodePtr → ℕ → Cjson D
  uint8_node prev n = record (zeroed_node D) {
    prev = prev;
    type = cjson_number;
    valuedouble = D.of_nat n;
    valueuint8 = D.to_uint8 (D.of_nat n);
  }

  abbrev pub uint16_node : NodePtr → ℕ → Cjson D
  uint16_node prev n = record (zeroed_node D) {
    prev = prev;
    type = cjson_number;
    valuedouble = D.of_nat n;
    valueuint16 = D.to_uint16 (D.of_nat n);
  }

  -- The nodes from `last`, at address `p`, on: each but the last has its successor at the next
  -- address, and each new one its predecessor.
  abbrev pub chain_from : (NodePtr → ℕ → Cjson D) → ℕ → Cjson D → List ℕ → List (Cjson D)
  chain_from node p last [] = last ∷ []
  chain_from node p last (n ∷ ns) =
      record last { next = some (suc p) } ∷ chain_from node (suc p) (node (some p) n) ns

  -- The array's node at address `a` and the chain of its items.
  abbrev pub array_chain : (NodePtr → ℕ → Cjson D) → ℕ → List ℕ → List (Cjson D)
  array_chain node a [] = record (zeroed_node D) { type = cjson_array } ∷ []
  array_chain node a (n ∷ ns) =
      record (zeroed_node D) { type = cjson_array; child = some (suc a) }
      ∷ chain_from node (suc a) (node none n) ns

  -- cJSON's own functions. A new item is a zeroed node at a fresh address, unless there is no memory;
  -- an array is such an item with its type; `suffix_object` sets the two links.
  pub record IsCjson (lib : CjsonLib D) : Type 0 where
    pub new_item :
        (heap : Heap D)
        → (lib.new_item heap ≡ (some (length heap), heap ++ zeroed_node D ∷ []))
          ⊎ (lib.new_item heap ≡ (none, heap))
    pub create_array :
        (heap : Heap D)
        → (lib.create_array heap
            ≡ (some (length heap), heap ++ record (zeroed_node D) { type = cjson_array } ∷ []))
          ⊎ (lib.create_array heap ≡ (none, heap))
    pub suffix_object :
        (p q : ℕ) (heap : Heap D)
        → p < length heap
        → q < length heap
        → lib.suffix_object p q heap
          ≡ update
              (λ item. record item { prev = some p })
              q
              (update (λ item. record item { next = some q }) p heap)

module _ {D : Double} (laws : DoubleLaws D) where
  -- A node that carries a number: as a double and in its own field, but not in `valueint`.
  abbrev pub Carries : (Cjson D → ℕ) → Option (Cjson D) → ℕ → Type 0
  Carries field o n =
      (item : Cjson D) × (o ≡ some item)
      × (item.type ≡ cjson_number)
      × (item.valuedouble ≡ D.of_nat n)
      × (field item ≡ n)
      × (item.valueint ≡ pos 0)

  module _ (node : NodePtr → ℕ → Cjson D) (field : Cjson D → ℕ) (w : ℕ)
      (carries : (prev next : NodePtr) (n : ℕ)
        → n < w
        → Carries field (some (record (node prev n) { next = next })) n)
      (plain : (prev : NodePtr) (n : ℕ) → record (node prev n) { next = none } ≡ node prev n) where
    chain_items :
        (ns : List ℕ) (p : ℕ) (prev : NodePtr) (m i n : ℕ)
        → get_elem? (m ∷ ns) i ≡ some n
        → n < w
        → Carries field (get_elem? (chain_from node p (node prev m) ns) i) n
    chain_items [] p prev m zero n e h =
        let same : m ≡ n = ground arith in rw same (rw (plain prev n) at (carries prev none n h))
    chain_items [] p prev m (suc i) n e h = ground arith
    chain_items (k ∷ ns) p prev m zero n e h =
        let same : m ≡ n = ground arith in rw same (carries prev (some (suc p)) n h)
    chain_items (k ∷ ns) p prev m (suc i) n e h = chain_items ns (suc p) (some p) k i n e h

    array_items :
        (ns : List ℕ) (a i n : ℕ)
        → get_elem? ns i ≡ some n
        → n < w
        → Carries field (get_elem? (array_chain node a ns) (suc i)) n
    array_items [] a i n e h = ground arith
    array_items (m ∷ ns) a i n e h = chain_items ns (suc a) none m i n e h

  pub uint8_items :
      (ns : List ℕ) (a i n : ℕ)
      → get_elem? ns i ≡ some n
      → n < 2 ^ 8
      → Carries (λ item. item.valueuint8) (get_elem? (array_chain uint8_node a ns) (suc i)) n
  uint8_items ns a i n e h =
      array_items uint8_node (λ item. item.valueuint8) (2 ^ 8)
        (λ prev next m k. (_, refl, refl, refl, laws.uint8_back m k, refl)) (λ prev m. refl) ns a i
        n e h

  pub uint16_items :
      (ns : List ℕ) (a i n : ℕ)
      → get_elem? ns i ≡ some n
      → n < 2 ^ 16
      → Carries (λ item. item.valueuint16) (get_elem? (array_chain uint16_node a ns) (suc i)) n
  uint16_items ns a i n e h =
      array_items uint16_node (λ item. item.valueuint16) (2 ^ 16)
        (λ prev next m k. (_, refl, refl, refl, laws.uint16_back m k, refl)) (λ prev m. refl) ns a i
        n e h
