-- ===== src/Node/Build.antt =====
-- json/cJSON.c, cJSON_CreateUInt8Array and cJSON_CreateUInt16Array: the first round and the whole
-- array, for either kind of item.
use mathlib.Core.List.{append_assoc}
use modbusd.Prelude.{
  ℕ, zero, suc, ◌≤◌, ◌≡◌, refl, ap, sym, ◌∙◌, ◌⊎◌, inl, inr, none, some, List, [], ◌∷◌, ◌++◌, arith,
  length, get_elem?, take, drop-cons,
}
use modbusd.Prelude.Int.{pos}
use modbusd.Daemon.{Outcome, ok}
use modbusd.Node.{
  Double, Cjson, NodePtr, Heap, CjsonLib, zeroed_node, cjson_array, link_items, create_uint_array,
}
use modbusd.Node.Update.{length-snoc, update-middle}
use modbusd.Node.Chain.{chain_from, array_chain, IsCjson}
use modbusd.Node.Loop.{Fails, loop-chain}

module _ {D : Double} (lib : CjsonLib D) (laws : IsCjson lib)
    (create : D.Value → Heap D → NodePtr × Heap D) (node : NodePtr → ℕ → Cjson D)
    (creates : (n : ℕ) (heap : Heap D)
      → (create (D.of_nat n) heap ≡ (some (length heap), heap ++ node none n ∷ []))
        ⊎ ((create (D.of_nat n) heap ≡ (none, heap)) × (lib.new_item heap ≡ (none, heap))))
    (behind : (p n : ℕ) → record (node none n) { prev = some p } ≡ node (some p) n)
    (numbers : List ℕ) where
  -- The first round hangs the first item under the array.
  module _ (rounds : ℕ) (heap : Heap D) (n : ℕ) (at : get_elem? numbers 0 ≡ some n) where
    abbrev fresh_array : Heap D
    fresh_array = heap ++ record (zeroed_node D) { type = cjson_array } ∷ []

    abbrev filled_array : Heap D
    filled_array =
        heap ++ record (zeroed_node D) { type = cjson_array; child = some (suc (length heap)) } ∷ []

    first-eq :
        create (D.of_nat n) fresh_array
          ≡ (some (length fresh_array), fresh_array ++ node none n ∷ [])
        → link_items lib create numbers (length heap) (suc rounds) 0 none fresh_array
          ≡ link_items lib create numbers
              (length heap)
              rounds
              1
              (some (length filled_array))
              (filled_array ++ node none n ∷ [])
    unfolding link_items
    first-eq e =
        let arr = record (zeroed_node D) { type = cjson_array } in
        let l : length fresh_array ≡ suc (length heap) = length-snoc heap arr in
        let l' : length filled_array ≡ suc (length heap) = length-snoc heap _ in
        rw (at, e, link_items)
          (rw
            (
              e,
              update-middle (λ item. record item { child = some (length fresh_array) }) heap arr
                  (node none n ∷ []),
            )
            (ap
                (λ k. link_items lib create numbers (length heap) rounds 1 (some k) (
                  (heap ++ record (zeroed_node D) { type = cjson_array; child = some k } ∷ [])
                  ++ node none n ∷ []))
                l
              ∙ ap
                  (λ k.
                    link_items lib create numbers (length heap) rounds 1 (some k)
                      (filled_array ++ node none n ∷ []))
                  (sym l')))

    first-fails :
        create (D.of_nat n) fresh_array ≡ (none, fresh_array)
        → link_items lib create numbers (length heap) (suc rounds) 0 none fresh_array
          ≡ ok (none, lib.delete (length heap) fresh_array)
    unfolding link_items
    first-fails e = rw (at, e, link_items) (rw e refl)

    filled-eq :
        (ns : List ℕ)
        → filled_array ++ chain_from node (length filled_array) (node none n) ns
          ≡ heap ++ array_chain node (length heap) (n ∷ ns)
    filled-eq ns =
        ap (λ k. filled_array ++ chain_from node k (node none n) ns) (length-snoc heap _)
        ∙ append_assoc heap _ _

  module _ (heap : Heap D) where
    abbrev Builds : ℕ → Outcome (NodePtr × Heap D) → Type 0
    Builds c o =
        (o ≡ ok (some (length heap), heap ++ array_chain node (length heap) (take c numbers)))
        ⊎ Fails lib o

    items-chain :
        (c : ℕ)
        → c ≤ length numbers
        → Builds c (
            link_items lib create numbers
              (length heap)
              c
              0
              none
              (heap ++ record (zeroed_node D) { type = cjson_array } ∷ []))
    unfolding link_items
    items-chain zero h = inl refl
    items-chain (suc rounds) h =
        let (n, at, rest) = drop-cons numbers 0 (omega arith) in
        let arr = heap ++ record (zeroed_node D) { type = cjson_array } ∷ [] in
        elim (creates n arr) [
          | inr (e, short) ↦
              inr (lib.delete (length heap) arr, first-fails rounds heap n at e, arr, inl short)
          | inl e ↦
              let step = first-eq rounds heap n at e in
              elim (loop-chain lib laws create node creates behind numbers (length heap) rounds 0
                (filled_array rounds heap n at) (node none n) (omega arith)) [
                  | inl f ↦ inl (
                      step
                      ∙ (f
                          ∙ (ap (λ (l : Heap D). ok (some (length heap), l))
                                (filled-eq rounds heap n at _)
                              ∙ ap
                                  (λ l. ok (
                                    some (length heap),
                                    heap ++ array_chain node (length heap) (take (suc rounds) l),
                                  ))
                                  (sym rest))))
                  | inr (out, f, short, why) ↦ inr (out, step ∙ f, short, why)
                ]
        ]

    pub array-chain :
        (c : ℕ) → c ≤ length numbers → Builds c (create_uint_array lib create numbers (pos c) heap)
    array-chain c h = elim (laws.create_array heap) [
      | inl e ↦ rw (e, create_uint_array) (rw e (items-chain c h))
      | inr e ↦ rw (e, create_uint_array) (rw e (inr (heap, refl, heap, inr e)))
    ]
