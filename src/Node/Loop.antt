-- ===== src/Node/Loop.antt =====
-- json/cJSON.c, the loop of cJSON_CreateUInt8Array and cJSON_CreateUInt16Array: one round behind the
-- last node, and the rounds after the first.
use mathlib.Core.List.{append_assoc}
use modbusd.Prelude.{
  ℕ, zero, suc, ◌+◌, ◌≤◌, ◌≡◌, refl, ap, sym, ◌∙◌, ◌⊎◌, inl, inr, none, some, List, [], ◌∷◌, ◌++◌,
  arith, length, get_elem?, take, drop, drop-cons,
}
use modbusd.Daemon.{Outcome, ok}
use modbusd.Node.{Double, Cjson, NodePtr, Heap, CjsonLib, update, link_items}
use modbusd.Node.Update.{length-snoc, update-end, update-middle}
use modbusd.Node.Chain.{chain_from, IsCjson}

module _ {D : Double} (lib : CjsonLib D) where
  -- NULL, because a node could not be allocated.
  abbrev pub Fails : Outcome (NodePtr × Heap D) → Type 0
  Fails o =
      (out : Heap D) × (o ≡ ok (none, out))
      × (short : Heap D) × ((lib.new_item short ≡ (none, short))
          ⊎ (lib.create_array short ≡ (none, short)))

module _ {D : Double} (lib : CjsonLib D) (laws : IsCjson lib)
    (create : D.Value → Heap D → NodePtr × Heap D) (node : NodePtr → ℕ → Cjson D)
    (creates : (n : ℕ) (heap : Heap D)
      → (create (D.of_nat n) heap ≡ (some (length heap), heap ++ node none n ∷ []))
        ⊎ ((create (D.of_nat n) heap ≡ (none, heap)) × (lib.new_item heap ≡ (none, heap))))
    (behind : (p n : ℕ) → record (node none n) { prev = some p } ≡ node (some p) n)
    (numbers : List ℕ) where
  -- The two links between the last node and the new one.
  suffix-links :
      (pre : Heap D) (last : Cjson D) (n : ℕ)
      → lib.suffix_object
          (length pre)
          (length (pre ++ last ∷ []))
          ((pre ++ last ∷ []) ++ node none n ∷ [])
        ≡ (pre ++ record last { next = some (suc (length pre)) } ∷ [])
          ++ node (some (length pre)) n ∷ []
  suffix-links pre last n =
      let p = length pre in
      let linked = record last { next = some (length (pre ++ last ∷ [])) } in
      let l : length (pre ++ last ∷ []) ≡ suc p = length-snoc pre last in
      let l' : length (pre ++ linked ∷ []) ≡ suc p = length-snoc pre linked in
      let m = length-snoc (pre ++ last ∷ []) (node none n) in
      laws.suffix_object p (length (pre ++ last ∷ [])) _ (omega arith) (omega arith)
      ∙ (ap (update (λ item. record item { prev = some p }) (length (pre ++ last ∷ []))) (
            update-middle (λ item. record item { next = some (length (pre ++ last ∷ [])) }) pre last
              (node none n ∷ []))
          ∙ (ap
                (λ k.
                  update (λ item. record item { prev = some p }) k
                    ((pre ++ linked ∷ []) ++ node none n ∷ []))
                (l ∙ sym l')
              ∙ (update-end (λ item. record item { prev = some p }) (pre ++ linked ∷ [])
                    (node none n)
                  ∙ (ap
                        (λ k.
                          (pre ++ record last { next = some k } ∷ [])
                          ++ record (node none n) { prev = some p } ∷ [])
                        l
                      ∙ ap (λ x. (pre ++ record last { next = some (suc p) } ∷ []) ++ x ∷ [])
                          (behind p n)))))

  module _ (a : ℕ) where
    -- One round behind the node `last`.
    module _ (rounds i : ℕ) (pre : Heap D) (last : Cjson D) (n : ℕ)
        (at : get_elem? numbers (suc i) ≡ some n) where
      abbrev before : Heap D
      before = pre ++ last ∷ []

      abbrev linked : Heap D
      linked = pre ++ record last { next = some (suc (length pre)) } ∷ []

      round-eq :
          create (D.of_nat n) before ≡ (some (length before), before ++ node none n ∷ [])
          → link_items lib create numbers a (suc rounds) (suc i) (some (length pre)) before
            ≡ link_items lib create numbers a rounds
                (suc (suc i))
                (some (length linked))
                (linked ++ node (some (length pre)) n ∷ [])
      unfolding link_items
      round-eq e =
          let same : length before ≡ length linked =
            length-snoc pre last ∙ sym (length-snoc pre _) in
          rw (at, e, link_items)
            (rw (e, suffix-links pre last n)
              (ap
                (λ k.
                  link_items lib create numbers a rounds (suc (suc i)) (some k)
                    (linked ++ node (some (length pre)) n ∷ []))
                same))

      round-fails :
          create (D.of_nat n) before ≡ (none, before)
          → link_items lib create numbers a (suc rounds) (suc i) (some (length pre)) before
            ≡ ok (none, lib.delete a before)
      unfolding link_items
      round-fails e = rw (at, e, link_items) (rw e refl)

      chain-eq :
          (ns : List ℕ)
          → linked ++ chain_from node (length linked) (node (some (length pre)) n) ns
            ≡ pre ++ chain_from node (length pre) last (n ∷ ns)
      chain-eq ns =
          ap (λ k. linked ++ chain_from node k (node (some (length pre)) n) ns) (length-snoc pre _)
          ∙ append_assoc pre _ _

    pub loop-chain :
        (rounds i : ℕ) (pre : Heap D) (last : Cjson D)
        → suc i + rounds ≤ length numbers
        → (link_items lib create numbers a rounds (suc i) (some (length pre)) (pre ++ last ∷ [])
            ≡ ok (
              some a,
              pre ++ chain_from node (length pre) last (take rounds (drop (suc i) numbers)),
            ))
          ⊎ Fails lib (
              link_items lib create numbers a rounds (suc i) (some (length pre)) (pre ++ last ∷ []))
    unfolding link_items
    loop-chain zero i pre last h = inl refl
    loop-chain (suc rounds) i pre last h =
        let (n, at, rest) = drop-cons numbers (suc i) (omega arith) in
        elim (creates n (pre ++ last ∷ [])) [
          | inr (e, short) ↦ inr (
            lib.delete a (pre ++ last ∷ []),
            round-fails rounds i pre last n at e,
            pre ++ last ∷ [],
            inl short,
          )
          | inl e ↦
              let step = round-eq rounds i pre last n at e in
              elim (loop-chain rounds (suc i) (linked rounds i pre last n at)
                (node (some (length pre)) n) (omega arith)) [
                  | inl f ↦ inl (
                      step
                      ∙ (f
                          ∙ (ap (λ (l : Heap D). ok (some a, l)) (chain-eq rounds i pre last n at _)
                              ∙ ap
                                  (λ l. ok (
                                    some a,
                                    pre ++ chain_from node (length pre) last (take (suc rounds) l),
                                  ))
                                  (sym rest))))
                  | inr (out, f, short, why) ↦ inr (out, step ∙ f, short, why)
                ]
        ]
