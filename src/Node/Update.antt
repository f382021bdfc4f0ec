-- ===== src/Node/Update.antt =====
-- Assignments to a node at the end of the heap, and to the node before it.
use modbusd.Prelude.{
  suc, ◌≡◌, refl, ap, some, List, [], ◌∷◌, ◌++◌, arith, length, length-append, get_elem?,
  get_elem?-append_end, set, set-append_end,
}
use modbusd.Node.{Double, Cjson, Heap, update}

module _ {A : Type 0} where
  get_elem?-middle :
      (xs ys : List A) (a : A) → get_elem? ((xs ++ a ∷ []) ++ ys) (length xs) ≡ some a
  get_elem?-middle [] ys a = refl
  get_elem?-middle (x ∷ xs) ys a = get_elem?-middle xs ys a

  set-middle :
      (xs ys : List A) (a b : A) → set ((xs ++ a ∷ []) ++ ys) (length xs) b ≡ (xs ++ b ∷ []) ++ ys
  set-middle [] ys a b = refl
  set-middle (x ∷ xs) ys a b = ap (λ (l : List A). x ∷ l) (set-middle xs ys a b)

  pub length-snoc : (xs : List A) (a : A) → length (xs ++ a ∷ []) ≡ suc (length xs)
  length-snoc xs a = omega (arith, length-append xs (a ∷ []))

module _ {D : Double} (f : Cjson D → Cjson D) (xs : Heap D) (a : Cjson D) where
  pub update-end : update f (length xs) (xs ++ a ∷ []) ≡ xs ++ f a ∷ []
  update-end = rw (get_elem?-append_end xs a, update) (set-append_end xs a (f a))

  pub update-middle :
      (ys : Heap D) → update f (length xs) ((xs ++ a ∷ []) ++ ys) ≡ (xs ++ f a ∷ []) ++ ys
  update-middle ys = rw (get_elem?-middle xs ys a, update) (set-middle xs ys a (f a))
