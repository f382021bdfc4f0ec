-- ===== src/Request/Payload.antt =====
-- modbusd.c, `mbtcp_multi_write_req`: the loop that copies the items of `data` into the buffer.
use modbusd.Prelude.{
  ℕ, zero, suc, ◌+◌, ◌*◌, ◌%◌, ◌^◌, ◌≤◌, ◌<◌, ◌≡◌, refl, subst, ◌∙◌, ◌⊎◌, inl, inr, Option, some,
  List, true, arith, tests, ltb, lt→ltb, c_str, length, length-set, length-replicate, get_elem?,
  set, get_elem?-set_self, get_elem?-set_ne, get_elem?-replicate, replicate, ==_iff, ◌==◌,
  Bool-cases,
}
use modbusd.Prelude.Int.{pos, negsuc, to_unsigned}
use modbusd.Env.{Env}
use modbusd.Env.Laws.{JsonLaws, MallocLaws}
use modbusd.Daemon.{Daemon, ok, stop, null_pointer, buffer_overflow, ◌>>=◌}
use modbusd.Request.{size_mod, zeroed_block, copy_items, payload}

module _ {E : Env} (laws : JsonLaws E) (m : ℕ) (items : E.Json) where
  -- The element that item `j` is converted to.
  abbrev pub Converted : List ℕ → ℕ → Type 0
  Converted b j =
      (x : E.Json) × (E.cjson_get_array_item items j ≡ some x)
      × (get_elem? b j ≡ some (to_unsigned m (E.valueint x)))

  -- What the loop has done after the items `i` to `i + rounds`.
  pub record IsCopy (rounds i : ℕ) (buffer b : List ℕ) : Type 0 where
    pub size : length b ≡ length buffer
    pub copied : (j : ℕ) → i ≤ j → j < i + rounds → Converted b j
    pub before : (j : ℕ) → j < i → get_elem? b j ≡ get_elem? buffer j
    pub after : (j : ℕ) → i + rounds ≤ j → get_elem? b j ≡ get_elem? buffer j

  pub copy_items-fits :
      (rounds i : ℕ) (buffer : List ℕ) (s : Daemon E)
      → i + rounds ≤ length buffer
      → i + rounds ≤ E.cjson_get_array_size items
      → (b : List ℕ) × (copy_items E m items rounds i buffer s ≡ ok (b, s))
        × IsCopy rounds i buffer b
  unfolding copy_items ◌>>=◌
  copy_items-fits zero i buffer s h k = (
    buffer,
    refl,
    record {
      size = refl;
      copied = λ j p q. absurd (omega arith);
      before = λ j p. refl;
      after = λ j p. refl;
    },
  )
  copy_items-fits (suc rounds) i buffer s h k =
      let (x, at) = laws.array_item items i (omega arith) in
      let v : ℕ = to_unsigned m (E.valueint x) in
      let written = length-set buffer i v in
      let (b, run, c) =
        copy_items-fits rounds (suc i) (set buffer i v) s (omega (arith, written)) (omega arith) in
      let here : get_elem? b i ≡ some v =
        c.before i (omega arith) ∙ get_elem?-set_self buffer i v (omega arith) in
      (
        b,
        rw (at, lt→ltb i (length buffer) (omega arith)) run,
        record {
          size = c.size ∙ written;
          copied = λ j p q. elim (Bool-cases (i == j)) [
            | inl e ↦ subst (Converted b) ((==_iff i j).0 e) (x, at, here)
            | inr n ↦ c.copied j (ground arith) (omega arith)
          ];
          before =
              λ j p. c.before j (omega arith) ∙ get_elem?-set_ne buffer i j v (λ e. omega (arith));
          after =
              λ j p. c.after j (omega arith) ∙ get_elem?-set_ne buffer i j v (λ e. omega (arith));
        },
      )

  pub copy_items-overflows :
      (rounds i : ℕ) (buffer : List ℕ) (s : Daemon E)
      → i ≤ length buffer
      → length buffer < i + rounds
      → i + rounds ≤ E.cjson_get_array_size items
      → copy_items E m items rounds i buffer s ≡ stop buffer_overflow
  unfolding copy_items ◌>>=◌
  copy_items-overflows zero i buffer s h k l = absurd (omega arith)
  copy_items-overflows (suc rounds) i buffer s h k l =
      let (x, at) = laws.array_item items i (omega arith) in
      let v : ℕ = to_unsigned m (E.valueint x) in
      elim (Bool-cases (ltb i (length buffer))) [
        | inl e ↦
            rw (at, e)
              (copy_items-overflows rounds (suc i) (set buffer i v) s
                (omega (tests, length-set buffer i v)) (omega (tests, length-set buffer i v))
                (omega arith))
        | inr e ↦ rw (at, e)
      ]

-- The bytes of a block of `n` elements of one or two bytes.
block_size :
    (n width : ℕ)
    → n < 2 ^ 31
    → (width ≡ 1) ⊎ (width ≡ 2)
    → to_unsigned size_mod (pos n) * width % size_mod ≡ n * width
block_size n width h (inl e) = rw e (omega arith)
block_size n width h (inr e) = rw e (omega arith)

negative_size :
    (n width : ℕ)
    → n < 2 ^ 31
    → (width ≡ 1) ⊎ (width ≡ 2)
    → 2 ^ 63 ≤ to_unsigned size_mod (negsuc n) * width % size_mod
negative_size n width h (inl e) = rw e (omega arith)
negative_size n width h (inr e) = rw e (omega arith)

module _ {E : Env} (laws : JsonLaws E) (m width n : ℕ) (wide : (width ≡ 1) ⊎ (width ≡ 2))
    (small : n < 2 ^ 31) (req : Option E.Json) (s : Daemon E) where
  zeroed :
      (E.malloc (n * width) s.world).0 ≡ true
      → zeroed_block E (pos n) width s
        ≡ ok (replicate n 0, record s { world = (E.malloc (n * width) s.world).1 })
  unfolding zeroed_block ◌>>=◌
  zeroed got =
      let same : n % size_mod ≡ n = omega arith in rw (block_size n width small wide, got) (rw same)

  module _ (items : E.Json) (there : E.cjson_get_object_item req (c_str "data") ≡ some items)
      (got : (E.malloc (n * width) s.world).0 ≡ true) where
    -- With memory and no more items than `len`, the buffer has `len` elements: the items converted
    -- to the element's type, in order, then zeros.
    pub payload-fits :
        E.cjson_get_array_size items ≤ n
        → (b : List ℕ) × (payload E m width (pos n) req s
            ≡ ok (b, record s { world = (E.malloc (n * width) s.world).1 }))
          × (length b ≡ n)
          × ((j : ℕ) → j < E.cjson_get_array_size items → Converted laws m items b j)
          × ((j : ℕ) → E.cjson_get_array_size items ≤ j → j < n → get_elem? b j ≡ some 0)
    unfolding payload ◌>>=◌
    payload-fits h =
        let t = record s { world = (E.malloc (n * width) s.world).1 } in
        let long = length-replicate {A = ℕ} n 0 in
        let (b, run, c) =
          copy_items-fits laws m items (E.cjson_get_array_size items) 0 (replicate n 0) t
            (omega (arith, long)) (omega arith) in
        (
          b,
          rw (zeroed got, there) run,
          c.size ∙ long,
          λ j p. c.copied j (omega arith) (omega arith),
          λ j p q. c.after j (omega arith) ∙ get_elem?-replicate n j 0 q,
        )

    -- With more items than `len`, the loop writes beyond the buffer.
    pub payload-overflows :
        n < E.cjson_get_array_size items → payload E m width (pos n) req s ≡ stop buffer_overflow
    unfolding payload ◌>>=◌
    payload-overflows h =
        let long = length-replicate {A = ℕ} n 0 in
        rw (zeroed got, there)
          (copy_items-overflows laws m items (E.cjson_get_array_size items) 0 (replicate n 0) _
            (omega arith) (omega (arith, long)) (omega arith))

module _ {E : Env} (laws : MallocLaws E) (m width n : ℕ) (wide : (width ≡ 1) ⊎ (width ≡ 2))
    (small : n < 2 ^ 31) (req : Option E.Json) (s : Daemon E) where
  -- A negative `len` asks malloc for more than it can give, and the memset of NULL ends the run.
  pub payload-negative : payload E m width (negsuc n) req s ≡ stop null_pointer
  unfolding payload zeroed_block ◌>>=◌
  payload-negative = rw (laws.too_large _ s.world (negative_size n width small wide))
