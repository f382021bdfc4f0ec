-- ===== src/Handle/Registry.antt =====
-- The table and the heap of handles of modbusd.c: what holds between them, and how they grow.
use modbusd.Prelude.{
  zero, suc, [], ◌∷◌, ◌+◌, ◌++◌, length-set, length-append, ℕ, ◌≡◌, ◌≢◌, refl, sym, ap, ◌∙◌, ◌⊎◌,
  inl, inr, none, some, List, Bool, false, arith, length, get_elem?, set, get_elem?-lt,
  get_elem?-set_self, get_elem?-set_ne, get_elem?-set_inv, get_elem?-append_left,
  get_elem?-append_end, get_elem?-append_inv, str_eq, str_eq-eq, str_eq_refl, Bool-cases, ==_iff,
  ◌==◌,
}
use modbusd.Env.{Env}
use modbusd.Env.Laws.{HashLaws}
use modbusd.Key.{Key, key_bytes}
use modbusd.Daemon.{Daemon, Handle}
use modbusd.Daemon.Moves.{Neutral}
use modbusd.Handle.{with_handle}

-- The addresses of the first `n` handles.
abbrev pub upto_from : ℕ → ℕ → List ℕ
upto_from i zero = []
upto_from i (suc n) = i ∷ upto_from (suc i) n

abbrev pub upto : ℕ → List ℕ
upto n = upto_from 0 n

upto_from_snoc : (i n : ℕ) → upto_from i n ++ (i + n) ∷ [] ≡ upto_from i (suc n)
upto_from_snoc i zero = let e : i + 0 ≡ i = omega arith in ap (λ j. j ∷ []) e
upto_from_snoc i (suc n) =
    let e : i + suc n ≡ suc i + n = omega arith in
    ap (λ (l : List ℕ). i ∷ l)
      (ap (λ j. upto_from (suc i) n ++ j ∷ []) e ∙ upto_from_snoc (suc i) n)

upto_snoc : (n : ℕ) → upto n ++ n ∷ [] ≡ upto (suc n)
upto_snoc n = let e : n ≡ 0 + n = omega arith in ap (λ j. upto n ++ j ∷ []) e ∙ upto_from_snoc 0 n

module _ {E : Env} where
  -- The table finds each handle under its key, finds nothing else, and lists the handles in the
  -- order in which they were made.
  pub record IsRegistry (s : Daemon E) : Type 0 where
    pub registered :
        (p : ℕ) (h : Handle E)
        → get_elem? s.handles p ≡ some h
        → E.hash_find (key_bytes h.key) s.mbtcp_htable ≡ some p
    pub present :
        (k : List ℕ) (p : ℕ)
        → E.hash_find k s.mbtcp_htable ≡ some p
        → (h : Handle E) × (get_elem? s.handles p ≡ some h) × (key_bytes h.key ≡ k)
    pub order : E.hash_order s.mbtcp_htable ≡ upto (length s.handles)

  -- A handle that is there stays at its address, with its key and its context.
  abbrev pub Stays : Daemon E → Daemon E → Type 0
  Stays s t =
      (p : ℕ) (h : Handle E)
      → get_elem? s.handles p ≡ some h
      → (h' : Handle E) × (get_elem? t.handles p ≡ some h') × (h'.key ≡ h.key) × (h'.ctx ≡ h.ctx)

  -- What a call may do to the daemon, seen from outside the table: the registry stays sound, handles
  -- stay, nothing is published and the configuration is the same.
  pub record Grows (s t : Daemon E) : Type 0 where
    pub registry : IsRegistry s → IsRegistry t
    pub stays : Stays s t
    pub quiet : t.sent ≡ s.sent
    pub config : t.config_json ≡ s.config_json

  pub Grows-refl : (s : Daemon E) → Grows s s
  Grows-refl s = record {
    registry = λ r. r;
    stays = λ p h e. (h, e, refl, refl);
    quiet = refl;
    config = refl;
  }

  pub Grows-trans : (s t u : Daemon E) → Grows s t → Grows t u → Grows s u
  Grows-trans s t u g g' = record {
    registry = λ r. g'.registry (g.registry r);
    stays = λ p h e.
        let (h', e', k, c) = g.stays p h e in
        let (h'', e'', k', c') = g'.stays p h' e' in (h'', e'', k' ∙ k, c' ∙ c);
    quiet = g'.quiet ∙ g.quiet;
    config = g'.config ∙ g.config;
  }

  pub Grows-world : (s : Daemon E) (w : E.World) → Grows s (record s { world = w })
  Grows-world s w = record {
    registry = λ r. record { registered = r.registered; present = r.present; order = r.order };
    stays = λ p h e. (h, e, refl, refl);
    quiet = refl;
    config = refl;
  }

  pub Grows-Neutral : Neutral Grows
  Grows-Neutral = record {
    order = record { reflexive = Grows-refl; transitive = Grows-trans };
    world = Grows-world;
  }

  -- An assignment to another variable.
  pub Grows-same :
      (s t : Daemon E)
      → t.handles ≡ s.handles
      → t.mbtcp_htable ≡ s.mbtcp_htable
      → t.sent ≡ s.sent
      → t.config_json ≡ s.config_json
      → Grows s t
  Grows-same s t e f q c = record {
    registry = λ r. record {
      registered = λ p h q. rw f (r.registered p h (rw (← e) q));
      present = λ k p q. rw e (r.present k p (rw (← f) q));
      order = rw (e, f) r.order;
    };
    stays = λ p h q. (h, rw e q, refl, refl);
    quiet = q;
    config = c;
  }

  module _ (s : Daemon E) (p : ℕ) (h : Handle E) (at : get_elem? s.handles p ≡ some h)
      (b : Bool) where
    written : Daemon E
    written = record s { handles = set s.handles p (record h { connected = b }) }

    registered_after :
        IsRegistry s
        → (q : ℕ) (g : Handle E) → get_elem? written.handles q ≡ some g
        → E.hash_find (key_bytes g.key) s.mbtcp_htable ≡ some q
    unfolding written
    registered_after r q g e = elim (get_elem?-set_inv s.handles p q e) [
      | inl (i, f) ↦ rw (f, ← i) (r.registered p h at)
      | inr f ↦ r.registered q g f
    ]

    Stays-after : Stays s written
    unfolding written
    Stays-after q g e = elim (Bool-cases (p == q)) [
      | inl i ↦
          let same : p ≡ q = (==_iff p q).0 i in
          let g-h : g ≡ h = ground (arith, ap (get_elem? s.handles) same) in
          (
            record h { connected = b },
            rw (← same) (get_elem?-set_self s.handles p _ (get_elem?-lt s.handles p at)),
            ap (λ (x : Handle E). x.key) (sym g-h),
            ap (λ (x : Handle E). x.ctx) (sym g-h),
          )
      | inr i ↦ (g, get_elem?-set_ne s.handles p q _ (ground arith) ∙ e, refl, refl)
    ]

    present_after :
        IsRegistry s
        → (k : List ℕ) (q : ℕ) → E.hash_find k s.mbtcp_htable ≡ some q
        → (g : Handle E) × (get_elem? written.handles q ≡ some g) × (key_bytes g.key ≡ k)
    present_after r k q e =
        let (g, f, i) = r.present k q e in
        let (g', f', j, _) = Stays-after q g f in (g', f', ap key_bytes j ∙ i)

    pub Grows-set_connected :
        Grows s (record s { handles = set s.handles p (record h { connected = b }) })
    unfolding written
    Grows-set_connected = record {
      registry = λ r. record {
        registered = registered_after r;
        present = present_after r;
        order = r.order ∙ ap upto (sym (length-set s.handles p _));
      };
      stays = Stays-after;
      quiet = refl;
      config = refl;
    }

-- What the table finds stays found, at the same address.
pub found_stays :
    {E : Env} (s t : Daemon E)
    → IsRegistry s
    → Grows s t
    → (k : List ℕ) (p : ℕ) → E.hash_find k s.mbtcp_htable ≡ some p
    → E.hash_find k t.mbtcp_htable ≡ some p
found_stays s t r g k p e =
    let (h, at, i) = r.present k p e in
    let (h', at', j, _) = g.stays p h at in rw (← i, ← j) ((g.registry r).registered p h' at')

module _ {E : Env} (laws : HashLaws E) (s : Daemon E) (key : Key) (ctx : E.Ctx)
    (fresh : E.hash_find (key_bytes key) s.mbtcp_htable ≡ none) where
  new : Handle E
  new = record { key = key; connected = false; ctx = ctx }

  -- A handle of the table has another key than the new one.
  other_key : (k : List ℕ) (p : ℕ) → E.hash_find k s.mbtcp_htable ≡ some p → key_bytes key ≢ k
  other_key k p e i = ground (arith, ap (λ j. E.hash_find j s.mbtcp_htable) i)

  find_new :
      (k : List ℕ)
      → (E.hash_find k (with_handle E key ctx s).mbtcp_htable ≡ E.hash_find k s.mbtcp_htable)
        ⊎ ((k ≡ key_bytes key)
            × (E.hash_find k (with_handle E key ctx s).mbtcp_htable ≡ some (length s.handles)))
  unfolding with_handle
  find_new k = elim (Bool-cases (str_eq (key_bytes key) k)) [
    | inl e ↦
        let same : key_bytes key ≡ k = str_eq-eq _ k e in
        inr (sym same, rw (← same) (laws.find-add_self _ _ _ fresh))
    | inr e ↦ inl (
        laws.find-add_ne _ k _ _ fresh
          (λ i. ground (arith, ap (str_eq (key_bytes key)) i, str_eq_refl (key_bytes key))))
  ]

  Stays-with : Stays s (with_handle E key ctx s)
  unfolding with_handle
  Stays-with p h e =
      (h, get_elem?-append_left s.handles _ p (get_elem?-lt s.handles p e) ∙ e, refl, refl)

  found_with :
      (k : List ℕ) (p : ℕ)
      → E.hash_find k s.mbtcp_htable ≡ some p
      → E.hash_find k (with_handle E key ctx s).mbtcp_htable ≡ some p
  unfolding with_handle
  found_with k p e = laws.find-add_ne _ k _ _ fresh (other_key k p e) ∙ e

  -- The new address stands at the end of the order.
  listed :
      IsRegistry s
      → E.hash_order s.mbtcp_htable ++ length s.handles ∷ [] ≡ upto (length (s.handles ++ new ∷ []))
  unfolding new
  listed r =
      let e : suc (length s.handles) ≡ length (s.handles ++ new ∷ []) =
        omega (arith, length-append s.handles (new ∷ [])) in
      rw r.order (upto_snoc (length s.handles) ∙ ap upto e)

  pub Grows-with_handle : Grows s (with_handle E key ctx s)
  unfolding with_handle new
  Grows-with_handle = record {
    registry = λ r. record {
      registered = λ p h e. elim (get_elem?-append_inv s.handles _ p e) [
        | inl old ↦ found_with _ p (r.registered p h old)
        | inr (i, f) ↦ rw (f, i) (laws.find-add_self _ _ _ fresh)
      ];
      present = λ k p e. elim (find_new k) [
        | inl f ↦
            let (h, at, i) = r.present k p (sym f ∙ e) in
            let (h', at', j, _) = Stays-with p h at in (h', at', ap key_bytes j ∙ i)
        | inr (i, f) ↦
            let here : length s.handles ≡ p = ground arith in
            (new, rw (← here) (get_elem?-append_end s.handles new), sym i)
      ];
      order = laws.order-add (key_bytes key) (length s.handles) s.mbtcp_htable ∙ listed r;
    };
    stays = Stays-with;
    quiet = refl;
    config = refl;
  }
