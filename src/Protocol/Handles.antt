-- ===== src/Protocol/Handles.antt =====
-- The handles and the calls: what a call, a change of a flag and a new handle do to them.
use modbusd.Prelude.{
  ℕ, ◌==◌, ◌≡◌, ◌≢◌, ◌↔◌, inl, inr, refl, sym, ap, ◌∙◌, subst, some, List, [], ◌∷◌, ◌++◌, Bool,
  true, false, arith, get_elem?, set, get_elem?-lt, get_elem?-set_self, get_elem?-set_ne,
  get_elem?-append_inv, Has, Bool-cases, ==_iff,
}
use modbusd.Env.{Env}
use modbusd.Env.Ledger.{Call, opens, sets_timeout}
use modbusd.Key.{Key}
use modbusd.Daemon.{Handle}
use modbusd.Protocol.{Up, Protocol, Up-opens, Up-timeout, Up-opened, Backed}

module _ {E : Env} {handles : List (Handle E)} {l : List (Call E.Ctx)} (b : Backed handles l) where
  -- Calls after which the same contexts are connected.
  pub Backed-after :
      (l' : List (Call E.Ctx))
      → ((c : E.Ctx) → Has (opens c) l → Has (opens c) l')
      → ((c : E.Ctx) → Up c l ↔ Up c l')
      → Backed handles l'
  Backed-after l' more same = record {
    known = λ p h at. more h.ctx (b.known p h at);
    own = b.own;
    flag_up = λ p h at on. (same h.ctx).0 (b.flag_up p h at on);
    flag_down = λ p h at off up. b.flag_down p h at off ((same h.ctx).1 up);
  }

  module _ (p : ℕ) (h : Handle E) (at : get_elem? handles p ≡ some h) (flag : Bool) where
    abbrev flagged : List (Handle E)
    flagged = set handles p (record h { connected = flag })

    -- A handle of the new list: this one with its flag, or another of the old list.
    flagged_inv :
        (P : ℕ → Handle E → Type 0)
        → P p (record h { connected = flag })
        → ((q : ℕ) (g : Handle E) → get_elem? handles q ≡ some g → p ≢ q → P q g)
        → (q : ℕ) (g : Handle E) → get_elem? flagged q ≡ some g
        → P q g
    flagged_inv P here there q g e = elim (Bool-cases (p == q)) [
      | inl i ↦
          let same : p ≡ q = (==_iff p q).0 i in
          let self =
            get_elem?-set_self handles p (record h { connected = flag })
              (get_elem?-lt handles p at) in
          let g-is : record h { connected = flag } ≡ g =
            ground (arith, ap (get_elem? flagged) same) in
          subst (λ r. P r g) same (subst (λ x. P p x) g-is here)
      | inr i ↦
          let ne : p ≢ q = λ f. ground (arith, (==_iff p q).1 f) in
          there q g (sym (get_elem?-set_ne handles p q _ ne) ∙ e) ne
    ]

    -- The place of a context stays.
    place :
        (q : ℕ) (g : Handle E)
        → get_elem? flagged q ≡ some g
        → (old : Handle E) × (get_elem? handles q ≡ some old) × (old.ctx ≡ g.ctx)
    place =
        flagged_inv (λ q g. (old : Handle E) × (get_elem? handles q ≡ some old) × (old.ctx ≡ g.ctx))
          (h, at, refl) (λ q g e _. (g, e, refl))

    -- A change of the flag, with calls that change only this handle's context.
    pub Backed-flag :
        (l' : List (Call E.Ctx))
        → ((c : E.Ctx) → Has (opens c) l → Has (opens c) l')
        → ((c : E.Ctx) → h.ctx ≢ c → Up c l ↔ Up c l')
        → (flag ≡ true → Up h.ctx l')
        → (flag ≡ false → ¬ Up h.ctx l')
        → Backed flagged l'
    Backed-flag l' more others on off =
        let other : (q : ℕ) (g : Handle E)
            → get_elem? handles q ≡ some g
            → p ≢ q
            → Up g.ctx l ↔ Up g.ctx l' =
          λ q g e ne. others g.ctx (λ i. ne (b.own p q h g at e i)) in
        record {
          known = λ q g e.
              let (old, f, i) = place q g e in
              subst (λ c. Has (opens c) l') i (more old.ctx (b.known q old f));
          own = λ q r g k e f i.
              let (old, e', j) = place q g e in
              let (old', f', j') = place r k f in b.own q r old old' e' f' (j ∙ i ∙ sym j');
          flag_up =
              flagged_inv (λ q g. g.connected ≡ true → Up g.ctx l') on
                (λ q g e ne c. (other q g e ne).0 (b.flag_up q g e c));
          flag_down =
              flagged_inv (λ q g. g.connected ≡ false → ¬ Up g.ctx l') off
                (λ q g e ne c up. b.flag_down q g e c ((other q g e ne).1 up));
        }

  -- A new handle on a new context.
  pub Backed-add :
      (key : Key) (c : E.Ctx) (usec : ℕ)
      → Protocol l
      → ¬ Has (opens c) l
      → Backed
          (handles ++ record { key = key; connected = false; ctx = c } ∷ [])
          (sets_timeout c 0 usec ∷ opens c ∷ l)
  Backed-add key c usec protocol new =
      let l' : List (Call E.Ctx) = sets_timeout c 0 usec ∷ opens c ∷ l in
      let same : (d : E.Ctx) → Up d l ↔ Up d l' = λ d. (
        λ up. (Up-timeout d c 0 usec (opens c ∷ l)).0 ((Up-opens d c l).0 up),
        λ up. (Up-opens d c l).1 ((Up-timeout d c 0 usec (opens c ∷ l)).1 up),
      ) in
      let b' = Backed-after l' (λ d there. inr (inr there)) same in
      record {
        known = λ p h e. elim (get_elem?-append_inv handles _ p e) [
          | inl old ↦ b'.known p h old
          | inr (_, i) ↦ inr (inl (ap opens (ap (λ (x : Handle E). x.ctx) i)))
        ];
        own = λ p q h g e f i. elim (get_elem?-append_inv handles _ p e) [
          | inl old ↦ elim (get_elem?-append_inv handles _ q f) [
            | inl old' ↦ b.own p q h g old old' i
            | inr (_, j) ↦ absurd (
                new (
                  subst (λ x. Has (opens x) l) (i ∙ ap (λ (x : Handle E). x.ctx) j)
                    (b.known p h old)))
          ]
          | inr (m, j) ↦ elim (get_elem?-append_inv handles _ q f) [
            | inl old' ↦ absurd (
                new (
                  subst (λ x. Has (opens x) l) (sym i ∙ ap (λ (x : Handle E). x.ctx) j)
                    (b.known q g old')))
            | inr (n, _) ↦ m ∙ sym n
          ]
        ];
        flag_up = λ p h e on. elim (get_elem?-append_inv handles _ p e) [
          | inl old ↦ b'.flag_up p h old on
          | inr (_, i) ↦ ground (arith, ap (λ (x : Handle E). x.connected) i)
        ];
        flag_down = λ p h e off up. elim (get_elem?-append_inv handles _ p e) [
          | inl old ↦ b'.flag_down p h old off up
          | inr (_, i) ↦ new (
              Up-opened c protocol
                ((same c).1 (subst (λ x. Up x l') (ap (λ (x : Handle E). x.ctx) i) up)))
        ];
      }
