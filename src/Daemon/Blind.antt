-- ===== src/Daemon/Blind.antt =====
-- Actions that neither read nor change what is published, and actions that only add to it.
use modbusd.Prelude.{
  ◌≡◌, refl, none, some, List, Bool, true, false, CString, get_elem?, inl, inr, Option-cases,
  if◌then◌else◌,
}
use modbusd.Env.{Env}
use modbusd.Daemon.{Daemon, Outcome, ok, stop, M, Ptr, load, set_connected, and_then, ◌>>=◌}
use modbusd.Daemon.Closed.{Property, Holds, Closed, holds_rules}

-- The outcome with this as what is published.
abbrev pub relabelled :
    {E : Env} {A : Type 0}
    → List (CString × CString)
    → Outcome (A × Daemon E)
    → Outcome (A × Daemon E)
relabelled l (ok (a, t)) = ok (a, record t { sent = l })
relabelled l (stop e) = stop e

-- What an action does is the same whatever is published, and leaves what is published as it is.
abbrev pub Unread : {E : Env} → Property E
Unread {E} A m =
    (s : Daemon E) (l : List (CString × CString)) → m (record s { sent = l }) ≡ relabelled l (m s)

abbrev pub Blind : {E : Env} {A : Type 0} → M E A → Type 0
Blind m = Holds Unread m

-- `n` does what `m` does, but for what is published.
pub record Mirrors {E : Env} {A : Type 0} (m n : M E A) : Type 0 where
  pub at :
      (s : Daemon E) (l : List (CString × CString)) → n (record s { sent = l }) ≡ relabelled l (m s)

pub Mirrors-of_Blind : {E : Env} {A : Type 0} (m : M E A) → Blind m → Mirrors m m
Mirrors-of_Blind m h = record { at = h.at }

module _ {E : Env} {A B : Type 0} where
  then_at :
      (l : List (CString × CString)) (r r' : Outcome (A × Daemon E)) (k k' : A → M E B)
      → r' ≡ relabelled l r
      → ((a : A) → Mirrors (k a) (k' a))
      → and_then r' k' ≡ relabelled l (and_then r k)
  then_at l (ok (a, t)) r' k k' e h = rw e ((h a).at t l)
  then_at l (stop x) r' k k' e h = rw e refl

  pub Mirrors-bind :
      (m m' : M E A) (k k' : A → M E B)
      → Mirrors m m'
      → ((a : A) → Mirrors (k a) (k' a))
      → Mirrors (m >>= k) (m' >>= k')
  unfolding ◌>>=◌
  Mirrors-bind m m' k k' h hk = record { at = λ s l. then_at l (m s) _ k k' (h.at s l) hk }

pub Mirrors-if :
    {E : Env} {A : Type 0} (b : Bool) (m k m' k' : M E A)
    → Mirrors m m'
    → Mirrors k k'
    → Mirrors (if b then m else k) (if b then m' else k')
Mirrors-if true m k m' k' hm hk = hm
Mirrors-if false m k m' k' hm hk = hk

pub ruleset mirrors_rules = (Mirrors-of_Blind, Mirrors-if, Mirrors-bind, holds_rules)

module _ (E : Env) where
  load-Blind : (p : Ptr) → Blind (load E p)
  unfolding load
  load-Blind none = record { at = λ s l. refl }
  load-Blind (some p) = record {
    at = λ s l. elim (Option-cases (get_elem? s.handles p)) [
      | inl e ↦ rw (e, load) refl
      | inr (h, e) ↦ rw (e, load) refl
    ];
  }

  pub Blind-Closed : Closed (Unread {E = E})
  unfolding ◌>>=◌
  Blind-Closed = record {
    plain = record {
      of_pure = λ a. record { at = λ s l. refl };
      of_fail = λ e. record { at = λ s l. refl };
      of_gets = λ f. record { at = λ s l. refl };
      of_malloc = λ n. record { at = λ s l. refl };
      of_load = load-Blind;
      of_bind = λ m k hm hk. record {
        at = λ s l. then_at l (m s) _ k k (hm.at s l) (λ a. Mirrors-of_Blind (k a) (hk a));
      };
    };
    of_call = λ f. record { at = λ s l. refl };
    of_call_buffer = λ f. record { at = λ s l. refl };
    of_effect = λ f. record { at = λ s l. refl };
  }

  pub set_connected-Blind : (p : Ptr) (b : Bool) → Blind (set_connected E p b)
  unfolding set_connected load ◌>>=◌
  set_connected-Blind none b = record { at = λ s l. refl }
  set_connected-Blind (some p) b = record {
    at = λ s l. elim (Option-cases (get_elem? s.handles p)) [
      | inl e ↦ rw (e, load) refl
      | inr (h, e) ↦ rw (e, load) refl
    ];
  }
