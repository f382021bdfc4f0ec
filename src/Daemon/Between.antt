-- ===== src/Daemon/Between.antt =====
-- Actions with a condition before and one after: whenever the first holds and the action returns, the
-- second holds.
use modbusd.Prelude.{ℕ, none, some, Bool, true, false, arith, if◌then◌else◌}
use modbusd.Env.{Env}
use modbusd.Daemon.{Daemon, Stop, Outcome, ok, stop, M, Ptr, pure, fail, load, and_then, ◌>>=◌}
use modbusd.Daemon.Exec.{Returned}
use modbusd.Daemon.Closed.{Holds, Plain}

pub record Between {E : Env} (Pre Post : Daemon E → Type 0) (A : Type 0) (m : M E A) : Type 0 where
  pub run : (s : Daemon E) → Pre s → Returned (λ _ t. Post t) (m s)

pub made :
    {E : Env} {A : Type 0} {Pre Post : Daemon E → Type 0} {m : M E A}
    → ((s : Daemon E) → Pre s → Returned (λ _ t. Post t) (m s))
    → Holds (Between Pre Post) m
made f = record { at = record { run = f } }

module _ {E : Env} {Mid Post : Daemon E → Type 0} where
  then_at :
      {A B : Type 0} (r : Outcome (A × Daemon E)) (k : A → M E B)
      → Returned (λ _ t. Mid t) r
      → ((a : A) → Holds (Between Mid Post) (k a))
      → Returned (λ _ t. Post t) (and_then r k)
  then_at (ok (a, t)) k h hk = (hk a).at.run t h
  then_at (stop e) k h hk = tt

  pub Between-bind :
      {Pre : Daemon E → Type 0} {A B : Type 0} (m : M E A) (k : A → M E B)
      → Holds (Between Pre Mid) m
      → ((a : A) → Holds (Between Mid Post) (k a))
      → Holds (Between Pre Post) (m >>= k)
  unfolding ◌>>=◌
  Between-bind m k hm hk = made (λ s pre. then_at (m s) k (hm.at.run s pre) hk)

module _ {E : Env} {Pre Post : Daemon E → Type 0} where
  pub Between-fail : {A : Type 0} (e : Stop) → Holds (Between Pre Post) (fail {E = E} {A = A} e)
  unfolding ◌>>=◌
  Between-fail e = made (λ s pre. tt)

  pub Between-pure :
      {A : Type 0} (a : A) → ((s : Daemon E) → Pre s → Post s) → Holds (Between Pre Post) (pure a)
  unfolding ◌>>=◌
  Between-pure a h = made h

  pub Between-if :
      {A : Type 0} (b : Bool) (m k : M E A)
      → Holds (Between Pre Post) m
      → Holds (Between Pre Post) k
      → Holds (Between Pre Post) (if b then m else k)
  Between-if true m k hm hk = hm
  Between-if false m k hm hk = hk

-- A condition that getting memory keeps.
module _ {E : Env} {I : Daemon E → Type 0}
    (memory : (n : ℕ) (s : Daemon E) → I s → I (record s { world = (E.malloc n s.world).1 })) where
  load_at : (p : Ptr) (s : Daemon E) → I s → Returned (λ _ t. I t) (load E p s)
  unfolding load
  load_at none s h = tt
  load_at (some p) s h = ground arith

  pub Between-Plain : Plain (Between I I)
  unfolding ◌>>=◌
  Between-Plain = record {
    of_pure = λ a. made (λ s h. h);
    of_fail = λ e. made (λ s h. tt);
    of_gets = λ f. made (λ s h. h);
    of_malloc = λ n. made (memory n);
    of_load = λ p. made (load_at p);
    of_bind = λ m k hm hk. Between-bind m k hm hk;
  }
