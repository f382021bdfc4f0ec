-- ===== src/Daemon/Moves.antt =====
-- Relations between the states before and after an action, with one rule for each way to build an
-- action.
use modbusd.Prelude.{ℕ, Option, none, some, List, Bool, true, false, arith, if◌then◌else◌}
use modbusd.Prelude.Int.{ℤ}
use modbusd.Env.{Env}
use modbusd.Daemon.{
  Daemon, Stop, Outcome, ok, stop, M, Ptr, pure, fail, not_null, gets, call, call_buffer, effect,
  load, and_then, ◌>>=◌,
}
use modbusd.Daemon.Exec.{Returned}
use modbusd.Daemon.Closed.{Property, Holds, Closed}

-- A relation between states that calls may compose.
pub record Preorder {E : Env} (R : Daemon E → Daemon E → Type 0) : Type 0 where
  pub reflexive : (s : Daemon E) → R s s
  pub transitive : (s t u : Daemon E) → R s t → R t u → R s u

-- Whenever `m` returns, the new state is related to the old one.
abbrev pub Related : {E : Env} → (Daemon E → Daemon E → Type 0) → Property E
Related {E} R A m = (s : Daemon E) → Returned (λ _ s'. R s s') (m s)

abbrev pub Moves : {E : Env} {A : Type 0} → (Daemon E → Daemon E → Type 0) → M E A → Type 0
Moves R m = Holds (Related R) m

-- A relation that does not look at the state of the libraries.
pub record Neutral {E : Env} (R : Daemon E → Daemon E → Type 0) : Type 0 where
  pub order : Preorder R
  pub world : (s : Daemon E) (w : E.World) → R s (record s { world = w })

module _ {E : Env} {R : Daemon E → Daemon E → Type 0} (n : Neutral R) where
  pub Moves-pure : {A : Type 0} (a : A) → Moves R (pure a)
  unfolding ◌>>=◌
  Moves-pure a = record { at = n.order.reflexive }

  pub Moves-fail : {A : Type 0} (e : Stop) → Moves R (fail {A = A} e)
  unfolding ◌>>=◌
  Moves-fail e = record { at = λ s. tt }

  pub Moves-not_null : {A : Type 0} (o : Option A) → Moves R (not_null o)
  unfolding ◌>>=◌
  Moves-not_null none = record { at = λ s. tt }
  Moves-not_null (some a) = record { at = n.order.reflexive }

  pub Moves-gets : {A : Type 0} (f : Daemon E → A) → Moves R (gets f)
  unfolding ◌>>=◌
  Moves-gets f = record { at = n.order.reflexive }

  pub Moves-call : {A : Type 0} (f : E.World → A × E.World) → Moves R (call E f)
  unfolding ◌>>=◌
  Moves-call f = record { at = λ s. n.world s (f s.world).1 }

  pub Moves-call_buffer : (f : E.World → ℤ × List ℕ × E.World) → Moves R (call_buffer E f)
  unfolding ◌>>=◌
  Moves-call_buffer f = record { at = λ s. n.world s (f s.world).2 }

  pub Moves-effect : (f : E.World → E.World) → Moves R (effect E f)
  unfolding ◌>>=◌
  Moves-effect f = record { at = λ s. n.world s (f s.world) }

  load_at : (s : Daemon E) (p : Ptr) → Returned (λ _ s'. R s s') (load E p s)
  unfolding load
  load_at s none = tt
  load_at s (some p) = ground (arith, n.order.reflexive s)

  pub Moves-load : (p : Ptr) → Moves R (load E p)
  Moves-load p = record { at = λ s. load_at s p }

  pub Moves-if :
      {A : Type 0} (b : Bool) (m k : M E A) → Moves R m → Moves R k → Moves R (if b then m else k)
  Moves-if true m k hm hk = hm
  Moves-if false m k hm hk = hk

  then_at :
      {A B : Type 0} (s : Daemon E) (r : Outcome (A × Daemon E)) (k : A → M E B)
      → Returned (λ _ s'. R s s') r
      → ((a : A) → Moves R (k a))
      → Returned (λ _ s'. R s s') (and_then r k)
  then_at s (stop e) k h hk = tt
  then_at {A} {B} s (ok (a, t)) k h hk = last (k a t) ((hk a).at t)
    where
      last :
          (o : Outcome (B × Daemon E)) → Returned (λ _ s'. R t s') o → Returned (λ _ s'. R s s') o
      last (stop e) r = tt
      last (ok (b, u)) r = n.order.transitive s t u h r

  pub Moves-bind :
      {A B : Type 0} (m : M E A) (k : A → M E B)
      → Moves R m
      → ((a : A) → Moves R (k a))
      → Moves R (m >>= k)
  unfolding ◌>>=◌
  Moves-bind m k hm hk = record { at = λ s. then_at s (m s) k (hm.at s) hk }

pub ruleset moves_rules = (
  Moves-pure, Moves-fail, Moves-not_null, Moves-gets, Moves-call, Moves-call_buffer, Moves-effect,
  Moves-load, Moves-if, Moves-bind,
)

pub Moves-Closed : {E : Env} {R : Daemon E → Daemon E → Type 0} → Neutral R → Closed (Related R)
Moves-Closed {E} n = record {
  plain = record {
    of_pure = Moves-pure n;
    of_fail = Moves-fail n;
    of_gets = λ f. Moves-gets n _;
    of_malloc = λ k. Moves-call n (E.malloc k);
    of_load = Moves-load n;
    of_bind = Moves-bind n;
  };
  of_call = Moves-call n;
  of_call_buffer = Moves-call_buffer n;
  of_effect = Moves-effect n;
}
