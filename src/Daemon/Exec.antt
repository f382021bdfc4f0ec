-- ===== src/Daemon/Exec.antt =====
-- Reasoning about the actions of the daemon: what holds of the value and of the state that an action
-- returns.
use modbusd.Prelude.{Bool, true, false, if◌then◌else◌}
use modbusd.Env.{Env}
use modbusd.Daemon.{Daemon, Stop, Outcome, ok, stop, M, pure, fail, and_then, ◌>>=◌}

-- What an outcome has to satisfy if the action returns.
abbrev pub Returned :
    {E : Env} {A : Type 0} (P : A → Daemon E → Type 0) → Outcome (A × Daemon E) → Type 0
Returned P (ok (a, s)) = P a s
Returned P (stop e) = Unit

pub Returned-mono :
    {E : Env} {A : Type 0} (P Q : A → Daemon E → Type 0) (o : Outcome (A × Daemon E))
    → ((a : A) (s : Daemon E) → P a s → Q a s)
    → Returned P o
    → Returned Q o
Returned-mono P Q (ok (a, s)) weaken h = weaken a s h
Returned-mono P Q (stop e) weaken h = tt

pub Returned-both :
    {E : Env} {A : Type 0} (P Q : A → Daemon E → Type 0) (o : Outcome (A × Daemon E))
    → Returned P o
    → Returned Q o
    → Returned (λ a s. P a s × Q a s) o
Returned-both P Q (ok (a, s)) h k = (h, k)
Returned-both P Q (stop e) h k = tt

pub Returned-bind :
    {E : Env} {A B : Type 0} (P : A → Daemon E → Type 0) (Q : B → Daemon E → Type 0)
    (r : Outcome (A × Daemon E)) (k : A → M E B)
    → Returned P r
    → ((a : A) (s : Daemon E) → P a s → Returned Q (k a s))
    → Returned Q (and_then r k)
Returned-bind P Q (ok (a, s)) k h next = next a s h
Returned-bind P Q (stop e) k h next = tt

-- Every value that `m` returns satisfies `P`.
pub record Gives {E : Env} {A : Type 0} (P : A → Type 0) (m : M E A) : Type 0 where
  pub at : (s : Daemon E) → Returned (λ a _. P a) (m s)

module _ {E : Env} {A : Type 0} {P : A → Type 0} where
  pub Gives-pure : (a : A) → P a → Gives {E = E} P (pure a)
  unfolding ◌>>=◌
  Gives-pure a h = record { at = λ s. h }

  pub Gives-fail : (e : Stop) → Gives {E = E} P (fail e)
  unfolding ◌>>=◌
  Gives-fail e = record { at = λ s. tt }

  pub Gives-if : (b : Bool) (m k : M E A) → Gives P m → Gives P k → Gives P (if b then m else k)
  Gives-if true m k hm hk = hm
  Gives-if false m k hm hk = hk

  given_at :
      {B : Type 0} (r : Outcome (B × Daemon E)) (k : B → M E A)
      → ((b : B) → Gives P (k b))
      → Returned (λ a _. P a) (and_then r k)
  given_at (ok (b, s)) k h = (h b).at s
  given_at (stop e) k h = tt

  -- Only the last action decides.
  pub Gives-bind :
      {B : Type 0} (m : M E B) (k : B → M E A) → ((b : B) → Gives P (k b)) → Gives P (m >>= k)
  unfolding ◌>>=◌
  Gives-bind m k h = record { at = λ s. given_at (m s) k h }

pub ruleset gives_rules = (Gives-pure, Gives-fail, Gives-if, Gives-bind)
