-- ===== src/Daemon/Closed.antt =====
-- Properties of actions that a sequence of actions inherits from its parts, with one rule for each way
-- to build an action.
use modbusd.Prelude.{◌≡◌, refl, ℕ, Option, none, some, List, Bool, true, false, if◌then◌else◌}
use modbusd.Prelude.Int.{ℤ}
use modbusd.Env.{Env}
use modbusd.Daemon.{
  Stop, null_pointer, M, Ptr, pure, fail, not_null, gets, call, call_buffer, effect, load, ◌>>=◌,
}

-- A property of actions, of every type of result.
abbrev pub Property : Env → Type 1
Property E = (A : Type 0) → M E A → Type 0

pub record Holds {E : Env} {A : Type 0} (P : Property E) (m : M E A) : Type 0 where
  pub at : P A m

module _ {E : Env} {A B : Type 0} (k : A → M E B) where
  pub bind-fail : (e : Stop) → fail e >>= k ≡ fail e
  unfolding ◌>>=◌
  bind-fail e = refl

  pub bind-pure : (a : A) → pure a >>= k ≡ k a
  unfolding ◌>>=◌
  bind-pure a = refl

-- A property that a sequence of actions inherits from its parts, and that the actions have which call no
-- library but for memory and only look at the state.
pub record Plain {E : Env} (P : Property E) : Type 1 where
  pub of_pure : {A : Type 0} (a : A) → Holds P (pure a)
  pub of_fail : {A : Type 0} (e : Stop) → Holds P (fail {A = A} e)
  pub of_gets :
      {A : Type 0} (f : E.World → E.Table → ℕ → A)
      → Holds P (gets (λ s. f s.world s.mbtcp_htable s.tcp_conn_timeout_usec))
  pub of_malloc : (n : ℕ) → Holds P (call E (E.malloc n))
  pub of_load : (p : Ptr) → Holds P (load E p)
  pub of_bind :
      {A B : Type 0} (m : M E A) (k : A → M E B)
      → Holds P m
      → ((a : A) → Holds P (k a))
      → Holds P (m >>= k)

-- A property that every call of a library has, too.
pub record Closed {E : Env} (P : Property E) : Type 1 where
  pub plain : Plain P
  pub of_call : {A : Type 0} (f : E.World → A × E.World) → Holds P (call E f)
  pub of_call_buffer : (f : E.World → ℤ × List ℕ × E.World) → Holds P (call_buffer E f)
  pub of_effect : (f : E.World → E.World) → Holds P (effect E f)

module _ {E : Env} {P : Property E} (plain : Plain P) where
  pub Holds-pure : {A : Type 0} (a : A) → Holds P (pure a)
  Holds-pure a = plain.of_pure a

  pub Holds-fail : {A : Type 0} (e : Stop) → Holds P (fail {A = A} e)
  Holds-fail e = plain.of_fail e

  pub Holds-not_null : {A : Type 0} (o : Option A) → Holds P (not_null o)
  unfolding ◌>>=◌
  Holds-not_null none = plain.of_fail null_pointer
  Holds-not_null (some a) = plain.of_pure a

  pub Holds-malloc : (n : ℕ) → Holds P (call E (E.malloc n))
  Holds-malloc n = plain.of_malloc n

  pub Holds-load : (p : Ptr) → Holds P (load E p)
  Holds-load p = plain.of_load p

  pub Holds-if :
      {A : Type 0} (b : Bool) (m k : M E A) → Holds P m → Holds P k → Holds P (if b then m else k)
  Holds-if true m k hm hk = hm
  Holds-if false m k hm hk = hk

  pub Holds-bind :
      {A B : Type 0} (m : M E A) (k : A → M E B)
      → Holds P m
      → ((a : A) → Holds P (k a))
      → Holds P (m >>= k)
  Holds-bind m k hm hk = plain.of_bind m k hm hk

module _ {E : Env} {P : Property E} (closed : Closed P) where
  pub Holds-call : {A : Type 0} (f : E.World → A × E.World) → Holds P (call E f)
  Holds-call f = closed.of_call f

  pub Holds-call_buffer : (f : E.World → ℤ × List ℕ × E.World) → Holds P (call_buffer E f)
  Holds-call_buffer f = closed.of_call_buffer f

  pub Holds-effect : (f : E.World → E.World) → Holds P (effect E f)
  Holds-effect f = closed.of_effect f

pub ruleset plain_rules =
    (Holds-pure, Holds-fail, Holds-not_null, Holds-malloc, Holds-load, Holds-if, Holds-bind)

pub ruleset holds_rules = (plain_rules, Holds-call, Holds-call_buffer, Holds-effect)
