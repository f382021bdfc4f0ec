-- ===== src/Daemon.antt =====
-- The state of the daemon and the monad in which its functions run.
-- State: the global variables of main.c and modbusd.c, the handles that `mbtcp_init_handle` has
-- allocated (the address of a handle is its position), the messages published so far, and the
-- libraries' own state. A run that reaches undefined behaviour, an assertion of a library or `exit`
-- stops, with the reason as a value.
pub mod Exec
pub mod Closed
pub mod Moves
pub mod Between
pub mod Blind
use modbusd.Prelude.{ℕ, Bool, Option, none, some, List, [], CString, c_str, get_elem?, set}
use modbusd.Prelude.Int.{ℤ, pos}
use modbusd.Env.{Env}
use modbusd.Key.{Key}

-- Why a run ends before its function returns.
pub data Stop : Type 0 where
  -- a NULL pointer is dereferenced or handed to a function that dereferences it
  null_pointer : Stop
  -- a write, or the read of an unterminated string, beyond the end of an array
  buffer_overflow : Stop
  -- a variable length array whose size is not positive (undefined in C)
  bad_array_size : Stop
  -- zframe_strdup of a frame that the message does not have
  missing_frame : Stop
  -- exit (EXIT_FAILURE)
  exit_failure : Stop

pub data Outcome (A : Type 0) : Type 0 where
  ok : A → Outcome A
  stop : Stop → Outcome A

-- mbtcp_handle_s; `hh` is uthash's.
pub record Handle (E : Env) : Type 0 where
  pub key : Key
  pub connected : Bool
  pub ctx : E.Ctx

pub record Daemon (E : Env) : Type 0 where
  -- main.c
  pub enable_syslog : ℤ
  pub config_json : Option E.Json
  pub ipc_sub : Option CString
  pub ipc_pub : Option CString
  -- modbusd.c
  pub mbtcp_htable : E.Table
  pub tcp_conn_timeout_usec : ℕ
  -- the heap, the publisher's output as pairs of frames, and the libraries
  pub handles : List (Handle E)
  pub sent : List (CString × CString)
  pub world : E.World

-- A pointer to a handle.
abbrev pub Ptr : Type 0
Ptr = Option ℕ

abbrev pub M : Env → Type 0 → Type 0
M E A = Daemon E → Outcome (A × Daemon E)

module _ {E : Env} {A : Type 0} where
  pub pure : A → M E A
  pure a s = ok (a, s)

  pub fail : Stop → M E A
  fail e s = stop e

  -- A pointer that the code dereferences.
  pub not_null : Option A → M E A
  not_null none s = stop null_pointer
  not_null (some a) s = ok (a, s)

  -- A value that depends on the state.
  pub gets : (Daemon E → A) → M E A
  gets f s = ok (f s, s)

module _ {E : Env} where
  -- An assignment to the global variables.
  pub modify : (Daemon E → Daemon E) → M E (Unit {0})
  modify f s = ok (tt, f s)

module _ (E : Env) where
  -- A call of a library that may change the library's state.
  pub call : {A : Type 0} → (E.World → A × E.World) → M E A
  call f s = let (a, w) = f s.world in ok (a, record s { world = w })

  -- A call that also fills a buffer.
  pub call_buffer : (E.World → ℤ × List ℕ × E.World) → M E (ℤ × List ℕ)
  call_buffer f s = let (r, b, w) = f s.world in ok ((r, b), record s { world = w })

  -- A call of a library for its effect.
  pub effect : (E.World → E.World) → M E (Unit {0})
  effect f s = ok (tt, record s { world = f s.world })

module _ {E : Env} {A B : Type 0} where
  abbrev pub and_then : Outcome (A × Daemon E) → (A → M E B) → Outcome (B × Daemon E)
  and_then (ok (a, s)) k = k a s
  and_then (stop e) k = stop e

  infixl 5 ◌>>=◌ ◌>>◌
  -- To open this is to open the actions above.
  unfoldable pub ◌>>=◌ : M E A → (A → M E B) → M E B
  unfolding pure fail not_null gets call call_buffer modify effect
  ◌>>=◌ m k s = and_then (m s) k

  abbrev pub ◌>>◌ : M E A → M E B → M E B
  m >> n = m >>= λ _. n

-- `*p`, `*p = h` and `p->connected = b`.
module _ (E : Env) where
  unfoldable pub load : Ptr → M E (Handle E)
  load none s = stop null_pointer
  load (some p) s = elim (get_elem? s.handles p) [ some h ↦ ok (h, s) | none ↦ stop null_pointer ]

  unfoldable pub store : ℕ → Handle E → M E (Unit {0})
  store p h s = ok (tt, record s { handles = set s.handles p h })

  unfoldable pub set_connected : Ptr → Bool → M E (Unit {0})
  unfolding load store
  set_connected none b = fail null_pointer
  set_connected (some p) b = do h ← load (some p); store p (record h { connected = b })

-- The global variables before `main`, with no handle and nothing sent.
abbrev pub initial : (E : Env) → E.World → Daemon E
initial E w = record {
  enable_syslog = pos 1;
  config_json = none;
  ipc_sub = some (c_str "ipc:///tmp/to.modbus");
  ipc_pub = some (c_str "ipc:///tmp/from.modbus");
  mbtcp_htable = E.hash_nil;
  tcp_conn_timeout_usec = 200000;
  handles = [];
  sent = [];
  world = w;
}
