-- ===== src/Handle.antt =====
-- modbusd.c: the table of mbtcp handles and their connections. A handle is made on the first request
-- for its endpoint and is never removed.
pub mod Registry
pub mod Fill
pub mod Holds
pub mod Keeps
pub mod Connect
pub mod Lookup
pub mod Keys
pub mod Lazy
pub mod Endpoint
pub mod Listing
pub mod Pool
use modbusd.Prelude.{
  ℕ, suc, Option, none, some, List, [], ◌∷◌, ◌++◌, Bool, true, false, ◌==◌, CString, c_str, length,
  if◌then◌else◌,
}
use modbusd.Prelude.Int.{ℤ, pos, negsuc, eqb_ℤ}
use modbusd.Env.{Env}
use modbusd.Key.{Key, field_size, memset_zero, strcpy, key_bytes, printed}
use modbusd.Daemon.{
  Daemon, Handle, Ptr, M, Outcome, ok, stop, null_pointer, buffer_overflow, pure, fail, not_null,
  gets, modify, call, effect, load, set_connected, ◌>>=◌, ◌>>◌,
}
use modbusd.Json.{json_get_char}

-- sizeof (mbtcp_handle_s) on an LP64 machine.
abbrev pub handle_size : ℕ
handle_size = 168

module _ (E : Env) where
  -- strcpy into a zeroed char[50].
  unfoldable pub copy_field : Option CString → M E (List ℕ)
  unfolding strcpy
  copy_field none s = stop null_pointer
  copy_field (some src) s = elim (strcpy (memset_zero field_size) src) [
    | some dst ↦ ok (dst, s)
    | none ↦ stop buffer_overflow
  ]

  -- The two strcpy of a key, in `query` and in a fresh handle.
  unfoldable pub fill_key : Option CString → Option CString → M E Key
  unfolding copy_field
  fill_key ip port = do
    ip_field ← copy_field ip
    port_field ← copy_field port
    pure (record { ip = ip_field; port = port_field })

  unfoldable pub mbtcp_get_connection_status : Ptr → M E Bool
  mbtcp_get_connection_status none = pure false
  mbtcp_get_connection_status (some p) = do h ← load E (some p); pure h.connected

  -- The result and `*reason`.
  unfoldable pub mbtcp_do_connect : Ptr → Option CString → M E (Bool × Option CString)
  mbtcp_do_connect none reason = pure (false, some (c_str "NULL handle"))
  mbtcp_do_connect (some p) reason = do
    h ← load E (some p)
    ret ← call E (E.modbus_connect h.ctx)
    if eqb_ℤ ret (negsuc 0)
        then gets (λ s. (false, some (E.modbus_strerror (E.errno s.world))))
        else (do set_connected E (some p) true; pure (true, reason))

  -- The endpoints that it prints, in their order.
  unfoldable pub list_from : List ℕ → M E (List (CString × CString))
  list_from [] = pure []
  list_from (p ∷ ps) = do
    h ← load E (some p)
    rest ← list_from ps
    pure ((printed h.key.ip, printed h.key.port) ∷ rest)

  unfoldable pub mbtcp_list_handles : M E (List (CString × CString))
  mbtcp_list_handles s = list_from (E.hash_order s.mbtcp_htable) s

  -- The state after malloc and HASH_ADD of a handle.
  unfoldable pub with_handle : Key → E.Ctx → Daemon E → Daemon E
  with_handle key ctx s = record s {
    handles = s.handles ++ record { key = key; connected = false; ctx = ctx } ∷ [];
    mbtcp_htable = E.hash_add (key_bytes key) (length s.handles) s.mbtcp_htable;
  }

  -- The new handle's address.
  unfoldable pub add_handle : Key → E.Ctx → M E ℕ
  add_handle key ctx = do p ← gets (λ s. length s.handles); modify (with_handle key ctx); pure p

  -- On the fresh handle: its key, HASH_ADD, and the attempt to connect, whose result is ignored.
  unfoldable pub make_handle : E.Ctx → Option CString → Option CString → M E (Bool × Ptr)
  make_handle ctx ip port = do
    key ← fill_key ip port
    p ← add_handle key ctx
    mbtcp_do_connect (some p) none
    pure (true, some p)

  -- On the fresh context: the timeout, malloc and memset of the handle, which fault on NULL.
  unfoldable pub register : E.Ctx → Option CString → Option CString → M E (Bool × Ptr)
  register ctx ip port = do
    usec ← gets (λ s. s.tcp_conn_timeout_usec)
    effect E (E.modbus_set_response_timeout ctx 0 usec)
    got ← call E (E.malloc handle_size)
    if got then make_handle ctx ip port else fail null_pointer

  -- The result and `*ptr_handle`.
  unfoldable pub mbtcp_init_handle : Ptr → Option CString → Option CString → M E (Bool × Ptr)
  unfolding register
  mbtcp_init_handle ptr_handle ip port = do
    ctx ← call E (E.modbus_new_tcp_pi ip port)
    elim ctx [ none ↦ pure (false, ptr_handle) | some c ↦ register c ip port ]

  unfoldable pub find_handle : Key → M E (Bool × Ptr)
  find_handle key s = elim (E.hash_find (key_bytes key) s.mbtcp_htable) [
    | some p ↦ ok ((true, some p), s)
    | none ↦ ok ((false, none), s)
  ]

  unfoldable pub mbtcp_get_handle : Option CString → Option CString → M E (Bool × Ptr)
  unfolding find_handle
  mbtcp_get_handle ip port = do key ← fill_key ip port; find_handle key

  -- The branches of `lazy_init_mbtcp_handle`.
  unfoldable pub get_or_init : Option CString → Option CString → M E (Bool × Ptr)
  get_or_init ip port = do
    (found, ptr) ← mbtcp_get_handle ip port
    if found then pure (true, ptr) else mbtcp_init_handle ptr ip port

  unfoldable pub lazy_init_mbtcp_handle : Option E.Json → M E (Bool × Ptr)
  lazy_init_mbtcp_handle req = do
    ip ← json_get_char E req (c_str "ip")
    port ← json_get_char E req (c_str "port")
    get_or_init ip port

  -- The result and `*reason`.
  unfoldable pub lazy_mbtcp_connect : Ptr → Option CString → M E (Bool × Option CString)
  lazy_mbtcp_connect handle reason = do
    connected ← mbtcp_get_connection_status handle
    if connected then pure (true, reason) else mbtcp_do_connect handle reason
