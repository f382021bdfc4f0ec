-- ===== src/Handle/Listing.antt =====
-- modbusd.c, `mbtcp_list_handles`: what it prints, for a registry that is sound.
use modbusd.Prelude.{
  ℕ, zero, suc, ◌+◌, ◌≡◌, refl, arith, CString, length, drop, drop-cons, drop_all, map,
}
use modbusd.Env.{Env}
use modbusd.Key.{printed}
use modbusd.Daemon.{Daemon, Handle, ok, ◌>>=◌}
use modbusd.Handle.{list_from, mbtcp_list_handles}
use modbusd.Handle.Connect.{load-at}
use modbusd.Handle.Registry.{IsRegistry, upto_from}

module _ {E : Env} (s : Daemon E) where
  -- The endpoint of a handle, as printf shows it.
  abbrev pub shown : Handle E → CString × CString
  shown h = (printed h.key.ip, printed h.key.port)

  list_from-drop :
      (n i : ℕ)
      → i + n ≡ length s.handles
      → list_from E (upto_from i n) s ≡ ok (map shown (drop i s.handles), s)
  unfolding list_from ◌>>=◌
  list_from-drop zero i h = rw (drop_all s.handles i (omega arith)) refl
  list_from-drop (suc n) i h =
      let (x, at, e) = drop-cons s.handles i (omega arith) in
      rw (e, load-at s i x at) (rw (list_from-drop n (suc i) (omega arith)))

  -- It follows the table's links through every handle: it prints the endpoint of each one once, in
  -- the order in which the handles were made, meets no fault, and changes nothing.
  pub mbtcp_list_handles_all : IsRegistry s → mbtcp_list_handles E s ≡ ok (map shown s.handles, s)
  unfolding mbtcp_list_handles
  mbtcp_list_handles_all r = rw r.order (list_from-drop (length s.handles) 0 (omega arith))
