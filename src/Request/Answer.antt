-- ===== src/Request/Answer.antt =====
-- What a request answers and what it does to its handle, once libmodbus has returned.
use modbusd.Prelude.{
  ℕ, ◌≡◌, sym, ap, some, List, Bool, false, ◌&&◌, CString, get_elem?, set, set_self, inl, inr,
  Bool-cases, if◌then◌else◌,
}
use modbusd.Prelude.Int.{ℤ, pos, ltb_ℤ, eqb_ℤ}
use modbusd.Env.{Env}
use modbusd.Daemon.{Daemon, Handle, Outcome, ok, ◌>>=◌}
use modbusd.Response.{
  modbus_set_error_resp, set_modbus_no_data_ok_resp, set_modbus_with_data_ok_resp,
}
use modbusd.Request.{connection_reset, get_errno, set_modbus_errno_resp, read_reply, write_reply}
use modbusd.Handle.Connect.{set_connected-at}

-- The call failed because the peer has reset the connection.
abbrev pub is_reset : ℤ → ℤ → Bool
is_reset ret errnum = ltb_ℤ ret (pos 0) && eqb_ℤ errnum connection_reset

module _ (E : Env) where
  -- The answer: libmodbus's text for errno if the call returned a negative number.
  abbrev pub answer : ℤ → ℤ → E.World → CString → CString
  answer tid ret w success =
      if ltb_ℤ ret (pos 0)
      then modbus_set_error_resp E tid (E.modbus_strerror (E.errno w))
      else success

  -- The daemon: only the flag of the handle may have changed, and only to false.
  abbrev pub settled : Daemon E → ℕ → Handle E → ℤ → E.World → Daemon E
  settled s p h ret w = record s {
    handles =
        set s.handles p
          (record h { connected = if is_reset ret (E.errno w) then false else h.connected });
    world = w;
  }

module _ {E : Env} (s : Daemon E) (p : ℕ) (h : Handle E) (at : get_elem? s.handles p ≡ some h) where
  unchanged :
      (text : CString) (w : E.World)
      → ◌≡◌ {A = Outcome (CString × Daemon E)}
          (ok (text, record s { world = w }))
          (ok (text, record s { handles = set s.handles p h; world = w }))
  unchanged text w =
      ap (λ (hs : List (Handle E)). ok (text, record s { handles = hs; world = w }))
        (sym (set_self s.handles p h at))

  -- Errno 104 clears the flag of the handle, any other leaves every handle alone; the answer is
  -- libmodbus's text either way.
  pub set_modbus_errno_resp-at :
      (tid errnum : ℤ)
      → set_modbus_errno_resp E tid (some p) errnum s
        ≡ ok (
          modbus_set_error_resp E tid (E.modbus_strerror errnum),
          record s {
            handles = set s.handles p (record h {
              connected = if eqb_ℤ errnum connection_reset then false else h.connected;
            });
          },
        )
  unfolding set_modbus_errno_resp ◌>>=◌
  set_modbus_errno_resp-at tid errnum = elim (Bool-cases (eqb_ℤ errnum connection_reset)) [
    | inl e ↦ rw e (rw (set_connected-at s p h at false))
    | inr e ↦ rw e (unchanged (modbus_set_error_resp E tid (E.modbus_strerror errnum)) s.world)
  ]

module _ (E : Env) (tid : ℤ) (p : ℕ) (h : Handle E) (s : Daemon E) (w : E.World)
    (at : get_elem? s.handles p ≡ some h) where
  -- After a write, from the return value on.
  pub write_reply-at :
      (ret : ℤ)
      → write_reply E (some p) tid ret (record s { world = w })
        ≡ ok (answer E tid ret w (set_modbus_no_data_ok_resp E tid), settled E s p h ret w)
  unfolding write_reply get_errno ◌>>=◌
  write_reply-at ret = elim (Bool-cases (ltb_ℤ ret (pos 0))) [
    | inl e ↦ rw e (set_modbus_errno_resp-at (record s { world = w }) p h at tid (E.errno w))
    | inr e ↦ rw e (unchanged s p h at _ w)
  ]

  -- After a read that kept within the buffer, from the return value on.
  pub read_reply-at :
      (len : ℤ) (to_array : List ℕ → E.Json) (ret : ℤ) (values : List ℕ)
      → ltb_ℤ len ret ≡ false
      → read_reply E (some p) tid len to_array (ret, values) (record s { world = w })
        ≡ ok (
          answer E tid ret w (set_modbus_with_data_ok_resp E tid (to_array values)),
          settled E s p h ret w,
        )
  unfolding read_reply get_errno ◌>>=◌
  read_reply-at len to_array ret values within = elim (Bool-cases (ltb_ℤ ret (pos 0))) [
    | inl e ↦ rw e (set_modbus_errno_resp-at (record s { world = w }) p h at tid (E.errno w))
    | inr e ↦ rw (e, within) (unchanged s p h at _ w)
  ]
