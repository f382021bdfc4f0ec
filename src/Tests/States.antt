-- ===== src/Tests/States.antt =====
-- The states and requests of the tests.
use modbusd.Prelude.{
  ℕ, zero, suc, ◌≡◌, refl, ap, inl, inr, some, List, [], ◌∷◌, Bool, true, false, arith, CString,
  c_str, str_eq, str_eq-eq, str_eq_refl, get_elem?, Bool-cases,
}
use modbusd.Prelude.Int.{pos}
use modbusd.Key.{key_bytes}
use modbusd.Key.Layout.{IsField, endpoint_key}
use modbusd.Daemon.{Daemon, Handle, initial}
use modbusd.Handle.Registry.{IsRegistry}
use modbusd.Handle.Lookup.{FoundAt}
use modbusd.Command.Connection.{IsCommand}
use modbusd.Tests.Trees.{Members, request, number, string, read_coils}
use modbusd.Tests.Toy.{Slave, toy, find_entry}

-- The files at the start.
abbrev disk : List (CString × CString)
disk = (c_str "a.json", c_str "config") ∷ (c_str "b.json", c_str "junk") ∷ []

-- A slave, and the same slave out of reach, resetting connections, or without memory on this side.
abbrev pub slave : Slave
slave = record { up = true; resets = false; connects = 0; calls = 0; memory = true; files = disk }

abbrev pub unreachable : Slave
unreachable = record {
  up = false;
  resets = false;
  connects = 0;
  calls = 0;
  memory = true;
  files = disk;
}

abbrev pub resetting : Slave
resetting = record {
  up = true;
  resets = true;
  connects = 0;
  calls = 0;
  memory = true;
  files = disk;
}

abbrev pub exhausted : Slave
exhausted = record {
  up = true;
  resets = false;
  connects = 0;
  calls = 0;
  memory = false;
  files = disk;
}

abbrev pub address : CString
address = c_str "10.0.0.1"

abbrev pub service : CString
service = c_str "502"

abbrev pub the_handle : Bool → Handle toy
the_handle b = record { key = endpoint_key address service; connected = b; ctx = 0 }

-- No handle yet, and one handle.
abbrev pub start : Slave → Daemon toy
start w = initial toy w

abbrev pub one_handle : Slave → Bool → Daemon toy
one_handle w b = record (initial toy w) {
  mbtcp_htable = (key_bytes (endpoint_key address service), 0) ∷ [];
  handles = the_handle b ∷ [];
}

pub found : (w : Slave) (b : Bool) → FoundAt address service (one_handle w b) 0
found w b = rw (str_eq_refl (key_bytes (endpoint_key address service)))

pub address-IsField : IsField address
address-IsField = record { text = omega arith; fits = omega arith }

pub service-IsField : IsField service
service-IsField = record { text = omega arith; fits = omega arith }

pub request-IsCommand :
    (cmd : CString) (rest : Members)
    → IsCommand toy (some (request cmd rest)) (pos 7) (pos 1) address service
request-IsCommand cmd rest = record {
  has_tid = (number (pos 7), refl, refl);
  has_slave = (number (pos 1), refl, refl);
  has_ip = (string address, refl, refl);
  has_port = (string service, refl, refl);
  ip_fits = address-IsField;
  port_fits = service-IsField;
}

pub read-IsCommand : IsCommand toy (some read_coils) (pos 7) (pos 1) address service
read-IsCommand = request-IsCommand _ _

pub start-IsRegistry : (w : Slave) → IsRegistry (start w)
start-IsRegistry w = record {
  registered = λ p h e. ground arith;
  present = λ k p e. ground arith;
  order = refl;
}

pub one_handle-IsRegistry : (w : Slave) (b : Bool) → IsRegistry (one_handle w b)
one_handle-IsRegistry w b = record { registered = registered; present = present; order = refl }
  where
    registered :
        (p : ℕ) (h : Handle toy)
        → get_elem? (the_handle b ∷ []) p ≡ some h
        → find_entry (key_bytes h.key) ((key_bytes (endpoint_key address service), 0) ∷ []) ≡ some p
    registered zero h e =
        let same : the_handle b ≡ h = ground arith in
        rw (
          ← ap (λ (x : Handle toy). x.key) same,
          str_eq_refl (key_bytes (endpoint_key address service)),
        )
    registered (suc p) h e = ground arith

    present :
        (k : List ℕ) (p : ℕ)
        → find_entry k ((key_bytes (endpoint_key address service), 0) ∷ []) ≡ some p
        → (h : Handle toy) × (get_elem? (the_handle b ∷ []) p ≡ some h) × (key_bytes h.key ≡ k)
    present k p e = elim (Bool-cases (str_eq (key_bytes (endpoint_key address service)) k)) [
      | inl same ↦
          let first : 0 ≡ p = ground arith in rw (← first) (the_handle b, refl, str_eq-eq _ k same)
      | inr other ↦ ground arith
    ]
