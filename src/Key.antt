-- ===== src/Key.antt =====
-- modbusd.h, mbtcp_key_s, and how modbusd.c fills one: memset of the whole structure to zero, then
-- strcpy into each char[50]. uthash compares keys by their bytes.
pub mod Layout
use modbusd.Prelude.{
  ℕ, suc, Option, none, some, List, ◌∷◌, ◌++◌, CString, length, replicate, drop, [], ◌==◌, ltb,
  if◌then◌else◌,
}

-- The size of `ip` and of `port`.
abbrev pub field_size : ℕ
field_size = 50

-- mbtcp_key_s: the contents of its two arrays.
pub record Key : Type 0 where
  pub ip : List ℕ
  pub port : List ℕ

-- memset (p, 0, n)
abbrev pub memset_zero : ℕ → List ℕ
memset_zero n = replicate n 0

-- strcpy (dst, src) into an array: the bytes, the terminator, and the rest of the array as it was;
-- `none` if they do not fit.
unfoldable pub strcpy : List ℕ → CString → Option (List ℕ)
strcpy dst src =
    if ltb (length src) (length dst) then some (src ++ 0 ∷ drop (suc (length src)) dst) else none

-- The bytes over which uthash hashes and compares: `sizeof (mbtcp_key_s)` from the key's address.
unfoldable pub key_bytes : Key → List ℕ
key_bytes k = k.ip ++ k.port

-- A char[50] as the bytes up to its terminator, as printf reads it.
unfoldable pub printed : List ℕ → CString
printed [] = []
printed (c ∷ cs) = let rest = printed cs in if c == 0 then [] else c ∷ rest
