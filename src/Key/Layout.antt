-- ===== src/Key/Layout.antt =====
-- The bytes of a key: what strcpy leaves in a zeroed char[50], and that the bytes tell endpoints
-- apart.
use modbusd.Prelude.{
  ℕ, suc, Has, inl, inr, Bool-cases, ltb, ltb→lt, ltb→le, ◌-◌, ◌<◌, ◌≤◌, ◌≡◌, refl, sym, ap, ◌∙◌,
  none, some, List, [], ◌∷◌, ◌++◌, arith, CString, IsCString, length, replicate, drop,
  drop-replicate, length-append, length-replicate, lt→ltb, le→ltb,
}
use modbusd.Key.{Key, field_size, memset_zero, strcpy, key_bytes, printed}

-- A string in a zeroed array of 50 bytes.
unfoldable pub padded : CString → List ℕ
padded s = s ++ replicate (field_size - length s) 0

-- The key of an endpoint whose strings fit.
unfoldable pub endpoint_key : CString → CString → Key
unfolding padded
endpoint_key ip port = record { ip = padded ip; port = padded port }

tail_of_zeros :
    (n : ℕ)
    → n < field_size
    → 0 ∷ drop (suc n) (memset_zero field_size) ≡ replicate (field_size - n) 0
tail_of_zeros n h =
    let step : field_size - n ≡ suc (field_size - suc n) = omega arith in
    ap (λ (l : List ℕ). 0 ∷ l) (drop-replicate (suc n) field_size 0)
    ∙ ap (λ k. replicate k 0) (sym step)

pub strcpy-fits :
    (s : CString) → length s < field_size → strcpy (memset_zero field_size) s ≡ some (padded s)
unfolding strcpy padded
strcpy-fits s h =
    rw (lt→ltb (length s) field_size h)
      (ap (λ (l : List ℕ). some (s ++ l)) (tail_of_zeros (length s) h))

pub strcpy-overflows :
    (s : CString) → field_size ≤ length s → strcpy (memset_zero field_size) s ≡ none
unfolding strcpy
strcpy-overflows s h = rw (le→ltb (length s) field_size h)

pub length-padded : (s : CString) → length s < field_size → length (padded s) ≡ field_size
unfolding padded
length-padded s h = omega (
  arith,
  length-append s (replicate (field_size - length s) 0),
  length-replicate {A = ℕ} (field_size - length s) 0,
)

Has-append : (xs : List ℕ) (a : ℕ) (ys : List ℕ) → Has a (xs ++ a ∷ ys)
Has-append [] a ys = inl refl
Has-append (x ∷ xs) a ys = inr (Has-append xs a ys)

-- A char[50] that holds a string: its 50 bytes, with a terminator among them.
pub record IsFieldArray (l : List ℕ) : Type 0 where
  pub size : length l ≡ field_size
  pub terminated : Has 0 l

padded-IsFieldArray : (s : CString) → length s < field_size → IsFieldArray (padded s)
unfolding padded
padded-IsFieldArray s h =
    let step : field_size - length s ≡ suc (field_size - length s - 1) = omega arith in
    record { size = length-padded s h; terminated = rw step (Has-append s 0 _) }

-- Whatever the string: strcpy does not fit, or the array holds a string.
pub strcpy-IsFieldArray :
    (s : CString) (l : List ℕ) → strcpy (memset_zero field_size) s ≡ some l → IsFieldArray l
strcpy-IsFieldArray s l e = elim (Bool-cases (ltb (length s) field_size)) [
  | inl i ↦
      let h = ltb→lt (length s) field_size i in
      let same : padded s ≡ l = ground (arith, strcpy-fits s h) in
      rw (← same) (padded-IsFieldArray s h)
  | inr i ↦ ground (arith, strcpy-overflows s (ltb→le (length s) field_size i))
]

-- A key whose two arrays hold strings.
pub record IsFilled (k : Key) : Type 0 where
  pub ip : IsFieldArray k.ip
  pub port : IsFieldArray k.port

printed-append : (s : CString) (rest : List ℕ) → IsCString s → printed (s ++ 0 ∷ rest) ≡ s
unfolding printed
printed-append [] rest c = refl
printed-append (x ∷ s) rest c = ground (arith, printed-append s rest c.1)

-- A string without a NUL and of less than 50 bytes: printf reads back from the array what strcpy
-- wrote into it.
pub printed-padded : (s : CString) → IsCString s → length s < field_size → printed (padded s) ≡ s
unfolding padded
printed-padded s c h =
    let step : field_size - length s ≡ suc (field_size - length s - 1) = omega arith in
    rw step (printed-append s (replicate (field_size - length s - 1) 0) c)

append_inj : (a b c d : List ℕ) → length a ≡ length b → a ++ c ≡ b ++ d → (a ≡ b) × (c ≡ d)
append_inj [] [] c d n e = (refl, e)
append_inj [] (y ∷ b) c d n e = absurd (omega arith)
append_inj (x ∷ a) [] c d n e = absurd (omega arith)
append_inj (x ∷ a) (y ∷ b) c d n e =
    let (p, q) = append_inj a b c d (omega arith) (ground arith) in (ground arith, q)

-- A string that a key can hold: no NUL inside, and room for the terminator.
pub record IsField (s : CString) : Type 0 where
  pub text : IsCString s
  pub fits : length s < field_size

padded-injective : (s t : CString) → IsField s → IsField t → padded s ≡ padded t → s ≡ t
padded-injective s t v w e =
    sym (printed-padded s v.text v.fits) ∙ ap printed e ∙ printed-padded t w.text w.fits

pub key_bytes-injective :
    (ip port ip' port' : CString)
    → IsField ip
    → IsField port
    → IsField ip'
    → IsField port'
    → key_bytes (endpoint_key ip port) ≡ key_bytes (endpoint_key ip' port')
    → (ip ≡ ip') × (port ≡ port')
unfolding key_bytes endpoint_key
key_bytes-injective ip port ip' port' a b a' b' e =
    let (p, q) =
      append_inj (padded ip) (padded ip') (padded port) (padded port')
        (length-padded ip a.fits ∙ sym (length-padded ip' a'.fits)) e in
    (padded-injective ip ip' a a' p, padded-injective port port' b b' q)
