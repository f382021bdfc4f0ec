-- ===== src/Handle/Fill.antt =====
-- modbusd.c: filling a key reads and writes no state. It stops always, or it gives one key always.
use modbusd.Prelude.{
  ℕ, ◌≡◌, refl, ◌⊎◌, inl, inr, none, some, Option, List, CString, Option-cases, fun_ext,
}
use modbusd.Env.{Env}
use modbusd.Key.{Key, strcpy, memset_zero, field_size}
use modbusd.Key.Layout.{IsFieldArray, IsFilled, strcpy-IsFieldArray}
use modbusd.Daemon.{Daemon, Stop, ok, stop, null_pointer, buffer_overflow, fail, pure, ◌>>=◌}
use modbusd.Handle.{copy_field, fill_key}

module _ (E : Env) where
  copy_field-some :
      (src : CString) (s : Daemon E)
      → (strcpy (memset_zero field_size) src ≡ none
          → copy_field E (some src) s ≡ stop buffer_overflow)
        × ((l : List ℕ)
            → strcpy (memset_zero field_size) src ≡ some l
            → copy_field E (some src) s ≡ ok (l, s))
  unfolding copy_field
  copy_field-some src s = (λ e. rw (e, copy_field), λ l e. rw (e, copy_field))

  copy_field-result :
      (text : Option CString)
      → ((e : Stop) × (copy_field E text ≡ fail e))
        ⊎ ((l : List ℕ) × IsFieldArray l × (copy_field E text ≡ pure l))
  unfolding copy_field ◌>>=◌
  copy_field-result none = inl (null_pointer, refl)
  copy_field-result (some src) = elim (Option-cases (strcpy (memset_zero field_size) src)) [
    | inl e ↦ inl (buffer_overflow, fun_ext (λ s. (copy_field-some src s).0 e))
    | inr (l, e) ↦
        inr (l, strcpy-IsFieldArray src l e, fun_ext (λ s. (copy_field-some src s).1 l e))
  ]

  -- Both arrays of a key that is filled hold strings.
  pub fill_key-result :
      (ip port : Option CString)
      → ((e : Stop) × (fill_key E ip port ≡ fail e))
        ⊎ ((k : Key) × IsFilled k × (fill_key E ip port ≡ pure k))
  unfolding fill_key ◌>>=◌
  fill_key-result ip port = elim (copy_field-result ip) [
    | inl (e, p) ↦ inl (e, rw p refl)
    | inr (l, i, p) ↦ elim (copy_field-result port) [
      | inl (e, q) ↦ inl (e, rw (p, q) refl)
      | inr (r, j, q) ↦
          inr (record { ip = l; port = r }, record { ip = i; port = j }, rw (p, q) refl)
    ]
  ]
