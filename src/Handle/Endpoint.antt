-- ===== src/Handle/Endpoint.antt =====
-- modbusd.c, `lazy_init_mbtcp_handle`: which requests get as far as the table. The others stop at a
-- missing member or at a string that a key cannot hold.
use modbusd.Prelude.{
  ◌≡◌, ◌<◌, ◌≤◌, refl, ◌⊎◌, inl, inr, Option, none, some, CString, IsCString, c_str, length, ltb,
  ltb→lt, ltb→le, Bool-cases, Option-cases,
}
use modbusd.Env.{Env}
use modbusd.Key.{field_size}
use modbusd.Key.Layout.{IsField, padded}
use modbusd.Daemon.{Daemon, Stop, ok, stop, null_pointer, buffer_overflow, ◌>>=◌}
use modbusd.Json.{json_get_char}
use modbusd.Json.Fields.{HasText, json_get_char-missing}
use modbusd.Handle.Lookup.{copy_field-fits, copy_field-overflows}
use modbusd.Handle.{copy_field, fill_key, mbtcp_get_handle, get_or_init, lazy_init_mbtcp_handle}

length-cases : (t : CString) → (length t < field_size) ⊎ (field_size ≤ length t)
length-cases t = elim (Bool-cases (ltb (length t) field_size)) [
  | inl e ↦ inl (ltb→lt (length t) field_size e)
  | inr e ↦ inr (ltb→le (length t) field_size e)
]

-- The address and the port of a request are C strings.
abbrev pub IsPlain : (E : Env) → Option E.Json → Type 0
IsPlain E req =
    ((t : CString) → HasText E req (c_str "ip") t → IsCString t)
    × ((t : CString) → HasText E req (c_str "port") t → IsCString t)

module _ {E : Env} where
  -- What reading a member gives: a fault, or its string or NULL, in every state.
  Member-cases :
      (req : Option E.Json) (key : CString)
      → ((s : Daemon E) → json_get_char E req key s ≡ stop null_pointer)
        ⊎ ((text : Option CString) × ((s : Daemon E) → json_get_char E req key s ≡ ok (text, s))
            × ((t : CString) → text ≡ some t → HasText E req key t))
  unfolding json_get_char ◌>>=◌
  Member-cases req key = elim (Option-cases (E.cjson_get_object_item req key)) [
    | inl e ↦ inl (json_get_char-missing E req key e)
    | inr (j, e) ↦ inr (E.valuestring j, λ s. rw e refl, λ t v. (j, e, v))
  ]

  -- Copying a string to a field: a fault in every state, or it is a string that fits.
  Copy-cases :
      (text : Option CString)
      → ((t : CString) → text ≡ some t → IsCString t)
      → ((e : Stop) × ((s : Daemon E) → copy_field E text s ≡ stop e))
        ⊎ ((a : CString) × (text ≡ some a)
            × IsField a
            × ((s : Daemon E) → copy_field E text s ≡ ok (padded a, s)))
  unfolding copy_field
  Copy-cases none plain = inl (null_pointer, λ s. refl)
  Copy-cases (some a) plain = elim (length-cases a) [
    | inr long ↦ inl (buffer_overflow, copy_field-overflows E a long)
    | inl short ↦
        let field : IsField a = record { text = plain a refl; fits = short } in
        inr (a, refl, field, copy_field-fits E a field)
  ]

  -- Filling a key with two strings: a fault in every state, or both are strings that fit.
  Fill-cases :
      (ip port : Option CString)
      → ((t : CString) → ip ≡ some t → IsCString t)
      → ((t : CString) → port ≡ some t → IsCString t)
      → ((e : Stop) × ((s : Daemon E) → fill_key E ip port s ≡ stop e))
        ⊎ ((a b : CString) × (ip ≡ some a) × (port ≡ some b) × IsField a × IsField b)
  unfolding fill_key ◌>>=◌
  Fill-cases ip port plain plain' = elim (Copy-cases ip plain) [
    | inl (e, stops) ↦ inl (e, λ s. rw (stops s) refl)
    | inr (a, e, field, copied) ↦ elim (Copy-cases port plain') [
      | inl (e', stops) ↦ inl (e', λ s. rw (copied s) (rw (stops s) refl))
      | inr (b, e', field', copied') ↦ inr (a, b, e, e', field, field')
    ]
  ]

  module _ (req : Option E.Json) where
    -- A request whose handle is looked up: it has an address and a port that a key can hold, or it
    -- stops, whatever the state.
    pub Endpoint-cases :
        IsPlain E req
        → ((e : Stop) × ((s : Daemon E) → lazy_init_mbtcp_handle E req s ≡ stop e))
          ⊎ ((ip port : CString) × HasText E req (c_str "ip") ip
              × HasText E req (c_str "port") port
              × IsField ip
              × IsField port)
    unfolding lazy_init_mbtcp_handle get_or_init mbtcp_get_handle ◌>>=◌
    Endpoint-cases (plain, plain') = elim (Member-cases req (c_str "ip")) [
      | inl stops ↦ inl (null_pointer, λ s. rw (stops s) refl)
      | inr (ip, reads, has) ↦ elim (Member-cases req (c_str "port")) [
        | inl stops ↦ inl (null_pointer, λ s. rw (reads s) (rw (stops s) refl))
        | inr (port, reads', has') ↦
            elim (Fill-cases ip port (λ t e. plain t (has t e)) (λ t e. plain' t (has' t e))) [
              | inl (e, stops) ↦ inl (e, λ s. rw (reads s) (rw (reads' s) (rw (stops s) refl)))
              | inr (a, b, e, e', field, field') ↦ inr (a, b, has a e, has' b e', field, field')
            ]
      ]
    ]
