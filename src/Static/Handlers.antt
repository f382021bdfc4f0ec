-- ===== src/Static/Handlers.antt =====
-- modbusd.c: the request handlers keep the contracts of their comments.
use modbusd.Prelude.{
  ℕ, suc, ◌≤◌, ◌≡◌, refl, ap, inl, inr, Option, [], ◌∷◌, false, arith, CString, c_str, str_eq, Has,
  ◌==◌, ==_iff, Bool-cases, le→ltb, lt→ltb,
}
use modbusd.Prelude.Int.{ℤ, pos, IsInt32}
use modbusd.Env.{Env}
use modbusd.Env.Laws.{ModbusLaws, JsonLaws}
use modbusd.Daemon.{Daemon, Ptr, M, ok, ◌>>=◌}
use modbusd.Json.Fields.{HasInt, json_get_int-HasInt}
use modbusd.Response.{modbus_set_error_resp}
use modbusd.Response.Readback.{modbus_set_error_resp-IsReply}
use modbusd.Request.{
  zeroed_array, mbtcp_read_bit_req, mbtcp_read_reg_req, mbtcp_single_write_req,
  mbtcp_multi_write_req,
}
use modbusd.Request.Reads.{read_bit_answers, read_reg_answers, read_bit_too_many, read_reg_too_many}
use modbusd.Request.Writes.{
  single_write_answers, multi_write_bits_answers, multi_write_registers_answers,
}
use modbusd.Static.{
  Refused, ReadBitContract, ReadRegContract, SingleWriteContract, MultiWriteContract,
}

module _ (fc a b : ℕ) (other : ¬ Has fc (a ∷ b ∷ [])) where
  not_first : fc == a ≡ false
  not_first = elim (Bool-cases (fc == a)) [
    | inl e ↦ absurd (other (inl ((==_iff fc a).0 e)))
    | inr e ↦ e
  ]

  not_second : fc == b ≡ false
  not_second = elim (Bool-cases (fc == b)) [
    | inl e ↦ absurd (other (inr (inl ((==_iff fc b).0 e))))
    | inr e ↦ e
  ]

module _ {E : Env} (json : JsonLaws E) (tid : ℤ) (small : IsInt32 tid) (s : Daemon E) where
  refuses :
      (m : M E CString) (reason : CString)
      → str_eq reason (c_str "ok") ≡ false
      → m s ≡ ok (modbus_set_error_resp E tid reason, s)
      → Refused E tid m s
  refuses m reason e h = (
    reason,
    modbus_set_error_resp E tid reason,
    λ i. ground (arith, ap (λ x. str_eq x (c_str "ok")) i),
    modbus_set_error_resp-IsReply json tid small reason,
    h,
  )

module _ {E : Env} (tid : ℤ) (req : Option E.Json) (addr : ℤ)
    (has_addr : HasInt E req (c_str "addr") addr) (has_tid : HasInt E req (c_str "tid") tid)
    (s : Daemon E) (fc : ℕ) (p : Ptr) where
  module _ (n : ℕ) (has_len : HasInt E req (c_str "len") (pos (suc n))) where
    read_bit_wrong :
        suc n ≤ 2000
        → ¬ Has fc (1 ∷ 2 ∷ [])
        → mbtcp_read_bit_req E fc p req s
          ≡ ok (modbus_set_error_resp E tid (c_str "Wrong function code"), s)
    unfolding mbtcp_read_bit_req zeroed_array ◌>>=◌
    read_bit_wrong few other = rw (
      json_get_int-HasInt E req _ addr has_addr s,
      json_get_int-HasInt E req _ _ has_len s,
      json_get_int-HasInt E req _ tid has_tid s,
      le→ltb 2000 (suc n) few,
      not_first fc 1 2 other,
      not_second fc 1 2 other,
    )

    read_reg_wrong :
        suc n ≤ 125
        → ¬ Has fc (3 ∷ 4 ∷ [])
        → mbtcp_read_reg_req E fc p req s
          ≡ ok (modbus_set_error_resp E tid (c_str "Wrong function code"), s)
    unfolding mbtcp_read_reg_req zeroed_array ◌>>=◌
    read_reg_wrong few other = rw (
      json_get_int-HasInt E req _ addr has_addr s,
      json_get_int-HasInt E req _ _ has_len s,
      json_get_int-HasInt E req _ tid has_tid s,
      le→ltb 125 (suc n) few,
      not_first fc 3 4 other,
      not_second fc 3 4 other,
    )

  single_write_wrong :
      (value : ℤ)
      → HasInt E req (c_str "data") value
      → ¬ Has fc (5 ∷ 6 ∷ [])
      → mbtcp_single_write_req E fc p req s
        ≡ ok (modbus_set_error_resp E tid (c_str "Wrong function code"), s)
  unfolding mbtcp_single_write_req ◌>>=◌
  single_write_wrong value has_data other = rw (
    json_get_int-HasInt E req _ addr has_addr s,
    json_get_int-HasInt E req _ tid has_tid s,
    json_get_int-HasInt E req _ value has_data s,
    not_first fc 5 6 other,
    not_second fc 5 6 other,
  )

  multi_write_wrong :
      (len : ℤ)
      → HasInt E req (c_str "len") len
      → ¬ Has fc (15 ∷ 16 ∷ [])
      → mbtcp_multi_write_req E fc p req s
        ≡ ok (modbus_set_error_resp E tid (c_str "Wrong function code"), s)
  unfolding mbtcp_multi_write_req ◌>>=◌
  multi_write_wrong len has_len other = rw (
    json_get_int-HasInt E req _ addr has_addr s,
    json_get_int-HasInt E req _ len has_len s,
    json_get_int-HasInt E req _ tid has_tid s,
    not_first fc 15 16 other,
    not_second fc 15 16 other,
  )

module _ {E : Env} (modbus : ModbusLaws E) (json : JsonLaws E) where
  pub read_bit-Contract : ReadBitContract E (mbtcp_read_bit_req E)
  read_bit-Contract tid small req addr n has_addr has_len has_tid s = (
    λ few p h at. (
      read_bit_answers modbus 1 req s addr tid n has_addr has_len has_tid p h at _ few refl,
      read_bit_answers modbus 2 req s addr tid n has_addr has_len has_tid p h at _ few refl,
    ),
    λ few fc p other.
        refuses json tid small s (mbtcp_read_bit_req E fc p req) (c_str "Wrong function code") refl
          (read_bit_wrong tid req addr has_addr has_tid s fc p n has_len few other),
    λ many fc p.
        refuses json tid small s (mbtcp_read_bit_req E fc p req) (c_str "Too many bits requested")
          refl
          (read_bit_too_many fc req s addr (pos (suc n)) tid has_addr has_len has_tid p
            (lt→ltb 2000 (suc n) many)),
  )

  pub read_reg-Contract : ReadRegContract E (mbtcp_read_reg_req E)
  read_reg-Contract tid small req addr n has_addr has_len has_tid s = (
    λ few p h at. (
      read_reg_answers modbus 3 req s addr tid n has_addr has_len has_tid p h at _ few refl,
      read_reg_answers modbus 4 req s addr tid n has_addr has_len has_tid p h at _ few refl,
    ),
    λ few fc p other.
        refuses json tid small s (mbtcp_read_reg_req E fc p req) (c_str "Wrong function code") refl
          (read_reg_wrong tid req addr has_addr has_tid s fc p n has_len few other),
    λ many fc p.
        refuses json tid small s (mbtcp_read_reg_req E fc p req)
          (c_str "Too many registers requested") refl
          (read_reg_too_many fc req s addr (pos (suc n)) tid has_addr has_len has_tid p
            (lt→ltb 125 (suc n) many)),
  )

module _ {E : Env} (json : JsonLaws E) where
  pub single_write-Contract : SingleWriteContract E (mbtcp_single_write_req E)
  single_write-Contract tid small req addr value has_addr has_tid has_data s = (
    λ p h at. single_write_answers req s addr tid value has_addr has_tid has_data p h at,
    λ fc p other.
        refuses json tid small s (mbtcp_single_write_req E fc p req) (c_str "Wrong function code")
          refl (single_write_wrong tid req addr has_addr has_tid s fc p value has_data other),
  )

  pub multi_write-Contract : MultiWriteContract E json (mbtcp_multi_write_req E)
  multi_write-Contract tid small req addr n short has_addr has_len has_tid items has_data s = (
    λ fits p h at. (
      λ got.
          multi_write_bits_answers json req s addr tid n short has_addr has_len has_tid items
            has_data p h at got fits,
      λ got.
          multi_write_registers_answers json req s addr tid n short has_addr has_len has_tid items
            has_data p h at got fits,
    ),
    λ fc p other.
        refuses json tid small s (mbtcp_multi_write_req E fc p req) (c_str "Wrong function code")
          refl (multi_write_wrong tid req addr has_addr has_tid s fc p (pos n) has_len other),
  )
