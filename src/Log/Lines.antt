-- ===== src/Log/Lines.antt =====
-- log.h: where a line goes for each value of the flag, and how long it can be.
use modbusd.Prelude.{
  ◌<◌, ◌≡◌, ◌≢◌, [], ◌∷◌, ◌++◌, CString, c_str, take, length, length-take-le, arith,
}
use modbusd.Prelude.Int.{ℤ, pos, eqb_ℤ_iff}
use modbusd.Log.{Macro, on_stdout, on_syslog, msg_len, prefix, priority, snprintf, emit}

-- The first 255 bytes of a text.
abbrev pub line : CString → CString
line text = take 255 text

-- The lines that a macro writes, for every text and every flag: none for 0; for 1, the line with its
-- prefix on the standard output and, since the case falls through, the same line to syslog; for any
-- other flag the line to syslog alone. The line is the first 255 bytes of the text, no longer.
pub emit_lines :
    (m : Macro) (text : CString) (flag : ℤ)
    → (flag ≡ pos 0 → emit m flag text ≡ [])
      × (flag ≡ pos 1
          → emit m flag text
            ≡ on_stdout (prefix m ++ line text ++ c_str "\n")
              ∷ on_syslog (priority m) (line text)
              ∷ [])
      × (flag ≢ pos 0 → flag ≢ pos 1 → emit m flag text ≡ on_syslog (priority m) (line text) ∷ [])
      × (length (line text) < msg_len)
unfolding emit snprintf
emit_lines m text flag = (
  λ e. rw e,
  λ e. rw e,
  λ n k. ground (arith, eqb_ℤ_iff flag (pos 0), eqb_ℤ_iff flag (pos 1)),
  omega (arith, length-take-le 255 text),
)
