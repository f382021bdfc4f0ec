-- ===== src/Log.antt =====
-- log.h: the macros ERR, LOG, BEGIN and END, as the list of what they write. `text` is the formatted
-- line; the macros differ in the prefix on the standard output and in the syslog priority.
pub mod Lines
use modbusd.Prelude.{
  ℕ, suc, ◌-◌, List, [], ◌∷◌, ◌++◌, CString, c_str, take, if◌then◌else◌, length, ◌≡◌, refl, ◌≤◌,
  ◌<◌,
}
use modbusd.Prelude.Int.{ℤ, pos, eqb_ℤ}

-- MSG_LEN
abbrev pub msg_len : ℕ
msg_len = 256

pub data Macro : Type 0 where
  err log begin end : Macro

pub data Priority : Type 0 where
  log_err log_info log_debug : Priority

pub data Written : Type 0 where
  on_stdout : CString → Written
  on_syslog : Priority → CString → Written

unfoldable pub prefix : Macro → CString
prefix err = c_str "[ERROR]"
prefix log = c_str "[LOG]"
prefix begin = []
prefix end = []

unfoldable pub priority : Macro → Priority
priority err = log_err
priority log = log_info
priority begin = log_debug
priority end = log_debug

-- snprintf (cstr, sizeof (cstr), …): the terminator takes one byte.
unfoldable pub snprintf : ℕ → CString → CString
snprintf size text = take (size - 1) text

-- The switch: case 1 has no break and goes on to the default.
unfoldable pub emit : Macro → ℤ → CString → List Written
unfolding snprintf prefix priority
emit m flag text =
    let cstr = snprintf msg_len text in
    if eqb_ℤ flag (pos 0)
    then []
    else if eqb_ℤ flag (pos 1)
    then on_stdout (prefix m ++ cstr ++ c_str "\n") ∷ on_syslog (priority m) cstr ∷ []
    else on_syslog (priority m) cstr ∷ []
