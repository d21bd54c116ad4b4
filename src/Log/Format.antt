-- ===== src/Log/Format.antt =====
-- Log events and the items of a formatter (sylar/base/log.h, log.cpp: `LogEvent`, the classes of items,
-- `LogFormatter::Format`). The C library's `localtime_r` and `put_time` are the parameter `put_time`.
use sylar_study.Prelude.{
  ℕ, List, [], ◌∷◌, ◌++◌, Option, none, some, Outcome, ok, fault, assertion, ◌>>=◌, Bytes, codes,
  decimal,
}
use sylar_study.Log.Level.{Level, to_string}
use sylar_study.Log.Pattern.{
  Item, msg, new_line, line_num, tab, file_name, thread_id, logger_name, log_level, routine_id,
  text, date_time,
}

-- `trigger` is the name of the logger that `trigger` points to; a null pointer is `none`.
pub record LogEvent : Type 0 where
  pub trigger : Option Bytes
  pub message : Bytes
  pub time : ℕ
  pub line : ℕ
  pub file : Option Bytes
  pub thread : ℕ
  pub routine : ℕ
  pub level : Level

-- `assert` of a pointer that is then read.
abbrev pub read {ℓ} : {A : Type ℓ} → Option A → Outcome A
read none = fault assertion
read (some a) = ok a

-- `SetMessage`.
pub set_message : Bytes → LogEvent → LogEvent
set_message m e = record e { message = e.message ++ m }

abbrev pub time_text : Option Bytes → Bytes
time_text none = codes "error time"
time_text (some t) = t

-- `put_time f t` is `none` when `localtime_r` fails.
module _ (put_time : Bytes → ℕ → Option Bytes) where
  -- `DoFormat` of each class of items.
  unfoldable pub do_format : Item → LogEvent → Outcome Bytes
  unfolding to_string
  do_format msg e = ok e.message
  do_format (text t) e = ok t
  do_format (date_time f) e = ok (time_text (put_time f e.time))
  do_format new_line e = ok (b'\r' ∷ b'\n' ∷ [])
  do_format line_num e = ok (decimal e.line)
  do_format tab e = ok (b'\t' ∷ [])
  do_format file_name e = read e.file
  do_format thread_id e = ok (decimal e.thread)
  do_format logger_name e = read e.trigger
  do_format log_level e = ok (codes (to_string e.level))
  do_format routine_id e = ok (decimal e.routine)

  -- `LogFormatter::Format`, with the text so far.
  unfoldable pub format_from : Bytes → List Item → LogEvent → Outcome Bytes
  unfolding do_format
  format_from str [] e = ok str
  format_from str (x ∷ xs) e = do_format x e >>= λ t. format_from (str ++ t) xs e

  unfoldable pub format : List Item → LogEvent → Outcome Bytes
  unfolding format_from
  format items e = format_from [] items e
