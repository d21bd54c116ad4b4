-- ===== src/Log/Logger.antt =====
-- Loggers and their appenders (sylar/base/log.h, log.cpp: `Logger`, `LogAppender`, `StreamLogAppender`).
-- Shared pointers are numbers into a store, so two loggers can hold one appender. A formatter does not
-- change once it is made, and is its list of items.
mod Tests
pub mod Chain
pub mod Formatters
pub mod Delivery
use sylar_study.Prelude.{
  ℕ, zero, suc, Bool, true, false, not, List, [], ◌∷◌, ◌++◌, Option, none, some, ◌==◌,
  if◌then◌else◌, Outcome, ok, fault, assertion, undefined, thrown, ◌>>=◌, get, Bytes,
}
use sylar_study.Log.Level.{Level, debug, passes}
use sylar_study.Log.Pattern.{Item}
use sylar_study.Log.Format.{LogEvent, read, format}

abbrev pub Formatter : Type 0
Formatter = List Item

-- `target` is the stream that a `StreamLogAppender` writes to.
pub record Appender : Type 0 where
  pub level : Level
  pub has_special_formatter : Bool
  pub formatter : Option Formatter
  pub target : ℕ

pub record Logger : Type 0 where
  pub name : Bytes
  pub level : Level
  pub appender_array : List ℕ
  pub formatter : Option Formatter
  pub parent : Option ℕ

-- The objects, and what each stream was given.
pub record Store : Type 0 where
  pub loggers : ℕ → Option Logger
  pub appenders : ℕ → Option Appender
  pub streams : ℕ → Bytes

abbrev pub put_logger : ℕ → Logger → Store → Store
put_logger i l s = record s { loggers = λ j. if j == i then some l else s.loggers j }

abbrev pub put_appender : ℕ → Appender → Store → Store
put_appender i a s = record s { appenders = λ j. if j == i then some a else s.appenders j }

abbrev pub write : ℕ → Bytes → Store → Store
write i t s = record s { streams = λ j. if j == i then s.streams j ++ t else s.streams j }

-- The constructor of `Logger`.
abbrev pub new_logger : Bytes → Logger
new_logger name = record {
  name = name;
  level = debug;
  appender_array = [];
  formatter = none;
  parent = none;
}

abbrev pub is_null {ℓ} : {A : Type ℓ} → Option A → Bool
is_null none = true
is_null (some a) = false

-- `LogAppender::SetFormatter`.
pub appender_set_formatter : ℕ → Option Formatter → Store → Outcome Store
appender_set_formatter i f s = do
  a ← get (s.appenders i)
  ok (put_appender i (record a { formatter = f; has_special_formatter = not (is_null f) }) s)

-- `Logger::AddAppender`.
unfoldable pub add_appender : ℕ → ℕ → Store → Outcome Store
add_appender i j s = do
  l ← get (s.loggers i)
  a ← get (s.appenders j)
  let s1 =
      if a.has_special_formatter then s else put_appender j (record a { formatter = l.formatter }) s
  ok (put_logger i (record l { appender_array = l.appender_array ++ j ∷ [] }) s1)

-- `Logger::ClearAllAppender`.
unfoldable pub clear_all_appender : ℕ → Store → Outcome Store
clear_all_appender i s = do
  l ← get (s.loggers i)
  ok (put_logger i (record l { appender_array = [] }) s)

-- The loop of `Logger::SetFormatter`.
unfoldable pub spread : Option Formatter → List ℕ → Store → Outcome Store
spread f [] s = ok s
spread f (j ∷ js) s = do
  a ← get (s.appenders j)
  spread f js (
      if a.has_special_formatter
      then s
      else put_appender j (record a { formatter = f; has_special_formatter = false }) s)

-- `Logger::SetFormatter`.
unfoldable pub set_formatter : ℕ → Option Formatter → Store → Outcome Store
unfolding spread
set_formatter i f s = do
  l ← get (s.loggers i)
  spread f l.appender_array (put_logger i (record l { formatter = f }) s)

unfoldable pub set_log_level : ℕ → Level → Store → Outcome Store
set_log_level i v s = do l ← get (s.loggers i); ok (put_logger i (record l { level = v }) s)

-- The loop of `Logger::SetParent`: whether it meets `i`; `none` when the fuel runs out.
pub climb : ℕ → ℕ → Option ℕ → Store → Option (Outcome Bool)
climb zero i o s = none
climb (suc fuel) i none s = some (ok false)
climb (suc fuel) i (some j) s =
    if j == i
    then some (ok true)
    else elim (s.loggers j) [ none ↦ some (fault undefined) | some l ↦ climb fuel i l.parent s ]

adopt : ℕ → Option ℕ → Store → Bool → Outcome Store
adopt i p s true = fault thrown
adopt i p s false = do l ← get (s.loggers i); ok (put_logger i (record l { parent = p }) s)

-- `Logger::SetParent`.
unfoldable pub set_parent : ℕ → ℕ → Option ℕ → Store → Option (Outcome Store)
unfolding climb adopt
set_parent fuel i p s = elim (climb fuel i p s) [
  | none ↦ none
  | some o ↦ some (o >>= λ met. adopt i p s met)
]

module _ (put_time : Bytes → ℕ → Option Bytes) where
  -- `StreamLogAppender::Log`.
  pub appender_log : ℕ → LogEvent → Store → Outcome Store
  appender_log i e s = do
    a ← get (s.appenders i)
    f ← read a.formatter
    (if passes e.level a.level
        then (format put_time f e >>= λ t. ok (write a.target t s))
        else ok s)

  pub log_all : List ℕ → LogEvent → Store → Outcome Store
  unfolding appender_log
  log_all [] e s = ok s
  log_all (i ∷ is) e s = appender_log i e s >>= λ s1. log_all is e s1

  -- `Logger::Log`; `none` when the fuel runs out.
  pub log : ℕ → ℕ → LogEvent → Store → Option (Outcome Store)
  unfolding log_all
  log zero i e s = none
  log (suc fuel) i e s = elim (s.loggers i) [
    | none ↦ some (fault undefined)
    | some l ↦ elim (passes e.level l.level) [
      | false ↦ some (ok s)
      | true ↦ elim l.appender_array [
        | [] ↦ elim l.parent [ none ↦ some (fault assertion) | some p ↦ log fuel p e s ]
        | j ∷ js ↦ some (log_all (j ∷ js) e s)
      ]
    ]
  ]
