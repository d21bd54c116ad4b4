-- ===== src/Log/Manager.antt =====
-- `LoggerManager` and the loggers that the configuration asks for (sylar/base/log.cpp). Streams are
-- numbers: 0 is std::cout, 1 is std::cerr. The parameter `open_file` gives the stream of a file, and
-- `garbage` is the level that the constructor of an appender leaves unset.
pub mod Loggers
pub mod Defines
mod Tests
use sylar_study.Prelude.{
  ℕ, suc, ◌+◌, Bool, true, false, not, ◌&&◌, List, [], ◌∷◌, Option, none, some, ◌==◌, if◌then◌else◌,
  Outcome, ok, fault, assertion, undefined, check, ◌>>=◌, ◌>>◌, Run, ◌>=>◌, get, Bytes, codes,
  same_bytes,
}
use sylar_study.Log.Level.{Level, rank}
use sylar_study.Log.Pattern.{parse}
use sylar_study.Log.Logger.{
  Appender, Logger, Store, Formatter, put_logger, put_appender, new_logger, add_appender,
  clear_all_appender, set_formatter, set_log_level, set_parent, appender_set_formatter,
}

pub record Manager : Type 0 where
  pub store : Store
  pub root_logger : ℕ
  pub loggers : Bytes → Option ℕ
  pub next_logger : ℕ
  pub next_appender : ℕ

-- SYLAR_ROOT_LOGGER_NAME.
abbrev pub root_name : Bytes
root_name = codes "SYLAR"

abbrev pub empty_store : Store
empty_store = record { loggers = λ i. none; appenders = λ i. none; streams = λ i. [] }

abbrev pub new_appender : Level → ℕ → Appender
new_appender garbage target = record {
  level = garbage;
  has_special_formatter = false;
  formatter = none;
  target = target;
}

abbrev pub register : Bytes → ℕ → Manager → Manager
register name i m = record m { loggers = λ k. if same_bytes k name then some i else m.loggers k }

abbrev pub make_logger : Bytes → Manager → Manager × ℕ
make_logger name m = (
  record m {
    store = put_logger m.next_logger (new_logger name) m.store;
    next_logger = suc m.next_logger;
  },
  m.next_logger,
)

abbrev pub make_appender : Level → ℕ → Manager → Manager × ℕ
make_appender garbage target m = (
  record m {
    store = put_appender m.next_appender (new_appender garbage target) m.store;
    next_appender = suc m.next_appender;
  },
  m.next_appender,
)

-- The constructor of `LoggerManager`.
pub new_manager : Level → Outcome Manager
new_manager garbage = do
  f ← parse (codes "%d{%Y-%m-%d %H:%M:%S}%t%T%t%R%t[%L]%t[%c]%t%f:%l%t%m")
  s1 ← set_formatter 0 (some f.0) (put_logger 0 (new_logger root_name) empty_store)
  s2 ← add_appender 0 0 (put_appender 0 (new_appender garbage 0) s1)
  ok (
      register root_name 0 (record {
        store = s2;
        root_logger = 0;
        loggers = λ k. none;
        next_logger = 1;
        next_appender = 1;
      }))

-- `InitLoggerAndAppend`, behind its assertion.
pub init_logger_and_append : ℕ → Bytes → Manager → Run (Manager × ℕ)
init_logger_and_append fuel name m =
    let (m1, i) = make_logger name m in
    set_parent fuel i (some m.root_logger) m1.store >=> λ s. some (
      get (s.loggers m.root_logger) >>= λ root.
      set_formatter i root.formatter s >>= λ s1. ok (register name i (record m1 { store = s1 }), i))

-- `GetLogger`.
pub get_logger : ℕ → Bytes → Manager → Run (Manager × ℕ)
unfolding init_logger_and_append
get_logger fuel name m = elim (m.loggers name) [
  | some i ↦ some (ok (m, i))
  | none ↦ init_logger_and_append fuel name m
]

-- `RemoveLogger`.
pub remove_logger : Bytes → Manager → Manager
remove_logger name m = record m { loggers = λ k. if same_bytes k name then none else m.loggers k }

pub record LogAppenderDefine : Type 0 where
  pub level : Level
  pub format_pattern : Bytes
  pub type : Bytes
  pub meta : Bytes

pub record LoggerConfDefine : Type 0 where
  pub name : Bytes
  pub level : Level
  pub format_pattern : Bytes
  pub appender_defs : List LogAppenderDefine

abbrev pub is_empty : Bytes → Bool
is_empty [] = true
is_empty (c ∷ cs) = false

-- What `result` is behind the tests on the type: returned as null, still null, or a new appender.
pub data Created : Type 0 where
  rejected null : Created
  writes_to : ℕ → Created

abbrev pub opened : Option ℕ → Created
opened (some k) = writes_to k
opened none = rejected

-- `operator==` of the definitions.
pub same_appender : LogAppenderDefine → LogAppenderDefine → Bool
same_appender a b =
    rank a.level == rank b.level
    && same_bytes a.format_pattern b.format_pattern
    && same_bytes a.type b.type
    && same_bytes a.meta b.meta

pub same_appenders : List LogAppenderDefine → List LogAppenderDefine → Bool
unfolding same_appender
same_appenders [] [] = true
same_appenders [] (b ∷ bs) = false
same_appenders (a ∷ as_) [] = false
same_appenders (a ∷ as_) (b ∷ bs) = same_appender a b && same_appenders as_ bs

pub same_define : LoggerConfDefine → LoggerConfDefine → Bool
unfolding same_appenders
same_define a b =
    same_bytes a.name b.name
    && rank a.level == rank b.level
    && same_bytes a.format_pattern b.format_pattern
    && same_appenders a.appender_defs b.appender_defs

-- The null pointer that `SetFormatter` or `SetLogLevel` is called on.
pub use_null : Bytes → Outcome (Manager × Option ℕ)
use_null pattern =
    if is_empty pattern then fault undefined else (parse pattern >>= λ f. fault undefined)

module _ (open_file : Bytes → Option ℕ) (garbage : Level) where
  pub created : LogAppenderDefine → Created
  created d =
      if same_bytes d.type (codes "console")
      then if same_bytes d.meta (codes "out")
        then writes_to 0
        else if same_bytes d.meta (codes "error")
        then writes_to 1
        else null
      else if same_bytes d.type (codes "file")
      then opened (open_file d.meta)
      else rejected

  -- The formatter and the level of a new appender.
  pub furnish : LogAppenderDefine → ℕ → Store → Outcome Store
  furnish d j s = do
    s1 ←
        (if is_empty d.format_pattern
          then ok s
          else (parse d.format_pattern >>= λ f. appender_set_formatter j (some f.0) s))
    a ← get (s1.appenders j)
    ok (put_appender j (record a { level = d.level }) s1)

  -- `LogAppenderDefine::GenerateInstance`.
  pub generate_appender : LogAppenderDefine → Manager → Outcome (Manager × Option ℕ)
  unfolding created furnish use_null
  generate_appender d m = elim (created d) [
    | rejected ↦ ok (m, none)
    | null ↦ use_null d.format_pattern
    | writes_to k ↦
        (furnish d m.next_appender (make_appender garbage k m).0.store >>= λ s.
        ok (record (make_appender garbage k m).0 { store = s }, some m.next_appender))
  ]

  -- The loop over the definitions of appenders.
  pub add_appenders : ℕ → List LogAppenderDefine → Manager → Outcome Manager
  unfolding generate_appender
  add_appenders i [] m = ok m
  add_appenders i (d ∷ ds) m = do
    r ← generate_appender d m
    s ← elim r.1 [ none ↦ ok r.0.store | some j ↦ add_appender i j r.0.store ]
    add_appenders i ds (record r.0 { store = s })

  -- The formatter that a definition asks for.
  pub asked_formatter : ℕ → Bytes → Manager → Run (Manager × Option Formatter)
  unfolding get_logger
  asked_formatter fuel pattern m =
      if is_empty pattern
      then (get_logger fuel root_name m >=> λ r.
          some (get (r.0.store.loggers r.1) >>= λ root. ok (r.0, root.formatter)))
      else some (parse pattern >>= λ f. ok (m, some f.0))

  -- `LoggerConfDefine::GenerateInstance`.
  pub generate_logger : ℕ → LoggerConfDefine → Manager → Run Manager
  unfolding get_logger asked_formatter add_appenders
  generate_logger fuel d m = some (check (not (is_empty d.name))) >=> λ _.
      get_logger fuel d.name m >=> λ r. some (set_log_level r.1 d.level r.0.store) >=> λ s.
      asked_formatter fuel d.format_pattern (record r.0 { store = s }) >=> λ q. some (
        set_formatter r.1 q.1 q.0.store >>= λ s2. clear_all_appender r.1 s2 >>= λ s3.
        add_appenders r.1 d.appender_defs (record q.0 { store = s3 }))

  pub contains : LoggerConfDefine → List LoggerConfDefine → Bool
  unfolding same_define
  contains d [] = false
  contains d (x ∷ xs) = if same_define d x then true else contains d xs

  pub names : Bytes → List LoggerConfDefine → Bool
  names name [] = false
  names name (x ∷ xs) = if same_bytes name x.name then true else names name xs

  -- The first loop of the monitor: what is not in the old set is made.
  pub make_new : ℕ → List LoggerConfDefine → List LoggerConfDefine → Manager → Run Manager
  unfolding generate_logger contains
  make_new fuel old [] m = some (ok m)
  make_new fuel old (d ∷ ds) m =
      (if contains d old then some (ok m) else generate_logger fuel d m) >=> λ m1.
      make_new fuel old ds m1

  -- The second loop: names that are missing in the new set are removed.
  pub remove_missing : List LoggerConfDefine → List LoggerConfDefine → Manager → Manager
  unfolding names remove_logger
  remove_missing now [] m = m
  remove_missing now (d ∷ ds) m =
      remove_missing now ds (if names d.name now then m else remove_logger d.name m)

  -- The monitor of the configuration of loggers, on the sets in the order of their iteration.
  unfoldable pub update_loggers :
      ℕ → List LoggerConfDefine → List LoggerConfDefine → Manager → Run Manager
  unfolding make_new remove_missing
  update_loggers fuel old now m =
      make_new fuel old now m >=> λ m1. some (ok (remove_missing now old m1))
