-- ===== src/Log/Startup/Tests.antt =====
-- The theorem on the variable `loggers` at a document that defines one logger.
use sylar_study.Prelude.{
  ℕ, ◌≡◌, refl, [], ◌∷◌, Option, none, some, ◌==◌, if◌then◌else◌, ok, ◌>=>◌, Run, Bytes, codes,
  same_bytes,
}
use sylar_study.Log.Level.{debug}
use sylar_study.Log.Pattern.{msg}
use sylar_study.Log.Logger.{
  Logger, new_logger, set_parent, set_formatter, set_log_level, clear_all_appender,
}
use sylar_study.Log.Manager.{Manager, root_name, new_appender, update_loggers}
use sylar_study.Log.Startup.{init_loggers, load_files, from, call, same_set}
use sylar_study.Log.Startup.Files.{Config, IsSetUp, load_files-IsSetUp}
use sylar_study.Config.Cast.{unordered_set_from_string}
use sylar_study.Log.Conf.{logger_from_string}
use sylar_study.Config.Notation.{notation}

abbrev root : Logger
root = record (new_logger root_name) { appender_array = 0 ∷ []; formatter = some (msg ∷ []) }

abbrev manager : Manager
manager = record {
  store = record {
    loggers = λ i. if i == 0 then some root else none;
    appenders = λ i.
        if i == 0
        then some (record (new_appender debug 0) { formatter = some (msg ∷ []) })
        else none;
    streams = λ i. [];
  };
  root_logger = 0;
  loggers = λ k. if same_bytes k root_name then some 0 else none;
  next_logger = 1;
  next_appender = 1;
}

abbrev no_file : Bytes → Option ℕ
no_file f = none

abbrev before_main : Config notation no_file debug 2
before_main = record {
  configs = λ name. none;
  vars = λ i. none;
  next_var = 0;
  outside = some (ok manager);
}

-- loggers: [{name: net}]
abbrev document : Bytes
document = notation.mapping (
    (
      codes "loggers",
      notation.sequence
          (notation.mapping ((codes "name", notation.scalar_of (codes "net")) ∷ []) ∷ []),
    )
    ∷ [])

abbrev result : Run (Config notation no_file debug 2) → Config notation no_file debug 2
result (some (ok w)) = w
result _ = before_main

abbrev started : Run (Config notation no_file debug 2)
started =
    some (init_loggers notation no_file debug 2 before_main)
    >=> load_files notation no_file debug 2 4 (document ∷ document ∷ [])

started_run : started ≡ some (ok (result started))
unfolding init_loggers load_files from call same_set update_loggers set_parent set_formatter
    set_log_level clear_all_appender same_bytes unordered_set_from_string logger_from_string
started_run = refl

load_files-IsSetUp_example : IsSetUp notation no_file debug 2 (result started)
load_files-IsSetUp_example =
    load_files-IsSetUp notation no_file debug 2 4 (document ∷ document ∷ []) before_main
      (λ name. refl) started_run

-- The document has made a logger.
net_is_there :
    ((result started).outside >=> λ m. some (ok (m.loggers (codes "net")))) ≡ some (ok (some 1))
unfolding init_loggers load_files from call same_set update_loggers set_parent set_formatter
    set_log_level clear_all_appender same_bytes unordered_set_from_string logger_from_string
net_is_there = refl
