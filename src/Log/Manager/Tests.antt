-- ===== src/Log/Manager/Tests.antt =====
-- The logger manager as it is constructed, and the theorems on it.
use Prim.Native.String.{String}
use sylar_study.Prelude.{
  ℕ, ◌≡◌, ◌≢◌, refl, Bool, true, false, List, [], ◌∷◌, Option, none, some, ◌==◌, if◌then◌else◌, ok,
  Run, Bytes, codes, same_bytes, arith,
}
use sylar_study.Log.Level.{debug, info, warn}
use sylar_study.Log.Pattern.{msg}
use sylar_study.Log.Logger.{
  Logger, new_logger, set_parent, set_formatter, set_log_level, clear_all_appender,
}
use sylar_study.Log.Logger.Delivery.{Reaches}
use sylar_study.Log.Manager.{
  Manager, LoggerConfDefine, root_name, new_appender, get_logger, update_loggers, names,
}
use sylar_study.Log.Manager.Loggers.{child, get_logger-Reaches}
use sylar_study.Log.Manager.Defines.{AllRegistered, update_loggers-names}

abbrev root : Logger
root = record (new_logger root_name) { appender_array = 0 ∷ []; formatter = some (msg ∷ []) }

abbrev manager : Manager
manager = record {
  store = record {
    loggers = λ i. if i == 0 then some root else none;
    appenders = λ i.
        if i == 0
        then some (record (new_appender debug 0) { formatter = some (msg ∷ []) })
        else none;
    streams = λ i. [];
  };
  root_logger = 0;
  loggers = λ k. if same_bytes k root_name then some 0 else none;
  next_logger = 1;
  next_appender = 1;
}

missing : manager.loggers (codes "net") ≡ none
unfolding same_bytes
missing = refl

get_logger-Reaches_example :
    (m : Manager) × (i : ℕ) × (get_logger 2 (codes "net") manager ≡ some (ok (m, i)))
    × (get_logger 2 (codes "net") m ≡ some (ok (m, i)))
    × (m.store.loggers i ≡ some (child (codes "net") 0 root))
    × Reaches m.store warn i 0
get_logger-Reaches_example =
    get_logger-Reaches 2 (codes "net") manager root refl refl refl (omega arith) missing warn 0 []
      refl refl refl

abbrev no_file : Bytes → Option ℕ
no_file f = none

abbrev plain : String → LoggerConfDefine
plain name = record { name = codes name; level = info; format_pattern = []; appender_defs = [] }

abbrev result : Run Manager → Manager
result (some (ok m)) = m
result _ = manager

-- The root logger gives way to another.
abbrev before : List LoggerConfDefine
before = plain "SYLAR" ∷ []

abbrev wanted : List LoggerConfDefine
wanted = plain "net" ∷ []

chosen :
    (b : Bool)
    → (if b then true else false) ≡ true
    → if◌then◌else◌ {A = Option ℕ} b (some 0) none ≢ none
chosen true t h = cc
chosen false t h = cc

before-AllRegistered : AllRegistered no_file debug before manager
unfolding names
before-AllRegistered name t = chosen (same_bytes name root_name) t

update_run :
    update_loggers no_file debug 2 before wanted manager
    ≡ some (ok (result (update_loggers no_file debug 2 before wanted manager)))
unfolding update_loggers set_parent set_formatter set_log_level clear_all_appender same_bytes
update_run = refl

update_loggers-names_example :
    AllRegistered no_file debug wanted
      (result (update_loggers no_file debug 2 before wanted manager))
    × ((name : Bytes)
        → names no_file debug name before ≡ true
        → names no_file debug name wanted ≡ false
        → (result (update_loggers no_file debug 2 before wanted manager)).loggers name ≡ none)
update_loggers-names_example =
    update_loggers-names no_file debug 2 before wanted manager before-AllRegistered update_run
