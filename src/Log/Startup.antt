-- ===== src/Log/Startup.antt =====
-- The configuration variable `loggers`, which the program registers before `main` with the monitor that
-- makes and removes loggers (sylar/base/log.cpp: `__InitLoggersHelper`). What is outside the variable is
-- the manager of loggers; `fuel` is for the parents of loggers.
pub mod Loads
pub mod Files
mod Tests
use sylar_study.Prelude.{
  ℕ, Bool, true, false, ◌&&◌, List, [], ◌∷◌, Option, none, some, ◌==◌, length, if◌then◌else◌,
  Outcome, ok, fault, thrown, get, ◌>>=◌, ◌>=>◌, Run, Bytes, codes,
}
use sylar_study.Log.Level.{Level}
use sylar_study.Log.Manager.{Manager, LoggerConfDefine, same_define, contains, update_loggers}
use sylar_study.Log.Conf.{logger_from_string, logger_to_string}
use sylar_study.Config.Yaml.{Yaml}
use sylar_study.Config.Cast.{unordered_set_from_string}
use sylar_study.Config.Vars.{
  Types, AbsConfigVar, ConfigManager, add_or_update, add_monitor, load_from_file,
}

pub data Monitor : Type 0 where
  update_all : Monitor

abbrev pub is_thrown : Run Manager → Bool
is_thrown (some (fault thrown)) = true
is_thrown _ = false

module _ {N : Type 0} (yaml : Yaml N) (open_file : Bytes → Option ℕ) (garbage : Level)
    (fuel : ℕ) where
  abbrev pub all_in : List LoggerConfDefine → List LoggerConfDefine → Bool
  all_in [] other = true
  all_in (d ∷ ds) other = contains open_file garbage d other && all_in ds other

  -- The comparison of two sets.
  unfoldable pub same_set : List LoggerConfDefine → List LoggerConfDefine → Bool
  same_set a b = length a == length b && all_in a b

  -- The monitor, which leaves the manager alone once the process has stopped.
  unfoldable pub call :
      Monitor → List LoggerConfDefine → List LoggerConfDefine → Run Manager → Run Manager × Bool
  call update_all old now s =
      let r = s >=> update_loggers open_file garbage fuel old now in
      (r, if is_thrown r then false else true)

  unfoldable pub from : Bytes → Outcome (List LoggerConfDefine)
  from text =
      unordered_set_from_string yaml (logger_from_string yaml) (logger_to_string yaml) same_define
        text

  -- The only type of variables that this part of the program registers.
  abbrev pub loggers_types : Types Monitor (Run Manager)
  loggers_types = record {
    Val = λ t. List LoggerConfDefine;
    same = λ t. same_set;
    from = λ t. from;
    call = λ t. call;
  }

  abbrev pub with_monitor : AbsConfigVar loggers_types → AbsConfigVar loggers_types
  with_monitor v = record { type_of = v.type_of; var = (add_monitor update_all 0 v.var).0 }

  -- The constructor of `__InitLoggersHelper`, with the counter of monitors at its first value.
  unfoldable pub init_loggers : ConfigManager loggers_types → Outcome (ConfigManager loggers_types)
  unfolding add_or_update add_monitor
  init_loggers w = do
    r ← add_or_update loggers_types 0 (codes "loggers") [] (codes "loggers config") w
    i ← get r.1
    v ← get (r.0.vars i)
    ok (record r.0 { vars = λ j. if j == i then some (with_monitor v) else r.0.vars j })

  -- Several documents are loaded one after the other.
  unfoldable pub load_files :
      ℕ → List Bytes → ConfigManager loggers_types → Run (ConfigManager loggers_types)
  unfolding load_from_file
  load_files depth [] w = some (ok w)
  load_files depth (text ∷ texts) w =
      load_from_file loggers_types yaml depth text w >=> λ w1. load_files depth texts w1
