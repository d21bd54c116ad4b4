-- ===== src/Log/Conf.antt =====
-- The casts of the definitions of loggers and appenders from and to YAML (sylar/base/log.cpp:
-- `LexicalCast` of `LogAppenderDefine` and `LoggerConfDefine`).
pub mod ReadBack
mod Tests
use sylar_study.Prelude.{
  ◌==◌, Bool, true, false, List, [], ◌∷◌, ◌++◌, Option, none, some, if◌then◌else◌, Outcome, ok,
  fault, thrown, ◌>>=◌, Bytes, codes,
}
use sylar_study.Log.Level.{Level, unknown, rank, from_string, to_string}
use sylar_study.Log.Manager.{LogAppenderDefine, LoggerConfDefine, is_empty}
use sylar_study.Config.Yaml.{Yaml}
use sylar_study.Config.Cast.{vector_from_string, vector_to_string}

module _ {N : Type 0} (yaml : Yaml N) where
  open yaml use {load, emit, is_map, is_scalar, scalar, field, mapping, scalar_of}

  -- The text of a field, empty when it is not defined or no scalar.
  abbrev pub text_of : Option N → Bytes
  text_of none = []
  text_of (some m) = if is_scalar m then scalar m else []

  -- A level that is not defined or no scalar is unknown.
  abbrev pub level_of : Option N → Level
  level_of none = unknown
  level_of (some m) = if is_scalar m then from_string (scalar m) else unknown

  -- The type and the meta of an appender.
  abbrev pub required : Bytes → Outcome Bytes
  required t = if is_empty t then fault thrown else ok t

  unfoldable pub appender_from_string : Bytes → Outcome LogAppenderDefine
  appender_from_string text = load text >>= λ n.
      if is_map n
      then (required (text_of (field n (codes "type"))) >>= λ type.
          required (text_of (field n (codes "meta"))) >>= λ meta. ok (record {
            level = level_of (field n (codes "level"));
            format_pattern = text_of (field n (codes "format_pattern"));
            type = type;
            meta = meta;
          }))
      else fault thrown

  abbrev pub appender_fields : LogAppenderDefine → List (Bytes × N)
  appender_fields d =
      (codes "format_pattern", scalar_of d.format_pattern)
      ∷ (codes "level", scalar_of (codes (to_string d.level)))
      ∷ []

  unfoldable pub appender_to_string : LogAppenderDefine → Outcome Bytes
  appender_to_string d = ok (emit (mapping (appender_fields d)))

  -- The name of a logger may be empty, but it must be there.
  abbrev pub name_of : Option N → Outcome Bytes
  name_of none = fault thrown
  name_of (some m) = if is_scalar m then ok (scalar m) else fault thrown

  abbrev pub appenders_of : Option N → Outcome (List LogAppenderDefine)
  appenders_of none = ok []
  appenders_of (some m) = vector_from_string yaml appender_from_string appender_to_string (emit m)

  unfoldable pub logger_from_string : Bytes → Outcome LoggerConfDefine
  unfolding appender_from_string
  logger_from_string text = load text >>= λ n.
      if is_map n
      then (name_of (field n (codes "name")) >>= λ name.
          appenders_of (field n (codes "appenders")) >>= λ appender_defs. ok (record {
            name = name;
            level = level_of (field n (codes "level"));
            format_pattern = text_of (field n (codes "format_pattern"));
            appender_defs = appender_defs;
          }))
      else fault thrown

  -- The level is left out when it is unknown.
  abbrev pub level_field : Level → List (Bytes × N)
  level_field l = if rank l == 0 then [] else (codes "level", scalar_of (codes (to_string l))) ∷ []

  abbrev pub logger_fields : LoggerConfDefine → N → List (Bytes × N)
  logger_fields d appenders =
      (codes "name", scalar_of d.name) ∷ level_field d.level
      ++ (codes "format_pattern", scalar_of d.format_pattern) ∷ (codes "appenders", appenders) ∷ []

  unfoldable pub logger_to_string : LoggerConfDefine → Outcome Bytes
  unfolding appender_to_string
  logger_to_string d =
      vector_to_string yaml appender_from_string appender_to_string d.appender_defs >>= λ doc.
      load doc >>= λ appenders. ok (emit (mapping (logger_fields d appenders)))
