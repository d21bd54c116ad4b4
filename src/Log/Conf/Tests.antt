-- ===== src/Log/Conf/Tests.antt =====
-- The theorem on the definitions of loggers at a logger with an appender.
use sylar_study.Prelude.{◌≡◌, [], ◌∷◌, ok, fault, thrown, Bytes, codes}
use sylar_study.Log.Level.{info, warn}
use sylar_study.Log.Manager.{LogAppenderDefine, LoggerConfDefine}
use sylar_study.Log.Conf.{logger_from_string, logger_to_string}
use sylar_study.Log.Conf.ReadBack.{logger_from_string-logger_to_string}
use sylar_study.Config.Notation.{notation}

abbrev to_console : LogAppenderDefine
to_console = record {
  level = warn;
  format_pattern = [];
  type = codes "console";
  meta = codes "out";
}

abbrev net : LoggerConfDefine
net = record {
  name = codes "net";
  level = info;
  format_pattern = codes "%m%n";
  appender_defs = to_console ∷ [];
}

logger_from_string-logger_to_string_example :
    (t : Bytes) × (logger_to_string notation net ≡ ok t)
    × (logger_from_string notation t ≡ fault thrown)
logger_from_string-logger_to_string_example = logger_from_string-logger_to_string notation net
