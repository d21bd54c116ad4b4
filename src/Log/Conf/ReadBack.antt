-- ===== src/Log/Conf/ReadBack.antt =====
-- What becomes of a definition of a logger that is written and read again (sylar/base/log.cpp).
use sylar_study.Prelude.{
  ◌≡◌, refl, sym, ◌∙◌, ◌==◌, Bool, true, false, List, [], ◌∷◌, ◌++◌, map, some, if◌then◌else◌,
  Outcome, ok, fault, thrown, ◌>>=◌, Bytes, codes, same_bytes, arith,
}
use sylar_study.Log.Level.{
  Level, unknown, debug, info, warn, error, fatal, rank, to_string, from_string-to_string,
}
use sylar_study.Log.Manager.{LogAppenderDefine, LoggerConfDefine}
use sylar_study.Log.Conf.{
  appenders_of, appender_fields, logger_fields, appender_from_string, appender_to_string,
  logger_from_string, logger_to_string,
}
use sylar_study.Config.Yaml.{Yaml, DistinctKeys}
use sylar_study.Config.Cast.{each_ok, node_of, vector_from_string, vector_to_string}

unknown_rank : (l : Level) → (rank l == 0) ≡ true → l ≡ unknown
unknown_rank unknown h = refl
unknown_rank debug h = ground arith
unknown_rank info h = ground arith
unknown_rank warn h = ground arith
unknown_rank error h = ground arith
unknown_rank fatal h = ground arith

module _ {N : Type 0} (yaml : Yaml N) where
  open yaml use {
    load, emit, is_map, is_scalar, scalar, field, items, sequence, mapping, scalar_of, load-emit,
    mapping_is, sequence_is, scalar_is,
  }

  abbrev written : LogAppenderDefine → N
  written d = mapping (appender_fields yaml d)

  appender_fields-DistinctKeys : (d : LogAppenderDefine) → DistinctKeys (appender_fields yaml d)
  unfolding same_bytes
  appender_fields-DistinctKeys d = (refl, (refl, tt))

  -- The type is missing.
  appender_read_back :
      (d : LogAppenderDefine) → appender_from_string yaml (emit (written d)) ≡ fault thrown
  unfolding appender_from_string same_bytes
  appender_read_back d =
      let m = mapping_is (appender_fields yaml d) (appender_fields-DistinctKeys d) in
      rw (load-emit (written d), m.0, m.2 (codes "type")) refl

  nodes_written :
      (ds : List LogAppenderDefine)
      → each_ok (node_of yaml (appender_from_string yaml) (appender_to_string yaml)) ds
        ≡ ok (map written ds)
  unfolding each_ok appender_to_string
  nodes_written [] = refl
  nodes_written (d ∷ ds) = rw (load-emit (written d), nodes_written ds) refl

  -- The definition of a logger that is read: itself, or an exception when it has an appender.
  abbrev pub read_back : LoggerConfDefine → List LogAppenderDefine → Outcome LoggerConfDefine
  read_back d [] = ok d
  read_back d (a ∷ as_) = fault thrown

  abbrev appenders_node : List LogAppenderDefine → N
  appenders_node ds = sequence (map written ds)

  with_appenders : LoggerConfDefine → List LogAppenderDefine → LoggerConfDefine
  with_appenders d ds = record d { appender_defs = ds }

  appenders_read_back :
      (d : LoggerConfDefine) (ds : List LogAppenderDefine)
      → (appenders_of yaml (some (appenders_node ds)) >>= λ as_.
          ok (record d { appender_defs = as_ }))
        ≡ read_back (record d { appender_defs = ds }) ds
  unfolding vector_from_string each_ok
  appenders_read_back d [] = let s = sequence_is [] in rw (load-emit (sequence []), s.0, s.1) refl
  appenders_read_back d (a ∷ as_) =
      let s = sequence_is (map written (a ∷ as_)) in
      rw (load-emit (appenders_node (a ∷ as_)), s.0, s.1, appender_read_back a) refl

  -- The fields that are written, with the level or without it.
  abbrev fields_for : Bool → LoggerConfDefine → N → List (Bytes × N)
  fields_for b d n =
      (codes "name", scalar_of d.name)
        ∷ (if b then [] else (codes "level", scalar_of (codes (to_string d.level))) ∷ [])
      ++ (codes "format_pattern", scalar_of d.format_pattern) ∷ (codes "appenders", n) ∷ []

  logger_read :
      (d : LoggerConfDefine) (n : N) (b : Bool)
      → (rank d.level == 0) ≡ b
      → logger_from_string yaml (emit (mapping (fields_for b d n)))
        ≡ (appenders_of yaml (some n) >>= λ as_. ok (record d { appender_defs = as_ }))
  unfolding logger_from_string same_bytes
  logger_read d n true h =
      let fs = fields_for true d n in
      let m = mapping_is fs (refl, (refl, (refl, tt))) in
      let s = scalar_is d.name in
      let p = scalar_is d.format_pattern in
      rw
        (
          load-emit (mapping fs),
          m.0,
          m.2 (codes "name"),
          m.2 (codes "appenders"),
          m.2 (codes "level"),
          m.2 (codes "format_pattern"),
          s.0,
          s.2,
          p.0,
          p.2,
          sym (unknown_rank d.level h),
        )
        refl
  logger_read d n false h =
      let fs = fields_for false d n in
      let m = mapping_is fs (refl, (refl, (refl, (refl, tt)))) in
      let s = scalar_is d.name in
      let p = scalar_is d.format_pattern in
      let l = scalar_is (codes (to_string d.level)) in
      rw
        (
          load-emit (mapping fs),
          m.0,
          m.2 (codes "name"),
          m.2 (codes "appenders"),
          m.2 (codes "level"),
          m.2 (codes "format_pattern"),
          s.0,
          s.2,
          p.0,
          p.2,
          l.0,
          l.2,
          from_string-to_string d.level,
        )
        refl

  logger_written :
      (d : LoggerConfDefine)
      → logger_to_string yaml d
        ≡ ok (emit (mapping (logger_fields yaml d (appenders_node d.appender_defs))))
  unfolding logger_to_string vector_to_string
  logger_written d =
      rw (nodes_written d.appender_defs, load-emit (appenders_node d.appender_defs)) refl

  -- The definition of a logger can always be written. What is written is read back as the definition
  -- when it has no appenders, and is refused with an exception when it has one.
  pub logger_from_string-logger_to_string :
      (d : LoggerConfDefine)
      → (t : Bytes) × (logger_to_string yaml d ≡ ok t)
        × (logger_from_string yaml t ≡ read_back d d.appender_defs)
  logger_from_string-logger_to_string d = (
    emit (mapping (logger_fields yaml d (appenders_node d.appender_defs))),
    logger_written d,
    logger_read d (appenders_node d.appender_defs) (rank d.level == 0) refl
        ∙ appenders_read_back d d.appender_defs,
  )
