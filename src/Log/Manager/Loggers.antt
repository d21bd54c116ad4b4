-- ===== src/Log/Manager/Loggers.antt =====
-- The loggers that `LoggerManager::GetLogger` makes (sylar/base/log.cpp).
use sylar_study.Prelude.{
  ℕ, suc, ◌<◌, ◌≡◌, refl, ap, ◌∙◌, inl, inr, true, false, List, ◌∷◌, Option, none, some, ◌==◌,
  ==_refl, if◌then◌else◌, Outcome, ok, ◌>>=◌, Run, ◌>=>◌, get, Bytes, same_bytes_refl, arith,
}
use sylar_study.Log.Level.{Level, debug, passes}
use sylar_study.Log.Logger.{
  Logger, Store, put_logger, new_logger, set_formatter, spread, set_parent,
}
use sylar_study.Log.Logger.Chain.{EndsIn, IsAbove, set_parent_total}
use sylar_study.Log.Logger.Delivery.{Reaches, here, up}
use sylar_study.Log.Manager.{Manager, make_logger, register, init_logger_and_append, get_logger}

-- The logger that is made for a name: a child of the root logger, with its formatter.
abbrev pub child : Bytes → ℕ → Logger → Logger
child name i root = record (new_logger name) { parent = some i; formatter = root.formatter }

-- A write to another place.
beside :
    (i j : ℕ) (l : Logger) (s : Store)
    → (j == i) ≡ false
    → (put_logger i l s).loggers j ≡ s.loggers j
beside i j l s n = ap (λ b. if b then some l else s.loggers j) n

at_place : (i : ℕ) (l : Logger) (s : Store) → (put_logger i l s).loggers i ≡ some l
at_place i l s = ap (λ b. if b then some l else s.loggers i) (==_refl i)

null-EndsIn : (s : Store) (o : Option ℕ) (n : ℕ) → o ≡ none → EndsIn s o n
unfolding EndsIn
null-EndsIn s none n h = tt
null-EndsIn s (some j) n h = cc

at_once : (s : Store) (i : ℕ) (o : Option ℕ) → ¬ IsAbove s i o 0
unfolding IsAbove
at_once s i none h = h
at_once s i (some j) h = h

module _ (fuel : ℕ) (name : Bytes) (m : Manager) (root : Logger)
    (at_root : m.store.loggers m.root_logger ≡ some root) (top : root.parent ≡ none)
    (fresh : (m.root_logger == m.next_logger) ≡ false) (enough : 1 < fuel)
    (missing : m.loggers name ≡ none) where
  abbrev s1 : Store
  s1 = put_logger m.next_logger (new_logger name) m.store

  abbrev s2 : Store
  s2 = put_logger m.next_logger (record (new_logger name) { parent = some m.root_logger }) s1

  abbrev s3 : Store
  s3 = put_logger m.next_logger (child name m.root_logger root) s2

  abbrev pub with_child : Manager
  with_child =
      register name m.next_logger (record m { store = s3; next_logger = suc m.next_logger })

  root_s1 : s1.loggers m.root_logger ≡ some root
  root_s1 = beside m.next_logger m.root_logger (new_logger name) m.store fresh ∙ at_root

  not-IsAbove : ¬ IsAbove s1 m.next_logger (some m.root_logger) 1
  unfolding IsAbove
  not-IsAbove (inl t) = ground arith
  not-IsAbove (inr (l, e, h)) = at_once s1 m.next_logger l.parent h

  parent_set : set_parent fuel m.next_logger (some m.root_logger) s1 ≡ some (ok s2)
  unfolding EndsIn
  parent_set =
      elim (set_parent_total fuel m.next_logger 1 (some m.root_logger) (new_logger name) s1
        (at_place m.next_logger (new_logger name) m.store)
        (root, root_s1, null-EndsIn s1 root.parent 0 top) enough) [
          | inl (a, _) ↦ absurd (not-IsAbove a)
          | inr (_, e) ↦ e
        ]

  finish_child : Store → Outcome (Manager × ℕ)
  finish_child s = get (s.loggers m.root_logger) >>= λ r.
      set_formatter m.next_logger r.formatter s >>= λ t.
      ok (register name m.next_logger (record (make_logger name m).0 { store = t }), m.next_logger)

  finished : finish_child s2 ≡ ok (with_child, m.next_logger)
  unfolding finish_child set_formatter spread
  finished =
      ap
        (λ o. get o >>= λ r. set_formatter m.next_logger r.formatter s2 >>= λ t. ok (
          register name m.next_logger (record (make_logger name m).0 { store = t }),
          m.next_logger,
        ))
        (beside m.next_logger m.root_logger
            (record (new_logger name) { parent = some m.root_logger }) s1 fresh
          ∙ root_s1)
      ∙ ap
          (λ o.
            get o
            >>= (λ l.
                spread root.formatter l.appender_array
                  (put_logger m.next_logger (record l { formatter = root.formatter }) s2))
            >>= λ t. ok (
              register name m.next_logger (record (make_logger name m).0 { store = t }),
              m.next_logger,
            ))
          (at_place m.next_logger (record (new_logger name) { parent = some m.root_logger }) s1)

  made : get_logger fuel name m ≡ some (ok (with_child, m.next_logger))
  unfolding get_logger init_logger_and_append finish_child
  made =
      ap
        (λ (o : Option ℕ). elim o as (λ _. Run (Manager × ℕ)) [
          | some i ↦ some (ok (m, i))
          | none ↦ init_logger_and_append fuel name m
        ])
        missing
      ∙ ap (λ (o : Run Store). o >=> λ s. some (finish_child s)) parent_set
      ∙ ap some finished

  -- `GetLogger` for a name with no logger, when the root logger is its own top: it makes a logger and
  -- keeps it for the name, a second call gives the same one and changes nothing, and an event that
  -- the default level and the root logger accept goes from the new logger to the appenders of the
  -- root logger.
  pub get_logger-Reaches :
      (v : Level) (j : ℕ) (js : List ℕ)
      → passes v debug ≡ true
      → passes v root.level ≡ true
      → root.appender_array ≡ j ∷ js
      → (m' : Manager) × (i : ℕ) × (get_logger fuel name m ≡ some (ok (m', i)))
        × (get_logger fuel name m' ≡ some (ok (m', i)))
        × (m'.store.loggers i ≡ some (child name m.root_logger root))
        × Reaches m'.store v i m.root_logger
  unfolding get_logger
  get_logger-Reaches v j js d p a =
      let new = at_place m.next_logger (child name m.root_logger root) s2 in
      (
        with_child,
        m.next_logger,
        made,
        ap
            (λ b.
              elim (if b then some m.next_logger else m.loggers name) as (λ _. Run (Manager × ℕ)) [
                | some i ↦ some (ok (with_child, i))
                | none ↦ init_logger_and_append fuel name with_child
              ])
            (same_bytes_refl name),
        new,
        up (child name m.root_logger root) m.root_logger new d refl refl (
            here root j js
              (beside m.next_logger m.root_logger (child name m.root_logger root) s2 fresh
                ∙ beside m.next_logger m.root_logger
                    (record (new_logger name) { parent = some m.root_logger }) s1 fresh
                ∙ root_s1)
              p a),
      )
