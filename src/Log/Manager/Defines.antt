-- ===== src/Log/Manager/Defines.antt =====
-- What the configuration of loggers leaves registered (sylar/base/log.cpp: `GenerateInstance` and the
-- monitor of `loggers`).
use sylar_study.Prelude.{
  ℕ, ◌≡◌, ◌≢◌, refl, sym, ap, subst, ◌∙◌, ◌⊎◌, inl, inr, true, false, not, List, [], ◌∷◌, Option,
  none, some, if◌then◌else◌, Outcome, ok, check, ◌>>=◌, >>=-eq-ok, ok-injective, some-injective,
  Run, >=>-eq-ok, get, Bytes, same_bytes, same_bytes_iff, same_bytes_refl, Bool-cases, Option-cases,
  arith,
}
use sylar_study.Log.Level.{Level}
use sylar_study.Log.Pattern.{parse}
use sylar_study.Log.Logger.{
  Store, Formatter, add_appender, clear_all_appender, set_formatter, set_log_level, set_parent,
}
use sylar_study.Log.Manager.{
  Manager, LoggerConfDefine, LogAppenderDefine, Created, rejected, null, writes_to, created,
  use_null, furnish, generate_appender, add_appenders, asked_formatter, generate_logger, contains,
  names, make_new, remove_missing, update_loggers, get_logger, init_logger_and_append,
  remove_logger, register, same_define, make_logger, make_appender, root_name, is_empty,
}

-- The name has a logger.
abbrev pub IsRegistered : Bytes → Manager → Type 0
IsRegistered name m = m.loggers name ≢ none

-- Names are kept.
abbrev pub Keeps : Manager → Manager → Type 0
Keeps m m' = (name : Bytes) → IsRegistered name m → IsRegistered name m'

some-ne-none {ℓ} : {A : Type ℓ} {a : A} → some a ≢ none
some-ne-none h = cc

register-Keeps : (name : Bytes) (i : ℕ) (m : Manager) → Keeps m (register name i m)
register-Keeps name i m k h = elim (Bool-cases (same_bytes k name)) [
  | inl t ↦ subst (λ b. (if b then some i else m.loggers k) ≢ none) (sym t) some-ne-none
  | inr n ↦ subst (λ b. (if b then some i else m.loggers k) ≢ none) (sym n) h
]

register-IsRegistered : (name : Bytes) (i : ℕ) (m : Manager) → IsRegistered name (register name i m)
register-IsRegistered name i m =
    subst (λ b. (if b then some i else m.loggers name) ≢ none) (sym (same_bytes_refl name))
      some-ne-none

init-Keeps :
    (fuel : ℕ) (name : Bytes) (m : Manager) {m' : Manager} {i : ℕ}
    → init_logger_and_append fuel name m ≡ some (ok (m', i))
    → Keeps m m' × IsRegistered name m'
unfolding init_logger_and_append
init-Keeps fuel name m h =
    let r = >=>-eq-ok (set_parent fuel m.next_logger (some m.root_logger) _) _ h in
    let q = >>=-eq-ok (get (r.0.loggers m.root_logger)) _ (some-injective r.2) in
    let t = >>=-eq-ok (set_formatter m.next_logger q.0.formatter r.0) _ q.2 in
    let m1 = record (make_logger name m).0 { store = t.0 } in
    subst (λ x. Keeps m x × IsRegistered name x) (ap (λ z. z.0) (ok-injective t.2))
      (register-Keeps name m.next_logger m1, register-IsRegistered name m.next_logger m1)

get_logger-missing :
    (fuel : ℕ) (name : Bytes) (m : Manager)
    → m.loggers name ≡ none
    → get_logger fuel name m ≡ init_logger_and_append fuel name m
unfolding get_logger
get_logger-missing fuel name m e = rw (e, get_logger) refl

get_logger-known :
    (fuel i : ℕ) (name : Bytes) (m : Manager)
    → m.loggers name ≡ some i
    → get_logger fuel name m ≡ some (ok (m, i))
unfolding get_logger
get_logger-known fuel i name m e = rw (e, get_logger) refl

get_logger-Keeps :
    (fuel : ℕ) (name : Bytes) (m : Manager) {m' : Manager} {i : ℕ}
    → get_logger fuel name m ≡ some (ok (m', i))
    → Keeps m m' × IsRegistered name m'
get_logger-Keeps fuel name m h = elim (Option-cases (m.loggers name)) [
  | inl e ↦ init-Keeps fuel name m (sym (get_logger-missing fuel name m e) ∙ h)
  | inr (j, e) ↦
      subst (λ x. Keeps m x × IsRegistered name x)
        (ap (λ z. z.0) (ok-injective (some-injective (sym (get_logger-known fuel j name m e) ∙ h))))
        ((λ k r. r), subst (λ o. o ≢ none) (sym e) some-ne-none)
]

use_null-fails : (p : Bytes) {r : Manager × Option ℕ} → use_null p ≢ ok r
unfolding use_null
use_null-fails [] h = cc
use_null-fails (c ∷ cs) h = let r = >>=-eq-ok (parse (c ∷ cs)) _ h in let no = r.2 in cc

module _ (open_file : Bytes → Option ℕ) (garbage : Level) where
  generate_appender-loggers :
      (d : LogAppenderDefine) (m : Manager) {m' : Manager} {o : Option ℕ}
      → generate_appender open_file garbage d m ≡ ok (m', o)
      → m'.loggers ≡ m.loggers
  unfolding generate_appender use_null
  generate_appender-loggers d m h = go (created open_file garbage d) h
    where
      go :
          (c : Created) {m' : Manager} {o : Option ℕ}
          → (elim c as (λ _. Outcome (Manager × Option ℕ)) [
            | rejected ↦ ok (m, none)
            | null ↦ use_null d.format_pattern
            | writes_to k ↦
                (furnish open_file garbage d m.next_appender (make_appender garbage k m).0.store
                  >>= λ s.
                      ok (record (make_appender garbage k m).0 { store = s }, some m.next_appender))
          ])
            ≡ ok (m', o)
          → m'.loggers ≡ m.loggers
      go rejected e = ap (λ z. z.0.loggers) (ok-injective (sym e))
      go null e = absurd (use_null-fails d.format_pattern e)
      go (writes_to k) e =
          let r =
            >>=-eq-ok
              (furnish open_file garbage d m.next_appender (make_appender garbage k m).0.store) _
              e in
          ap (λ z. z.0.loggers) (ok-injective (sym r.2))

  add_appenders-loggers :
      (i : ℕ) (ds : List LogAppenderDefine) (m : Manager) {m' : Manager}
      → add_appenders open_file garbage i ds m ≡ ok m'
      → m'.loggers ≡ m.loggers
  unfolding add_appenders
  add_appenders-loggers i [] m h = ap (λ z. z.loggers) (ok-injective (sym h))
  add_appenders-loggers i (d ∷ ds) m h =
      let r = >>=-eq-ok (generate_appender open_file garbage d m) _ h in
      let q =
        >>=-eq-ok
          (elim r.0.1 as (λ _. Outcome Store) [
            | none ↦ ok r.0.0.store
            | some j ↦ add_appender i j r.0.0.store
          ])
          _ r.2 in
      add_appenders-loggers i ds (record r.0.0 { store = q.0 }) q.2
      ∙ generate_appender-loggers d m r.1

  asked_formatter-Keeps :
      (fuel : ℕ) (pattern : Bytes) (m : Manager) {m' : Manager} {f : Option Formatter}
      → asked_formatter open_file garbage fuel pattern m ≡ some (ok (m', f))
      → Keeps m m'
  unfolding asked_formatter
  asked_formatter-Keeps fuel [] m h =
      let r = >=>-eq-ok (get_logger fuel root_name m) _ h in
      let q = >>=-eq-ok (get (r.0.0.store.loggers r.0.1)) _ (some-injective r.2) in
      subst (Keeps m) (ap (λ z. z.0) (ok-injective q.2)) (get_logger-Keeps fuel root_name m r.1).0
  asked_formatter-Keeps fuel (c ∷ cs) m h =
      let r = >>=-eq-ok (parse (c ∷ cs)) _ (some-injective h) in
      subst (Keeps m) (ap (λ z. z.0) (ok-injective r.2)) (λ k p. p)

  -- A definition that is carried out leaves its name, and all names before it, with a logger.
  generate_logger-Keeps :
      (fuel : ℕ) (d : LoggerConfDefine) (m : Manager) {m' : Manager}
      → generate_logger open_file garbage fuel d m ≡ some (ok m')
      → Keeps m m' × IsRegistered d.name m'
  unfolding generate_logger
  generate_logger-Keeps fuel d m h =
      let r0 = >=>-eq-ok (some (check (not (is_empty d.name)))) _ h in
      let r1 = >=>-eq-ok (get_logger fuel d.name m) _ r0.2 in
      let r2 = >=>-eq-ok (some (set_log_level r1.0.1 d.level r1.0.0.store)) _ r1.2 in
      let r3 =
        >=>-eq-ok
          (asked_formatter open_file garbage fuel d.format_pattern (record r1.0.0 { store = r2.0 }))
          _ r2.2 in
      let t1 = >>=-eq-ok (set_formatter r1.0.1 r3.0.1 r3.0.0.store) _ (some-injective r3.2) in
      let t2 = >>=-eq-ok (clear_all_appender r1.0.1 t1.0) _ t1.2 in
      let same =
        add_appenders-loggers r1.0.1 d.appender_defs (record r3.0.0 { store = t2.0 }) t2.2 in
      let got = get_logger-Keeps fuel d.name m r1.1 in
      let asked =
        asked_formatter-Keeps fuel d.format_pattern (record r1.0.0 { store = r2.0 }) r3.1 in
      (
        (λ k p. subst (λ f. f k ≢ none) (sym same) (asked k (got.0 k p))),
        subst (λ f. f d.name ≢ none) (sym same) (asked d.name got.1),
      )

  -- A definition that is in a set has its name among those of the set.
  names-contains :
      (d : LoggerConfDefine) (xs : List LoggerConfDefine)
      → contains open_file garbage d xs ≡ true
      → names open_file garbage d.name xs ≡ true
  unfolding contains names same_define
  names-contains d [] h = cc
  names-contains d (x ∷ xs) h = ground (arith, names-contains d xs)

  names-cons :
      (name : Bytes) (d : LoggerConfDefine) (ds : List LoggerConfDefine)
      → names open_file garbage name (d ∷ ds) ≡ true
      → (name ≡ d.name) ⊎ (names open_file garbage name ds ≡ true)
  unfolding names
  names-cons name d ds h = elim (Bool-cases (same_bytes name d.name)) [
    | inl t ↦ inl ((same_bytes_iff name d.name).0 t)
    | inr f ↦ inr (ap (λ b. if b then true else names open_file garbage name ds) (sym f) ∙ h)
  ]

  -- Every name of a set has a logger.
  abbrev pub AllRegistered : List LoggerConfDefine → Manager → Type 0
  AllRegistered ds m = (name : Bytes) → names open_file garbage name ds ≡ true → IsRegistered name m

  pub AllRegistered-nil : (m : Manager) → AllRegistered [] m
  unfolding names
  AllRegistered-nil m name t = cc

  abbrev step : ℕ → List LoggerConfDefine → LoggerConfDefine → Manager → Run Manager
  step fuel old d m =
      if contains open_file garbage d old
      then some (ok m)
      else generate_logger open_file garbage fuel d m

  step-Keeps :
      (fuel : ℕ) (old : List LoggerConfDefine) (d : LoggerConfDefine) (m : Manager) {m' : Manager}
      → AllRegistered old m
      → step fuel old d m ≡ some (ok m')
      → Keeps m m' × IsRegistered d.name m'
  step-Keeps fuel old d m w h = elim (Bool-cases (contains open_file garbage d old)) [
    | inl t ↦
        subst (λ x. Keeps m x × IsRegistered d.name x)
          (ok-injective (
            some-injective (
              ap (λ b. if b then some (ok m) else generate_logger open_file garbage fuel d m)
                (sym t)
              ∙ h)))
          ((λ k p. p), w d.name (names-contains d old t))
    | inr f ↦ generate_logger-Keeps fuel d m (
        ap (λ b. if b then some (ok m) else generate_logger open_file garbage fuel d m) (sym f) ∙ h)
  ]

  make_new-Keeps :
      (fuel : ℕ) (old ds : List LoggerConfDefine) (m : Manager) {m' : Manager}
      → AllRegistered old m
      → make_new open_file garbage fuel old ds m ≡ some (ok m')
      → Keeps m m' × AllRegistered ds m'
  unfolding make_new names
  make_new-Keeps fuel old [] m w h =
      (subst (Keeps m) (ok-injective (some-injective h)) (λ k p. p), (λ name t. cc))
  make_new-Keeps fuel old (d ∷ ds) m {m'} w h =
      let r = >=>-eq-ok (step fuel old d m) _ h in
      let first = step-Keeps fuel old d m w r.1 in
      let rest = make_new-Keeps fuel old ds r.0 (λ name t. first.0 name (w name t)) r.2 in
      (
        (λ k p. rest.0 k (first.0 k p)),
        (λ name t. elim (names-cons name d ds t) [
          | inl e ↦ subst (λ k. IsRegistered k m') (sym e) (rest.0 d.name first.1)
          | inr u ↦ rest.1 name u
        ]),
      )

  remove_one :
      (now : List LoggerConfDefine) (d : LoggerConfDefine) (m : Manager) (name : Bytes)
      → (names open_file garbage name now ≡ true
          → (if names open_file garbage d.name now then m else remove_logger d.name m).loggers name
            ≡ m.loggers name)
        × (m.loggers name ≡ none
            → (if names open_file garbage d.name now then m else remove_logger d.name m).loggers
                name
              ≡ none)
        × (name ≡ d.name
            → names open_file garbage name now ≡ false
            → (if names open_file garbage d.name now then m else remove_logger d.name m).loggers
                name
              ≡ none)
  unfolding remove_logger
  remove_one now d m name = ground (arith, same_bytes_iff name d.name)

  -- The second loop leaves the names of the new set alone, and removes the others of the old set.
  remove_missing-loggers :
      (now old : List LoggerConfDefine) (m : Manager) (name : Bytes)
      → (names open_file garbage name now ≡ true
          → (remove_missing open_file garbage now old m).loggers name ≡ m.loggers name)
        × (m.loggers name ≡ none → (remove_missing open_file garbage now old m).loggers name ≡ none)
        × (names open_file garbage name old ≡ true
            → names open_file garbage name now ≡ false
            → (remove_missing open_file garbage now old m).loggers name ≡ none)
  unfolding remove_missing names remove_logger
  remove_missing-loggers now [] m name = ((λ t. refl), (λ e. e), (λ t. cc))
  remove_missing-loggers now (d ∷ ds) m name =
      let one = remove_one now d m name in
      let m1 = if names open_file garbage d.name now then m else remove_logger d.name m in
      let r = remove_missing-loggers now ds m1 name in
      (
        (λ t. r.0 t ∙ one.0 t),
        (λ e. r.1 (one.1 e)),
        (λ t f. elim (names-cons name d ds t) [ inl e ↦ r.1 (one.2 e f) | inr u ↦ r.2 u f ]),
      )

  -- When the monitor returns, after the names of the old set had their loggers, each name of the new
  -- set has a logger, and no name that is only in the old set has one.
  pub update_loggers-names :
      (fuel : ℕ) (old now : List LoggerConfDefine) (m : Manager) {m' : Manager}
      → AllRegistered old m
      → update_loggers open_file garbage fuel old now m ≡ some (ok m')
      → AllRegistered now m'
        × ((name : Bytes)
            → names open_file garbage name old ≡ true
            → names open_file garbage name now ≡ false
            → m'.loggers name ≡ none)
  unfolding update_loggers
  update_loggers-names fuel old now m w h =
      let r = >=>-eq-ok (make_new open_file garbage fuel old now m) _ h in
      let same = ok-injective (some-injective r.2) in
      let made = make_new-Keeps fuel old now m w r.1 in
      subst
        (λ x.
          AllRegistered now x
          × ((name : Bytes)
              → names open_file garbage name old ≡ true
              → names open_file garbage name now ≡ false
              → x.loggers name ≡ none))
        same
        (
          (λ name t.
              subst (λ o. o ≢ none) (sym ((remove_missing-loggers now old r.0 name).0 t))
                (made.1 name t)),
          (λ name t f. (remove_missing-loggers now old r.0 name).2 t f),
        )
