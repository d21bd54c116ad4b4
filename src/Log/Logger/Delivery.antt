-- ===== src/Log/Logger/Delivery.antt =====
-- Where an event that is logged goes (sylar/base/log.cpp: `Logger::Log`, `StreamLogAppender::Log`).
use sylar_study.Prelude.{
  ℕ, zero, suc, ◌<◌, ◌≡◌, refl, sym, ap, subst, ◌∙◌, ◌⊎◌, inl, inr, Bool, true, false, List, [],
  ◌∷◌, ◌++◌, Option, none, some, ◌==◌, if◌then◌else◌, Outcome, ok, fault, assertion, ◌>>=◌,
  Bool-cases, Option-cases, All, Bytes, arith,
}
use mathlib.Core.List.{append_assoc, append-nil}
use sylar_study.Log.Level.{Level, passes}
use sylar_study.Log.Pattern.{
  Item, msg, new_line, line_num, tab, file_name, thread_id, logger_name, log_level, routine_id,
  text, date_time,
}
use sylar_study.Log.Format.{LogEvent, read, do_format, format, format_from}
use sylar_study.Log.Logger.{Appender, Logger, Store, Formatter, write, appender_log, log_all, log}
use sylar_study.Log.Logger.Chain.{EndsIn}
use sylar_study.Log.Logger.Formatters.{HasFormatter, IsFormatted}

-- The event is accepted by each logger on the way from the first up to the second, and the second is
-- the first on the way that holds an appender.
pub data Reaches (s : Store) (v : Level) : ℕ → ℕ → Type 0 where
  here :
      {i : ℕ} (l : Logger) (j : ℕ) (js : List ℕ)
      → s.loggers i ≡ some l
      → passes v l.level ≡ true
      → l.appender_array ≡ j ∷ js
      → Reaches s v i i
  up :
      {i k : ℕ} (l : Logger) (p : ℕ)
      → s.loggers i ≡ some l
      → passes v l.level ≡ true
      → l.appender_array ≡ []
      → l.parent ≡ some p
      → Reaches s v p k
      → Reaches s v i k

-- An event that comes from a logger and a file, as those of the logging macros do.
abbrev pub IsComplete : LogEvent → Type 0
IsComplete e = ((t : Bytes) × (e.trigger ≡ some t)) × ((f : Bytes) × (e.file ≡ some f))

List-cases {ℓ} : {A : Type ℓ} (xs : List A) → (xs ≡ []) ⊎ ((y : A) × (ys : List A) × (xs ≡ y ∷ ys))
List-cases [] = inl refl
List-cases (x ∷ xs) = inr (x, xs, refl)

module _ (put_time : Bytes → ℕ → Option Bytes) where
  do_format_total :
      (x : Item) (e : LogEvent) → IsComplete e → (t : Bytes) × (do_format put_time x e ≡ ok t)
  unfolding do_format
  do_format_total msg e c = (_, refl)
  do_format_total (text t) e c = (_, refl)
  do_format_total (date_time f) e c = (_, refl)
  do_format_total new_line e c = (_, refl)
  do_format_total line_num e c = (_, refl)
  do_format_total tab e c = (_, refl)
  do_format_total file_name e (c, (f, h)) = (f, ap read h)
  do_format_total thread_id e c = (_, refl)
  do_format_total logger_name e ((t, h), c) = (t, ap read h)
  do_format_total log_level e c = (_, refl)
  do_format_total routine_id e c = (_, refl)

  format_from_total :
      (str : Bytes) (xs : List Item) (e : LogEvent)
      → IsComplete e
      → (t : Bytes) × (format_from put_time str xs e ≡ ok t)
  unfolding format_from
  format_from_total str [] e c = (str, refl)
  format_from_total str (x ∷ xs) e c =
      let r = do_format_total x e c in
      let q = format_from_total (str ++ r.0) xs e c in
      (q.0, ap (λ o. o >>= λ t. format_from put_time (str ++ t) xs e) r.1 ∙ q.1)

  -- A complete event can be formatted by every formatter.
  pub format_total :
      (xs : List Item) (e : LogEvent) → IsComplete e → (t : Bytes) × (format put_time xs e ≡ ok t)
  unfolding format
  format_total xs e c = format_from_total [] xs e c

  abbrev text_or_nothing : Outcome Bytes → Bytes
  text_or_nothing (ok t) = t
  text_or_nothing (fault f) = []

  -- What an appender adds to a stream.
  pub line_of : ℕ → Option Appender → LogEvent → Bytes
  line_of k none e = []
  line_of k (some a) e = elim a.formatter [
    | none ↦ []
    | some f ↦
        (if passes e.level a.level
          then if k == a.target then text_or_nothing (format put_time f e) else []
          else [])
  ]

  -- What the appenders add to a stream, one after the other.
  pub lines : ℕ → List ℕ → LogEvent → (ℕ → Option Appender) → Bytes
  unfolding line_of
  lines k [] e appenders = []
  lines k (j ∷ js) e appenders = line_of k (appenders j) e ++ lines k js e appenders

  -- The store, but for the streams, is as it was, and the streams have grown by these texts.
  pub Grown : (ℕ → Bytes) → Store → Store → Type 0
  Grown added s s' =
      (s'.loggers ≡ s.loggers)
      × (s'.appenders ≡ s.appenders)
      × ((k : ℕ) → s'.streams k ≡ s.streams k ++ added k)

  grown_if : (b : Bool) (x t : Bytes) → (if b then x ++ t else x) ≡ x ++ (if b then t else [])
  grown_if true x t = refl
  grown_if false x t = sym (append-nil x)

  line-shown :
      (k : ℕ) (e : LogEvent) (o : Option Appender) (a : Appender) (f : Formatter) (t : Bytes)
      → o ≡ some a
      → a.formatter ≡ some f
      → passes e.level a.level ≡ true
      → format put_time f e ≡ ok t
      → line_of k o e ≡ (if k == a.target then t else [])
  unfolding line_of
  line-shown k e o a f t h g p r = rw (h, g, p, r, line_of) refl

  line-dropped :
      (k : ℕ) (e : LogEvent) (o : Option Appender) (a : Appender) (f : Formatter)
      → o ≡ some a
      → a.formatter ≡ some f
      → passes e.level a.level ≡ false
      → line_of k o e ≡ []
  unfolding line_of
  line-dropped k e o a f h g p = rw (h, g, p, line_of) refl

  appender_log_grows :
      (j : ℕ) (e : LogEvent) (s : Store)
      → IsComplete e
      → HasFormatter s.appenders j
      → (s' : Store) × (appender_log put_time j e s ≡ ok s')
        × Grown (λ k. line_of k (s.appenders j) e) s s'
  unfolding appender_log Grown
  appender_log_grows j e s c (a, f, h, g) = elim (Bool-cases (passes e.level a.level)) [
    | inl t ↦
        let r = format_total f e c in
        (
          write a.target r.0 s,
          rw (h, g, t, r.1, appender_log) refl,
          (
            refl,
            refl,
            (λ k.
                grown_if (k == a.target) (s.streams k) r.0
                ∙ ap (λ x. s.streams k ++ x)
                    (sym (line-shown k e (s.appenders j) a f r.0 h g t r.1))),
          ),
        )
    | inr n ↦ (
      s,
      rw (h, g, n, appender_log) refl,
      (
        refl,
        refl,
        (λ k.
            sym (append-nil (s.streams k))
            ∙ ap (λ x. s.streams k ++ x) (sym (line-dropped k e (s.appenders j) a f h g n))),
      ),
    )
  ]

  log_all_grows :
      (js : List ℕ) (e : LogEvent) (s : Store)
      → IsComplete e
      → All (HasFormatter s.appenders) js
      → (s' : Store) × (log_all put_time js e s ≡ ok s')
        × Grown (λ k. lines k js e s.appenders) s s'
  unfolding log_all lines Grown
  log_all_grows [] e s c h = (s, refl, (refl, refl, (λ k. sym (append-nil (s.streams k)))))
  log_all_grows (j ∷ js) e s c (h, hs) =
      let r = appender_log_grows j e s c h in
      let same = r.2.1 in
      let q = log_all_grows js e r.0 c (subst (λ x. All (HasFormatter x) js) (sym same) hs) in
      (
        q.0,
        ap (λ o. o >>= λ s1. log_all put_time js e s1) r.1 ∙ q.1,
        (
          q.2.0 ∙ r.2.0,
          q.2.1 ∙ same,
          (λ k.
              q.2.2 k
              ∙ ap (λ x. r.0.streams k ++ lines k js e x) same
              ∙ ap (λ x. x ++ lines k js e s.appenders) (r.2.2 k)
              ∙ append_assoc (s.streams k) (line_of k (s.appenders j) e)
                  (lines k js e s.appenders)),
        ),
      )

  log-here :
      (fuel i j : ℕ) (js : List ℕ) (l : Logger) (e : LogEvent) (s : Store)
      → s.loggers i ≡ some l
      → passes e.level l.level ≡ true
      → l.appender_array ≡ j ∷ js
      → log put_time (suc fuel) i e s ≡ some (log_all put_time l.appender_array e s)
  unfolding log
  log-here fuel i j js l e s h p a = rw (h, p, a, log) refl

  log-up :
      (fuel i q : ℕ) (l : Logger) (e : LogEvent) (s : Store)
      → s.loggers i ≡ some l
      → passes e.level l.level ≡ true
      → l.appender_array ≡ []
      → l.parent ≡ some q
      → log put_time (suc fuel) i e s ≡ log put_time fuel q e s
  unfolding log
  log-up fuel i q l e s h p a n = rw (h, p, a, n, log) refl

  -- With more fuel than that, the event is handed to these appenders.
  abbrev Hands : ℕ → LogEvent → Store → ℕ → Logger → Type 0
  Hands i e s n l =
      (fuel : ℕ) → n < fuel → log put_time fuel i e s ≡ some (log_all put_time l.appender_array e s)

  Hands-here :
      (i j : ℕ) (js : List ℕ) (l : Logger) (e : LogEvent) (s : Store)
      → s.loggers i ≡ some l
      → passes e.level l.level ≡ true
      → l.appender_array ≡ j ∷ js
      → Hands i e s 0 l
  Hands-here i j js l e s h p a zero m = absurd (omega arith)
  Hands-here i j js l e s h p a (suc fuel) m = log-here fuel i j js l e s h p a

  Hands-up :
      (i q n : ℕ) (l k : Logger) (e : LogEvent) (s : Store)
      → s.loggers i ≡ some l
      → passes e.level l.level ≡ true
      → l.appender_array ≡ []
      → l.parent ≡ some q
      → Hands q e s n k
      → Hands i e s (suc n) k
  Hands-up i q n l k e s h p a u r zero m = absurd (omega arith)
  Hands-up i q n l k e s h p a u r (suc fuel) m =
      log-up fuel i q l e s h p a u ∙ r fuel (omega arith)

  -- The logger that is reached takes the event, with any fuel beyond its distance.
  log-Reaches :
      (e : LogEvent) (s : Store) {i k : ℕ}
      → Reaches s e.level i k
      → (n : ℕ) × (l : Logger) × (s.loggers k ≡ some l) × Hands i e s n l
  log-Reaches e s (here l j js h p a) = (0, l, h, Hands-here _ j js l e s h p a)
  log-Reaches e s (up l q h p a u r) =
      let (n, k, at_k, rest) = log-Reaches e s r in
      (suc n, k, at_k, Hands-up _ q n l k e s h p a u rest)

  -- In a store where every appender that is held has a formatter, a complete event that is logged
  -- reaches the first logger on the way up that holds an appender, if every logger on the way
  -- accepts its level: with fuel for that way the call returns, each stream grows by the texts of
  -- that logger's appenders in their order, those that do not accept the level left out, and
  -- nothing else changes.
  pub log-delivers :
      (e : LogEvent) (s : Store) {i k : ℕ}
      → IsFormatted s
      → IsComplete e
      → Reaches s e.level i k
      → (n : ℕ) × (l : Logger) × (s' : Store) × (s.loggers k ≡ some l)
        × ((fuel : ℕ) → n < fuel → log put_time fuel i e s ≡ some (ok s'))
        × Grown (λ stream. lines stream l.appender_array e s.appenders) s s'
  log-delivers e s w c r =
      let (n, l, h, runs) = log-Reaches e s r in
      let q = log_all_grows l.appender_array e s c (w.listed _ l h) in
      (n, l, q.0, h, (λ fuel m. runs fuel m ∙ ap some q.1), q.2)

  -- Where the chain of parents ends, `Log` ends once it has fuel for that chain.
  pub log_total :
      (fuel n i : ℕ) (e : LogEvent) (s : Store)
      → EndsIn s (some i) n
      → n < fuel
      → (o : Outcome Store) × (log put_time fuel i e s ≡ some o)
  unfolding log EndsIn
  log_total zero n i e s h m = absurd (omega arith)
  log_total (suc fuel) zero i e s h m = absurd h
  log_total (suc fuel) (suc n) i e s (l, h, ends) m = elim (Bool-cases (passes e.level l.level)) [
    | inr below ↦ (ok s, rw (h, below, log) refl)
    | inl above ↦ elim (List-cases l.appender_array) [
      | inr (j, js, a) ↦ (_, log-here fuel i j js l e s h above a)
      | inl a ↦ elim (Option-cases l.parent) [
        | inl n ↦ (fault assertion, rw (h, above, a, n, log) refl)
        | inr (q, n') ↦
            let r = log_total fuel n q e s (subst (λ o. EndsIn s o n) n' ends) (omega arith) in
            (r.0, log-up fuel i q l e s h above a n' ∙ r.1)
      ]
    ]
  ]
