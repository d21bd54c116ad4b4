-- ===== src/Log/Startup/Loads.antt =====
-- The value of the variable `loggers` and what its monitor leaves (sylar/base/log.cpp:
-- `__InitLoggersHelper`).
use sylar_study.Prelude.{
  ℕ, map, ◌≡◌, refl, sym, ap, ◌∙◌, subst, Bool, true, false, List, [], ◌∷◌, Option, none, some,
  if◌then◌else◌, Outcome, ok, fault, thrown, assertion, undefined, thread_ended, ◌>>=◌, catch,
  ok-injective, Run, Bytes,
}
use sylar_study.Log.Level.{Level}
use sylar_study.Log.Manager.{Manager, LoggerConfDefine, update_loggers}
use sylar_study.Log.Manager.Defines.{AllRegistered, AllRegistered-nil, update_loggers-names}
use sylar_study.Log.Startup.{Monitor, update_all, same_set, call, from}
use sylar_study.Config.Yaml.{Yaml}
use sylar_study.Config.Vars.{ConfigVar, notify, set_val, from_string, get_all_monitor}

module _ {N : Type 0} (yaml : Yaml N) (open_file : Bytes → Option ℕ) (garbage : Level)
    (fuel : ℕ) where
  abbrev pub Var : Type 0
  Var = ConfigVar (List LoggerConfDefine) Monitor

  -- Every name of the set has a logger, if the process still goes on.
  abbrev pub IsServed : List LoggerConfDefine → Run Manager → Type 0
  IsServed ds (some (ok m)) = AllRegistered open_file garbage ds m
  IsServed ds _ = Unit {0}

  update-IsServed :
      (old now : List LoggerConfDefine) (m : Manager)
      → AllRegistered open_file garbage old m
      → IsServed now (update_loggers open_file garbage fuel old now m)
  update-IsServed old now m a = served_as (update_loggers open_file garbage fuel old now m) refl
    where
      served_as :
          (u : Run Manager) → update_loggers open_file garbage fuel old now m ≡ u → IsServed now u
      served_as none h = tt
      served_as (some (ok m')) h = (update_loggers-names open_file garbage fuel old now m a h).0
      served_as (some (fault kind)) h = tt

  call-IsServed :
      (old now : List LoggerConfDefine) (s : Run Manager)
      → IsServed old s
      → IsServed now (call yaml open_file garbage fuel update_all old now s).0
  unfolding call
  call-IsServed old now none a = tt
  call-IsServed old now (some (ok m)) a = update-IsServed old now m a
  call-IsServed old now (some (fault kind)) a = tt

  abbrev pub run :
      Monitor → List LoggerConfDefine → List LoggerConfDefine → Run Manager → Run Manager × Bool
  run = call yaml open_file garbage fuel

  abbrev pub same : List LoggerConfDefine → List LoggerConfDefine → Bool
  same = same_set yaml open_file garbage fuel

  abbrev pub read : Bytes → Outcome (List LoggerConfDefine)
  read = from yaml open_file garbage fuel

  -- The variable has the monitor alone, and every name of its value has a logger.
  pub record IsWatched (v : Var) (s : Run Manager) : Type 0 where
    pub wired : v.monitors ≡ (0, update_all) ∷ []
    pub served : IsServed v.val s

  notify-run :
      (old now : List LoggerConfDefine) (s : Run Manager) (v : Var)
      → v.monitors ≡ (0, update_all) ∷ []
      → (notify run (get_all_monitor v) old now s).0 ≡ (run update_all old now s).0
  unfolding notify get_all_monitor
  notify-run old now s v e =
      ap (λ l. (notify run (map (λ pair. pair.1) l) old now s).0) e
      ∙ either (run update_all old now s).1
    where
      either :
          (b : Bool)
          → (if b then ((run update_all old now s).0, true) else run update_all old now s).0
            ≡ (run update_all old now s).0
      either true = refl
      either false = refl

  set_val-IsWatched :
      (val : List LoggerConfDefine) (v : Var) (s : Run Manager)
      → IsWatched v s
      → IsWatched (set_val run same val v s).0 (set_val run same val v s).1
  unfolding set_val
  set_val-IsWatched val v s w = watched_as (same val v.val)
    where
      watched_as :
          (b : Bool)
          → (let r = notify run (get_all_monitor v) v.val val s in
              let p : Var × Run Manager × Bool =
                if b then (v, s, true) else (record v { val = val }, r.0, r.1) in
              IsWatched p.0 p.1)
      watched_as true = w
      watched_as false = record {
        wired = w.wired;
        served =
            subst (IsServed val) (sym (notify-run v.val val s v w.wired))
              (call-IsServed v.val val s w.served);
      }

  pub from_string-IsWatched :
      (str : Bytes) (v : Var) (s : Run Manager) {r : Var × Run Manager}
      → IsWatched v s
      → from_string run same read str v s ≡ ok r
      → IsWatched r.0 r.1
  unfolding from_string
  from_string-IsWatched str v s {r} w h = watched_as (read str) h
    where
      watched_as :
          (o : Outcome (List LoggerConfDefine))
          → catch
              (v, s)
              (o >>= λ val. ok ((set_val run same val v s).0, (set_val run same val v s).1))
            ≡ ok r
          → IsWatched r.0 r.1
      watched_as (ok val) e =
          subst (λ z. IsWatched z.0 z.1) (ok-injective e) (set_val-IsWatched val v s w)
      watched_as (fault thrown) e = subst (λ z. IsWatched z.0 z.1) (ok-injective e) w
      watched_as (fault assertion) e = cc
      watched_as (fault undefined) e = cc
      watched_as (fault thread_ended) e = cc

  pub IsServed-nil : (s : Run Manager) → IsServed [] s
  IsServed-nil none = tt
  IsServed-nil (some (ok m)) = AllRegistered-nil open_file garbage m
  IsServed-nil (some (fault kind)) = tt
