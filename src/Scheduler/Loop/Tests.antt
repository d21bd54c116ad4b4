-- ===== src/Scheduler/Loop/Tests.antt =====
-- The theorem on the whole of `SchedulingFunc` at a thread of a stopped scheduler with two tasks.
use sylar_study.Prelude.{ℕ, ◌≡◌, refl, inl, true, false, none, some, [], ◌∷◌, ok, arith}
use sylar_study.Timer.{func}
use sylar_study.Coroutine.{Stop, returns}
use sylar_study.Scheduler.{World}
use sylar_study.Scheduler.Loop.{Site, Dummy, scheduling_func}
use sylar_study.Scheduler.Loop.Drain.{IsQuiet}
use sylar_study.Scheduler.Loop.Returns.{IsUnused, scheduling_func-returns}

abbrev at_once : ℕ → World → World × Stop
at_once i x = (x, returns)

at_once-IsQuiet : IsQuiet at_once
at_once-IsQuiet i x = (refl, refl, refl, inl refl)

-- A task for thread 7, and one for any thread.
abbrev site : Site
site = record {
  world = record {
    shared = record {
      task_list =
          (record { target_thread = 7; callback = some (func 3); coroutine = none })
          ∷ (record { target_thread = 0; callback = some (func 4); coroutine = none })
          ∷ [];
      stopped = true;
      notified = 1;
      active_threads = 0;
      idle_threads = 0;
    };
    thread = record {
      store = λ i. none;
      current = none;
      main = none;
      scheduling = none;
      next_id = 0;
      count = 0;
    };
  };
  hooked = false;
  scheduler = none;
}

site-IsUnused : IsUnused site.world.thread
site-IsUnused = record { no_current = refl; no_main = refl; no_scheduling = refl }

abbrev no_dummy : Dummy
no_dummy = record { coroutine = none; thread = 0 }

scheduling_func-returns_example :
    (s : Site) × (scheduling_func at_once (λ x. x) 4 1 7 no_dummy (func 0) site ≡ some (ok s))
    × (s.world.shared.task_list ≡ [])
    × (s.world.shared.stopped ≡ true)
    × (s.hooked ≡ true)
    × (s.scheduler ≡ none)
scheduling_func-returns_example =
    scheduling_func-returns at_once (λ x. x) at_once-IsQuiet 4 1 7 no_dummy (func 0) site refl refl
      site-IsUnused refl ((refl, refl, (func 3, refl)), ((refl, refl, (func 4, refl)), tt))
      (omega arith)
