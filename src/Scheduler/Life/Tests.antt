-- ===== src/Scheduler/Life/Tests.antt =====
-- The theorems on the life of a scheduler at one with two threads and one with a dummy main coroutine.
use sylar_study.Prelude.{
  ℕ, inl, ◌>=>◌, ◌+◌, ◌≡◌, refl, true, false, Option, none, some, [], ◌∷◌, length, All,
  if◌then◌else◌, ok, Outcome, fault, thrown, codes, arith, ◌==◌,
}
use sylar_study.Timer.{func}
use sylar_study.Coroutine.{Stop, returns, new_coroutine}
use sylar_study.Threads.{Threads, new_local, is_null}
use sylar_study.Threads.Ready.{IsUnstarted, started}
use sylar_study.Scheduler.{World}
use sylar_study.Scheduler.Loop.{Site}
use sylar_study.Scheduler.Life.{
  Life, new_shared, null_pool, pool_size, new_scheduler, with_shared, start, stop,
  destroy_scheduler,
}
use sylar_study.Scheduler.Loop.Drain.{IsQuiet}
use sylar_study.Scheduler.Life.Stops.{stop-returns}
use sylar_study.Scheduler.Life.Cycle.{stop-start}
use sylar_study.Scheduler.Life.Starts.{new_scheduler-pool, start-All, start-stop}

abbrev only_main : Threads
only_main = record {
  objects = λ i. none;
  next_object = 0;
  locals = λ t. new_local;
  next_thread = 1;
  finished = λ t. true;
}

only_main-IsUnstarted : IsUnstarted only_main
unfolding IsUnstarted
only_main-IsUnstarted t h = refl

abbrev site : Site
site = record {
  world = record {
    shared = new_shared;
    thread = record {
      store = λ i. none;
      current = none;
      main = none;
      scheduling = none;
      next_id = 0;
      count = 0;
    };
  };
  hooked = false;
  scheduler = none;
}

abbrev two_places : Life
two_places = record {
  name = codes "io";
  dummy = record { coroutine = none; thread = 0 };
  pool = null_pool 2;
  site = site;
  threads = only_main;
}

start-All_example :
    (s' : Life) × (start 0 two_places ≡ ok s')
    × (length s'.pool ≡ 2)
    × All (λ p. is_null p ≡ false) s'.pool
    × (s'.threads.next_thread ≡ 3)
    × (s'.site.world.shared.stopped ≡ false)
start-All_example = start-All 0 2 two_places refl refl only_main-IsUnstarted

abbrev at_once : ℕ → World → World × Stop
at_once i x = (x, returns)

at_once-IsQuiet : IsQuiet at_once
at_once-IsQuiet i x = (refl, refl, refl, inl refl)

-- Two tasks wait before the threads are started.
abbrev two_tasks : Life
two_tasks =
    with_shared
      (λ h. record h {
        task_list =
            (record { target_thread = 0; callback = some (func 3); coroutine = none })
            ∷ (record { target_thread = 0; callback = some (func 4); coroutine = none })
            ∷ [];
      })
      two_places

stop-start_example :
    (s' : Life) × ((some (start 0 two_tasks) >=> stop at_once (λ x. x) 4 1 0 (func 0))
      ≡ some (ok s'))
    × (s'.pool ≡ [])
    × (s'.site.world.shared.task_list ≡ [])
    × (destroy_scheduler s' ≡ ok tt)
stop-start_example =
    stop-start at_once (λ x. x) at_once-IsQuiet 4 1 0 2 (func 0) two_tasks refl refl refl
      only_main-IsUnstarted (omega arith) (λ t h. refl) refl
      ((refl, refl, (func 3, refl)), ((refl, refl, (func 4, refl)), tt)) (omega arith)

abbrev life_of : Option (Outcome Life) → Life
life_of none = two_places
life_of (some (ok s)) = s
life_of (some (fault kind)) = two_places

abbrev included : Life
included = life_of (some (new_scheduler 2 true (codes "io") 1 (func 5) site only_main))

included_made : new_scheduler 2 true (codes "io") 1 (func 5) site only_main ≡ ok included
unfolding new_scheduler pool_size new_coroutine
included_made = refl

new_scheduler-pool_example : length included.pool + 1 ≡ 2
new_scheduler-pool_example =
    new_scheduler-pool 2 (codes "io") 1 (func 5) site only_main included (omega arith) included_made

no_thread : new_scheduler 0 true (codes "io") 1 (func 5) site only_main ≡ fault thrown
unfolding new_scheduler pool_size new_coroutine
no_thread = refl

-- A scheduler with two threads that run.
abbrev running : Life
running =
    with_shared (λ h. record h { stopped = false })
      (record two_places {
        pool = some 0 ∷ some 1 ∷ [];
        threads = record only_main {
          objects = λ i.
              if i == 0
              then some (started (codes "io_0") 1)
              else (if i == 1 then some (started (codes "io_1") 2) else none);
          next_object = 2;
          next_thread = 3;
        };
      })

stopped_once : (s' : Life) × (stop at_once (λ x. x) 4 1 0 (func 0) running ≡ some (ok s'))
stopped_once =
    let r =
      stop-returns at_once (λ x. x) at_once-IsQuiet 4 1 0 (func 0) running (0 ∷ 1 ∷ []) refl refl tt
        (omega arith) refl ((refl, tt), (tt, tt))
        (
          (started (codes "io_0") 1, refl, refl, refl, refl),
          ((started (codes "io_1") 2, refl, refl, refl, refl), tt),
        )
        refl in
    (r.0, r.1)

abbrev after_stop : Life
after_stop = stopped_once.0

start-stop_example :
    (s2 : Life) × (start 0 after_stop ≡ ok s2) × (s2.pool ≡ []) × (s2.threads ≡ after_stop.threads)
start-stop_example =
    start-stop at_once (λ x. x) 4 1 0 0 (func 0) running after_stop refl stopped_once.1
