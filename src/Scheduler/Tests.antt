-- ===== src/Scheduler/Tests.antt =====
-- The theorems on the search of the list and on a turn of the loop, at a thread with one task.
use sylar_study.Prelude.{
  ℕ, ◌≡◌, refl, true, false, Option, none, some, ◌==◌, if◌then◌else◌, ok, fault, thread_ended, List,
  [], ◌∷◌, All,
}
use sylar_study.Timer.{func, has_timer, earliest, time_spec}
use sylar_study.Timer.Order.{at}
use sylar_study.Timer.Laws.{Inv}
use sylar_study.Scheduler.Timers.{Alarms, new_timer, run_after, run_after-has_timer}
use sylar_study.Prelude.{arith}
use sylar_study.Coroutine.{Coroutine, Thread, init, terminal, main_coroutine, yields_ready, Stop}
use sylar_study.Coroutine.Switch.{after}
use sylar_study.Scheduler.{
  Invocable, World, Picked, pick, may_take, coroutine_task, dispatch, callback_turn, coroutine_turn,
}
use sylar_study.Scheduler.Pick.{IsFirst, pick-IsFirst}
use sylar_study.Scheduler.Turn.{
  InLoop, IsFresh, Keeps, entered, released, requeued, callback_turn-IsFresh, coroutine_turn-after,
  dispatch-finished,
}

abbrev task : Coroutine
task = record {
  func = some (func 5);
  is_dummy_main = false;
  has_stack = true;
  stack_size = 64;
  state = init;
}

abbrev two : Thread
two = record {
  store = λ i. if i == 0 then some main_coroutine else if i == 1 then some task else none;
  current = some 0;
  main = some 0;
  scheduling = some 0;
  next_id = 2;
  count = 2;
}

abbrev elsewhere : Invocable
elsewhere = record { target_thread = 9; callback = some (func 3); coroutine = none }

abbrev queue : List Invocable
queue = elsewhere ∷ coroutine_task 1 ∷ []

abbrev world : World
world = record {
  shared = record {
    task_list = queue;
    stopped = false;
    notified = 0;
    active_threads = 0;
    idle_threads = 0;
  };
  thread = two;
}

abbrev found : Picked
found = record { task = some (coroutine_task 1); rest = elsewhere ∷ []; skipped = true }

pick-found : pick 7 two queue ≡ ok found
unfolding pick may_take
pick-found = refl

pick-IsFirst_example : IsFirst 7 two queue found
pick-IsFirst_example = pick-IsFirst 7 two queue found pick-found

may_take-All : All (λ t. may_take t two ≡ ok tt) queue
unfolding may_take
may_take-All = (refl, (refl, tt))

-- A function that asks to be run again.
abbrev again : ℕ → World → World × Stop
again i x = (x, yields_ready)

again-Keeps : Keeps again
again-Keeps i x = (refl, refl, refl, refl)

callback_turn-IsFresh_example :
    (y : World) × (temp : Option ℕ) × (callback_turn again (λ x. x) (func 4) (some 1) world
      ≡ ok (y, temp))
    × InLoop 0 y.thread
    × IsFresh temp y.thread
callback_turn-IsFresh_example =
    callback_turn-IsFresh again (λ x. x) again-Keeps (func 4) (some 1) 0 world (refl, refl, refl)
      (task, (refl, refl, refl, refl), refl)

coroutine_turn-after_example :
    (y : World) × (coroutine_turn again (λ x. x) 1 world ≡ ok y)
    × InLoop 0 y.thread
    × (y.thread.store 1 ≡ some (after yields_ready task))
    × (y.shared
        ≡ requeued yields_ready 1
            (released (entered again (λ x. x) again-Keeps 1 task world).shared))
coroutine_turn-after_example =
    coroutine_turn-after again (λ x. x) again-Keeps 1 0 task world (refl, refl, refl)
      (refl, refl, refl, refl) refl

abbrev alarms : Alarms
alarms = record {
  manager = record {
    timers = new_timer 1 10 0 (func 1) ∷ [];
    latest_time = 10;
    timer_fd = record { tv_sec = 0; tv_nsec = 10 };
  };
  next_id = 2;
}

alarms-Inv : Inv alarms.manager
unfolding earliest time_spec
alarms-Inv = record { sorted = tt; latest = refl; armed = refl }

run_after-has_timer_example :
    (a : Alarms) × (id : ℕ) × (run_after 20 5 (func 6) true alarms ≡ ok (a, id))
    × (has_timer a.manager id ≡ true)
    × (at 25 a.manager.timers ≡ some (new_timer id 25 5 (func 6)))
run_after-has_timer_example =
    run_after-has_timer 20 5 (func 6) true alarms alarms-Inv (omega arith) refl

-- The same thread, with a task that has returned.
abbrev over : World
over = record world {
  thread = record two {
    store = λ i.
        if i == 0
        then some main_coroutine
        else if i == 1
        then some (record task { state = terminal })
        else none;
  };
}

finished_ends_thread :
    dispatch again (λ x. x) found (record { temp = none; idle = 2 }) over ≡ fault thread_ended
finished_ends_thread =
    dispatch-finished again (λ x. x) again-Keeps 1 0 (record task { state = terminal })
      (elsewhere ∷ []) true (record { temp = none; idle = 2 }) over (refl, refl, refl)
      (refl, refl, refl, refl) refl
