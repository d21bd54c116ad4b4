-- ===== src/Scheduler/Pool/Tests.antt =====
-- The theorems on the pool at a run of two threads, the first of which passes over a task for the second.
use sylar_study.Prelude.{◌≡◌, refl, inl, true, none, some, [], ◌∷◌, ok, arith}
use sylar_study.Timer.{func}
use sylar_study.Coroutine.{Thread}
use sylar_study.Scheduler.{Invocable, Picked, co, pick, may_take, need_notify}
use sylar_study.Scheduler.Life.{new_shared}
use sylar_study.Scheduler.Pool.{
  searching, waiting, leaving, Pool, post, searched, notifying, leaving_search, set_phase,
  handle_event_fd, Run, done, posting, searching_list, notified_waking,
}
use sylar_study.Scheduler.Pool.Wakeups.{IsAttended, Run-IsAttended}
use sylar_study.Scheduler.Pool.Order.{IsFifo, Run-IsFifo}

abbrev thread : Thread
thread = record {
  store = λ i. none;
  current = none;
  main = none;
  scheduling = none;
  next_id = 0;
  count = 0;
}

-- Every thread waits for a task.
abbrev at_rest : Pool
at_rest = record {
  shared = new_shared;
  consumed = 0;
  phase = λ t. waiting;
  posted = [];
  taken = [];
}

abbrev for_two : Invocable
for_two = record { target_thread = 2; callback = some (func 3); coroutine = none }

abbrev for_any : Invocable
for_any = record { target_thread = 0; callback = some (func 4); coroutine = none }

abbrev woken : Pool
woken = set_phase 1 searching (handle_event_fd (post for_any (post for_two at_rest)))

abbrev passed_over : Picked
passed_over = record { task = some for_any; rest = for_two ∷ []; skipped = true }

passes_over : pick 1 thread woken.shared.task_list ≡ ok passed_over
unfolding pick may_take co
passes_over = refl

abbrev one_leaves : Pool
one_leaves = searched 1 passed_over woken

will_notify : one_leaves.phase 1 ≡ leaving true (some for_any)
unfolding need_notify
will_notify = refl

abbrev one_runs : Pool
one_runs = notifying 1 true (some for_any) one_leaves

one_takes : Run at_rest one_runs
one_takes =
    leaving_search 1 true (some for_any)
      (searching_list 1 thread passed_over
        (notified_waking 1 (posting for_any (posting for_two done)) refl) refl passes_over)
      will_notify

at_rest-IsAttended : IsAttended at_rest
at_rest-IsAttended = record { counted = omega arith; attended = inl refl }

Run-IsAttended_example : IsAttended one_runs
Run-IsAttended_example = Run-IsAttended at_rest-IsAttended one_takes

at_rest-IsFifo : IsFifo at_rest
at_rest-IsFifo = record { in_order = λ k. refl; allowed = tt }

Run-IsFifo_example : IsFifo one_runs
Run-IsFifo_example = Run-IsFifo at_rest-IsFifo one_takes
