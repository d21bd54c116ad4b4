-- ===== src/Coroutine/Tests.antt =====
-- The theorem on a switch at a thread with a main coroutine and one task.
use sylar_study.Prelude.{ℕ, ◌≡◌, refl, true, false, none, some, ◌==◌, if◌then◌else◌, ok}
use sylar_study.Timer.{func}
use sylar_study.Coroutine.{Coroutine, Thread, init, main_coroutine, yields_hold, resume}
use sylar_study.Coroutine.Switch.{after, resume-after}

abbrev task : Coroutine
task = record {
  func = some (func 5);
  is_dummy_main = false;
  has_stack = true;
  stack_size = 64;
  state = init;
}

abbrev two : Thread
two = record {
  store = λ i. if i == 0 then some main_coroutine else if i == 1 then some task else none;
  current = some 0;
  main = some 0;
  scheduling = some 0;
  next_id = 2;
  count = 2;
}

resume-after_example :
    (w : Thread) × (resume 1 yields_hold two ≡ ok w)
    × ((j : ℕ) → w.store j ≡ (if j == 1 then some (after yields_hold task) else two.store j))
    × (w.current ≡ some 0)
    × (w.main ≡ some 0)
    × (w.scheduling ≡ some 0)
    × (w.next_id ≡ 2)
    × (w.count ≡ 2)
resume-after_example = resume-after 1 0 yields_hold task two refl refl refl refl refl
