-- ===== src/Scheduler/Loop.antt =====
-- The whole of `SchedulingFunc` on one thread (sylar/concurrency/scheduler.cpp), with the thread-local
-- variables that it sets. `self` stands for the scheduler, and `idle_func` for the function of the
-- idle coroutine.
pub mod Drain
pub mod Returns
mod Tests
use sylar_study.Prelude.{
  ℕ, zero, suc, Bool, true, false, not, ◌&&◌, Option, none, some, ◌==◌, if◌then◌else◌, Outcome, ok,
  check, ◌>>=◌, ◌>>◌, Run, ◌>=>◌,
}
use sylar_study.Timer.{Callback}
use sylar_study.Coroutine.{Thread, is_none, same, get_main_coroutine, new_coroutine, destroy, Stop}
use sylar_study.Scheduler.{World, Locals, default_stack, turn}

-- A thread with `tl_enable_hook` and `tl_scheduler`.
pub record Site : Type 0 where
  pub world : World
  pub hooked : Bool
  pub scheduler : Option ℕ

-- `SetSchedulingCoroutine`.
unfoldable pub set_scheduling_coroutine : Option ℕ → Thread → Outcome Thread
set_scheduling_coroutine none w = ok (record w { scheduling = none })
set_scheduling_coroutine (some i) w =
    check (is_none w.scheduling) >> ok (record w { scheduling = some i })

-- `SetScheduler`: what `tl_scheduler` becomes.
unfoldable pub set_scheduler : Option ℕ → Option ℕ → Outcome (Option ℕ)
set_scheduler none current = ok none
set_scheduler (some self) current = check (is_none current) >> ok (some self)

-- `AssertInSchedulingScope`.
pub assert_in_scheduling_scope : ℕ → Site → Outcome (Unit {0})
assert_in_scheduling_scope self s = check (same (some self) s.scheduler)

-- The dummy main coroutine, with the thread that it is for.
pub record Dummy : Type 0 where
  pub coroutine : Option ℕ
  pub thread : ℕ

abbrev pub is_on_dummy : Dummy → ℕ → Bool
is_on_dummy d me = not (is_none d.coroutine) && d.thread == me

-- The scheduling coroutine: the dummy main coroutine on its thread, else the main coroutine.
unfoldable pub set_scheduling : Dummy → ℕ → Thread × Option ℕ → Outcome Thread
unfolding set_scheduling_coroutine
set_scheduling d me m =
    if is_on_dummy d me
    then (set_scheduling_coroutine d.coroutine m.0 >>= (λ w.
        (check (same d.coroutine w.current) >> check (not (same d.coroutine w.main))) >> ok w))
    else (set_scheduling_coroutine m.1 m.0 >>= (λ w. check (same w.scheduling w.main) >> ok w))

-- What stands before the loop.
unfoldable pub begin : Dummy → ℕ → Callback → Thread → Outcome (Thread × Locals)
unfolding set_scheduling
begin d me idle_func w = do
  m ← get_main_coroutine w
  w1 ← set_scheduling d me m
  r ← new_coroutine (some idle_func) default_stack false w1
  ok (r.0, record { temp = none; idle = r.1 })

abbrev pub destroy_temp : Option ℕ → Thread → Outcome Thread
destroy_temp none w = ok w
destroy_temp (some i) w = destroy i w

-- What stands behind the loop, with the destructors of the temporary and of the idle coroutine.
unfoldable pub finish : Locals → Thread → Outcome Thread
unfolding set_scheduling_coroutine
finish l w = do w1 ← set_scheduling_coroutine none w; w2 ← destroy_temp l.temp w1; destroy l.idle w2

module _ (run : ℕ → World → World × Stop) (poll : World → World) where
  -- The loop, on fuel for its turns.
  unfoldable pub loop : ℕ → ℕ → Locals → World → Run (World × Locals)
  unfolding turn
  loop zero me l x = none
  loop (suc fuel) me l x = some (turn run poll me l x) >=> λ r.
      (if r.0 then loop fuel me r.2 r.1 else some (ok (r.1, r.2)))

  -- `SchedulingFunc`.
  unfoldable pub scheduling_func : ℕ → ℕ → ℕ → Dummy → Callback → Site → Run Site
  unfolding set_scheduler begin finish loop
  scheduling_func fuel self me d idle_func s =
      some (set_scheduler (some self) s.scheduler) >=> λ current.
      some (begin d me idle_func s.world.thread) >=> λ b.
      loop fuel me b.1 (record s.world { thread = b.0 }) >=> λ e.
      some (finish e.1 e.0.thread) >=> λ w. some (set_scheduler none current) >=> λ left.
      some (ok (record { world = record e.0 { thread = w }; hooked = true; scheduler = left }))
