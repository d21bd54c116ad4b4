-- ===== src/Hook/Sleep.antt =====
-- The sleeping calls on a hooked thread (sylar/concurrency/hook.cpp: `sleep`, `usleep`, `nanosleep`).
-- `resume` is what the program does from the yield until the coroutine runs again; `now` is the reading
-- of the steady clock.
use sylar_study.Prelude.{
  ℕ, Bool, [], ◌∷◌, ◌++◌, ◌+◌, ◌*◌, ◌≡◌, ◌≢◌, refl, ap, ◌∙◌, false, none, some, Outcome, ok, ◌>>=◌,
}
use sylar_study.Timer.{Timer, hand_over, tp_max}
use sylar_study.Scheduler.{Shared, coroutine_task, run_callback}
use sylar_study.Scheduler.Pick.{run_callback-hand_over}
use sylar_study.Timer.Order.{at}
use sylar_study.Timer.Laws.{Inv}
use sylar_study.Coroutine.{exec, hold, Coroutine, Thread, get, partner, yield}
use sylar_study.Coroutine.Switch.{get-at, put_same, yield-at}
use sylar_study.Scheduler.Timers.{Alarms, new_timer, run_after, run_after-has_timer}

module _ (resume : Alarms × Thread → Alarms × Thread) where
  -- What the three calls do with a duration.
  pub sleep_for : ℕ → ℕ → Alarms → Thread → Outcome (Alarms × Thread)
  sleep_for now dur a w = do
    i ← get w.current
    r ← run_after now dur (hand_over i) false a
    w1 ← yield hold w
    ok (resume (r.0, w1))

  pub sleep : ℕ → ℕ → Alarms → Thread → Outcome (Alarms × Thread)
  unfolding sleep_for
  sleep now seconds a w = sleep_for now (seconds * 1000000000) a w

  pub usleep : ℕ → ℕ → Alarms → Thread → Outcome (Alarms × Thread)
  unfolding sleep_for
  usleep now usec a w = sleep_for now (usec * 1000) a w

  pub nanosleep : ℕ → ℕ → ℕ → Alarms → Thread → Outcome (Alarms × Thread)
  unfolding sleep_for
  nanosleep now sec nsec a w = sleep_for now (sec * 1000000000 + nsec) a w

  pub sleep_for-hold :
      (now dur i : ℕ) (c : Coroutine) (a : Alarms) (w : Thread)
      → Inv a.manager
      → now + dur ≢ tp_max
      → at (now + dur) a.manager.timers ≡ none
      → w.store i ≡ some c
      → w.current ≡ some i
      → c.state ≡ exec
      → (a' : Alarms) × (w' : Thread) × (t : Timer) × (sleep_for now dur a w ≡ ok (resume (a', w')))
        × (at (now + dur) a'.manager.timers ≡ some t)
        × (t.timeout_tp ≡ now + dur)
        × (t.interval ≡ 0)
        × ((user : ℕ → Shared → Shared) (alive : ℕ → Bool) (s : Shared)
            → (run_callback user alive t.cb s).task_list ≡ s.task_list ++ (coroutine_task i ∷ []))
        × (w'.store i ≡ some (record c { state = hold }))
        × (w'.current ≡ partner c w)
  unfolding sleep_for
  sleep_for-hold now dur i c a w v n free e t x =
      let r = run_after-has_timer now dur (hand_over i) false a v n free in
      (
        r.0,
        _,
        new_timer r.1 (now + dur) 0 (hand_over i),
        get-at w.current i
              (λ j. run_after now dur (hand_over j) false a >>= λ q.
                (yield hold w >>= λ w1. ok (resume (q.0, w1))))
              t
            ∙ ap (λ o. o >>= λ q. (yield hold w >>= λ w1. ok (resume (q.0, w1)))) r.2
            ∙ ap (λ o. o >>= λ w1. ok (resume (r.0, w1))) (yield-at hold i c w e t x),
        r.4,
        refl,
        refl,
        (λ user alive s. run_callback-hand_over user alive i s),
        put_same i (record c { state = hold }) w,
        refl,
      )
