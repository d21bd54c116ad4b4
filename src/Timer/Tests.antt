-- ===== src/Timer/Tests.antt =====
-- Runs of the timer manager, and the theorems of `Timer` at concrete inputs.
use sylar_study.Prelude.{
  ℕ, suc, zero, ◌≡◌, refl, List, [], ◌∷◌, ◌++◌, some, ◌⊎◌, inl, inr, ◌<◌, ◌≤◌, arith, ok, ◌==◌,
}
use sylar_study.Timer.{
  Timer, TimerManager, func, if_alive, invoke, insert, add_timer, earliest, time_spec,
  get_all_expired, sweep, refresh_timer_fd, is_repeated, set_expiration, get_next_timer_id,
}
use sylar_study.Timer.Laws.{Inv, add_timer-Inv}
use sylar_study.Timer.Sweep.{get_all_expired_total, due_by}

abbrev once : ℕ → ℕ → Timer
once i tp = record { id = i; timeout_tp = tp; interval = 0; cb = func i }

abbrev every : ℕ → ℕ → ℕ → Timer
every i tp dt = record { id = i; timeout_tp = tp; interval = dt; cb = func i }

abbrev busy : TimerManager
busy = record {
  timers = once 1 10 ∷ every 2 20 50 ∷ once 3 90 ∷ [];
  latest_time = 10;
  timer_fd = time_spec 10;
}

busy-Inv : Inv busy
unfolding earliest
busy-Inv = record { sorted = omega arith; latest = refl; armed = refl }

-- Two expire, one of them is put back, and the condition of a wrapped callback is asked for.
sweep_run :
    sweep 4 (λ k. 30) 0 [] busy.timers
    ≡ some (record {
      expired = once 1 10 ∷ every 2 20 50 ∷ [];
      left = every 2 80 50 ∷ once 3 90 ∷ [];
      readings = 4;
    })
unfolding sweep insert is_repeated set_expiration
sweep_run = refl

invoke_run : invoke (λ o. o == 7) (if_alive 7 (func 1)) ≡ 1 ∷ []
unfolding invoke
invoke_run = refl

invoke_dead : invoke (λ o. o == 7) (if_alive 8 (func 1)) ≡ []
unfolding invoke
invoke_dead = refl

next_timer_id_wraps : (get_next_timer_id 4294967295).1 ≡ 0
unfolding get_next_timer_id
next_timer_id_wraps = refl

add_timer-Inv_example :
    Inv (record busy { timers = once 4 5 ∷ busy.timers; latest_time = 5; timer_fd = time_spec 5 })
unfolding add_timer insert refresh_timer_fd
add_timer-Inv_example = add_timer-Inv busy (once 4 5) busy-Inv refl

-- The clock goes on by one at each reading, up to 34.
abbrev ticking : ℕ → ℕ
ticking zero = 30
ticking (suc zero) = 31
ticking (suc (suc zero)) = 32
ticking (suc (suc (suc k))) = 33

ticking-Between : (k : ℕ) → (30 ≤ ticking k) × (ticking k ≤ 34)
ticking-Between zero = omega arith
ticking-Between (suc zero) = omega arith
ticking-Between (suc (suc zero)) = omega arith
ticking-Between (suc (suc (suc k))) = omega arith

get_all_expired_total_example :
    (m' : TimerManager) × (expired later rest : List Timer) × (get_all_expired 3 ticking busy
      ≡ some (ok (m', expired)))
    × Inv m'
    × (expired ≡ due_by 30 busy.timers ++ later)
    × (due_by 34 busy.timers ≡ expired ++ rest)
    × ((m'.timers ≡ []) ⊎ (30 < m'.latest_time))
get_all_expired_total_example =
    get_all_expired_total 30 34 ticking ticking-Between 3 busy busy-Inv
      (inl refl, (inr (omega arith), (inl refl, tt))) (omega arith) (omega arith)
