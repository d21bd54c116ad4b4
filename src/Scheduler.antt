-- ===== src/Scheduler.antt =====
-- sylar/concurrency/scheduler.h and scheduler.cpp: the list of tasks that the threads share, and the
-- loop that each thread runs. Thread ids are numbers, 0 for none (INVALID_PTHREAD_ID). What a
-- user's function does until it gives control back is the parameter `run`.
mod Tests
pub mod Pick
pub mod Turn
pub mod Timers
pub mod Loop
pub mod Life
pub mod Pool
use sylar_study.Prelude.{
  ℕ, ◌+◌, ◌-◌, Bool, true, false, not, ◌||◌, ◌&&◌, Option, none, some, List, [], ◌∷◌, ◌++◌, ◌==◌,
  if◌then◌else◌, Outcome, ok, fault, undefined, assertion, check, ◌>>=◌, ◌>>◌,
}
use sylar_study.Timer.{Callback, func, if_alive, hand_over}
use sylar_study.Coroutine.{
  State, Coroutine, Thread, get, is_none, is_exec, is_ready, is_terminal, is_except, is_hold,
  destroy, set_state, reset, new_coroutine, swap_in, stop, Stop, returns, yields_hold, hold,
}

-- `InvocableWrapper`.
pub record Invocable : Type 0 where
  pub target_thread : ℕ
  pub callback : Option Callback
  pub coroutine : Option ℕ

-- What the threads share. `notified` counts what was written to the notifier.
pub record Shared : Type 0 where
  pub task_list : List Invocable
  pub stopped : Bool
  pub notified : ℕ
  pub active_threads : ℕ
  pub idle_threads : ℕ

pub record World : Type 0 where
  pub shared : Shared
  pub thread : Thread

abbrev pub is_empty {ℓ} : {A : Type ℓ} → List A → Bool
is_empty [] = true
is_empty (x ∷ xs) = false

abbrev pub notify : ℕ → Shared → Shared
notify n s = record s { notified = s.notified + n }

-- `AddTaskNoLock`.
abbrev pub add_task_no_lock : Invocable → Shared → Shared × Bool
add_task_no_lock t s = (record s { task_list = s.task_list ++ (t ∷ []) }, is_empty s.task_list)

-- `Co`.
pub co : Invocable → Shared → Shared
co t s = let r = add_task_no_lock t s in if r.1 then notify 1 r.0 else r.0

abbrev pub coroutine_task : ℕ → Invocable
coroutine_task i = record { target_thread = 0; callback = none; coroutine = some i }

-- A call of a callback; `user` is what the user's functions do to the list, `alive` says whose owner
-- lives. The function that a sleeping coroutine gives to its timer hands the coroutine to `Co`.
pub run_callback : (ℕ → Shared → Shared) → (ℕ → Bool) → Callback → Shared → Shared
unfolding co
run_callback user alive (func f) s = user f s
run_callback user alive (hand_over i) s = co (coroutine_task i) s
run_callback user alive (if_alive cond cb) s =
    let ran = run_callback user alive cb s in if alive cond then ran else s

-- `IsStopped`.
pub is_stopped : Shared → Bool
is_stopped s = s.stopped && is_empty s.task_list

-- What the search of the list leaves.
pub record Picked : Type 0 where
  pub task : Option Invocable
  pub rest : List Invocable
  pub skipped : Bool

abbrev pub is_for_other : ℕ → Invocable → Bool
is_for_other me t = not (t.target_thread == 0) && not (t.target_thread == me)

-- The assertions on a task that is about to be taken.
pub may_take : Invocable → Thread → Outcome (Unit {0})
may_take t w = do
  check (not (is_none t.coroutine) || not (is_none t.callback))
  elim t.coroutine [
    | none ↦ ok tt
    | some i ↦ get (w.store i) >>= λ c. check (not (is_exec c.state))
  ]

abbrev pub skip : Invocable → Picked → Picked
skip t p = record p { rest = t ∷ p.rest; skipped = true }

-- The loop over the list in `SchedulingFunc`.
pub pick : ℕ → Thread → List Invocable → Outcome Picked
unfolding may_take
pick me w [] = ok (record { task = none; rest = []; skipped = false })
pick me w (t ∷ ts) =
    let later = pick me w ts in
    if is_for_other me t
    then (later >>= λ p. ok (skip t p))
    else (may_take t w >> ok (record { task = some t; rest = ts; skipped = false }))

pub need_notify : Picked → Bool
need_notify p = p.skipped || not (is_empty p.rest)

-- The list behind the search.
abbrev pub after_search : Picked → Shared → Shared
after_search p s = record s { task_list = p.rest }

-- The call of `Notify` behind the lock.
abbrev pub notify_if : Bool → Shared → Shared
notify_if b s = if b then notify 1 s else s

-- `temp_coroutine.reset()`: the destructor runs, unless the coroutine was suspended by a yield, whose
-- frame on the coroutine's own stack keeps the pointer `cur` to it.
abbrev pub give_up : Coroutine → ℕ → Thread → Outcome Thread
give_up c i w = if is_hold c.state || is_ready c.state then ok w else destroy i w

-- The variables of `SchedulingFunc` that outlive a turn of its loop.
pub record Locals : Type 0 where
  pub temp : Option ℕ
  pub idle : ℕ

-- `default_stack` is the default argument of the constructor of `Coroutine`.
abbrev pub default_stack : ℕ
default_stack = 1048576

module _ (run : ℕ → World → World × Stop) (poll : World → World) where
  -- A coroutine is switched to, its function runs, and gives control back.
  pub run_coroutine : ℕ → World → Outcome World
  run_coroutine i x = do
    w1 ← swap_in i x.thread
    let r = run i (record x {
      thread = w1;
      shared = record x.shared { active_threads = x.shared.active_threads + 1 };
    })
    w2 ← stop r.1 i r.0.thread
    ok (record {
      thread = w2;
      shared = record r.0.shared { active_threads = r.0.shared.active_threads - 1 };
    })

  -- The test on the state behind the switch of a task that is a coroutine. The pointer in `current_task`
  -- is given up by the next turn, and not here.
  pub settle_coroutine : ℕ → World → Outcome World
  settle_coroutine i x = do
    c ← get (x.thread.store i)
    (if is_ready c.state
        then ok (record x { shared = co (coroutine_task i) x.shared })
        else (if not (is_terminal c.state) && not (is_except c.state)
            then (set_state i hold x.thread >>= λ w. ok (record x { thread = w }))
            else ok x))

  -- The turn for a task that is a coroutine.
  pub coroutine_turn : ℕ → World → Outcome World
  unfolding run_coroutine settle_coroutine
  coroutine_turn i x = do x1 ← run_coroutine i x; settle_coroutine i x1

  -- The temporary coroutine is given the callback, or made for it.
  pub wrap : Callback → Option ℕ → World → Outcome (World × ℕ)
  wrap f (some i) x = reset i (some f) x.thread >>= λ w. ok (record x { thread = w }, i)
  wrap f none x = new_coroutine (some f) default_stack false x.thread >>= λ r.
      ok (record x { thread = r.0 }, r.1)

  -- The test on the state of the temporary coroutine behind its switch.
  pub settle_temp : ℕ → World → Outcome (World × Option ℕ)
  settle_temp i x = do
    c ← get (x.thread.store i)
    (if is_ready c.state
        then ok (record x { shared = co (coroutine_task i) x.shared }, none)
        else (if is_terminal c.state || is_except c.state
            then (reset i none x.thread >>= λ w. ok (record x { thread = w }, some i))
            else (set_state i hold x.thread >>= λ w.
                give_up c i w >>= λ w1. ok (record x { thread = w1 }, none))))

  -- The turn for a task that is a callback.
  pub callback_turn : Callback → Option ℕ → World → Outcome (World × Option ℕ)
  unfolding wrap run_coroutine settle_temp
  callback_turn f temp x = do r ← wrap f temp x; x1 ← run_coroutine r.1 r.0; settle_temp r.1 x1

  -- `HandleIdle` from a switch to the next.
  pub handle_idle : World → World × Stop
  unfolding is_stopped
  handle_idle x = if is_stopped x.shared then (x, returns) else (poll x, yields_hold)

  -- The turn with no task; `false` leaves the loop.
  pub idle_turn : ℕ → World → Outcome (Bool × World)
  unfolding handle_idle
  idle_turn i x = do
    c ← get (x.thread.store i)
    (if is_terminal c.state then ok (false, x) else do
      w1 ← swap_in i x.thread
      let r = handle_idle (record x {
        thread = w1;
        shared = record x.shared { idle_threads = x.shared.idle_threads + 1 };
      })
      w2 ← stop r.1 i r.0.thread
      c2 ← get (w2.store i)
      w3 ←
          (if not (is_terminal c2.state) && not (is_except c2.state)
            then set_state i hold w2
            else ok w2)
      ok (
        true,
        record {
          thread = w3;
          shared = record r.0.shared { idle_threads = r.0.shared.idle_threads - 1 };
        },
      ))

  -- The branch for a task that is no coroutine.
  pub without_coroutine : Invocable → Locals → World → Outcome (Bool × World × Locals)
  unfolding callback_turn
  without_coroutine t l x = elim t.callback [
    | some f ↦ (callback_turn f l.temp x >>= λ r. ok (true, r.0, record l { temp = r.1 }))
    | none ↦ ok (true, x, l)
  ]

  -- The branches on the task that was taken.
  pub dispatch : Picked → Locals → World → Outcome (Bool × World × Locals)
  unfolding coroutine_turn without_coroutine idle_turn
  dispatch p l x = elim p.task [
    | none ↦ (idle_turn l.idle x >>= λ r. ok (r.0, r.1, l))
    | some t ↦ elim t.coroutine [
      | some i ↦
          (get (x.thread.store i) >>= λ c.
          (if not (is_terminal c.state) || not (is_except c.state)
            then (coroutine_turn i x >>= λ y. ok (true, y, l))
            else without_coroutine t l x))
      | none ↦ without_coroutine t l x
    ]
  ]

  -- One turn of the loop of `SchedulingFunc`.
  pub turn : ℕ → Locals → World → Outcome (Bool × World × Locals)
  unfolding pick need_notify dispatch
  turn me l x = do
    p ← pick me x.thread x.shared.task_list
    dispatch p l (record x { shared = notify_if (need_notify p) (after_search p x.shared) })
