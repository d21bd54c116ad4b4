-- ===== src/Hook/Io.antt =====
-- The reading and writing calls on a hooked thread (sylar/concurrency/hook.cpp: `do_io`, `accept`, `read`,
-- `write`). What the successive calls of libc return is a list; `resume` is what the program does
-- from a yield until the coroutine runs again; `flag` and `tie_cond` stand for the function that
-- is given to the timer and for the weak pointer that it keeps; `now` is a reading of the clock.
pub mod Blocking
mod Tests
use sylar_study.Prelude.{
  ℕ, Bool, true, false, not, ◌||◌, List, [], ◌∷◌, Option, none, some, ◌==◌, if◌then◌else◌, Outcome,
  ok, fault, check, get, ◌>>=◌, ◌>>◌, Run, ◌>=>◌,
}
use sylar_study.Timer.{Callback, cancel_timer, has_timer}
use sylar_study.Fd.{FdContext, System, forever, get_timeout}
use sylar_study.Poller.Masks.{Mask, in_bit, out_bit}
use sylar_study.Poller.Kernel.{EpollKernel}
use sylar_study.Poller.{Poller, append_event}
use sylar_study.Coroutine.{Thread, hold, yield}
use sylar_study.Scheduler.Timers.{Alarms, run_after_if}

-- What a call returns: a number, or -1 with EINTR, EAGAIN, ETIMEDOUT or another `errno`.
pub data IoResult : Type 0 where
  number : ℕ → IoResult
  eintr eagain etimedout : IoResult
  failed : ℕ → IoResult

-- `hooked` and `scheduler` are the thread-local variables of hook.cpp and scheduler.cpp.
pub record Io (K L : Type 0) : Type 0 where
  pub poller : Poller K
  pub next_id : ℕ
  pub thread : Thread
  pub system : System L
  pub hooked : Bool
  pub scheduler : Option ℕ

-- The call of libc alone; `none` when the list of its results is at its end.
abbrev pub plain {ℓ} : {S : Type ℓ} → List IoResult → S → Run (IoResult × S)
plain [] s = none
plain (r ∷ rs) s = some (ok (r, s))

-- `TimerManager::kInvalidTimerId`.
abbrev pub invalid_timer_id : ℕ
invalid_timer_id = 0

module _ {K L : Type 0} (E : EpollKernel K) (now : ℕ) (flag : Callback) (tie_cond : ℕ)
    (resume : Io K L → Io K L) where
  -- The timer of a wait, unless it is to wait for ever.
  pub arm_timeout : ℕ → ℕ → Io K L → Outcome (Io K L × ℕ)
  arm_timeout timeout id s =
      if timeout == forever
      then ok (s, id)
      else (run_after_if now timeout tie_cond flag false
            (record { manager = s.poller.timer_manager; next_id = s.next_id })
          >>= (λ r. ok (
            record s {
              poller = record s.poller { timer_manager = r.0.manager };
              next_id = r.0.next_id;
            },
            r.1,
          )))

  -- From EAGAIN to the yield.
  unfoldable pub wait : ℕ → Mask → ℕ → Io K L → Outcome (Io K L × ℕ)
  unfolding arm_timeout
  wait fd interest id s = do
    c ← get (s.system.fd_set fd)
    timeout ← get_timeout interest c
    _ ← get s.scheduler
    a ← arm_timeout timeout id s
    current ← get a.0.thread.current
    w ← yield hold a.0.thread
    ok (record a.0 { poller = append_event E fd interest none current a.0.poller; thread = w }, a.1)

  -- From the yield to the next call of libc, or to the return; `tie` leads to the flag of the
  -- timeout.
  unfoldable pub awake : Option (Io K L → Bool) → ℕ → Io K L → Outcome (Io K L × Bool)
  awake tie id s = do
    is_timeout ← get tie
    (if not (is_timeout s)
        then (cancel_timer s.poller.timer_manager id >>= λ m.
            ok (record s { poller = record s.poller { timer_manager = m } }, false))
        else (check (not (has_timer s.poller.timer_manager id)) >> ok (s, true)))

  -- The two loops.
  unfoldable pub io_loop :
      Option (Io K L → Bool) → ℕ → Mask → List IoResult → ℕ → Io K L → Run (IoResult × Io K L)
  unfolding wait awake
  io_loop tie fd interest [] id s = none
  io_loop tie fd interest (number n ∷ rs) id s = some (ok (number n, s))
  io_loop tie fd interest (eintr ∷ rs) id s = io_loop tie fd interest rs id s
  io_loop tie fd interest (eagain ∷ rs) id s = some (wait fd interest id s) >=> λ a.
      some (awake tie a.1 (resume a.0)) >=> λ b.
      (if b.1 then some (ok (etimedout, b.0)) else io_loop tie fd interest rs a.1 b.0)
  io_loop tie fd interest (etimedout ∷ rs) id s = some (ok (etimedout, s))
  io_loop tie fd interest (failed e ∷ rs) id s = some (ok (failed e, s))

  -- `do_io`; `tie` is never set.
  unfoldable pub do_io : ℕ → Mask → List IoResult → Io K L → Run (IoResult × Io K L)
  unfolding io_loop
  do_io fd interest rs s = if not s.hooked then plain rs s else elim (s.system.fd_set fd) [
    | none ↦ plain rs s
    | some c ↦
        if not c.is_socket || c.user_set_nonblock
        then plain rs s
        else io_loop none fd interest rs invalid_timer_id s
  ]

  unfoldable pub accept : ℕ → List IoResult → Io K L → Run (IoResult × Io K L)
  unfolding do_io
  accept fd rs s = if not s.hooked then plain rs s else do_io fd in_bit rs s

  unfoldable pub read : ℕ → List IoResult → Io K L → Run (IoResult × Io K L)
  unfolding do_io
  read fd rs s = if not s.hooked then plain rs s else do_io fd in_bit rs s

  unfoldable pub write : ℕ → List IoResult → Io K L → Run (IoResult × Io K L)
  unfolding do_io
  write fd rs s = if not s.hooked then plain rs s else do_io fd out_bit rs s
