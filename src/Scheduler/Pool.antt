-- ===== src/Scheduler/Pool.antt =====
-- The threads of a scheduler that take tasks from one list (sylar/concurrency/scheduler.cpp: the locked part
-- of the loop of `SchedulingFunc`, `Co`, `Stop`), and the eventfd that wakes them (notifier.cpp). A step is
-- what one thread does under the lock, a call of `Notify` without it, or a return from `epoll_wait`;
-- steps come in any order.
pub mod Order
pub mod Wakeups
mod Tests
use sylar_study.Prelude.{
  ℕ, ◌+◌, ◌≡◌, Bool, true, none, some, Option, List, [], ◌∷◌, ◌++◌, ◌==◌, ltb, if◌then◌else◌, ok,
}
use sylar_study.Coroutine.{Thread}
use sylar_study.Scheduler.{
  Invocable, Shared, Picked, notify, co, pick, need_notify, after_search, notify_if,
}

-- Where a thread stands: it is about to search the list, has given the lock back behind a search, with
-- what it will do (whether it notifies, and the task that it took), runs its task, or has found none
-- and is on its way to `epoll_wait` or in it.
pub data Phase : Type 0 where
  searching running waiting : Phase
  leaving : Bool → Option Invocable → Phase

-- `consumed` counts what was read from the eventfd. `posted` are all tasks that were added, and
-- `taken` those that threads took, with the thread, each in the order in which this happened.
pub record Pool : Type 0 where
  pub shared : Shared
  pub consumed : ℕ
  pub phase : ℕ → Phase
  pub posted : List Invocable
  pub taken : List (ℕ × Invocable)

abbrev pub set_phase : ℕ → Phase → Pool → Pool
set_phase me k s = record s { phase = λ t. if t == me then k else s.phase t }

-- `HandleEventFd`: a read takes one from the counter, and fails when it is zero.
abbrev pub handle_event_fd : Pool → Pool
handle_event_fd s = record s {
  consumed = if ltb s.consumed s.shared.notified then s.consumed + 1 else s.consumed;
}

-- `Co`.
abbrev pub post : Invocable → Pool → Pool
post t s = record s { shared = co t s.shared; posted = s.posted ++ (t ∷ []) }

-- What is run next, if anything.
abbrev pub next_phase : Option Invocable → Phase
next_phase none = waiting
next_phase (some t) = running

abbrev pub taken_by : ℕ → Option Invocable → List (ℕ × Invocable) → List (ℕ × Invocable)
taken_by me none es = es
taken_by me (some t) es = es ++ ((me, t) ∷ [])

-- `Stop` marks the scheduler and wakes its threads.
abbrev pub stopping : ℕ → Pool → Pool
stopping n s = record s { shared = notify n (record s.shared { stopped = true }) }

-- A thread has searched the list, up to the end of the lock.
abbrev pub searched : ℕ → Picked → Pool → Pool
searched me p s =
    set_phase me (leaving (need_notify p) p.task)
      (record s { shared = after_search p s.shared; taken = taken_by me p.task s.taken })

-- The call of `Notify` behind the lock, and what comes next.
abbrev pub notifying : ℕ → Bool → Option Invocable → Pool → Pool
notifying me b o s = set_phase me (next_phase o) (record s { shared = notify_if b s.shared })

-- What the threads may do, from one pool to another.
pub data Run (s : Pool) : Pool → Type 0 where
  done : Run s s
  posting : {q : Pool} (t : Invocable) → Run s q → Run s (post t q)
  marking_stopped : {q : Pool} (n : ℕ) → Run s q → Run s (stopping n q)
  searching_list :
      {q : Pool} (me : ℕ) (w : Thread) (p : Picked)
      → Run s q
      → q.phase me ≡ searching
      → pick me w q.shared.task_list ≡ ok p
      → Run s (searched me p q)
  leaving_search :
      {q : Pool} (me : ℕ) (b : Bool) (o : Option Invocable)
      → Run s q
      → q.phase me ≡ leaving b o
      → Run s (notifying me b o q)
  ending_task :
      {q : Pool} (me : ℕ) → Run s q → q.phase me ≡ running → Run s (set_phase me searching q)
  waking : {q : Pool} (me : ℕ) → Run s q → q.phase me ≡ waiting → Run s (set_phase me searching q)
  notified_waking :
      {q : Pool} (me : ℕ)
      → Run s q
      → q.phase me ≡ waiting
      → Run s (set_phase me searching (handle_event_fd q))
