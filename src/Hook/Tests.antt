-- ===== src/Hook/Tests.antt =====
-- A table of flags as the kernel, and the theorems of `Hook` at concrete descriptors.
use sylar_study.Prelude.{
  ℕ, ◌≡◌, ◌≢◌, refl, Bool, true, false, Option, none, some, ◌==◌, if◌then◌else◌, ok, arith,
}
use sylar_study.Prelude.{[], ◌∷◌, ◌++◌}
use sylar_study.Scheduler.{Shared, coroutine_task, run_callback}
use sylar_study.Timer.{Timer, func, earliest, time_spec}
use sylar_study.Timer.Order.{at}
use sylar_study.Timer.Laws.{Inv}
use sylar_study.Coroutine.{Coroutine, Thread, exec, hold}
use sylar_study.Scheduler.Timers.{Alarms, new_timer}
use sylar_study.Hook.Sleep.{sleep_for, sleep_for-hold}
use sylar_study.Fd.Kernel.{Flags, Libc}
use sylar_study.Fd.{FdContext, System, plain_context}
use sylar_study.Hook.{flags, fcntl_getfl, fcntl_setfl}
use sylar_study.Hook.Status.{fcntl_getfl-setfl}

abbrev Files : Type 0
Files = ℕ → Option Flags

abbrev write_flags : Files → ℕ → Flags → Files × Bool
write_flags l fd f = elim (l fd) [
  | none ↦ (l, false)
  | some g ↦ ((λ i. if i == fd then some f else l i), true)
]

write_flags-open :
    (l : Files) (fd : ℕ) (f g : Flags)
    → l fd ≡ some g
    → (write_flags l fd f).1 ≡ true
    → (write_flags l fd f).0 fd ≡ some f
write_flags-open l fd f g e h = ground arith

write_flags-other : (l : Files) (fd i : ℕ) (f : Flags) → i ≢ fd → (write_flags l fd f).0 i ≡ l i
write_flags-other l fd i f n = ground arith

-- Every descriptor is a socket.
abbrev files : Libc Files
files = record {
  get_flags = λ l. l;
  set_flags = write_flags;
  is_sock = λ l fd. true;
  set_open = write_flags-open;
  set_other = write_flags-other;
}

abbrev blocking : Flags
blocking = record { nonblock = false; others = 4 }

abbrev unblocked : Flags
unblocked = record { nonblock = true; others = 4 }

abbrev held : FdContext
held = record (plain_context 3 true) { sys_set_nonblock = true }

-- Descriptor 3 is a socket with a context, and descriptor 4 has just been opened.
abbrev system : System Files
system = record {
  libc = λ i. if i == 3 then some unblocked else if i == 4 then some blocking else none;
  fd_set = λ i. if i == 3 then some held else none;
}

fcntl_getfl-setfl_example :
    ((fcntl_setfl files 3 blocking system).1 ≡ true)
    × (fcntl_getfl files 3 (fcntl_setfl files 3 blocking system).0 ≡ flags blocking)
    × ((fcntl_setfl files 3 blocking system).0.libc 3 ≡ some unblocked)
fcntl_getfl-setfl_example =
    fcntl_getfl-setfl files 3 blocking unblocked held system refl refl refl refl refl refl

abbrev sleeper : Coroutine
sleeper = record {
  func = some (func 5);
  is_dummy_main = false;
  has_stack = true;
  stack_size = 64;
  state = exec;
}

-- Coroutine 1 runs on a thread whose scheduling coroutine is 0.
abbrev running : Thread
running = record {
  store = λ i. if i == 1 then some sleeper else none;
  current = some 1;
  main = some 0;
  scheduling = some 0;
  next_id = 2;
  count = 2;
}

abbrev alarms : Alarms
alarms = record {
  manager = record {
    timers = new_timer 1 10 0 (func 1) ∷ [];
    latest_time = 10;
    timer_fd = record { tv_sec = 0; tv_nsec = 10 };
  };
  next_id = 2;
}

alarms-Inv : Inv alarms.manager
unfolding earliest time_spec
alarms-Inv = record { sorted = tt; latest = refl; armed = refl }

sleep_for-hold_example :
    (a : Alarms) × (w : Thread) × (t : Timer) × (sleep_for (λ p. p) 20 5 alarms running ≡ ok (a, w))
    × (at 25 a.manager.timers ≡ some t)
    × (t.timeout_tp ≡ 25)
    × (t.interval ≡ 0)
    × ((user : ℕ → Shared → Shared) (alive : ℕ → Bool) (s : Shared)
        → (run_callback user alive t.cb s).task_list ≡ s.task_list ++ (coroutine_task 1 ∷ []))
    × (w.store 1 ≡ some (record sleeper { state = hold }))
    × (w.current ≡ some 0)
sleep_for-hold_example =
    sleep_for-hold (λ p. p) 20 5 1 sleeper alarms running alarms-Inv (omega arith) refl refl refl
      refl
