-- ===== src/Scheduler/Life.antt =====
-- The life of a scheduler (sylar/concurrency/scheduler.cpp: the constructor and the destructor, `Start`,
-- `Stop`), over the threads of `Threads`. `self` stands for the scheduler and `body` for its bound
-- `SchedulingFunc`;
pub mod Starts
pub mod Stops
pub mod Cycle
mod Tests
use sylar_study.Prelude.{
  ℕ, zero, suc, ◌+◌, ◌%◌, Bool, true, false, not, ◌||◌, ◌++◌, Option, none, some, List, [], ◌∷◌,
  ◌==◌, leb, length, if◌then◌else◌, Outcome, ok, fault, thrown, check, get, ◌>>=◌, ◌>>◌, Run, ◌>=>◌,
  Bytes, codes, decimal,
}
use sylar_study.Timer.{Callback}
use sylar_study.Coroutine.{
  Thread, Stop, returns, get_main_coroutine, new_coroutine, swap_in, stop as stop_coroutine,
  is_none,
}
use sylar_study.Threads.{Threads, new_thread, join, destroy}
use sylar_study.Scheduler.{Shared, World, notify, is_stopped}
use sylar_study.Scheduler.Loop.{Site, Dummy, set_scheduling_coroutine, scheduling_func}

-- `site` is the thread that makes the calls, with the list and the flags that all threads share.
pub record Life : Type 0 where
  pub name : Bytes
  pub dummy : Dummy
  pub pool : List (Option ℕ)
  pub site : Site
  pub threads : Threads

abbrev pub null_pool : ℕ → List (Option ℕ)
null_pool zero = []
null_pool (suc n) = none ∷ null_pool n

-- The number of threads in the pool, in 64 bits.
unfoldable pub pool_size : ℕ → Bool → ℕ
pool_size thread_num include =
    if include then (thread_num + 18446744073709551615) % 18446744073709551616 else thread_num

-- The largest size of a vector of pointers.
abbrev pub max_pool : ℕ
max_pool = 1152921504606846975

abbrev pub new_shared : Shared
new_shared = record {
  task_list = [];
  stopped = true;
  notified = 0;
  active_threads = 0;
  idle_threads = 0;
}

-- The dummy main coroutine of a constructor that includes its own thread.
unfoldable pub new_dummy : Callback → Bool → Thread → Outcome (Thread × Option ℕ)
unfolding get_main_coroutine set_scheduling_coroutine
new_dummy body false w = ok (w, none)
new_dummy body true w = do
  m ← get_main_coroutine w
  w1 ← set_scheduling_coroutine none m.0
  r ← new_coroutine (some body) 10240 true w1
  ok (r.0, some r.1)

-- The constructor, on the thread `me`.
unfoldable pub new_scheduler : ℕ → Bool → Bytes → ℕ → Callback → Site → Threads → Outcome Life
unfolding pool_size new_dummy
new_scheduler thread_num include name me body before ts =
    if leb (pool_size thread_num include) max_pool
    then (new_dummy body include before.world.thread >>= (λ d. ok (record {
      name = name;
      dummy = record { coroutine = d.1; thread = if include then me else 0 };
      pool = null_pool (pool_size thread_num include);
      site = record before { world = record { shared = new_shared; thread = d.0 } };
      threads = ts;
    })))
    else fault thrown

-- The destructor's assertion.
pub destroy_scheduler : Life → Outcome (Unit {0})
unfolding is_stopped
destroy_scheduler s = check (is_stopped s.site.world.shared)

abbrev pub with_shared : (Shared → Shared) → Life → Life
with_shared f s = record s {
  site = record s.site { world = record s.site.world { shared = f s.site.world.shared } };
}

-- `reset` of a pointer of the pool destroys what it led to before.
unfoldable pub replace : ℕ → Option ℕ → Threads → Outcome Threads
unfolding destroy
replace me none ts = ok ts
replace me (some i) ts = destroy me i ts

-- The loop of `Start`, from a place of the pool on.
unfoldable pub fill :
    ℕ → Bytes → ℕ → List (Option ℕ) → Threads → Outcome (List (Option ℕ) × Threads)
unfolding new_thread replace
fill me name i [] ts = ok ([], ts)
fill me name i (p ∷ ps) ts = do
  r ← new_thread (name ++ codes "_" ++ decimal i) ts
  ts1 ← replace me p r.0
  rest ← fill me name (suc i) ps ts1
  ok (some r.1 ∷ rest.0, rest.1)

-- `Start`.
unfoldable pub start : ℕ → Life → Outcome Life
unfolding fill
start me s =
    if s.site.world.shared.stopped
    then (fill me s.name 0 s.pool s.threads >>= (λ r.
        ok (
          with_shared (λ h. record h { stopped = false })
            (record s { pool = r.0; threads = r.1 }))))
    else ok s

-- A thread that has just started.
abbrev pub blank_site : Shared → Site
blank_site h = record {
  world = record {
    shared = h;
    thread = record {
      store = λ i. none;
      current = none;
      main = none;
      scheduling = none;
      next_id = 0;
      count = 0;
    };
  };
  hooked = false;
  scheduler = none;
}

-- What becomes of the threads when `tmp_pool` ends.
unfoldable pub destroy_all : ℕ → List (Option ℕ) → Threads → Outcome Threads
unfolding replace
destroy_all me [] ts = ok ts
destroy_all me (p ∷ ps) ts = replace me p ts >>= λ ts1. destroy_all me ps ts1

module _ (run : ℕ → World → World × Stop) (poll : World → World) where
  -- `SwapIn` of the dummy main coroutine, which runs `SchedulingFunc` on this thread.
  unfoldable pub run_dummy : ℕ → ℕ → ℕ → Callback → Life → Run Life
  unfolding scheduling_func
  run_dummy fuel self me idle_func s = elim s.dummy.coroutine [
    | none ↦ some (ok s)
    | some i ↦ some (swap_in i s.site.world.thread) >=> λ w1.
        scheduling_func run poll fuel self me s.dummy idle_func
          (record s.site { world = record s.site.world { thread = w1 } })
        >=> λ t. some (stop_coroutine returns i t.world.thread) >=> λ w2.
            some (ok (record s { site = record t { world = record t.world { thread = w2 } } }))
  ]

  -- What a thread that `Start` has made does to the list.
  unfoldable pub work : ℕ → ℕ → ℕ → Dummy → Callback → Shared → Run Shared
  unfolding scheduling_func
  work fuel self me d idle_func h =
      scheduling_func run poll fuel self me d idle_func (blank_site h) >=> λ s.
      some (ok s.world.shared)

  -- The loop of `Stop` over the threads. Each of them runs while `Stop` waits for it: of the orders
  -- in which the threads may run, this is the one in which they are joined.
  unfoldable pub join_all :
      ℕ → ℕ → ℕ → Dummy → Callback → List (Option ℕ) → Shared → Threads → Run (Shared × Threads)
  unfolding work join
  join_all fuel self me d idle_func [] h ts = some (ok (h, ts))
  join_all fuel self me d idle_func (p ∷ ps) h ts = some (get p) >=> λ i.
      some (get (ts.objects i)) >=> λ o.
      (if o.joinable then work fuel self o.pthread_id d idle_func h else some (ok h)) >=> λ h1.
      join me i ts >=> λ ts1. join_all fuel self me d idle_func ps h1 ts1

  -- `Stop` behind the exchange of the flag.
  unfoldable pub stop_threads : ℕ → ℕ → ℕ → Callback → Life → Run Life
  unfolding run_dummy join_all destroy_all
  stop_threads fuel self me idle_func s =
      let s1 = with_shared (λ h. notify (length s.pool) (record h { stopped = true })) s in
      let s2 = if is_none s.dummy.coroutine then s1 else with_shared (notify 1) s1 in
      run_dummy fuel self me idle_func s2 >=> λ s3.
      join_all fuel self me s3.dummy idle_func s3.pool s3.site.world.shared s3.threads >=> λ r.
      some (destroy_all me s3.pool r.1) >=> λ ts1.
      some (ok (with_shared (λ h. r.0) (record s3 { pool = []; threads = ts1 })))

  -- `Stop`.
  unfoldable pub stop : ℕ → ℕ → ℕ → Callback → Life → Run Life
  unfolding stop_threads
  stop fuel self me idle_func s =
      some (check (is_none s.dummy.coroutine || me == s.dummy.thread)) >=> λ _.
      (if s.site.world.shared.stopped then some (ok s) else stop_threads fuel self me idle_func s)
