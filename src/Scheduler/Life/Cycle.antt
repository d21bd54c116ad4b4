-- ===== src/Scheduler/Life/Cycle.antt =====
-- `Start` and the `Stop` behind it (sylar/concurrency/scheduler.cpp).
use sylar_study.Prelude.{
  ℕ, sym, ◌+◌, length, zero, suc, ◌≤◌, ◌<◌, ◌≡◌, refl, ap, ◌∙◌, Bool, true, false, Option, none,
  some, List, [], ◌∷◌, ◌++◌, ◌==◌, ==_refl, map, All, if◌then◌else◌, Outcome, ok, check, ◌>>=◌,
  ◌>=>◌, Bytes, codes, decimal, arith,
}
use sylar_study.Timer.{Callback}
use sylar_study.Coroutine.{Stop}
use sylar_study.Threads.{Threads, get_this_thread}
use sylar_study.Threads.Ready.{
  IsUnstarted, started, with_thread, new_thread-with_thread, with_thread-IsUnstarted,
}
use sylar_study.Threads.Ended.{IsEnded}
use sylar_study.Scheduler.{Invocable, World, is_empty}
use sylar_study.Scheduler.Life.{
  Life, null_pool, with_shared, replace, fill, start, stop, destroy_scheduler,
}
use sylar_study.Scheduler.Loop.Drain.{IsQuiet}
use sylar_study.Scheduler.Life.Stops.{IsFree, left_tasks, IsDistinct, All-implies, stop-returns}

-- What the loop of `Start` leaves, when the threads that it starts end.
record IsFilled (me : ℕ) (ts : Threads) (is : List ℕ) (r : Threads) : Type 0 where
  distinct : IsDistinct is
  later : All (λ j. ts.next_object ≤ j) is
  ended : All (IsEnded me r) is
  earlier : (j : ℕ) → j < ts.next_object → r.objects j ≡ ts.objects j
  same_finished : r.finished ≡ ts.finished
  same_this : get_this_thread me r ≡ get_this_thread me ts

different : (i j : ℕ) → i < j → (i == j) ≡ false
different i j h = ground arith

different_later : (i j : ℕ) → suc i ≤ j → (j == i) ≡ false
different_later i j h = ground arith

suc_ne_zero : (n : ℕ) → (suc n == 0) ≡ false
suc_ne_zero n = ground arith

local_of :
    (b : Bool) (ts : Threads) (me t : ℕ) (name : Bytes)
    → b ≡ false
    → (if b then record { this_thread = some t; thread_name = name } else ts.locals me).this_thread
      ≡ get_this_thread me ts
local_of true ts me t name h = cc
local_of false ts me t name h = refl

IsFilled-with_thread :
    (me : ℕ) (name : Bytes) (ts : Threads) (is : List ℕ) (r : Threads)
    → me < ts.next_thread
    → ((t : ℕ) → ts.next_thread ≤ t → ts.finished t ≡ true)
    → IsFilled me (with_thread name ts) is r
    → IsFilled me ts (ts.next_object ∷ is) r
IsFilled-with_thread me name ts is r m f b = record {
  distinct = (All-implies is (λ j h. different_later ts.next_object j h) b.later, b.distinct);
  later = (omega arith, All-implies is (λ j h. omega (arith, h)) b.later);
  ended = (
    (
      started name ts.next_thread,
      b.earlier ts.next_object (omega arith)
          ∙ ap (λ c. if c then some (started name ts.next_thread) else ts.objects ts.next_object)
              (==_refl ts.next_object),
      refl,
      ap (λ g. g ts.next_thread) b.same_finished ∙ f ts.next_thread (omega arith),
      different_later me ts.next_thread (omega (arith, m)),
    ),
    b.ended,
  );
  earlier = λ j h.
      b.earlier j (omega (arith, h))
      ∙ ap (λ c. if c then some (started name ts.next_thread) else ts.objects j)
          (different j ts.next_object h);
  same_finished = b.same_finished;
  same_this =
      b.same_this
      ∙ local_of (me == ts.next_thread) ts me ts.next_object name (different me ts.next_thread m);
}

fill-IsFilled :
    (me : ℕ) (name : Bytes) (i n : ℕ) (ts : Threads)
    → IsUnstarted ts
    → me < ts.next_thread
    → ((t : ℕ) → ts.next_thread ≤ t → ts.finished t ≡ true)
    → (is : List ℕ) × (r : Threads) × (fill me name i (null_pool n) ts ≡ ok (map some is, r))
      × IsFilled me ts is r
      × ((l : List Invocable) → left_tasks is l ≡ (if n == 0 then l else []))
unfolding fill replace
fill-IsFilled me name i zero ts u m f = (
  [],
  ts,
  refl,
  record {
    distinct = tt;
    later = tt;
    ended = tt;
    earlier = λ j h. refl;
    same_finished = refl;
    same_this = refl;
  },
  (λ l. refl),
)
fill-IsFilled me name i (suc n) ts u m f =
    let own = name ++ codes "_" ++ decimal i in
    let ts1 = with_thread own ts in
    let b =
      fill-IsFilled me name (suc i) n ts1 (with_thread-IsUnstarted own ts u) (omega (arith, m))
        (λ t h. f t (omega (arith, h))) in
    let grow : ℕ → List (Option ℕ) × Threads → Outcome (List (Option ℕ) × Threads) =
      λ j rest. ok (some j ∷ rest.0, rest.1) in
    (
      ts.next_object ∷ b.0,
      b.1,
      ap (λ q. q >>= λ r. (fill me name (suc i) (null_pool n) r.0 >>= grow r.1))
            (new_thread-with_thread own ts u)
          ∙ ap (λ q. q >>= grow ts.next_object) b.2,
      IsFilled-with_thread me own ts b.0 b.1 m f b.3,
      (λ l. ap (λ z. if z then l else []) (sym (suc_ne_zero n))),
    )

module _ (run : ℕ → World → World × Stop) (poll : World → World) (quiet : IsQuiet run) where
  -- `Start` and then `Stop` return, on a stopped scheduler with null pointers in its pool and without
  -- a dummy main coroutine, when every thread that has not started yet ends by the time it is
  -- joined, the calling thread has started and was not started through a `Thread`, all tasks are
  -- callbacks for any thread that return or throw and leave the thread and the list alone, the fuel
  -- is for two turns more than there are tasks, and the threads run in the order in which they are
  -- joined. The pool is empty then. If it had a place the
  -- threads have taken all tasks, and the assertion of the destructor holds; else the tasks are
  -- left, and it fails when there are some.
  pub stop-start :
      (fuel self me n : ℕ) (idle_func : Callback) (s : Life)
      → s.site.world.shared.stopped ≡ true
      → s.dummy.coroutine ≡ none
      → s.pool ≡ null_pool n
      → IsUnstarted s.threads
      → me < s.threads.next_thread
      → ((t : ℕ) → s.threads.next_thread ≤ t → s.threads.finished t ≡ true)
      → get_this_thread me s.threads ≡ none
      → All IsFree s.site.world.shared.task_list
      → length s.site.world.shared.task_list + 2 ≤ fuel
      → (s' : Life) × ((some (start me s) >=> stop run poll fuel self me idle_func) ≡ some (ok s'))
        × (s'.pool ≡ [])
        × (s'.site.world.shared.task_list ≡ (if n == 0 then s.site.world.shared.task_list else []))
        × (destroy_scheduler s'
            ≡ check (is_empty (if n == 0 then s.site.world.shared.task_list else [])))
  unfolding start
  stop-start fuel self me n idle_func s stopped off null u m f free calls enough =
      let b = fill-IsFilled me s.name 0 n s.threads u m f in
      let end : List (Option ℕ) × Threads → Life = λ r.
        with_shared (λ h. record h { stopped = false }) (record s { pool = r.0; threads = r.1 }) in
      let z =
        stop-returns run poll quiet fuel self me idle_func (end (map some b.0, b.1)) b.0 off refl
          calls enough refl b.3.distinct b.3.ended (b.3.same_this ∙ free) in
      let same = b.4 s.site.world.shared.task_list in
      (
        z.0,
        ap (λ q. some q >=> stop run poll fuel self me idle_func)
              (ap (λ c. if c then (fill me s.name 0 s.pool s.threads >>= λ r. ok (end r)) else ok s)
                  stopped
                ∙ ap (λ l. fill me s.name 0 l s.threads >>= λ r. ok (end r)) null
                ∙ ap (λ q. q >>= λ r. ok (end r)) b.2)
            ∙ z.1,
        z.2,
        z.4 ∙ same,
        z.5 ∙ ap (λ l. check (is_empty l)) same,
      )
