-- ===== src/Scheduler/Life/Stops.antt =====
-- That `Stop` returns (sylar/concurrency/scheduler.cpp).
use sylar_study.Prelude.{
  ℕ, ◌+◌, ◌≤◌, ◌≡◌, refl, sym, subst, ap, ◌∙◌, true, false, not, ◌&&◌, ◌||◌, none, some, List, [],
  ◌∷◌, ◌==◌, map, length, All, if◌then◌else◌, ok, fault, assertion, check, ◌>>=◌, Run, ◌>=>◌, arith,
  get,
}
use sylar_study.Timer.{Callback}
use sylar_study.Coroutine.{Stop, returns, is_none, swap_in, stop as stop_coroutine}
use sylar_study.Threads.{ThreadObject, Threads, is_null, get_this_thread, join}
use sylar_study.Threads.Ended.{IsEnded, join-IsEnded, destroy-this_thread}
use sylar_study.Scheduler.{Invocable, Shared, World, notify, is_empty, is_stopped}
use sylar_study.Scheduler.Loop.{Dummy, scheduling_func}
use sylar_study.Scheduler.Loop.Drain.{IsQuiet, IsCall}
use sylar_study.Scheduler.Loop.Returns.{scheduling_func-returns}
use sylar_study.Scheduler.Life.{
  Life, with_shared, replace, blank_site, work, run_dummy, join_all, destroy_all, stop_threads,
  stop, destroy_scheduler,
}

abbrev pub IsOther : ℕ → ℕ → Type 0
IsOther i j = (j == i) ≡ false

-- No number stands twice in the list.
abbrev pub IsDistinct : List ℕ → Type 0
IsDistinct [] = Unit {0}
IsDistinct (i ∷ is) = All (IsOther i) is × IsDistinct is

IsOther-swap : (i j : ℕ) → IsOther i j → IsOther j i
IsOther-swap i j h = ground arith

pub All-implies : {P Q : ℕ → Type 0} (is : List ℕ) → ((i : ℕ) → P i → Q i) → All P is → All Q is
All-implies [] f a = tt
All-implies (i ∷ is) f (h, a) = (f i h, All-implies is f a)

All-both :
    {P Q R : ℕ → Type 0} (is : List ℕ)
    → ((i : ℕ) → P i → Q i → R i)
    → All P is
    → All Q is
    → All R is
All-both [] f a b = tt
All-both (i ∷ is) f (g, a) (h, b) = (f i g h, All-both is f a b)

abbrev IsLive : Threads → ℕ → Type 0
IsLive ts i = (o : ThreadObject) × (ts.objects i ≡ some o)

destroy_all-gone :
    (me : ℕ) (is : List ℕ) (ts : Threads)
    → IsDistinct is
    → All (IsLive ts) is
    → get_this_thread me ts ≡ none
    → (ts1 : Threads) × (destroy_all me (map some is) ts ≡ ok ts1)
      × All (λ i. ts1.objects i ≡ none) is
      × ((j : ℕ) → All (IsOther j) is → ts1.objects j ≡ ts.objects j)
unfolding destroy_all replace
destroy_all-gone me [] ts u a n = (ts, refl, tt, λ j h. refl)
destroy_all-gone me (i ∷ is) ts (v, u) ((o, e), a) n =
    let d = destroy-this_thread me i o ts e in
    let r = destroy_all-gone me is d.0 u (All-both is (λ j h l. (l.0, d.3 j h ∙ l.1)) v a) d.4 in
    (
      r.0,
      ap (λ q. q >>= λ ts1. destroy_all me (map some is) ts1)
            (d.1 ∙ ap (λ q. if is_null q then ok d.0 else fault assertion) n)
          ∙ r.1,
      (r.3 i v ∙ d.2, r.2),
      (λ j h. r.3 j h.1 ∙ d.3 j (IsOther-swap j i h.0)),
    )

-- A task that any thread may run and that is a callback.
abbrev pub IsFree : Invocable → Type 0
IsFree t = (t.target_thread ≡ 0) × (t.coroutine ≡ none) × ((f : Callback) × (t.callback ≡ some f))

IsFree-IsCall : (me : ℕ) (ts : List Invocable) → All IsFree ts → All (IsCall me) ts
IsFree-IsCall me [] a = tt
IsFree-IsCall me (t ∷ ts) ((e, c, g), a) =
    ((ap (λ k. not (k == 0) && not (k == me)) e, c, g), IsFree-IsCall me ts a)

-- The tasks that are left behind threads: none, if there was a thread.
abbrev pub left_tasks : List ℕ → List Invocable → List Invocable
left_tasks [] l = l
left_tasks (i ∷ is) l = []

module _ (run : ℕ → World → World × Stop) (poll : World → World) (quiet : IsQuiet run) where
  work-drains :
      (fuel self me : ℕ) (d : Dummy) (f : Callback) (h : Shared)
      → d.coroutine ≡ none
      → h.stopped ≡ true
      → All IsFree h.task_list
      → length h.task_list + 2 ≤ fuel
      → (h1 : Shared) × (work run poll fuel self me d f h ≡ some (ok h1))
        × (h1.task_list ≡ [])
        × (h1.stopped ≡ true)
  unfolding work
  work-drains fuel self me d f h off stopped free enough =
      let r =
        scheduling_func-returns run poll quiet fuel self me d f (blank_site h)
          (ap (λ c. not (is_none c) && d.thread == me) off) refl
          (record { no_current = refl; no_main = refl; no_scheduling = refl }) stopped
          (IsFree-IsCall me h.task_list free) enough in
      (r.0.world.shared, ap (λ q. q >=> λ s. some (ok s.world.shared)) r.1, r.2, r.3)

  -- What the loop over the threads leaves.
  record IsJoined (is : List ℕ) (l : List Invocable) (ts ts1 : Threads) (h1 : Shared) : Type 0 where
    pub live : All (IsLive ts1) is
    pub others : (j : ℕ) → All (IsOther j) is → ts1.objects j ≡ ts.objects j
    pub same_locals : ts1.locals ≡ ts.locals
    pub tasks : h1.task_list ≡ left_tasks is l
    pub stopped : h1.stopped ≡ true

  join_all-IsJoined :
      (fuel self me : ℕ) (d : Dummy) (f : Callback) (is : List ℕ) (h : Shared) (ts : Threads)
      → d.coroutine ≡ none
      → h.stopped ≡ true
      → All IsFree h.task_list
      → length h.task_list + 2 ≤ fuel
      → IsDistinct is
      → All (IsEnded me ts) is
      → (h1 : Shared) × (ts1 : Threads) × (join_all run poll fuel self me d f (map some is) h ts
          ≡ some (ok (h1, ts1)))
        × IsJoined is h.task_list ts ts1 h1
  unfolding join_all
  join_all-IsJoined fuel self me d f [] h ts off stopped free enough u a = (
    h,
    ts,
    refl,
    record { live = tt; others = λ j k. refl; same_locals = refl; tasks = refl; stopped = stopped },
  )
  join_all-IsJoined fuel self me d f (i ∷ is) h ts off stopped free enough (v, u) (e, a) =
      let (o, at_i, owns, ends, other) = e in
      let w = work-drains fuel self o.pthread_id d f h off stopped free enough in
      let q = join-IsEnded me i ts e in
      let later : Shared → Threads → Run (Shared × Threads) =
        λ h1 ts1. join_all run poll fuel self me d f (map some is) h1 ts1 in
      let joined : Shared → Run (Shared × Threads) = λ h1. join me i ts >=> later h1 in
      let r =
        join_all-IsJoined fuel self me d f is w.0 q.0 off w.3 (subst (All IsFree) (sym w.2) tt)
          (subst (λ l. length l + 2 ≤ fuel) (sym w.2) (omega (arith, enough))) u
          (All-both is
            (λ j k b. (b.0, q.2 j k ∙ b.1, b.2, ap (λ g. g b.0.pthread_id) q.5 ∙ b.3, b.4)) v a) in
      (
        r.0,
        r.1,
        ap
              (λ z. some (get z) >=> λ p.
                (if p.joinable then work run poll fuel self p.pthread_id d f h else some (ok h))
                >=> joined)
              at_i
            ∙ ap
                (λ b.
                  (if b then work run poll fuel self o.pthread_id d f h else some (ok h))
                  >=> joined)
                owns
            ∙ ap (λ z. z >=> joined) w.1
            ∙ ap (λ z. z >=> later w.0) q.1
            ∙ r.2,
        record {
          live = ((q.3.0, r.3.others i v ∙ q.3.1), r.3.live);
          others = λ j k. r.3.others j k.1 ∙ q.2 j (IsOther-swap j i k.0);
          same_locals = r.3.same_locals ∙ q.4;
          tasks = r.3.tasks ∙ left_none is w.0.task_list w.2;
          stopped = r.3.stopped;
        },
      )
    where
      left_none : (is : List ℕ) (l : List Invocable) → l ≡ [] → left_tasks is l ≡ []
      left_none [] l e = e
      left_none (i ∷ is) l e = refl

  abbrev marked : Life → Life
  marked s = with_shared (λ h. notify (length s.pool) (record h { stopped = true })) s

  abbrev emptied : Life → Shared → Threads → Life
  emptied s h ts = with_shared (λ z. h) (record (marked s) { pool = []; threads = ts })

  stop_threads-run_dummy :
      (fuel self me : ℕ) (idle_func : Callback) (s : Life)
      → s.dummy.coroutine ≡ none
      → stop_threads run poll fuel self me idle_func s ≡ (
          join_all run poll fuel self me s.dummy idle_func s.pool
            (marked s).site.world.shared
            s.threads
          >=> λ r. some (destroy_all me s.pool r.1) >=> λ ts1. some (ok (emptied s r.0 ts1)))
  unfolding stop_threads run_dummy
  stop_threads-run_dummy fuel self me idle_func s e =
      let rest : Life → Run Life = λ s3.
        join_all run poll fuel self me s3.dummy idle_func s3.pool s3.site.world.shared s3.threads
        >=> λ r. some (destroy_all me s3.pool r.1) >=> λ ts1.
            some (ok (with_shared (λ h. r.0) (record s3 { pool = []; threads = ts1 }))) in
      ap
        (λ c.
          run_dummy run poll fuel self me idle_func
            (if is_none c then marked s else with_shared (notify 1) (marked s))
          >=> rest)
        e
      ∙ ap
          (λ c.
            (elim c [
              | none ↦ some (ok (marked s))
              | some i ↦ some (swap_in i s.site.world.thread) >=> λ w1.
                  scheduling_func run poll fuel self me s.dummy idle_func (record (marked s).site {
                    world = record (marked s).site.world { thread = w1 };
                  })
                  >=> λ t. some (stop_coroutine returns i t.world.thread) >=> λ w2. some (
                      ok (record (marked s) {
                        site = record t { world = record t.world { thread = w2 } };
                      }))
            ])
            >=> rest)
          e

  -- `Stop` of a scheduler that runs and has no dummy main coroutine returns, when each thread of its
  -- pool ends by the time it is joined and is not the calling one, which was not started through a
  -- `Thread`, when all tasks are callbacks for any thread that return or throw and leave the thread
  -- and the list alone, the fuel is for two turns more than there are tasks, and the threads run in
  -- the order in which they are joined. The pool is empty
  -- behind it and the threads' objects are gone; if there was a thread no task is left, and the
  -- assertion of the destructor fails exactly when there is one.
  pub stop-returns :
      (fuel self me : ℕ) (idle_func : Callback) (s : Life) (is : List ℕ)
      → s.dummy.coroutine ≡ none
      → s.site.world.shared.stopped ≡ false
      → All IsFree s.site.world.shared.task_list
      → length s.site.world.shared.task_list + 2 ≤ fuel
      → s.pool ≡ map some is
      → IsDistinct is
      → All (IsEnded me s.threads) is
      → get_this_thread me s.threads ≡ none
      → (s' : Life) × (stop run poll fuel self me idle_func s ≡ some (ok s'))
        × (s'.pool ≡ [])
        × All (λ i. s'.threads.objects i ≡ none) is
        × (s'.site.world.shared.task_list ≡ left_tasks is s.site.world.shared.task_list)
        × (destroy_scheduler s' ≡ check (is_empty (left_tasks is s.site.world.shared.task_list)))
  unfolding stop destroy_scheduler is_stopped
  stop-returns fuel self me idle_func s is off going calls enough pointers distinct ended free =
      let h = (marked s).site.world.shared in
      let j =
        join_all-IsJoined fuel self me s.dummy idle_func is h s.threads off refl calls enough
          distinct ended in
      let d =
        destroy_all-gone me is j.1 distinct j.3.live
          (ap (λ f. (f me).this_thread) j.3.same_locals ∙ free) in
      let end : Shared → Threads → Run Life = λ h1 ts1. some (ok (emptied s h1 ts1)) in
      (
        emptied s j.0 d.0,
        ap
              (λ c. some (check (is_none c || me == s.dummy.thread)) >=> λ _.
                (if s.site.world.shared.stopped
                  then some (ok s)
                  else stop_threads run poll fuel self me idle_func s))
              off
            ∙ ap (λ b. if b then some (ok s) else stop_threads run poll fuel self me idle_func s)
                going
            ∙ stop_threads-run_dummy fuel self me idle_func s off
            ∙ ap
                (λ l. join_all run poll fuel self me s.dummy idle_func l h s.threads >=> λ r.
                  some (destroy_all me l r.1) >=> end r.0)
                pointers
            ∙ ap (λ q. q >=> λ r. some (destroy_all me (map some is) r.1) >=> end r.0) j.2
            ∙ ap (λ q. some q >=> end j.0) d.1,
        refl,
        d.2,
        j.3.tasks,
        ap (λ b. check (b && is_empty j.0.task_list)) j.3.stopped
            ∙ ap (λ l. check (is_empty l)) j.3.tasks,
      )
