-- ===== src/Scheduler/Life/Starts.antt =====
-- Which threads a scheduler starts (sylar/concurrency/scheduler.cpp: the constructor, `Start`, `Stop`).
use sylar_study.Prelude.{
  ℕ, zero, suc, ◌+◌, ◌<◌, ◌≡◌, refl, sym, ap, ◌∙◌, Bool, true, false, ◌||◌, ◌++◌, Option, some,
  List, [], ◌∷◌, ◌==◌, leb, length, All, if◌then◌else◌, Outcome, ok, fault, thrown, check, ◌>>=◌,
  >>=-eq-ok, Run, ◌>=>◌, >=>-eq-ok, ok-injective, some-injective, Bytes, codes, decimal, arith,
}
use sylar_study.Timer.{Callback}
use sylar_study.Coroutine.{Stop, is_none}
use sylar_study.Threads.{Threads, is_null}
use sylar_study.Threads.Ready.{IsUnstarted, new_thread-IsUnstarted}
use sylar_study.Scheduler.{Shared, World, notify}
use sylar_study.Scheduler.Loop.{Site}
use sylar_study.Scheduler.Life.{
  Life, null_pool, pool_size, max_pool, new_dummy, new_scheduler, with_shared, replace, fill, start,
  run_dummy, join_all, destroy_all, stop_threads, stop,
}

length-null_pool : (n : ℕ) → length (null_pool n) ≡ n
length-null_pool zero = refl
length-null_pool (suc n) = omega (arith, length-null_pool n)

size_wraps :
    (n : ℕ)
    → n < 18446744073709551616
    → leb (pool_size n true) max_pool ≡ true
    → (pool_size n true + 1 ≡ n)
unfolding pool_size
size_wraps n h l = ground arith

guarded :
    {A : Type 0} (b : Bool) (m : Outcome A) {a : A}
    → (if b then m else fault thrown) ≡ ok a
    → (b ≡ true) × (m ≡ ok a)
guarded true m h = (refl, h)
guarded false m h = cc

-- A constructor that includes its own thread returns only when the number of threads is not zero,
-- and then makes room for one thread less; the number has 64 bits.
pub new_scheduler-pool :
    (n : ℕ) (name : Bytes) (me : ℕ) (body : Callback) (before : Site) (ts : Threads) (s : Life)
    → n < 18446744073709551616
    → new_scheduler n true name me body before ts ≡ ok s
    → length s.pool + 1 ≡ n
unfolding new_scheduler
new_scheduler-pool n name me body before ts s h e =
    let g = guarded (leb (pool_size n true) max_pool) _ e in
    let d = >>=-eq-ok (new_dummy body true before.world.thread) _ g.1 in
    ap (λ z. length z.pool + 1) (sym (ok-injective d.2))
    ∙ ap (λ z. z + 1) (length-null_pool (pool_size n true))
    ∙ size_wraps n h g.0

fill-All :
    (me : ℕ) (name : Bytes) (i n : ℕ) (ts : Threads)
    → IsUnstarted ts
    → (r : List (Option ℕ) × Threads) × (fill me name i (null_pool n) ts ≡ ok r)
      × (length r.0 ≡ n)
      × All (λ p. is_null p ≡ false) r.0
      × (r.1.next_thread ≡ ts.next_thread + n)
unfolding fill replace
fill-All me name i zero ts u = (([], ts), refl, refl, tt, omega arith)
fill-All me name i (suc n) ts u =
    let a = new_thread-IsUnstarted (name ++ codes "_" ++ decimal i) ts u in
    let b = fill-All me name (suc i) n a.0 a.5 in
    let grow : ℕ → List (Option ℕ) × Threads → Outcome (List (Option ℕ) × Threads) =
      λ j rest. ok (some j ∷ rest.0, rest.1) in
    (
      (some ts.next_object ∷ b.0.0, b.0.1),
      ap (λ q. q >>= λ r. (fill me name (suc i) (null_pool n) r.0 >>= grow r.1)) a.1
          ∙ ap (λ q. q >>= grow ts.next_object) b.1,
      ap suc b.2,
      (refl, b.3),
      omega (arith, b.4, a.4),
    )

-- `Start` on a scheduler that is stopped and has null pointers in its pool returns: there is then
-- a thread for each place of the pool, and the scheduler is no longer stopped.
pub start-All :
    (me n : ℕ) (s : Life)
    → s.site.world.shared.stopped ≡ true
    → s.pool ≡ null_pool n
    → IsUnstarted s.threads
    → (s' : Life) × (start me s ≡ ok s')
      × (length s'.pool ≡ n)
      × All (λ p. is_null p ≡ false) s'.pool
      × (s'.threads.next_thread ≡ s.threads.next_thread + n)
      × (s'.site.world.shared.stopped ≡ false)
unfolding start
start-All me n s stopped null u =
    let b = fill-All me s.name 0 n s.threads u in
    let end : List (Option ℕ) × Threads → Life = λ r.
      with_shared (λ h. record h { stopped = false }) (record s { pool = r.0; threads = r.1 }) in
    (
      end b.0,
      ap (λ c. if c then (fill me s.name 0 s.pool s.threads >>= λ r. ok (end r)) else ok s) stopped
          ∙ ap (λ l. fill me s.name 0 l s.threads >>= λ r. ok (end r)) null
          ∙ ap (λ q. q >>= λ r. ok (end r)) b.1,
      b.2,
      b.3,
      b.4,
      refl,
    )

start_empty :
    (me : ℕ) (s : Life)
    → s.pool ≡ []
    → (s2 : Life) × (start me s ≡ ok s2) × (s2.pool ≡ []) × (s2.threads ≡ s.threads)
unfolding start fill
start_empty me s e = start_as s.site.world.shared.stopped refl
  where
    end : List (Option ℕ) × Threads → Life
    end r = with_shared (λ h. record h { stopped = false }) (record s { pool = r.0; threads = r.1 })

    start_on : Bool → Outcome Life
    start_on c = if c then (fill me s.name 0 s.pool s.threads >>= λ r. ok (end r)) else ok s

    start_as :
        (c : Bool)
        → s.site.world.shared.stopped ≡ c
        → (s2 : Life) × (start me s ≡ ok s2) × (s2.pool ≡ []) × (s2.threads ≡ s.threads)
    start_as true c = (
      end ([], s.threads),
      ap start_on c ∙ ap (λ l. fill me s.name 0 l s.threads >>= λ r. ok (end r)) e,
      refl,
      refl,
    )
    start_as false c = (s, ap start_on c, e, refl)

module _ (run : ℕ → World → World × Stop) (poll : World → World) where
  stop_threads-pool :
      (fuel self me : ℕ) (idle_func : Callback) (s s' : Life)
      → stop_threads run poll fuel self me idle_func s ≡ some (ok s')
      → s'.pool ≡ []
  unfolding stop_threads
  stop_threads-pool fuel self me idle_func s s' h =
      let s1 = with_shared (λ h. notify (length s.pool) (record h { stopped = true })) s in
      let s2 = if is_none s.dummy.coroutine then s1 else with_shared (notify 1) s1 in
      let emptied : Life → Shared × Threads → Threads → Run Life =
        λ s3 r ts. some (ok (with_shared (λ h. r.0) (record s3 { pool = []; threads = ts }))) in
      let destroyed : Life → Shared × Threads → Run Life =
        λ s3 r. some (destroy_all me s3.pool r.1) >=> emptied s3 r in
      let joined : Life → Run (Shared × Threads) = λ s3.
        join_all run poll fuel self me s3.dummy idle_func s3.pool s3.site.world.shared s3.threads in
      let a =
        >=>-eq-ok (run_dummy run poll fuel self me idle_func s2) (λ s3. joined s3 >=> destroyed s3)
          h in
      let b = >=>-eq-ok (joined a.0) (destroyed a.0) a.2 in
      let c = >=>-eq-ok (some (destroy_all me a.0.pool b.0.1)) (emptied a.0 b.0) b.2 in
      sym (ap (λ z. z.pool) (ok-injective (some-injective c.2)))

  -- When `Stop` of a scheduler that was not stopped has returned, the pool is empty, and a later `Start`
  -- starts no thread.
  pub start-stop :
      (fuel self me me' : ℕ) (idle_func : Callback) (s s' : Life)
      → s.site.world.shared.stopped ≡ false
      → stop run poll fuel self me idle_func s ≡ some (ok s')
      → (s2 : Life) × (start me' s' ≡ ok s2) × (s2.pool ≡ []) × (s2.threads ≡ s'.threads)
  unfolding stop
  start-stop fuel self me me' idle_func s s' going h =
      let a =
        >=>-eq-ok (some (check (is_none s.dummy.coroutine || me == s.dummy.thread)))
          (λ _.
            if s.site.world.shared.stopped
            then some (ok s)
            else stop_threads run poll fuel self me idle_func s)
          h in
      let kept =
        ap (λ b. if b then some (ok s) else stop_threads run poll fuel self me idle_func s)
          (sym going)
        ∙ a.2 in
      start_empty me' s' (stop_threads-pool fuel self me idle_func s s' kept)
