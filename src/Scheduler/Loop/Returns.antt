-- ===== src/Scheduler/Loop/Returns.antt =====
-- That `SchedulingFunc` returns on a thread of a stopped scheduler (sylar/concurrency/scheduler.cpp).
use sylar_study.Prelude.{
  ℕ, ◌+◌, ◌-◌, ◌%◌, ◌≤◌, ◌≡◌, ◌≢◌, refl, ap, ◌∙◌, inl, true, false, not, ◌||◌, Option, none, some,
  [], All, length, ==_refl, if◌then◌else◌, Outcome, ok, ◌>>=◌, ◌>>◌, Run, ◌>=>◌, check, arith,
}
use sylar_study.Timer.{Callback}
use sylar_study.Coroutine.{
  terminal, Coroutine, Thread, is_none, is_terminal, is_exec, is_init, put, Stop, main_coroutine,
  get_main_coroutine, new_main, destroy, same,
}
use sylar_study.Coroutine.Switch.{put_same}
use sylar_study.Coroutine.Reuse.{new_coroutine-at, made, with_new}
use sylar_study.Scheduler.{World, Locals, default_stack}
use sylar_study.Scheduler.Turn.{IsFresh}
use sylar_study.Scheduler.Loop.{
  Site, Dummy, is_on_dummy, set_scheduling_coroutine, set_scheduling, set_scheduler, begin, finish,
  destroy_temp, loop, scheduling_func,
}
use sylar_study.Scheduler.Loop.Drain.{IsQuiet, IsCall, IsDraining, IsDrained, loop-IsDrained}

-- A thread on which nothing was set up.
pub record IsUnused (w : Thread) : Type 0 where
  pub no_current : w.current ≡ none
  pub no_main : w.main ≡ none
  pub no_scheduling : w.scheduling ≡ none

abbrev with_main : Thread → Thread
with_main w = record (put w.next_id main_coroutine w) {
  next_id = (w.next_id + 1) % 4294967296;
  count = w.count + 1;
  main = some w.next_id;
  current = some w.next_id;
}

get_main-IsUnused :
    (w : Thread) → IsUnused w → get_main_coroutine w ≡ ok (with_main w, some w.next_id)
unfolding get_main_coroutine new_main
get_main-IsUnused w u =
    let made_main = ok (
      record (put w.next_id main_coroutine w) {
        next_id = (w.next_id + 1) % 4294967296;
        count = w.count + 1;
      },
      w.next_id,
    ) in
    let set : Thread × ℕ → Outcome (Thread × Option ℕ) =
      λ r. ok (record r.0 { main = some r.1; current = some r.1 }, some r.1) in
    ap (λ b. if b then (new_main w >>= set) else ok (w, w.main)) (ap is_none u.no_current)
    ∙ ap (λ b. (check b >> (check (is_none w.current) >> made_main)) >>= set) (ap is_none u.no_main)
    ∙ ap (λ b. (check b >> made_main) >>= set) (ap is_none u.no_current)

abbrev in_charge : Thread → Thread
in_charge w = record (with_main w) { scheduling = some w.next_id }

set_scheduling-IsUnused :
    (d : Dummy) (me : ℕ) (w : Thread)
    → is_on_dummy d me ≡ false
    → IsUnused w
    → set_scheduling d me (with_main w, some w.next_id) ≡ ok (in_charge w)
unfolding set_scheduling set_scheduling_coroutine
set_scheduling-IsUnused d me w off u =
    let m = with_main w in
    ap
      (λ b.
        if b
        then (set_scheduling_coroutine d.coroutine m >>= (λ v.
            (check (same d.coroutine v.current) >> check (not (same d.coroutine v.main))) >> ok v))
        else (set_scheduling_coroutine (some w.next_id) m
            >>= (λ v. check (same v.scheduling v.main) >> ok v)))
      off
    ∙ ap (λ b. (check b >> ok (in_charge w)) >>= (λ v. check (same v.scheduling v.main) >> ok v))
        (ap is_none u.no_scheduling)
    ∙ ap (λ b. check b >> ok (in_charge w)) (==_refl w.next_id)

begin-IsUnused :
    (d : Dummy) (me : ℕ) (f : Callback) (w : Thread)
    → is_on_dummy d me ≡ false
    → IsUnused w
    → begin d me f w
      ≡ ok (
        with_new f default_stack (in_charge w),
        record { temp = none; idle = (in_charge w).next_id },
      )
unfolding begin
begin-IsUnused d me f w off u = simp (
  get_main-IsUnused w u,
  set_scheduling-IsUnused d me w off u,
  new_coroutine-at f default_stack (in_charge w) refl,
)

next_differs : (n : ℕ) → n % 4294967296 ≢ (n % 4294967296 + 1) % 4294967296
next_differs n h = omega arith

destroy-stacked :
    (i : ℕ) (c : Coroutine) (w : Thread)
    → w.store i ≡ some c
    → c.has_stack ≡ true
    → is_terminal c.state || is_exec c.state || is_init c.state ≡ true
    → destroy i w ≡ ok (record w { count = w.count - 1 })
unfolding destroy
destroy-stacked i c w e s t = simp (e, s, t)

-- The destructors pass when the temporary coroutine waits for a function and the idle one has ended.
destroy-both :
    (temp : Option ℕ) (i : ℕ) (c : Coroutine) (w : Thread)
    → IsFresh temp w
    → w.store i ≡ some c
    → c.has_stack ≡ true
    → c.state ≡ terminal
    → (w' : Thread) × ((destroy_temp temp w >>= λ w2. destroy i w2) ≡ ok w')
destroy-both none i c w f e s t = (_, destroy-stacked i c w e s (over c t))
  where
    over :
        (c : Coroutine)
        → c.state ≡ terminal
        → is_terminal c.state || is_exec c.state || is_init c.state ≡ true
    over c t = ap (λ s. is_terminal s || is_exec s || is_init s) t
destroy-both (some k) i c w (q, (a, b, h, z), n) e s t = (
  _,
  ap (λ o. o >>= λ w2. destroy i w2)
        (destroy-stacked k q w a h (ap (λ s. is_terminal s || is_exec s || is_init s) n))
      ∙ destroy-stacked i c (record w { count = w.count - 1 }) e s
          (ap (λ s. is_terminal s || is_exec s || is_init s) t),
)

module _ (run : ℕ → World → World × Stop) (poll : World → World) (quiet : IsQuiet run) where
  IsFresh-unscheduled :
      (temp : Option ℕ) (w : Thread)
      → IsFresh temp w
      → IsFresh temp (record w { scheduling = none })
  IsFresh-unscheduled none w h = tt
  IsFresh-unscheduled (some k) w h = h

  finish-IsDrained :
      (l : Locals) (y : World)
      → IsDrained run poll quiet l y
      → (w : Thread) × (finish l y.thread ≡ ok w)
  unfolding finish set_scheduling_coroutine
  finish-IsDrained l y e =
      destroy-both l.temp l.idle e.idle (record y.thread { scheduling = none })
        (IsFresh-unscheduled l.temp y.thread e.fresh) e.idle_stored e.idle_stack e.idle_over

  -- What follows the parts of `SchedulingFunc`.
  abbrev on_left : World → Thread → Option ℕ → Run Site
  on_left y v left =
      some (ok (record { world = record y { thread = v }; hooked = true; scheduler = left }))

  abbrev on_end : Option ℕ → World × Locals → Run Site
  on_end current e = some (finish e.1 e.0.thread) >=> λ v.
      some (set_scheduler none current) >=> λ left. on_left e.0 v left

  abbrev on_loop : ℕ → ℕ → Site → Option ℕ → Thread × Locals → Run Site
  on_loop fuel me s current b =
      loop run poll fuel me b.1 (record s.world { thread = b.0 }) >=> on_end current

  abbrev on_begin : ℕ → ℕ → Dummy → Callback → Site → Option ℕ → Run Site
  on_begin fuel me d f s current = some (begin d me f s.world.thread) >=> on_loop fuel me s current

  -- On a thread on which nothing was set up, and which the dummy main coroutine is not for,
  -- `SchedulingFunc` of a stopped scheduler returns, with fuel for two turns more than there are
  -- tasks, if each task is a callback that this thread may run, whose function returns or throws and
  -- leaves the thread and the list alone. No assertion fails, the list is empty behind it, and the
  -- thread is left hooked and without a scheduler.
  pub scheduling_func-returns :
      (fuel self me : ℕ) (d : Dummy) (f : Callback) (s : Site)
      → is_on_dummy d me ≡ false
      → s.scheduler ≡ none
      → IsUnused s.world.thread
      → s.world.shared.stopped ≡ true
      → All (IsCall me) s.world.shared.task_list
      → length s.world.shared.task_list + 2 ≤ fuel
      → (s' : Site) × (scheduling_func run poll fuel self me d f s ≡ some (ok s'))
        × (s'.world.shared.task_list ≡ [])
        × (s'.world.shared.stopped ≡ true)
        × (s'.hooked ≡ true)
        × (s'.scheduler ≡ none)
  unfolding scheduling_func set_scheduler
  scheduling_func-returns fuel self me d f s off free unused stopped calls h =
      let w = with_new f default_stack (in_charge s.world.thread) in
      let idle = (in_charge s.world.thread).next_id in
      let l : Locals = record { temp = none; idle = idle } in
      let x : World = record s.world { thread = w } in
      let start : IsDraining run poll quiet me s.world.thread.next_id l x = record {
        in_loop = (refl, refl, refl);
        fresh = tt;
        idle = made f default_stack;
        idle_task =
            (put_same idle (made f default_stack) (in_charge s.world.thread), refl, refl, refl);
        waits = inl refl;
        other = next_differs (s.world.thread.next_id + 1);
        stopped = stopped;
      } in
      let r =
        loop-IsDrained run poll quiet fuel me s.world.thread.next_id l x s.world.shared.task_list
          start refl calls h in
      let q = finish-IsDrained r.1 r.0 r.3 in
      (
        record { world = record r.0 { thread = q.0 }; hooked = true; scheduler = none },
        ap
              (λ o. some (check (is_none o) >> ok (some self)) >=> λ current.
                on_begin fuel me d f s current)
              free
            ∙ ap (λ o. some o >=> λ b. on_loop fuel me s (some self) b)
                (begin-IsUnused d me f s.world.thread off unused)
            ∙ ap (λ o. o >=> on_end (some self)) r.2
            ∙ ap (λ o. some o >=> λ v. on_left r.0 v none) q.1,
        r.3.no_tasks,
        r.3.stopped,
        refl,
        refl,
      )
