-- ===== src/Scheduler/Turn.antt =====
-- What a turn of the loop of SchedulingFunc does with a callback (sylar/concurrency/scheduler.cpp).
use sylar_study.Prelude.{
  ℕ, ◌+◌, ◌-◌, ◌≡◌, ◌≢◌, refl, ap, ◌∙◌, true, false, ◌||◌, Option, none, some, if◌then◌else◌,
  Outcome, ok, Bool, not, List, fault, thread_ended, ◌>>=◌, arith,
}
use sylar_study.Timer.{Callback}
use sylar_study.Coroutine.{
  State, init, exec, hold, ready, terminal, except, is_init, is_terminal, is_except, is_runnable,
  is_finished, Coroutine, Thread, is_none, put, stop, Stop, returns, throws, yields_hold,
  yields_ready,
}
use sylar_study.Coroutine.Switch.{
  after, Left, get-at, put_same, stop-at, swap_in-task, swap_in-finished,
}
use sylar_study.Coroutine.Reuse.{IsTask, reset-at, set_state-at, new_coroutine-at, made, with_new}
use sylar_study.Scheduler.{
  Invocable, Locals, dispatch, without_coroutine, Shared, World, co, coroutine_task, run_coroutine,
  settle_temp, give_up, settle_coroutine, wrap, callback_turn, coroutine_turn, default_stack,
}

-- The thread runs its scheduling coroutine, and has a main coroutine.
abbrev pub InLoop : ℕ → Thread → Type 0
InLoop b w = (w.current ≡ some b) × (w.scheduling ≡ some b) × (is_none w.main ≡ false)

-- The temporary coroutine, when there is one, waits for a function.
abbrev pub IsFresh : Option ℕ → Thread → Type 0
IsFresh none w = Unit
IsFresh (some i) w = (c : Coroutine) × IsTask i c w × (c.state ≡ init)

-- What the threads share, when the function has given control back.
abbrev pub released : Shared → Shared
released s = record s { active_threads = s.active_threads - 1 }

-- A function leaves the coroutine it runs on and the pointers of its thread alone.
abbrev pub Keeps : (ℕ → World → World × Stop) → Type 0
Keeps run =
    (i : ℕ) (x : World)
    → ((run i x).0.thread.store i ≡ x.thread.store i)
      × ((run i x).0.thread.current ≡ x.thread.current)
      × ((run i x).0.thread.scheduling ≡ x.thread.scheduling)
      × ((run i x).0.thread.main ≡ x.thread.main)

abbrev reused : Coroutine → Option Callback → Coroutine
reused c g = record c { func = g; state = init }

-- What the loop does with the list behind the switch: a coroutine that is ready is queued again.
abbrev pub requeued : Stop → ℕ → Shared → Shared
requeued yields_ready i s = co (coroutine_task i) s
requeued _ i s = s

pub put_other : (i j : ℕ) (c : Coroutine) (w : Thread) → j ≢ i → (put i c w).store j ≡ w.store j
put_other i j c w n = ground arith

-- The coroutine that a callback is wrapped into.
abbrev pub temp_id : Option ℕ → Thread → ℕ
temp_id none w = w.next_id
temp_id (some i) w = i

-- What is left of the temporary coroutine.
abbrev pub settled : Stop → ℕ → Option ℕ
settled returns i = some i
settled throws i = some i
settled yields_hold i = none
settled yields_ready i = none

-- No state is both of the states that the loop tells apart.
not_both : (s : State) → (not (is_terminal s) || not (is_except s)) ≡ true
not_both init = refl
not_both exec = refl
not_both hold = refl
not_both ready = refl
not_both terminal = refl
not_both except = refl

module _ (run : ℕ → World → World × Stop) (poll : World → World) (keeps : Keeps run) where
  -- The world in which the function of a coroutine starts to run.
  abbrev pub entered : ℕ → Coroutine → World → World
  entered i c x = record {
    thread = put i (record c { state = exec }) (record x.thread { current = some i });
    shared = record x.shared { active_threads = x.shared.active_threads + 1 };
  }

  -- What follows the switch into a coroutine.
  resumed : ℕ → World → Outcome Thread → Outcome World
  resumed i x o = do
    w1 ← o
    let r = run i (record x {
      thread = w1;
      shared = record x.shared { active_threads = x.shared.active_threads + 1 };
    })
    w2 ← stop r.1 i r.0.thread
    ok (record {
      thread = w2;
      shared = record r.0.shared { active_threads = r.0.shared.active_threads - 1 };
    })

  -- A runnable coroutine of a task is run from the loop: the switch back leaves it in the
  -- state of its stop, and the thread in the loop.
  pub run_coroutine-after :
      (i b : ℕ) (c : Coroutine) (x : World)
      → InLoop b x.thread
      → IsTask i c x.thread
      → is_runnable c.state ≡ true
      → (y : World) × (run_coroutine run poll i x ≡ ok y)
        × InLoop b y.thread
        × IsTask i (after (run i (entered i c x)).1 c) y.thread
        × (y.shared ≡ released (run i (entered i c x)).0.shared)
        × ((j : ℕ) → j ≢ i → y.thread.store j ≡ (run i (entered i c x)).0.thread.store j)
  unfolding run_coroutine resumed
  run_coroutine-after i b c x (t, u, m) (e, d, h, k) n =
      let busy : Coroutine = record c { state = exec } in
      let r = run i (entered i c x) in
      let kept = keeps i (entered i c x) in
      let w = r.0.thread in
      let back = Left i busy (after r.1 busy) w in
      let s : Shared = record r.0.shared { active_threads = r.0.shared.active_threads - 1 } in
      (
        record { thread = back; shared = s },
        ap (resumed i x) (swap_in-task i b c x.thread e d n u t)
            ∙ ap (λ o. o >>= λ w2. ok (record { thread = w2; shared = s }))
                (stop-at i r.1 busy w
                  (kept.0 ∙ put_same i busy (record x.thread { current = some i })) kept.1 refl),
        (
          ap (λ q. if q then w.main else w.scheduling) d ∙ kept.2 ∙ u,
          kept.2 ∙ u,
          ap is_none kept.3 ∙ m,
        ),
        (put_same i (after r.1 busy) w, d, h, k),
        refl,
        (λ j n'. put_other i j (after r.1 busy) w n'),
      )

  -- The callback is in a coroutine that has not started.
  pub wrap-IsFresh :
      (f : Callback) (temp : Option ℕ) (b : ℕ) (x : World)
      → InLoop b x.thread
      → IsFresh temp x.thread
      → (y : World) × (i : ℕ) × (c : Coroutine) × (wrap run poll f temp x ≡ ok (y, i))
        × InLoop b y.thread
        × IsTask i c y.thread
        × (c.state ≡ init)
        × (c.func ≡ some f)
        × (i ≡ temp_id temp x.thread)
        × ((j : ℕ) → j ≢ i → y.thread.store j ≡ x.thread.store j)
        × (y.shared ≡ x.shared)
  unfolding wrap
  wrap-IsFresh f none b x (t, u, m) h = (
    record x { thread = with_new f default_stack x.thread },
    x.thread.next_id,
    made f default_stack,
    ap (λ o. o >>= λ r. ok (record x { thread = r.0 }, r.1))
        (new_coroutine-at f default_stack x.thread m),
    (t, u, m),
    (put_same x.thread.next_id (made f default_stack) x.thread, refl, refl, refl),
    refl,
    refl,
    refl,
    (λ j n. put_other x.thread.next_id j (made f default_stack) x.thread n),
    refl,
  )
  wrap-IsFresh f (some i) b x l (c, (e, d, h, k), q) =
      let c' : Coroutine = record c { func = some f; state = init } in
      (
        record x { thread = put i c' x.thread },
        i,
        c',
        ap (λ o. o >>= λ w. ok (record x { thread = w }, i))
            (reset-at i c (some f) x.thread (e, d, h, k)
              (ap (λ a. is_terminal a || is_except a || is_init a) q)),
        l,
        (put_same i c' x.thread, d, h, k),
        refl,
        refl,
        refl,
        (λ j n. put_other i j c' x.thread n),
        refl,
      )

  -- Behind the switch there is a temporary coroutine that waits for a function, or none.
  pub settle_temp-IsFresh :
      (i b : ℕ) (s : Stop) (c : Coroutine) (x : World)
      → InLoop b x.thread
      → IsTask i (after s c) x.thread
      → (y : World) × (temp : Option ℕ) × (settle_temp run poll i x ≡ ok (y, temp))
        × InLoop b y.thread
        × IsFresh temp y.thread
        × (y.shared ≡ requeued s i x.shared)
        × (temp ≡ settled s i)
        × ((j : ℕ) → j ≢ i → y.thread.store j ≡ x.thread.store j)
  unfolding settle_temp
  settle_temp-IsFresh i b returns c x l (e, d, h, k) = (
    record x { thread = put i (reused c none) x.thread },
    some i,
    get-at (x.thread.store i) (after returns c) _ e
        ∙ ap (λ o. o >>= λ w. ok (record x { thread = w }, some i))
            (reset-at i (after returns c) none x.thread (e, d, h, k) refl),
    l,
    (reused c none, (put_same i (reused c none) x.thread, d, h, k), refl),
    refl,
    refl,
    (λ j n. put_other i j (reused c none) x.thread n),
  )
  settle_temp-IsFresh i b throws c x l (e, d, h, k) = (
    record x { thread = put i (reused c none) x.thread },
    some i,
    get-at (x.thread.store i) (after throws c) _ e
        ∙ ap (λ o. o >>= λ w. ok (record x { thread = w }, some i))
            (reset-at i (after throws c) none x.thread (e, d, h, k) refl),
    l,
    (reused c none, (put_same i (reused c none) x.thread, d, h, k), refl),
    refl,
    refl,
    (λ j n. put_other i j (reused c none) x.thread n),
  )
  settle_temp-IsFresh i b yields_hold c x l (e, d, h, k) = (
    record x { thread = put i (after yields_hold c) x.thread },
    none,
    get-at (x.thread.store i) (after yields_hold c) _ e
        ∙ ap
            (λ o. o >>= λ w.
              give_up (after yields_hold c) i w >>= λ w1. ok (record x { thread = w1 }, none))
            (set_state-at i (after yields_hold c) hold x.thread e),
    l,
    tt,
    refl,
    refl,
    (λ j n. put_other i j (after yields_hold c) x.thread n),
  )
  settle_temp-IsFresh i b yields_ready c x l (e, d, h, k) = (
    record x { shared = co (coroutine_task i) x.shared },
    none,
    get-at (x.thread.store i) (after yields_ready c) _ e,
    l,
    tt,
    refl,
    refl,
    (λ j n. refl),
  )

  -- When the functions that the thread runs leave the thread's pointers and their own coroutines
  -- alone, a turn for a callback meets no failed assertion: the temporary coroutine, if there is
  -- one, waits for a function before and after, and the thread is back in its loop.
  pub callback_turn-IsFresh :
      (f : Callback) (temp : Option ℕ) (b : ℕ) (x : World)
      → InLoop b x.thread
      → IsFresh temp x.thread
      → (y : World) × (temp' : Option ℕ) × (callback_turn run poll f temp x ≡ ok (y, temp'))
        × InLoop b y.thread
        × IsFresh temp' y.thread
  unfolding callback_turn
  callback_turn-IsFresh f temp b x l h =
      let fresh = wrap-IsFresh f temp b x l h in
      let i = fresh.1 in
      let c = fresh.2 in
      let ran = run_coroutine-after i b c fresh.0 fresh.4 fresh.5 (ap is_runnable fresh.6) in
      let settled = settle_temp-IsFresh i b (run i (entered i c fresh.0)).1 c ran.0 ran.2 ran.3 in
      (
        settled.0,
        settled.1,
        ap (λ o. o >>= λ r. (run_coroutine run poll r.1 r.0 >>= λ y. settle_temp run poll r.1 y))
              fresh.3
            ∙ ap (λ o. o >>= λ y. settle_temp run poll i y) ran.1
            ∙ settled.2,
        settled.3,
        settled.4,
      )

  settle_coroutine-at :
      (i : ℕ) (s : Stop) (c : Coroutine) (x : World)
      → x.thread.store i ≡ some (after s c)
      → (y : World) × (settle_coroutine run poll i x ≡ ok y)
        × (y.thread.store i ≡ some (after s c))
        × (y.thread.current ≡ x.thread.current)
        × (y.thread.scheduling ≡ x.thread.scheduling)
        × (y.thread.main ≡ x.thread.main)
        × (y.shared ≡ requeued s i x.shared)
  unfolding settle_coroutine
  settle_coroutine-at i returns c x e =
      (x, get-at (x.thread.store i) (after returns c) _ e, e, refl, refl, refl, refl)
  settle_coroutine-at i throws c x e =
      (x, get-at (x.thread.store i) (after throws c) _ e, e, refl, refl, refl, refl)
  settle_coroutine-at i yields_hold c x e = (
    record x { thread = put i (after yields_hold c) x.thread },
    get-at (x.thread.store i) (after yields_hold c) _ e
        ∙ ap (λ o. o >>= λ w. ok (record x { thread = w }))
            (set_state-at i (after yields_hold c) hold x.thread e),
    put_same i (after yields_hold c) x.thread,
    refl,
    refl,
    refl,
    refl,
  )
  settle_coroutine-at i yields_ready c x e = (
    record x { shared = co (coroutine_task i) x.shared },
    get-at (x.thread.store i) (after yields_ready c) _ e,
    e,
    refl,
    refl,
    refl,
    refl,
  )

  -- When the functions that the thread runs leave the thread's pointers and their own coroutines
  -- alone, a turn for a coroutine that is runnable, neither running nor finished, ends in the loop,
  -- up to where the next turn gives up the loop's pointer to it. The coroutine is in the state of its
  -- stop, and it is queued again exactly when it stopped to be ready: else the list is the one that
  -- its function left.
  pub coroutine_turn-after :
      (i b : ℕ) (c : Coroutine) (x : World)
      → InLoop b x.thread
      → IsTask i c x.thread
      → is_runnable c.state ≡ true
      → (y : World) × (coroutine_turn run poll i x ≡ ok y)
        × InLoop b y.thread
        × (y.thread.store i ≡ some (after (run i (entered i c x)).1 c))
        × (y.shared
            ≡ requeued (run i (entered i c x)).1 i (released (run i (entered i c x)).0.shared))
  unfolding coroutine_turn
  coroutine_turn-after i b c x l t n =
      let ran = run_coroutine-after i b c x l t n in
      let s = (run i (entered i c x)).1 in
      let set = settle_coroutine-at i s c ran.0 ran.3.0 in
      (
        set.0,
        ap (λ o. o >>= λ y. settle_coroutine run poll i y) ran.1 ∙ set.1,
        (set.3 ∙ ran.2.0, set.4 ∙ ran.2.1, ap is_none set.5 ∙ ran.2.2),
        set.2,
        set.6 ∙ ap (requeued s i) ran.4,
      )

  -- A coroutine in the list that has finished passes the test of the loop all the same, is switched
  -- to, and the thread ends.
  pub dispatch-finished :
      (i b : ℕ) (c : Coroutine) (rest : List Invocable) (skipped : Bool) (l : Locals) (x : World)
      → InLoop b x.thread
      → IsTask i c x.thread
      → is_finished c.state ≡ true
      → dispatch run poll
          (record { task = some (coroutine_task i); rest = rest; skipped = skipped })
          l
          x
        ≡ fault thread_ended
  unfolding dispatch coroutine_turn run_coroutine resumed
  dispatch-finished i b c rest skipped l x (t, u, m) (e, d, h, k) over =
      get-at (x.thread.store i) c
        (λ c'.
          if not (is_terminal c'.state) || not (is_except c'.state)
          then (coroutine_turn run poll i x >>= λ y. ok (true, y, l))
          else without_coroutine run poll (coroutine_task i) l x)
        e
      ∙ ap
          (λ q.
            if q
            then (coroutine_turn run poll i x >>= λ y. ok (true, y, l))
            else without_coroutine run poll (coroutine_task i) l x)
          (not_both c.state)
      ∙ ap (λ o. (resumed i x o >>= λ y. settle_coroutine run poll i y) >>= λ y. ok (true, y, l))
          (swap_in-finished i b c x.thread e d over u t)
