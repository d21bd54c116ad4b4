-- ===== src/Scheduler/Loop/Drain.antt =====
-- That the loop of `SchedulingFunc` ends once the scheduler is stopped (sylar/concurrency/scheduler.cpp).
use sylar_study.Prelude.{
  ℕ, zero, suc, ◌+◌, ◌-◌, ◌≤◌, ◌≡◌, ◌≢◌, refl, sym, ap, ◌∙◌, ◌⊎◌, inl, inr, Bool, true, false, not,
  ◌&&◌, Option, none, some, List, [], ◌∷◌, All, length, if◌then◌else◌, Outcome, ok, ◌>>=◌, ◌>=>◌,
  get, arith,
}
use sylar_study.Timer.{Callback}
use sylar_study.Coroutine.{
  init, exec, hold, terminal, Coroutine, Thread, is_terminal, put, Stop, returns, throws,
  yields_hold, is_except, is_runnable, swap_in, stop, set_state,
}
use sylar_study.Coroutine.Switch.{after, Left, get-at, put_same, stop-at, swap_in-task}
use sylar_study.Coroutine.Reuse.{IsTask}
use sylar_study.Scheduler.{
  Invocable, Shared, World, Locals, Picked, pick, may_take, is_for_other, need_notify, notify,
  callback_turn, run_coroutine, settle_temp, idle_turn, dispatch, turn, is_stopped, handle_idle,
  is_empty, without_coroutine,
}
use sylar_study.Scheduler.Turn.{
  InLoop, IsFresh, Keeps, entered, requeued, settled, temp_id, run_coroutine-after, wrap-IsFresh,
  put_other, settle_temp-IsFresh,
}
use sylar_study.Scheduler.Loop.{loop}

-- The functions leave the thread and the list alone, and do not yield.
abbrev pub IsQuiet : (ℕ → World → World × Stop) → Type 0
IsQuiet run =
    (i : ℕ) (x : World)
    → ((run i x).0.thread ≡ x.thread)
      × ((run i x).0.shared.task_list ≡ x.shared.task_list)
      × ((run i x).0.shared.stopped ≡ x.shared.stopped)
      × (((run i x).1 ≡ returns) ⊎ ((run i x).1 ≡ throws))

IsQuiet-Keeps : (run : ℕ → World → World × Stop) → IsQuiet run → Keeps run
IsQuiet-Keeps run q i x =
    let e = (q i x).0 in
    (ap (λ w. w.store i) e, ap (λ w. w.current) e, ap (λ w. w.scheduling) e, ap (λ w. w.main) e)

-- A stop that ends the function.
abbrev IsEnd : Stop → Type 0
IsEnd s = (s ≡ returns) ⊎ (s ≡ throws)

requeued-end : (s : Stop) (i : ℕ) (x : Shared) → IsEnd s → requeued s i x ≡ x
requeued-end s i x (inl e) = ap (λ t. requeued t i x) e
requeued-end s i x (inr e) = ap (λ t. requeued t i x) e

settled-end : (s : Stop) (i : ℕ) → IsEnd s → settled s i ≡ some i
settled-end s i (inl e) = ap (λ t. settled t i) e
settled-end s i (inr e) = ap (λ t. settled t i) e

-- A task that this thread may run and that is a callback.
abbrev pub IsCall : ℕ → Invocable → Type 0
IsCall me t =
    (is_for_other me t ≡ false) × (t.coroutine ≡ none) × ((f : Callback) × (t.callback ≡ some f))

pick-mine :
    (me : ℕ) (w : Thread) (t : Invocable) (ts : List Invocable) (f : Callback)
    → is_for_other me t ≡ false
    → t.coroutine ≡ none
    → t.callback ≡ some f
    → pick me w (t ∷ ts) ≡ ok (record { task = some t; rest = ts; skipped = false })
unfolding pick may_take
pick-mine me w t ts f mine no_co has_f = simp (mine, no_co, has_f)

notified_tasks : (b : Bool) (s : Shared) → (if b then notify 1 s else s).task_list ≡ s.task_list
notified_tasks true s = refl
notified_tasks false s = refl

notified_stopped : (b : Bool) (s : Shared) → (if b then notify 1 s else s).stopped ≡ s.stopped
notified_stopped true s = refl
notified_stopped false s = refl

waits_on :
    (c : Coroutine)
    → (c.state ≡ init) ⊎ (c.state ≡ hold)
    → (is_terminal c.state ≡ false) × (is_runnable c.state ≡ true)
waits_on c (inl e) = (ap is_terminal e, ap is_runnable e)
waits_on c (inr e) = (ap is_terminal e, ap is_runnable e)

module _ (run : ℕ → World → World × Stop) (poll : World → World) (quiet : IsQuiet run) where
  -- What a turn for a callback keeps, but for the coroutine of the callback.
  record Turned (temp : Option ℕ) (b : ℕ) (x y : World) (temp' : Option ℕ) : Type 0 where
    pub in_loop : InLoop b y.thread
    pub fresh : IsFresh temp' y.thread
    pub named : temp' ≡ some (temp_id temp x.thread)
    pub others : (j : ℕ) → j ≢ temp_id temp x.thread → y.thread.store j ≡ x.thread.store j
    pub tasks : y.shared.task_list ≡ x.shared.task_list
    pub stopped : y.shared.stopped ≡ x.shared.stopped

  callback_turn-Turned :
      (f : Callback) (temp : Option ℕ) (b : ℕ) (x : World)
      → InLoop b x.thread
      → IsFresh temp x.thread
      → (y : World) × (temp' : Option ℕ) × (callback_turn run poll f temp x ≡ ok (y, temp'))
        × Turned temp b x y temp'
  unfolding callback_turn
  callback_turn-Turned f temp b x l h =
      let keeps = IsQuiet-Keeps run quiet in
      let fresh = wrap-IsFresh run poll keeps f temp b x l h in
      let i = fresh.1 in
      let c = fresh.2 in
      let e = entered run poll keeps i c fresh.0 in
      let ran =
        run_coroutine-after run poll keeps i b c fresh.0 fresh.4 fresh.5 (ap is_runnable fresh.6) in
      let st = (run i e).1 in
      let set = settle_temp-IsFresh run poll keeps i b st c ran.0 ran.2 ran.3 in
      let q = quiet i e in
      let shared = set.5 ∙ requeued-end st i ran.0.shared q.3 ∙ ran.4 in
      (
        set.0,
        set.1,
        ap (λ o. o >>= λ r. (run_coroutine run poll r.1 r.0 >>= λ y. settle_temp run poll r.1 y))
              fresh.3
            ∙ ap (λ o. o >>= λ y. settle_temp run poll i y) ran.1
            ∙ set.2,
        record {
          in_loop = set.3;
          fresh = set.4;
          named = set.6 ∙ settled-end st i q.3 ∙ ap some fresh.8;
          others = λ j n.
              let m : j ≢ i = λ z. n (z ∙ fresh.8) in
              set.7 j m
              ∙ ran.5 j m
              ∙ ap (λ w. w.store j) q.0
              ∙ put_other i j (record c { state = exec })
                  (record fresh.0.thread { current = some i }) m
              ∙ fresh.9 j m;
          tasks = ap (λ z. z.task_list) shared ∙ q.1 ∙ ap (λ z. z.task_list) fresh.10;
          stopped = ap (λ z. z.stopped) shared ∙ q.2 ∙ ap (λ z. z.stopped) fresh.10;
        },
      )

  -- Before a turn of the loop of a stopped scheduler: the idle coroutine has not ended.
  pub record IsDraining (me b : ℕ) (l : Locals) (x : World) : Type 0 where
    pub in_loop : InLoop b x.thread
    pub fresh : IsFresh l.temp x.thread
    pub idle : Coroutine
    pub idle_task : IsTask l.idle idle x.thread
    pub waits : (idle.state ≡ init) ⊎ (idle.state ≡ hold)
    pub other : l.idle ≢ temp_id l.temp x.thread
    pub stopped : x.shared.stopped ≡ true

  -- What follows the search of the list.
  abbrev after_pick : Locals → World → Picked → Outcome (Bool × World × Locals)
  after_pick l x p =
      let s : Shared = record x.shared { task_list = p.rest } in
      dispatch run poll p l (record x { shared = if need_notify p then notify 1 s else s })

  turn_on :
      (me : ℕ) (l : Locals) (x : World) (ts : List Invocable)
      → x.shared.task_list ≡ ts
      → turn run poll me l x ≡ (pick me x.thread ts >>= after_pick l x)
  unfolding turn
  turn_on me l x ts e = ap (λ q. pick me x.thread q >>= after_pick l x) e

  without-callback :
      (t : Invocable) (f : Callback) (l : Locals) (x : World)
      → t.callback ≡ some f
      → without_coroutine run poll t l x
        ≡ (callback_turn run poll f l.temp x >>= λ r. ok (true, r.0, record l { temp = r.1 }))
  unfolding without_coroutine
  without-callback t f l x has_f =
      ap
        (λ o. elim o [
          | some g ↦
              (callback_turn run poll g l.temp x >>= λ r. ok (true, r.0, record l { temp = r.1 }))
          | none ↦ ok (true, x, l)
        ])
        has_f

  dispatch-callback :
      (t : Invocable) (ts : List Invocable) (f : Callback) (l : Locals) (x : World)
      → t.coroutine ≡ none
      → t.callback ≡ some f
      → dispatch run poll (record { task = some t; rest = ts; skipped = false }) l x
        ≡ (callback_turn run poll f l.temp x >>= λ r. ok (true, r.0, record l { temp = r.1 }))
  unfolding dispatch
  dispatch-callback t ts f l x no_co has_f = simp no_co (without-callback t f l x has_f)

  -- A turn for a callback.
  call-IsDraining :
      (me b : ℕ) (l : Locals) (x : World) (t : Invocable) (ts : List Invocable)
      → IsDraining me b l x
      → x.shared.task_list ≡ t ∷ ts
      → IsCall me t
      → (l' : Locals) × (y : World) × (turn run poll me l x ≡ ok (true, y, l'))
        × IsDraining me b l' y
        × (y.shared.task_list ≡ ts)
  call-IsDraining me b l x t ts d e (mine, no_co, (f, has_f)) =
      let p : Picked = record { task = some t; rest = ts; skipped = false } in
      let s : Shared = record x.shared { task_list = ts } in
      let x1 : World = record x { shared = if need_notify p then notify 1 s else s } in
      let (y, temp, ran, r) = callback_turn-Turned f l.temp b x1 d.in_loop d.fresh in
      (
        record l { temp = temp },
        y,
        turn_on me l x (t ∷ ts) e
            ∙ ap (λ o. o >>= after_pick l x) (pick-mine me x.thread t ts f mine no_co has_f)
            ∙ dispatch-callback t ts f l x1 no_co has_f
            ∙ ap (λ o. o >>= λ q. ok (true, q.0, record l { temp = q.1 })) ran,
        record {
          in_loop = r.in_loop;
          fresh = r.fresh;
          idle = d.idle;
          idle_task = (
            r.others l.idle d.other ∙ d.idle_task.0,
            d.idle_task.1,
            d.idle_task.2,
            d.idle_task.3,
          );
          waits = d.waits;
          other = λ z. d.other (z ∙ ap (λ o. temp_id o y.thread) r.named);
          stopped = r.stopped ∙ (notified_stopped (need_notify p) s ∙ d.stopped);
        },
        r.tasks ∙ notified_tasks (need_notify p) s,
      )

  -- The idle coroutine behind the switch back.
  abbrev idle_settled : ℕ → Shared → Thread → Outcome (Bool × World)
  idle_settled i s w2 = do
    c2 ← get (w2.store i)
    w3 ←
        (if not (is_terminal c2.state) && not (is_except c2.state)
          then set_state i hold w2
          else ok w2)
    ok (true, record { thread = w3; shared = record s { idle_threads = s.idle_threads - 1 } })

  abbrev idle_rest : ℕ → World × Stop → Outcome (Bool × World)
  idle_rest i r = stop r.1 i r.0.thread >>= idle_settled i r.0.shared

  abbrev entered_idle : World → Thread → World
  entered_idle x w = record x {
    thread = w;
    shared = record x.shared { idle_threads = x.shared.idle_threads + 1 };
  }

  handle_idle-stopped :
      (x : World)
      → x.shared.stopped ≡ true
      → x.shared.task_list ≡ []
      → handle_idle run poll x ≡ (x, returns)
  unfolding handle_idle is_stopped
  handle_idle-stopped x s e =
      ap (λ b. if b then (x, returns) else (poll x, yields_hold)) (both s (ap is_empty e))
    where
      both : {p q : Bool} → p ≡ true → q ≡ true → p && q ≡ true
      both s e = ground arith

  -- The turn in which the idle coroutine of a stopped scheduler ends.
  idle_turn-ends :
      (i b : ℕ) (c : Coroutine) (x : World)
      → InLoop b x.thread
      → IsTask i c x.thread
      → is_terminal c.state ≡ false
      → is_runnable c.state ≡ true
      → x.shared.stopped ≡ true
      → x.shared.task_list ≡ []
      → (y : World) × (idle_turn run poll i x ≡ ok (true, y))
        × (y.thread.store i ≡ some (after returns c))
        × ((j : ℕ) → j ≢ i → y.thread.store j ≡ x.thread.store j)
        × (y.shared.task_list ≡ [])
        × (y.shared.stopped ≡ true)
  unfolding idle_turn
  idle_turn-ends i b c x (t, u, m) (e, d, h, k) nt n s empty =
      let busy : Coroutine = record c { state = exec } in
      let w1 = put i busy (record x.thread { current = some i }) in
      let x1 = entered_idle x w1 in
      let back = Left i busy (after returns busy) w1 in
      (
        record {
          thread = back;
          shared = record x1.shared { idle_threads = x1.shared.idle_threads - 1 };
        },
        get-at (x.thread.store i) c
              (λ q.
                if is_terminal q.state
                then ok (false, x)
                else (swap_in i x.thread >>= λ w.
                    idle_rest i (handle_idle run poll (entered_idle x w))))
              e
            ∙ ap
                (λ q.
                  if q
                  then ok (false, x)
                  else (swap_in i x.thread >>= λ w.
                      idle_rest i (handle_idle run poll (entered_idle x w))))
                nt
            ∙ ap (λ o. o >>= λ w. idle_rest i (handle_idle run poll (entered_idle x w)))
                (swap_in-task i b c x.thread e d n u t)
            ∙ ap (idle_rest i) (handle_idle-stopped x1 s empty)
            ∙ ap (λ o. o >>= idle_settled i x1.shared)
                (stop-at i returns busy w1 (put_same i busy (record x.thread { current = some i }))
                  refl refl)
            ∙ get-at (back.store i) (after returns busy) _ (put_same i (after returns busy) w1),
        put_same i (after returns busy) w1,
        (λ j z.
            put_other i j (after returns busy) w1 z
            ∙ put_other i j busy (record x.thread { current = some i }) z),
        empty,
        s,
      )

  abbrev emptied : World → World
  emptied x = record x { shared = record x.shared { task_list = [] } }

  turn-empty :
      (me : ℕ) (l : Locals) (x : World)
      → x.shared.task_list ≡ []
      → turn run poll me l x ≡ (idle_turn run poll l.idle (emptied x) >>= λ r. ok (r.0, r.1, l))
  unfolding pick need_notify dispatch
  turn-empty me l x e = turn_on me l x [] e

  -- A turn in which the idle coroutine has ended leaves the loop.
  idle_turn-over :
      (i : ℕ) (c : Coroutine) (x : World)
      → x.thread.store i ≡ some c
      → is_terminal c.state ≡ true
      → idle_turn run poll i x ≡ ok (false, x)
  unfolding idle_turn
  idle_turn-over i c x e t =
      get-at (x.thread.store i) c
        (λ q.
          if is_terminal q.state
          then ok (false, x)
          else (swap_in i x.thread >>= λ w. idle_rest i (handle_idle run poll (entered_idle x w))))
        e
      ∙ ap
          (λ q.
            if q
            then ok (false, x)
            else (swap_in i x.thread >>= λ w.
                idle_rest i (handle_idle run poll (entered_idle x w))))
          t

  -- What the loop leaves.
  pub record IsDrained (l : Locals) (y : World) : Type 0 where
    pub no_tasks : y.shared.task_list ≡ []
    pub stopped : y.shared.stopped ≡ true
    pub idle : Coroutine
    pub idle_stored : y.thread.store l.idle ≡ some idle
    pub idle_over : idle.state ≡ terminal
    pub idle_stack : idle.has_stack ≡ true
    pub fresh : IsFresh l.temp y.thread

  loop-turn :
      (fuel me : ℕ) (l l' : Locals) (x y : World) (b : Bool)
      → turn run poll me l x ≡ ok (b, y, l')
      → loop run poll (suc fuel) me l x
        ≡ (if b then loop run poll fuel me l' y else some (ok (y, l')))
  unfolding loop
  loop-turn fuel me l l' x y b e =
      ap
        (λ o. some o >=> λ r. (if r.0 then loop run poll fuel me r.2 r.1 else some (ok (r.1, r.2))))
        e

  IsFresh-others :
      (temp : Option ℕ) (i : ℕ) (w w' : Thread)
      → IsFresh temp w
      → i ≢ temp_id temp w
      → ((j : ℕ) → j ≢ i → w'.store j ≡ w.store j)
      → IsFresh temp w'
  IsFresh-others none i w w' f n same_store = tt
  IsFresh-others (some k) i w w' (c, (e, t, h, z), q) n same_store =
      (c, (same_store k (λ y. n (sym y)) ∙ e, t, h, z), q)

  last_turns :
      (fuel me b : ℕ) (l : Locals) (x : World)
      → IsDraining me b l x
      → x.shared.task_list ≡ []
      → (y : World) × (loop run poll (suc (suc fuel)) me l x ≡ some (ok (y, l))) × IsDrained l y
  last_turns fuel me b l x d e =
      let o =
        idle_turn-ends l.idle b d.idle (emptied x) d.in_loop d.idle_task (waits_on d.idle d.waits).0
          (waits_on d.idle d.waits).1 d.stopped refl in
      let y = o.0 in
      (
        emptied y,
        loop-turn (suc fuel) me l l x y true
              (turn-empty me l x e ∙ ap (λ r. r >>= λ q. ok (q.0, q.1, l)) o.1)
            ∙ loop-turn fuel me l l y (emptied y) false (
                turn-empty me l y o.4
                ∙ ap (λ r. r >>= λ q. ok (q.0, q.1, l))
                    (idle_turn-over l.idle (after returns d.idle) (emptied y) o.2 refl)),
        record {
          no_tasks = refl;
          stopped = o.5;
          idle = after returns d.idle;
          idle_stored = o.2;
          idle_over = refl;
          idle_stack = d.idle_task.2;
          fresh = IsFresh-others l.temp l.idle x.thread y.thread d.fresh (λ z. d.other z) o.3;
        },
      )

  -- When a scheduler is stopped and each task of its list is a callback that this thread may run,
  -- the loop of the thread ends, with fuel for two turns more than there are tasks, if the
  -- functions return or throw and leave the thread and the list alone, and the idle coroutine has
  -- not ended before. The list is then empty and the idle coroutine has ended.
  pub loop-IsDrained :
      (fuel me b : ℕ) (l : Locals) (x : World) (ts : List Invocable)
      → IsDraining me b l x
      → x.shared.task_list ≡ ts
      → All (IsCall me) ts
      → length ts + 2 ≤ fuel
      → (y : World) × (l' : Locals) × (loop run poll fuel me l x ≡ some (ok (y, l')))
        × IsDrained l' y
  loop-IsDrained zero me b l x ts d e a h = absurd (omega arith)
  loop-IsDrained (suc zero) me b l x [] d e a h = absurd (omega arith)
  loop-IsDrained (suc (suc fuel)) me b l x [] d e a h =
      let r = last_turns fuel me b l x d e in (r.0, l, r.1, r.2)
  loop-IsDrained (suc fuel) me b l x (t ∷ ts) d e (c, a) h =
      let s = call-IsDraining me b l x t ts d e c in
      let r = loop-IsDrained fuel me b s.0 s.1 ts s.3 s.4 a (omega arith) in
      (r.0, r.1, loop-turn fuel me l s.0 x s.1 true s.2 ∙ r.2, r.3)
