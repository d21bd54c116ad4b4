-- ===== src/Scheduler/Pool/Wakeups.antt =====
-- That no wake-up of a thread is lost (sylar/concurrency/scheduler.cpp, notifier.cpp).
use sylar_study.Prelude.{
  ℕ, ◌≤◌, ◌<◌, ◌≡◌, ◌≢◌, sym, ap, ◌∙◌, ◌⊎◌, inl, inr, Bool, Bool-cases, true, false, not, Option,
  ◌==◌, ==_refl, if◌then◌else◌, ok, arith,
}
use sylar_study.Coroutine.{Thread}
use sylar_study.Scheduler.{Invocable, Shared, Picked, is_empty, co, pick, need_notify}
use sylar_study.Scheduler.Pick.{need_notify-pick}
use sylar_study.Scheduler.Pool.{
  Phase, searching, running, leaving, Pool, set_phase, handle_event_fd, post, searched, next_phase,
  notifying, stopping, Run, done, posting, marking_stopped, searching_list, leaving_search,
  ending_task, waking, notified_waking,
}

-- A thread that will search the list without being woken, or is about to notify.
abbrev pub IsAwake : Pool → ℕ → Type 0
IsAwake s t =
    (s.phase t ≡ searching)
    ⊎ (s.phase t ≡ running)
    ⊎ ((o : Option Invocable) × (s.phase t ≡ leaving true o))

-- The list is empty, or the eventfd is readable, or a thread is awake.
pub record IsAttended (s : Pool) : Type 0 where
  pub counted : s.consumed ≤ s.shared.notified
  pub attended :
      (is_empty s.shared.task_list ≡ true)
      ⊎ (s.consumed < s.shared.notified)
      ⊎ ((t : ℕ) × IsAwake s t)

set_phase-at : (me : ℕ) (k : Phase) (s : Pool) → (set_phase me k s).phase me ≡ k
set_phase-at me k s = ap (λ b. if b then k else s.phase me) (==_refl me)

co-cases :
    (t : Invocable) (s : Shared)
    → (s.notified < (co t s).notified)
      ⊎ ((is_empty s.task_list ≡ false) × ((co t s).notified ≡ s.notified))
unfolding co
co-cases t s = elim (Bool-cases (is_empty s.task_list)) [
  | inl e ↦ inl (ground arith)
  | inr e ↦ inr (e, ground arith)
]

post-IsAttended : (t : Invocable) (s : Pool) → IsAttended s → IsAttended (post t s)
post-IsAttended t s a = elim (co-cases t s.shared) [
  | inl h ↦ record {
    counted = omega (arith, a.counted, h);
    attended = inr (inl (omega (arith, a.counted, h)));
  }
  | inr (e, h) ↦ record {
    counted = omega (arith, a.counted, h);
    attended = elim a.attended [
      | inl z ↦ absurd (true≢false (sym z ∙ e))
      | inr (inl l) ↦ inr (inl (omega (arith, l, h)))
      | inr (inr x) ↦ inr (inr x)
    ];
  }
]
  where
    true≢false : true ≢ false
    true≢false z = cc

searched-IsAttended :
    (me : ℕ) (w : Thread) (p : Picked) (s : Pool)
    → pick me w s.shared.task_list ≡ ok p
    → IsAttended s
    → IsAttended (searched me p s)
searched-IsAttended me w p s h a =
    let at_me = set_phase-at me (leaving (need_notify p) p.task) s in
    elim (Bool-cases (need_notify p)) [
      | inl y ↦ record {
        counted = a.counted;
        attended = inr (inr (me, inr (inr (p.task, at_me ∙ ap (λ b. leaving b p.task) y))));
      }
      | inr n ↦ record {
        counted = a.counted;
        attended = inl (empty_rest (sym (need_notify-pick me w s.shared.task_list p h) ∙ n));
      }
    ]
  where
    empty_rest : not (is_empty p.rest) ≡ false → is_empty p.rest ≡ true
    empty_rest e = ground arith

-- A thread other than the one that leaves stays as it is.
leaving-IsAwake :
    (me t : ℕ) (o : Option Invocable) (k : Phase) (s : Pool)
    → s.phase me ≡ leaving false o
    → IsAwake s t
    → IsAwake (set_phase me k s) t
leaving-IsAwake me t o k s at awake = elim (Bool-cases (t == me)) [
  | inl e ↦ absurd (asleep (ap s.phase (equal t me e) ∙ at) awake)
  | inr n ↦
      let same : (set_phase me k s).phase t ≡ s.phase t = ap (λ b. if b then k else s.phase t) n in
      elim awake [
        | inl x ↦ inl (same ∙ x)
        | inr (inl x) ↦ inr (inl (same ∙ x))
        | inr (inr (u, x)) ↦ inr (inr (u, same ∙ x))
      ]
]
  where
    equal : (t me : ℕ) → (t == me) ≡ true → t ≡ me
    equal t me e = ground arith

    asleep : s.phase t ≡ leaving false o → ¬ IsAwake s t
    asleep e (inl x) = cc
    asleep e (inr (inl x)) = cc
    asleep e (inr (inr (u, x))) = cc

notifying-IsAttended :
    (me : ℕ) (b : Bool) (o : Option Invocable) (s : Pool)
    → s.phase me ≡ leaving b o
    → IsAttended s
    → IsAttended (notifying me b o s)
notifying-IsAttended me true o s at a = record {
  counted = omega (arith, a.counted);
  attended = inr (inl (omega (arith, a.counted)));
}
notifying-IsAttended me false o s at a = record {
  counted = a.counted;
  attended = elim a.attended [
    | inl e ↦ inl e
    | inr (inl l) ↦ inr (inl l)
    | inr (inr (t, awake)) ↦ inr (inr (t, leaving-IsAwake me t o (next_phase o) s at awake))
  ];
}

stopping-IsAttended : (n : ℕ) (s : Pool) → IsAttended s → IsAttended (stopping n s)
stopping-IsAttended n s a = record {
  counted = omega (arith, a.counted);
  attended = elim a.attended [
    | inl e ↦ inl e
    | inr (inl l) ↦ inr (inl (omega (arith, l)))
    | inr (inr x) ↦ inr (inr x)
  ];
}

handle_event_fd-counted :
    (s : Pool) → s.consumed ≤ s.shared.notified → (handle_event_fd s).consumed ≤ s.shared.notified
handle_event_fd-counted s h = ground arith

-- Whatever the threads do in whatever order: as long as the list has a task, the eventfd is readable,
-- or a thread is about to search the list, runs a task, after which it searches, or is about to
-- notify, having given the lock back; and no more was read from the eventfd than was written; if
-- this was so at first.
pub Run-IsAttended : {s s' : Pool} → IsAttended s → Run s s' → IsAttended s'
Run-IsAttended a done = a
Run-IsAttended a (posting {q = q} t run) = post-IsAttended t q (Run-IsAttended a run)
Run-IsAttended a (marking_stopped {q = q} n run) = stopping-IsAttended n q (Run-IsAttended a run)
Run-IsAttended a (searching_list {q = q} me w p run at h) =
    searched-IsAttended me w p q h (Run-IsAttended a run)
Run-IsAttended a (leaving_search {q = q} me b o run at) =
    notifying-IsAttended me b o q at (Run-IsAttended a run)
Run-IsAttended a (ending_task {q = q} me run at) = record {
  counted = (Run-IsAttended a run).counted;
  attended = inr (inr (me, inl (set_phase-at me searching q)));
}
Run-IsAttended a (waking {q = q} me run at) = record {
  counted = (Run-IsAttended a run).counted;
  attended = inr (inr (me, inl (set_phase-at me searching q)));
}
Run-IsAttended a (notified_waking {q = q} me run at) = record {
  counted = handle_event_fd-counted q (Run-IsAttended a run).counted;
  attended = inr (inr (me, inl (set_phase-at me searching (handle_event_fd q))));
}
