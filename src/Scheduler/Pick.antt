-- ===== src/Scheduler/Pick.antt =====
-- Which task a thread takes from the list (the loop in SchedulingFunc, sylar/concurrency/scheduler.cpp).
use sylar_study.Prelude.{
  ok-injective, ℕ, ◌≡◌, refl, sym, subst, ap, ◌∙◌, ◌⊎◌, inl, inr, true, false, not, none, some,
  List, [], ◌∷◌, ◌++◌, if◌then◌else◌, ok, ◌>>=◌, ◌>>◌, >>=-eq-ok, Bool-cases, All, Bool, arith,
}
use sylar_study.Coroutine.{Thread}
use sylar_study.Timer.{hand_over}
use sylar_study.Scheduler.{
  Shared, co, coroutine_task, run_callback, Invocable, Picked, pick, skip, need_notify,
  is_for_other, may_take, is_empty,
}

-- The task is bound to a thread that is not this one.
abbrev pub IsElsewhere : ℕ → Invocable → Type 0
IsElsewhere me t = is_for_other me t ≡ true

-- Either no task of the list is for this thread, or the task is the first one that is.
abbrev pub IsFirst : ℕ → Thread → List Invocable → Picked → Type 0
IsFirst me w ts p =
    ((p.task ≡ none) × All (IsElsewhere me) ts × (p.rest ≡ ts))
    ⊎ ((before : List Invocable) × (t : Invocable) × (after : List Invocable) × (p.task ≡ some t)
        × (ts ≡ before ++ (t ∷ after))
        × All (IsElsewhere me) before
        × (is_for_other me t ≡ false)
        × (may_take t w ≡ ok tt)
        × (p.rest ≡ before ++ after))

IsFirst-skip :
    (me : ℕ) (w : Thread) (t : Invocable) (ts : List Invocable) (p : Picked)
    → IsElsewhere me t
    → IsFirst me w ts p
    → IsFirst me w (t ∷ ts) (skip t p)
IsFirst-skip me w t ts p h (inl (n, a, r)) = inl (n, (h, a), ap (λ z. t ∷ z) r)
IsFirst-skip me w t ts p h (inr (before, u, after, n, e, a, m, o, r)) =
    inr (t ∷ before, u, after, n, ap (λ z. t ∷ z) e, (h, a), m, o, ap (λ z. t ∷ z) r)

pick-elsewhere :
    (me : ℕ) (w : Thread) (t : Invocable) (ts : List Invocable)
    → is_for_other me t ≡ true
    → pick me w (t ∷ ts) ≡ (pick me w ts >>= λ p. ok (skip t p))
unfolding pick
pick-elsewhere me w t ts h =
    ap
      (λ b.
        if b
        then (pick me w ts >>= λ p. ok (skip t p))
        else (may_take t w >> ok (record { task = some t; rest = ts; skipped = false })))
      h

pick-here :
    (me : ℕ) (w : Thread) (t : Invocable) (ts : List Invocable)
    → is_for_other me t ≡ false
    → pick me w (t ∷ ts)
      ≡ (may_take t w >> ok (record { task = some t; rest = ts; skipped = false }))
unfolding pick
pick-here me w t ts h =
    ap
      (λ b.
        if b
        then (pick me w ts >>= λ p. ok (skip t p))
        else (may_take t w >> ok (record { task = some t; rest = ts; skipped = false })))
      h

-- What a search of a list with a task at its head leaves.
pick-cases :
    (me : ℕ) (w : Thread) (t : Invocable) (ts : List Invocable) (p : Picked)
    → pick me w (t ∷ ts) ≡ ok p
    → ((is_for_other me t ≡ true) × (q : Picked) × (pick me w ts ≡ ok q) × (skip t q ≡ p))
      ⊎ ((is_for_other me t ≡ false)
          × (may_take t w ≡ ok tt)
          × (record { task = some t; rest = ts; skipped = false } ≡ p))
pick-cases me w t ts p h = elim (Bool-cases (is_for_other me t)) [
  | inl e ↦
      let r =
        >>=-eq-ok (pick me w ts) (λ q. ok (skip t q)) (sym (pick-elsewhere me w t ts e) ∙ h) in
      inl (e, r.0, r.1, ok-injective r.2)
  | inr e ↦
      let r =
        >>=-eq-ok (may_take t w) (λ _. ok (record { task = some t; rest = ts; skipped = false }))
          (sym (pick-here me w t ts e) ∙ h) in
      inr (e, r.1, ok-injective r.2)
]

-- When the search ends with no failed assertion, either every task is bound to another thread and
-- the list is left as it was, or the task that is taken is the first that this thread may run, all
-- before it are bound to other threads, and the list loses this task alone and keeps its order.
pub pick-IsFirst :
    (me : ℕ) (w : Thread) (ts : List Invocable) (p : Picked)
    → pick me w ts ≡ ok p
    → IsFirst me w ts p
unfolding pick
pick-IsFirst me w [] p h =
    let e = ok-injective (sym h) in inl (ap (λ q. q.task) e, tt, ap (λ q. q.rest) e)
pick-IsFirst me w (t ∷ ts) p h = elim (pick-cases me w t ts p h) [
  | inl (e, q, hq, s) ↦
      subst (IsFirst me w (t ∷ ts)) s (IsFirst-skip me w t ts q e (pick-IsFirst me w ts q hq))
  | inr (e, m, s) ↦ subst (IsFirst me w (t ∷ ts)) s (inr ([], t, ts, refl, refl, tt, e, m, refl))
]

-- The list is searched to the end, or to a task that this thread may run.
pub pick_total :
    (me : ℕ) (w : Thread) (ts : List Invocable)
    → All (λ t. may_take t w ≡ ok tt) ts
    → (p : Picked) × (pick me w ts ≡ ok p)
unfolding pick
pick_total me w [] a = (_, refl)
pick_total me w (t ∷ ts) (h, a) = elim (Bool-cases (is_for_other me t)) [
  | inl e ↦
      let r = pick_total me w ts a in
      (skip t r.0, pick-elsewhere me w t ts e ∙ ap (λ o. o >>= λ p. ok (skip t p)) r.1)
  | inr e ↦ (
    _,
    pick-here me w t ts e
        ∙ ap (λ o. o >> ok (record { task = some t; rest = ts; skipped = false })) h,
  )
]

-- Another thread is woken exactly when the list is left with a task.
pub need_notify-pick :
    (me : ℕ) (w : Thread) (ts : List Invocable) (p : Picked)
    → pick me w ts ≡ ok p
    → need_notify p ≡ not (is_empty p.rest)
unfolding pick need_notify
need_notify-pick me w [] p h = ap (λ q. need_notify q) (sym e) ∙ ap (λ q. not (is_empty q.rest)) e
  where
    e : record { task = none; rest = []; skipped = false } ≡ p
    e = ok-injective h
need_notify-pick me w (t ∷ ts) p h = elim (pick-cases me w t ts p h) [
  | inl (e, q, hq, s) ↦ subst (λ r. need_notify r ≡ not (is_empty r.rest)) s refl
  | inr (e, m, s) ↦ subst (λ r. need_notify r ≡ not (is_empty r.rest)) s refl
]

-- `Co` adds its task at the end of the list.
pub co-task_list : (t : Invocable) (s : Shared) → (co t s).task_list ≡ s.task_list ++ (t ∷ [])
unfolding co
co-task_list t s = elim (Bool-cases (is_empty s.task_list)) [
  | inl e ↦ ground arith
  | inr e ↦ ground arith
]

-- The function that a sleeping coroutine gives to its timer adds the coroutine at the end of the list.
pub run_callback-hand_over :
    (user : ℕ → Shared → Shared) (alive : ℕ → Bool) (i : ℕ) (s : Shared)
    → (run_callback user alive (hand_over i) s).task_list ≡ s.task_list ++ (coroutine_task i ∷ [])
unfolding run_callback
run_callback-hand_over user alive i s = co-task_list (coroutine_task i) s
